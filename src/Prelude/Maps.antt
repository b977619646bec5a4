-- ===== src/Prelude/Maps.antt =====
-- `DashMap` and `HashMap`, keyed by identifiers, as association lists. The code only compares keys
-- for equality, so a key is a number. Iteration order is the list's.
use Prim.Native.Nat.{ℕ, suc, ◌+◌}
use mathlib.Core.Path.{◌≡◌, refl}
use mathlib.Core.Bool.{Bool, true, false}
use mathlib.Core.Option
use mathlib.Core.Option.{Option, none, some}
use mathlib.Core.List.{List, [], ◌∷◌}
use native.Mathlib.Omega.{arith}
use roomler.Prelude.Lists.{contains}
use mathlib.Core.Logic.{inl, inr}
use roomler.Prelude.Tests.{==-refl, Bool-cases, ==_iff, ◌==◌, if◌then◌else◌, is_some}

abbrev pub Map {ℓ} : Type ℓ → Type ℓ
Map V = List (ℕ × V)

module _ {ℓ} {V : Type ℓ} where
  unfoldable pub lookup : ℕ → Map V → Option V
  lookup k [] = none
  lookup k ((j, v) ∷ m) = if j == k then some v else lookup k m

  unfoldable pub remove : ℕ → Map V → Map V
  remove k [] = []
  remove k ((j, v) ∷ m) = if j == k then remove k m else (j, v) ∷ remove k m

  unfoldable pub insert : ℕ → V → Map V → Map V
  unfolding remove
  insert k v m = (k, v) ∷ remove k m

  -- `get_mut` and an assignment through the reference.
  unfoldable pub modify : ℕ → (V → V) → Map V → Map V
  modify k f [] = []
  modify k f ((j, v) ∷ m) = (j, if j == k then f v else v) ∷ modify k f m

  abbrev pub contains_key : ℕ → Map V → Bool
  contains_key k m = is_some (lookup k m)

  -- The keys of the entries whose value passes the test.
  unfoldable pub keys_where : (V → Bool) → Map V → List ℕ
  keys_where p [] = []
  keys_where p ((k, v) ∷ m) = if p v then k ∷ keys_where p m else keys_where p m

  unfoldable pub count_where : (V → Bool) → Map V → ℕ
  count_where p [] = 0
  count_where p ((k, v) ∷ m) = let rest = count_where p m in if p v then suc rest else rest

  -- No key twice.
  abbrev pub Distinct : Map V → Type ℓ
  Distinct [] = Unit
  Distinct ((k, v) ∷ m) = (lookup k m ≡ none) × Distinct m

  pub lookup-remove :
      (k j : ℕ) (m : Map V) → lookup j (remove k m) ≡ (if k == j then none else lookup j m)
  unfolding lookup remove
  lookup-remove k j [] = ground arith
  lookup-remove k j ((i, v) ∷ m) = ground (arith, lookup-remove k j m)

  pub lookup-insert :
      (k j : ℕ) (v : V) (m : Map V)
      → lookup j (insert k v m) ≡ (if k == j then some v else lookup j m)
  unfolding lookup insert
  lookup-insert k j v m = ground (arith, lookup-remove k j m)

  pub lookup-modify :
      (k j : ℕ) (f : V → V) (m : Map V)
      → lookup j (modify k f m) ≡ Option.map (λ v. if k == j then f v else v) (lookup j m)
  unfolding lookup modify
  lookup-modify k j f [] = refl
  lookup-modify k j f ((i, v) ∷ m) = ground (arith, lookup-modify k j f m)

  pub remove_absent : (k : ℕ) (m : Map V) → lookup k m ≡ none → remove k m ≡ m
  unfolding lookup remove
  remove_absent k [] h = refl
  remove_absent k ((i, v) ∷ m) h = ground (arith, remove_absent k m)

  pub Distinct-remove : (k : ℕ) (m : Map V) → Distinct m → Distinct (remove k m)
  unfolding remove
  Distinct-remove k [] d = tt
  Distinct-remove k ((i, v) ∷ m) d = ground (arith, Distinct-remove k m d.1, lookup-remove k i m)

  pub Distinct-insert : (k : ℕ) (v : V) (m : Map V) → Distinct m → Distinct (insert k v m)
  unfolding insert
  Distinct-insert k v m d = ground (arith, Distinct-remove k m d, lookup-remove k k m)

  pub Distinct-modify : (k : ℕ) (f : V → V) (m : Map V) → Distinct m → Distinct (modify k f m)
  unfolding modify
  Distinct-modify k f [] d = tt
  Distinct-modify k f ((i, v) ∷ m) d =
      ground (arith, Distinct-modify k f m d.1, lookup-modify k i f m)

  modify_removed : (k : ℕ) (f : V → V) (m : Map V) → modify k f (remove k m) ≡ remove k m
  unfolding remove modify
  modify_removed k f [] = refl
  modify_removed k f ((i, v) ∷ m) = ground (arith, modify_removed k f m)

  pub modify-insert :
      (k : ℕ) (f : V → V) (v : V) (m : Map V) → modify k f (insert k v m) ≡ insert k (f v) m
  unfolding insert modify
  modify-insert k f v m = ground (arith, modify_removed k f m, ==-refl k)

  module _ (p : V → Bool) where
    pub count_where-remove :
        (k : ℕ) (m : Map V) (v : V)
        → Distinct m
        → lookup k m ≡ some v
        → count_where p m ≡ count_where p (remove k m) + (if p v then 1 else 0)
    unfolding lookup remove count_where
    count_where-remove k [] v d h = cc
    count_where-remove k ((i, w) ∷ m) v d h =
        ground (arith, count_where-remove k m v d.1, remove_absent k m)

    pub count_where-insert :
        (k : ℕ) (v : V) (m : Map V)
        → lookup k m ≡ none
        → count_where p (insert k v m) ≡ count_where p m + (if p v then 1 else 0)
    unfolding insert count_where
    count_where-insert k v m h = ground (arith, remove_absent k m h)

    -- A write that does not change the test does not change the count.
    pub count_where-modify :
        (k : ℕ) (f : V → V) (m : Map V)
        → ((v : V) → p (f v) ≡ p v)
        → count_where p (modify k f m) ≡ count_where p m
    unfolding modify count_where
    count_where-modify k f [] same = refl
    count_where-modify k f ((i, v) ∷ m) same = ground (arith, same v, count_where-modify k f m same)

    pub count_where-none :
        (m : Map V)
        → Distinct m
        → ((k : ℕ) (v : V) → lookup k m ≡ some v → p v ≡ false)
        → count_where p m ≡ 0
    unfolding lookup count_where
    count_where-none [] d h = refl
    count_where-none ((i, v) ∷ m) d h =
        ground (arith, h i v, count_where-none m d.1 (λ k w e. h k w (ground (arith, d.0))))

    -- The keys listed are those whose value passes the test.
    pub keys_where_complete :
        (m : Map V) (k : ℕ) (v : V)
        → lookup k m ≡ some v
        → p v ≡ true
        → contains k (keys_where p m) ≡ true
    unfolding lookup keys_where
    keys_where_complete [] k v e t = cc
    keys_where_complete ((i, w) ∷ m) k v e t = ground (arith, keys_where_complete m k v)

    pub keys_where_sound :
        (m : Map V) (k : ℕ)
        → Distinct m
        → contains k (keys_where p m) ≡ true
        → (v : V) × (lookup k m ≡ some v) × (p v ≡ true)
    unfolding lookup keys_where
    keys_where_sound [] k d h = cc
    keys_where_sound ((i, w) ∷ m) k d h = elim (Bool-cases (p w)) [
      | inl passes ↦ elim (Bool-cases (i == k)) [
        | inl same ↦ (w, ground arith, passes)
        | inr other ↦
            let (v, e, t) = keys_where_sound m k d.1 (ground arith) in (v, ground arith, t)
      ]
      | inr fails ↦
          let (v, e, t) = keys_where_sound m k d.1 (ground arith) in
          (v, ground (arith, d.0, ==_iff i k), t)
    ]

abbrev pub keys {ℓ} : {V : Type ℓ} → Map V → List ℕ
keys [] = []
keys ((k, v) ∷ m) = k ∷ keys m

pub contains-keys {ℓ} : {V : Type ℓ} (k : ℕ) (m : Map V) → contains k (keys m) ≡ contains_key k m
unfolding lookup
contains-keys k [] = refl
contains-keys k ((i, v) ∷ m) = ground (arith, contains-keys k m)

unfoldable pub remove_all {ℓ} : {V : Type ℓ} → List ℕ → Map V → Map V
remove_all [] m = m
remove_all (k ∷ ks) m = remove_all ks (remove k m)

pub lookup-remove_all {ℓ} :
    {V : Type ℓ} (ks : List ℕ) (j : ℕ) (m : Map V)
    → lookup j (remove_all ks m) ≡ (if contains j ks then none else lookup j m)
unfolding remove_all
lookup-remove_all [] j m = refl
lookup-remove_all (k ∷ ks) j m =
    ground (arith, lookup-remove_all ks j (remove k m), lookup-remove k j m)

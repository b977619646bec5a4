-- ===== src/Dao/Sorted.antt =====
-- What a query's rows are, and their order.
use roomler.Prelude.{
  ℕ, ◌≤◌, ◌≡◌, refl, Bool, true, false, List, [], ◌∷◌, All, retain, arith, Bool-cases, inl, inr,
}
use mathlib.Core.List.{Permᴰ}
use mathlib.Core.List.Permᴰ
use roomler.Dao.{Order, ascending, descending, precedes, insert_row, sort_rows, find_many}

abbrev pub IsBefore : Order → ℕ → ℕ → Type 0
IsBefore ascending a b = a ≤ b
IsBefore descending a b = b ≤ a

precedes-IsBefore : (order : Order) (a b : ℕ) → precedes order a b ≡ true → IsBefore order a b
precedes-IsBefore ascending a b h = ground (arith, h)
precedes-IsBefore descending a b h = ground (arith, h)

follows-IsBefore : (order : Order) (a b : ℕ) → precedes order a b ≡ false → IsBefore order b a
follows-IsBefore ascending a b h = ground (arith, h)
follows-IsBefore descending a b h = ground (arith, h)

IsBefore-trans :
    (order : Order) (a b c : ℕ) → IsBefore order a b → IsBefore order b c → IsBefore order a c
IsBefore-trans ascending a b c h k = omega arith
IsBefore-trans descending a b c h k = omega arith

module _ {A : Type 0} where
  -- Each row stands before those that follow it.
  abbrev pub IsSorted : Order → (A → ℕ) → List A → Type 0
  IsSorted order key [] = Unit
  IsSorted order key (x ∷ l) = All (λ y. IsBefore order (key x) (key y)) l × IsSorted order key l

  module _ (order : Order) (key : A → ℕ) where
    All-insert_row :
        (P : A → Type 0) (x : A) (l : List A) → P x → All P l → All P (insert_row order key x l)
    All-insert_row P x [] p h = (p, tt)
    All-insert_row P x (y ∷ l) p (q, h) = elim (Bool-cases (precedes order (key x) (key y))) [
      | inl first ↦ rw (first) (p, (q, h))
      | inr later ↦ rw (later) (q, All-insert_row P x l p h)
    ]

    insert_row_perm : (x : A) (l : List A) → Permᴰ (x ∷ l) (insert_row order key x l)
    insert_row_perm x [] = Permᴰ.refl _
    insert_row_perm x (y ∷ l) = elim (Bool-cases (precedes order (key x) (key y))) [
      | inl first ↦ rw (first) (Permᴰ.refl _)
      | inr later ↦
          rw (later) (Permᴰ.trans (Permᴰ.swap refl refl) (Permᴰ.cons refl (insert_row_perm x l)))
    ]

    sort_rows_perm : (l : List A) → Permᴰ l (sort_rows order key l)
    unfolding sort_rows
    sort_rows_perm [] = Permᴰ.nil
    sort_rows_perm (x ∷ l) =
        Permᴰ.trans (Permᴰ.cons refl (sort_rows_perm l)) (insert_row_perm x (sort_rows order key l))

  All-IsBefore :
      (order : Order) (key : A → ℕ) (a b : ℕ) (l : List A)
      → IsBefore order a b
      → All (λ y. IsBefore order b (key y)) l
      → All (λ y. IsBefore order a (key y)) l
  All-IsBefore order key a b [] h k = tt
  All-IsBefore order key a b (y ∷ l) h (k, rest) =
      (IsBefore-trans order a b (key y) h k, All-IsBefore order key a b l h rest)

  insert_row-IsSorted :
      (order : Order) (key : A → ℕ) (x : A) (l : List A)
      → IsSorted order key l
      → IsSorted order key (insert_row order key x l)
  insert_row-IsSorted order key x [] h = (tt, tt)
  insert_row-IsSorted order key x (y ∷ l) (first, rest) =
      elim (Bool-cases (precedes order (key x) (key y))) [
        | inl front ↦
            let before = precedes-IsBefore order (key x) (key y) front in
            rw (front)
              ((before, All-IsBefore order key (key x) (key y) l before first), (first, rest))
        | inr later ↦ rw (later) (
          All-insert_row order key (λ z. IsBefore order (key y) (key z)) x l
              (follows-IsBefore order (key x) (key y) later) first,
          insert_row-IsSorted order key x l rest,
        )
      ]

  sort_rows-IsSorted :
      (order : Order) (key : A → ℕ) (l : List A) → IsSorted order key (sort_rows order key l)
  unfolding sort_rows
  sort_rows-IsSorted order key [] = tt
  sort_rows-IsSorted order key (x ∷ l) =
      insert_row-IsSorted order key x (sort_rows order key l) (sort_rows-IsSorted order key l)

  -- The rows that match, in the order of their keys.
  pub find_many-IsSorted :
      (keep : A → Bool) (order : Order) (key : A → ℕ) (docs : List A)
      → Permᴰ (retain keep docs) (find_many keep order key docs)
        × IsSorted order key (find_many keep order key docs)
  unfolding find_many
  find_many-IsSorted keep order key docs =
      (sort_rows_perm order key (retain keep docs), sort_rows-IsSorted order key (retain keep docs))

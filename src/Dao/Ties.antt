-- ===== src/Dao/Ties.antt =====
-- Rows that a query meets in another order are sorted alike, where no two of them have one key.
use roomler.Prelude.{
  subst, ℕ, ◌≡◌, refl, sym, ◌∙◌, Bool, true, false, List, [], ◌∷◌, retain, arith, Bool-cases, inl,
  inr, if◌then◌else◌, ◌==◌,
}
use mathlib.Core.List.{Memᴰ, Permᴰ}
use mathlib.Core.List.Permᴰ
use roomler.Dao.{Order, ascending, descending, insert_row, sort_rows, find_many}

module _ {A : Type 0} where
  -- Rows of the list with one key are one row.
  abbrev pub IsKeyed : (A → ℕ) → List A → Type 0
  IsKeyed key l = (x y : A) → Memᴰ x l → Memᴰ y l → key x ≡ key y → x ≡ y

  insert_swap_of :
      (order : Order) (key : A → ℕ) (x y : A) (l : List A)
      → (key x == key y) ≡ false
      → insert_row order key x (insert_row order key y l)
        ≡ insert_row order key y (insert_row order key x l)
  insert_swap_of ascending key x y [] apart = ground (arith, apart)
  insert_swap_of descending key x y [] apart = ground (arith, apart)
  insert_swap_of ascending key x y (z ∷ l) apart =
      ground (arith, apart, insert_swap_of ascending key x y l apart)
  insert_swap_of descending key x y (z ∷ l) apart =
      ground (arith, apart, insert_swap_of descending key x y l apart)

  insert_swap :
      (order : Order) (key : A → ℕ) (x y : A) (l : List A)
      → (key x ≡ key y → x ≡ y)
      → insert_row order key x (insert_row order key y l)
        ≡ insert_row order key y (insert_row order key x l)
  insert_swap order key x y l same = elim (Bool-cases (key x == key y)) [
    | inr apart ↦ insert_swap_of order key x y l apart
    | inl equal ↦
        let e : x ≡ y = same (ground (arith, equal)) in
        λ i. insert_row order key (e i) (insert_row order key (sym e i) l)
  ]

  mem_perm : (x : A) (l r : List A) → Permᴰ l r → Memᴰ x r → Memᴰ x l
  mem_perm x [] [] Permᴰ.nil m = m
  mem_perm x (a ∷ l) (b ∷ r) (Permᴰ.cons e p) (Memᴰ.head h) = Memᴰ.head (h ∙ sym e)
  mem_perm x (a ∷ l) (b ∷ r) (Permᴰ.cons e p) (Memᴰ.tail m) = Memᴰ.tail (mem_perm x l r p m)
  mem_perm x (a ∷ b ∷ l) (c ∷ d ∷ r) (Permᴰ.swap e f) (Memᴰ.head h) =
      Memᴰ.tail (Memᴰ.head (h ∙ sym f))
  mem_perm x (a ∷ b ∷ l) (c ∷ d ∷ r) (Permᴰ.swap e f) (Memᴰ.tail (Memᴰ.head h)) =
      Memᴰ.head (h ∙ sym e)
  mem_perm x (a ∷ b ∷ l) (c ∷ d ∷ r) (Permᴰ.swap e f) (Memᴰ.tail (Memᴰ.tail m)) =
      Memᴰ.tail (Memᴰ.tail m)
  mem_perm x l r (Permᴰ.trans {l₂ = k} p q) m = mem_perm x l k p (mem_perm x k r q m)

  sort_perm :
      (order : Order) (key : A → ℕ) (l r : List A)
      → IsKeyed key l
      → Permᴰ l r
      → sort_rows order key l ≡ sort_rows order key r
  unfolding sort_rows
  sort_perm order key [] [] keyed Permᴰ.nil = refl
  sort_perm order key (a ∷ l) (b ∷ r) keyed (Permᴰ.cons e p) =
      let rest = sort_perm order key l r (λ x y m n. keyed x y (Memᴰ.tail m) (Memᴰ.tail n)) p in
      λ i. insert_row order key (e i) (rest i)
  sort_perm order key (a ∷ b ∷ l) (c ∷ d ∷ r) keyed (Permᴰ.swap e f) =
      insert_swap order key a b (sort_rows order key l)
        (keyed a b (Memᴰ.head refl) (Memᴰ.tail (Memᴰ.head refl)))
      ∙ (λ i. insert_row order key (f i) (insert_row order key (e i) (sort_rows order key l)))
  sort_perm order key l r keyed (Permᴰ.trans {l₂ = k} p q) =
      sort_perm order key l k keyed p
      ∙ sort_perm order key k r (λ x y m n. keyed x y (mem_perm x l k p m) (mem_perm y l k p n)) q

  kept_perm :
      (keep : A → Bool) (a b : A) (l r : List A)
      → a ≡ b
      → Permᴰ l r
      → Permᴰ (if keep a then a ∷ l else l) (if keep b then b ∷ r else r)
  kept_perm keep a b l r e p = elim (Bool-cases (keep a)) [
    | inl kept ↦ let kept' : keep b ≡ true = rw⁻¹ e kept in rw (kept, kept') (Permᴰ.cons e p)
    | inr out ↦ let out' : keep b ≡ false = rw⁻¹ e out in rw (out, out') p
  ]

  swapped :
      (keep : A → Bool) (a b : A) (l : List A)
      → Permᴰ (retain keep (a ∷ b ∷ l)) (retain keep (b ∷ a ∷ l))
  swapped keep a b l = elim (Bool-cases (keep a)) [
    | inl first ↦ elim (Bool-cases (keep b)) [
      | inl second ↦ rw (first, second) (Permᴰ.swap refl refl)
      | inr out ↦ rw (first, out) (Permᴰ.refl _)
    ]
    | inr out ↦ rw (out) (Permᴰ.refl _)
  ]

  retain_perm : (keep : A → Bool) (l r : List A) → Permᴰ l r → Permᴰ (retain keep l) (retain keep r)
  retain_perm keep [] [] Permᴰ.nil = Permᴰ.nil
  retain_perm keep (a ∷ l) (b ∷ r) (Permᴰ.cons e p) =
      kept_perm keep a b (retain keep l) (retain keep r) e (retain_perm keep l r p)
  retain_perm keep (a ∷ b ∷ l) (c ∷ d ∷ r) (Permᴰ.swap e f) =
      let first =
        subst (λ z. Permᴰ (retain keep (a ∷ b ∷ l)) (retain keep (z ∷ a ∷ l))) f
          (swapped keep a b l) in
      subst (λ z. Permᴰ (retain keep (a ∷ b ∷ l)) (retain keep (c ∷ z ∷ l))) e first
  retain_perm keep l r (Permᴰ.trans {l₂ = k} p q) =
      Permᴰ.trans (retain_perm keep l k p) (retain_perm keep k r q)

  -- A query that meets the documents in another order gives the same rows.
  pub find_many_perm :
      (keep : A → Bool) (order : Order) (key : A → ℕ) (l r : List A)
      → IsKeyed key (retain keep l)
      → Permᴰ l r
      → find_many keep order key l ≡ find_many keep order key r
  unfolding find_many
  find_many_perm keep order key l r keyed p =
      sort_perm order key (retain keep l) (retain keep r) keyed (retain_perm keep l r p)

-- ===== src/Dao/Pages.antt =====
-- What the pages of a query show.
use roomler.Prelude.{
  ℕ, zero, suc, ◌+◌, ◌-◌, ◌*◌, ◌/◌, ◌%◌, ◌≤◌, ◌<◌, ◌≡◌, refl, sym, ap, ◌∙◌, Bool, Option, true,
  false, List, [], ◌∷◌, ◌++◌, retain, length, arith, Bool-cases, inl, inr, ltb, ◌==◌,
  length-retain-le,
}
use native.Mathlib.Nat.{div-add-mod, mod-lt, mul_comm}
use mathlib.Core.List.{Permᴰ}
use roomler.Dao.Sorted.{IsSorted, find_many-IsSorted}
use roomler.Dao.Ties.{IsKeyed, find_many_perm}
use roomler.Dao.{
  DaoResult, ok, err, PaginationParams, PaginatedResult, Order, take, drop, sort_rows, insert_row,
  window, find_many, skip_of, div_ceil, total_pages_of, find_paginated, clamped_per_page,
  max_per_page,
}

module _ {A : Type 0} where
  length-insert_row :
      (order : Order) (key : A → ℕ) (x : A) (l : List A)
      → length (insert_row order key x l) ≡ suc (length l)
  length-insert_row order key x [] = refl
  length-insert_row order key x (y ∷ l) = ground (arith, length-insert_row order key x l)

  length-sort_rows :
      (order : Order) (key : A → ℕ) (l : List A) → length (sort_rows order key l) ≡ length l
  unfolding sort_rows
  length-sort_rows order key [] = refl
  length-sort_rows order key (x ∷ l) =
      omega
        (arith, length-insert_row order key x (sort_rows order key l), length-sort_rows order key l)

  take_of_length-le : (n : ℕ) (l : List A) → length l ≤ n → take n l ≡ l
  unfolding take
  take_of_length-le zero [] h = refl
  take_of_length-le zero (x ∷ l) h = absurd (omega arith)
  take_of_length-le (suc n) [] h = refl
  take_of_length-le (suc n) (x ∷ l) h = ap (◌∷◌ x) (take_of_length-le n l (omega arith))

  pub length-take-le : (n : ℕ) (l : List A) → length (take n l) ≤ n
  unfolding take
  length-take-le zero l = omega arith
  length-take-le (suc n) [] = omega arith
  length-take-le (suc n) (x ∷ l) = omega (arith, length-take-le n l)

  take_nil : (n : ℕ) → take {A = A} n [] ≡ []
  unfolding take
  take_nil zero = refl
  take_nil (suc n) = refl

  -- A prefix, and the next rows.
  take-add : (n k : ℕ) (l : List A) → take n l ++ take k (drop n l) ≡ take (n + k) l
  unfolding take drop
  take-add zero k l = let same : k ≡ zero + k = omega arith in ap (λ m. take m l) same
  take-add (suc n) k [] = take_nil k ∙ sym (take_nil (suc n + k))
  take-add (suc n) k (x ∷ l) =
      let same : suc (n + k) ≡ suc n + k = omega arith in
      ap (◌∷◌ x) (take-add n k l) ∙ ap (λ m. take m (x ∷ l)) same

  abbrev pub items_of : DaoResult (PaginatedResult A) → List A
  items_of (ok r) = r.items
  items_of (err e) = []

  -- The first pages, one after the other.
  abbrev pub all_pages : ℕ → (ℕ → List A) → List A
  all_pages zero page = []
  all_pages (suc n) page = all_pages n page ++ page (suc n)

  all_pages-take :
      (k n : ℕ) (page : ℕ → List A) (l : List A)
      → ((q : ℕ) → q < n → page (suc q) ≡ take k (drop (q * k) l))
      → all_pages n page ≡ take (n * k) l
  unfolding take
  all_pages-take k zero page l each =
      let same : zero ≡ zero * k = omega arith in ap (λ m. take m l) same
  all_pages-take k (suc n) page l each =
      rw
        (
          all_pages-take k n page l (λ q h. each q (omega arith)),
          each n (omega arith),
          take-add (n * k) k l,
        )
        (let same : n * k + k ≡ suc n * k = grind arith in ap (λ m. take m l) same)

length-find_many :
    {A : Type 0} (keep : A → Bool) (order : Order) (key : A → ℕ) (docs : List A)
    → length (find_many keep order key docs) ≡ length (retain keep docs)
unfolding find_many
length-find_many keep order key docs = length-sort_rows order key (retain keep docs)

clamped_pos :
    (params : PaginationParams)
    → 0 < params.per_page
    → (0 < clamped_per_page params) × (clamped_per_page params ≤ 100)
unfolding clamped_per_page
clamped_pos params h = ground arith

skip_of-suc : (q k : ℕ) → q * k < 4611686018427387904 → 0 < k → skip_of (suc q) k ≡ q * k
unfolding skip_of
skip_of-suc q k h pos =
    let small : q ≤ q * k = grind arith in
    let wraps : (suc q + 18446744073709551615) % 18446744073709551616 ≡ q = omega arith in
    rw (wraps) (omega arith)

total_pages-le :
    (total k : ℕ)
    → 0 < k
    → (total ≤ total_pages_of total k * k) × (total_pages_of total k * k ≤ total + k)
unfolding total_pages_of div_ceil
total_pages-le total k h =
    let pos : ltb 0 k ≡ true = ground arith in
    let q = (total + (k - 1)) / k in
    let whole : k * q + (total + (k - 1)) % k ≡ total + (k - 1) = div-add-mod (total + (k - 1)) k in
    let below : (total + (k - 1)) % k < k = mod-lt (total + (k - 1)) h in
    let swap : q * k ≡ k * q = mul_comm q k in rw (pos) (omega arith, omega arith)

all_pages-find_many :
    {A : Type 0} (keep : A → Bool) (order : Order) (key : A → ℕ) (per_page : ℕ) (before : Option ℕ)
    (docs : List A) (met : ℕ → List A)
    → 0 < per_page
    → length docs < 2305843009213693952
    → IsKeyed key (retain keep docs)
    → ((page : ℕ) → Permᴰ docs (met page))
    → let k = clamped_per_page (record { page = 1; per_page = per_page; before = before }) in
      all_pages (total_pages_of (length (retain keep docs)) k) (λ page. items_of (
        find_paginated keep order key
          (record { page = page; per_page = per_page; before = before })
          (met page)))
      ≡ find_many keep order key docs
unfolding find_paginated window skip_of take clamped_per_page
all_pages-find_many keep order key per_page before docs met pos few keyed same =
    let params : PaginationParams = record { page = 1; per_page = per_page; before = before } in
    let k = clamped_per_page params in
    let rows = find_many keep order key docs in
    let total = length (retain keep docs) in
    let (kpos, klimit) = clamped_pos params pos in
    let (enough, bounded) = total_pages-le total k kpos in
    let fewer : total ≤ length docs = length-retain-le keep docs in
    let n = total_pages_of total k in
    all_pages-take k n _ rows (λ q h.
      let before_end : q * k ≤ n * k = grind arith in
      let small : q * k < 4611686018427387904 = omega arith in
      let skips = skip_of-suc q k small kpos in
      let fits : ltb (q * k) 9223372036854775808 ≡ true = ground (arith, small) in
      let alike = sym (find_many_perm keep order key docs (met (suc q)) keyed (same (suc q))) in
      let some_rows : (k == 0) ≡ false = ground (arith, kpos) in
      rw (skips, fits, some_rows, alike) refl)
    ∙ take_of_length-le (n * k) rows (omega (arith, length-find_many keep order key docs, enough))

-- The pages, of some rows each, of a query whose rows have different keys, over fewer than 2^61
-- documents, and whatever order the database meets the documents in for each page: together, one
-- after the other, they are each matching row once, sorted by the key.
pub all_pages_lem :
    {A : Type 0} (keep : A → Bool) (order : Order) (key : A → ℕ) (per_page : ℕ) (before : Option ℕ)
    (docs : List A) (met : ℕ → List A)
    → 0 < per_page
    → length docs < 2305843009213693952
    → IsKeyed key (retain keep docs)
    → ((page : ℕ) → Permᴰ docs (met page))
    → let k = clamped_per_page (record { page = 1; per_page = per_page; before = before }) in
      let together = all_pages (total_pages_of (length (retain keep docs)) k) (λ page. items_of (
        find_paginated keep order key
          (record { page = page; per_page = per_page; before = before })
          (met page))) in
      Permᴰ (retain keep docs) together × IsSorted order key together
all_pages_lem keep order key per_page before docs met pos few keyed same =
    let e = all_pages-find_many keep order key per_page before docs met pos few keyed same in
    let (found, sorted) = find_many-IsSorted keep order key docs in (rw (e) found, rw (e) sorted)

module _ {A : Type 0} (params : PaginationParams) (rows : List A) where
  window_size :
      (skip : ℕ)
      → 0 < params.per_page
      → let shown = window skip (clamped_per_page params) rows in
        (length shown ≤ params.per_page) × (length shown ≤ max_per_page)
  unfolding window clamped_per_page
  window_size skip pos =
      let shorter = length-take-le (clamped_per_page params) (drop skip rows) in
      ground (arith, pos, shorter)

  window_whole :
      params.per_page ≡ 0
      → window (skip_of params.page (clamped_per_page params)) (clamped_per_page params) rows ≡ rows
  unfolding window clamped_per_page skip_of drop
  window_whole none_asked =
      let nothing : (params.page + 18446744073709551615)
            % 18446744073709551616
            * 0
            % 18446744073709551616
          ≡ 0 =
        omega arith in
      rw (none_asked, nothing) refl

-- A page has at most 100 rows, and no more than asked for; but a page of no rows is all of them.
pub find_paginated_size :
    {A : Type 0} (keep : A → Bool) (order : Order) (key : A → ℕ) (params : PaginationParams)
    (docs : List A) (r : PaginatedResult A)
    → find_paginated keep order key params docs ≡ ok r
    → (0 < params.per_page → (length r.items ≤ params.per_page) × (length r.items ≤ max_per_page))
      × (params.per_page ≡ 0 → r.items ≡ find_many keep order key docs)
unfolding find_paginated
find_paginated_size keep order key params docs r h =
    let k = clamped_per_page params in
    let rows = find_many keep order key docs in
    let skip = skip_of params.page k in
    elim (Bool-cases (ltb skip 9223372036854775808)) [
      | inr large ↦ absurd (ground (arith, large, h))
      | inl fits ↦
          let shown : window skip k rows ≡ r.items = ground (arith, fits, h) in
          rw (sym shown)
            (λ pos. window_size params rows skip pos, λ zero. window_whole params rows zero)
    ]

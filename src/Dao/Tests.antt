-- ===== src/Dao/Tests.antt =====
-- Pages of a small collection, and instances of the theorems on them.
use roomler.Prelude.{
  Bool-cases, inl, inr, if◌then◌else◌, ◌==◌, ℕ, ◌≡◌, ◌≤◌, ◌<◌, refl, Bool, none, List, [], ◌∷◌,
  length, retain, arith, ltb,
}
use roomler.Dao.{
  descending, PaginationParams, PaginatedResult, ok, err, mongo, find_paginated, find_many,
  clamped_per_page, total_pages_of, max_per_page, sort_rows, window, take, drop, skip_of, div_ceil,
}
use mathlib.Core.List.{Permᴰ}
use mathlib.Core.List.Permᴰ
use roomler.Dao.Sorted.{IsSorted}
use roomler.Dao.Pages.{all_pages, items_of, all_pages_lem, find_paginated_size}

abbrev numbers : List ℕ
numbers = 4 ∷ 9 ∷ 1 ∷ 7 ∷ 12 ∷ []

abbrev is_small : ℕ → Bool
is_small n = ltb n 10

abbrev self : ℕ → ℕ
self n = n

abbrev asked : ℕ → ℕ → PaginationParams
asked page per_page = record { page = page; per_page = per_page; before = none }

second_page :
    find_paginated is_small descending self (asked 2 2) numbers
    ≡ ok (record { items = 4 ∷ 1 ∷ []; total = 4; page = 2; per_page = 2; total_pages = 2 })
unfolding find_paginated find_many sort_rows window take drop skip_of total_pages_of div_ceil
    clamped_per_page
second_page = refl

-- The skip of page 0 wraps around to a number that no `i64` holds.
page_zero : find_paginated is_small descending self (asked 0 2) numbers ≡ err mongo
unfolding find_paginated skip_of clamped_per_page
page_zero = refl

abbrev everything : PaginatedResult ℕ
everything = record {
  items = 9 ∷ 7 ∷ 4 ∷ 1 ∷ [];
  total = 4;
  page = 1;
  per_page = 0;
  total_pages = 0;
}

no_rows_asked : find_paginated is_small descending self (asked 1 0) numbers ≡ ok everything
unfolding find_paginated find_many sort_rows window take drop skip_of total_pages_of div_ceil
    clamped_per_page
no_rows_asked = refl

-- The queries of the pages meet the numbers in two orders.
abbrev met : ℕ → List ℕ
met page = if page == 1 then numbers else 9 ∷ 4 ∷ 1 ∷ 7 ∷ 12 ∷ []

met_numbers : (page : ℕ) → Permᴰ numbers (met page)
met_numbers page = elim (Bool-cases (page == 1)) [
  | inl first ↦ rw (first) (Permᴰ.refl numbers)
  | inr later ↦ rw (later) (Permᴰ.swap refl refl)
]

all_pages_lem_example :
    let together =
      all_pages
        (total_pages_of (length (retain is_small numbers)) (clamped_per_page (asked 1 2)))
        (λ page. items_of (find_paginated is_small descending self (asked page 2) (met page))) in
    Permᴰ (retain is_small numbers) together × IsSorted descending self together
all_pages_lem_example =
    all_pages_lem is_small descending self 2 none numbers met (omega arith) (omega arith)
      (λ x y m n e. e) met_numbers

find_paginated_size_example :
    (0 < 0 → (length everything.items ≤ 0) × (length everything.items ≤ max_per_page))
    × (◌≡◌ {A = ℕ} 0 0 → everything.items ≡ find_many is_small descending self numbers)
find_paginated_size_example =
    find_paginated_size is_small descending self (asked 1 0) numbers everything no_rows_asked

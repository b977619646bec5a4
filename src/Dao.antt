-- ===== src/Dao.antt =====
-- crates/services/src/dao/base.rs: what the data access objects share, and the pages of a query. A
-- collection is the list of its documents; rows that the sort does not tell apart keep its order.
use roomler.Prelude.{
  ℕ, zero, suc, ◌+◌, ◌-◌, ◌*◌, ◌/◌, ◌%◌, ◌^◌, Bool, true, false, Option, none, some, List, [], ◌∷◌,
  retain, length, ltb, leb, ◌==◌, if◌then◌else◌,
}
pub mod Ties
pub mod Sorted
pub mod Pages
mod Tests

pub data DaoError : Type 0 where
  mongo not_found duplicate_key forbidden validation : DaoError

pub data DaoResult (A : Type 0) : Type 0 where
  ok : A → DaoResult A
  err : DaoError → DaoResult A

-- `before` is a time that the text of the request parses as.
pub record PaginationParams : Type 0 where
  pub page : ℕ
  pub per_page : ℕ
  pub before : Option ℕ

abbrev pub default_page : ℕ
default_page = 1

abbrev pub default_per_page : ℕ
default_per_page = 25

abbrev pub max_per_page : ℕ
max_per_page = 100

unfoldable pub clamped_per_page : PaginationParams → ℕ
clamped_per_page params = if ltb params.per_page max_per_page then params.per_page else max_per_page

pub record PaginatedResult (A : Type 0) : Type 0 where
  pub items : List A
  pub total : ℕ
  pub page : ℕ
  pub per_page : ℕ
  pub total_pages : ℕ

pub data Order : Type 0 where
  ascending descending : Order

-- Whether a row with the first key stands before one with the second, or with it.
abbrev pub precedes : Order → ℕ → ℕ → Bool
precedes ascending a b = leb a b
precedes descending a b = leb b a

-- `u64` arithmetic, which wraps around in a release build.
unfoldable pub skip_of : ℕ → ℕ → ℕ
skip_of page per_page =
    (page + 18446744073709551615) % 18446744073709551616 * per_page % 18446744073709551616

unfoldable pub div_ceil : ℕ → ℕ → ℕ
div_ceil a b = (a + (b - 1)) / b

unfoldable pub total_pages_of : ℕ → ℕ → ℕ
total_pages_of total per_page = if ltb 0 per_page then div_ceil total per_page else 0

module _ {A : Type 0} where
  unfoldable pub take : ℕ → List A → List A
  take zero xs = []
  take (suc n) [] = []
  take (suc n) (x ∷ xs) = x ∷ take n xs

  unfoldable pub drop : ℕ → List A → List A
  drop zero xs = xs
  drop (suc n) [] = []
  drop (suc n) (x ∷ xs) = drop n xs

  abbrev pub insert_row : Order → (A → ℕ) → A → List A → List A
  insert_row order key x [] = x ∷ []
  insert_row order key x (y ∷ ys) =
      if precedes order (key x) (key y) then x ∷ y ∷ ys else y ∷ insert_row order key x ys

  -- The database leaves the order of rows with one key open, for each query anew: here it is the
  -- order in which the documents are given, so each query may be given them in another one.
  unfoldable pub sort_rows : Order → (A → ℕ) → List A → List A
  sort_rows order key [] = []
  sort_rows order key (x ∷ xs) = insert_row order key x (sort_rows order key xs)

  -- The driver's `skip` and `limit`: a limit of 0 is none.
  unfoldable pub window : ℕ → ℕ → List A → List A
  window skip limit rows = if limit == 0 then drop skip rows else take limit (drop skip rows)

  unfoldable pub find_many : (A → Bool) → Order → (A → ℕ) → List A → List A
  find_many filter order key docs = sort_rows order key (retain filter docs)

  -- The driver sends a skip as an `i64` and refuses one that is too large for that.
  unfoldable pub find_paginated :
      (A → Bool) → Order → (A → ℕ) → PaginationParams → List A → DaoResult (PaginatedResult A)
  find_paginated filter order key params docs =
      let per_page = clamped_per_page params in
      let total = length (retain filter docs) in
      let skip = skip_of params.page per_page in
      if ltb skip 9223372036854775808
      then ok (record {
        items = window skip per_page (find_many filter order key docs);
        total = total;
        page = params.page;
        per_page = per_page;
        total_pages = total_pages_of total per_page;
      })
      else err mongo

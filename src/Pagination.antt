-- ===== src/Pagination.antt =====
-- pagination/paginator.go: the paginator's state and its operations. An `int` is an integer in
-- [-2^63, 2^63); the pointers `PagesTotal` and `ItemsTotal` are options, since nothing writes
-- through them.
pub mod Setup
pub mod Sound
pub mod Pages
pub mod Following
pub mod Json
mod Tests
use golang_service.Prelude.{String, ◌&&◌, Option, none, some, if◌then◌else◌}
use golang_service.Prelude.Int.{ℤ, pos, ltb_ℤ, eqb_ℤ}
use golang_service.Errors.{◌<>◌}
use golang_service.Go.Decimal.{itoa}
use golang_service.Go.Int64.{sub_int, mul_int}
use golang_service.Go.Float64.{Float64, of_int, fdiv, ceil, to_int}

abbrev pub default_page_number : ℤ
default_page_number = pos 1

abbrev pub default_items_per_page : ℤ
default_items_per_page = pos 10

pub record Paginator : Type 0 where
  pub page_number : ℤ
  pub pages_total : Option ℤ
  pub items_per_page : ℤ
  pub items_per_page_limit : ℤ
  pub items_total : Option ℤ

pub data PageError : Type 0 where
  too_many_items_per_page : ℤ → ℤ → PageError
  invalid_page_number : ℤ → PageError
  invalid_items_per_page : ℤ → PageError

-- the `Error` methods, their texts by `fmt.Sprintf`
unfoldable pub page_error_message : PageError → String
page_error_message (too_many_items_per_page items limit) =
    "The requested number of items per page ("
    <> itoa items
    <> ") is greater than the maximum allowed ("
    <> itoa limit
    <> ")"
page_error_message (invalid_page_number n) =
    "The requested page (" <> itoa n <> ") is not available"
page_error_message (invalid_items_per_page n) =
    "The requested items per page (" <> itoa n <> ") is less than 1"

-- `&Paginator{}`
abbrev pub zero_paginator : Paginator
zero_paginator = record {
  page_number = pos 0;
  pages_total = none;
  items_per_page = pos 0;
  items_per_page_limit = pos 0;
  items_total = none;
}

abbrev or_default : ℤ → ℤ → ℤ
or_default n default = if eqb_ℤ (pos 0) n then default else n

-- The receiver comes back with the error, since a caller keeps both.
unfoldable pub init : Paginator → ℤ → ℤ → ℤ → Paginator × Option PageError
init p page_number items_per_page items_per_page_limit =
    if ltb_ℤ items_per_page_limit items_per_page
    then (p, some (too_many_items_per_page items_per_page items_per_page_limit))
    else if ltb_ℤ page_number (pos 0)
    then (p, some (invalid_page_number page_number))
    else if ltb_ℤ items_per_page (pos 0)
    then (p, some (invalid_items_per_page items_per_page))
    else (
      record p {
        page_number = or_default page_number default_page_number;
        items_per_page = or_default items_per_page default_items_per_page;
        items_per_page_limit = items_per_page_limit;
      },
      none,
    )

unfoldable pub new : ℤ → ℤ → ℤ → Paginator × Option PageError
unfolding init
new page_number items_per_page items_per_page_limit =
    init zero_paginator page_number items_per_page items_per_page_limit

unfoldable pub offset : Paginator → ℤ
offset p =
    if eqb_ℤ p.page_number (pos 1)
    then pos 0
    else mul_int (sub_int p.page_number (pos 1)) p.items_per_page

-- The language leaves open what `int(f)` is where `f` is no `int`.
module _ (unspecified : Float64 → ℤ) where
  -- `int(math.Ceil(float64(i) / float64(n)))`
  unfoldable pub page_count : ℤ → ℤ → ℤ
  page_count i n = to_int unspecified (ceil (fdiv (of_int i) (of_int n)))

  unfoldable pub set_items_total : Paginator → ℤ → Paginator × Option PageError
  set_items_total p i =
      let pt = page_count i p.items_per_page in
      if ltb_ℤ (pos 1) p.page_number && ltb_ℤ pt p.page_number
      then (p, some (invalid_page_number p.page_number))
      else (record p { pages_total = some pt; items_total = some i }, none)

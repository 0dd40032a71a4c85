-- ===== src/Pagination/Tests.antt =====
-- Runs of the paginator on the inputs of pagination/paginator_test.go, and the theorems at concrete
-- inputs.
use golang_service.Prelude.{
  false, ◌≡◌, refl, ◌≢◌, ◌↔◌, ◌⊎◌, ◌≤◌, ◌<◌, ◌+◌, ◌-◌, ◌*◌, ◌^◌, none, some, ℕ, arith,
}
use golang_service.Prelude.Int.{ℤ, pos, negsuc, ◌<ℤ◌, ◌-ℤ◌, ◌*ℤ◌}
use golang_service.Go.Int64.{wrap}
use golang_service.Go.Float64.{
  Float64, inf, to_int, ceil, fdiv, of_int, round_frac, shift_down, shift_up, half_even,
}
use golang_service.Prelude.{String}
use golang_service.Http.Fixtures.{url}
use golang_service.Prelude.{if◌then◌else◌, arith}
use golang_service.Prelude.Text.{str_eq}
use golang_service.Go.Int64.{wrap}
use golang_service.Prelude.Int.{◌+ℤ◌, ◌-ℤ◌}
use golang_service.Pagination.Json.{Codec, Json, marshal_json, page_url}
use golang_service.Pagination.Json.Targets.{Laws, marshal_json-targets}
use golang_service.Pagination.{
  Paginator, zero_paginator, init, new, offset, page_count, set_items_total,
  too_many_items_per_page,
}
use golang_service.Pagination.Following.{Visited}
use golang_service.Pagination.Following.Links.{IsLink, is_next, IsLink-Visited}
use golang_service.Prelude.{List, [], ◌∷◌}
use golang_service.Pagination.Following.Crawl.{Reader, Reads, crawl}
use golang_service.Pagination.Following.Crawl.Client.{crawl_all}
use golang_service.Go.Decimal.{itoa, decode, decode-itoa}
use golang_service.Pagination.Setup.{init-fails_iff}
use golang_service.Pagination.Sound.{Sound, set_up, set_total, apply_all, new-Sound}
use golang_service.Pagination.Pages.{Counts, set_items_total-Counts, set_items_total-fails_iff}

abbrev any : Float64 → ℤ
any f = pos 0

abbrev third : Paginator
third = record {
  page_number = pos 3;
  pages_total = none;
  items_per_page = pos 10;
  items_per_page_limit = pos 10;
  items_total = none;
}

new_defaults : (new (pos 0) (pos 0) (pos 5)).0.items_per_page ≡ pos 10
unfolding new
new_defaults = refl

new_too_many : (new (pos 1) (pos 10) (pos 5)).1 ≡ some (too_many_items_per_page (pos 10) (pos 5))
unfolding new
new_too_many = refl

third_page : offset third ≡ pos 20
unfolding offset wrap ◌-ℤ◌ ◌*ℤ◌
third_page = refl

-- Beyond the range the product wraps round.
offset_wraps :
    offset (record third { page_number = pos (2 ^ 62 + 1); items_per_page = pos 2 })
    ≡ negsuc (2 ^ 63 - 1)
unfolding offset wrap ◌-ℤ◌ ◌*ℤ◌
offset_wraps = refl

float_division : Unit {0}
unfolding page_count to_int ceil fdiv of_int round_frac shift_down shift_up half_even
float_division = tt

page_counts :
    (page_count any (pos 100) (pos 10) ≡ pos 10)
    × (page_count any (pos 53) (pos 10) ≡ pos 6)
    × (page_count any (pos 0) (pos 10) ≡ pos 0)
    × (page_count any (negsuc 24) (pos 10) ≡ negsuc 1)
    × (page_count any (pos 5) (pos 0) ≡ any (inf false))
unfolding float_division
page_counts = (refl, refl, refl, refl, refl)

-- Above 2^53 the conversion to `float64` rounds: one item more than 2^53 is not counted.
page_count_rounds : page_count any (pos (2 ^ 53 + 1)) (pos 1) ≡ pos (2 ^ 53)
unfolding float_division
page_count_rounds = refl

counted : (set_items_total any third (pos 53)).1 ≡ none
unfolding set_items_total float_division
counted = refl

init-fails_iff_example :
    let (q, failure) = init third (pos 1) (pos 500) (pos 5) in
    ((failure ≢ none) ↔ ((pos 5 <ℤ pos 500) ⊎ (pos 1 <ℤ pos 0) ⊎ (pos 500 <ℤ pos 0)))
    × ((failure ≡ none) ⊎ (q ≡ third))
init-fails_iff_example = init-fails_iff third (pos 1) (pos 500) (pos 5)

new-Sound_example : Sound any (
    apply_all any
      (set_total (pos 53)
        ∷ set_up (pos 3) (pos 500) (pos 50)
        ∷ set_up (pos 9) (pos 5) (pos 50)
        ∷ [])
      (new (pos 2) (pos 10) (pos 50)).0)
unfolding new
new-Sound_example =
    new-Sound any (pos 2) (pos 10) (pos 50)
      (set_total (pos 53)
        ∷ set_up (pos 3) (pos 500) (pos 50)
        ∷ set_up (pos 9) (pos 5) (pos 50)
        ∷ [])
      refl

set_items_total-Counts_example : Counts (set_items_total any third (pos 53)).0 53 10
set_items_total-Counts_example =
    set_items_total-Counts any third 3 10 53 refl refl (omega arith) (omega arith) (omega arith)
      counted

set_items_total-fails_iff_example :
    (((set_items_total any third (pos 20)).1 ≢ none) ↔ ((1 < 3) × (20 ≤ (3 - 1) * 10)))
    × (((set_items_total any third (pos 20)).1 ≡ none)
        ⊎ ((set_items_total any third (pos 20)).0 ≡ third))
set_items_total-fails_iff_example =
    set_items_total-fails_iff any third 3 10 20 refl refl (omega arith) (omega arith) (omega arith)

abbrev six_pages : Paginator
six_pages = record third { pages_total = some (pos 6); items_total = some (pos 53) }

-- a codec that keeps the page alone
abbrev pages_only : Codec String
pages_only = record {
  query = λ s. s;
  encode = λ q. q;
  set_value = λ k v q. if str_eq "page" k then v else q;
  get_value = λ k q. q;
  show_url = λ u. u.raw_query;
}

pages_only-Laws : Laws pages_only
pages_only-Laws = record {
  overrides = λ k v w q. kept k v w q;
  commutes = λ v w q. refl;
  finds = λ v q. refl;
  reads = λ q. refl;
}
  where
    kept :
        (k v w q : String)
        → (if str_eq "page" k then v else (if str_eq "page" k then w else q))
          ≡ (if str_eq "page" k then v else q)
    kept k v w q = ground arith

abbrev third_json : Json
third_json = record { paginator = six_pages; host = "example.com" }

marshal_json-targets_example :
    let p = third_json.paginator in
    let link = λ (page : ℤ). pages_only.show_url (page_url pages_only third_json page url) in
    let (links, left) = marshal_json pages_only third_json url in
    (links.first_href ≡ link (pos 1))
    × (links.last_href ≡ some (link (pos 6)))
    × (links.next_href ≡ some (link (pos 4)))
    × (links.prev_href ≡ some (link (pos 2)))
    × (left ≡ page_url pages_only third_json (pos 2) url)
unfolding wrap ◌+ℤ◌ ◌-ℤ◌
marshal_json-targets_example = marshal_json-targets pages_only pages_only-Laws third_json url

abbrev third_of_six : Json
third_of_six = record { paginator = (set_items_total any third (pos 53)).0; host = "example.com" }

followed : IsLink (marshal_json pages_only third_of_six url).0 "4"
unfolding marshal_json set_items_total float_division wrap ◌+ℤ◌ itoa
followed = is_next refl

IsLink-Visited_example :
    (m : ℤ) × ("4" ≡ pages_only.show_url (page_url pages_only third_of_six m url))
    × Visited any zero_paginator m (pos 10) (pos 10) (pos 53)
IsLink-Visited_example =
    IsLink-Visited any third zero_paginator 3 10 53 (pos 10) refl refl (omega arith) (omega arith)
      (omega arith) (omega arith) counted pages_only pages_only-Laws "example.com" url "4" followed

-- a client that reads the links of that codec
abbrev page_reader : Reader
page_reader = record { parse_url = λ s. record url { raw_query = s }; atoi = decode }

page_reader-Reads : Reads pages_only page_reader
page_reader-Reads = record { parses = λ u. refl; numbers = decode-itoa }

abbrev five_items : List ℕ
five_items = 10 ∷ 20 ∷ 30 ∷ 40 ∷ 50 ∷ []

crawl_all_example :
    crawl pages_only page_reader any (pos 10) "example.com" 2 five_items 3 (pos 1) url
    ≡ some five_items
crawl_all_example =
    crawl_all pages_only page_reader any (pos 10) "example.com" 2 five_items pages_only-Laws
      page_reader-Reads (omega arith) (omega arith) (omega arith) (omega arith) 3 (omega arith)
      (omega arith) url

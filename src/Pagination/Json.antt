-- ===== src/Pagination/Json.antt =====
-- pagination/json.go: the links to other pages. `pageURL` writes to the request's own URL, which is
-- therefore handed from link to link. `Links` says which links there are, `Targets` where they
-- lead, `Leads` what they ask for.
pub mod Links
pub mod Targets
pub mod Leads
mod Tests
use golang_service.Prelude.{Bool, true, String, Option, none, some, if◌then◌else◌}
use golang_service.Prelude.Int.{ℤ, pos, ltb_ℤ}
use golang_service.Prelude.Text.{str_eq}
use golang_service.Go.Int64.{add_int, sub_int}
use golang_service.Go.Decimal.{itoa}
use golang_service.Http.{Url}
use golang_service.Pagination.{Paginator, PageError, zero_paginator, init}

-- Of the package net/url: `ParseQuery` as `Query` calls it, `Encode`, `Set` and `Get` of the type
-- `Values`, and `String` of a URL.
pub record Codec (Values : Type 0) : Type 0 where
  pub query : String → Values
  pub encode : Values → String
  pub set_value : String → String → Values → Values
  pub get_value : String → Values → String
  pub show_url : Url → String

-- `JSON`; the URL of its request is state, the request's host is not.
pub record Json : Type 0 where
  pub paginator : Paginator
  pub host : String

pub record JsonFields : Type 0 where
  pub page_number : ℤ
  pub pages_total : Option ℤ
  pub items_per_page : ℤ
  pub items_per_page_limit : ℤ
  pub items_total : Option ℤ
  pub first_href : String
  pub last_href : Option String
  pub next_href : Option String
  pub prev_href : Option String

-- `NewJSON`
unfoldable pub new_json : ℤ → ℤ → ℤ → String → Json × Option PageError
unfolding init
new_json page_number items_per_page items_per_page_limit host =
    let (p, e) = init zero_paginator page_number items_per_page items_per_page_limit in
    (record { paginator = p; host = host }, e)

module _ {Values : Type 0} (codec : Codec Values) where
  -- `q.Set("page", …)`, then `q.Set("limit", …)`
  unfoldable pub link_values : ℤ → ℤ → Values → Values
  unfolding itoa
  link_values page limit q =
      codec.set_value "limit" (itoa limit) (codec.set_value "page" (itoa page) q)

  -- `pageURL`: the request's URL after it, to which it returns a pointer
  unfoldable pub page_url : Json → ℤ → Url → Url
  unfolding link_values
  page_url j page u = record u {
    raw_query =
        codec.encode (link_values page j.paginator.items_per_page (codec.query u.raw_query));
    host = if str_eq "" u.host then j.host else u.host;
    scheme = if str_eq "" u.scheme then "https" else u.scheme;
  }

  -- `j.pageURL(page).String()` under a condition
  unfoldable pub href : Json → Bool → ℤ → Url → Option String × Url
  unfolding page_url
  href j wanted page u =
      let v = page_url j page u in if wanted then (some (codec.show_url v), v) else (none, u)

  abbrev pub has_next : ℤ → Option ℤ → Bool
  has_next page none = true
  has_next page (some total) = ltb_ℤ page total

  abbrev pub last_link : Json → Option ℤ → Url → Option String × Url
  last_link j none u = (none, u)
  last_link j (some total) u = href j true total u

  -- `MarshalJSON` up to `json.Marshal`: the fields, and the request's URL afterwards
  unfoldable pub marshal_json : Json → Url → JsonFields × Url
  unfolding href page_url
  marshal_json j u =
      let p = j.paginator in
      let u1 = page_url j (pos 1) u in
      let (last, u2) = last_link j p.pages_total u1 in
      let (next, u3) =
        href j (has_next p.page_number p.pages_total) (add_int p.page_number (pos 1)) u2 in
      let (prev, u4) = href j (ltb_ℤ (pos 1) p.page_number) (sub_int p.page_number (pos 1)) u3 in
      (
        record {
          page_number = p.page_number;
          pages_total = p.pages_total;
          items_per_page = p.items_per_page;
          items_per_page_limit = p.items_per_page_limit;
          items_total = p.items_total;
          first_href = codec.show_url u1;
          last_href = last;
          next_href = next;
          prev_href = prev;
        },
        u4,
      )

-- ===== src/Pagination/Json/Targets.antt =====
-- pagination/json.go, `pageURL`: the URLs that links are made of, one after the other.
use golang_service.Prelude.{
  ◌≡◌, refl, sym, ap, ◌∙◌, Bool, true, false, Bool-cases, inl, inr, String, Option, none, some,
  if◌then◌else◌,
}
use golang_service.Prelude.Int.{ℤ, pos, ltb_ℤ}
use golang_service.Prelude.Text.{str_eq}
use golang_service.Go.Int64.{add_int, sub_int}
use golang_service.Go.Decimal.{itoa, itoa_injective}
use golang_service.Http.{Url}
use golang_service.Pagination.Json.{
  Codec, Json, link_values, page_url, href, has_next, last_link, marshal_json,
}

-- What net/url documents of `Values`: `Set` replaces what is there, keys are independent of each
-- other, `Get` finds what was set, and `ParseQuery` reads what `Encode` has written.
pub record Laws {Values : Type 0} (codec : Codec Values) : Type 0 where
  pub overrides :
      (k v w : String) (q : Values)
      → codec.set_value k v (codec.set_value k w q) ≡ codec.set_value k v q
  pub commutes :
      (v w : String) (q : Values)
      → codec.set_value "limit" v (codec.set_value "page" w q)
        ≡ codec.set_value "page" w (codec.set_value "limit" v q)
  pub finds : (v : String) (q : Values) → codec.get_value "page" (codec.set_value "page" v q) ≡ v
  pub reads : (q : Values) → codec.query (codec.encode q) ≡ q

or_default_twice :
    (d s : String)
    → (if str_eq "" (if str_eq "" s then d else s) then d else (if str_eq "" s then d else s))
      ≡ (if str_eq "" s then d else s)
or_default_twice d s = elim (Bool-cases (str_eq "" s)) [
  | inl e ↦ elim (Bool-cases (str_eq "" d)) [ inl f ↦ rw (e, f) refl | inr f ↦ rw (e, f) refl ]
  | inr e ↦ rw (e, e) refl
]

with_parts :
    (u : Url) {q q' h h' s s' : String}
    → q ≡ q'
    → h ≡ h'
    → s ≡ s'
    → record u { raw_query = q; host = h; scheme = s }
      ≡ record u { raw_query = q'; host = h'; scheme = s' }
with_parts u e f g = cc

module _ {Values : Type 0} (codec : Codec Values) (laws : Laws codec) (j : Json) where
  abbrev limit : ℤ
  limit = j.paginator.items_per_page

  link_values-page :
      (page : ℤ) (q : Values) → codec.get_value "page" (link_values codec page limit q) ≡ itoa page
  unfolding link_values
  link_values-page page q =
      ap (codec.get_value "page") (laws.commutes (itoa limit) (itoa page) q)
      ∙ laws.finds (itoa page) (codec.set_value "limit" (itoa limit) q)

  -- The second of two links hides the first.
  link_values_twice :
      (m n : ℤ) (q : Values)
      → link_values codec m limit (link_values codec n limit q) ≡ link_values codec m limit q
  unfolding link_values
  link_values_twice m n q =
      let set_limit = codec.set_value "limit" (itoa limit) in
      let set_page = codec.set_value "page" (itoa m) in
      ap set_limit (
        ap set_page (laws.commutes (itoa limit) (itoa n) q)
        ∙ laws.overrides "page" (itoa m) (itoa n) (set_limit q)
        ∙ sym (laws.commutes (itoa limit) (itoa m) q))
      ∙ laws.overrides "limit" (itoa limit) (itoa limit) (set_page q)

  pub page_url-page :
      (m : ℤ) (u : Url)
      → codec.get_value "page" (codec.query (page_url codec j m u).raw_query) ≡ itoa m
  unfolding page_url
  page_url-page m u =
      ap (codec.get_value "page") (laws.reads (link_values codec m limit (codec.query u.raw_query)))
      ∙ link_values-page m (codec.query u.raw_query)

  -- Links with the same query lead to the same page, whatever the URLs were before, if net/url
  -- reads a query as it was encoded and finds in it what was set.
  pub page_url_injective :
      (m n : ℤ) (u v : Url)
      → (page_url codec j m u).raw_query ≡ (page_url codec j n v).raw_query
      → m ≡ n
  page_url_injective m n u v e = itoa_injective (
      sym (page_url-page m u)
      ∙ ap (λ q. codec.get_value "page" (codec.query q)) e
      ∙ page_url-page n v)

  pub page_url_twice :
      (m n : ℤ) (u : Url) → page_url codec j m (page_url codec j n u) ≡ page_url codec j m u
  unfolding page_url
  page_url_twice m n u =
      let query = link_values codec n limit (codec.query u.raw_query) in
      let same_query = ap codec.encode (
        ap (link_values codec m limit) (laws.reads query)
        ∙ link_values_twice m n (codec.query u.raw_query)) in
      with_parts u same_query (or_default_twice j.host u.host) (or_default_twice "https" u.scheme)

  -- the page whose link was made last
  abbrev pub last_made : ℤ
  last_made =
      let p = j.paginator in
      if ltb_ℤ (pos 1) p.page_number
      then sub_int p.page_number (pos 1)
      else if has_next codec p.page_number p.pages_total
      then add_int p.page_number (pos 1)
      else elim p.pages_total [ none ↦ pos 1 | some n ↦ n ]

  href-page_url :
      (b : Bool) (page n : ℤ) (u : Url)
      → href codec j b page (page_url codec j n u) ≡ (
        (if b then some (codec.show_url (page_url codec j page u)) else none),
        page_url codec j (if b then page else n) u,
      )
  unfolding href
  href-page_url true page n u = rw (page_url_twice page n u) refl
  href-page_url false page n u = refl

  last_link-page_url :
      (total : Option ℤ) (u : Url)
      → last_link codec j total (page_url codec j (pos 1) u) ≡ (
        elim total [ none ↦ none | some n ↦ some (codec.show_url (page_url codec j n u)) ],
        page_url codec j (elim total [ none ↦ pos 1 | some n ↦ n ]) u,
      )
  last_link-page_url none u = refl
  last_link-page_url (some n) u = href-page_url true n (pos 1) u

  -- Each link of `MarshalJSON` is the one that `pageURL` makes of the request's URL as it was,
  -- although every link is written into that very URL, if net/url reads a query as it was encoded
  -- and its `Set` replaces what is there. The request is left with the URL of the link that was
  -- made last.
  pub marshal_json-targets :
      (u : Url)
      → let p = j.paginator in
        let link = λ (page : ℤ). codec.show_url (page_url codec j page u) in
        let (links, left) = marshal_json codec j u in
        (links.first_href ≡ link (pos 1))
        × (links.last_href ≡ elim p.pages_total [ none ↦ none | some n ↦ some (link n) ])
        × (links.next_href ≡ (
            if has_next codec p.page_number p.pages_total
            then some (link (add_int p.page_number (pos 1)))
            else none))
        × (links.prev_href ≡ (
            if ltb_ℤ (pos 1) p.page_number
            then some (link (sub_int p.page_number (pos 1)))
            else none))
        × (left ≡ page_url codec j last_made u)
  unfolding marshal_json
  marshal_json-targets u =
      let p = j.paginator in
      let last = last_link-page_url p.pages_total u in
      let start = elim p.pages_total as (λ _. ℤ) [ none ↦ pos 1 | some n ↦ n ] in
      let more = has_next codec p.page_number p.pages_total in
      let next = href-page_url more (add_int p.page_number (pos 1)) start u in
      let less = ltb_ℤ (pos 1) p.page_number in
      let prev =
        href-page_url less (sub_int p.page_number (pos 1))
          (if more then add_int p.page_number (pos 1) else start) u in
      (
        refl,
        ap (λ r. r.0) last,
        rw last (ap (λ r. r.0) next),
        rw (last, next) (ap (λ r. r.0) prev),
        rw (last, next) (ap (λ r. r.1) prev),
      )

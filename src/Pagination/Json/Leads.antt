-- ===== src/Pagination/Json/Leads.antt =====
-- pagination/json.go, `MarshalJSON` and `pageURL`: what a link asks for.
use golang_service.Prelude.{
  ℕ, zero, suc, ◌≡◌, ◌≢◌, refl, sym, ap, subst, ◌∙◌, String, Option, none, some, Bool, true, false,
  if◌then◌else◌,
}
use golang_service.Prelude.Int.{ℤ, pos}
use golang_service.Prelude.Text.{str_eq}
use golang_service.Go.Int64.{add_int, sub_int}
use golang_service.Go.Decimal.{itoa}
use golang_service.Http.{Url}
use golang_service.Pagination.Json.{Codec, Json, JsonFields, link_values, page_url, marshal_json}
use golang_service.Pagination.Json.Targets.{Laws, page_url_twice, last_made, marshal_json-targets}

-- What net/url documents of `Set` and `Get`: a value that was set is found, and values under other
-- keys are left.
pub record Gets {Values : Type 0} (codec : Codec Values) : Type 0 where
  pub limit_found :
      (v : String) (q : Values) → codec.get_value "limit" (codec.set_value "limit" v q) ≡ v
  pub page_leaves :
      (k v : String) (q : Values)
      → k ≢ "page"
      → codec.get_value k (codec.set_value "page" v q) ≡ codec.get_value k q
  pub limit_leaves :
      (k v : String) (q : Values)
      → k ≢ "limit"
      → codec.get_value k (codec.set_value "limit" v q) ≡ codec.get_value k q

-- The links among the fields, each by the page that it is meant to lead to.
pub data LinkTo (j : Json) (fields : JsonFields) (s : String) (m : ℤ) : Type 0 where
  to_first : m ≡ pos 1 → s ≡ fields.first_href → LinkTo j fields s m
  to_last : j.paginator.pages_total ≡ some m → fields.last_href ≡ some s → LinkTo j fields s m
  to_next :
      m ≡ add_int j.paginator.page_number (pos 1) → fields.next_href ≡ some s → LinkTo j fields s m
  to_previous :
      m ≡ sub_int j.paginator.page_number (pos 1) → fields.prev_href ≡ some s → LinkTo j fields s m

of_if : (b : Bool) {s t : String} → (if b then some t else none) ≡ some s → s ≡ t
of_if true e = cc e
of_if false e = cc

of_total :
    (link : ℤ → String) (total : Option ℤ) {s : String} {m : ℤ}
    → total ≡ some m
    → (elim total [ none ↦ none | some n ↦ some (link n) ]) ≡ some s
    → s ≡ link m
of_total link none f e = cc
of_total link (some n) {m = m} f e = let same : n ≡ m = cc f in cc (ap link same, e)

-- A link to a page from a request for `u`: the page and the page size in place of what the request
-- has asked for, and all else as it was asked for, on a host that is named.
pub record Leads {Values : Type 0} (codec : Codec Values) (j : Json) (u : Url) (s : String)
    (page : ℤ) : Type 0 where
  pub target : Url
  pub shown : s ≡ codec.show_url target
  pub page_asked : codec.get_value "page" (codec.query target.raw_query) ≡ itoa page
  pub limit_asked :
      codec.get_value "limit" (codec.query target.raw_query) ≡ itoa j.paginator.items_per_page
  pub others_kept :
      (k : String)
      → k ≢ "page"
      → k ≢ "limit"
      → codec.get_value k (codec.query target.raw_query)
        ≡ codec.get_value k (codec.query u.raw_query)
  pub path_kept : (target.path ≡ u.path) × (target.raw_path ≡ u.raw_path)
  pub host_named : target.host ≡ (if str_eq "" u.host then j.host else u.host)
  pub scheme_named : target.scheme ≡ (if str_eq "" u.scheme then "https" else u.scheme)

module _ {Values : Type 0} (codec : Codec Values) (j : Json) (u : Url) where
  -- the URL of the request after so many calls of `MarshalJSON`
  unfoldable pub after : ℕ → Url
  unfolding marshal_json
  after zero = u
  after (suc n) = (marshal_json codec j (after n)).1

module _ {Values : Type 0} (codec : Codec Values) (laws : Laws codec) (gets : Gets codec) (j : Json)
    (u : Url) where
  page_url-Leads : (m : ℤ) → Leads codec j u (codec.show_url (page_url codec j m u)) m
  unfolding page_url link_values
  page_url-Leads m =
      let asked = codec.query u.raw_query in
      let paged = codec.set_value "page" (itoa m) asked in
      let limit = itoa j.paginator.items_per_page in
      let limited = codec.set_value "limit" limit paged in
      let read : (k : String)
          → codec.get_value k (codec.query (codec.encode limited)) ≡ codec.get_value k limited =
        λ k. ap (codec.get_value k) (laws.reads limited) in
      record {
        target = page_url codec j m u;
        shown = refl;
        page_asked =
            read "page"
            ∙ gets.limit_leaves "page" limit paged (λ e. cc)
            ∙ laws.finds (itoa m) asked;
        limit_asked = read "limit" ∙ gets.limit_found limit paged;
        others_kept = λ k np nl.
            read k ∙ gets.limit_leaves k limit paged nl ∙ gets.page_leaves k (itoa m) asked np;
        path_kept = (refl, refl);
        host_named = refl;
        scheme_named = refl;
      }

  page_url-after : (n : ℕ) (m : ℤ) → page_url codec j m (after codec j u n) ≡ page_url codec j m u
  unfolding after
  page_url-after zero m = refl
  page_url-after (suc n) m =
      let (first, last, next, previous, left) =
        marshal_json-targets codec laws j (after codec j u n) in
      ap (page_url codec j m) left
      ∙ page_url_twice codec laws j m (last_made codec laws j) (after codec j u n)
      ∙ page_url-after n m

  -- Each link of `MarshalJSON` asks for its page and for the page size of the paginator, and else
  -- for what the request has asked for: the same path and the same values under all other keys,
  -- with the request's host where the URL has none, and https where it has no scheme. That holds
  -- however often the same JSON was made before, although each time the request's own URL is
  -- written to. It supposes what net/url documents of reading a query as it was encoded, and of
  -- `Set` and `Get`.
  pub marshal_json-Leads :
      (n : ℕ) (s : String) (m : ℤ)
      → LinkTo j (marshal_json codec j (after codec j u n)).0 s m
      → Leads codec j u s m
  marshal_json-Leads n s m link =
      let (first, last, next, previous, left) =
        marshal_json-targets codec laws j (after codec j u n) in
      let to_page : (k : ℤ)
          → m ≡ k
          → s ≡ codec.show_url (page_url codec j k (after codec j u n))
          → Leads codec j u s m =
        λ k page e.
          subst (λ i. Leads codec j u s i) (sym page)
            (subst (λ t. Leads codec j u t k) (sym (e ∙ ap codec.show_url (page_url-after n k)))
              (page_url-Leads k)) in
      elim link [
        | to_first page e ↦ to_page (pos 1) page (e ∙ first)
        | to_last total e ↦ to_page m refl (
            of_total (λ k. codec.show_url (page_url codec j k (after codec j u n)))
              j.paginator.pages_total total (sym last ∙ e))
        | to_next page e ↦
            to_page (add_int j.paginator.page_number (pos 1)) page (of_if _ (sym next ∙ e))
        | to_previous page e ↦
            to_page (sub_int j.paginator.page_number (pos 1)) page (of_if _ (sym previous ∙ e))
      ]

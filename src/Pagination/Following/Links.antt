-- ===== src/Pagination/Following/Links.antt =====
-- pagination/json.go, `MarshalJSON`, and paginator.go together: the links are followed.
use golang_service.Prelude.{
  ℕ, ◌^◌, ◌<◌, ◌≡◌, refl, sym, ap, ◌∙◌, Option, some, none, Bool, true, false, String,
  if◌then◌else◌, arith,
}
use golang_service.Prelude.Int.{ℤ, pos, ltb_ℤ, ◌≤ℤ◌}
use golang_service.Go.Int64.{add_int}
use golang_service.Go.Float64.{Float64}
use golang_service.Http.{Url}
use golang_service.Pagination.Json.{Codec, Json, JsonFields, page_url, has_next, marshal_json}
use golang_service.Pagination.Json.Targets.{Laws, marshal_json-targets}
use golang_service.Pagination.{Paginator, set_items_total}
use golang_service.Pagination.Following.{
  Linked, first_page, last_page, next_page, previous_page, Visited, counts, Linked-Visited,
}

-- the links that are among the fields
pub data IsLink (fields : JsonFields) (s : String) : Type 0 where
  is_first : s ≡ fields.first_href → IsLink fields s
  is_last : fields.last_href ≡ some s → IsLink fields s
  is_next : fields.next_href ≡ some s → IsLink fields s
  is_previous : fields.prev_href ≡ some s → IsLink fields s

some_of_total :
    (link : ℤ → String) (total : Option ℤ) {s : String}
    → (elim total [ none ↦ none | some m ↦ some (link m) ]) ≡ some s
    → (m : ℤ) × (total ≡ some m) × (s ≡ link m)
some_of_total link none e = cc
some_of_total link (some m) e = (m, refl, cc e)

some_of_if :
    (b : Bool) {s t : String} → (if b then some t else none) ≡ some s → (b ≡ true) × (s ≡ t)
some_of_if true e = (refl, cc e)
some_of_if false e = cc

module _ (u : Float64 → ℤ) (p z : Paginator) (a n i : ℕ) (limit : ℤ) (page : p.page_number ≡ pos a)
    (items : p.items_per_page ≡ pos n) (pn : 0 < n) (bn : n < 2 ^ 53) (bi : i < 2 ^ 53)
    (within : pos n ≤ℤ limit) (accepted : (set_items_total u p (pos i)).1 ≡ none) where
  abbrev now : Paginator
  now = (set_items_total u p (pos i)).0

  module _ {Values : Type 0} (codec : Codec Values) (laws : Laws codec) (host : String)
      (url : Url) where
    abbrev json : Json
    json = record { paginator = now; host = host }

    abbrev link : ℤ → String
    link m = codec.show_url (page_url codec json m url)

    next-Linked :
        has_next codec now.page_number now.pages_total ≡ true
        → Linked now (add_int now.page_number (pos 1))
    next-Linked e =
        let set = (counts u p z a n i limit page items pn bn bi within accepted).pages_set in
        let below : ltb_ℤ now.page_number
              (pos (counts u p z a n i limit page items pn bn bi within accepted).count)
            ≡ true =
          sym (ap (has_next codec now.page_number) set) ∙ e in
        next_page (pos (counts u p z a n i limit page items pn bn bi within accepted).count) set
          (ground (arith, below)) refl

    -- Where the number of items, below 2^53, has been accepted for a page, every link of
    -- `MarshalJSON` is one to a page that is accepted too, if the same page size, from 1 to below
    -- 2^53 and within the limit, and the same number of items are asked for, and net/url reads a
    -- query as it was encoded and its `Set` replaces what is there.
    pub IsLink-Visited :
        (s : String)
        → IsLink (marshal_json codec json url).0 s
        → (m : ℤ) × (s ≡ link m) × Visited u z m (pos n) limit (pos i)
    IsLink-Visited s given =
        let (first, last, next, previous, left) = marshal_json-targets codec laws json url in
        elim given [
          | is_first e ↦ (
            pos 1,
            e ∙ first,
            Linked-Visited u p z a n i limit page items pn bn bi within accepted (pos 1)
                (first_page refl),
          )
          | is_last e ↦
              let (m, total, same) = some_of_total link now.pages_total (sym last ∙ e) in
              (
                m,
                same,
                Linked-Visited u p z a n i limit page items pn bn bi within accepted m
                    (last_page total),
              )
          | is_next e ↦
              let (more, same) = some_of_if _ (sym next ∙ e) in
              (
                _,
                same,
                Linked-Visited u p z a n i limit page items pn bn bi within accepted _
                    (next-Linked more),
              )
          | is_previous e ↦
              let (more, same) = some_of_if _ (sym previous ∙ e) in
              (
                _,
                same,
                Linked-Visited u p z a n i limit page items pn bn bi within accepted _
                    (previous_page (ground arith) refl),
              )
        ]

-- ===== src/Pagination/Json/Links.antt =====
-- pagination/json.go, `MarshalJSON`: which links are given.
use golang_service.Prelude.{
  ◌≡◌, ◌↔◌, refl, sym, subst, Bool, true, false, Option, none, some, arith,
}
use golang_service.Prelude.Int.{ℤ, pos, ltb_ℤ, ◌≤ℤ◌}
use golang_service.Go.Int64.{add_int, sub_int}
use golang_service.Http.{Url}
use golang_service.Pagination.Json.{Codec, Json, page_url, href, has_next, last_link, marshal_json}

module _ {Values : Type 0} (codec : Codec Values) where
  href-none :
      (j : Json) (b : Bool) (page : ℤ) (u : Url) → ((href codec j b page u).0 ≡ none) ↔ (b ≡ false)
  unfolding href
  href-none j true page u = ((λ e. cc), λ e. cc)
  href-none j false page u = ((λ e. refl), λ e. refl)

  last_none :
      (j : Json) (total : Option ℤ) (u : Url)
      → ((last_link codec j total u).0 ≡ none) ↔ (total ≡ none)
  unfolding href
  last_none j none u = ((λ e. refl), λ e. refl)
  last_none j (some n) u = ((λ e. cc), λ e. cc)

  some_injective : {a b : ℤ} → some a ≡ some b → a ≡ b
  some_injective h = cc

  not_below : (page n m : ℤ) → n ≡ m → m ≤ℤ page → ltb_ℤ page n ≡ false
  not_below page n m e le = ground (arith, subst (λ x. x ≤ℤ page) (sym e) le)

  iff_trans : {X Y Z : Type 0} → X ↔ Y → Y ↔ Z → X ↔ Z
  iff_trans (f, g) (h, k) = ((λ x. h (f x)), λ z. g (k z))

  no_next :
      (page : ℤ) (total : Option ℤ)
      → (has_next codec page total ≡ false) ↔ ((n : ℤ) × (total ≡ some n) × (n ≤ℤ page))
  no_next page none = ((λ e. cc), λ (n, e, le). cc)
  no_next page (some n) =
      ((λ e. (n, refl, ground arith)), λ (m, e, le). not_below page n m (some_injective e) le)

  no_prev : (page : ℤ) → (ltb_ℤ (pos 1) page ≡ false) ↔ (page ≤ℤ pos 1)
  no_prev page = ((λ e. ground arith), λ e. ground arith)

  module _ (j : Json) (u : Url) where
    -- A link to the last page is given exactly if the number of pages is known; one to the next
    -- page is missing exactly if that number is known and the page is not below it; one to the
    -- page before exactly if the page is the first (or a number below 1).
    pub marshal_json-links :
        let links = (marshal_json codec j u).0 in
        (links.last_href ≡ none ↔ j.paginator.pages_total ≡ none)
        × (links.next_href ≡ none
            ↔ ((n : ℤ) × (j.paginator.pages_total ≡ some n) × (n ≤ℤ j.paginator.page_number)))
        × (links.prev_href ≡ none ↔ j.paginator.page_number ≤ℤ pos 1)
    unfolding marshal_json
    marshal_json-links =
        let p = j.paginator in
        let u1 = page_url codec j (pos 1) u in
        let u2 = (last_link codec j p.pages_total u1).1 in
        let more = has_next codec p.page_number p.pages_total in
        let u3 = (href codec j more (add_int p.page_number (pos 1)) u2).1 in
        (
          last_none j p.pages_total u1,
          iff_trans (href-none j more (add_int p.page_number (pos 1)) u2)
              (no_next p.page_number p.pages_total),
          iff_trans (href-none j (ltb_ℤ (pos 1) p.page_number) (sub_int p.page_number (pos 1)) u3)
              (no_prev p.page_number),
        )

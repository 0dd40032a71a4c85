-- ===== src/Pagination/Following/Crawl/Server.antt =====
-- pagination/paginator.go and json.go: what a server that pages through a list answers with, on a
-- page of which items are left and on the first page.
use golang_service.Prelude.{
  ℕ, suc, ◌-◌, ◌*◌, ◌^◌, ◌≤◌, ◌<◌, ◌≡◌, refl, ap, ◌∙◌, ◌⊎◌, inl, inr, Option, some, none,
  Bool-cases, String, List, length, take, drop, ltb, ltb→lt, arith, true, false,
}
use golang_service.Prelude.Int.{ℤ, pos, ◌≤ℤ◌}
use golang_service.Prelude.Arith.{lt_of_not_le, mul_mono}
use golang_service.Go.Int64.{add_int}
use golang_service.Go.Float64.{Float64}
use golang_service.Http.{Url}
use golang_service.Pagination.{Paginator, zero_paginator, init, offset, set_items_total}
use golang_service.Pagination.Json.{Codec, Json, new_json, page_url, has_next, marshal_json}
use golang_service.Pagination.Json.Targets.{Laws, marshal_json-targets}
use golang_service.Pagination.Pages.{Counts, set_items_total-Counts, offset_nat}
use golang_service.Pagination.Following.Crawl.{nat_of, give, answer_with, answer}
use golang_service.Pagination.Following.{suc_int, Visited, Visited-pos}

module _ {A Values : Type 0} (codec : Codec Values) (u : Float64 → ℤ) (limit : ℤ) (host : String)
    (n : ℕ) (xs : List A) (laws : Laws codec) (pn : 0 < n) (bn : n < 2 ^ 53)
    (bi : length xs < 2 ^ 53) (within : pos n ≤ℤ limit) where
  -- the paginator of page suc b, before and after the number of items is set
  abbrev ready : ℕ → Paginator
  ready b = (init zero_paginator (pos (suc b)) (pos n) limit).0

  abbrev full : ℕ → Paginator
  full b = (set_items_total u (ready b) (pos (length xs))).0

  ready-page : (b : ℕ) → (ready b).page_number ≡ pos (suc b)
  unfolding init
  ready-page b = ground arith

  ready-items : (b : ℕ) → (ready b).items_per_page ≡ pos n
  unfolding init
  ready-items b = ground arith

  full-page : (b : ℕ) → (full b).page_number ≡ pos (suc b)
  unfolding set_items_total
  full-page b = ground (arith, ready-page b)

  full-items : (b : ℕ) → (full b).items_per_page ≡ pos n
  unfolding set_items_total
  full-items b = ground (arith, ready-items b)

  -- a page of which items are left, or the first one
  abbrev pub There : ℕ → Type 0
  There b = (b ≡ 0) ⊎ (b * n < length xs)

  There-Visited :
      (b : ℕ) → There b → Visited u zero_paginator (pos (suc b)) (pos n) limit (pos (length xs))
  There-Visited b (inl e) =
      Visited-pos u zero_paginator n (length xs) limit pn bn bi within (suc b) (inl (omega arith))
  There-Visited b (inr lt) =
      let same : suc b - 1 ≡ b = omega arith in
      Visited-pos u zero_paginator n (length xs) limit pn bn bi within (suc b)
        (inr (omega (arith, ap (λ k. k * n) same)))

  There-bound : (b : ℕ) → There b → (b < 2 ^ 53) × (b * n < 2 ^ 53)
  There-bound b (inl e) = (omega arith, omega (arith, ap (λ k. k * n) e))
  There-bound b (inr lt) = (omega (arith, mul_mono 1 n b pn), omega arith)

  begins : (b : ℕ) → There b → nat_of (offset (full b)) ≡ b * n
  begins b there =
      let (small, bound) = There-bound b there in
      ap nat_of (offset_nat (full b) b n (full-page b) (full-items b) (omega arith) (omega arith))

  page_counts : (b : ℕ) → There b → Counts (full b) (length xs) n
  page_counts b there =
      set_items_total-Counts u (ready b) (suc b) n (length xs) (ready-page b) (ready-items b) pn bn
        bi (There-Visited b there).1

  abbrev pub json : ℕ → Json
  json b = record { paginator = full b; host = host }

  -- the link to the page after the page suc b
  abbrev pub link : ℕ → Url → String
  link b url = codec.show_url (page_url codec (json b) (pos (suc (suc b))) url)

  -- items are left after a page that is not the last
  items_after :
      (b : ℕ) (there : There b) → suc b < (page_counts b there).count → suc b * n < length xs
  items_after b there lt =
      lt_of_not_le (length xs) (suc b * n)
        (λ over. omega (arith, ((page_counts b there).least (suc b)).0 over))

  next-some :
      (b : ℕ) (there : There b) (url : Url)
      → suc b < (page_counts b there).count
      → (marshal_json codec (json b) url).0.next_href ≡ some (link b url)
  next-some b there url lt =
      let (first, last, next, previous, left) = marshal_json-targets codec laws (json b) url in
      let more : has_next codec (full b).page_number (full b).pages_total ≡ true =
        rw (full-page b, (page_counts b there).pages_set) (ground arith) in
      let one_more : add_int (full b).page_number (pos 1) ≡ pos (suc (suc b)) =
        ap (λ m. add_int m (pos 1)) (full-page b)
        ∙ suc_int (suc b) (There-bound (suc b) (inr (items_after b there lt))).0 in
      next ∙ rw (more, one_more) refl

  next-none :
      (b : ℕ) (there : There b) (url : Url)
      → ¬ (suc b < (page_counts b there).count)
      → (marshal_json codec (json b) url).0.next_href ≡ none
  next-none b there url ge =
      let (first, last, next, previous, left) = marshal_json-targets codec laws (json b) url in
      let end : has_next codec (full b).page_number (full b).pages_total ≡ false =
        rw (full-page b, (page_counts b there).pages_set) (ground arith) in
      next ∙ rw end refl

  answer-page :
      (b : ℕ)
      → There b
      → (url : Url)
      → answer codec u limit host n xs (pos (suc b)) url
        ≡ some (take n (drop (b * n) xs), (marshal_json codec (json b) url).0.next_href)
  unfolding answer new_json
  answer-page b there url =
      let (asked_for, accepted) = There-Visited b there in
      ap
        (λ e.
          answer_with codec u limit host n xs (record { paginator = ready b; host = host }, e) url)
        asked_for
      ∙ ap
          (λ e.
            give codec u limit host n xs (record { paginator = ready b; host = host }) (full b, e)
              url)
          accepted
      ∙ ap (λ o. some (take n (drop o xs), (marshal_json codec (json b) url).0.next_href))
          (begins b there)

  -- what the page suc b is answered with, by whether items are left after it
  pub data Answered (b : ℕ) (url : Url) : Type 0 where
    more :
        suc b * n < length xs
        → answer codec u limit host n xs (pos (suc b)) url
          ≡ some (take n (drop (b * n) xs), some (link b url))
        → Answered b url
    last :
        length xs ≤ suc b * n
        → answer codec u limit host n xs (pos (suc b)) url ≡ some (take n (drop (b * n) xs), none)
        → Answered b url

  pub page-Answered : (b : ℕ) → There b → (url : Url) → Answered b url
  page-Answered b there url =
      let counts = page_counts b there in
      let given : Option String → Option (List A × Option String) =
        λ next. some (take n (drop (b * n) xs), next) in
      elim (Bool-cases (ltb (suc b) counts.count)) [
        | inl e ↦
            let lt = ltb→lt (suc b) counts.count e in
            more (items_after b there lt)
              (answer-page b there url ∙ ap given (next-some b there url lt))
        | inr e ↦
            let end : ¬ (suc b < counts.count) = λ lt. ground arith in
            last ((counts.least (suc b)).1 (omega arith))
              (answer-page b there url ∙ ap given (next-none b there url end))
      ]

-- ===== src/Pagination/Following/Crawl/Client.antt =====
-- pagination/paginator.go and json.go: a client that follows the links to the next page.
use golang_service.Prelude.{
  ℕ, zero, suc, ◌+◌, ◌*◌, ◌^◌, ◌≤◌, ◌<◌, ◌≡◌, refl, sym, ap, ◌∙◌, inl, inr, Option, some, none,
  String, List, ◌++◌, length, take, drop, take_all, take-drop, drop-drop, length-drop, subst, arith,
}
use golang_service.Prelude.Int.{ℤ, pos, ◌≤ℤ◌}
use golang_service.Go.Float64.{Float64}
use golang_service.Http.{Url}
use golang_service.Pagination.Json.{Codec, page_url}
use golang_service.Pagination.Json.Targets.{Laws, page_url-page}
use golang_service.Pagination.Following.Crawl.{Reader, Reads, onto, follow, answer, asked, crawl}
use golang_service.Pagination.Following.Crawl.Server.{There, json, link, more, last, page-Answered}

module _ {A Values : Type 0} (codec : Codec Values) (r : Reader) (u : Float64 → ℤ) (limit : ℤ)
    (host : String) (n : ℕ) (xs : List A) (laws : Laws codec) (reads : Reads codec r) (pn : 0 < n)
    (bn : n < 2 ^ 53) (bi : length xs < 2 ^ 53) (within : pos n ≤ℤ limit) where
  abbrev linked : ℕ → Url → String
  linked = link codec u limit host n xs laws pn bn bi within

  asked-link :
      (b : ℕ) (url : Url) → asked codec r u limit host n xs (linked b url) ≡ pos (suc (suc b))
  asked-link b url =
      let j = json codec u limit host n xs laws pn bn bi within b in
      let page = pos (suc (suc b)) in
      ap (λ q. r.atoi (codec.get_value "page" (codec.query q)))
        (reads.parses (page_url codec j page url))
      ∙ ap r.atoi (page_url-page codec laws j page url)
      ∙ reads.numbers page

  -- the client that has so many requests left
  abbrev client : ℕ → ℤ → Url → Option (List A)
  client = crawl codec r u limit host n xs

  abbrev shown : ℕ → List A
  shown b = take n (drop (b * n) xs)

  client-more :
      (f b : ℕ) (url : Url)
      → answer codec u limit host n xs (pos (suc b)) url ≡ some (shown b, some (linked b url))
      → client (suc f) (pos (suc b)) url
        ≡ onto (shown b) (client f (pos (suc (suc b))) (r.parse_url (linked b url)))
  unfolding crawl
  client-more f b url e =
      ap (follow (λ next. client f (asked codec r u limit host n xs next) (r.parse_url next))) e
      ∙ ap (λ page. onto (shown b) (client f page (r.parse_url (linked b url)))) (asked-link b url)

  client-last :
      (f b : ℕ) (url : Url)
      → answer codec u limit host n xs (pos (suc b)) url ≡ some (shown b, none)
      → client (suc f) (pos (suc b)) url ≡ some (shown b)
  unfolding crawl
  client-last f b url e =
      ap (follow (λ next. client f (asked codec r u limit host n xs next) (r.parse_url next))) e

  rest : (b : ℕ) → shown b ++ drop (suc b * n) xs ≡ drop (b * n) xs
  rest b =
      let after : suc b * n ≡ b * n + n = omega arith in
      ap (λ k. shown b ++ drop k xs) after
      ∙ ap (λ ys. shown b ++ ys) (sym (drop-drop n (b * n) xs))
      ∙ take-drop n (drop (b * n) xs)

  -- Where items are left after a page, requests are left too.
  requests_left : (f b : ℕ) → suc b * n < length xs → length xs ≤ (b + suc f) * n → 0 < f
  requests_left zero b lt enough =
      let same : b + 1 ≡ suc b = omega arith in absurd (omega (arith, ap (λ k. k * n) same))
  requests_left (suc f) b lt enough = omega arith

  last_shown : (b : ℕ) → length xs ≤ suc b * n → shown b ≡ drop (b * n) xs
  last_shown b end = take_all n (drop (b * n) xs) (omega (arith, length-drop (b * n) xs))

  client-page :
      (f b : ℕ)
      → There codec u limit host n xs laws pn bn bi within b
      → 0 < f
      → length xs ≤ (b + f) * n
      → (url : Url) → client f (pos (suc b)) url ≡ some (drop (b * n) xs)
  client-page zero b there p enough url = absurd (omega arith)
  client-page (suc f) b there p enough url =
      elim (page-Answered codec u limit host n xs laws pn bn bi within b there url) [
        | more left e ↦
            let moved : b + suc f ≡ suc b + f = omega arith in
            let further =
              client-page f (suc b) (inr left) (requests_left f b left enough)
                (subst (λ k. length xs ≤ k * n) moved enough) (r.parse_url (linked b url)) in
            client-more f b url e ∙ ap (onto (shown b)) further ∙ ap some (rest b)
        | last end e ↦ client-last f b url e ∙ ap some (last_shown b end)
      ]

  -- A client that starts on the first page and follows `next_href` until there is none gets every
  -- item exactly once and in order, and comes to an end, whatever the URL of its first request:
  -- without an error and within as many requests as there are pages, one for no items. The page
  -- size is from 1 to below 2^53 and within the limit, there are fewer than 2^53 items, net/url
  -- finds in a query what was set and reads a query as it was encoded, and the client reads links
  -- and numbers as they were written.
  pub crawl_all :
      (f : ℕ)
      → 0 < f
      → length xs ≤ f * n
      → (url : Url) → crawl codec r u limit host n xs f (pos 1) url ≡ some xs
  crawl_all f p enough url =
      let start : f ≡ 0 + f = omega arith in
      let first : 0 * n ≡ 0 = omega arith in
      client-page f 0 (inl refl) p (subst (λ k. length xs ≤ k * n) start enough) url
      ∙ ap (λ k. some (drop k xs)) first

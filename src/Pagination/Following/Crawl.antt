-- ===== src/Pagination/Following/Crawl.antt =====
-- pagination/paginator.go and json.go together: a server that pages through a list with `NewJSON`,
-- `SetItemsTotal`, `Offset` and `MarshalJSON`, and a client that follows the links to the next
-- page. The server does what the package documentation shows in use (pagination/doc.go), the client
-- leaves the page by the links alone. `Server` says what a page is answered with, `Client` what the
-- client gets.
mod Server
pub mod Client
use golang_service.Prelude.{
  ℕ, zero, suc, ◌+◌, ◌≡◌, Option, some, none, String, List, ◌++◌, length, take, drop,
}
use golang_service.Prelude.Int.{ℤ, pos, negsuc}
use golang_service.Go.Decimal.{itoa}
use golang_service.Go.Float64.{Float64}
use golang_service.Http.{Url}
use golang_service.Pagination.{Paginator, PageError, offset, set_items_total}
use golang_service.Pagination.Json.{Codec, Json, new_json, marshal_json}

-- What a client reads off a link: `url.Parse` and `strconv.Atoi`.
pub record Reader : Type 0 where
  pub parse_url : String → Url
  pub atoi : String → ℤ

-- A link that was written is parsed with its query, and a number that was written is read again.
pub record Reads {Values : Type 0} (codec : Codec Values) (r : Reader) : Type 0 where
  pub parses : (u : Url) → (r.parse_url (codec.show_url u)).raw_query ≡ u.raw_query
  pub numbers : (m : ℤ) → r.atoi (itoa m) ≡ m

abbrev pub nat_of : ℤ → ℕ
nat_of (pos m) = m
nat_of (negsuc m) = 0

-- what is read off an answer, and off the answer that its link leads to
abbrev pub onto : {A : Type 0} → List A → Option (List A) → Option (List A)
onto shown none = none
onto shown (some rest) = some (shown ++ rest)

abbrev pub follow :
    {A : Type 0} → (String → Option (List A)) → Option (List A × Option String) → Option (List A)
follow go none = none
follow go (some (shown, none)) = some shown
follow go (some (shown, some next)) = onto shown (go next)

module _ {A Values : Type 0} (codec : Codec Values) (u : Float64 → ℤ) (limit : ℤ) (host : String)
    (n : ℕ) (xs : List A) where
  -- the items from the offset on, and the link to the next page; none for an error
  abbrev pub give : Json → Paginator × Option PageError → Url → Option (List A × Option String)
  give j (q, some err) url = none
  give j (q, none) url = some (
    take n (drop (nat_of (offset q)) xs),
    (marshal_json codec (record j { paginator = q }) url).0.next_href,
  )

  abbrev pub answer_with : Json × Option PageError → Url → Option (List A × Option String)
  answer_with (j, some err) url = none
  answer_with (j, none) url = give j (set_items_total u j.paginator (pos (length xs))) url

  -- what the server answers to a request for a page, by the URL of the request
  unfoldable pub answer : ℤ → Url → Option (List A × Option String)
  unfolding new_json marshal_json offset set_items_total
  answer page url = answer_with (new_json page (pos n) limit host) url

module _ {A Values : Type 0} (codec : Codec Values) (r : Reader) (u : Float64 → ℤ) (limit : ℤ)
    (host : String) (n : ℕ) (xs : List A) where
  -- the page that a link asks for
  abbrev pub asked : String → ℤ
  asked link = r.atoi (codec.get_value "page" (codec.query (r.parse_url link).raw_query))

  -- All items from a page on, by following the links to the next page; none where the server
  -- answers with an error, or where the links have not come to an end after so many requests.
  unfoldable pub crawl : ℕ → ℤ → Url → Option (List A)
  unfolding answer
  crawl zero page url = none
  crawl (suc f) page url =
      follow (λ next. crawl f (asked next) (r.parse_url next))
        (answer codec u limit host n xs page url)

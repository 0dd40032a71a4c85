-- ===== src/Pagination/Setup.antt =====
-- `Init` and `New`: what is accepted, what is stored, and that a refusal changes nothing.
use golang_service.Prelude.{◌≡◌, ◌≢◌, ◌↔◌, ◌⊎◌, none, arith}
use golang_service.Prelude.Int.{ℤ, pos, ◌≤ℤ◌, ◌<ℤ◌}
use golang_service.Pagination.{Paginator, init, default_page_number, default_items_per_page}

-- A paginator that `Init` has set up: pages are counted from one and hold an item at least.
pub record IsReady (p : Paginator) : Type 0 where
  pub page : pos 1 ≤ℤ p.page_number
  pub items : pos 1 ≤ℤ p.items_per_page

-- `Init` fails exactly if more items are asked for than the limit allows, or a number is negative;
-- and it succeeds or leaves the receiver as it was.
pub init-fails_iff :
    (p : Paginator) (page per limit : ℤ)
    → let (q, failure) = init p page per limit in
      ((failure ≢ none) ↔ ((limit <ℤ per) ⊎ (page <ℤ pos 0) ⊎ (per <ℤ pos 0)))
      × ((failure ≡ none) ⊎ (q ≡ p))
unfolding init
init-fails_iff p page per limit = ((λ h. ground arith, λ h. ground arith), ground arith)

-- What a successful `Init` of `p` leaves: the page and the page size are at least one; each is the
-- number that was asked for, or the default where that was zero; a size that was asked for is
-- within the limit; the limit is stored, and the totals are as before.
pub record Stores (p q : Paginator) (page per limit : ℤ) : Type 0 where
  pub ready : IsReady q
  pub page_set :
      ((page ≡ pos 0) × (q.page_number ≡ default_page_number))
      ⊎ ((page ≢ pos 0) × (q.page_number ≡ page))
  pub items_set :
      ((per ≡ pos 0) × (q.items_per_page ≡ default_items_per_page))
      ⊎ ((per ≢ pos 0) × (q.items_per_page ≡ per) × (q.items_per_page ≤ℤ limit))
  pub stored_limit : q.items_per_page_limit ≡ limit
  pub pages_kept : q.pages_total ≡ p.pages_total
  pub items_kept : q.items_total ≡ p.items_total

init-IsReady :
    (p : Paginator) (page per limit : ℤ)
    → (init p page per limit).1 ≡ none
    → IsReady (init p page per limit).0
unfolding init
init-IsReady p page per limit h = ground arith

-- A successful `Init` has stored what was asked for, with the defaults put in: the page and the
-- page size are at least one, and a size that was asked for is within the limit.
pub init-Stores :
    (p : Paginator) (page per limit : ℤ)
    → (init p page per limit).1 ≡ none
    → Stores p (init p page per limit).0 page per limit
unfolding init
init-Stores p page per limit h = record {
  ready = init-IsReady p page per limit h;
  page_set = ground arith;
  items_set = ground arith;
  stored_limit = ground arith;
  pages_kept = ground arith;
  items_kept = ground arith;
}

-- With no page size given and a limit from 0 to 9, `Init` succeeds on every page number from zero
-- on, with a page size above the limit that it stores.
pub init_default_over_limit :
    (p : Paginator) (page limit : ℤ)
    → pos 0 ≤ℤ page
    → pos 0 ≤ℤ limit
    → limit <ℤ default_items_per_page
    → let (q, failure) = init p page (pos 0) limit in
      (failure ≡ none) × (q.items_per_page_limit <ℤ q.items_per_page)
unfolding init
init_default_over_limit p page limit hp hl hd = (ground arith, ground arith)

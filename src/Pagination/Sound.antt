-- ===== src/Pagination/Sound.antt =====
-- pagination/paginator.go: what stays true of a paginator that `New` has made, whatever `Init` and
-- `SetItemsTotal` are called with later, errors included.
use golang_service.Prelude.{
  ◌≡◌, refl, sym, subst, ◌⊎◌, inl, inr, Option, none, some, List, [], ◌∷◌, Bool-cases, arith, ◌&&◌,
}
use golang_service.Prelude.Int.{ℤ, pos, ◌≤ℤ◌, ltb_ℤ}
use golang_service.Go.Float64.{Float64}
use golang_service.Pagination.{
  Paginator, zero_paginator, init, new, page_count, set_items_total, default_items_per_page,
}
use golang_service.Pagination.Setup.{IsReady, init-fails_iff, init-Stores}

pub data Change : Type 0 where
  set_up : ℤ → ℤ → ℤ → Change
  set_total : ℤ → Change

module _ (u : Float64 → ℤ) where
  -- what a call leaves, whether it fails or not
  unfoldable pub apply : Change → Paginator → Paginator
  unfolding init set_items_total
  apply (set_up page per limit) p = (init p page per limit).0
  apply (set_total i) p = (set_items_total u p i).0

  unfoldable pub apply_all : List Change → Paginator → Paginator
  unfolding apply
  apply_all [] p = p
  apply_all (c ∷ cs) p = apply_all cs (apply c p)

  -- The totals belong together: both are missing, or the pages are those counted for the items, on
  -- pages of the size that was set at the time.
  pub data Totals (pages items : Option ℤ) : Type 0 where
    unset : pages ≡ none → items ≡ none → Totals pages items
    set :
        (i n : ℤ)
        → pos 1 ≤ℤ n
        → items ≡ some i
        → pages ≡ some (page_count u i n)
        → Totals pages items

  pub record Sound (p : Paginator) : Type 0 where
    pub ready : IsReady p
    pub sized :
        (p.items_per_page ≤ℤ p.items_per_page_limit) ⊎ (p.items_per_page ≡ default_items_per_page)
    pub totals : Totals p.pages_total p.items_total

  init-sized :
      (p : Paginator) (page per limit : ℤ)
      → (init p page per limit).1 ≡ none
      → let q = (init p page per limit).0 in
        (q.items_per_page ≤ℤ q.items_per_page_limit) ⊎ (q.items_per_page ≡ default_items_per_page)
  unfolding init
  init-sized p page per limit h = ground arith

  init-Sound : (p : Paginator) (page per limit : ℤ) → Sound p → Sound (init p page per limit).0
  init-Sound p page per limit h = elim (init-fails_iff p page per limit).1 [
    | inl accepted ↦
        let stores = init-Stores p page per limit accepted in
        record {
          ready = stores.ready;
          sized = init-sized p page per limit accepted;
          totals = rw (stores.pages_kept, stores.items_kept) h.totals;
        }
    | inr same ↦ subst Sound (sym same) h
  ]

  set_items_total-Sound : (p : Paginator) (i : ℤ) → Sound p → Sound (set_items_total u p i).0
  unfolding set_items_total
  set_items_total-Sound p i h =
      elim (Bool-cases
        (ltb_ℤ (pos 1) p.page_number && ltb_ℤ (page_count u i p.items_per_page) p.page_number)) [
          | inl refused ↦ rw refused h
          | inr accepted ↦ rw accepted (record {
            ready = record { page = h.ready.page; items = h.ready.items };
            sized = h.sized;
            totals = set i p.items_per_page h.ready.items refl refl;
          })
        ]

  apply-Sound : (c : Change) (p : Paginator) → Sound p → Sound (apply c p)
  unfolding apply
  apply-Sound (set_up page per limit) p h = init-Sound p page per limit h
  apply-Sound (set_total i) p h = set_items_total-Sound p i h

  apply_all-Sound : (cs : List Change) (p : Paginator) → Sound p → Sound (apply_all cs p)
  unfolding apply_all
  apply_all-Sound [] p h = h
  apply_all-Sound (c ∷ cs) p h = apply_all-Sound cs (apply c p) (apply-Sound c p h)

  -- Of a paginator that `New` has made without an error, whatever `Init` and `SetItemsTotal` are
  -- called with afterwards and whether they fail or not: the page and the page size are at least
  -- one, the page size is within the limit or the default, and the totals are both missing, or the
  -- pages are those counted for the items on pages of some size that is at least one.
  pub new-Sound :
      (page per limit : ℤ) (cs : List Change)
      → (new page per limit).1 ≡ none
      → Sound (apply_all cs (new page per limit).0)
  unfolding new
  new-Sound page per limit cs accepted =
      let stores = init-Stores zero_paginator page per limit accepted in
      apply_all-Sound cs (new page per limit).0 (record {
        ready = stores.ready;
        sized = init-sized zero_paginator page per limit accepted;
        totals = unset stores.pages_kept stores.items_kept;
      })

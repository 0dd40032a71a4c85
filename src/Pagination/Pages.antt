-- ===== src/Pagination/Pages.antt =====
-- `SetItemsTotal` and `Offset`: the number of pages, and the item with which a page begins.
use golang_service.Prelude.{
  ℕ, suc, ◌+◌, ◌-◌, ◌*◌, ◌/◌, ◌^◌, ◌≤◌, ◌<◌, ◌≡◌, ◌≢◌, ◌↔◌, ◌⊎◌, some, none, arith,
}
use golang_service.Prelude.Int.{ℤ, pos, pos_pred, pos_mul}
use golang_service.Go.Int64.{two63, wrap_of_IsInt64}
use golang_service.Go.Float64.{Float64}
use golang_service.Go.Float64.Ceiling.{to_int-ceil-fdiv, ceil_bounds}
use golang_service.Prelude.Arith.{mul_mono, le_of_not_lt}
use golang_service.Pagination.{Paginator, offset, page_count, set_items_total}

-- the number of pages of n items that hold i items
abbrev pub pages : ℕ → ℕ → ℕ
pages i n = (i + (n - 1)) / n

page_count-pages :
    (u : Float64 → ℤ) (i n : ℕ)
    → 0 < n
    → n < 2 ^ 53
    → i < 2 ^ 53
    → page_count u (pos i) (pos n) ≡ pos (pages i n)
unfolding page_count
page_count-pages u i n pn bn bi = to_int-ceil-fdiv u i n pn bn bi

pages-least : (i n j : ℕ) → 0 < n → i ≤ j * n → pages i n ≤ j
pages-least i n j pn h =
    le_of_not_lt (pages i n) j
      (λ over. omega (arith, mul_mono (j + 1) (pages i n) n (omega arith), (ceil_bounds i n pn).1))

pages-le_iff : (i n j : ℕ) → 0 < n → (i ≤ j * n) ↔ (pages i n ≤ j)
pages-le_iff i n j pn =
    (pages-least i n j pn, λ h. omega (arith, (ceil_bounds i n pn).0, mul_mono (pages i n) j n h))

-- The pages counted are the fewest that hold all the items: `j` pages do exactly if they are as
-- many.
pub record Counts (q : Paginator) (i n : ℕ) : Type 0 where
  pub count : ℕ
  pub pages_set : q.pages_total ≡ some (pos count)
  pub items_set : q.items_total ≡ some (pos i)
  pub least : (j : ℕ) → (i ≤ j * n) ↔ (count ≤ j)

module _ (u : Float64 → ℤ) (p : Paginator) (a n i : ℕ) (page : p.page_number ≡ pos a)
    (items : p.items_per_page ≡ pos n) (pn : 0 < n) (bn : n < 2 ^ 53) (bi : i < 2 ^ 53) where
  counted : page_count u (pos i) p.items_per_page ≡ pos (pages i n)
  counted = rw items (page_count-pages u i n pn bn bi)

  -- With fewer than 2^53 items and a page size from 1 to below 2^53, on a page that is not
  -- negative, `SetItemsTotal` stores the number of items and the fewest pages that hold them,
  -- whenever it succeeds.
  pub set_items_total-Counts :
      (set_items_total u p (pos i)).1 ≡ none → Counts (set_items_total u p (pos i)).0 i n
  unfolding set_items_total
  set_items_total-Counts h = record {
    count = pages i n;
    pages_set = ground (arith, counted);
    items_set = ground (arith, counted);
    least = λ j. pages-le_iff i n j pn;
  }

  counted_above : (set_items_total u p (pos i)).1 ≢ none → (1 < a) × (pages i n < a)
  unfolding set_items_total
  counted_above h = ground (arith, counted)

  -- With fewer than 2^53 items and a page size from 1 to below 2^53, on a page that is not
  -- negative, `SetItemsTotal` fails exactly on a page after the first that would begin at the end
  -- of the items or later, and it succeeds or changes nothing.
  pub set_items_total-fails_iff :
      (((set_items_total u p (pos i)).1 ≢ none) ↔ ((1 < a) × (i ≤ (a - 1) * n)))
      × (((set_items_total u p (pos i)).1 ≡ none) ⊎ ((set_items_total u p (pos i)).0 ≡ p))
  unfolding set_items_total
  set_items_total-fails_iff = (
    (
      λ h.
          let (after, above) = counted_above h in
          (
            after,
            omega (arith, (ceil_bounds i n pn).0, mul_mono (pages i n) (a - 1) n (omega arith)),
          ),
      λ h. let few = pages-least i n (a - 1) pn h.1 in ground (arith, counted),
    ),
    ground (arith, counted),
  )

-- Without overflow a page begins after the items of the pages before it.
pub offset_nat :
    (p : Paginator) (a n : ℕ)
    → p.page_number ≡ pos (suc a)
    → p.items_per_page ≡ pos n
    → a < two63
    → a * n < two63
    → offset p ≡ pos (a * n)
unfolding offset
offset_nat p a n page items small bound =
    let down = wrap_of_IsInt64 (pos a) (small, omega arith) in
    let product = wrap_of_IsInt64 (pos (a * n)) (bound, omega arith) in
    rw (page, items, pos_pred, down, pos_mul, product) (ground arith)

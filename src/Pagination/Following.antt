-- ===== src/Pagination/Following.antt =====
-- pagination/paginator.go: a page is asked for with `Init` and `SetItemsTotal` from another page,
-- to which `Links` gives the links of pagination/json.go. `Crawl` follows them through all pages.
pub mod Links
pub mod Crawl
use golang_service.Prelude.{
  ℕ, zero, suc, ◌-◌, ◌*◌, ◌^◌, ◌≤◌, ◌<◌, ◌≡◌, refl, sym, ap, subst, ◌∙◌, ◌≢◌, ◌⊎◌, inl, inr, Option,
  some, none, arith, Bool-cases, ltb,
}
use golang_service.Prelude.Arith.{mul_mono, lt_of_not_le}
use golang_service.Prelude.Int.{ℤ, pos, pos_pred, pos_suc, ◌<ℤ◌, ◌≤ℤ◌}
use golang_service.Go.Int64.{add_int, sub_int, wrap, wrap_of_IsInt64}
use golang_service.Go.Float64.{Float64}
use golang_service.Pagination.{Paginator, init, set_items_total}
use golang_service.Pagination.Pages.{Counts, set_items_total-Counts, set_items_total-fails_iff}

-- the pages of the links that are given where the number of pages is known
pub data Linked (q : Paginator) (m : ℤ) : Type 0 where
  first_page : m ≡ pos 1 → Linked q m
  last_page : q.pages_total ≡ some m → Linked q m
  next_page :
      (t : ℤ)
      → q.pages_total ≡ some t
      → q.page_number <ℤ t
      → m ≡ add_int q.page_number (pos 1)
      → Linked q m
  previous_page : pos 1 <ℤ q.page_number → m ≡ sub_int q.page_number (pos 1) → Linked q m

pred_int : (a : ℕ) → 1 < a → a < 2 ^ 53 → sub_int (pos a) (pos 1) ≡ pos (a - 1)
pred_int zero lt bound = absurd (omega arith)
pred_int (suc a) lt bound =
    ap wrap (pos_pred a) ∙ wrap_of_IsInt64 (pos a) (omega arith, omega arith) ∙ ap pos (omega arith)

suc_int : (a : ℕ) → a < 2 ^ 53 → add_int (pos a) (pos 1) ≡ pos (suc a)
suc_int a bound = ap wrap (pos_suc a) ∙ wrap_of_IsInt64 (pos (suc a)) (omega arith, omega arith)

none_or_some : {A : Type 0} (o : Option A) → (o ≡ none) ⊎ (o ≢ none)
none_or_some none = inl refl
none_or_some (some x) = inr (λ e. cc)

-- a page is asked for, and the number of items is set
abbrev pub Visited : (Float64 → ℤ) → Paginator → ℤ → ℤ → ℤ → ℤ → Type 0
Visited u z m per limit total =
    let (p, failure) = init z m per limit in
    (failure ≡ none) × ((set_items_total u p total).1 ≡ none)

module _ (u : Float64 → ℤ) (z : Paginator) (n i : ℕ) (limit : ℤ) (pn : 0 < n) (bn : n < 2 ^ 53)
    (bi : i < 2 ^ 53) (within : pos n ≤ℤ limit) where
  init_ok : (b : ℕ) → (init z (pos b) (pos n) limit).1 ≡ none
  unfolding init
  init_ok b = ground arith

  items_stored : (b : ℕ) → (init z (pos b) (pos n) limit).0.items_per_page ≡ pos n
  unfolding init
  items_stored b = ground arith

  page_stored :
      (b : ℕ)
      → (c : ℕ) × ((init z (pos b) (pos n) limit).0.page_number ≡ pos c) × ((c ≤ 1) ⊎ (c ≡ b))
  unfolding init
  page_stored zero = (1, ground arith, inl (omega arith))
  page_stored (suc b) = (suc b, ground arith, inr refl)

  not_beyond :
      (b c : ℕ) → (c ≤ 1) ⊎ (c ≡ b) → (b ≤ 1) ⊎ ((b - 1) * n < i) → 1 < c → ¬ (i ≤ (c - 1) * n)
  not_beyond b c (inl few) small after beyond = omega arith
  not_beyond b c (inr same) (inl few) after beyond = omega arith
  not_beyond b c (inr same) (inr shown) after beyond = omega (arith, ap (λ x. (x - 1) * n) same)

  Visited-pos : (b : ℕ) → ((b ≤ 1) ⊎ ((b - 1) * n < i)) → Visited u z (pos b) (pos n) limit (pos i)
  Visited-pos b small =
      let p = (init z (pos b) (pos n) limit).0 in
      let (c, page, is) = page_stored b in
      (
        init_ok b,
        elim (none_or_some (set_items_total u p (pos i)).1) [
          | inl e ↦ e
          | inr ne ↦
              let (after, beyond) =
                (set_items_total-fails_iff u p c n i page (items_stored b) pn bn bi).0.0 ne in
              absurd (not_beyond b c is small after beyond)
        ],
      )

module _ (u : Float64 → ℤ) (p z : Paginator) (a n i : ℕ) (limit : ℤ) (page : p.page_number ≡ pos a)
    (items : p.items_per_page ≡ pos n) (pn : 0 < n) (bn : n < 2 ^ 53) (bi : i < 2 ^ 53)
    (within : pos n ≤ℤ limit) (accepted : (set_items_total u p (pos i)).1 ≡ none) where
  abbrev pub q : Paginator
  q = (set_items_total u p (pos i)).0

  page_kept : q.page_number ≡ pos a
  unfolding set_items_total
  page_kept = ground arith

  shown : (a ≤ 1) ⊎ ((a - 1) * n < i)
  shown = elim (Bool-cases (ltb 1 a)) [
    | inr e ↦ inl (ground arith)
    | inl e ↦ elim (Bool-cases (ltb ((a - 1) * n) i)) [
      | inl f ↦ inr (ground arith)
      | inr f ↦ absurd (
          (set_items_total-fails_iff u p a n i page items pn bn bi).0.1 (ground arith, ground arith)
            accepted)
    ]
  ]

  pub counts : Counts q i n
  counts = set_items_total-Counts u p a n i page items pn bn bi accepted

  -- Before the last page there is an item left.
  left_before : (b : ℕ) → b < counts.count → b * n < i
  left_before b lt = lt_of_not_le i (b * n) (λ over. omega (arith, (counts.least b).0 over))

  total-count : (m : ℤ) → q.pages_total ≡ some m → m ≡ pos counts.count
  total-count m e = cc (e, counts.pages_set)

  Linked-small : (m : ℤ) → Linked q m → (b : ℕ) × (m ≡ pos b) × ((b ≤ 1) ⊎ ((b - 1) * n < i))
  Linked-small m (first_page e) = (1, e, inl (omega arith))
  Linked-small m (last_page e) = elim (Bool-cases (ltb 1 counts.count)) [
    | inl many ↦
        (counts.count, total-count m e, inr (left_before (counts.count - 1) (ground arith)))
    | inr few ↦ (counts.count, total-count m e, inl (ground arith))
  ]
  Linked-small m (next_page t e lt f) =
      let before : a < counts.count =
        omega
          (arith, subst (λ k. pos a <ℤ k) (total-count t e) (subst (λ k. k <ℤ t) page_kept lt)) in
      let left = left_before a before in
      let bound : a < 2 ^ 53 = omega (arith, mul_mono 1 n a pn) in
      (suc a, f ∙ rw page_kept (suc_int a bound), inr (subst (λ k. k * n < i) (omega arith) left))
  Linked-small m (previous_page lt f) =
      let after : 1 < a = omega (arith, subst (λ k. pos 1 <ℤ k) page_kept lt) in
      let left : (a - 1) * n < i = elim shown [ inl few ↦ absurd (omega arith) | inr h ↦ h ] in
      let bound : a < 2 ^ 53 = omega (arith, mul_mono 1 n (a - 1) pn) in
      (
        a - 1,
        f ∙ rw page_kept (pred_int a after bound),
        inr (omega (arith, mul_mono (a - 1 - 1) (a - 1) n (omega arith))),
      )

  -- The pages linked to are accepted.
  pub Linked-Visited : (m : ℤ) → Linked q m → Visited u z m (pos n) limit (pos i)
  Linked-Visited m link =
      let (b, e, small) = Linked-small m link in
      subst (λ k. Visited u z k (pos n) limit (pos i)) (sym e)
        (Visited-pos u z n i limit pn bn bi within b small)

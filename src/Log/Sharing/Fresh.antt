-- ===== src/Log/Sharing/Fresh.antt =====
-- log/context.go: which map each operation makes, and that it leaves the others as they are.
use golang_service.Prelude.{
  ℕ, zero, suc, ◌≤◌, ◌<◌, ◌≡◌, ◌≢◌, refl, ap, subst, ◌∙◌, String, [], ◌∷◌, ◌++◌, Option, none, some,
  length, length-append, arith,
}
use golang_service.Http.{Fields, Any}
use golang_service.Log.Entry.{copy_fields}
use golang_service.Log.Sharing.{
  Maps, map_at, put, allocate, fields_at, with_at, ctx_at, append_context_at, context_map,
}

map_at_old : (ms ns : Maps) (p : ℕ) → p < length ms → map_at (ms ++ ns) p ≡ map_at ms p
unfolding map_at
map_at_old [] ns p h = absurd (omega arith)
map_at_old (m ∷ ms) ns zero h = refl
map_at_old (m ∷ ms) ns (suc p) h = map_at_old ms ns p (omega arith)

map_at_new : (ms : Maps) (m : Fields) → map_at (ms ++ m ∷ []) (length ms) ≡ m
unfolding map_at
map_at_new [] m = refl
map_at_new (n ∷ ms) m = map_at_new ms m

pub map_at-put :
    (ms : Maps) (p q : ℕ) (k : String) (v : Any) → p ≢ q → map_at (put p k v ms) q ≡ map_at ms q
unfolding map_at put
map_at-put [] p q k v n = refl
map_at-put (m ∷ ms) zero zero k v n = absurd (n refl)
map_at-put (m ∷ ms) zero (suc q) k v n = refl
map_at-put (m ∷ ms) (suc p) zero k v n = refl
map_at-put (m ∷ ms) (suc p) (suc q) k v n = map_at-put ms p q k v (λ e. n (ap suc e))

-- A new map with given contents was made, and the maps of before are as they were.
pub record Makes (ms : Maps) (m : Fields) (r : ℕ × Maps) : Type 0 where
  pub fresh : length ms ≤ r.0
  pub inside : r.0 < length r.1
  pub contents : map_at r.1 r.0 ≡ m
  pub kept : (p : ℕ) → p < length ms → map_at r.1 p ≡ map_at ms p

allocate-Makes : (m : Fields) (ms : Maps) → Makes ms m (allocate m ms)
allocate-Makes m ms = record {
  fresh = omega arith;
  inside = omega (arith, length-append ms (m ∷ []));
  contents = map_at_new ms m;
  kept = λ p h. map_at_old ms (m ∷ []) p h;
}

-- one map after another
Makes-trans :
    {ms : Maps} {m n : Fields} {r t : ℕ × Maps} → Makes ms m r → Makes r.1 n t → Makes ms n t
Makes-trans a b = record {
  fresh = omega (arith, a.fresh, a.inside, b.fresh);
  inside = b.inside;
  contents = b.contents;
  kept = λ p h. b.kept p (omega (arith, a.fresh, a.inside)) ∙ a.kept p h;
}

Makes-as : {ms : Maps} {m n : Fields} {r : ℕ × Maps} → m ≡ n → Makes ms m r → Makes ms n r
Makes-as {ms} {r = r} e a = subst (λ x. Makes ms x r) e a

pub fields_at-Makes : (c : ℕ) (ms : Maps) → Makes ms (copy_fields (map_at ms c)) (fields_at c ms)
unfolding fields_at
fields_at-Makes c ms = allocate-Makes (copy_fields (map_at ms c)) ms

module _ (merge : Fields → Fields → Fields) where
  pub with_at-Makes :
      (c p : ℕ) (ms : Maps)
      → c < length ms
      → Makes ms (merge (map_at ms c) (copy_fields (map_at ms p))) (with_at merge c p ms)
  unfolding with_at
  with_at-Makes c p ms h =
      let m = copy_fields (map_at ms p) in
      let first = allocate-Makes m ms in
      let ms' = ms ++ m ∷ [] in
      Makes-trans first (
        Makes-as
          (ap (λ x. merge x (map_at ms' (length ms))) (first.kept c h)
            ∙ ap (merge (map_at ms c)) first.contents)
          (allocate-Makes (merge (map_at ms' c) (map_at ms' (length ms))) ms'))

  ctx_at-Makes :
      (c : ℕ) (ctx : Option ℕ) (ms : Maps)
      → c < length ms
      → Makes ms (merge (map_at ms c) (copy_fields (context_map ms ctx))) (ctx_at merge c ctx ms)
  unfolding ctx_at
  ctx_at-Makes c (some p) ms h = with_at-Makes c p ms h
  ctx_at-Makes c none ms h =
      let first = allocate-Makes [] ms in
      let ms' : Maps = ms ++ [] ∷ [] in
      Makes-trans first (
        Makes-as
          (ap (λ x. merge x (copy_fields (map_at ms' (length ms)))) (first.kept c h)
            ∙ ap (λ x. merge (map_at ms c) (copy_fields x)) first.contents)
          (with_at-Makes c (length ms) ms' (omega (arith, first.fresh, first.inside))))

  pub append_context_at-Makes :
      (c : ℕ) (ctx : Option ℕ) (p : ℕ) (ms : Maps)
      → c < length ms
      → p < length ms
      → Makes ms
          (copy_fields (
            merge
              (merge (map_at ms c) (copy_fields (context_map ms ctx)))
              (copy_fields (map_at ms p))))
          (append_context_at merge c ctx p ms)
  unfolding append_context_at
  append_context_at-Makes c ctx p ms hc hp =
      let one = ctx_at-Makes c ctx ms hc in
      let (d, ms1) = ctx_at merge c ctx ms in
      let two = with_at-Makes d p ms1 one.inside in
      let (e, ms2) = with_at merge d p ms1 in
      let same : merge (map_at ms1 d) (copy_fields (map_at ms1 p)) ≡ _ =
        ap (λ x. merge x (copy_fields (map_at ms1 p))) one.contents
        ∙ ap (λ x. merge (merge (map_at ms c) (copy_fields (context_map ms ctx))) (copy_fields x))
            (one.kept p hp) in
      Makes-trans one
        (Makes-trans two (Makes-as (ap copy_fields (two.contents ∙ same)) (fields_at-Makes e ms2)))

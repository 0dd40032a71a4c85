-- ===== src/Logging/Concurrent/Ownership.antt =====
-- handlers/request_logger.go: the loggers of requests that are served beside each other stand
-- apart.
use golang_service.Prelude.{
  ℕ, ◌≡◌, ◌≢◌, refl, sym, ap, subst, ◌∙◌, ◌<◌, ◌==◌, Bool-cases, inl, inr, List, [], ◌∷◌, length,
  All, arith,
}
use golang_service.Prelude.Family.{update, update_self, update_other}
use golang_service.Http.{External, external, World, Counter}
use golang_service.Logging.Calls.{counter_at, make_logger, wrap_writer}
use golang_service.Logging.Wrapping.{Call, perform, run}
use golang_service.Logging.Counts.{Steps, count, perform-sent}
use golang_service.Logging.Counts.Performed.{wrapped-Steps}
use golang_service.Logging.Trace.{counts}
use golang_service.Logging.Concurrent.{
  Running, Server, Event, begins, calls, view, happen, serve, calls_of,
}
use golang_service.Logging.Concurrent.Places.{make_logger-Makes}
use golang_service.Logging.Concurrent.Frame.{Avoids, Below, Below-Avoids, Below-le, perform-Keeps}

-- Every logger that a request has stands in the store.
abbrev pub Placed : Server → Type 0
Placed s = (j : ℕ) → Below (length s.world.counters) (s.request j).writer

update_all :
    (P : ℕ → Running → Type 0) (fam : ℕ → Running) (i : ℕ) (r : Running)
    → P i r
    → ((j : ℕ) → i ≢ j → P j (fam j))
    → (j : ℕ) → P j (update fam i r j)
update_all P fam i r here there j = elim (Bool-cases (i == j)) [
  | inl e ↦
      let same : i ≡ j = ground arith in
      subst (λ k. P k (update fam i r k)) same (rw (update_self fam i r) here)
  | inr e ↦ let n : i ≢ j = ground arith in rw (update_other fam i j r n) (there j n)
]

happen-Placed : (ev : Event) (s : Server) → Placed s → Placed (happen ev s)
unfolding happen
happen-Placed (begins i e) s h =
    let t = record s.world { sent = [] } in
    let made = make_logger-Makes e t in
    let (w, t') = make_logger (external e) t in
    update_all (λ k r. Below (length t'.counters) r.writer) s.request i
      (record { writer = w; sent = t'.sent }) made.below
      (λ j n.
        Below-le (length t.counters) (length t'.counters) (s.request j).writer made.grows (h j))
happen-Placed (calls i c) s h =
    let w = (s.request i).writer in
    let q = length s.world.counters in
    let same = (perform-Keeps q w c (view s i) (Below-Avoids q w (h i))).places in
    let t' = perform w c (view s i) in
    update_all (λ k r. Below (length t'.counters) r.writer) s.request i
      (record { writer = w; sent = t'.sent }) (rw same (h i)) (λ j n. rw same (h j))

pub serve-Placed : (evs : List Event) (s : Server) → Placed s → Placed (serve evs s)
unfolding serve
serve-Placed [] s h = h
serve-Placed (ev ∷ evs) s h = serve-Placed evs (happen ev s) (happen-Placed ev s h)

-- Request `i` has its logger at `p`, and no other request has one there; it was asked what `t` was
-- asked, and has counted `c`.
pub record Owns (i p : ℕ) (e : External) (t : World) (c : Counter) (s : Server) : Type 0 where
  pub mine : (s.request i).writer ≡ wrap_writer p (external e)
  pub inside : p < length s.world.counters
  pub value : counter_at s.world.counters p ≡ c
  pub asked : (s.request i).sent ≡ t.sent
  pub others : (j : ℕ) → i ≢ j → Avoids p (s.request j).writer

module _ (i p : ℕ) (e : External) (t : World) (c : Counter) (s : Server)
    (h : Owns i p e t c s) where
  mine_next :
      (x : Call) → Owns i p e (perform (external e) x t) (count e t.sent x c) (happen (calls i x) s)
  unfolding happen
  mine_next x =
      let w = (s.request i).writer in
      let t' = perform w x (view s i) in
      let r : Running = record { writer = w; sent = t'.sent } in
      let self = update_self s.request i r in
      let step =
        subst (λ w. Steps p e x (view s i) (perform w x (view s i))) (sym h.mine)
          (wrapped-Steps p e (view s i) h.inside x) in
      record {
        mine = ap (λ (r : Running). r.writer) self ∙ h.mine;
        inside = rw step.places h.inside;
        value = step.counted ∙ rw (h.asked, h.value) refl;
        asked =
            ap (λ (r : Running). r.sent) self ∙ step.passed ∙ perform-sent e x (view s i) t h.asked;
        others = λ j n. rw (update_other s.request i j r n) (h.others j n);
      }

  -- Another request gets a new state, and the counter is as it was.
  aside :
      (j : ℕ) (r : Running) (t' : World)
      → i ≢ j
      → counter_at t'.counters p ≡ counter_at s.world.counters p
      → p < length t'.counters
      → Avoids p r.writer
      → Owns i p e t c (record { world = t'; request = update s.request j r })
  aside j r t' n kept inside avoids =
      let same = update_other s.request j i r (λ q. n (sym q)) in
      record {
        mine = ap (λ (r : Running). r.writer) same ∙ h.mine;
        inside = inside;
        value = kept ∙ h.value;
        asked = ap (λ (r : Running). r.sent) same ∙ h.asked;
        others =
            update_all (λ k r. i ≢ k → Avoids p r.writer) s.request j r (λ m. avoids)
              (λ k m. h.others k);
      }

  other_next : (j : ℕ) (x : Call) → i ≢ j → Owns i p e t c (happen (calls j x) s)
  unfolding happen
  other_next j x n =
      let w = (s.request j).writer in
      let t' = perform w x (view s j) in
      let r : Running = record { writer = w; sent = t'.sent } in
      let keeps = perform-Keeps p w x (view s j) (h.others j n) in
      aside j r t' n keeps.kept (rw keeps.places h.inside) (h.others j n)

  begin_next : (j : ℕ) (e' : External) → i ≢ j → Owns i p e t c (happen (begins j e') s)
  unfolding happen
  begin_next j e' n =
      let (w, t') = make_logger (external e') (record s.world { sent = [] }) in
      let made = make_logger-Makes e' (record s.world { sent = [] }) in
      aside j (record { writer = w; sent = t'.sent }) t' n (made.older p h.inside)
        (omega (arith, h.inside, made.grows)) (made.apart p h.inside)

-- no new request under the number of this one
abbrev pub NotBegins : ℕ → Event → Type 0
NotBegins i (begins j e) = i ≢ j
NotBegins i (calls j c) = Unit

pub serve-Owns :
    (i p : ℕ) (e : External) (evs : List Event) (t : World) (c : Counter) (s : Server)
    → All (NotBegins i) evs
    → Owns i p e t c s
    → Owns i p e (run (external e) (calls_of i evs) t) (counts e t (calls_of i evs) c) (serve evs s)
unfolding serve calls_of run counts
serve-Owns i p e [] t c s no_more h = h
serve-Owns i p e (begins j e' ∷ evs) t c s (n, rest) h =
    serve-Owns i p e evs t c (happen (begins j e') s) rest (begin_next i p e t c s h j e' n)
serve-Owns i p e (calls j x ∷ evs) t c s (n, rest) h = elim (Bool-cases (j == i)) [
  | inl own ↦
      let same : j ≡ i = ground arith in
      rw own (
        serve-Owns i p e evs (perform (external e) x t) (count e t.sent x c) (happen (calls j x) s)
          rest
          (subst
            (λ k. Owns i p e (perform (external e) x t) (count e t.sent x c) (happen (calls k x) s))
            (sym same) (mine_next i p e t c s h x)))
  | inr other ↦
      let n : i ≢ j = ground arith in
      rw other
        (serve-Owns i p e evs t c (happen (calls j x) s) rest (other_next i p e t c s h j x n))
]

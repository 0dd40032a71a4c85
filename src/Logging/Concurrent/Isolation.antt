-- ===== src/Logging/Concurrent/Isolation.antt =====
-- handlers/request_logger.go: what is counted for one request while others are served beside it.
use golang_service.Prelude.{
  ℕ, ◌≡◌, refl, sym, ap, ◌∙◌, List, [], ◌∷◌, ◌++◌, none, length, length-append, All, arith,
}
use golang_service.Prelude.Family.{update_self, update_other}
use golang_service.Http.{External, external, World, Counter}
use golang_service.Logging.Calls.{make_logger, wrap_writer, status_of, size_of}
use golang_service.Logging.Wrapping.{counter_at-append, status_of-wrap_writer, run}
use golang_service.Logging.Report
use golang_service.Logging.Report.{unused, make_logger_new, run_logger}
use golang_service.Logging.Concurrent.{Running, Server, Event, begins, happen, serve, calls_of}
use golang_service.Logging.Concurrent.Frame.{Below-Avoids}
use golang_service.Logging.Concurrent.Ownership.{Placed, Owns, NotBegins, serve-Placed, serve-Owns}

-- a server before its first request; `quiet` stands for the writer of a request that has not come
abbrev pub idle : External → World → Server
idle quiet t = record { world = t; request = λ i. record { writer = external quiet; sent = [] } }

serve-append :
    (evs later : List Event) (s : Server) → serve (evs ++ later) s ≡ serve later (serve evs s)
unfolding serve
serve-append [] later s = refl
serve-append (ev ∷ evs) later s = serve-append evs later (happen ev s)

begins-Owns :
    (i : ℕ) (e : External) (t : World) (s : Server)
    → e.logging ≡ none
    → Placed s
    → t.sent ≡ []
    → Owns i (length s.world.counters) e t unused (happen (begins i e) s)
unfolding happen
begins-Owns i e t s other placed fresh =
    let base = record s.world { sent = [] } in
    let p = length s.world.counters in
    let r : Running = record { writer = wrap_writer p (external e); sent = [] } in
    let self = update_self s.request i r in
    rw (make_logger_new e base other) (record {
      mine = ap (λ (r : Running). r.writer) self;
      inside = omega (arith, length-append s.world.counters (unused ∷ []));
      value = counter_at-append s.world.counters unused;
      asked = ap (λ (r : Running). r.sent) self ∙ sym fresh;
      others = λ j n.
          rw (update_other s.request i j r n) (Below-Avoids p (s.request j).writer (placed j));
    })

-- Whatever other requests come in and whatever their handlers call, in any order, the status and
-- the size that are counted for a request, and what its server's writer was asked to do, are those
-- of its own calls on a server without other requests. The server's writer is one that does not
-- count by itself, and the request's number is not given to another one later.
pub serve_isolated :
    (quiet e : External) (t0 : World) (before after : List Event) (i : ℕ)
    → e.logging ≡ none
    → All (NotBegins i) after
    → let s = serve (before ++ begins i e ∷ after) (idle quiet t0) in
      let (l, w) = make_logger (external e) (record t0 { sent = [] }) in
      let alone = run l (calls_of i after) w in
      (status_of (s.request i).writer s.world ≡ status_of l alone)
      × (size_of (s.request i).writer s.world ≡ size_of l alone)
      × ((s.request i).sent ≡ alone.sent)
unfolding serve
serve_isolated quiet e t0 before after i other no_more =
    let t = record t0 { sent = [] } in
    let s1 = serve before (idle quiet t0) in
    let p = length s1.world.counters in
    let begun = begins-Owns i e t s1 other (serve-Placed before (idle quiet t0) (λ j. tt)) refl in
    let owned = serve-Owns i p e after t unused (happen (begins i e) s1) no_more begun in
    let s = serve after (happen (begins i e) s1) in
    let (counted, sent) = run_logger e t (calls_of i after) in
    let here = status_of-wrap_writer p e s.world in
    let there = status_of-wrap_writer (length t.counters) e (Report.after e t (calls_of i after)) in
    rw (serve-append before (begins i e ∷ after) (idle quiet t0), make_logger_new e t other)
      (
        ap (λ w. status_of w s.world) owned.mine
            ∙ here.0
            ∙ ap (λ (c : Counter). c.status) (owned.value ∙ sym counted)
            ∙ sym there.0,
        ap (λ w. size_of w s.world) owned.mine
            ∙ here.1
            ∙ ap (λ (c : Counter). c.size) (owned.value ∙ sym counted)
            ∙ sym there.1,
        owned.asked ∙ sym sent,
      )

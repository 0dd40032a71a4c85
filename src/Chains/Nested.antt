-- ===== src/Chains/Nested.antt =====
-- Logging middlewares (handlers/request_logger.go, `LogServeHTTP`) in each other.
use golang_service.Prelude.{ℕ, true, ◌≡◌, refl, ap, ◌∙◌, ◌-◌, ◌≤◌, ◌<◌, List, arith}
use golang_service.Prelude.Int.{ℤ, ◌≤ℤ◌}
use golang_service.Go.Int64.{two63, two64}
use golang_service.Http.{
  external, response_logger, hijack_logger, close_notify_writer, hijack_close_notifier, Output,
  World, Writer, Request, Handler, Outcome, done,
}
use golang_service.Logging.Calls.{make_logger, is_logging, status_of, size_of}
use golang_service.Logging.Wrapping.{make_logger-keeps}
use golang_service.Logging.Serve.{
  Caller, log_serve_http, elapsed, elapsed_lem, log_serve_http_done, make_logger-urls,
}

-- a writer that counts already is left alone, in any state
make_logger_counting : (l : Writer) (s : World) → is_logging l ≡ true → make_logger l s ≡ (l, s)
unfolding make_logger
make_logger_counting l s counts = rw counts refl

-- Counts do not depend on the clocks, nor on what has left the process otherwise.
counts-later :
    (l : Writer) (s : World) (out : List Output) (wall : ℤ) (ticks : ℕ)
    → let later = record s { output = out; wall = wall; ticks = ticks } in
      (status_of l later ≡ status_of l s) × (size_of l later ≡ size_of l s)
unfolding status_of size_of
counts-later (external e) s out wall ticks = (refl, refl)
counts-later (response_logger p w) s out wall ticks = (refl, refl)
counts-later (hijack_logger p w) s out wall ticks = (refl, refl)
counts-later (close_notify_writer l c) s out wall ticks = counts-later l s out wall ticks
counts-later (hijack_close_notifier l h c) s out wall ticks = counts-later l s out wall ticks

-- one logging middleware in another, which reads the clocks some time after the outer one
abbrev pub nested : Handler → Caller → ℤ → ℕ → Handler
nested h inner wall ticks w req s =
    log_serve_http w req h inner (record s { wall = wall; ticks = ticks })

elapsed_within :
    (now ticks ticks' now' : ℕ)
    → ticks ≤ ticks'
    → ticks' ≤ now
    → now ≤ now'
    → now' < two64
    → now' - ticks < two63
    → elapsed now ticks' ≤ℤ elapsed now' ticks
elapsed_within now ticks ticks' now' a b c small bound =
    rw
      (
        elapsed_lem now ticks' b (omega arith) (omega arith),
        elapsed_lem now' ticks (omega arith) small bound,
      )
      (omega arith)

module _ (w : Writer) (req : Request) (h : Handler) (inner outer : Caller) (s t : World) (wall' : ℤ)
    (ticks' : ℕ) where
  abbrev l : Writer
  l = (make_logger w s).0

  abbrev start : World
  start = record (make_logger w s).1 { wall = wall'; ticks = ticks' }

  -- what the inner one reports
  abbrev reported : Outcome (Unit {0}) × World
  reported =
      inner l req (s.urls req.url) wall' (elapsed t.ticks ticks') (status_of l t) (size_of l t) t

  inner_done :
      h l req start ≡ (done tt, t)
      → nested h inner wall' ticks' l req (make_logger w s).1 ≡ reported
  inner_done ran =
      let same = make_logger_counting l start (make_logger-keeps w s).0 in
      log_serve_http_done l req h inner start t
        (ap (λ (m : Writer × World). h m.0 req m.1) same ∙ ran)
      ∙ ap
          (λ (m : Writer × World).
            inner m.0 req (start.urls req.url) wall' (elapsed t.ticks ticks') (status_of m.0 t)
              (size_of m.0 t) t)
          same
      ∙ rw (make_logger-urls w s) refl

  module _ (out : List Output) (wall2 : ℤ) (ticks2 : ℕ) where
    abbrev after : World
    after = record t { output = out; wall = wall2; ticks = ticks2 }

    -- Two logging middlewares, one in the other, report the same URL, status and size of a request
    -- whose handler returns, each with the time at which it has begun itself, and the duration of
    -- the inner one is at most that of the outer one. The clocks go on between the readings of the
    -- two, while the handler runs and while the inner one reports. The monotonic clock does not go
    -- back, the request takes less than 2^63 ns, and the inner one only writes to the outside, as
    -- those for statsd and healthd do.
    pub nested_agree :
        h l req start ≡ (done tt, t)
        → reported ≡ (done tt, after)
        → s.ticks ≤ ticks'
        → ticks' ≤ t.ticks
        → t.ticks ≤ ticks2
        → ticks2 < two64
        → ticks2 - s.ticks < two63
        → (nested h inner wall' ticks' l req (make_logger w s).1
            ≡ inner l req
                (s.urls req.url)
                wall'
                (elapsed t.ticks ticks')
                (status_of l t)
                (size_of l t)
                t)
          × (log_serve_http w req (nested h inner wall' ticks') outer s
              ≡ outer l req
                  (s.urls req.url)
                  s.wall
                  (elapsed ticks2 s.ticks)
                  (status_of l t)
                  (size_of l t)
                  after)
          × (elapsed t.ticks ticks' ≤ℤ elapsed ticks2 s.ticks)
    nested_agree ran wrote a b c small bound =
        let (status, size) = counts-later l t out wall2 ticks2 in
        (
          inner_done ran,
          log_serve_http_done w req (nested h inner wall' ticks') outer s after
                (inner_done ran ∙ wrote)
              ∙ rw (status, size) refl,
          elapsed_within t.ticks s.ticks ticks' ticks2 a b c small bound,
        )

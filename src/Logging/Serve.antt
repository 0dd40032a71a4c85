-- ===== src/Logging/Serve.antt =====
-- handlers/request_logger.go, `LogServeHTTP`: run a handler on a counting writer, then report.
use golang_service.Prelude.{ℕ, ◌≡◌, ap, ◌∙◌, ◌+◌, ◌-◌, ◌%◌, ◌≤◌, ◌<◌, Option, arith}
use golang_service.Prelude.Int.{ℤ, pos}
use golang_service.Go.Int64.{wrap, wrap_of_IsInt64, two63, two64}
use golang_service.Http.{
  Writer, World, Request, Url, Handler, Effect, done, panicked, Panicked, continue,
}
use golang_service.Logging.Calls.{make_logger, status_of, size_of}

-- the `caller` argument: writer, request, URL, time, duration, status, size
abbrev pub Caller : Type 0
Caller = Writer → Request → Url → ℤ → ℤ → ℤ → ℤ → Effect

-- `time.Duration(monotime.Now() - mt)`, on `uint64`s
unfoldable pub elapsed : ℕ → ℕ → ℤ
elapsed now mt = wrap (pos ((now + two64 - mt) % two64))

-- what `LogServeHTTP` does once the handler has returned
unfoldable pub report : Caller → Writer → Request → Url → ℤ → ℕ → Effect
report caller logger req url t mt s =
    caller logger req url t (elapsed s.ticks mt) (status_of logger s) (size_of logger s) s

-- `LogServeHTTP`: the clocks are read and the URL is copied before the handler runs. Time that
-- passes between two of these readings is counted to the handler or to what runs before it. A panic
-- of the handler leaves it at once, since nothing is deferred.
unfoldable pub log_serve_http : Writer → Request → Handler → Caller → Effect
unfolding report
log_serve_http w req handler caller s =
    let (logger, s') = make_logger w s in
    let url = s'.urls req.url in
    continue (handler logger req s') (λ _. report caller logger req url s.wall s.ticks)

pub elapsed_lem :
    (now mt : ℕ) → mt ≤ now → now < two64 → now - mt < two63 → elapsed now mt ≡ pos (now - mt)
unfolding elapsed
elapsed_lem now mt le small bound =
    let exact : (now + two64 - mt) % two64 ≡ now - mt = omega arith in
    rw exact (wrap_of_IsInt64 (pos (now - mt)) (bound, omega arith))

pub make_logger-urls : (w : Writer) (s : World) → (make_logger w s).1.urls ≡ s.urls
unfolding make_logger
make_logger-urls w s = ground arith

module _ (w : Writer) (req : Request) (handler : Handler) (caller : Caller) (s : World) where
  abbrev finish : Unit {0} → Effect
  finish _ = report caller (make_logger w s).0 req ((make_logger w s).1.urls req.url) s.wall s.ticks

  -- handlers that do the same in the logger's first state are reported in the same way
  pub log_serve_http_cong :
      (other : Handler)
      → handler (make_logger w s).0 req (make_logger w s).1
        ≡ other (make_logger w s).0 req (make_logger w s).1
      → log_serve_http w req handler caller s ≡ log_serve_http w req other caller s
  unfolding log_serve_http
  log_serve_http_cong other e = ap (λ r. continue r finish) e

  -- If the handler panics, so does `LogServeHTTP`, in the state that the handler left: nothing is
  -- reported.
  pub log_serve_http_panicked :
      (t : World) (v : Option Panicked)
      → handler (make_logger w s).0 req (make_logger w s).1 ≡ (panicked v, t)
      → log_serve_http w req handler caller s ≡ (panicked v, t)
  unfolding log_serve_http
  log_serve_http_panicked t v e = ap (λ r. continue r finish) e

  -- If the handler returns, `LogServeHTTP` calls its caller once, with the time and the URL of
  -- before the handler ran, whatever the handler has done to the URL, and with the counts of after.
  pub log_serve_http_done :
      (t : World)
      → handler (make_logger w s).0 req (make_logger w s).1 ≡ (done tt, t)
      → let l = (make_logger w s).0 in
        log_serve_http w req handler caller s
        ≡ caller l req
            (s.urls req.url)
            s.wall
            (elapsed t.ticks s.ticks)
            (status_of l t)
            (size_of l t)
            t
  unfolding log_serve_http report
  log_serve_http_done t e =
      ap (λ r. continue r finish) e
      ∙ ap
          (λ (urls : ℕ → Url).
            caller (make_logger w s).0 req (urls req.url) s.wall (elapsed t.ticks s.ticks)
              (status_of (make_logger w s).0 t) (size_of (make_logger w s).0 t) t)
          (make_logger-urls w s)

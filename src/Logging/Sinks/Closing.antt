-- ===== src/Logging/Sinks/Closing.antt =====
-- handlers/healthd.go: the log files that a sequence of requests leaves open.
use golang_service.Prelude.{
  ℕ, ◌+◌, ◌≡◌, refl, sym, subst, Bool, false, Bool-cases, inl, inr, List, [], ◌∷◌, ◌++◌, String,
  arith, if◌then◌else◌, Option-cases,
}
use golang_service.Prelude.Text.{str_eq}
use golang_service.Errors.{◌<>◌}
use golang_service.Http.{
  World, Writer, Request, Handler, Outcome, done, panicked, Output, line, opened, closed,
}
use golang_service.Logging.Calls.{make_logger, status_of, size_of}
use golang_service.Logging.Serve.{
  log_serve_http, elapsed, log_serve_http_done, log_serve_http_panicked,
}
use golang_service.Logging.Requests.{Net}
use golang_service.Logging.Sinks.Healthd.{
  Files, file_serve_http, healthd_io_handler, write_healthd_log, close_after, file_serve_http_opens,
  file_serve_http_fails, made,
}

abbrev is_opened : String → Output → Bool
is_opened name (opened file) = str_eq file name
is_opened name other = false

abbrev is_closed : String → Output → Bool
is_closed name (closed file) = str_eq file name
is_closed name other = false

unfoldable pub tally : (Output → Bool) → List Output → ℕ
tally p [] = 0
tally p (o ∷ os) = let rest = tally p os in if p o then rest + 1 else rest

tally-append :
    (p : Output → Bool) (xs ys : List Output) → tally p (xs ++ ys) ≡ tally p xs + tally p ys
unfolding tally
tally-append p [] ys = omega arith
tally-append p (x ∷ xs) ys = elim (Bool-cases (p x)) [
  | inl one ↦ rw one (omega (arith, tally-append p xs ys))
  | inr other ↦ rw other (tally-append p xs ys)
]

-- From the one state to the other a file was closed as often as it was opened.
abbrev pub Balanced : World → World → Type 0
Balanced s t =
    (name : String)
    → tally (is_opened name) t.output + tally (is_closed name) s.output
      ≡ tally (is_closed name) t.output + tally (is_opened name) s.output

Balanced-trans : (s t u : World) → Balanced s t → Balanced t u → Balanced s u
Balanced-trans s t u first second name = omega (arith, first name, second name)

output-Balanced : (s t : World) → t.output ≡ s.output → Balanced s t
output-Balanced s t e name = rw e (omega arith)

-- Requests one after another to a handler of `HealthdHandler`; each may end in a panic.
unfoldable pub serve_all : Net → Files → Handler → List (Writer × Request) → World → World
unfolding file_serve_http
serve_all net f h [] s = s
serve_all net f h ((w, req) ∷ more) s =
    serve_all net f h more (file_serve_http net f (made net f h) w req s).1

module _ (net : Net) (f : Files) (h : Handler)
    (clean : (w : Writer) (req : Request) (s : World) → Balanced s (h w req s).1) where
  logger-Balanced : (w : Writer) (s : World) → Balanced s (make_logger w s).1
  unfolding make_logger
  logger-Balanced w s = output-Balanced s (make_logger w s).1 (ground arith)

  line-Balanced :
      (file text : String) (s : World)
      → Balanced s (record s { output = s.output ++ line file text ∷ [] })
  unfolding tally
  line-Balanced file text s name = omega (
    arith,
    tally-append (is_opened name) s.output (line file text ∷ []),
    tally-append (is_closed name) s.output (line file text ∷ []),
  )

  handler-Balanced :
      (file : String) (w : Writer) (req : Request) (s : World)
      → Balanced s (healthd_io_handler net f file h w req s).1
  unfolding healthd_io_handler write_healthd_log
  handler-Balanced file w req s = by_outcome (h l.0 req l.1).0 (h l.0 req l.1).1 refl
    where
      l : Writer × World
      l = make_logger w s

      begun : Balanced s (h l.0 req l.1).1
      begun = Balanced-trans s l.1 (h l.0 req l.1).1 (logger-Balanced w s) (clean l.0 req l.1)

      by_outcome :
          (o : Outcome (Unit {0})) (t : World)
          → h (make_logger w s).0 req (make_logger w s).1 ≡ (o, t)
          → Balanced s (log_serve_http w req h (write_healthd_log net f file) s).1
      by_outcome (done u) t e =
          let before : Balanced s t =
            subst (λ (r : Outcome (Unit {0}) × World). Balanced s r.1) e begun in
          subst (λ (r : Outcome (Unit {0}) × World). Balanced s r.1)
            (sym (log_serve_http_done w req h (write_healthd_log net f file) s t e))
            (Balanced-trans s t
              (write_healthd_log net f file l.0 req (s.urls req.url) s.wall
                (elapsed t.ticks s.ticks) (status_of l.0 t) (size_of l.0 t) t).1
              before (line-Balanced file _ t))
      by_outcome (panicked v) t e =
          let before : Balanced s t =
            subst (λ (r : Outcome (Unit {0}) × World). Balanced s r.1) e begun in
          subst (λ (r : Outcome (Unit {0}) × World). Balanced s r.1)
            (sym (log_serve_http_panicked w req h (write_healthd_log net f file) s t v e)) before

  opened-Balanced :
      (file : String) (s t : World)
      → Balanced (record s { output = s.output ++ opened file ∷ [] }) t
      → Balanced s (record t { output = t.output ++ closed file ∷ [] })
  unfolding tally
  opened-Balanced file s t h name =
      let one_opened = tally-append (is_opened name) s.output (opened file ∷ []) in
      let none_closed = tally-append (is_closed name) s.output (opened file ∷ []) in
      let none_opened = tally-append (is_opened name) t.output (closed file ∷ []) in
      let one_closed = tally-append (is_closed name) t.output (closed file ∷ []) in
      omega (arith, one_opened, none_closed, none_opened, one_closed, h name)

  request-Balanced :
      (w : Writer) (req : Request) (s : World)
      → Balanced s (file_serve_http net f (made net f h) w req s).1
  unfolding close_after
  request-Balanced w req s =
      let file = "/var/log/nginx/healthd/" <> "application.log." <> f.hour s.wall in
      let with = record s { output = s.output ++ opened file ∷ [] } in
      elim (Option-cases (f.open_error file)) [
        | inl can ↦
            subst (λ (r : Outcome (Unit {0}) × World). Balanced s r.1)
              (sym (file_serve_http_opens net f h w req s s can))
              (opened-Balanced file s (healthd_io_handler net f file h w req with).1
                (handler-Balanced file w req with))
        | inr (err, cannot) ↦
            subst (λ (r : Outcome (Unit {0}) × World). Balanced s r.1)
              (sym (file_serve_http_fails net f h w req s s err cannot)) (output-Balanced s s refl)
      ]

  -- After any number of requests one after another, `HealthdHandler` has closed each log file as
  -- often as it has opened it: none is left open by a handler that returns, by one that panics, or
  -- by a file that cannot be opened. This supposes that the handler leaves no file open itself.
  pub serve_all-Balanced :
      (requests : List (Writer × Request)) (s : World) → Balanced s (serve_all net f h requests s)
  unfolding serve_all
  serve_all-Balanced [] s = output-Balanced s s refl
  serve_all-Balanced ((w, req) ∷ more) s =
      let next = (file_serve_http net f (made net f h) w req s).1 in
      Balanced-trans s next (serve_all net f h more next) (request-Balanced w req s)
        (serve_all-Balanced more next)

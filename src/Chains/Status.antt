-- ===== src/Chains/Status.antt =====
-- handlers/request_logger.go, `LogServeHTTP` round a handler that ends with `WriteHeader`: the
-- status that is reported. Failure handlers that write the status that they are given are such.
use golang_service.Prelude.{◌≡◌, ◌≢◌, refl, sym, ap, ◌∙◌, List, [], ◌∷◌, ◌++◌, none}
use golang_service.Prelude.Int.{ℤ, pos}
use golang_service.Http.{
  World, Writer, external, External, Request, Handler, FailureHandler, done, Outcome,
}
use golang_service.Logging.Calls.{make_logger, status_of, size_of, write_header}
use golang_service.Logging.Wrapping.{Call, header_call, perform, run}
use golang_service.Logging.Report.{status_of-make_logger_last}
use golang_service.Logging.Serve.{Caller, log_serve_http, elapsed, log_serve_http_done}

-- a failure handler that writes the status that it is given
abbrev pub write_status : FailureHandler
write_status w req err status s = (done tt, write_header w status s)

pub run-append :
    (w : Writer) (cs ds : List Call) (s : World) → run w (cs ++ ds) s ≡ run w ds (run w cs s)
unfolding run
run-append w [] ds s = refl
run-append w (c ∷ cs) ds s = run-append w cs ds (perform w c s)

-- the logger that is put round a server's writer, and the state in which its handler starts
module _ (e : External) (s : World) where
  abbrev pub logger : Writer
  logger = (make_logger (external e) s).0

  abbrev pub begun : World
  begun = (make_logger (external e) s).1

  -- what is done with the counts in the state `t`
  abbrev pub report : Caller → Request → ℤ → World → Outcome (Unit {0}) × World
  report caller req code t =
      caller logger req (s.urls req.url) s.wall (elapsed t.ticks s.ticks) code (size_of logger t) t

  -- the state after some calls and a last `WriteHeader`
  abbrev pub headed : List Call → ℤ → World
  headed cs code = write_header logger code (run logger cs begun)

  status_of-headed :
      (cs : List Call) (code : ℤ)
      → e.logging ≡ none
      → code ≢ pos 0
      → status_of logger (headed cs code) ≡ code
  unfolding run perform
  status_of-headed cs code other n =
      ap (status_of logger) (sym (run-append logger cs (header_call code ∷ []) begun))
      ∙ status_of-make_logger_last e s other cs [] code tt n

  pub log_serve_http-headed :
      (h : Handler) (caller : Caller) (req : Request) (cs : List Call) (code : ℤ)
      → e.logging ≡ none
      → code ≢ pos 0
      → h logger req begun ≡ (done tt, headed cs code)
      → log_serve_http (external e) req h caller s ≡ report caller req code (headed cs code)
  log_serve_http-headed h caller req cs code other n ran =
      log_serve_http_done (external e) req h caller s (headed cs code) ran
      ∙ ap (λ c. report caller req c (headed cs code)) (status_of-headed cs code other n)

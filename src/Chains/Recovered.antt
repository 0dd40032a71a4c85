-- ===== src/Chains/Recovered.antt =====
-- A logging middleware (handlers/request_logger.go) round the recovery middleware
-- (handlers/recovery/middleware.go): what is reported of a request whose handler panics.
use golang_service.Prelude.{◌≡◌, ap, ◌∙◌, String, List, [], ◌∷◌, none, some}
use golang_service.Prelude.Int.{pos}
use golang_service.Errors.{Error}
use golang_service.Http.{World, external, External, Request, Handler, panicked, Panicked}
use golang_service.Logging.Wrapping.{Call, run}
use golang_service.Logging.Serve.{Caller, log_serve_http}
use golang_service.Chains.Status.{
  write_status, logger, begun, report, headed, log_serve_http-headed,
}
use golang_service.Recovery.Middleware.{error_of, handle_all, handle_error, recovered, serve_http}

module _ (e : External) (s : World) (cs : List Call) (text : String) (next : Handler)
    (caller : Caller) (req : Request) where
  -- If a handler panics with an error or a text, whatever it has called on its writer before, and
  -- the failure handler writes the status that it is given, then the request is reported with
  -- status 500. The server's writer is one that does not count by itself.
  pub panic-status_of :
      (v : Panicked) (err : Error)
      → e.logging ≡ none
      → error_of text v ≡ some err
      → next (logger e s) req (begun e s) ≡ (panicked (some v), run (logger e s) cs (begun e s))
      → log_serve_http (external e) req (serve_http text (write_status ∷ []) next) caller s
        ≡ report e s caller req (pos 500) (headed e s cs (pos 500))
  unfolding serve_http recovered handle_error handle_all
  panic-status_of v err other known crash =
      let rs = List.◌∷◌ write_status [] in
      log_serve_http-headed e s (serve_http text rs next) caller req cs (pos 500) other (cc) (
        ap (recovered text rs (logger e s) req) crash
        ∙ ap (λ o. handle_error rs (logger e s) req o (run (logger e s) cs (begun e s))) known)

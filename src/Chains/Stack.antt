-- ===== src/Chains/Stack.antt =====
-- A logging middleware (handlers/request_logger.go) round the recovery middleware
-- (handlers/recovery) round the authentication of handlers/auth round a handler.
mod Tests
use golang_service.Prelude.{
  ◌≡◌, refl, sym, ap, ◌∙◌, inl, inr, Option-cases, String, List, [], ◌∷◌, Option, none, some,
}
use golang_service.Prelude.Int.{pos}
use golang_service.Errors.{Error}
use golang_service.Http.{
  Any, World, external, External, Request, Handler, FailureHandler, Outcome, done, panicked,
  Panicked, bad_assertion,
}
use golang_service.Logging.Calls.{status_of}
use golang_service.Logging.Wrapping.{Call, run}
use golang_service.Logging.Serve.{
  Caller, log_serve_http, log_serve_http_done, log_serve_http_panicked,
}
use golang_service.Auth.User.{save_user}
use golang_service.Recovery.Middleware.{
  error_of, handle_all, handle_error, recovered, serve_http, new,
}
use golang_service.Chains.Recovered.{panic-status_of}
use golang_service.Chains.Refused.{Accepted, guarded, ends}
use golang_service.Chains.Status.{
  write_status, logger, begun, report, headed, log_serve_http-headed,
}

-- how a handler ended on the writer and the request that it was given
abbrev pub Result : Type 0
Result = Outcome (Unit {0}) × World

module _ (e : External) (s : World) (provider : String) (users : Any → Option Any × Option Error)
    (text : String) (h : Handler) (caller : Caller) (req : Request) where
  -- the handler, with the user of the key in its request
  abbrev pub inner_result : Option Any → Result
  inner_result user = h (logger e s) (save_user req user) (begun e s)

  -- What is reported of a request: it is refused, or its handler returns, panics with nil, panics
  -- with an error or a text, or panics with anything else.
  pub data Reported (r : Result) : Type 0 where
    refused :
        ((user : Option Any) → ¬ Accepted provider users req user)
        → r ≡ report e s caller req (pos 401) (headed e s [] (pos 401))
        → Reported r
    returned :
        (user : Option Any) (t : World)
        → Accepted provider users req user
        → inner_result user ≡ (done tt, t)
        → r ≡ report e s caller req (status_of (logger e s) t) t
        → Reported r
    stopped :
        (user : Option Any) (t : World)
        → Accepted provider users req user
        → inner_result user ≡ (panicked none, t)
        → r ≡ report e s caller req (status_of (logger e s) t) t
        → Reported r
    failed :
        (user : Option Any) (v : Panicked) (err : Error) (cs : List Call)
        → Accepted provider users req user
        → inner_result user ≡ (panicked (some v), run (logger e s) cs (begun e s))
        → error_of text v ≡ some err
        → r ≡ report e s caller req (pos 500) (headed e s cs (pos 500))
        → Reported r
    lost :
        (user : Option Any) (v : Panicked) (t : World)
        → Accepted provider users req user
        → inner_result user ≡ (panicked (some v), t)
        → error_of text v ≡ none
        → r ≡ (panicked (some bad_assertion), t)
        → Reported r

  abbrev rs : List FailureHandler
  rs = write_status ∷ []

  abbrev recovering : Handler
  recovering = new text rs (guarded provider users h)

  abbrev pub stack : Result
  stack = log_serve_http (external e) req recovering caller s

  module _ (other : e.logging ≡ none)
      (acts : (user : Option Any)
        → (cs : List Call) × ((inner_result user).1 ≡ run (logger e s) cs (begun e s))) where
    let_in :
        (user : Option Any)
        → Accepted provider users req user
        → guarded provider users h (logger e s) req (begun e s) ≡ inner_result user
        → (o : Outcome (Unit {0})) (t : World) → inner_result user ≡ (o, t)
        → Reported stack
    unfolding new serve_http recovered handle_error handle_all
    let_in user a ran (done u) t q = returned user t a q (
        log_serve_http_done (external e) req recovering caller s t
          (ap (recovered text rs (logger e s) req) (ran ∙ q)))
    let_in user a ran (panicked none) t q = stopped user t a q (
        log_serve_http_done (external e) req recovering caller s t
          (ap (recovered text rs (logger e s) req) (ran ∙ q)))
    let_in user a ran (panicked (some v)) t q =
        let (cs, calls) = acts user in
        let ended : inner_result user ≡ (panicked (some v), run (logger e s) cs (begun e s)) =
          q ∙ ap (λ t'. (panicked (some v), t')) (ap (λ (r : Result). r.1) (sym q) ∙ calls) in
        elim (Option-cases (error_of text v)) [
          | inl unknown ↦ lost user v t a q unknown (
              log_serve_http_panicked (external e) req recovering caller s t (some bad_assertion) (
                ap (recovered text rs (logger e s) req) (ran ∙ q)
                ∙ ap (λ o. handle_error rs (logger e s) req o t) unknown))
          | inr (err, known) ↦ failed user v err cs a ended known (
              panic-status_of e s cs text (guarded provider users h) caller req v err other known
                (ran ∙ ended))
        ]

    -- What is reported of any request to a handler that does nothing but call the methods of its
    -- writer, behind a logging middleware, the recovery and the authentication by keys. Without
    -- credentials whose key the finder has, that is status 401, the handler not having run.
    -- Otherwise it is what the handler's own calls have counted, with the user in its request,
    -- where it returns or panics with nil, and status 500 where it panics with an error or a text.
    -- Of any other panic nothing is reported: the failed assertion of the recovery goes on. This
    -- supposes that the finder only looks the key up, that the failure handlers write the status
    -- that they are given, and that the server's writer does not count by itself.
    pub stack-Reported : Reported stack
    unfolding new serve_http recovered
    stack-Reported = elim (ends e s provider users h caller req) [
      | inl (user, a, ran) ↦ let_in user a ran (inner_result user).0 (inner_result user).1 refl
      | inr (refusal, ran) ↦ refused refusal (
          log_serve_http-headed e s recovering caller req [] (pos 401) other (cc)
            (ap (recovered text rs (logger e s) req) ran))
    ]

-- ===== src/Chains/Refused.antt =====
-- A logging middleware (handlers/request_logger.go) round the authentication of handlers/auth: what
-- is reported of a request that is not let through.
use golang_service.Prelude.{
  ◌≡◌, refl, subst, ap, ◌∙◌, ◌⊎◌, inl, inr, String, List, [], ◌∷◌, Option, none,
}
use golang_service.Prelude.Int.{pos}
use golang_service.Errors.{Error}
use golang_service.Http.{
  Any, text, header_values, World, external, External, Request, Handler, done,
}
use golang_service.Logging.Calls.{write_header}
use golang_service.Logging.Wrapping.{run}
use golang_service.Logging.Serve.{Caller, log_serve_http, log_serve_http_cong}
use golang_service.Auth.User.{save_user}
use golang_service.Auth.Keys.{Finder, new_api_key, api_key_handler}
use golang_service.Auth.Spec.{
  Credential, Runs, crashed, refused, admitted, malformed, other_provider,
}
use golang_service.Auth.Laws.{split-Credential, api_key_handler-Runs}
use golang_service.Chains.Status.{
  write_status, logger, begun, report, headed, log_serve_http-headed,
}

-- a finder that only looks the key up
abbrev pub looking : (Any → Option Any × Option Error) → Finder
looking users key req s = (done (users key), s)

-- The first header is `<provider> <apiKey>`, and the finder has the user of that key.
pub record Accepted (provider : String) (users : Any → Option Any × Option Error) (req : Request)
    (user : Option Any) : Type 0 where
  pub first : String
  pub more : List String
  pub key : String
  pub header : header_values req.header "Authorization" ≡ first ∷ more
  pub credential : Credential first provider key
  pub found : users (text key) ≡ (user, none)

-- the provider and the key of a header are unique
Credential-unique :
    (first p q k m : String) → Credential first p k → Credential first q m → (p ≡ q) × (k ≡ m)
Credential-unique first p q k m c d =
    let e = (split-Credential first p k).1 c in
    let f = (split-Credential first q m).1 d in (cc (e, f), cc (e, f))

Credential-here :
    {provider : String} {users : Any → Option Any × Option Error} {req : Request}
    {user : Option Any} {first : String} {more : List String}
    → header_values req.header "Authorization" ≡ first ∷ more
    → (a : Accepted provider users req user) → Credential first provider a.key
Credential-here {provider} q a =
    subst (λ f. Credential f provider a.key) (cc (q, a.header)) a.credential

-- `NewAPIKey` with such a finder, round a handler
abbrev pub guarded : String → (Any → Option Any × Option Error) → Handler → Handler
guarded provider users h = api_key_handler (new_api_key provider (looking users) write_status) h

module _ (e : External) (s : World) (provider : String) (users : Any → Option Any × Option Error)
    (h : Handler) (caller : Caller) (req : Request) where
  answer :
      Runs
        (new_api_key provider (looking users) write_status)
        h
        (logger e s)
        req
        (begun e s)
        (guarded provider users h (logger e s) req (begun e s))
  answer = (api_key_handler-Runs _ h (logger e s) req (begun e s) _).1 refl

  -- how the middleware ends
  abbrev pub Ends : Type 0
  Ends =
      ((user : Option Any) × Accepted provider users req user
        × (guarded provider users h (logger e s) req (begun e s)
            ≡ h (logger e s) (save_user req user) (begun e s)))
      ⊎ (((user : Option Any) → ¬ Accepted provider users req user)
          × (guarded provider users h (logger e s) req (begun e s)
              ≡ (done tt, headed e s [] (pos 401))))

  Runs-Ends :
      Runs
        (new_api_key provider (looking users) write_status)
        h
        (logger e s)
        req
        (begun e s)
        (guarded provider users h (logger e s) req (begun e s))
      → Ends
  unfolding new_api_key run
  Runs-Ends (Runs.missing q r) = inr (λ user a. cc (q, a.header), r)
  Runs-Ends (malformed first more q bad r) =
      inr (λ user a. bad provider a.key (Credential-here q a), r)
  Runs-Ends (other_provider first more p k q c n r) =
      inr (λ user a. n ((Credential-unique first p provider k a.key c (Credential-here q a)).0), r)
  Runs-Ends (Runs.asked first more k q c (crashed v s' f r)) = absurd (cc f)
  Runs-Ends (Runs.asked first more k q c (refused user err s' f r)) = inr (
    λ user' a.
        let same = (Credential-unique first provider provider k a.key c (Credential-here q a)).1 in
        cc (ap (λ m. users (text m)) same, a.found, f),
    r ∙ ap (λ t. (done tt, write_header (logger e s) (pos 401) t)) (cc f),
  )
  Runs-Ends (Runs.asked first more k q c (admitted user s' f r)) = inl (
    user,
    record { first = first; more = more; key = k; header = q; credential = c; found = cc f },
    r ∙ ap (h (logger e s) (save_user req user)) (cc f),
  )

  pub ends : Ends
  ends = Runs-Ends answer

  -- A request is let through exactly with a header `<provider> <apiKey>` whose key the finder has.
  -- It is then reported as the handler alone would be that gets the key's user in its request. Any
  -- other is reported with status 401, the handler not having run. This supposes that the finder
  -- only looks the key up, that the failure handler writes the status that it is given, and that
  -- the server's writer does not count by itself.
  pub Accepted-or_401 :
      e.logging ≡ none
      → ((user : Option Any) × Accepted provider users req user
          × (log_serve_http (external e) req (guarded provider users h) caller s
              ≡ log_serve_http (external e) req (λ w r. h w (save_user r user)) caller s))
        ⊎ (((user : Option Any) → ¬ Accepted provider users req user)
            × (log_serve_http (external e) req (guarded provider users h) caller s
                ≡ report e s caller req (pos 401) (headed e s [] (pos 401))))
  Accepted-or_401 other = elim ends [
    | inl (user, a, ran) ↦ inl (
      user,
      a,
      log_serve_http_cong (external e) req (guarded provider users h) caller s
          (λ w r. h w (save_user r user)) ran,
    )
    | inr (refusal, ran) ↦ inr (
      refusal,
      log_serve_http-headed e s (guarded provider users h) caller req [] (pos 401) other (cc) ran,
    )
  ]

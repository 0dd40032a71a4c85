-- ===== src/Recovery/Laws.antt =====
-- handlers/recovery/middleware.go: what the middleware does round any handler.
use golang_service.Prelude.{
  ◌≡◌, refl, ap, ◌∙◌, ◌⊎◌, inl, inr, List, [], ◌∷◌, ◌++◌, Option, none, some, String, All,
}
use golang_service.Prelude.Int.{ℤ, pos}
use golang_service.Errors.{Error, foreign}
use golang_service.Http.{
  Any, World, Writer, Request, Handler, FailureHandler, Effect, Outcome, done, panicked, Panicked,
  with_other, with_error, with_text, bad_assertion, continue, >>=-done,
}
use golang_service.Recovery.Middleware.{
  status_internal_server_error, error_of, handle_all, handle_error, recovered, serve_http,
}

-- The handler returns, whatever it is given.
abbrev pub Returns : FailureHandler → Type 0
Returns r =
    (w : Writer) (req : Request) (err : Error) (status : ℤ) (s : World)
    → (t : World) × (r w req err status s ≡ (done tt, t))

-- It asks the server's response writer for nothing.
abbrev pub IsSilent : FailureHandler → Type 0
IsSilent r =
    (w : Writer) (req : Request) (err : Error) (status : ℤ) (s : World)
    → (r w req err status s).1.sent ≡ s.sent

continue-sent :
    (m : Outcome (Unit {0}) × World) (k : Effect)
    → ((t : World) → (k t).1.sent ≡ t.sent)
    → (continue m (λ _. k)).1.sent ≡ m.1.sent
continue-sent (done u, t) k h = h t
continue-sent (panicked v, t) k h = refl

handle_all-Returns :
    (rs : List FailureHandler) (w : Writer) (req : Request) (err : Error)
    → All Returns rs
    → (s : World) → (t : World) × (handle_all rs w req err s ≡ (done tt, t))
unfolding handle_all
handle_all-Returns [] w req err h s = (s, refl)
handle_all-Returns (r ∷ rs) w req err (h, k) s =
    let (s', e) = h w req err status_internal_server_error s in
    let (t, f) = handle_all-Returns rs w req err k s' in
    (t, >>=-done (r w req err status_internal_server_error) (λ _. handle_all rs w req err) s e ∙ f)

handle_all-IsSilent :
    (rs : List FailureHandler) (w : Writer) (req : Request) (err : Error)
    → All IsSilent rs
    → (s : World) → (handle_all rs w req err s).1.sent ≡ s.sent
unfolding handle_all
handle_all-IsSilent [] w req err h s = refl
handle_all-IsSilent (r ∷ rs) w req err (h, k) s =
    continue-sent (r w req err status_internal_server_error s) (handle_all rs w req err)
      (handle_all-IsSilent rs w req err k)
    ∙ h w req err status_internal_server_error s

continue_assoc :
    (m : Outcome (Unit {0}) × World) (both first second : Effect)
    → ((t : World) → both t ≡ continue (first t) (λ _. second))
    → continue m (λ _. both) ≡ continue (continue m (λ _. first)) (λ _. second)
continue_assoc (done u, t) both first second h = h t
continue_assoc (panicked v, t) both first second h = refl

-- Handlers in two groups run one group after the other.
handle_all-append :
    (rs qs : List FailureHandler) (w : Writer) (req : Request) (err : Error) (s : World)
    → handle_all (rs ++ qs) w req err s
      ≡ continue (handle_all rs w req err s) (λ _. handle_all qs w req err)
unfolding handle_all
handle_all-append [] qs w req err s = refl
handle_all-append (r ∷ rs) qs w req err s =
    continue_assoc (r w req err status_internal_server_error s) (handle_all (rs ++ qs) w req err)
      (handle_all rs w req err) (handle_all qs w req err) (handle_all-append rs qs w req err)

handle_error-sent :
    (rs : List FailureHandler) (w : Writer) (req : Request) (e : Option Error) (t : World)
    → All IsSilent rs
    → (handle_error rs w req e t).1.sent ≡ t.sent
unfolding handle_error
handle_error-sent rs w req (some err) t h = handle_all-IsSilent rs w req err h t
handle_error-sent rs w req none t h = refl

module _ (text : String) (rs : List FailureHandler) (next : Handler) (w : Writer)
    (req : Request) where
  module _ (s : World) where
    -- No panic leaves the middleware, if its failure handlers return, except that of the assertion
    -- that a panic's argument that is no error is a text.
    pub serve_http_total :
        All Returns rs
        → ((t : World) × (serve_http text rs next w req s ≡ (done tt, t)))
          ⊎ ((v : Any) × (t : World) × (next w req s ≡ (panicked (some (with_other v)), t))
              × (serve_http text rs next w req s ≡ (panicked (some bad_assertion), t)))
    unfolding serve_http recovered handle_error error_of
    serve_http_total h = recovered_total (next w req s) refl
      where
        recovered_total :
            (m : Outcome (Unit {0}) × World)
            → next w req s ≡ m
            → ((t : World) × (recovered text rs w req m ≡ (done tt, t)))
              ⊎ ((v : Any) × (t : World) × (next w req s ≡ (panicked (some (with_other v)), t))
                  × (recovered text rs w req m ≡ (panicked (some bad_assertion), t)))
        recovered_total (done u, t) e = inl (t, refl)
        recovered_total (panicked none, t) e = inl (t, refl)
        recovered_total (panicked (some (with_error err)), t) e =
            inl (handle_all-Returns rs w req err h t)
        recovered_total (panicked (some (with_text m)), t) e =
            inl (handle_all-Returns rs w req (foreign m) h t)
        recovered_total (panicked (some bad_assertion), t) e =
            inl (handle_all-Returns rs w req (foreign text) h t)
        recovered_total (panicked (some (with_other v)), t) e = inr (v, t, e, refl)

    -- What reached the response writer is what the handler itself sent, if the failure handlers
    -- send nothing: the middleware writes no header and no body of its own, neither
    -- after a panic nor otherwise.
    serve_http-sent :
        All IsSilent rs → (serve_http text rs next w req s).1.sent ≡ (next w req s).1.sent
    unfolding serve_http recovered
    serve_http-sent h = recovered-sent (next w req s)
      where
        recovered-sent :
            (m : Outcome (Unit {0}) × World) → (recovered text rs w req m).1.sent ≡ m.1.sent
        recovered-sent (done u, t) = refl
        recovered-sent (panicked none, t) = refl
        recovered-sent (panicked (some v), t) = handle_error-sent rs w req (error_of text v) t h

module _ (text : String) (rs qs : List FailureHandler) (r : FailureHandler) (next : Handler) where
  -- After a panic with an error or a text, the failure handlers run in their order with that error
  -- and status 500. The first that panics itself ends the middleware with its own panic: those
  -- after it are never called.
  serve_http_interrupted :
      (w : Writer) (req : Request) (s t t' u : World) (v : Panicked) (p : Option Panicked)
      (err : Error)
      → next w req s ≡ (panicked (some v), t)
      → error_of text v ≡ some err
      → handle_all rs w req err t ≡ (done tt, t')
      → r w req err (pos 500) t' ≡ (panicked p, u)
      → serve_http text (rs ++ r ∷ qs) next w req s ≡ (panicked p, u)
  unfolding serve_http recovered handle_error handle_all
  serve_http_interrupted w req s t t' u v p err e f g h =
      ap (recovered text (rs ++ r ∷ qs) w req) e
      ∙ ap (λ o. handle_error (rs ++ r ∷ qs) w req o t) f
      ∙ handle_all-append rs (r ∷ qs) w req err t
      ∙ ap (λ m. continue m (λ _. handle_all (r ∷ qs) w req err)) g
      ∙ ap (λ m. continue m (λ _. handle_all qs w req err)) h

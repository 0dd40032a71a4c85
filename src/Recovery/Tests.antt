-- ===== src/Recovery/Tests.antt =====
-- Runs of the middleware, and the theorems at concrete inputs.
use golang_service.Prelude.{◌≡◌, refl, ◌⊎◌, [], ◌∷◌, ◌++◌, some}
use golang_service.Http.{
  Any, World, Handler, FailureHandler, done, panicked, with_text, with_other, bad_assertion, line,
  emit,
}
use golang_service.Http.Fixtures.{rec, request, world}
use golang_service.Recovery.Middleware.{handle_all, serve_http}
use golang_service.Recovery.Laws.{serve_http_total}

abbrev boom : Handler
boom w req s = (panicked (some (with_text "oh-o")), s)

abbrev noted : FailureHandler
noted w req err status = emit (line "log" "noted")

caught :
    serve_http "" (noted ∷ noted ∷ []) boom rec (request []) world
    ≡ (done tt, record world { output = line "log" "noted" ∷ line "log" "noted" ∷ [] })
unfolding serve_http handle_all
caught = refl

serve_http_total_example :
    ((t : World) × (serve_http "" (noted ∷ []) boom rec (request []) world ≡ (done tt, t)))
    ⊎ ((v : Any) × (t : World) × (boom rec (request []) world ≡ (panicked (some (with_other v)), t))
        × (serve_http "" (noted ∷ []) boom rec (request []) world
            ≡ (panicked (some bad_assertion), t)))
serve_http_total_example =
    serve_http_total "" (noted ∷ []) boom rec (request []) world (
      (λ w req err status s. (record s { output = s.output ++ line "log" "noted" ∷ [] }, refl)),
      tt,
    )

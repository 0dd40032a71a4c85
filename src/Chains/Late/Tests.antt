-- ===== src/Chains/Late/Tests.antt =====
-- The theorem on panics at a handler that writes and then panics.
use golang_service.Prelude.{◌≡◌, refl, [], ◌∷◌}
use golang_service.Prelude.Int.{pos}
use golang_service.Errors.{foreign}
use golang_service.Http.{with_text}
use golang_service.Http.Fixtures.{recorder, rec, request, world}
use golang_service.Recovery.Middleware.{serve_http, error_of}
use golang_service.Logging.Serve.{log_serve_http}
use golang_service.Logging.Tests.{note, first_status, first_status-Responds}
use golang_service.Logging.Wrapping.{write_call}
use golang_service.Chains.Status.{report, headed, write_status}
use golang_service.Chains.Late.{Shown, late_panic}
use golang_service.Chains.Tests.{half}

late_panic_example :
    let t = headed recorder world (write_call "abc" ∷ []) (pos 500) in
    (log_serve_http rec (request []) (serve_http "" (write_status ∷ []) half) note world
      ≡ report recorder world note (request []) (pos 500) t)
    × Shown recorder (write_call "abc" ∷ []) (first_status t.sent)
unfolding error_of
late_panic_example =
    late_panic first_status first_status-Responds recorder world refl refl "" half note (request [])
      (with_text "oh-o") (foreign "oh-o") (write_call "abc" ∷ []) refl refl

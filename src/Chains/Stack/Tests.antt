-- ===== src/Chains/Stack/Tests.antt =====
-- Runs of the stack of middlewares, and its theorem at a handler that writes and then panics.
use golang_service.Prelude.{◌≡◌, refl, [], ◌∷◌}
use golang_service.Prelude.Int.{pos}
use golang_service.Http.{header_values}
use golang_service.Auth.Keys.{api_key_handler, new_api_key}
use golang_service.Recovery.Middleware.{new}
use golang_service.Logging.Serve.{log_serve_http}
use golang_service.Http.Fixtures.{recorder, world}
use golang_service.Logging.Tests.{note}
use golang_service.Logging.Wrapping.{write_call}
use golang_service.Chains.Status.{report, headed}
use golang_service.Chains.Stack.{Reported, stack, stack-Reported}
use golang_service.Chains.Tests.{half, users, with_key}

let_in :
    stack recorder world "graze" users "" half note (with_key "k1")
    ≡ report recorder world note
        (with_key "k1")
        (pos 500)
        (headed recorder world (write_call "abc" ∷ []) (pos 500))
unfolding log_serve_http new api_key_handler header_values new_api_key
let_in = refl

stack-Reported_example :
    Reported recorder world "graze" users "" half note
      (with_key "k1")
      (stack recorder world "graze" users "" half note (with_key "k1"))
stack-Reported_example =
    stack-Reported recorder world "graze" users "" half note (with_key "k1") refl
      (λ user. (write_call "abc" ∷ [], refl))

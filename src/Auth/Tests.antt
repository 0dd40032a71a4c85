-- ===== src/Auth/Tests.antt =====
-- Runs of the middlewares on the requests of handlers/auth/apikey_test.go and xapikey_test.go, and
-- the theorems at concrete inputs.
use golang_service.Prelude.{
  ◌≡◌, refl, ◌↔◌, String, Option, none, some, [], ◌∷◌, ◌++◌, if◌then◌else◌,
}
use golang_service.Prelude.Int.{ℤ, pos}
use golang_service.Prelude.Text.{str_eq}
use golang_service.Errors.{Error, foreign}
use golang_service.Http.{
  Any, text, object, header_values, Request, head, done, Effect, Handler, FailureHandler,
}
use golang_service.Http.Fixtures.{rec, request, world}
use golang_service.Auth.Keys.{Finder, ApiKey, XapiKey, api_key_handler, x_api_key_handler}
use golang_service.Auth.Spec.{Result, Runs, RunsX}
use golang_service.Auth.Laws.{api_key_handler-Runs}
use golang_service.Auth.Laws.Header.{x_api_key_handler-RunsX}

abbrev send : ℤ → Effect
send code s = (done tt, record s { sent = s.sent ++ head code ∷ [] })

abbrev answers : Any → Option Any × Option Error
answers (text key) =
    if str_eq key "abc" then (some (object 7), none) else (none, some (foreign "unknown"))
answers _ = (none, some (foreign "unknown"))

abbrev finder : Finder
finder creds req s = (done (answers creds), s)

abbrev on_error : FailureHandler
on_error w req err status = send status

abbrev page : Handler
page w req = send (pos 200)

abbrev graze : ApiKey
graze = record { provider = "Graze"; finder = finder; on_error = on_error }

abbrev plain : XapiKey
plain = record { finder = finder; on_error = on_error }

abbrev with_key_sent : String → Request
with_key_sent value = request (("Authorization", value ∷ []) ∷ [])

abbrev after : ℤ → Result
after code = (done tt, record world { sent = head code ∷ [] })

api_key_tests :
    (api_key_handler graze page rec (with_key_sent "Graze abc") world ≡ after (pos 200))
    × (api_key_handler graze page rec (with_key_sent "Graze abd") world ≡ after (pos 401))
    × (api_key_handler graze page rec (with_key_sent "Graze  abc") world ≡ after (pos 401))
    × (api_key_handler graze page rec (with_key_sent "Other abc") world ≡ after (pos 401))
    × (api_key_handler graze page rec (request []) world ≡ after (pos 401))
unfolding api_key_handler header_values
api_key_tests = (refl, refl, refl, refl, refl)

api_key_handler-Runs_example :
    Runs graze page rec (with_key_sent "Graze abc") world (after (pos 200))
    ↔ (after (pos 200) ≡ api_key_handler graze page rec (with_key_sent "Graze abc") world)
api_key_handler-Runs_example =
    api_key_handler-Runs graze page rec (with_key_sent "Graze abc") world (after (pos 200))

x_api_key_handler-RunsX_example :
    RunsX plain page rec (request (("X-Api-Key", "abc" ∷ []) ∷ [])) world (after (pos 200)) ↔ (
      after (pos 200)
      ≡ x_api_key_handler plain page rec (request (("X-Api-Key", "abc" ∷ []) ∷ [])) world)
x_api_key_handler-RunsX_example =
    x_api_key_handler-RunsX plain page rec (request (("X-Api-Key", "abc" ∷ []) ∷ [])) world
      (after (pos 200))

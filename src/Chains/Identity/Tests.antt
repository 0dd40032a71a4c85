-- ===== src/Chains/Identity/Tests.antt =====
-- The theorem on the two orders at a request of the one user.
use golang_service.Prelude.{◌≡◌, refl, [], some}
use golang_service.Http.{Request, Handler, text, header_values}
use golang_service.Http.Fixtures.{rec, world}
use golang_service.Go.Strings.{split}
use golang_service.Log.Tests.{logger, logger-Laws}
use golang_service.Logging.Tests.{net, page}
use golang_service.Logging.Sinks.Structured.{context_handler}
use golang_service.Auth.Keys.{api_key_handler, new_api_key}
use golang_service.Auth.Laws.{split-Credential}
use golang_service.Chains.Status.{write_status}
use golang_service.Chains.Refused.{looking, Accepted}
use golang_service.Chains.Tests.{users, with_key, texts}
use golang_service.Chains.Identity.{Identified, api_key_handler-context_handler}

ann-Accepted : Accepted "graze" users (with_key "k1") (some (text "ann"))
unfolding header_values split
ann-Accepted = record {
  first = "graze k1";
  more = [];
  key = "k1";
  header = refl;
  credential = (split-Credential "graze k1" "graze" "k1").0 refl;
  found = refl;
}

abbrev auth : Handler → Handler
auth = api_key_handler (new_api_key "graze" (looking users) write_status)

abbrev logging : Handler → Handler
logging = context_handler logger net texts [] (λ s. "id-1")

api_key_handler-context_handler_example :
    (outer : Request) × (inner : Request) × (auth (logging page) rec (with_key "k1") world
      ≡ page rec outer world)
    × (logging (auth page) rec (with_key "k1") world ≡ page rec inner world)
    × Identified logger net texts "transaction" []
        (λ s. "id-1")
        (with_key "k1")
        world
        (some (text "ann"))
        outer
    × Identified logger net texts "transaction" []
        (λ s. "id-1")
        (with_key "k1")
        world
        (some (text "ann"))
        inner
api_key_handler-context_handler_example =
    api_key_handler-context_handler logger logger-Laws net texts "transaction" [] (λ s. "id-1")
      (with_key "k1") world (some (text "ann")) "graze" users write_status ann-Accepted page rec

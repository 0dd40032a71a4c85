-- ===== src/Recovery/Sharing/Tests.antt =====
-- Two requests that panic at the same time and share the client of a raygun reporter.
use golang_service.Prelude.{◌≡◌, refl, ℕ, suc, zero, String, [], ◌∷◌, ◌++◌}
use golang_service.Errors.{foreign, error_message}
use golang_service.Http.{Request, Fields}
use golang_service.Http.Fixtures.{request}
use golang_service.Log.Tests.{logger}
use golang_service.Recovery.Sharing.{Keeper, KeeperLaws, Shared, started, Crash, turn, run, last_to}
use golang_service.Recovery.Sharing.Mixed.{shared_post}

-- a client that keeps the request and the fields
abbrev keeper : Keeper (Request × Fields) (String × Request × Fields)
keeper = record {
  set_request = λ r (old, fs). (r, fs);
  set_data = λ fs (r, old). (r, fs);
  post = λ m (r, fs). (m, r, fs);
  request_of = λ (m, r, fs). r;
  data_of = λ (m, r, fs). fs;
  message_of = λ (m, r, fs). m;
}

keeper-KeeperLaws : KeeperLaws keeper
keeper-KeeperLaws = record {
  request_set = λ m r c. refl;
  request_kept = λ m m' fs c. refl;
  data_set = λ m fs c. refl;
  data_kept = λ m m' r c. refl;
  message_sent = λ m c. refl;
}

abbrev one_request : Request
one_request = request (("Host", "one" ∷ []) ∷ [])

abbrev other_request : Request
other_request = request (("Host", "other" ∷ []) ∷ [])

abbrev crash : ℕ → Crash
crash zero = record { request = one_request; cause = foreign "first" }
crash (suc i) = record { request = other_request; cause = foreign "second" }

-- The first is about to post when the second has set its own request.
abbrev crossed : Shared (Request × Fields) (String × Request × Fields)
crossed = run logger [] keeper crash (0 ∷ 1 ∷ 0 ∷ []) (started (request [], []))

shared_post_example :
    (p : String × Request × Fields) × ((turn logger [] keeper crash 0 crossed).posted
      ≡ crossed.posted ++ (0, p) ∷ [])
    × (keeper.message_of p ≡ "first")
    × (keeper.request_of p ≡ other_request)
    × (keeper.data_of p ≡ logger.fields (logger.in_context [] one_request.context))
unfolding last_to error_message
shared_post_example =
    shared_post logger [] keeper crash keeper-KeeperLaws (request [], []) [] (1 ∷ []) [] 0 refl refl
      refl

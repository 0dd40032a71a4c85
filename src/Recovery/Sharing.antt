-- ===== src/Recovery/Sharing.antt =====
-- handlers/recovery/raygun.go: the one raygun client of a reporter, which all requests share. A
-- step is one of the three calls that `Handle` makes on it; requests that panic at the same time
-- take turns in any order. `Mixed` is about what is posted then.
pub mod Mixed
mod Tests
use golang_service.Prelude.{
  ℕ, suc, ◌+◌, ◌≡◌, refl, sym, String, List, [], ◌∷◌, ◌++◌, Option, none, some, get_elem?, ◌==◌,
  if◌then◌else◌,
}
use golang_service.Prelude.Family.{update}
use golang_service.Prelude.Int.{ℤ}
use golang_service.Errors.{Error, error_message}
use golang_service.Http.{
  Request, Writer, World, Fields, Effect, skip, ◌>>◌, continue, Outcome, done, panicked,
}
use golang_service.Log.Interface.{FieldLogger}
use golang_service.Recovery.Reports.{RaygunClient, report_crash}

pub data ClientCall : Type 0 where
  request_call : Request → ClientCall
  data_call : Fields → ClientCall
  error_call : String → ClientCall

-- `raygunRecoverer.Handle`, by the calls that it makes; `global` is the entry of the package log
unfoldable pub crash_calls : {L : Type 0} → FieldLogger L → L → Request → Error → List ClientCall
crash_calls f global r e =
    request_call r
    ∷ data_call (f.fields (f.in_context global r.context))
    ∷ error_call (error_message e)
    ∷ []

abbrev make_call : RaygunClient → ClientCall → Effect
make_call client (request_call r) = client.request r
make_call client (data_call fs) = client.custom_data fs
make_call client (error_call m) = client.create_error m

abbrev make_calls : RaygunClient → List ClientCall → Effect
make_calls client [] = skip
make_calls client (c ∷ cs) = make_call client c >> make_calls client cs

then_skip : (r : Outcome (Unit {0}) × World) → continue r (λ _. skip) ≡ r
then_skip (done u, s) = refl
then_skip (panicked v, s) = refl

continue-skip :
    (r : Outcome (Unit {0}) × World) (m : Effect)
    → continue r (λ _. m) ≡ continue r (λ _ t. continue (m t) (λ _. skip))
continue-skip (done u, s) m = sym (then_skip (m s))
continue-skip (panicked v, s) m = refl

continue_twice :
    (r : Outcome (Unit {0}) × World) (m n : Effect)
    → continue (continue r (λ _. m)) (λ _. n)
      ≡ continue r (λ _ t. continue (m t) (λ _ t'. continue (n t') (λ _. skip)))
continue_twice (done u, s) m n = continue-skip (m s) n
continue_twice (panicked v, s) m n = refl

-- `Handle` makes these calls one after the other.
report_crash-crash_calls :
    {L : Type 0} (f : FieldLogger L) (global : L) (client : RaygunClient) (w : Writer) (r : Request)
    (e : Error) (status : ℤ) (s : World)
    → report_crash f global client w r e status s ≡ make_calls client (crash_calls f global r e) s
unfolding report_crash crash_calls
report_crash-crash_calls f global client w r e status s =
    continue_twice (client.request r s)
      (client.custom_data (f.fields (f.in_context global r.context)))
      (client.create_error (error_message e))

-- what the client library keeps between its calls, and what it posts
pub record Keeper (C Post : Type 0) : Type 0 where
  pub set_request : Request → C → C
  pub set_data : Fields → C → C
  pub post : String → C → Post
  pub request_of : Post → Request
  pub data_of : Post → Fields
  pub message_of : Post → String

-- What raygun4go documents: `Request` and `CustomData` each set one option of what is posted from
-- then on, and `CreateError` posts the message with the options as they are.
pub record KeeperLaws {C Post : Type 0} (keeper : Keeper C Post) : Type 0 where
  pub request_set :
      (m : String) (r : Request) (c : C)
      → keeper.request_of (keeper.post m (keeper.set_request r c)) ≡ r
  pub request_kept :
      (m m' : String) (fs : Fields) (c : C)
      → keeper.request_of (keeper.post m (keeper.set_data fs c))
        ≡ keeper.request_of (keeper.post m' c)
  pub data_set :
      (m : String) (fs : Fields) (c : C)
      → keeper.data_of (keeper.post m (keeper.set_data fs c)) ≡ fs
  pub data_kept :
      (m m' : String) (r : Request) (c : C)
      → keeper.data_of (keeper.post m (keeper.set_request r c)) ≡ keeper.data_of (keeper.post m' c)
  pub message_sent : (m : String) (c : C) → keeper.message_of (keeper.post m c) ≡ m

-- A state of the reporter: the client, the turns that each request has taken in `Handle`, and what
-- was posted, by the request that did.
pub record Shared (C Post : Type 0) : Type 0 where
  pub client : C
  pub turns : ℕ → ℕ
  pub posted : List (ℕ × Post)

abbrev pub started : {C Post : Type 0} → C → Shared C Post
started c = record { client = c; turns = λ j. 0; posted = [] }

-- a request whose handler has panicked, and its error
pub record Crash : Type 0 where
  pub request : Request
  pub cause : Error

module _ {L C Post : Type 0} (f : FieldLogger L) (global : L) (keeper : Keeper C Post)
    (crash : ℕ → Crash) where
  abbrev pub apply_call : ℕ → Option ClientCall → Shared C Post → Shared C Post
  apply_call i none s = s
  apply_call i (some (request_call r)) s = record s { client = keeper.set_request r s.client }
  apply_call i (some (data_call fs)) s = record s { client = keeper.set_data fs s.client }
  apply_call i (some (error_call m)) s = record s {
    posted = s.posted ++ (i, keeper.post m s.client) ∷ [];
  }

  abbrev pub calls : ℕ → List ClientCall
  calls i = crash_calls f global (crash i).request (crash i).cause

  -- The next call of a request; there is none after the third.
  unfoldable pub turn : ℕ → Shared C Post → Shared C Post
  unfolding crash_calls
  turn i s =
      let s' = record s { turns = update s.turns i (suc (s.turns i)) } in
      apply_call i (get_elem? (calls i) (s.turns i)) s'

  unfoldable pub run : List ℕ → Shared C Post → Shared C Post
  unfolding turn
  run [] s = s
  run (i ∷ is) s = run is (turn i s)

-- how often a number is in a list
unfoldable pub turns_of : ℕ → List ℕ → ℕ
turns_of j [] = 0
turns_of j (i ∷ is) = let rest = turns_of j is in if i == j then suc rest else rest

-- The last to take its turn number `n`, from 0 on, after the turns in the first list: `last` where
-- nobody does.
unfoldable pub last_to : ℕ → List ℕ → ℕ → List ℕ → ℕ
unfolding turns_of
last_to n seen last [] = last
last_to n seen last (i ∷ is) = last_to n (i ∷ seen) (if turns_of i seen == n then i else last) is

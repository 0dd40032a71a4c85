-- ===== src/Http/Run.antt =====
-- The state that a handler may change, and what a run of one ends in.
use golang_service.Prelude.{ℕ, ◌≡◌, ap, String, List, [], ◌∷◌, ◌++◌, Option}
use golang_service.Prelude.Int.{ℤ}
use golang_service.Errors.{Error}
use golang_service.Http.Values.{Any, Fields, Url}
use golang_service.Log.Methods.{Call}

-- A call that reached the server's own response writer.
pub data Sent : Type 0 where
  body : String → Sent
  head : ℤ → Sent
  flushed hijacked : Sent

-- handlers/request_logger.go, `responseLogger`: the fields that its methods change
pub record Counter : Type 0 where
  pub status : ℤ
  pub size : ℤ

pub data Level : Type 0 where
  panic fatal error warn info debug : Level

-- A statsd client: where it sends to, and the prefix and the tags that it puts to every packet.
pub record StatsdClient : Type 0 where
  pub address : String
  pub prefix : String
  pub all_tags : List String

-- What leaves the process: a log entry, a call of a statsd client, a line of a
-- file, the opening or closing of a file, a call of raygun.
pub data Output : Type 0 where
  entry : Fields → Call → Output
  timing count : StatsdClient → String → ℤ → List String → Output
  line : String → String → Output
  opened closed : String → Output
  crash : Fields → String → Output

pub record World : Type 0 where
  -- what the server's response writer was asked to do, in order
  pub sent : List Sent
  -- the `responseLogger`s allocated so far, by their address
  pub counters : List Counter
  pub urls : ℕ → Url
  pub output : List Output
  -- the wall clock, and the monotonic clock (a `uint64` of nanoseconds)
  pub wall : ℤ
  pub ticks : ℕ

-- The argument of `panic`; `nil` is none.
pub data Panicked : Type 0 where
  with_error : Error → Panicked
  with_text : String → Panicked
  with_other : Any → Panicked
  -- the run-time error of a failed type assertion
  bad_assertion : Panicked

pub data Outcome (A : Type 0) : Type 0 where
  done : A → Outcome A
  panicked : Option Panicked → Outcome A

abbrev pub Action : Type 0 → Type 0
Action A = World → Outcome A × World

abbrev pub Effect : Type 0
Effect = Action (Unit {0})

abbrev pub pure : {A : Type 0} → A → Action A
pure a w = (done a, w)

abbrev pub skip : Effect
skip w = (done tt, w)

abbrev pub continue : {A B : Type 0} → Outcome A × World → (A → Action B) → Outcome B × World
continue (done a, w) f = f a w
continue (panicked v, w) f = (panicked v, w)

infixl 5 ◌>>=◌ ◌>>◌
abbrev pub ◌>>=◌ : {A B : Type 0} → Action A → (A → Action B) → Action B
◌>>=◌ m f w = continue (m w) f

abbrev pub ◌>>◌ : {B : Type 0} → Effect → Action B → Action B
m >> k = m >>= λ _. k

abbrev pub emit : Output → Effect
emit o w = (done tt, record w { output = w.output ++ o ∷ [] })

-- A run in two parts, by how the first part ends.
module _ {A B : Type 0} (m : Action A) (f : A → Action B) (w : World) {w' : World} where
  pub >>=-done : {a : A} → m w ≡ (done a, w') → (m >>= f) w ≡ f a w'
  >>=-done e = ap (λ r. continue r f) e

  pub >>=-panicked : {v : Option Panicked} → m w ≡ (panicked v, w') → (m >>= f) w ≡ (panicked v, w')
  >>=-panicked e = ap (λ r. continue r f) e

-- ===== src/Nettest/Server.antt =====
-- nettest/netserver.go: the goroutines of a stream server (`CreateServer`, `readStream`), which run
-- in any order beside each other, and the `WaitGroup` that counts them.
pub mod Counting
pub mod Delivery
pub mod Progress
pub mod Weights
pub mod Bound
mod Tests
use golang_service.Prelude.{
  ℕ, ◌≡◌, ◌≢◌, ◌+◌, ◌-◌, ◌<◌, ◌%◌, ◌==◌, Bool, true, false, String, List, [], ◌∷◌, ◌++◌, Option,
  none, some, if◌then◌else◌,
}
use golang_service.Prelude.Family.{update}

-- Where the goroutine of a connection stands: before the test `ct&7 != 0`, in `ReadString`, in
-- `done <- s`, before `c.Close()`, before the deferred `wg.Done()`, and at its end.
pub data Place : Type 0 where
  testing reading : ℕ → Place
  sending : ℕ → String → Place
  closing leaving finished : Place

-- A connection: all answers that `ReadString` will give, none for an error, those not yet given,
-- and its goroutine. After the last answer the deadline passes, which is an error.
pub record Connection : Type 0 where
  pub script : List (Option String)
  pub left : List (Option String)
  pub place : Place

abbrev pub connect : List (Option String) → Connection
connect script = record { script = script; left = script; place = testing 1 }

unfoldable pub next_place : Place → List (Option String) → Place
next_place (testing ct) left = if ct % 8 == 0 then closing else reading ct
next_place (reading ct) [] = closing
next_place (reading ct) (none ∷ left) = closing
next_place (reading ct) (some s ∷ left) = sending ct s
next_place (sending ct s) left = testing (ct + 1)
next_place closing left = leaving
next_place leaving left = finished
next_place finished left = finished

unfoldable pub next_left : Place → List (Option String) → List (Option String)
next_left (reading ct) [] = []
next_left (reading ct) (answer ∷ left) = left
next_left place left = left

unfoldable pub advance : Connection → Connection
unfolding next_place next_left
advance c = record c { place = next_place c.place c.left; left = next_left c.place c.left }

-- what the step out of a place puts on the channel
unfoldable pub sent_from : Place → List String
sent_from (sending ct s) = s ∷ []
sent_from place = []

unfoldable pub is_leaving : Place → Bool
is_leaving leaving = true
is_leaving place = false

-- Where the goroutine of `readStream` stands: in `Accept`, with a connection before `wg.Add(1)`,
-- then before `go`, before its deferred `wg.Done()`, and at its end.
pub data Acceptor : Type 0 where
  accepting : Acceptor
  accepted added : List (Option String) → Acceptor
  returning returned : Acceptor

-- `received` is what came out of the channel, each line with the number of its connection.
pub record Server : Type 0 where
  pub acceptor : Acceptor
  pub count : ℕ
  pub connection : ℕ → Connection
  pub wg : ℕ
  -- `Done` of a counter that is zero panics
  pub crashed : Bool
  pub received : List (ℕ × String)

-- `wg.Done()`
unfoldable pub wg_done : Server → Server
wg_done s = if s.wg == 0 then record s { crashed = true } else record s { wg = s.wg - 1 }

abbrev pub tag : ℕ → List String → List (ℕ × String)
tag i [] = []
tag i (line ∷ lines) = (i, line) ∷ tag i lines

-- one step of connection i, and the `wg.Done()` of its last
unfoldable pub moved : ℕ → Server → Server
unfolding advance sent_from update
moved i s = record s {
  connection = update s.connection i (advance (s.connection i));
  received = s.received ++ tag i (sent_from (s.connection i).place);
}

unfoldable pub turn : ℕ → Server → Server
unfolding moved is_leaving wg_done
turn i s = if is_leaving (s.connection i).place then wg_done (moved i s) else moved i s

-- One step of one goroutine. Which one moves, which connections come and when `Accept` fails is
-- left open; the receiver takes a line as soon as it is sent.
pub data Step (s t : Server) : Type 0 where
  accept :
      (script : List (Option String))
      → s.acceptor ≡ accepting
      → t ≡ record s { acceptor = accepted script }
      → Step s t
  accept_fails : s.acceptor ≡ accepting → t ≡ record s { acceptor = returning } → Step s t
  add :
      (script : List (Option String))
      → s.acceptor ≡ accepted script
      → t ≡ record s { acceptor = added script; wg = s.wg + 1 }
      → Step s t
  spawn :
      (script : List (Option String))
      → s.acceptor ≡ added script
      → t ≡ record s {
        acceptor = accepting;
        count = s.count + 1;
        connection = update s.connection s.count (connect script);
      }
      → Step s t
  leave : s.acceptor ≡ returning → t ≡ wg_done (record s { acceptor = returned }) → Step s t
  work : (i : ℕ) → i < s.count → (s.connection i).place ≢ finished → t ≡ turn i s → Step s t

-- `CreateServer` has added one for the goroutine of `readStream`.
abbrev pub started : Server
started = record {
  acceptor = accepting;
  count = 0;
  connection = λ i. record { script = []; left = []; place = finished };
  wg = 1;
  crashed = false;
  received = [];
}

pub data Reach : Server → Type 0 where
  start : Reach started
  later : {s t : Server} → Reach s → Step s t → Reach t

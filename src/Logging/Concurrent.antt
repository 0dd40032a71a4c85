-- ===== src/Logging/Concurrent.antt =====
-- handlers/request_logger.go, as net/http uses it: requests are served by goroutines beside each
-- other, each with a server's writer of its own, and their loggers stand in one store.
pub mod Frame
pub mod Places
pub mod Ownership
pub mod Isolation
mod Tests
use golang_service.Prelude.{ℕ, ◌==◌, List, [], ◌∷◌, if◌then◌else◌}
use golang_service.Prelude.Family.{update}
use golang_service.Http.{External, Writer, external, World, Sent}
use golang_service.Logging.Calls.{make_logger}
use golang_service.Logging.Wrapping.{Call, perform}

-- A request that is served: the writer that its handler has, and what its server's writer was asked
-- to do.
pub record Running : Type 0 where
  pub writer : Writer
  pub sent : List Sent

-- The requests by their number, and the world that they share.
pub record Server : Type 0 where
  pub world : World
  pub request : ℕ → Running

-- A request comes in and `MakeLogger` is called for it, or its handler makes a call.
pub data Event : Type 0 where
  begins : ℕ → External → Event
  calls : ℕ → Call → Event

-- the world as the goroutine of a request sees it
abbrev pub view : Server → ℕ → World
view s i = record s.world { sent = (s.request i).sent }

abbrev back : ℕ → Writer × World → Server → Server
back i (w, t) s = record {
  world = t;
  request = update s.request i (record { writer = w; sent = t.sent });
}

unfoldable pub happen : Event → Server → Server
unfolding make_logger perform update
happen (begins i e) s = back i (make_logger (external e) (record s.world { sent = [] })) s
happen (calls i c) s = let w = (s.request i).writer in back i (w, perform w c (view s i)) s

unfoldable pub serve : List Event → Server → Server
unfolding happen
serve [] s = s
serve (ev ∷ evs) s = serve evs (happen ev s)

-- the calls of one request
unfoldable pub calls_of : ℕ → List Event → List Call
calls_of i [] = []
calls_of i (begins j e ∷ evs) = calls_of i evs
calls_of i (calls j c ∷ evs) = let rest = calls_of i evs in if j == i then c ∷ rest else rest

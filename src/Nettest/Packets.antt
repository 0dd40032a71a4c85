-- ===== src/Nettest/Packets.antt =====
-- nettest/netserver.go: the goroutine of a packet server (`CreateServer`, `readPackets`), step by
-- step, and the `WaitGroup` that counts it. `Ending` is
-- about its end.
pub mod Ending
use golang_service.Prelude.{
  ℕ, suc, zero, ◌+◌, ◌-◌, Bool, true, false, String, List, [], ◌∷◌, ◌++◌, ltb, if◌then◌else◌,
}
use golang_service.Nettest.{Packet, packet, temporary, broken}

-- Where it stands: in `ReadFrom` with its count of temporary errors, in `done <- rcvd`, before
-- `c.Close()`, before the deferred `wg.Done()`, and at its end.
pub data Place : Type 0 where
  receiving : ℕ → Place
  sending : ℕ → String → Place
  closing leaving finished : Place

-- `left` are the answers that `ReadFrom` has still to give. After the last one the socket is
-- closed, which is an error that is not temporary.
pub record PacketServer : Type 0 where
  pub place : Place
  pub left : List Packet
  pub wg : ℕ
  pub closed : Bool
  pub received : List String

unfoldable pub turn_at : Place → List Packet → PacketServer → PacketServer
turn_at (receiving ct) [] s = record s { place = closing; left = [] }
turn_at (receiving ct) (packet p ∷ left) s = record s { place = sending ct p; left = left }
turn_at (receiving ct) (temporary ∷ left) s = record s {
  place = if ltb ct 3 then receiving (ct + 1) else closing;
  left = left;
}
turn_at (receiving ct) (broken ∷ left) s = record s { place = closing; left = left }
turn_at (sending ct p) left s = record s {
  place = receiving ct;
  left = left;
  received = s.received ++ p ∷ [];
}
turn_at closing left s = record s { place = leaving; left = left; closed = true }
turn_at leaving left s = record s { place = finished; left = left; wg = s.wg - 1 }
turn_at finished left s = record s { place = finished; left = left }

unfoldable pub turns : ℕ → PacketServer → PacketServer
unfolding turn_at
turns zero s = s
turns (suc n) s = turns n (turn_at s.place s.left s)

-- as `CreateServer` starts it
abbrev pub started : List Packet → PacketServer
started answers = record {
  place = receiving 0;
  left = answers;
  wg = 1;
  closed = false;
  received = [];
}

-- ===== src/Nettest/Packets/Ending.antt =====
-- nettest/netserver.go: the goroutine of a packet server comes to its end, and what it has passed
-- on by then.
use golang_service.Prelude.{
  ℕ, suc, zero, ◌+◌, ◌-◌, ◌*◌, ◌≤◌, ◌<◌, ◌≡◌, ◌≢◌, ◌⊎◌, inl, inr, refl, sym, subst, ap, ◌∙◌, Bool,
  true, false, Bool-cases, String, List, [], ◌∷◌, ◌++◌, ltb, length, arith, All,
}
use mathlib.Core.List.{append_assoc, append-nil}
use golang_service.Nettest.{
  Packet, packet, temporary, broken, read_packets, payloads, temporaries, read_packets_lem,
}
use golang_service.Nettest.Packets.{
  Place, receiving, sending, closing, leaving, finished, PacketServer, turn_at, turns, started,
}

-- the packets that are still to be passed on
unfoldable coming : Place → List Packet → List String
unfolding read_packets
coming (receiving ct) left = read_packets ct left
coming (sending ct p) left = p ∷ read_packets ct left
coming place left = []

abbrev alive : Place → ℕ
alive finished = 0
alive place = 1

abbrev is_shut : Place → Bool
is_shut leaving = true
is_shut finished = true
is_shut place = false

-- a bound on the steps that are left
abbrev weight : Place → List Packet → ℕ
weight (receiving ct) left = 3 + 2 * length left
weight (sending ct p) left = 4 + 2 * length left
weight closing left = 2
weight leaving left = 1
weight finished left = 0

-- All packets that will ever be received are `all`.
record Promises (all : List String) (s : PacketServer) : Type 0 where
  promised : s.received ++ coming s.place s.left ≡ all
  counted : s.wg ≡ alive s.place
  shut : s.closed ≡ is_shut s.place

turn_at-Promises :
    (all : List String) (p : Place) (left : List Packet) (s : PacketServer)
    → s.received ++ coming p left ≡ all
    → s.wg ≡ alive p
    → s.closed ≡ is_shut p
    → Promises all (turn_at p left s)
unfolding turn_at coming read_packets
turn_at-Promises all (receiving ct) [] s e w c = record { promised = e; counted = w; shut = c }
turn_at-Promises all (receiving ct) (packet p ∷ left) s e w c = record {
  promised = e;
  counted = w;
  shut = c;
}
turn_at-Promises all (receiving ct) (temporary ∷ left) s e w c = elim (Bool-cases (ltb ct 3)) [
  | inl few ↦
      let now : s.received ++ read_packets (ct + 1) left ≡ all = rw few at e in
      rw few (record { promised = now; counted = w; shut = c })
  | inr many ↦
      let now : s.received ++ [] ≡ all = rw many at e in
      rw many (record { promised = now; counted = w; shut = c })
]
turn_at-Promises all (receiving ct) (broken ∷ left) s e w c = record {
  promised = e;
  counted = w;
  shut = c;
}
turn_at-Promises all (sending ct p) left s e w c = record {
  promised = append_assoc s.received (p ∷ []) (read_packets ct left) ∙ e;
  counted = w;
  shut = c;
}
turn_at-Promises all closing left s e w c = record { promised = e; counted = w; shut = refl }
turn_at-Promises all leaving left s e w c = record {
  promised = e;
  counted = omega (arith, w);
  shut = c;
}
turn_at-Promises all finished left s e w c = record { promised = e; counted = w; shut = c }

turns-Promises :
    (all : List String) (n : ℕ) (s : PacketServer) → Promises all s → Promises all (turns n s)
unfolding turns
turns-Promises all zero s h = h
turns-Promises all (suc n) s h =
    turns-Promises all n (turn_at s.place s.left s)
      (turn_at-Promises all s.place s.left s h.promised h.counted h.shut)

turn_at-weight :
    (p : Place) (left : List Packet) (s : PacketServer)
    → let t = turn_at p left s in (weight t.place t.left ≤ weight p left - 1)
unfolding turn_at
turn_at-weight (receiving ct) [] s = omega arith
turn_at-weight (receiving ct) (packet p ∷ left) s = omega arith
turn_at-weight (receiving ct) (temporary ∷ left) s = elim (Bool-cases (ltb ct 3)) [
  | inl few ↦ rw few (omega arith)
  | inr many ↦ rw many (omega arith)
]
turn_at-weight (receiving ct) (broken ∷ left) s = omega arith
turn_at-weight (sending ct p) left s = omega arith
turn_at-weight closing left s = omega arith
turn_at-weight leaving left s = omega arith
turn_at-weight finished left s = omega arith

at_end : (p : Place) (left : List Packet) → weight p left ≤ 0 → p ≡ finished
at_end (receiving ct) left h = absurd (omega (arith, h))
at_end (sending ct p) left h = absurd (omega (arith, h))
at_end closing left h = absurd (omega (arith, h))
at_end leaving left h = absurd (omega (arith, h))
at_end finished left h = refl

turns-finished :
    (n : ℕ) (s : PacketServer) → weight s.place s.left ≤ n → (turns n s).place ≡ finished
unfolding turns
turns-finished zero s h = at_end s.place s.left h
turns-finished (suc n) s h =
    turns-finished n (turn_at s.place s.left s) (omega (arith, h, turn_at-weight s.place s.left s))

started-Promises : (script : List Packet) → Promises (read_packets 0 script) (started script)
unfolding coming
started-Promises script = record { promised = refl; counted = refl; shut = refl }

-- The goroutine has run to its end, and what was received is all that it promised.
abbrev Ended : List String → PacketServer → Type 0
Ended all s = (s.wg ≡ 0) × (s.closed ≡ true) × (s.received ≡ all)

finished-Ended :
    (all : List String) (s : PacketServer) → Promises all s → s.place ≡ finished → Ended all s
unfolding coming
finished-Ended all s h e = (
  h.counted ∙ ap alive e,
  h.shut ∙ ap is_shut e,
  sym (append-nil s.received) ∙ ap (λ p. s.received ++ coming p s.left) (sym e) ∙ h.promised,
)

running_or_Ended :
    (all : List String) (s : PacketServer) → Promises all s → (s.wg ≡ 1) ⊎ Ended all s
running_or_Ended all s h = by_place s.place refl
  where
    by_place : (p : Place) → s.place ≡ p → (s.wg ≡ 1) ⊎ Ended all s
    by_place (receiving ct) e = inl (h.counted ∙ ap alive e)
    by_place (sending ct p) e = inl (h.counted ∙ ap alive e)
    by_place closing e = inl (h.counted ∙ ap alive e)
    by_place leaving e = inl (h.counted ∙ ap alive e)
    by_place finished e = inr (finished-Ended all s h e)

-- However far a packet server has come: either its counter is at one, and it ends within three
-- steps and two for each answer that `ReadFrom` gives; or the counter is at zero, so that
-- `wg.Wait()` returns, the socket is closed, and every packet has been received, in order, up to
-- the first error that is not temporary, or the fourth that is: the count is never reset.
pub wait_or_turns :
    (es rest : List Packet) (stop : Packet) (n : ℕ)
    → All (λ p. p ≢ broken) es
    → temporaries es ≤ 3
    → (stop ≡ broken) ⊎ ((stop ≡ temporary) × (temporaries es ≡ 3))
    → let script = es ++ stop ∷ rest in
      let s = turns n (started script) in
      ((s.wg ≡ 1) × (n < 3 + 2 * length script))
      ⊎ ((s.wg ≡ 0) × (s.closed ≡ true) × (s.received ≡ payloads es))
wait_or_turns es rest stop n good few ends =
    let script = es ++ stop ∷ rest in
    let s = turns n (started script) in
    let none_yet : temporaries es ≡ 0 + temporaries es = omega arith in
    let ends_so : (stop ≡ broken) ⊎ ((stop ≡ temporary) × (0 + temporaries es ≡ 3)) =
      subst (λ k. (stop ≡ broken) ⊎ ((stop ≡ temporary) × (k ≡ 3))) none_yet ends in
    let read : read_packets 0 script ≡ payloads es =
      read_packets_lem es rest stop 0 good (omega arith) ends_so in
    let h : Promises (payloads es) s =
      subst (λ all. Promises all s) read
        (turns-Promises (read_packets 0 script) n (started script) (started-Promises script)) in
    elim (Bool-cases (ltb n (3 + 2 * length script))) [
      | inl early ↦ elim (running_or_Ended (payloads es) s h) [
        | inl running ↦ inl (running, ground arith)
        | inr ended ↦ inr ended
      ]
      | inr late ↦
          inr (finished-Ended (payloads es) s h (turns-finished n (started script) (ground arith)))
    ]

-- ===== src/Nettest.antt =====
-- nettest/netserver.go: what the test server's readers put on the channel `done`, for the sequence
-- of answers that the network gives them.
pub mod Server
pub mod Packets
pub mod Create
mod Tests
use golang_service.Prelude.{
  ℕ, suc, zero, ◌≡◌, ◌≢◌, refl, ap, ◌+◌, ◌-◌, ◌≤◌, ◌%◌, ◌==◌, ◌⊎◌, inl, inr, true, false, String,
  List, [], ◌∷◌, ◌++◌, Option, none, some, take, arith, ltb, if◌then◌else◌, All,
}

-- The goroutine of `readStream`: `ct` counts from 1 while `ct&7 != 0`, and the first error of
-- `ReadString` breaks the loop. The list has the answers in order, none for an error.
unfoldable pub read_lines : ℕ → List (Option String) → List String
read_lines ct [] = []
read_lines ct (none ∷ answers) = []
read_lines ct (some s ∷ answers) =
    let rest = read_lines (ct + 1) answers in if ct % 8 == 0 then [] else s ∷ rest

unfoldable pub read_connection : List (Option String) → List String
unfolding read_lines
read_connection answers = read_lines 1 answers

-- the lines before the first error
unfoldable pub before_error : List (Option String) → List String
before_error [] = []
before_error (none ∷ answers) = []
before_error (some s ∷ answers) = s ∷ before_error answers

-- An answer of `ReadFrom`: a packet, an error that is a temporary `net.OpError`, or another error.
pub data Packet : Type 0 where
  packet : String → Packet
  temporary broken : Packet

-- `readPackets`, with its count of temporary errors
unfoldable pub read_packets : ℕ → List Packet → List String
read_packets ct [] = []
read_packets ct (packet s ∷ answers) = s ∷ read_packets ct answers
read_packets ct (temporary ∷ answers) =
    let rest = read_packets (ct + 1) answers in if ltb ct 3 then rest else []
read_packets ct (broken ∷ answers) = []

abbrev pub payloads : List Packet → List String
payloads [] = []
payloads (packet s ∷ answers) = s ∷ payloads answers
payloads (_ ∷ answers) = payloads answers

abbrev pub temporaries : List Packet → ℕ
temporaries [] = 0
temporaries (temporary ∷ answers) = suc (temporaries answers)
temporaries (_ ∷ answers) = temporaries answers

read_lines-take :
    (ct k : ℕ) (answers : List (Option String))
    → 1 ≤ ct
    → ct + k ≡ 8
    → read_lines ct answers ≡ take k (before_error answers)
unfolding read_lines before_error
read_lines-take ct zero [] h e = refl
read_lines-take ct zero (none ∷ answers) h e = refl
read_lines-take ct zero (some s ∷ answers) h e =
    let stop : (ct % 8 == 0) ≡ true = ground arith in rw stop refl
read_lines-take ct (suc k) [] h e = refl
read_lines-take ct (suc k) (none ∷ answers) h e = refl
read_lines-take ct (suc k) (some s ∷ answers) h e =
    let go : (ct % 8 == 0) ≡ false = ground arith in
    rw go (ap (λ rest. s ∷ rest) (read_lines-take (ct + 1) k answers (omega arith) (omega arith)))

-- From a connection the server reads the first seven lines, and fewer where an error comes
-- before.
pub read_connection_lem :
    (answers : List (Option String)) → read_connection answers ≡ take 7 (before_error answers)
unfolding read_connection
read_connection_lem answers = read_lines-take 1 7 answers (omega arith) refl

-- Every packet is passed on, in order, up to the first error that is not temporary, or the fourth
-- that is: the count is never reset. Nothing is read after that.
pub read_packets_lem :
    (es rest : List Packet) (stop : Packet) (ct : ℕ)
    → All (λ p. p ≢ broken) es
    → ct + temporaries es ≤ 3
    → (stop ≡ broken) ⊎ ((stop ≡ temporary) × (ct + temporaries es ≡ 3))
    → read_packets ct (es ++ stop ∷ rest) ≡ payloads es
unfolding read_packets
read_packets_lem [] rest stop ct h le (inl e) = rw e refl
read_packets_lem [] rest stop ct h le (inr (e, f)) =
    let over : ltb ct 3 ≡ false = ground arith in rw e (rw over refl)
read_packets_lem (packet s ∷ es) rest stop ct (n, h) le end =
    ap (λ xs. s ∷ xs) (read_packets_lem es rest stop ct h le end)
read_packets_lem (temporary ∷ es) rest stop ct (n, h) le end =
    let under : ltb ct 3 ≡ true = ground arith in
    rw under (read_packets_lem es rest stop (ct + 1) h (omega arith) (shift end))
  where
    shift :
        (stop ≡ broken) ⊎ ((stop ≡ temporary) × (ct + temporaries (temporary ∷ es) ≡ 3))
        → (stop ≡ broken) ⊎ ((stop ≡ temporary) × (ct + 1 + temporaries es ≡ 3))
    shift (inl e) = inl e
    shift (inr (e, f)) = inr (e, omega arith)
read_packets_lem (broken ∷ es) rest stop ct (n, h) le end = absurd (n refl)

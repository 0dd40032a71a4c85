-- ===== src/Nettest/Tests.antt =====
-- Runs of the readers, and the theorems at concrete inputs.
use golang_service.Prelude.{◌⊎◌, ◌<◌, true, ◌≡◌, refl, inl, [], ◌∷◌, some, arith}
use golang_service.Prelude.{true, ◌⊎◌, inr, List}
use golang_service.Nettest.Create.{
  Sockets, removed, opened_packet, opened_stream, packets, stream, create_server, Opens,
  create_server-Opens,
}
use golang_service.Nettest.Packets.{turns, started}
use golang_service.Nettest.Packets.Ending.{wait_or_turns}
use golang_service.Nettest.{Packet, packet, temporary, broken, read_connection}

eight_lines :
    read_connection
      (some "1" ∷ some "2" ∷ some "3" ∷ some "4" ∷ some "5" ∷ some "6" ∷ some "7" ∷ some "8" ∷ [])
    ≡ "1" ∷ "2" ∷ "3" ∷ "4" ∷ "5" ∷ "6" ∷ "7" ∷ []
unfolding read_connection
eight_lines = refl

abbrev script : List Packet
script = packet "a" ∷ temporary ∷ packet "b" ∷ broken ∷ packet "c" ∷ []

ended :
    ((turns 8 (started script)).wg ≡ 0)
    × ((turns 7 (started script)).wg ≡ 1)
    × ((turns 8 (started script)).received ≡ "a" ∷ "b" ∷ [])
unfolding turns
ended = (refl, refl, refl)

wait_or_turns_example :
    let s = turns 8 (started script) in
    ((s.wg ≡ 1) × (8 < 13)) ⊎ ((s.wg ≡ 0) × (s.closed ≡ true) × (s.received ≡ "a" ∷ "b" ∷ []))
wait_or_turns_example =
    wait_or_turns (packet "a" ∷ temporary ∷ packet "b" ∷ []) (packet "c" ∷ []) broken 8
      ((cc), ((cc), ((cc), tt))) (omega arith) (inl refl)

abbrev sockets : Sockets
sockets = record {
  temp_file = inr "/tmp/servertest1";
  listen_packet = λ n la. inr la;
  listen = λ n la. inr la;
}

created :
    (create_server sockets "udp" "/tmp/x"
      ≡ (opened_packet "udp" "127.0.0.1:0" ∷ [], packets "127.0.0.1:0"))
    × (create_server sockets "unix" "/tmp/x"
        ≡ (removed "/tmp/x" ∷ opened_stream "unix" "/tmp/x" ∷ [], stream "/tmp/x"))
unfolding create_server
created = (refl, refl)

create_server-Opens_example : Opens sockets "unixgram" "" (create_server sockets "unixgram" "")
create_server-Opens_example = create_server-Opens sockets "unixgram" ""

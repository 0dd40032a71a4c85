-- ===== src/Nettest/Create.antt =====
-- nettest/netserver.go, `CreateServer`: the address that is listened to, what is done to the file
-- system for it, and the goroutine that is started.
use golang_service.Prelude.{
  ◌≡◌, ◌≢◌, ◌⊎◌, inl, inr, refl, ap, Bool, ◌||◌, Bool-cases, String, List, [], ◌∷◌, ◌++◌, arith,
  if◌then◌else◌,
}
use golang_service.Prelude.Text.{str_eq, eq_iff}
use golang_service.Errors.{Error, error_message, ◌<>◌}

-- What the packages os, ioutil and net answer: the name of a new file, and the address of a
-- listener; or an error.
pub record Sockets : Type 0 where
  pub temp_file : Error ⊎ String
  pub listen_packet : String → String → Error ⊎ String
  pub listen : String → String → Error ⊎ String

-- What is done, in order: a file made and closed, a name removed, a socket opened.
pub data Deed : Type 0 where
  made closed_file removed : String → Deed
  opened_packet opened_stream : String → String → Deed

-- `t.Fatalf` with its text; or the address, and the reader that runs with one added to the
-- `WaitGroup`
pub data Created : Type 0 where
  fatal : String → Created
  packets stream : String → Created

-- `udp` and `tcp` listen on the loopback interface, at a port that the system chooses.
unfoldable pub is_inet : String → Bool
is_inet n = str_eq n "udp" || str_eq n "tcp"

unfoldable pub is_datagram : String → Bool
is_datagram n = str_eq n "udp" || str_eq n "unixgram"

abbrev of_packets : Error ⊎ String → Created
of_packets (inl e) = fatal ("CreateServer failed: " <> error_message e)
of_packets (inr addr) = packets addr

abbrev of_stream : Error ⊎ String → Created
of_stream (inl e) = fatal ("CreateServer failed: " <> error_message e)
of_stream (inr addr) = stream addr

abbrev after_deeds : List Deed → List Deed × Created → List Deed × Created
after_deeds before (deeds, created) = (before ++ deeds, created)

module _ (o : Sockets) where
  -- from `wg = new(sync.WaitGroup)` on
  unfoldable pub open_socket : String → String → List Deed × Created
  unfolding is_datagram
  open_socket n la =
      if is_datagram n
      then (opened_packet n la ∷ [], of_packets (o.listen_packet n la))
      else (opened_stream n la ∷ [], of_stream (o.listen n la))

  -- an address is chosen where none is given
  unfoldable pub at_temp_file : String → Error ⊎ String → List Deed × Created
  unfolding open_socket
  at_temp_file n (inl e) = ([], fatal ("TempFile: " <> error_message e))
  at_temp_file n (inr name) =
      after_deeds (made name ∷ closed_file name ∷ removed name ∷ []) (open_socket n name)

  unfoldable pub create_server : String → String → List Deed × Created
  unfolding at_temp_file open_socket is_inet
  create_server n la =
      if is_inet n
      then open_socket n "127.0.0.1:0"
      else if str_eq la ""
      then at_temp_file n o.temp_file
      else after_deeds (removed la ∷ []) (open_socket n la)

-- What becomes of a socket that was asked for: the test ends with the error, or the reader of its
-- kind is started on the address that the network answers.
pub data Started (answer : Error ⊎ String) (reader : String → Created) (created : Created)
    : Type 0 where
  failed :
      (e : Error)
      → answer ≡ inl e
      → created ≡ fatal ("CreateServer failed: " <> error_message e)
      → Started answer reader created
  running :
      (addr : String) → answer ≡ inr addr → created ≡ reader addr → Started answer reader created

-- The socket at an address, by the name of the network.
pub data Socket (o : Sockets) (n addr : String) (deed : Deed) (created : Created) : Type 0 where
  packet_socket :
      (n ≡ "udp") ⊎ (n ≡ "unixgram")
      → deed ≡ opened_packet n addr
      → Started (o.listen_packet n addr) packets created
      → Socket o n addr deed created
  stream_socket :
      n ≢ "udp"
      → n ≢ "unixgram"
      → deed ≡ opened_stream n addr
      → Started (o.listen n addr) stream created
      → Socket o n addr deed created

-- What `CreateServer` does for a network and an address, and what comes of it.
pub data Opens (o : Sockets) (n la : String) (r : List Deed × Created) : Type 0 where
  no_name :
      (e : Error)
      → n ≢ "udp"
      → n ≢ "tcp"
      → la ≡ ""
      → o.temp_file ≡ inl e
      → r ≡ ([], fatal ("TempFile: " <> error_message e))
      → Opens o n la r
  loopback :
      (deed : Deed) (created : Created)
      → (n ≡ "udp") ⊎ (n ≡ "tcp")
      → Socket o n "127.0.0.1:0" deed created
      → r ≡ (deed ∷ [], created)
      → Opens o n la r
  at_new_name :
      (name : String) (deed : Deed) (created : Created)
      → n ≢ "udp"
      → n ≢ "tcp"
      → la ≡ ""
      → o.temp_file ≡ inr name
      → Socket o n name deed created
      → r ≡ (made name ∷ closed_file name ∷ removed name ∷ deed ∷ [], created)
      → Opens o n la r
  at_given_name :
      (deed : Deed) (created : Created)
      → n ≢ "udp"
      → n ≢ "tcp"
      → la ≢ ""
      → Socket o n la deed created
      → r ≡ (removed la ∷ deed ∷ [], created)
      → Opens o n la r

of_packets-Started : (answer : Error ⊎ String) → Started answer packets (of_packets answer)
of_packets-Started (inl e) = failed e refl refl
of_packets-Started (inr addr) = running addr refl refl

of_stream-Started : (answer : Error ⊎ String) → Started answer stream (of_stream answer)
of_stream-Started (inl e) = failed e refl refl
of_stream-Started (inr addr) = running addr refl refl

module _ (o : Sockets) (n la : String) where
  open_socket-Socket :
      (addr : String)
      → (deed : Deed) × (created : Created) × Socket o n addr deed created
        × (open_socket o n addr ≡ (deed ∷ [], created))
  unfolding open_socket is_datagram
  open_socket-Socket addr = elim (Bool-cases (is_datagram n)) [
    | inl e ↦ (
      opened_packet n addr,
      of_packets (o.listen_packet n addr),
      packet_socket (ground (arith, eq_iff n "udp", eq_iff n "unixgram")) refl
          (of_packets-Started (o.listen_packet n addr)),
      rw e refl,
    )
    | inr e ↦ (
      opened_stream n addr,
      of_stream (o.listen n addr),
      stream_socket (ground (arith, eq_iff n "udp")) (ground (arith, eq_iff n "unixgram")) refl
          (of_stream-Started (o.listen n addr)),
      rw e refl,
    )
  ]

  at_temp_file-Opens :
      (answer : Error ⊎ String)
      → o.temp_file ≡ answer
      → n ≢ "udp"
      → n ≢ "tcp"
      → la ≡ ""
      → Opens o n la (at_temp_file o n answer)
  unfolding at_temp_file
  at_temp_file-Opens (inl e) q udp tcp empty = no_name e udp tcp empty q refl
  at_temp_file-Opens (inr name) q udp tcp empty =
      let (deed, created, is, ran) = open_socket-Socket name in
      at_new_name name deed created udp tcp empty q is
        (ap (after_deeds (made name ∷ closed_file name ∷ removed name ∷ [])) ran)

  -- `CreateServer` opens one socket, as its last deed: a packet socket for udp and unixgram, and a
  -- stream socket for any other network. For udp and tcp it is at a free port of the loopback
  -- interface, whatever address was given, and nothing is done to files. Otherwise it is at the
  -- address that was given, which has just been removed, or, where that was empty, at the name of a
  -- new temporary file, which has been made, closed and removed again; the test ends at once where
  -- there is no such name. If the socket could be opened, the reader of its kind is started, and
  -- otherwise the test ends with the error.
  pub create_server-Opens : Opens o n la (create_server o n la)
  unfolding create_server is_inet
  create_server-Opens = elim (Bool-cases (is_inet n)) [
    | inl e ↦
        let (deed, created, is, ran) = open_socket-Socket "127.0.0.1:0" in
        loopback deed created (ground (arith, eq_iff n "udp", eq_iff n "tcp")) is (rw e ran)
    | inr e ↦
        let udp : n ≢ "udp" = ground (arith, eq_iff n "udp") in
        let tcp : n ≢ "tcp" = ground (arith, eq_iff n "tcp") in
        elim (Bool-cases (str_eq la "")) [
          | inl z ↦ rw (e, z) (at_temp_file-Opens o.temp_file refl udp tcp ((eq_iff la "").0 z))
          | inr z ↦
              let (deed, created, is, ran) = open_socket-Socket la in
              at_given_name deed created udp tcp (ground (arith, eq_iff la "")) is
                (rw (e, z) (ap (after_deeds (removed la ∷ [])) ran))
        ]
  ]

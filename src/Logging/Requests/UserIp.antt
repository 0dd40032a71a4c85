-- ===== src/Logging/Requests/UserIp.antt =====
-- handlers/request_logger.go, `getUserIP`: the address of the user by its three sources.
use golang_service.Prelude.{
  ◌≡◌, refl, sym, subst, ◌↔◌, Bool-cases, Option-cases, ◌≢◌, ◌⊎◌, inl, inr, false, String, List,
  ◌∷◌, Option, none, some, arith, ap, ◌∙◌,
}
use golang_service.Prelude.Text.{str_eq, eq_iff}
use golang_service.Go.Strings.{split, strip_spaces, IsFirst, split-IsFirst, IsFirst-split}
use golang_service.Http.{Request, header_get}
use golang_service.Logging.Requests.{
  Net, not_ip, no_port, not_ip_port, IpResult, failed, or_failed, first_ip, ip_of_header,
  ip_of_host, remote_ip, or_else, get_user_ip,
}

-- What one header answers: nothing where it is empty, else by its first part.
module _ (net : Net) where
  ip_of_header_nil : (value : String) → value ≡ "" → ip_of_header net value ≡ none
  unfolding ip_of_header
  ip_of_header_nil value e = rw e refl

  ip_of_header_parts :
      (value p : String) (more : List String)
      → value ≢ ""
      → split "," value ≡ p ∷ more
      → ip_of_header net value ≡ some (or_failed (net.parse_ip (strip_spaces p)) (not_ip p))
  unfolding ip_of_header
  ip_of_header_parts value p more n e =
      let full : str_eq value "" ≡ false = ground (arith, eq_iff value "") in
      rw full (ap (first_ip net) e)

module _ (net : Net) (req : Request) where
  abbrev forwarded : String
  forwarded = header_get req.header "X-Forwarded-For"

  abbrev real_ip : String
  real_ip = header_get req.header "X-Real-Ip"

  -- the header that counts: the first of the two that is not empty
  abbrev pub Counts : String → Type 0
  Counts value = (value ≢ "") × ((forwarded ≡ value) ⊎ ((forwarded ≡ "") × (real_ip ≡ value)))

  -- The user's address, or the error: by the first part of that header's list, spaces taken out,
  -- whatever stands after it; where both are empty, by the host of the connection's `host:port`.
  pub data Located (r : IpResult) : Type 0 where
    listed :
        (value first : String)
        → Counts value
        → IsFirst "," value first
        → r ≡ or_failed (net.parse_ip (strip_spaces first)) (not_ip first)
        → Located r
    connected :
        (host : String)
        → forwarded ≡ ""
        → real_ip ≡ ""
        → net.split_host req.remote_addr ≡ some host
        → r ≡ or_failed (net.parse_ip host) (not_ip_port req.remote_addr)
        → Located r
    no_host :
        forwarded ≡ ""
        → real_ip ≡ ""
        → net.split_host req.remote_addr ≡ none
        → r ≡ failed (no_port req.remote_addr)
        → Located r

  abbrev sources : Option IpResult → Option IpResult → IpResult
  sources a b = or_else net a (or_else net b (remote_ip net req.remote_addr))

  get_user_ip-listed :
      (value p : String) (more : List String)
      → Counts value
      → split "," value ≡ p ∷ more
      → get_user_ip net req ≡ or_failed (net.parse_ip (strip_spaces p)) (not_ip p)
  unfolding get_user_ip
  get_user_ip-listed value p more (n, inl e) parts =
      ap (λ a. sources a (ip_of_header net real_ip))
        (ap (ip_of_header net) e ∙ ip_of_header_parts net value p more n parts)
  get_user_ip-listed value p more (n, inr (none_forwarded, e)) parts =
      ap (λ a. sources a (ip_of_header net real_ip)) (ip_of_header_nil net forwarded none_forwarded)
      ∙ ap (sources none) (ap (ip_of_header net) e ∙ ip_of_header_parts net value p more n parts)

  get_user_ip-connected :
      forwarded ≡ "" → real_ip ≡ "" → get_user_ip net req ≡ remote_ip net req.remote_addr
  unfolding get_user_ip
  get_user_ip-connected e f =
      ap (λ a. sources a (ip_of_header net real_ip)) (ip_of_header_nil net forwarded e)
      ∙ ap (sources none) (ip_of_header_nil net real_ip f)

  remote_ip-host :
      (host : String)
      → net.split_host req.remote_addr ≡ some host
      → remote_ip net req.remote_addr ≡ or_failed (net.parse_ip host) (not_ip_port req.remote_addr)
  unfolding remote_ip
  remote_ip-host host e = ap (ip_of_host net req.remote_addr) e

  remote_ip_failed :
      net.split_host req.remote_addr ≡ none
      → remote_ip net req.remote_addr ≡ failed (no_port req.remote_addr)
  unfolding remote_ip
  remote_ip_failed e = ap (ip_of_host net req.remote_addr) e

  connection-Located : forwarded ≡ "" → real_ip ≡ "" → Located (get_user_ip net req)
  connection-Located e f = elim (Option-cases (net.split_host req.remote_addr)) [
    | inl none_there ↦
        no_host e f none_there (get_user_ip-connected e f ∙ remote_ip_failed none_there)
    | inr (host, there) ↦
        connected host e f there (get_user_ip-connected e f ∙ remote_ip-host host there)
  ]

  header-Located : (value : String) → Counts value → Located (get_user_ip net req)
  header-Located value counts =
      let (p, more, parts, first) = split-IsFirst "," value in
      listed value p counts first (get_user_ip-listed value p more counts parts)

  answer-Located : Located (get_user_ip net req)
  answer-Located = elim (Bool-cases (str_eq forwarded "")) [
    | inr full ↦ header-Located forwarded (ground (arith, eq_iff forwarded ""), inl refl)
    | inl empty ↦
        let e = (eq_iff forwarded "").0 empty in
        elim (Bool-cases (str_eq real_ip "")) [
          | inr full ↦ header-Located real_ip (ground (arith, eq_iff real_ip ""), inr (e, refl))
          | inl none_too ↦ let f = (eq_iff real_ip "").0 none_too in connection-Located e f
        ]
  ]

  -- `getUserIP` answers exactly what the first source gives that is there: the first part of
  -- X-Forwarded-For, that of X-Real-Ip, or the host of the connection's `host:port`. Later parts,
  -- the later header and the connection's address make no difference then, not even where the first
  -- part is no address: that is an error, and no other source is tried. A connection whose address
  -- has no port, or whose host is no address, is an error too, which quotes the whole of it.
  pub get_user_ip-Located : (r : IpResult) → (r ≡ get_user_ip net req) ↔ Located r
  get_user_ip-Located r = (λ e. subst Located (sym e) answer-Located, back)
    where
      back : Located r → r ≡ get_user_ip net req
      back (listed value p counts first q) =
          let (more, parts) = IsFirst-split "," value p first in
          q ∙ sym (get_user_ip-listed value p more counts parts)
      back (connected host e f there q) =
          q ∙ sym (get_user_ip-connected e f ∙ remote_ip-host host there)
      back (no_host e f there q) = q ∙ sym (get_user_ip-connected e f ∙ remote_ip_failed there)

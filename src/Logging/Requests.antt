-- ===== src/Logging/Requests.antt =====
-- handlers/request_logger.go: what is read off a request (`parseURI`, `uriPath`, `getUserIP`).
-- The packages net and net/url answer through `Net`. `UserIp` is about `getUserIP`.
pub mod UserIp
use golang_service.Prelude.{
  ◌≡◌, ◌≢◌, Bool, true, false, ◌&&◌, String, List, [], ◌∷◌, Option, none, some, arith,
  if◌then◌else◌,
}
use golang_service.Prelude.Int.{pos, eqb_ℤ}
use golang_service.Prelude.Text.{str_eq, eq_iff}
use golang_service.Go.Strings.{split, strip_spaces}
use golang_service.Http.{Request, Url, header_get}

-- an IP address, in the library's bytes
abbrev pub Ip : Type 0
Ip = String

pub record Net : Type 0 where
  -- `net.ParseIP`, nil for what is no address
  pub parse_ip : String → Option Ip
  -- `net.SplitHostPort`: the host, none for an error
  pub split_host : String → Option String
  -- `url.RequestURI()`, `url.EscapedPath()`, and `url.Parse`, the method: relative to the URL
  pub request_uri : Url → String
  pub escaped_path : Url → String
  pub parse_url : Url → String → Option Url

-- the errors of `getUserIP`, by the text that they quote
pub data IpError : Type 0 where
  not_ip no_port not_ip_port : String → IpError

pub data IpResult : Type 0 where
  found : Ip → IpResult
  failed : IpError → IpResult

abbrev pub or_failed : Option Ip → IpError → IpResult
or_failed (some ip) e = found ip
or_failed none e = failed e

abbrev is_connect : Request → Bool
is_connect req = eqb_ℤ req.proto_major (pos 2) && str_eq req.method "CONNECT"

module _ (net : Net) where
  unfoldable pub parse_uri : Request → Url → String
  parse_uri req url =
      let uri = if is_connect req then req.host else req.request_uri in
      if str_eq uri "" then net.request_uri url else uri

  -- `url.Parse(req.RequestURI)`, of the method of a URL, in place of an empty path
  abbrev parsed_path : Option Url → String
  parsed_path none = "unknown"
  parsed_path (some u) = net.escaped_path u

  abbrev or_slash : String → String
  or_slash uri = if str_eq uri "" then "/" else uri

  unfoldable pub uri_path : Request → Url → String
  uri_path req url =
      let uri = if is_connect req then req.host else net.escaped_path url in
      or_slash (if str_eq uri "" then parsed_path (net.parse_url url req.request_uri) else uri)

  -- the inner loop of `getUserIP`: it returns in its first round
  abbrev pub first_ip : List String → Option IpResult
  first_ip [] = none
  first_ip (ip ∷ more) = some (or_failed (net.parse_ip (strip_spaces ip)) (not_ip ip))

  -- one round of the outer loop: none to go on with the next header
  unfoldable pub ip_of_header : String → Option IpResult
  unfolding split strip_spaces
  ip_of_header value = if str_eq value "" then none else first_ip (split "," value)

  -- `net.ParseIP` of what `net.SplitHostPort(req.RemoteAddr)` answers
  abbrev pub ip_of_host : String → Option String → IpResult
  ip_of_host addr none = failed (no_port addr)
  ip_of_host addr (some host) = or_failed (net.parse_ip host) (not_ip_port addr)

  unfoldable pub remote_ip : String → IpResult
  remote_ip addr = ip_of_host addr (net.split_host addr)

  abbrev pub or_else : Option IpResult → IpResult → IpResult
  or_else (some answer) other = answer
  or_else none other = other

  unfoldable pub get_user_ip : Request → IpResult
  get_user_ip req =
      or_else (ip_of_header (header_get req.header "X-Forwarded-For"))
        (or_else (ip_of_header (header_get req.header "X-Real-Ip")) (remote_ip req.remote_addr))

or_slash-ne-nil : (uri : String) → (if str_eq uri "" then "/" else uri) ≢ ""
or_slash-ne-nil uri = ground (arith, eq_iff uri "", eq_iff "/" "")

module _ (net : Net) (req : Request) (url : Url) where
  -- The path that is reported is never empty.
  pub uri_path-ne-nil : uri_path net req url ≢ ""
  unfolding uri_path
  uri_path-ne-nil = or_slash-ne-nil (
      if str_eq (if is_connect req then req.host else net.escaped_path url) ""
      then parsed_path net (net.parse_url url req.request_uri)
      else (if is_connect req then req.host else net.escaped_path url))

  -- A CONNECT request over HTTP/2 is reported under its authority, as URI and as path, if that is
  -- not empty.
  pub connect_host :
      req.proto_major ≡ pos 2
      → req.method ≡ "CONNECT"
      → req.host ≢ ""
      → (parse_uri net req url ≡ req.host) × (uri_path net req url ≡ req.host)
  unfolding parse_uri uri_path
  connect_host two connect named =
      let is : is_connect req ≡ true = rw (two, connect) in
      let full : str_eq req.host "" ≡ false = ground (arith, eq_iff req.host "") in
      (rw (is, full), rw (is, full, full))

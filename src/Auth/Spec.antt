-- ===== src/Auth/Spec.antt =====
-- What the documentation of handlers/auth promises of a request, with no reference to the code: the
-- header is `<provider> <apiKey>` with no other space, the finder is asked for the key, and
-- whatever goes wrong is reported with the status 401.
use golang_service.Prelude.{◌≡◌, ◌≢◌, String, Option, none, some, List, [], ◌∷◌}
use golang_service.Errors.{Error, ◌<>◌, no_header, invalid_format, bad_provider, invalid_key}
use golang_service.Go.Strings.{Lacks}
use golang_service.Http.{
  Any, text, Request, header_values, Outcome, done, panicked, Panicked, World, Writer, Handler,
  FailureHandler,
}
use golang_service.Auth.User.{save_user}
use golang_service.Auth.Keys.{Finder, ApiKey, XapiKey, status_unauthorized}

-- The header is the provider, one space and the key.
pub record Credential (header provider key : String) : Type 0 where
  pub form : header ≡ provider <> String.◌∷◌ " " key
  pub provider_word : Lacks " " provider
  pub key_word : Lacks " " key

abbrev pub Result : Type 0
Result = Outcome (Unit {0}) × World

-- The three ways in which asking the finder for a key may end, in the state `s`.
pub data Answers (finder : Finder) (on_error : FailureHandler) (h : Handler) (key : String)
    (w : Writer) (req : Request) (s : World) (r : Result) : Type 0 where
  crashed :
      (v : Option Panicked) (s' : World)
      → finder (text key) req s ≡ (panicked v, s')
      → r ≡ (panicked v, s')
      → Answers finder on_error h key w req s r
  refused :
      (user : Option Any) (err : Error) (s' : World)
      → finder (text key) req s ≡ (done (user, some err), s')
      → r ≡ on_error w req (invalid_key key err) status_unauthorized s'
      → Answers finder on_error h key w req s r
  admitted :
      (user : Option Any) (s' : World)
      → finder (text key) req s ≡ (done (user, none), s')
      → r ≡ h w (save_user req user) s'
      → Answers finder on_error h key w req s r

pub data Runs (a : ApiKey) (h : Handler) (w : Writer) (req : Request) (s : World) (r : Result)
    : Type 0 where
  missing :
      header_values req.header "Authorization" ≡ []
      → r ≡ a.on_error w req no_header status_unauthorized s
      → Runs a h w req s r
  malformed :
      (first : String) (more : List String)
      → header_values req.header "Authorization" ≡ first ∷ more
      → ((p k : String) → ¬ Credential first p k)
      → r ≡ a.on_error w req (invalid_format "<provider> <apiKey>" first) status_unauthorized s
      → Runs a h w req s r
  other_provider :
      (first : String) (more : List String) (p k : String)
      → header_values req.header "Authorization" ≡ first ∷ more
      → Credential first p k
      → p ≢ a.provider
      → r ≡ a.on_error w req (bad_provider p a.provider) status_unauthorized s
      → Runs a h w req s r
  asked :
      (first : String) (more : List String) (k : String)
      → header_values req.header "Authorization" ≡ first ∷ more
      → Credential first a.provider k
      → Answers a.finder a.on_error h k w req s r
      → Runs a h w req s r

-- The `X-Api-Key` header holds the key and nothing else.
pub data RunsX (x : XapiKey) (h : Handler) (w : Writer) (req : Request) (s : World) (r : Result)
    : Type 0 where
  missing :
      header_values req.header "X-Api-Key" ≡ []
      → r ≡ x.on_error w req no_header status_unauthorized s
      → RunsX x h w req s r
  asked :
      (first : String) (more : List String)
      → header_values req.header "X-Api-Key" ≡ first ∷ more
      → Answers x.finder x.on_error h first w req s r
      → RunsX x h w req s r

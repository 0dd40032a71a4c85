-- ===== src/Auth/Keys.antt =====
-- handlers/auth/apikey.go, xapikey.go, finder.go: the middlewares.
use golang_service.Prelude.{String, Option, none, some, List, [], ◌∷◌, if◌then◌else◌}
use golang_service.Prelude.Int.{ℤ, pos}
use golang_service.Prelude.Text.{str_eq}
use golang_service.Errors.{Error, no_header, invalid_format, bad_provider, invalid_key}
use golang_service.Go.Strings.{split}
use golang_service.Http.{
  Any, text, Request, header_values, Action, Effect, ◌>>=◌, Writer, Handler, FailureHandler,
}
use golang_service.Auth.User.{save_user}

-- `Finder`, `FinderFunc`: the user, nil or not, and the error
abbrev pub Finder : Type 0
Finder = Any → Request → Action (Option Any × Option Error)

abbrev pub status_unauthorized : ℤ
status_unauthorized = pos 401

pub record ApiKey : Type 0 where
  pub provider : String
  pub finder : Finder
  pub on_error : FailureHandler

pub record XapiKey : Type 0 where
  pub finder : Finder
  pub on_error : FailureHandler

-- what is done with the finder's answer
unfoldable pub admit :
    FailureHandler → Handler → String → Writer → Request → Option Any → Option Error → Effect
admit on_error h key w req user (some err) =
    on_error w req (invalid_key key err) status_unauthorized
admit on_error h key w req user none = h w (save_user req user)

-- the tail that the two `Handler` methods share: look the key up, then refuse or go on
unfoldable pub with_key : Finder → FailureHandler → Handler → String → Handler
unfolding admit
with_key finder on_error h key w req = do
  found ← finder (text key) req
  admit on_error h key w req found.0 found.1

-- `parts[0], parts[1]`, where there are two
abbrev pub as_pair : List String → Option (String × String)
as_pair (p ∷ k ∷ []) = some (p, k)
as_pair _ = none

unfoldable pub check_parts : ApiKey → Handler → String → Option (String × String) → Handler
unfolding with_key
check_parts a h header none w req =
    a.on_error w req (invalid_format "<provider> <apiKey>" header) status_unauthorized
check_parts a h header (some (provider, value)) w req =
    if str_eq provider a.provider
    then with_key a.finder a.on_error h value w req
    else a.on_error w req (bad_provider provider a.provider) status_unauthorized

unfoldable pub check_header : ApiKey → Handler → List String → Handler
unfolding check_parts split
check_header a h [] w req = a.on_error w req no_header status_unauthorized
check_header a h (first ∷ more) w req = check_parts a h first (as_pair (split " " first)) w req

-- `(*APIKey).Handler`
unfoldable pub api_key_handler : ApiKey → Handler → Handler
unfolding check_header
api_key_handler a h w req = check_header a h (header_values req.header "Authorization") w req

-- `(*APIKey).Then` and `ThenFunc`; a function is the handler that calls it
unfoldable pub then_handler : ApiKey → Handler → Handler
unfolding api_key_handler
then_handler a h = api_key_handler a h

unfoldable pub then_func : ApiKey → Handler → Handler
unfolding api_key_handler
then_func a fn = api_key_handler a fn

unfoldable pub check_x_header : XapiKey → Handler → List String → Handler
unfolding with_key
check_x_header x h [] w req = x.on_error w req no_header status_unauthorized
check_x_header x h (first ∷ more) w req = with_key x.finder x.on_error h first w req

-- `(*XAPIKey).Handler`
unfoldable pub x_api_key_handler : XapiKey → Handler → Handler
unfolding check_x_header
x_api_key_handler x h w req = check_x_header x h (header_values req.header "X-Api-Key") w req

-- `(*XAPIKey).Then` and `ThenFunc`
unfoldable pub x_then_handler : XapiKey → Handler → Handler
unfolding x_api_key_handler
x_then_handler x h = x_api_key_handler x h

unfoldable pub x_then_func : XapiKey → Handler → Handler
unfolding x_api_key_handler
x_then_func x fn = x_api_key_handler x fn

-- `NewAPIKey`, `NewXAPIKey`
unfoldable pub new_api_key : String → Finder → FailureHandler → ApiKey
new_api_key provider finder on_error = record {
  provider = provider;
  finder = finder;
  on_error = on_error;
}

unfoldable pub new_x_api_key : Finder → FailureHandler → XapiKey
new_x_api_key finder on_error = record { finder = finder; on_error = on_error }

-- ===== src/Auth/Laws/Header.antt =====
-- The middleware with the header X-Api-Key does what the specification says, and nothing else.
use golang_service.Prelude.{◌≡◌, refl, sym, ap, subst, ◌∙◌, ◌↔◌, String, List, [], ◌∷◌}
use golang_service.Http.{Request, header_values, World, Writer, Handler}
use golang_service.Auth.Keys.{XapiKey, check_x_header, x_api_key_handler}
use golang_service.Auth.Spec.{Result, RunsX}
use golang_service.Auth.Laws.{with_key-Answers, Answers-with_key}

module _ (x : XapiKey) (h : Handler) (w : Writer) (req : Request) (s : World) where
  x_api_key_header :
      {values : List String}
      → header_values req.header "X-Api-Key" ≡ values
      → x_api_key_handler x h w req s ≡ check_x_header x h values w req s
  unfolding x_api_key_handler
  x_api_key_header e = ap (λ vs. check_x_header x h vs w req s) e

  x_api_key-RunsX : RunsX x h w req s (x_api_key_handler x h w req s)
  unfolding check_x_header
  x_api_key-RunsX = go (header_values req.header "X-Api-Key") refl
    where
      go :
          (values : List String)
          → header_values req.header "X-Api-Key" ≡ values
          → RunsX x h w req s (x_api_key_handler x h w req s)
      go [] e = RunsX.missing e (x_api_key_header e)
      go (first ∷ more) e =
          rw (x_api_key_header e)
            (RunsX.asked first more e (with_key-Answers x.finder x.on_error h first w req s))

  RunsX-x_api_key : {r : Result} → RunsX x h w req s r → r ≡ x_api_key_handler x h w req s
  unfolding check_x_header
  RunsX-x_api_key (RunsX.missing e q) = q ∙ sym (x_api_key_header e)
  RunsX-x_api_key (RunsX.asked first more e q) =
      Answers-with_key x.finder x.on_error h first w req s q ∙ sym (x_api_key_header e)

-- The result of the `X-Api-Key` middleware is the one that the documentation allows: the handler
-- goes on exactly if the finder accepts the header's first value, taken whole as the key; a missing
-- header and a key that is refused each report their own error with the status 401.
pub x_api_key_handler-RunsX :
    (x : XapiKey) (h : Handler) (w : Writer) (req : Request) (s : World) (r : Result)
    → RunsX x h w req s r ↔ (r ≡ x_api_key_handler x h w req s)
x_api_key_handler-RunsX x h w req s r = (
  RunsX-x_api_key x h w req s,
  λ e. subst (RunsX x h w req s) (sym e) (x_api_key-RunsX x h w req s),
)

-- ===== src/Auth/Laws.antt =====
-- The middleware with the header Authorization does what the specification says, and nothing else;
-- `Header` is about the one with the header X-Api-Key.
pub mod Header
use golang_service.Prelude.{
  ◌≡◌, refl, sym, ap, subst, ◌∙◌, ◌↔◌, inl, inr, false, String, Option, none, some, List, [], ◌∷◌,
  arith, Bool-cases,
}
use golang_service.Prelude.Text.{str_eq, eq_iff, eq_refl}
use golang_service.Go.Strings.{split, split-pair, split-pair_inverse}
use golang_service.Errors.{Error}
use golang_service.Http.{
  Any, text, Request, header_values, Outcome, done, panicked, Panicked, World, Writer, Handler,
  FailureHandler, >>=-done, >>=-panicked,
}
use golang_service.Errors.{no_header, invalid_key}
use golang_service.Auth.User.{save_user}
use golang_service.Auth.Keys.{
  status_unauthorized, Finder, ApiKey, admit, with_key, as_pair, check_parts, check_header,
  api_key_handler,
}
use golang_service.Auth.Spec.{
  Credential, Result, Answers, Runs, crashed, refused, admitted, malformed, other_provider,
}

module _ (finder : Finder) (on_error : FailureHandler) (h : Handler) (key : String) (w : Writer)
    (req : Request) (s : World) where
  with_key_admitted :
      (user : Option Any) (s' : World)
      → finder (text key) req s ≡ (done (user, none), s')
      → with_key finder on_error h key w req s ≡ h w (save_user req user) s'
  unfolding with_key admit
  with_key_admitted user s' e = >>=-done (finder (text key) req) _ s e

  with_key_refused :
      (user : Option Any) (err : Error) (s' : World)
      → finder (text key) req s ≡ (done (user, some err), s')
      → with_key finder on_error h key w req s
        ≡ on_error w req (invalid_key key err) status_unauthorized s'
  unfolding with_key admit
  with_key_refused user err s' e = >>=-done (finder (text key) req) _ s e

  with_key_crashed :
      (v : Option Panicked) (s' : World)
      → finder (text key) req s ≡ (panicked v, s')
      → with_key finder on_error h key w req s ≡ (panicked v, s')
  unfolding with_key admit
  with_key_crashed v s' e = >>=-panicked (finder (text key) req) _ s e

  with_key-Answers : Answers finder on_error h key w req s (with_key finder on_error h key w req s)
  with_key-Answers = go (finder (text key) req s) refl
    where
      go :
          (found : Outcome (Option Any × Option Error) × World)
          → finder (text key) req s ≡ found
          → Answers finder on_error h key w req s (with_key finder on_error h key w req s)
      go (done (user, none), s') e = admitted user s' e (with_key_admitted user s' e)
      go (done (user, some err), s') e = refused user err s' e (with_key_refused user err s' e)
      go (panicked v, s') e = crashed v s' e (with_key_crashed v s' e)

  Answers-with_key :
      {r : Result}
      → Answers finder on_error h key w req s r
      → r ≡ with_key finder on_error h key w req s
  Answers-with_key (crashed v s' e q) = q ∙ sym (with_key_crashed v s' e)
  Answers-with_key (refused user err s' e q) = q ∙ sym (with_key_refused user err s' e)
  Answers-with_key (admitted user s' e q) = q ∙ sym (with_key_admitted user s' e)

as_pair-eq-some : (ps : List String) {p k : String} → as_pair ps ≡ some (p, k) → ps ≡ p ∷ k ∷ []
as_pair-eq-some [] e = cc
as_pair-eq-some (a ∷ []) e = cc
as_pair-eq-some (a ∷ b ∷ []) e = cc
as_pair-eq-some (a ∷ b ∷ c ∷ ps) e = cc

-- The code's test of the parts accepts exactly the documented form.
pub split-Credential :
    (header p k : String) → (as_pair (split " " header) ≡ some (p, k)) ↔ Credential header p k
split-Credential header p k = (
  λ e.
      let (form, lp, lk) = split-pair_inverse " " header p k (as_pair-eq-some _ e) in
      record { form = form; provider_word = lp; key_word = lk },
  λ c. ap as_pair (ap (split " ") c.form ∙ split-pair " " p k c.provider_word c.key_word),
)

module _ (a : ApiKey) (h : Handler) (w : Writer) (req : Request) (s : World) where
  api_key_header :
      {values : List String}
      → header_values req.header "Authorization" ≡ values
      → api_key_handler a h w req s ≡ check_header a h values w req s
  unfolding api_key_handler
  api_key_header e = ap (λ vs. check_header a h vs w req s) e

  check_header_parts :
      (first : String) (more : List String) {parts : Option (String × String)}
      → as_pair (split " " first) ≡ parts
      → check_header a h (first ∷ more) w req s ≡ check_parts a h first parts w req s
  unfolding check_header
  check_header_parts first more e = ap (λ ps. check_parts a h first ps w req s) e

  check_parts-Runs :
      (first : String) (more : List String) (parts : Option (String × String))
      → header_values req.header "Authorization" ≡ first ∷ more
      → as_pair (split " " first) ≡ parts
      → Runs a h w req s (check_parts a h first parts w req s)
  unfolding check_parts
  check_parts-Runs first more none e f =
      malformed first more e (λ p k c. cc (f, (split-Credential first p k).1 c)) refl
  check_parts-Runs first more (some (p, k)) e f = elim (Bool-cases (str_eq p a.provider)) [
    | inl same ↦ rw same (
        Runs.asked first more k e
          (subst (λ q. Credential first q k) ((eq_iff p a.provider).0 same)
            ((split-Credential first p k).0 f))
          (with_key-Answers a.finder a.on_error h k w req s))
    | inr other ↦ rw other (
        other_provider first more p k e ((split-Credential first p k).0 f)
          (ground (arith, eq_iff p a.provider)) refl)
  ]

  check_parts_none :
      (first : String)
      → ((p k : String) → ¬ Credential first p k)
      → as_pair (split " " first) ≡ none
  check_parts_none first bad = go (as_pair (split " " first)) refl
    where
      go :
          (parts : Option (String × String))
          → as_pair (split " " first) ≡ parts
          → as_pair (split " " first) ≡ none
      go none e = e
      go (some (p, k)) e = absurd (bad p k ((split-Credential first p k).0 e))

  header_missing :
      header_values req.header "Authorization" ≡ []
      → api_key_handler a h w req s ≡ a.on_error w req no_header status_unauthorized s
  unfolding check_header
  header_missing e = api_key_header e

  api_key-Runs : Runs a h w req s (api_key_handler a h w req s)
  api_key-Runs = go (header_values req.header "Authorization") refl
    where
      go :
          (values : List String)
          → header_values req.header "Authorization" ≡ values
          → Runs a h w req s (api_key_handler a h w req s)
      go [] e = Runs.missing e (header_missing e)
      go (first ∷ more) e =
          rw (api_key_header e ∙ check_header_parts first more refl)
            (check_parts-Runs first more (as_pair (split " " first)) e refl)

  Runs-api_key : {r : Result} → Runs a h w req s r → r ≡ api_key_handler a h w req s
  unfolding check_header check_parts
  Runs-api_key (Runs.missing e q) = q ∙ sym (api_key_header e)
  Runs-api_key (malformed first more e bad q) =
      q ∙ sym (api_key_header e ∙ check_header_parts first more (check_parts_none first bad))
  Runs-api_key (other_provider first more p k e c n q) =
      let differs : str_eq p a.provider ≡ false = ground (arith, eq_iff p a.provider) in
      q
      ∙ sym (
          api_key_header e
          ∙ check_header_parts first more ((split-Credential first p k).1 c)
          ∙ rw differs)
  Runs-api_key (Runs.asked first more k e c q) =
      Answers-with_key a.finder a.on_error h k w req s q
      ∙ sym (
          api_key_header e
          ∙ check_header_parts first more ((split-Credential first a.provider k).1 c)
          ∙ rw (eq_refl a.provider))

-- The middleware's result is the one result that the documentation allows: the handler goes on
-- exactly with a header `<provider> <apiKey>` whose key the finder accepts, and each other case
-- reports its own error with the status 401.
pub api_key_handler-Runs :
    (a : ApiKey) (h : Handler) (w : Writer) (req : Request) (s : World) (r : Result)
    → Runs a h w req s r ↔ (r ≡ api_key_handler a h w req s)
api_key_handler-Runs a h w req s r =
    (Runs-api_key a h w req s, λ e. subst (Runs a h w req s) (sym e) (api_key-Runs a h w req s))

-- ===== src/Chains/Identity.antt =====
-- The authentication of handlers/auth and `LoggingContextHandler` (handlers/context.go) round each
-- other, in either order: the request that the handler gets.
mod Tests
use golang_service.Prelude.{◌≡◌, refl, sym, ap, ◌∙◌, String, Option, none, some}
use golang_service.Prelude.Text.{lookup}
use golang_service.Errors.{Error}
use golang_service.Http.{
  Any, any, Fields, World, Writer, Request, Handler, FailureHandler, done, ContextValue, Context,
  Url, user_key, value_of, with_context,
}
use golang_service.Auth.User.{save_user, get_user}
use golang_service.Auth.Keys.{new_api_key, api_key_handler}
use golang_service.Auth.Spec.{Runs, admitted}
use golang_service.Auth.Laws.{api_key_handler-Runs}
use golang_service.Log.Entry.{fields_in, over}
use golang_service.Log.Interface.{FieldLogger, Laws, lookup-kept}
use golang_service.Logging.Requests.{Net}
use golang_service.Logging.Sinks.Structured.{
  Texts, ambient_fields, ambient_context, context_handler,
}
use golang_service.Chains.Refused.{looking, Accepted}

-- what `GetUser` answers where a user was looked up, and where none was
abbrev pub known_user : Option Any → Option ContextValue → Option ContextValue
known_user none before = before
known_user (some user) before = some (any user)

fields_in-save_user :
    (r : Request) (user : Option Any) → fields_in (save_user r user).context ≡ fields_in r.context
unfolding fields_in save_user value_of
fields_in-save_user r none = refl
fields_in-save_user r (some user) = refl

get_user-known_user :
    (r : Request) (user : Option Any) → get_user (save_user r user) ≡ known_user user (get_user r)
unfolding get_user save_user value_of
get_user-known_user r none = refl
get_user-known_user r (some user) = refl

save_user_context :
    (r : Request) (user : Option Any) → save_user r user ≡ with_context r (save_user r user).context
unfolding save_user
save_user_context r none = refl
save_user_context r (some user) = refl

module _ {L : Type 0} (f : FieldLogger L) (laws : Laws f) (net : Net) (x : Texts) (k : String)
    (logger : L) where
  ambient_context-fields :
      (id : String) (r : Request) (u : Url)
      → lookup k (fields_in (ambient_context f net x logger id r u))
        ≡ over
            (lookup k (ambient_fields f net x id r u))
            (over (lookup k (fields_in r.context)) (lookup k (f.fields logger)))
  unfolding ambient_context
  ambient_context-fields id r u =
      lookup-kept f laws k logger r.context (ambient_fields f net x id r u)

  ambient_context-user :
      (id : String) (r : Request) (u : Url)
      → value_of (ambient_context f net x logger id r u) user_key ≡ value_of r.context user_key
  unfolding ambient_context
  ambient_context-user id r u =
      laws.kept_apart user_key
        (f.with_kv (f.in_context logger r.context) (ambient_fields f net x id r u)) r.context
        (λ e. cc)

  ambient_fields-save_user :
      (id : String) (r : Request) (user : Option Any) (u : Url)
      → ambient_fields f net x id (save_user r user) u ≡ ambient_fields f net x id r u
  unfolding ambient_fields save_user
  ambient_fields-save_user id r none u = refl
  ambient_fields-save_user id r (some user) u = refl

  save_user-url : (r : Request) (user : Option Any) → (save_user r user).url ≡ r.url
  unfolding save_user
  save_user-url r none = refl
  save_user-url r (some user) = refl

module _ {L : Type 0} (f : FieldLogger L) (net : Net) (x : Texts) (k : String) (logger : L)
    (uuid : World → String) (req : Request) (s : World) (user : Option Any) where
  abbrev ambient : Fields
  ambient = ambient_fields f net x (uuid s) req (s.urls req.url)

  -- The request with the user, and with the fields of the request under those of its own context
  -- and of the logger; nothing but its context is changed.
  pub record Identified (r : Request) : Type 0 where
    pub user_known : get_user r ≡ known_user user (get_user req)
    pub fields_shown :
        lookup k (fields_in r.context)
        ≡ over
            (lookup k ambient)
            (over (lookup k (fields_in req.context)) (lookup k (f.fields logger)))
    pub rest_kept : r ≡ with_context req r.context

module _ {L : Type 0} (f : FieldLogger L) (laws : Laws f) (net : Net) (x : Texts) (k : String)
    (logger : L) (uuid : World → String) (req : Request) (s : World) (user : Option Any) where
  abbrev fields_here : Fields
  fields_here = ambient f net x k logger uuid req s user

  abbrev IdentifiedHere : Request → Type 0
  IdentifiedHere = Identified f net x k logger uuid req s user

  -- the context of the request with the user, and the user in the request's new context
  abbrev pub user_first : Request
  user_first =
      let r = save_user req user in
      with_context r (ambient_context f net x logger (uuid s) r (s.urls r.url))

  abbrev pub user_last : Request
  user_last =
      save_user (with_context req (ambient_context f net x logger (uuid s) req (s.urls req.url)))
        user

  user_first-Identified : IdentifiedHere user_first
  unfolding get_user
  user_first-Identified =
      let r = save_user req user in
      let u = s.urls r.url in
      let same : ambient_fields f net x (uuid s) r u ≡ fields_here =
        ambient_fields-save_user f laws net x k logger (uuid s) req user u
        ∙ ap (λ p. ambient_fields f net x (uuid s) req (s.urls p))
            (save_user-url f laws net x k logger req user) in
      record {
        user_known =
            ambient_context-user f laws net x k logger (uuid s) r u ∙ get_user-known_user req user;
        fields_shown =
            ambient_context-fields f laws net x k logger (uuid s) r u
            ∙ ap
                (λ fs.
                  over (lookup k fs)
                    (over (lookup k (fields_in r.context)) (lookup k (f.fields logger))))
                same
            ∙ ap
                (λ fs.
                  over (lookup k fields_here) (over (lookup k fs) (lookup k (f.fields logger))))
                (fields_in-save_user req user);
        rest_kept =
            ap (λ q. with_context q (ambient_context f net x logger (uuid s) r u))
              (save_user_context req user);
      }

  user_last-Identified : IdentifiedHere user_last
  unfolding get_user
  user_last-Identified =
      let u = s.urls req.url in
      let r = with_context req (ambient_context f net x logger (uuid s) req u) in
      record {
        user_known =
            get_user-known_user r user
            ∙ ap (known_user user) (ambient_context-user f laws net x k logger (uuid s) req u);
        fields_shown =
            ap (lookup k) (fields_in-save_user r user)
            ∙ ambient_context-fields f laws net x k logger (uuid s) req u;
        rest_kept = save_user_context r user;
      }

  module _ (provider : String) (users : Any → Option Any × Option Error) (on_error : FailureHandler)
      (accepted : Accepted provider users req user) where
    api_key_handler-lets_in :
        (h : Handler) (w : Writer) (ctx : Context)
        → api_key_handler
            (new_api_key provider (looking users) on_error)
            h
            w
            (with_context req ctx)
            s
          ≡ h w (save_user (with_context req ctx) user) s
    unfolding new_api_key
    api_key_handler-lets_in h w ctx = sym (
        (api_key_handler-Runs (new_api_key provider (looking users) on_error) h w
            (with_context req ctx) s _).0
          (Runs.asked accepted.first accepted.more accepted.key accepted.header accepted.credential
            (admitted user s (ap (λ r. (done r, s)) accepted.found) refl)))

    -- A request with a header `<provider> <apiKey>` whose key the finder has comes to the handler
    -- with the same user and the same fields in its context whether the authentication is round the
    -- logging context or inside it: `GetUser` answers the key's user, and under any name a logger
    -- in that context shows what the context handler says of the request, else a field of the
    -- request's own context, else one of the context handler's logger. Nothing else of the request
    -- is changed. This supposes that the finder only looks the key up, and that the logger keeps
    -- the laws of a `FieldLogger`.
    pub api_key_handler-context_handler :
        (h : Handler) (w : Writer)
        → let auth = api_key_handler (new_api_key provider (looking users) on_error) in
          let logging = context_handler f net x logger uuid in
          (outer : Request) × (inner : Request) × (auth (logging h) w req s ≡ h w outer s)
          × (logging (auth h) w req s ≡ h w inner s)
          × IdentifiedHere outer
          × IdentifiedHere inner
    unfolding context_handler
    api_key_handler-context_handler h w = (
      user_first,
      user_last,
      api_key_handler-lets_in (context_handler f net x logger uuid h) w req.context,
      api_key_handler-lets_in h w (ambient_context f net x logger (uuid s) req (s.urls req.url)),
      user_first-Identified,
      user_last-Identified,
    )

-- ===== src/Auth/User.antt =====
-- handlers/auth/user.go: the user that a request's context carries.
use golang_service.Prelude.{◌≡◌, refl, ◌≢◌, Option, none, some}
use golang_service.Http.{
  Any, any, ContextKey, ContextValue, user_key, log_key, other_key, with_value, value_of, Request,
  with_context,
}

-- `saveUser`; a nil user is none
unfoldable pub save_user : Request → Option Any → Request
save_user r none = r
save_user r (some user) = with_context r (with_value r.context user_key (any user))

-- `GetUser`
unfoldable pub get_user : Request → Option ContextValue
get_user r = value_of r.context user_key

-- A user that was saved is the one that `GetUser` finds; where none was given, it finds what it
-- found before. Every other value of the context is that of before.
pub get_user-save_user :
    (r : Request) (user : Option Any) (k : ContextKey)
    → k ≢ user_key
    → (get_user (save_user r user) ≡ elim user [ none ↦ get_user r | some u ↦ some (any u) ])
      × (value_of (save_user r user).context k ≡ value_of r.context k)
unfolding get_user save_user value_of
get_user-save_user r none k h = (refl, refl)
get_user-save_user r (some u) log_key h = (refl, refl)
get_user-save_user r (some u) user_key h = absurd (h refl)
get_user-save_user r (some u) (other_key n) h = (refl, refl)

-- ===== src/Http/Values.antt =====
-- Dynamic values, headers, contexts, URLs and requests.
use golang_service.Prelude.{
  ℕ, Bool, true, false, String, List, [], ◌∷◌, Option, none, some, ◌==◌, if◌then◌else◌,
}
use golang_service.Prelude.Int.{ℤ}
use golang_service.Prelude.Text.{lookup}
use golang_service.Errors.{Error}

-- A value of type `interface{}` that is not nil. An `object` is any other value, by its identity.
pub data Any : Type 0 where
  text : String → Any
  int : ℤ → Any
  -- a `float64` number of seconds, by its nanoseconds
  seconds : ℤ → Any
  err : Error → Any
  object : ℕ → Any

-- `logrus.Fields`, `log.KV`: each key once
abbrev pub Fields : Type 0
Fields = List (String × Any)

-- The private keys of the packages `log` and `auth` are of types of their own, so that they differ
-- from each other and from all other keys.
pub data ContextKey : Type 0 where
  log_key user_key : ContextKey
  other_key : ℕ → ContextKey

unfoldable pub key_eq : ContextKey → ContextKey → Bool
key_eq log_key log_key = true
key_eq user_key user_key = true
key_eq (other_key m) (other_key n) = m == n
key_eq _ _ = false

pub data ContextValue : Type 0 where
  kv : Fields → ContextValue
  any : Any → ContextValue

-- A context is its chain of values, the last one first.
abbrev pub Context : Type 0
Context = List (ContextKey × ContextValue)

-- `context.WithValue`
abbrev pub with_value : Context → ContextKey → ContextValue → Context
with_value ctx k v = (k, v) ∷ ctx

-- `ctx.Value(k)`
unfoldable pub value_of : Context → ContextKey → Option ContextValue
unfolding key_eq
value_of [] k = none
value_of ((j, v) ∷ ctx) k = if key_eq j k then some v else value_of ctx k

-- `http.Header`, by canonical names
abbrev pub Header : Type 0
Header = List (String × List String)

-- `header[name]`
unfoldable pub header_values : Header → String → List String
unfolding lookup
header_values h name = elim (lookup name h) [ none ↦ [] | some vs ↦ vs ]

-- `header.Get(name)`, of a canonical name
unfoldable pub header_get : Header → String → String
unfolding header_values
header_get h name = elim (header_values h name) [ [] ↦ "" | v ∷ vs ↦ v ]

pub record Url : Type 0 where
  pub scheme : String
  pub host : String
  pub path : String
  pub raw_path : String
  pub raw_query : String

-- `url` is a pointer: the place of the URL in the world.
pub record Request : Type 0 where
  pub method : String
  pub proto : String
  pub proto_major : ℤ
  pub host : String
  pub remote_addr : String
  pub request_uri : String
  pub header : Header
  pub url : ℕ
  pub context : Context

-- `req.WithContext(ctx)`: a shallow copy
abbrev pub with_context : Request → Context → Request
with_context req ctx = record req { context = ctx }

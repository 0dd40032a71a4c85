-- ===== src/Errors.antt =====
-- The `error` values that the packages build or pass on, and their `Error` methods:
-- handlers/auth/apikey.go, validate/validate.go. An error of other code is its text.
use Prim.Native.String
use golang_service.Prelude.{String}

pub data Error : Type 0 where
  -- an error of a package outside the repository, by its text
  foreign : String → Error
  -- auth.NoHeaderError
  no_header : Error
  -- auth.InvalidFormatError{format, header}
  invalid_format : String → String → Error
  -- auth.BadProviderError{provider, expected}
  bad_provider : String → String → Error
  -- auth.InvalidKeyError{key, err}
  invalid_key : String → Error → Error
  -- validate.IOError{err}
  io_error : Error → Error

infixl 65 ◌<>◌
abbrev pub ◌<>◌ : String → String → String
s <> t = String.◌++◌ s t

-- `Error()`
unfoldable pub error_message : Error → String
error_message (foreign text) = text
error_message no_header = "no Authorization header provided"
error_message (invalid_format format header) =
    "provided Authorization header in invalid format, expecting: " <> format <> " got: " <> header
error_message (bad_provider provider expected) =
    "Authroziation provider does not match. Expecting: " <> expected <> " got: " <> provider
error_message (invalid_key key err) =
    "provided api key: '" <> key <> "' is not valid: " <> error_message err
error_message (io_error err) = error_message err

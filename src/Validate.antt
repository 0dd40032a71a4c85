-- ===== src/Validate.antt =====
-- validate/validate.go: a body is read, unmarshalled into an item and the item validates itself.
pub mod Laws
mod Tests
use golang_service.Prelude.{String, Option, none, some, if◌then◌else◌}
use golang_service.Prelude.Text.{str_eq}
use golang_service.Errors.{Error, io_error}

-- `io.Reader` as `ioutil.ReadAll` reads it: the bytes, and the error that stopped the reading
abbrev pub Body : Type 0
Body = String × Option Error

-- `func(data []byte, v interface{}) error`, which writes into the item that `v` points to
abbrev pub Unmarshaller : Type 0 → Type 0
Unmarshaller V = String → V → V × Option Error

-- `Validatable`: `Validate` may change the item as well. The context is one of its arguments.
abbrev pub Validatable : Type 0 → Type 0
Validatable V = V → V × Option Error

unfoldable pub validate_item : {V : Type 0} → Validatable V → V × Option Error → V × Option Error
validate_item validate (v, some err) = (v, some err)
validate_item validate (v, none) = validate v

-- `Reader`
unfoldable pub reader : {V : Type 0} → Body → Unmarshaller V → Validatable V → V → V × Option Error
unfolding validate_item
reader (data_read, some err) unmarshal validate v = (v, some (io_error err))
reader (data_read, none) unmarshal validate v = validate_item validate (unmarshal data_read v)

-- the unmarshaller of `JSONRequest`, on `json.Unmarshal`
unfoldable pub or_empty_object : {V : Type 0} → Unmarshaller V → Unmarshaller V
or_empty_object json content v = json (if str_eq content "" then "{}" else content) v

-- `JSONRequest`, `XMLRequest`, on the packages' `Unmarshal`
unfoldable pub json_request :
    {V : Type 0} → Unmarshaller V → Body → Validatable V → V → V × Option Error
unfolding reader or_empty_object
json_request json body validate v = reader body (or_empty_object json) validate v

unfoldable pub xml_request :
    {V : Type 0} → Unmarshaller V → Body → Validatable V → V → V × Option Error
unfolding reader
xml_request xml body validate v = reader body xml validate v

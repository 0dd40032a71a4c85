-- ===== src/Validate/Tests.antt =====
-- Runs of the readers with an item that must not be empty, and the theorems at concrete inputs.
use golang_service.Prelude.{◌≡◌, refl, ◌↔◌, String, none, some, if◌then◌else◌}
use golang_service.Prelude.Text.{str_eq}
use golang_service.Errors.{foreign, io_error}
use golang_service.Validate.{Unmarshaller, Validatable, reader, json_request, xml_request}
use golang_service.Validate.Laws.{Answers, requests_answered}

abbrev take_text : Unmarshaller String
take_text content v = (content, none)

abbrev named : Validatable String
named v = if str_eq v "" then (v, some (foreign "no name")) else (v, none)

reads :
    (reader ("a", none) take_text named "" ≡ ("a", none))
    × (reader ("", none) take_text named "x" ≡ ("", some (foreign "no name")))
    × (reader ("a", some (foreign "eof")) take_text named "x"
        ≡ ("x", some (io_error (foreign "eof"))))
    × (json_request take_text ("", none) named "x" ≡ ("{}", none))
    × (xml_request take_text ("", none) named "x" ≡ ("", some (foreign "no name")))
unfolding reader json_request xml_request
reads = (refl, refl, refl, refl, refl)

requests_answered_example :
    ((("{}", none) ≡ json_request take_text ("", none) named "x")
      ↔ Answers take_text named "{}" none "x" ("{}", none))
    × ((("{}", none) ≡ xml_request take_text ("", none) named "x")
        ↔ Answers take_text named "" none "x" ("{}", none))
requests_answered_example = requests_answered take_text take_text named ("", none) "x" ("{}", none)

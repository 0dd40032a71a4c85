-- ===== src/Validate/Laws.antt =====
-- validate/validate.go: what a request is answered with, by which of the three steps fails first.
use golang_service.Prelude.{
  ◌≡◌, ◌↔◌, refl, sym, ap, subst, ◌∙◌, Option, none, some, String, if◌then◌else◌,
}
use golang_service.Prelude.Text.{str_eq}
use golang_service.Errors.{Error, io_error}
use golang_service.Validate.{
  Body, Unmarshaller, Validatable, validate_item, reader, or_empty_object, json_request,
  xml_request,
}

module _ {V : Type 0} (u : Unmarshaller V) (validate : Validatable V) (content : String)
    (failure : Option Error) (v : V) where
  -- The documented outcomes, by the item that is left and the error: the body was not read to the
  -- end, and the item is as it was; the bytes were refused by the unmarshaller; or the item that it
  -- filled has validated itself.
  pub data Answers (r : V × Option Error) : Type 0 where
    unread : (err : Error) → failure ≡ some err → r ≡ (v, some (io_error err)) → Answers r
    unparsed :
        (filled : V) (err : Error)
        → failure ≡ none
        → u content v ≡ (filled, some err)
        → r ≡ (filled, some err)
        → Answers r
    checked :
        (filled : V)
        → failure ≡ none
        → u content v ≡ (filled, none)
        → r ≡ validate filled
        → Answers r

module _ {V : Type 0} (u : Unmarshaller V) (validate : Validatable V) where
  item-Answers :
      (content : String) (v : V) (m : V × Option Error)
      → u content v ≡ m
      → Answers u validate content none v (validate_item validate m)
  unfolding validate_item
  item-Answers content v (filled, none) e = checked filled refl e refl
  item-Answers content v (filled, some err) e = unparsed filled err refl e refl

  reader-Answers :
      (body : Body) (v : V) → Answers u validate body.0 body.1 v (reader body u validate v)
  unfolding reader
  reader-Answers (content, none) v = item-Answers content v (u content v) refl
  reader-Answers (content, some err) v = unread err refl refl

  Answers-reader :
      (body : Body) (v : V) (r : V × Option Error)
      → Answers u validate body.0 body.1 v r
      → r ≡ reader body u validate v
  unfolding reader validate_item
  Answers-reader body v r (unread err f q) = q ∙ ap (λ b. reader (body.0, b) u validate v) (sym f)
  Answers-reader body v r (unparsed filled err f e q) =
      q ∙ ap (validate_item validate) (sym e) ∙ ap (λ b. reader (body.0, b) u validate v) (sym f)
  Answers-reader body v r (checked filled f e q) =
      q ∙ ap (validate_item validate) (sym e) ∙ ap (λ b. reader (body.0, b) u validate v) (sym f)

  reader-exactly :
      (body : Body) (v : V) (r : V × Option Error)
      → (r ≡ reader body u validate v) ↔ Answers u validate body.0 body.1 v r
  reader-exactly body v r = (
    λ e. subst (Answers u validate body.0 body.1 v) (sym e) (reader-Answers body v),
    Answers-reader body v r,
  )

-- the bytes that `JSONRequest` hands to `json.Unmarshal`
abbrev pub json_content : String → String
json_content content = if str_eq content "" then "{}" else content

empty_object :
    {V : Type 0} (json : Unmarshaller V) (validate : Validatable V) (body : Body) (v : V)
    → json_request json body validate v ≡ reader (json_content body.0, body.1) json validate v
unfolding json_request reader or_empty_object
empty_object json validate (content, none) v = refl
empty_object json validate (content, some err) v = refl

-- `JSONRequest` and `XMLRequest` leave exactly the item and the error that the first step gives
-- which fails: reading the body, unmarshalling it, or the item's own validation; and `JSONRequest`
-- unmarshals an empty body as the object without fields, but still reports why it could not be
-- read.
pub requests_answered :
    {V : Type 0} (json xml : Unmarshaller V) (validate : Validatable V) (body : Body) (v : V)
    (r : V × Option Error)
    → ((r ≡ json_request json body validate v)
        ↔ Answers json validate (json_content body.0) body.1 v r)
      × ((r ≡ xml_request xml body validate v) ↔ Answers xml validate body.0 body.1 v r)
unfolding xml_request
requests_answered json xml validate body v r =
    let (f, g) = reader-exactly json validate (json_content body.0, body.1) v r in
    let same = empty_object json validate body v in
    ((λ e. f (e ∙ same), λ a. g a ∙ sym same), reader-exactly xml validate body v r)

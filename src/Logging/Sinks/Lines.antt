-- ===== src/Logging/Sinks/Lines.antt =====
-- handlers/healthd.go: what a reader of the documented format finds in a line,
-- `<unix_timestamp.ms>"<path>"<status>"<request_time>"<upstream_time>"<X-Forwarded-For header>`.
use text.Mathlib.TextLemmas.{append_assoc, cons-append, nil-append}
use golang_service.Prelude.{◌≡◌, ap, ◌∙◌, String, ◌∷◌}
use golang_service.Prelude.Int.{ℤ}
use golang_service.Errors.{◌<>◌}
use golang_service.Go.Decimal.{itoa, itoa-Lacks}
use golang_service.Go.Strings.{Lacks, split, split-append}
use golang_service.Http.{Request, Url, header_get}
use golang_service.Logging.Requests.{Net, parse_uri}
use golang_service.Logging.Sinks.Healthd.{Files, healthd_line}

-- one field and the quotation mark after it
split-field : (p s : String) → Lacks "\"" p → split "\"" (p <> ("\"" <> s)) ≡ p ∷ split "\"" s
split-field p s h =
    ap (λ q. split "\"" (p <> q)) (cons-append "\"" "" s ∙ ap (String.◌∷◌ "\"") (nil-append s))
    ∙ split-append "\"" p s h

regroup :
    (a p c d h : String)
    → a <> ("\"" <> p <> "\"") <> c <> "\"" <> d <> "\"" <> d <> "\"" <> h <> "\n"
      ≡ a
        <> ("\"" <> (p <> ("\"" <> (c <> ("\"" <> (d <> ("\"" <> (d <> ("\"" <> (h <> "\n"))))))))))
regroup a p c d h = simp append_assoc

split-fields :
    (a p c d h : String)
    → Lacks "\"" a
    → Lacks "\"" p
    → Lacks "\"" c
    → Lacks "\"" d
    → split "\"" (a <> ("\"" <> p <> "\"") <> c <> "\"" <> d <> "\"" <> d <> "\"" <> h <> "\n")
      ≡ a ∷ p ∷ c ∷ d ∷ d ∷ split "\"" (h <> "\n")
split-fields a p c d h la lp lc ld =
    ap (split "\"") (regroup a p c d h)
    ∙ split-field a _ la
    ∙ ap (λ fs. a ∷ fs)
        (split-field p _ lp
          ∙ ap (λ fs. p ∷ fs)
              (split-field c _ lc
                ∙ ap (λ fs. c ∷ fs)
                    (split-field d _ ld ∙ ap (λ fs. d ∷ fs) (split-field d (h <> "\n") ld))))

-- A reader who cuts a line at its quotation marks finds, in the documented order, the time, the
-- path as it is quoted, the status as a decimal, and the duration twice; the rest is the client's
-- header X-Forwarded-For as it came, with as many fields more as that has quotation marks. This
-- supposes that numbers of seconds have no quotation mark, and that quoting the path puts one at
-- each end and none inside.
pub split-healthd_line :
    (net : Net) (f : Files) (req : Request) (url : Url) (ts dur status : ℤ) (path : String)
    → ((n : ℤ) → Lacks "\"" (f.seconds3 n))
    → f.quote (parse_uri net req url) ≡ "\"" <> path <> "\""
    → Lacks "\"" path
    → split "\"" (healthd_line net f req url ts dur status)
      ≡ f.seconds3 ts
        ∷ path
        ∷ itoa status
        ∷ f.seconds3 dur
        ∷ f.seconds3 dur
        ∷ split "\"" (header_get req.header "X-Forwarded-For" <> "\n")
unfolding healthd_line
split-healthd_line net f req url ts dur status path numbers quoted plain = rw quoted (
    split-fields (f.seconds3 ts) path (itoa status) (f.seconds3 dur)
      (header_get req.header "X-Forwarded-For") (numbers ts) plain (itoa-Lacks status)
      (numbers dur))

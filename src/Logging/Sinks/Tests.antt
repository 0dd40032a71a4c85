-- ===== src/Logging/Sinks/Tests.antt =====
-- The theorems on the handlers that report, at concrete inputs.
use golang_service.Prelude.{arith, ◌⊎◌, inl, inr, ◌++◌, ◌≡◌, refl, [], ◌∷◌, none, some, String}
use golang_service.Prelude.Int.{pos}
use golang_service.Errors.{◌<>◌, Error}
use golang_service.Http.{
  header_get, Handler, World, done, panicked, with_error, with_text, StatsdClient, timing, count,
  opened, closed,
}
use golang_service.Http.Fixtures.{rec, request, url, world}
use golang_service.Logging.Calls.{make_logger, status_of, write_header}
use golang_service.Logging.Serve.{elapsed}
use golang_service.Logging.Tests.{net, page, boom}
use golang_service.Logging.Requests.{parse_uri, uri_path}
use golang_service.Logging.Sinks.Statsd.{new_statsd_handler, new_statsd_handler_sends}
use golang_service.Metrics.{StatsdClientConf}
use golang_service.Logging.Sinks.Healthd.{
  Files, FileHandler, healthd_line, file_serve_http, file_serve_http-reopens,
}
use golang_service.Logging.Sinks.Closing.{Balanced, serve_all, serve_all-Balanced}
use golang_service.Logging.Sinks.Lines.{split-healthd_line}
use golang_service.Go.Strings.{split, Lacks-split}
use golang_service.Go.Decimal.{itoa}

abbrev after : World
after = (page (make_logger rec world).0 (request []) (make_logger rec world).1).1

abbrev conf : StatsdClientConf
conf = record { host = "localhost"; port = "8125"; namespace = "app.live."; tags = "env:live" ∷ [] }

-- the library has a client for each address
abbrev connect : String → Error ⊎ StatsdClient
connect address = inr (record { address = address; prefix = ""; all_tags = [] })

new_statsd_handler_sends_example :
    ((e : Error) × (connect "localhost:8125" ≡ inl e)
      × (new_statsd_handler net connect conf page world ≡ (panicked (some (with_error e)), world)))
    ⊎ ((m : StatsdClient) × (connect "localhost:8125" ≡ inr m)
        × (handler : Handler) × (new_statsd_handler net connect conf page world
            ≡ (done handler, world))
        × (let tags =
              ("endpoint:" <> uri_path net (request []) url)
              ∷ ("statusCode:" <> itoa (status_of (make_logger rec world).0 after))
              ∷ "method:GET"
              ∷ "protocol:HTTP/1.1"
              ∷ [] in
            let client = record m {
              prefix = "app.live.";
              all_tags = m.all_tags ++ "env:live" ∷ [];
            } in
            handler rec (request []) world ≡ (
              done tt,
              record after {
                output =
                    timing client "request.response_time" (elapsed 500 500) tags
                    ∷ count client "request.count" (pos 1) tags
                    ∷ [];
              },
            )))
unfolding make_logger write_header
new_statsd_handler_sends_example =
    new_statsd_handler_sends net connect conf page world rec (request []) world after refl

abbrev files : Files
files = record {
  seconds3 = λ ns. "1.000";
  quote = λ s. "\"" <> s <> "\"";
  hour = λ t. "2017-01-01-10";
  open_error = λ name. none;
}

abbrev file : String
file = "/var/log/nginx/healthd/application.log.2017-01-01-10"

abbrev opened_world : World
opened_world = record world { output = opened file ∷ [] }

abbrev made : Handler → FileHandler
made h = record { path = "/var/log/nginx/healthd/"; base = none; handler = h; timestamp = "" }

file_serve_http-reopens_example : file_serve_http net files (made boom) rec (request []) world ≡ (
  panicked (some (with_text "oh-o")),
  record (make_logger rec opened_world).1 { output = opened file ∷ closed file ∷ [] },
)
unfolding make_logger
file_serve_http-reopens_example =
    file_serve_http-reopens net files boom rec (request []) world (make_logger rec opened_world).1
      (panicked (some (with_text "oh-o"))) refl refl

-- a client that puts a quotation mark into its header adds a field
split-healthd_line_example :
    split "\"" (
      healthd_line net files
        (request (("X-Forwarded-For", "1.2.3.4\"0" ∷ []) ∷ []))
        url
        (pos 1)
        (pos 2)
        (pos 404))
    ≡ "1.000" ∷ "/path?q=1" ∷ "404" ∷ "1.000" ∷ "1.000" ∷ "1.2.3.4" ∷ "0\n" ∷ []
unfolding split itoa header_get parse_uri
split-healthd_line_example =
    split-healthd_line net files (request (("X-Forwarded-For", "1.2.3.4\"0" ∷ []) ∷ [])) url (pos 1)
      (pos 2) (pos 404) "/path?q=1" (λ n. Lacks-split "\"" "1.000" refl) refl
      (Lacks-split "\"" "/path?q=1" refl)

-- two requests to a handler that panics
both_closed :
    (serve_all net files boom ((rec, request []) ∷ (rec, request []) ∷ []) world).output
    ≡ opened file ∷ closed file ∷ opened file ∷ closed file ∷ []
unfolding serve_all make_logger
both_closed = refl

serve_all-Balanced_example :
    Balanced world (serve_all net files boom ((rec, request []) ∷ (rec, request []) ∷ []) world)
serve_all-Balanced_example =
    serve_all-Balanced net files boom (λ w req s name. omega arith)
      ((rec, request []) ∷ (rec, request []) ∷ []) world

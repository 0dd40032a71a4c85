-- ===== src/Chains/Tests.antt =====
-- The theorems on composed middlewares, at concrete requests.
use golang_service.Prelude.{
  arith, ◌+◌, if◌then◌else◌, Option, none, String, List, ◌++◌, ◌≡◌, ◌⊎◌, refl, [], ◌∷◌, some,
}
use golang_service.Prelude.Int.{pos, ◌≤ℤ◌}
use golang_service.Prelude.Text.{lookup, str_eq}
use golang_service.Errors.{◌<>◌, foreign, Error, error_message}
use golang_service.Http.{
  done, StatsdClient, Output, entry, crash, emit, skip, timing, count, header_values, text, Any,
  Fields, World, Handler, Request, panicked, with_text, err,
}
use golang_service.Http.Fixtures.{recorder, rec, request, url, world}
use golang_service.Log.Entry.{fields_in, over}
use golang_service.Log.Methods.{info, error, formatted, plain, value}
use golang_service.Log.Entries.{entry_logger}
use golang_service.Log.Tests.{logger, logger-Laws}
use golang_service.Logging.Calls.{
  counter_at, set_counter, make_logger, status_of, size_of, write_header,
}
use golang_service.Logging.Wrapping.{write_call, run}
use golang_service.Logging.Serve.{Caller, log_serve_http, elapsed}
use golang_service.Logging.Requests.{parse_uri}
use golang_service.Logging.Tests.{boom, net, page, note}
use golang_service.Logging.Sinks.Structured.{
  Texts, request_fields, ambient_fields, structured_handler, context_handler,
  logging_context_handler,
}
use golang_service.Recovery.Middleware.{error_of, handle_all, new}
use golang_service.Chains.Status.{write_status, report, headed}
use golang_service.Auth.User.{save_user}
use golang_service.Auth.Keys.{api_key_handler, new_api_key}
use golang_service.Chains.Refused.{looking, Accepted, Accepted-or_401}
use golang_service.Logging.Sinks.Statsd.{statsd_tags, write_statsd_log}
use golang_service.Chains.Nested.{nested, nested_agree}
use golang_service.Recovery.Reports.{RaygunClient, panic_logger, raygun}
use golang_service.Chains.Crashed.{panic_fields, logging_context_handler-panic_logger}
use golang_service.Chains.Ambient.{structured-context_handler, inner_request}

-- a handler that writes and then panics
abbrev pub half : Handler
half w req s = (panicked (some (with_text "oh-o")), run w (write_call "abc" ∷ []) s)

-- the one user, whose key is `k1`
abbrev pub users : Any → Option Any × Option Error
users (text k) =
    if str_eq k "k1" then (some (text "ann"), none) else (none, some (foreign "none such"))
users other = (none, some (foreign "none such"))

abbrev pub with_key : String → Request
with_key k = request (("Authorization", ("graze " <> k) ∷ []) ∷ [])

refused :
    log_serve_http rec
      (with_key "k2")
      (api_key_handler (new_api_key "graze" (looking users) write_status) page)
      note
      world
    ≡ report recorder world note (with_key "k2") (pos 401) (headed recorder world [] (pos 401))
unfolding log_serve_http api_key_handler new_api_key header_values run make_logger
refused = refl

Accepted-or_401_example :
    ((user : Option Any) × Accepted "graze" users (with_key "k1") user
      × (log_serve_http rec
            (with_key "k1")
            (api_key_handler (new_api_key "graze" (looking users) write_status) page)
            note
            world
          ≡ log_serve_http rec (with_key "k1") (λ w r. page w (save_user r user)) note world))
    ⊎ (((user : Option Any) → ¬ Accepted "graze" users (with_key "k1") user)
        × (log_serve_http rec
              (with_key "k1")
              (api_key_handler (new_api_key "graze" (looking users) write_status) page)
              note
              world
            ≡ report recorder world note
                (with_key "k1")
                (pos 401)
                (headed recorder world [] (pos 401))))
Accepted-or_401_example =
    Accepted-or_401 recorder world "graze" users page note (with_key "k1") refl

abbrev pub texts : Texts
texts = record { show_ip = λ ip. ip; rfc3339 = λ t. "2017-01-01T10:00:00Z" }

-- the request as `page` sees it
abbrev inner : Request
inner = inner_request logger net texts [] (λ s. "id-1") (request []) world

abbrev after : World
after = (page (make_logger rec world).0 inner (make_logger rec world).1).1

structured-context_handler_example :
    (c : Fields) × (context_handler logger net texts []
        (λ s. "id-1")
        (structured_handler logger net texts [] page)
        rec
        (request [])
        world
      ≡ logger.log c
          (formatted info "%s %s %s" (
            value (text "GET")
            ∷ value (text (parse_uri net (request []) url))
            ∷ value (text "HTTP/1.1")
            ∷ []))
          after)
    × (lookup "transaction" (logger.fields c)
        ≡ over
            (lookup "transaction" (
              request_fields logger net texts
                (request [])
                url
                (pos 1_000)
                (elapsed 500 500)
                (status_of (make_logger rec world).0 after)
                (size_of (make_logger rec world).0 after)))
            (over (lookup "transaction" (ambient_fields logger net texts "id-1" (request []) url)) (
              over (lookup "transaction" (fields_in [])) (
                over
                  (lookup "transaction" (logger.fields []))
                  (lookup "transaction" (logger.fields []))))))
unfolding make_logger write_header
structured-context_handler_example =
    structured-context_handler logger logger-Laws net texts "transaction" [] [] (λ s. "id-1") page
      rec (request []) world after refl

-- `page` after twenty nanoseconds
abbrev slow : Handler
slow w req s = page w req (record s { ticks = s.ticks + 20 })

abbrev client : StatsdClient
client = record { address = "localhost:8125"; prefix = "app.live."; all_tags = [] }

-- a statsd middleware that takes seventy nanoseconds to report
abbrev slow_statsd : Caller
slow_statsd w req url ts dur status size s =
    write_statsd_log net client w req url ts dur status size
      (record s { wall = pos 1_002; ticks = s.ticks + 70 })

abbrev late : World
late = record (make_logger rec world).1 { wall = pos 1_001; ticks = 510 }

abbrev paged : World
paged = (slow (make_logger rec world).0 (request []) late).1

abbrev packets : List Output
packets =
    let tags = statsd_tags net (request []) url (pos 404) in
    timing client "request.response_time" (elapsed 530 510) tags
    ∷ count client "request.count" (pos 1) tags
    ∷ []

abbrev finished : World
finished = record paged { output = packets; wall = pos 1_002; ticks = 600 }

nested_agree_example :
    let l = (make_logger rec world).0 in
    (nested slow slow_statsd (pos 1_001) 510 l (request []) (make_logger rec world).1
      ≡ slow_statsd l
          (request [])
          url
          (pos 1_001)
          (elapsed 530 510)
          (status_of l paged)
          (size_of l paged)
          paged)
    × (log_serve_http rec (request []) (nested slow slow_statsd (pos 1_001) 510) note world
        ≡ note l
            (request [])
            url
            (pos 1_000)
            (elapsed 600 500)
            (status_of l paged)
            (size_of l paged)
            finished)
    × (elapsed 530 510 ≤ℤ elapsed 600 500)
unfolding make_logger write_header status_of write_statsd_log counter_at set_counter
nested_agree_example =
    nested_agree rec (request []) slow slow_statsd note world paged (pos 1_001) 510 packets
      (pos 1_002) 600 refl refl (omega arith) (omega arith) (omega arith) (omega arith)
      (omega arith)

abbrev reports : RaygunClient
reports = record {
  request = λ r. skip;
  custom_data = λ fs. emit (crash fs "");
  create_error = λ message. emit (crash [] message);
}

abbrev logged : Fields → World → World
logged c s = record s {
  output = s.output ++ entry c (plain error (value (text "panic occoured") ∷ [])) ∷ [];
}

logging_context_handler-panic_logger_example :
    (c : Fields) × (custom : Fields) × (logging_context_handler logger net texts []
        (λ s. "id-1")
        (new "" (panic_logger logger [] (text "main.go:7") ∷ raygun logger [] reports ∷ []) boom)
        rec
        (request [])
        world
      ≡ (
        done tt,
        record world {
          output =
              entry c (plain error (value (text "panic occoured") ∷ []))
              ∷ crash custom ""
              ∷ crash [] "oh-o"
              ∷ [];
        },
      ))
    × (lookup "transaction" (logger.fields c)
        ≡ over (lookup "transaction" (("error", err (foreign "oh-o")) ∷ [])) (
            over (lookup "transaction" (panic_fields (text "main.go:7"))) (
              over
                (lookup "transaction" (ambient_fields logger net texts "id-1" (request []) url))
                (over (lookup "transaction" (fields_in [])) (
                  over
                    (lookup "transaction" (logger.fields []))
                    (lookup "transaction" (logger.fields [])))))))
    × (lookup "transaction" custom
        ≡ over (lookup "transaction" (ambient_fields logger net texts "id-1" (request []) url)) (
            over (lookup "transaction" (fields_in [])) (
              over
                (lookup "transaction" (logger.fields []))
                (lookup "transaction" (logger.fields [])))))
unfolding error_of error_message entry_logger handle_all
logging_context_handler-panic_logger_example =
    logging_context_handler-panic_logger logger logger-Laws net texts "transaction" [] (λ s. "id-1")
      (text "main.go:7") "" logged (λ c s. refl) [] [] reports [] boom rec (request []) world world
      (with_text "oh-o") (foreign "oh-o") refl refl

-- ===== src/Logging/Sinks/Statsd.antt =====
-- handlers/statsd.go: a timing and a count for each request.
use text.Mathlib.TextLemmas.{append_cancel_left}
use golang_service.Prelude.{
  refl, ◌≡◌, ◌↔◌, ◌⊎◌, inl, inr, ap, ◌∙◌, ◌++◌, List, [], ◌∷◌, some, String, append_snoc,
}
use golang_service.Prelude.Int.{ℤ, pos}
use golang_service.Errors.{Error, ◌<>◌}
use golang_service.Go.Decimal.{itoa, itoa_injective}
use golang_service.Http.{
  World, Writer, Request, Url, Handler, done, panicked, with_error, StatsdClient, timing, count,
  emit, ◌>>◌, Action,
}
use golang_service.Metrics.{StatsdClientConf, configured, get_statsd}
use golang_service.Logging.Calls.{make_logger, status_of}
use golang_service.Logging.Serve.{Caller, log_serve_http, elapsed, log_serve_http_done}
use golang_service.Logging.Requests.{Net, uri_path}

-- the tags of `writeStatsdLog`
unfoldable pub statsd_tags : Net → Request → Url → ℤ → List String
unfolding uri_path itoa
statsd_tags net req url status =
    ("endpoint:" <> uri_path net req url)
    ∷ ("statusCode:" <> itoa status)
    ∷ ("method:" <> req.method)
    ∷ ("protocol:" <> req.proto)
    ∷ []

-- `writeStatsdLog`, with the client's `Timing` and `Incr`
unfoldable pub write_statsd_log : Net → StatsdClient → Caller
unfolding statsd_tags
write_statsd_log net c w req url ts dur status size =
    let tags = statsd_tags net req url status in
    emit (timing c "request.response_time" dur tags) >> emit (count c "request.count" (pos 1) tags)

-- `statsdHandler.ServeHTTP`
unfoldable pub statsd_handler : Net → StatsdClient → Handler → Handler
unfolding log_serve_http write_statsd_log
statsd_handler net c h w req = log_serve_http w req h (write_statsd_log net c)

-- what is done with the answer of `metrics.GetStatsd`
unfoldable pub with_client : Net → Handler → Error ⊎ StatsdClient → Action Handler
unfolding statsd_handler
with_client net h (inl err) s = (panicked (some (with_error err)), s)
with_client net h (inr client) s = (done (statsd_handler net client h), s)

-- `NewStatsdHandler`, on the library's `statsd.New`
unfoldable pub new_statsd_handler :
    Net → (String → Error ⊎ StatsdClient) → StatsdClientConf → Handler → Action Handler
unfolding with_client get_statsd
new_statsd_handler net connect conf h = with_client net h (get_statsd connect conf)

module _ (net : Net) (c : StatsdClient) (w : Writer) (req : Request) (handler : Handler)
    (s t : World) where
  -- After a handler that returns, exactly two packets are sent, by the given client: the time
  -- between two readings of the monotonic clock, and a count of one, both under four tags:
  -- `endpoint`, with the request's path, `statusCode`, with the status that the logger counted,
  -- `method` and `protocol`.
  pub statsd_handler_done :
      handler (make_logger w s).0 req (make_logger w s).1 ≡ (done tt, t)
      → let tags =
          ("endpoint:" <> uri_path net req (s.urls req.url))
          ∷ ("statusCode:" <> itoa (status_of (make_logger w s).0 t))
          ∷ ("method:" <> req.method)
          ∷ ("protocol:" <> req.proto)
          ∷ [] in
        statsd_handler net c handler w req s ≡ (
          done tt,
          record t {
            output =
                t.output
                ++ timing c "request.response_time" (elapsed t.ticks s.ticks) tags
                  ∷ count c "request.count" (pos 1) tags
                  ∷ [];
          },
        )
  unfolding statsd_handler write_statsd_log statsd_tags
  statsd_handler_done e =
      log_serve_http_done w req handler (write_statsd_log net c) s t e
      ∙ let tags =
          ("endpoint:" <> uri_path net req (s.urls req.url))
          ∷ ("statusCode:" <> itoa (status_of (make_logger w s).0 t))
          ∷ ("method:" <> req.method)
          ∷ ("protocol:" <> req.proto)
          ∷ [] in
        ap (λ o. (done tt, record t { output = o }))
          (append_snoc t.output (timing c "request.response_time" (elapsed t.ticks s.ticks) tags)
            (count c "request.count" (pos 1) tags ∷ []))

module _ (net : Net) (connect : String → Error ⊎ StatsdClient) (conf : StatsdClientConf)
    (h : Handler) (start : World) (w : Writer) (req : Request) (s t : World) where
  abbrev opened : Error ⊎ StatsdClient
  opened = connect (conf.host <> ":" <> conf.port)

  abbrev client_of : StatsdClient → StatsdClient
  client_of made = record made { prefix = conf.namespace; all_tags = made.all_tags ++ conf.tags }

  new_statsd_handler_result :
      (result : Error ⊎ StatsdClient)
      → opened ≡ result
      → new_statsd_handler net connect conf h start
        ≡ with_client net h (configured conf result) start
  unfolding new_statsd_handler get_statsd
  new_statsd_handler_result result q = ap (λ r. with_client net h (configured conf r) start) q

  -- `NewStatsdHandler` panics with the library's error if no client for the configured host and
  -- port can be made. Otherwise it makes a handler that sends, after each request whose handler
  -- returns, exactly two packets by that client, which has the configured namespace and has the
  -- configured tags added: the time that the request took, and a count of one, both under four
  -- tags: `endpoint`, with the request's path, `statusCode`, with the status that the logger
  -- counted, `method` and `protocol`.
  pub new_statsd_handler_sends :
      h (make_logger w s).0 req (make_logger w s).1 ≡ (done tt, t)
      → ((e : Error) × (opened ≡ inl e)
          × (new_statsd_handler net connect conf h start ≡ (panicked (some (with_error e)), start)))
        ⊎ ((made : StatsdClient) × (opened ≡ inr made)
            × (handler : Handler) × (new_statsd_handler net connect conf h start
                ≡ (done handler, start))
            × (let tags =
                  ("endpoint:" <> uri_path net req (s.urls req.url))
                  ∷ ("statusCode:" <> itoa (status_of (make_logger w s).0 t))
                  ∷ ("method:" <> req.method)
                  ∷ ("protocol:" <> req.proto)
                  ∷ [] in
                let c = client_of made in
                handler w req s ≡ (
                  done tt,
                  record t {
                    output =
                        t.output
                        ++ timing c "request.response_time" (elapsed t.ticks s.ticks) tags
                          ∷ count c "request.count" (pos 1) tags
                          ∷ [];
                  },
                )))
  unfolding with_client configured
  new_statsd_handler_sends ran = by_result opened refl
    where
      by_result :
          (result : Error ⊎ StatsdClient)
          → opened ≡ result
          → ((e : Error) × (opened ≡ inl e)
              × (new_statsd_handler net connect conf h start
                  ≡ (panicked (some (with_error e)), start)))
            ⊎ ((made : StatsdClient) × (opened ≡ inr made)
                × (handler : Handler) × (new_statsd_handler net connect conf h start
                    ≡ (done handler, start))
                × (let tags =
                      ("endpoint:" <> uri_path net req (s.urls req.url))
                      ∷ ("statusCode:" <> itoa (status_of (make_logger w s).0 t))
                      ∷ ("method:" <> req.method)
                      ∷ ("protocol:" <> req.proto)
                      ∷ [] in
                    let c = client_of made in
                    handler w req s ≡ (
                      done tt,
                      record t {
                        output =
                            t.output
                            ++ timing c "request.response_time" (elapsed t.ticks s.ticks) tags
                              ∷ count c "request.count" (pos 1) tags
                              ∷ [];
                      },
                    )))
      by_result (inl e) q = inl (e, q, new_statsd_handler_result (inl e) q)
      by_result (inr made) q = inr (
        made,
        q,
        statsd_handler net (client_of made) h,
        new_statsd_handler_result (inr made) q,
        statsd_handler_done net (client_of made) w req h s t ran,
      )

items_injective :
    {a b c d a' b' c' d' : String}
    → (List.◌∷◌ a (b ∷ c ∷ d ∷ [])) ≡ (a' ∷ b' ∷ c' ∷ d' ∷ [])
    → (a ≡ a') × (b ≡ b') × (c ≡ c') × (d ≡ d')
items_injective e = (cc, cc, cc, cc)

ap_four :
    {a b c d a' b' c' d' : String}
    → a ≡ a'
    → b ≡ b'
    → c ≡ c'
    → d ≡ d'
    → (List.◌∷◌
        ("endpoint:" <> a)
        (("statusCode:" <> b) ∷ ("method:" <> c) ∷ ("protocol:" <> d) ∷ []))
      ≡ (("endpoint:" <> a') ∷ ("statusCode:" <> b') ∷ ("method:" <> c') ∷ ("protocol:" <> d') ∷ [])
ap_four p q r t = cc

-- Two requests share their tags exactly where they agree in path, status, method and protocol.
pub statsd_tags_injective :
    (net : Net) (req other : Request) (url link : Url) (a b : ℤ)
    → (statsd_tags net req url a ≡ statsd_tags net other link b)
      ↔ (uri_path net req url ≡ uri_path net other link)
        × (a ≡ b)
        × (req.method ≡ other.method)
        × (req.proto ≡ other.proto)
unfolding statsd_tags
statsd_tags_injective net req other url link a b = (
  (λ e.
      let (path, status, method, proto) = items_injective e in
      (
        append_cancel_left "endpoint:" (uri_path net req url) (uri_path net other link) path,
        itoa_injective (append_cancel_left "statusCode:" (itoa a) (itoa b) status),
        append_cancel_left "method:" req.method other.method method,
        append_cancel_left "protocol:" req.proto other.proto proto,
      )),
  λ (p, q, r, t). ap_four p (ap itoa q) r t,
)

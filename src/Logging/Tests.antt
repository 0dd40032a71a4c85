-- ===== src/Logging/Tests.antt =====
-- Runs of the logging writer and of the handlers that use it, and the theorems at concrete inputs.
use golang_service.Prelude.{◌↔◌, ◌≡◌, refl, true, List, [], ◌∷◌, none, some, arith}
use golang_service.Prelude.Int.{ℤ, pos, ◌+ℤ◌}
use golang_service.Http.{Handler, body, head, done, panicked, with_text, header_get, line}
use golang_service.Go.Strings.{strip_spaces}
use golang_service.Http.Fixtures.{recorder, rec, request, world}
use golang_service.Logging.Calls.{
  make_logger, status_of, size_of, write, write_header, is_logging, is_flusher, is_hijacker,
  is_close_notifier, bottom,
}
use golang_service.Logging.Wrapping.{
  flush_call, Call, header_call, write_call, run, perform, make_logger-keeps, Wrapped,
}
use golang_service.Logging.Trace.{written}
use golang_service.Logging.Report.{make_logger_transparent, size_of-make_logger}
use golang_service.Http.{Sent}
use golang_service.Logging.Seen.{Responds, by_header, last_header, status_of-seen}
use golang_service.Logging.Serve.{Caller}
use golang_service.Logging.Requests.UserIp.{Located, get_user_ip-Located}
use golang_service.Logging.Requests.{Net, ip_of_header, get_user_ip, found}

abbrev calls : List Call
calls = write_call "abc" ∷ header_call (pos 404) ∷ write_call "def" ∷ []

abbrev writes : List Call
writes = write_call "abc" ∷ write_call "def" ∷ []

make_logger_transparent_example :
    (run (make_logger rec world).0 calls (make_logger rec world).1).sent
    ≡ body "abc" ∷ head (pos 404) ∷ body "def" ∷ []
unfolding run perform write write_header
make_logger_transparent_example = make_logger_transparent recorder world refl calls

size_of-make_logger_example :
    size_of
      (make_logger rec world).0
      (run (make_logger rec world).0 calls (make_logger rec world).1)
    ≡ pos 6
unfolding written ◌+ℤ◌
size_of-make_logger_example =
    size_of-make_logger recorder world refl calls (λ sent b. omega arith) (omega arith)

make_logger-keeps_example :
    let (l, s') = make_logger rec world in
    (is_logging l ≡ true)
    × (is_flusher l ≡ true)
    × (is_hijacker l ≡ is_hijacker rec)
    × (is_close_notifier l ≡ is_close_notifier rec)
    × (bottom l ≡ bottom rec)
    × (make_logger l s' ≡ (l, s'))
    × Wrapped rec world l s'
make_logger-keeps_example = make_logger-keeps rec world

abbrev pub page : Handler
page w req s = (done tt, write_header w (pos 404) s)

abbrev pub boom : Handler
boom w req s = (panicked (some (with_text "oh-o")), s)

abbrev pub note : Caller
note w req link ts dur status size s = (done tt, record s { output = line "log" "noted" ∷ [] })

-- a network whose addresses are all texts, and whose URLs are their paths
abbrev pub net : Net
net = record {
  parse_ip = λ s. some s;
  split_host = λ s. some "192.168.100.5";
  request_uri = λ u. u.path;
  escaped_path = λ u. u.path;
  parse_url = λ u s. none;
}

get_user_ip-Located_example :
    let listed_two = request (("X-Forwarded-For", "10.0.0.1,10.0.0.2" ∷ []) ∷ []) in
    (found "10.0.0.1" ≡ get_user_ip net listed_two) ↔ Located net listed_two (found "10.0.0.1")
get_user_ip-Located_example =
    get_user_ip-Located net (request (("X-Forwarded-For", "10.0.0.1,10.0.0.2" ∷ []) ∷ []))
      (found "10.0.0.1")

located :
    get_user_ip net (request (("X-Forwarded-For", "10.0.0.1,10.0.0.2" ∷ []) ∷ []))
    ≡ found "10.0.0.1"
unfolding get_user_ip ip_of_header strip_spaces header_get
located = refl

-- what a client sees: the first header, and 200 where there is none
abbrev pub first_status : List Sent → ℤ
first_status [] = pos 200
first_status (head code ∷ rest) = code
first_status (_ ∷ rest) = pos 200

pub first_status-Responds : Responds first_status
first_status-Responds = record {
  of_nothing = refl;
  of_header = λ code rest h. refl;
  of_body = λ b rest. refl;
  of_flush = λ rest. refl;
}

-- A handler that flushes, and has not found anything then, is reported with 404, and the client
-- sees 200.
abbrev streamed : List Call
streamed = flush_call ∷ header_call (pos 404) ∷ write_call "abc" ∷ []

status_of-seen_example :
    let (l, s') = make_logger rec world in
    let done = run l streamed s' in
    let idle = run l (flush_call ∷ []) s' in
    (status_of l done ≡ pos 404)
    × (first_status done.sent ≡ pos 200)
    × ((status_of l done ≡ first_status done.sent) ↔ (◌≡◌ {A = ℤ} (pos 404) (pos 200)))
    × (status_of l idle ≡ pos 0)
    × (first_status idle.sent ≡ pos 200)
unfolding last_header
status_of-seen_example =
    status_of-seen first_status first_status-Responds recorder world refl refl 1
      (header_call (pos 404)) (pos 404) (write_call "abc" ∷ []) (by_header (pos 404) (omega arith))
      (tt, tt)

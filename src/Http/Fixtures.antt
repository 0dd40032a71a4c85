-- ===== src/Http/Fixtures.antt =====
-- Data that the tests of several modules share: a recording response writer, a request, a world.
use golang_service.Prelude.{[], true, false, none}
use golang_service.Prelude.Int.{pos}
use golang_service.Http.Values.{Header, Url, Request}
use golang_service.Http.Run.{World}
use golang_service.Http.Writers.{External, Writer, external}

-- a writer that takes every write whole, as the recorder of net/http/httptest does
abbrev pub recorder : External
recorder = record {
  answer = λ sent b. (pos 3, none);
  flusher = true;
  hijacker = none;
  close_notifier = false;
  logging = none;
}

abbrev pub rec : Writer
rec = external recorder

abbrev pub request : Header → Request
request header = record {
  method = "GET";
  proto = "HTTP/1.1";
  proto_major = pos 1;
  host = "example.com";
  remote_addr = "192.168.100.5:9843";
  request_uri = "/path?q=1";
  header = header;
  url = 0;
  context = [];
}

abbrev pub url : Url
url = record {
  scheme = "http";
  host = "example.com";
  path = "/path";
  raw_path = "";
  raw_query = "q=1";
}

abbrev pub world : World
world = record {
  sent = [];
  counters = [];
  urls = λ p. url;
  output = [];
  wall = pos 1_000;
  ticks = 500;
}

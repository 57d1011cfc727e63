-- ===== src/Http/Client/Tests.antt =====
-- The theorems on connections at concrete inputs.
use c_http.Base.{◌≡◌, ◌≢◌, refl, true, false, [], ◌∷◌, none, some, Bytes, codes, arith}
use c_http.Http.Fields.{is_valid_http_version, is_valid_header_name, header_value_has_injection}
use c_http.Base.Decimal.{digits_value}
use c_http.Http.Headers.{HttpHeader}
use c_http.Http.HeaderBlock.Format.{IsSendable}
use c_http.Http.Receive.{received, parse_length, framing_loop, read_body}
use c_http.Http.Receive.Bodies.{Announces}
use c_http.Http.RequestLine.{HttpRequest, parse_request_line, read_version}
use c_http.Http.Route.Dispatch.{not_matched}
use c_http.Http.Client.{App, HttpServer, ready, no_line, parse_request, unfinished, handle_client}
use c_http.Http.Client.Ends.{format_request}
use c_http.Http.Client.Pipeline.{IsRequest, call_of, parse_request_arrived}
use c_http.Http.Client.Loop.{handle_client-ne-unfinished}
use c_http.Ws.Session.{wrote}

-- An application without handlers.
abbrev app : App
app = record {
  run_middleware = λ n call res. (res, true);
  run_handler = λ n call res. res;
  run_error_handler = none;
  ws_dispatch = λ call. false;
  static_dispatch = λ call res. (res, not_matched);
  encode_body = λ call res. res;
  open_file = λ path. none;
  date = codes "Thu, 01 Jan 1970 00:00:00 GMT";
}

abbrev server : HttpServer
server = record {
  app = app;
  mem = λ n. true;
  server_name = codes "demo";
  keep_alive = true;
  middlewares = [];
  routes = [];
  mounts = [];
}

handle_client-ne-unfinished_example :
    handle_client server (received (codes "GET / ") ∷ []) (wrote 9 ∷ []) ≢ unfinished
handle_client-ne-unfinished_example =
    handle_client-ne-unfinished server (received (codes "GET / ") ∷ []) (wrote 9 ∷ [])

clean :
    (header_value_has_injection server.app.date ≡ false)
    × (header_value_has_injection server.server_name ≡ false)
unfolding header_value_has_injection
clean = (refl, refl)

abbrev line : Bytes
line = codes "POST /a HTTP/1.1"

abbrev request : HttpRequest
request = record {
  method = codes "POST";
  path = codes "/a";
  version = codes "HTTP/1.1";
  query = [];
}

abbrev length_3 : HttpHeader
length_3 = record { key = codes "Content-Length"; value = codes "3" }

length_3-IsSendable : IsSendable length_3
unfolding is_valid_header_name header_value_has_injection
length_3-IsSendable = record { named = refl; safe = refl; no_lead = refl; no_trail = refl }

line_accepted : parse_request_line line no_line ≡ (request, 0)
unfolding parse_request_line read_version is_valid_http_version
line_accepted = refl

line_safe : header_value_has_injection line ≡ false
unfolding header_value_has_injection
line_safe = refl

with_length : IsRequest line (length_3 ∷ []) request
with_length = record {
  accepted = line_accepted;
  one_line = line_safe;
  line_text = refl;
  sendable = (length_3-IsSendable, tt);
  texts = (refl, tt);
  few = omega arith;
}

three : Announces (length_3 ∷ []) (some 3)
unfolding framing_loop parse_length digits_value
three = refl

parse_request_arrived_example :
    parse_request
      (λ n. true)
      (format_request line (length_3 ∷ []) (codes "a"))
      true
      (received (codes "bc") ∷ [])
    ≡ ready
        (record (call_of request (length_3 ∷ [])) { body = some (codes "abc") })
        (read_body (λ n. true) (received (codes "bc") ∷ []) (codes "a") (length_3 ∷ [])).recvs
parse_request_arrived_example =
    parse_request_arrived line (length_3 ∷ []) request (codes "a") 3 (received (codes "bc") ∷ [])
      with_length three (omega arith) (omega arith) (omega arith)

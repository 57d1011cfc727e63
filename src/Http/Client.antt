-- ===== src/Http/Client.antt =====
-- `handle_client` of src/c_http.c: the requests of one connection. What the library does not do
-- itself, or another file does, is in the record App.
pub mod Left
pub mod Loop
pub mod Ends
pub mod Pipeline
pub mod Connection
pub mod Tests
use c_http.Base.{
  ℕ, zero, suc, ◌+◌, Bool, true, false, not, ◌&&◌, ◌||◌, List, [], ◌∷◌, ◌++◌, Option, none, some,
  if◌then◌else◌, ◌==◌, ltb, leb, Bytes, codes, length, take, drop, starts_with, str_eq,
}
use c_http.Http.Headers.{HttpHeader, HttpHeaders, apply_header, replace_header, find_header}
use c_http.Http.HeaderBlock.{parse_headers}
use c_http.Http.Query.{HttpQueryParam, parse_query}
use c_http.Http.Receive.{
  RecvResult, blank_line, c_string, ReadRequest, read_request, ReadBody, read_body,
}
use c_http.Http.RequestLine.{HttpRequest, parse_request_line}
use c_http.Http.Response.{
  HttpResponse, HttpBodyType, body_urlencoded, http_req_body_type, http_set_header,
}
use c_http.Http.Response.Send.{crlf, send_res}
use c_http.Http.Route.{
  HttpRouteSegment, HttpRouteSegments, HttpParam, http_parse_route_segments, path_matches,
}
use c_http.Http.Route.Dispatch.{
  HttpRoute, HttpRouterMount, StaticResult, HandlerResult, handler_ok, handler_not_found,
  handler_method_not_allowed, handler_not_implemented, Outcome, called, answered, left,
  collect_allow, execute_handler,
}
use c_http.Http.Status.{status_text}
use c_http.Http.Token.{request_wants_keep_alive}
use c_http.Ws.Session.{SendResult}
use c_http.Ws.Send.{Raw}

-- The request as the handlers see it. The address of the client and the parts of a multipart body
-- are left out.
pub record Call : Type 0 where
  pub line : HttpRequest
  pub headers : List HttpHeader
  pub body : Option Bytes
  pub params : List HttpParam
  pub form : List HttpQueryParam

pub record HttpMiddleware : Type 0 where
  pub path : Option Bytes
  pub handler : ℕ

-- The functions of the application, by their numbers: a middleware also says whether to go on.
-- `ws_dispatch` says whether the request was an upgrade, which takes the connection over,
-- `static_dispatch` is the static files, `encode_body` the content encoders. `open_file` is as in
-- Http/Response/Send, `date` the text of format_http_date().
pub record App : Type 0 where
  pub run_middleware : ℕ → Call → HttpResponse → HttpResponse × Bool
  pub run_handler : ℕ → Call → HttpResponse → HttpResponse
  pub run_error_handler : Option (Call → HttpResponse → ℕ → Bytes → HttpResponse)
  pub ws_dispatch : Call → Bool
  pub static_dispatch : Call → HttpResponse → HttpResponse × StaticResult
  pub encode_body : Call → HttpResponse → HttpResponse
  pub open_file : Bytes → Option Bytes
  pub date : Bytes

pub record HttpServer : Type 0 where
  pub app : App
  pub mem : ℕ → Bool
  pub server_name : Bytes
  pub keep_alive : Bool
  pub middlewares : List HttpMiddleware
  pub routes : List HttpRoute
  pub mounts : List HttpRouterMount

abbrev pub one_further : Option ℕ → Option ℕ
one_further none = none
one_further (some i) = some (suc i)

-- `strstr(s, needle) - s`
unfoldable pub find_sub : Bytes → Bytes → Option ℕ
find_sub needle [] = if starts_with [] needle then some 0 else none
find_sub needle (c ∷ s) =
    let next = one_further (find_sub needle s) in
    if starts_with (c ∷ s) needle then some 0 else next

-- A request that is read, or the status of the response to one that is not; with what is left of
-- the socket's outcomes.
pub data ParsedRequest : Type 0 where
  refused : (call : Call) → (status : ℕ) → (recvs : List RecvResult) → ParsedRequest
  ready : (call : Call) → (recvs : List RecvResult) → ParsedRequest

abbrev pub no_line : HttpRequest
no_line = record { method = []; path = []; version = []; query = [] }

abbrev pub no_call : Call
no_call = record { line = no_line; headers = []; body = none; params = []; form = [] }

abbrev pub with_body : Call → ReadBody → ParsedRequest
with_body call r =
    if not (r.status == 0)
    then refused call r.status r.recvs
    else ready (record call { body = r.body }) r.recvs

abbrev pub with_headers :
    (ℕ → Bool) → List RecvResult → Bytes → Call → HttpHeaders × ℕ → ParsedRequest
with_headers mem recvs leftover call (h, status) =
    let next = record call { headers = h.items } in
    if not (status == 0)
    then refused next status recvs
    else with_body next (read_body mem recvs leftover h.items)

abbrev pub with_line :
    (ℕ → Bool) → List RecvResult → Bytes → Bytes → HttpRequest × ℕ → ParsedRequest
with_line mem recvs leftover text (line, status) =
    let next = record no_call { line = line } in
    if not (status == 0)
    then refused next status recvs
    else with_headers mem recvs leftover next
        (parse_headers mem text (record { items = []; capacity = 0 }))

-- The end of the request line, and the start of what follows the header block.
abbrev pub with_ends : (ℕ → Bool) → List RecvResult → Bytes → Option ℕ → Option ℕ → ParsedRequest
with_ends mem recvs buf none eol = refused no_call 400 recvs
with_ends mem recvs buf (some sep) none = refused no_call 400 recvs
with_ends mem recvs buf (some sep) (some eol) =
    with_line mem recvs (drop (sep + 4) buf) (drop (eol + 2) (c_string buf))
      (parse_request_line (take eol (c_string buf)) no_line)

unfoldable pub parse_request : (ℕ → Bool) → Bytes → Bool → List RecvResult → ParsedRequest
parse_request mem buf complete recvs =
    if not complete
    then refused no_call 431 recvs
    else with_ends mem recvs buf (find_sub blank_line (c_string buf)) (find_sub crlf (c_string buf))

-- The calls of apply_header one after the other, their results ignored.
abbrev pub apply_all : (ℕ → Bool) → HttpHeaders → List HttpHeader → HttpHeaders
apply_all mem h [] = h
apply_all mem h (x ∷ more) = apply_all mem (apply_header mem h x.key x.value).0 more

abbrev pub connection : Bool → Bytes
connection persist = if persist then codes "keep-alive" else codes "close"

-- The Server header, if its text fits 64 bytes.
abbrev pub server_header : Bytes → List HttpHeader
server_header name =
    let text = name ++ codes "/0.9.0" in
    if ltb (length text) 64 then record { key = codes "Server"; value = text } ∷ [] else []

abbrev pub security_headers : List HttpHeader
security_headers =
    record {
      key = codes "Strict-Transport-Security";
      value = codes "max-age=31536000; includeSubDomains";
    }
    ∷ record { key = codes "X-Content-Type-Options"; value = codes "nosniff" }
    ∷ record { key = codes "X-Frame-Options"; value = codes "SAMEORIGIN" }
    ∷ record { key = codes "Content-Security-Policy"; value = codes "default-src 'self'" }
    ∷ record { key = codes "Referer-Policy"; value = codes "strict-origin-when-cross-origin" }
    ∷ record {
      key = codes "Permissions-Policy";
      value = codes "geolocation=(), camera=(), microphone=()";
    }
    ∷ record { key = codes "Vary"; value = codes "Accept-Encoding" }
    ∷ []

abbrev pub default_headers : HttpServer → Bool → List HttpHeader
default_headers server keep_alive =
    record { key = codes "Date"; value = server.app.date }
    ∷ record { key = codes "Connection"; value = connection keep_alive }
    ∷ (server_header server.server_name ++ security_headers)

abbrev pub empty_response : HttpResponse
empty_response = record {
  status = 0;
  body = [];
  headers = record { items = []; capacity = 0 };
  dyn_body = none;
  locals = [];
  encoded_body = none;
  file_path = none;
  ranged = false;
  range_start = 0;
  range_len = 0;
  error = false;
  error_message = [];
}

unfoldable pub apply_default_headers : HttpServer → HttpResponse → Bool → HttpResponse
apply_default_headers server res keep_alive = record res {
  headers = apply_all server.mem res.headers (default_headers server keep_alive);
}

abbrev pub set_protocol_error : HttpResponse → ℕ → HttpResponse
set_protocol_error res status = record res { status = status; error = true }

-- Whether to go on, and the response.
unfoldable pub apply_middleware :
    App → List HttpMiddleware → Call → HttpResponse → HttpResponse × Bool
apply_middleware app [] call res = (res, true)
apply_middleware app (m ∷ middlewares) call res =
    let skipped = apply_middleware app middlewares call res in
    let (after, go_on) = app.run_middleware m.handler call res in
    let next = if go_on then apply_middleware app middlewares call after else (after, false) in
    elim m.path as (λ _. HttpResponse × Bool) [
      | none ↦ next
      | some path ↦ if path_matches path call.line.path then next else skipped
    ]

-- `execute_handler` with what it does to the response; the search is in Http/Route/Dispatch.
abbrev pub run_outcome : HttpServer → Call → HttpResponse → Outcome → HttpResponse × HandlerResult
run_outcome server call res (called handler params) =
    (server.app.run_handler handler (record call { params = params }) res, handler_ok)
run_outcome server call res (answered allow) = (
  record res {
    headers = (http_set_header server.mem res.headers (codes "Allow") allow).0;
    status = 204;
  },
  handler_ok,
)
run_outcome server call res (left handler_not_implemented) = (res, handler_not_implemented)
run_outcome server call res (left result) = ((server.app.static_dispatch call res).0, result)

-- `set_allow_header`
abbrev pub set_allow_header : HttpServer → List HttpRouteSegment → HttpResponse → HttpResponse
set_allow_header server segments res =
    let allow = collect_allow server.routes server.mounts segments 128 in
    if ltb 0 (length allow)
    then record res { headers = (http_set_header server.mem res.headers (codes "Allow") allow).0 }
    else res

-- The switch over the result.
abbrev pub after_result :
    HttpServer → List HttpRouteSegment → HttpResponse × HandlerResult → HttpResponse
after_result server segments (res, handler_ok) = res
after_result server segments (res, handler_method_not_allowed) =
    set_allow_header server segments (set_protocol_error res 405)
after_result server segments (res, handler_not_found) = set_protocol_error res 404
after_result server segments (res, handler_not_implemented) = set_protocol_error res 501

-- The routes; a path that cannot be parsed matches none.
abbrev pub route_request :
    HttpServer → Call → HttpResponse → Option HttpRouteSegments → HttpResponse
route_request server call res none = after_result server [] (res, handler_not_found)
route_request server call res (some parsed) =
    let static = (server.app.static_dispatch call res).1 in
    after_result server parsed.segments (
      run_outcome server call res (
        execute_handler call.line.method server.routes server.mounts parsed.segments call.params
          static))

-- What becomes of a request: a response that is sent, with whether the connection goes on, or an
-- upgrade.
pub data Handled : Type 0 where
  upgraded : Handled
  respond : (call : Call) → (res : HttpResponse) → (persist : Bool) → Handled

abbrev pub behind_middleware : HttpServer → Call → Bool → HttpResponse × Bool → Handled
behind_middleware server call persist (res, false) = respond call res persist
behind_middleware server call persist (res, true) =
    if server.app.ws_dispatch call
    then upgraded
    else respond call
        (route_request server call res (http_parse_route_segments server.mem call.line.path))
        persist

-- The form of an urlencoded body.
abbrev pub form_of : Call → List HttpQueryParam
form_of call = elim (http_req_body_type call.headers call.body) as (λ _. List HttpQueryParam) [
  | body_urlencoded ↦ elim call.body [ none ↦ [] | some body ↦ parse_query (c_string body) ]
  | _ ↦ []
]

abbrev pub persists : HttpServer → Call → Bool
persists server call =
    server.keep_alive
    && request_wants_keep_alive (find_header call.headers (codes "Connection")) call.line.version

abbrev pub set_connection : HttpServer → HttpResponse → Bool → HttpResponse
set_connection server res persist = record res {
  headers = (replace_header server.mem res.headers (codes "Connection") (connection persist)).0;
}

-- From the parsed request to the label `send`. The response has its default headers.
unfoldable pub answer_request : HttpServer → HttpResponse → ParsedRequest → Handled
answer_request server res (refused call status recvs) =
    respond call (set_protocol_error res status) false
answer_request server res (ready call recvs) =
    let full = record call { form = form_of call } in
    let persist = persists server full in
    let connected = set_connection server res persist in
    behind_middleware server full persist
      (apply_middleware server.app server.middlewares full connected)

abbrev pub error_handled :
    Option (Call → HttpResponse → ℕ → Bytes → HttpResponse) → Call → HttpResponse → HttpResponse
error_handled none call res = res
error_handled (some handler) call res =
    if res.error
    then handler call res res.status
        (if not (length res.error_message == 0) then res.error_message else status_text res.status)
    else res

-- The response as it is sent.
unfoldable pub finish_response : HttpServer → Call → HttpResponse → HttpResponse
finish_response server call res =
    let some_status = if res.status == 0 then record res { status = 500 } else res in
    server.app.encode_body call (error_handled server.app.run_error_handler call some_status)

abbrev pub recvs_of : ParsedRequest → List RecvResult
recvs_of (refused call status recvs) = recvs
recvs_of (ready call recvs) = recvs

-- A round of the loop: the connection is closed without an answer, is taken over, or has the bytes
-- of a response, and then goes on or not.
pub data Iteration : Type 0 where
  closed : Iteration
  taken_over : Iteration
  sent : (raw : Raw) → (persist : Bool) → (recvs : List RecvResult) → Iteration

abbrev pub send_handled : HttpServer → List SendResult → List RecvResult → Handled → Iteration
send_handled server sends recvs upgraded = taken_over
send_handled server sends recvs (respond call res persist) =
    sent
      (send_res server.app.open_file (finish_response server call res)
        (str_eq call.line.method (codes "HEAD")) sends)
      persist recvs

unfoldable pub serve : HttpServer → List SendResult → ParsedRequest → Iteration
serve server sends parsed =
    send_handled server sends (recvs_of parsed)
      (answer_request server (apply_default_headers server empty_response false) parsed)

abbrev pub after_read :
    HttpServer → List SendResult → List RecvResult → Bool → Option Bytes → Iteration
after_read server sends recvs complete none = closed
after_read server sends recvs complete (some []) = closed
after_read server sends recvs complete (some (b ∷ buf)) =
    serve server sends (parse_request server.mem (b ∷ buf) complete recvs)

unfoldable pub handle_request : HttpServer → List RecvResult → List SendResult → Iteration
handle_request server recvs sends =
    let r = read_request recvs 4096 in after_read server sends r.recvs r.complete r.buf

-- How the connection ends, and the bytes that the client got; `unfinished` is a lack of fuel.
pub data Ending : Type 0 where
  hung_up : (wire : Bytes) → Ending
  websocket : (wire : Bytes) → Ending
  unfinished : Ending

abbrev pub go_on : (List RecvResult → List SendResult → Bytes → Ending) → Bytes → Iteration → Ending
go_on again wire closed = hung_up wire
go_on again wire taken_over = websocket wire
go_on again wire (sent raw persist recvs) =
    let next = again recvs raw.rest (wire ++ raw.taken) in
    if persist then next else hung_up (wire ++ raw.taken)

unfoldable pub client_loop : ℕ → HttpServer → List RecvResult → List SendResult → Bytes → Ending
client_loop zero server recvs sends wire = unfinished
client_loop (suc fuel) server recvs sends wire =
    go_on (client_loop fuel server) wire (handle_request server recvs sends)

-- Each request takes an outcome of recv() at least.
unfoldable pub handle_client : HttpServer → List RecvResult → List SendResult → Ending
handle_client server recvs sends = client_loop (suc (length recvs)) server recvs sends []

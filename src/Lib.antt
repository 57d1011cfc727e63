-- ===== src/Lib.antt =====
-- c-http, an HTTP/1.1 server library in C with WebSockets and compiled templates.
--
-- The parts and the files that model them:
--
--   * src/c_http.c, the server. Http/Fields: the validation helpers. Http/Method: method_name and
--     string_to_http_method. Http/Headers: apply_header, replace_header and http_req_header over a
--     header list. Http/Token: header_contains_token and request_wants_keep_alive. Http/Query:
--     query_decode and parse_query. Http/Route: http_parse_route_segments, segments_match_at,
--     prefix_segments_match, path_matches; Http/Route/Register: add_route_to; Http/Route/Dispatch:
--     execute_handler with collect_allow. Http/RequestLine: parse_request_line. Http/HeaderBlock:
--     parse_headers, which stores by Http/Headers. A request path is parsed by the same function as
--     a pattern, middlewares look at the raw path, and execute_handler asks the server's routes,
--     then the mounted routers, then the static mounts, whose answer is a parameter. Http/Json:
--     http_req_json_string with json_decode_string and json_skip_value. Http/Status: status_text.
--     Http/Accept: http_req_accepts.
--     Http/Response: the http_res_* helpers, locals and http_error; Http/Response/Send: send_res.
--     Http/Receive: read_request and read_body. Http/Client: handle_client, which composes all of
--     these for the requests of one connection; its record App holds the handlers and the parts
--     of other files that it calls.
--   * src/c_http_ws.c, WebSockets. Ws/Base64: base64_encode, base64_decode. Ws/Session: the
--     structure HttpWs, with the part that the frame writer uses as a record Conn of its own, and
--     ws_mark_dead. Ws/Send: ws_send_raw, ws_send_frame, ws_send_close. Ws/Parse: ws_parse, a
--     function for each state of the parser. ws_parse answers pings and closes by Ws/Send.
--     Ws/Rfc is a reader of frame headers after RFC 6455, against which the writer is checked.
--   * src/c_http_tpl.c, the template runtime. Tpl/Buffer: the output TplOut, buf_reserve,
--     tpl_lit_n, arena_alloc. Tpl/Escape: write_escaped. Tpl/Fragment: the fragment state machine
--     and tpl_once_begin. Tpl/Url: tpl_url.
--   * src/c_http_encoder.c, content encoders. Encoder: http_accepts_encoding, http_register_encoder,
--     http_encode_body and the identity encoder; an encoder is a function, as gzip is zlib's.
--   * src/c_http_static.c, static files. Static: url_decode, has_control_chars, extract_suffix.
--
-- Base holds what these share: Boolean tests on numbers, lists measured by native numbers, C
-- strings, words.
--
-- How C is read. A C string is the list of its bytes up to the NUL. A pointer into one is the rest
-- of it, and reading at the end gives 0. A buffer with a length is a list, its capacity a number.
-- A result 0 is true and -1 is false or none. size_t is 64 bits wide: a subtraction that may wrap
-- is sub_size, and lengths of lists in memory are below 2 ^ 64. A test of malloc, realloc, calloc or
-- strdup is a parameter mem, which says for each size whether the allocation succeeds. The socket of
-- a session or a connection is the list of the outcomes of the coming calls of send(), and that
-- of recv(); when a list is used up the peer is silent. Files are a function from paths to their
-- bytes. Locks are left out: a function that holds one is a single step. Handlers and once handles
-- are numbers.
--
-- Loops over a text are recursive on it, or on fuel: ws_parse has two rounds for each byte and two
-- more, which Ws/Parse/Termination shows to be enough; the loops of header_contains_token,
-- parse_query, parse_headers, write_escaped and http_parse_route_segments have a round for each
-- byte, since each round takes one; the doubling loops of the buffers have 64 rounds, after which
-- a capacity above 0 is past 2 ^ 64. The loops over JSON text have a round for each byte, which
-- Http/Json/Outcome shows to be enough, and json_skip_value is recursive on its depth, at most 32.
-- handle_client has a round for each outcome of recv() and one more, which is enough by
-- Http/Client/Loop; decimal has a round for each unit of the number.
--
-- The parser marks what C leaves undefined: overrun is a store past the end of a buffer.
--
-- Not modelled: the accept loop, threads and timeouts, the set-up and the freeing of servers and
-- routers, groups, multipart bodies; the WebSocket handshake
-- and receive loop, the serving of files, the calls of zlib, CSS sanitizing,
-- and the template compiler in tools. The header Date is a parameter, since it is the time.
pub mod Base
pub mod Encoder
pub mod Http
pub mod Static
pub mod Tpl
pub mod Ws

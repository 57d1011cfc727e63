-- ===== src/Http/Client/Pipeline.antt =====
-- What `handle_client` makes of the bytes it received for one request.
use c_http.Base.{
  ℕ, ◌+◌, ◌*◌, ◌≡◌, ◌≤◌, refl, ◌∙◌, Bool, true, false, List, [], ◌++◌, Option, some, Bytes, all,
  All, length, take, arith,
}
use c_http.Http.Fields.{header_value_has_injection}
use c_http.Http.Headers.{HttpHeader, HttpHeaders}
use c_http.Http.HeaderBlock.{parse_headers}
use c_http.Http.HeaderBlock.Format.{IsSendable, format_headers, parse_headers-format_headers}
use c_http.Http.Receive.{RecvResult, not_nul, c_string, ReadBody, read_body}
use c_http.Http.Receive.Bodies.{arriving, Announces, read_body_arrived}
use c_http.Http.RequestLine.{HttpRequest, parse_request_line}
use c_http.Http.Client.{Call, ready, no_line, no_call, with_body, with_headers, parse_request}
use c_http.Http.Client.Ends.{format_request, blank_at, line_end, HasNoNul, c_string-format_request}

-- A request line that the parser accepts, without line breaks and NULs, in front of at most 64
-- headers that can be sent and have no NUL in their values.
pub record IsRequest (line : Bytes) (items : List HttpHeader) (req : HttpRequest) : Type 0 where
  pub accepted : parse_request_line line no_line ≡ (req, 0)
  pub one_line : header_value_has_injection line ≡ false
  pub line_text : all not_nul line ≡ true
  pub sendable : All IsSendable items
  pub texts : All HasNoNul items
  pub few : length items ≤ 64

abbrev pub call_of : HttpRequest → List HttpHeader → Call
call_of req items = record no_call { line = req; headers = items }

with_headers-items :
    (mem : ℕ → Bool) (recvs : List RecvResult) (leftover : Bytes) (call : Call)
    (h : HttpHeaders × ℕ) (items : List HttpHeader)
    → h.0.items ≡ items
    → h.1 ≡ 0
    → with_headers mem recvs leftover call h
      ≡ with_body (record call { headers = items }) (read_body mem recvs leftover items)
with_headers-items mem recvs leftover call (h, status) items e ok = rw (ok, e) refl

with_body_ok :
    (call : Call) (r : ReadBody) (body : Option Bytes)
    → r.status ≡ 0
    → r.body ≡ body
    → with_body call r ≡ ready (record call { body = body }) r.recvs
with_body_ok call r body ok e = rw (ok, e) refl

parse_request-format_request :
    (line : Bytes) (items : List HttpHeader) (req : HttpRequest) (leftover : Bytes)
    (recvs : List RecvResult)
    → IsRequest line items req
    → parse_request (λ n. true) (format_request line items leftover) true recvs
      ≡ with_body (call_of req items) (read_body (λ n. true) recvs leftover items)
unfolding parse_request
parse_request-format_request line items req leftover recvs v =
    let buf = format_request line items leftover in
    let more = c_string leftover in
    let text = format_request line items more in
    let clean = c_string-format_request line items leftover v.line_text v.sendable v.texts in
    let (sep, blank, behind) = blank_at line items more leftover v.one_line v.sendable in
    let (eol, front, rest) = line_end line (format_headers items more) v.one_line in
    let (stored, ok) =
      parse_headers-format_headers items more (record { items = []; capacity = 0 }) v.sendable
        (omega (arith, v.few)) in
    rw clean (
      rw (blank, eol)
        (rw (behind, clean, front, rest)
          (rw v.accepted (
            with_headers-items (λ n. true) recvs leftover (record no_call { line = req })
              (parse_headers (λ n. true) (format_headers items more)
                (record { items = []; capacity = 0 }))
              items stored ok))))

-- A request with a body, at most 50 MB, received in whatever pieces: what stood behind the header
-- block first, then what arrives. With memory, and when that is not less than its one announced
-- length and the first piece not more, the handlers get the request line as it was parsed, the
-- headers in their order and the body.
pub parse_request_arrived :
    (line : Bytes) (items : List HttpHeader) (req : HttpRequest) (leftover : Bytes) (len : ℕ)
    (recvs : List RecvResult)
    → IsRequest line items req
    → Announces items (some len)
    → len ≤ 50 * 1024 * 1024
    → length leftover ≤ len
    → len ≤ length leftover + length (arriving recvs)
    → parse_request (λ n. true) (format_request line items leftover) true recvs
      ≡ ready
          (record (call_of req items) { body = some (take len (leftover ++ arriving recvs)) })
          (read_body (λ n. true) recvs leftover items).recvs
parse_request_arrived line items req leftover len recvs v a small few enough =
    let (status, body) = read_body_arrived recvs leftover items len a small few enough in
    parse_request-format_request line items req leftover recvs v
    ∙ with_body_ok (call_of req items) (read_body (λ n. true) recvs leftover items) _ status body

-- ===== src/Http/Receive.antt =====
-- Reading of requests and bodies: `read_request` and `read_body` of src/c_http.c. The socket is the
-- list of the outcomes of the coming calls of recv(); when it is used up the client is silent, and
-- the next call runs into the timeout.
pub mod Complete
pub mod Bodies
pub mod Framed
pub mod Tests
use c_http.Base.{
  ℕ, zero, suc, ◌+◌, ◌-◌, ◌*◌, ◌^◌, Bool, true, false, not, ◌&&◌, ◌||◌, List, [], ◌∷◌, ◌++◌, Option,
  none, some, if◌then◌else◌, ◌==◌, ltb, leb, Bytes, codes, length, take, drop, take_while,
  starts_with, str_case_eq,
}
use c_http.Base.Decimal.{Strtoll, strtoll, in_range}
use c_http.Http.Headers.{HttpHeader}

-- The bytes that recv() delivers, none when the client has closed the connection; a signal; an
-- error or the timeout.
pub data RecvResult : Type 0 where
  received : Bytes → RecvResult
  recv_interrupted : RecvResult
  recv_failed : RecvResult

-- `strstr(s, needle) != NULL` in a C string
unfoldable pub has_sub : Bytes → Bytes → Bool
has_sub needle [] = starts_with [] needle
has_sub needle (c ∷ s) = starts_with (c ∷ s) needle || has_sub needle s

abbrev pub not_nul : ℕ → Bool
not_nul c = not (c == 0)

-- The C string at the start of a buffer that holds these bytes and a NUL behind them.
abbrev pub c_string : Bytes → Bytes
c_string buf = take_while not_nul buf

abbrev pub blank_line : Bytes
blank_line = codes "\r\n\r\n"

-- What a call leaves: the bytes in the buffer, `none` for -1; whether the header block is complete;
-- and the outcomes that it has not used.
pub record ReadRequest : Type 0 where
  pub buf : Option Bytes
  pub complete : Bool
  pub recvs : List RecvResult

-- A chunk behind the `buf` so far: only it and three bytes in front of it are searched.
abbrev pub found_in : Bytes → Bytes → Bool
found_in buf chunk =
    let scan_from = if ltb 3 (length buf) then length buf - 3 else 0 in
    has_sub blank_line (c_string (drop scan_from (buf ++ chunk)))

-- The loop, `size` bytes of room in all.
unfoldable pub request_loop : List RecvResult → ℕ → Bytes → ReadRequest
request_loop [] size buf =
    if ltb (length buf) (size - 1)
    then record { buf = none; complete = false; recvs = [] }
    else record { buf = some buf; complete = false; recvs = [] }
request_loop (recv_failed ∷ recvs) size buf =
    if ltb (length buf) (size - 1)
    then record { buf = none; complete = false; recvs = recvs }
    else record { buf = some buf; complete = false; recvs = recv_failed ∷ recvs }
request_loop (recv_interrupted ∷ recvs) size buf =
    let again = request_loop recvs size buf in
    if ltb (length buf) (size - 1)
    then again
    else record { buf = some buf; complete = false; recvs = recv_interrupted ∷ recvs }
request_loop (received bytes ∷ recvs) size buf =
    let chunk = take (size - 1 - length buf) bytes in
    let again = request_loop recvs size (buf ++ chunk) in
    if not (ltb (length buf) (size - 1))
    then record { buf = some buf; complete = false; recvs = received bytes ∷ recvs }
    else if length chunk == 0
    then record { buf = some buf; complete = false; recvs = recvs }
    else if found_in buf chunk
    then record { buf = some (buf ++ chunk); complete = true; recvs = recvs }
    else again

unfoldable pub read_request : List RecvResult → ℕ → ReadRequest
read_request recvs size = request_loop recvs size []

abbrev pub http_max_body : ℕ
http_max_body = 50 * 1024 * 1024

-- The number of a Content-Length value, `none` for the 400.
unfoldable pub parse_length : Bytes → Option ℕ
parse_length value =
    let r = strtoll value in
    if not r.any
      || not (length r.end_ptr == 0)
      || not (in_range r)
      || (r.negative && not (r.magnitude == 0))
    then none
    else some r.magnitude

-- What the loop over the headers finds: an error, or whether there is a Transfer-Encoding and the
-- length, `none` for -1.
pub record Framing : Type 0 where
  pub bad : Bool
  pub has_te : Bool
  pub content_length : Option ℕ

abbrev pub bad_framing : Framing
bad_framing = record { bad = true; has_te = false; content_length = none }

-- A length behind those that were read; `again` goes on.
abbrev pub merge_length : Option ℕ → Option ℕ → (Option ℕ → Framing) → Framing
merge_length none old again = bad_framing
merge_length (some parsed) none again = again (some parsed)
merge_length (some parsed) (some old) again =
    if not (old == parsed) then bad_framing else again (some parsed)

unfoldable pub framing_loop : List HttpHeader → Bool → Option ℕ → Framing
framing_loop [] has_te len = record { bad = false; has_te = has_te; content_length = len }
framing_loop (x ∷ headers) has_te len =
    let encoded = framing_loop headers true len in
    let other = framing_loop headers has_te len in
    let sized = merge_length (parse_length x.value) len (framing_loop headers has_te) in
    if str_case_eq x.key (codes "Transfer-Encoding")
    then encoded
    else if str_case_eq x.key (codes "Content-Length")
    then sized
    else other

-- The body, `none` for NULL; 0 or the status; and the outcomes that are left.
pub record ReadBody : Type 0 where
  pub body : Option Bytes
  pub status : ℕ
  pub recvs : List RecvResult

-- The loop, with the bytes got so far.
unfoldable pub body_loop : List RecvResult → ℕ → Bytes → ReadBody
body_loop [] len got =
    if ltb (length got) len
    then record { body = none; status = 408; recvs = [] }
    else record { body = some got; status = 0; recvs = [] }
body_loop (recv_failed ∷ recvs) len got =
    if ltb (length got) len
    then record { body = none; status = 408; recvs = recvs }
    else record { body = some got; status = 0; recvs = recv_failed ∷ recvs }
body_loop (recv_interrupted ∷ recvs) len got =
    let again = body_loop recvs len got in
    if ltb (length got) len
    then again
    else record { body = some got; status = 0; recvs = recv_interrupted ∷ recvs }
body_loop (received bytes ∷ recvs) len got =
    let chunk = take (len - length got) bytes in
    let again = body_loop recvs len (got ++ chunk) in
    if not (ltb (length got) len)
    then record { body = some got; status = 0; recvs = received bytes ∷ recvs }
    else if length chunk == 0
    then record { body = none; status = 400; recvs = recvs }
    else again

-- A body of the length; `leftover` are the bytes received behind the header block.
abbrev pub sized_body : (ℕ → Bool) → List RecvResult → Bytes → ℕ → ReadBody
sized_body mem recvs leftover len =
    let read = body_loop recvs len leftover in
    if ltb http_max_body len
    then record { body = none; status = 413; recvs = recvs }
    else if not (mem (len + 1))
    then record { body = none; status = 500; recvs = recvs }
    else if ltb len (length leftover)
    then record { body = none; status = 400; recvs = recvs }
    else read

abbrev pub framed_body : (ℕ → Bool) → List RecvResult → Bytes → Option ℕ → ReadBody
framed_body mem recvs leftover none = record { body = none; status = 0; recvs = recvs }
framed_body mem recvs leftover (some len) = sized_body mem recvs leftover len

unfoldable pub read_body : (ℕ → Bool) → List RecvResult → Bytes → List HttpHeader → ReadBody
read_body mem recvs leftover headers =
    let f = framing_loop headers false none in
    if f.bad
    then record { body = none; status = 400; recvs = recvs }
    else if f.has_te
    then record { body = none; status = 501; recvs = recvs }
    else framed_body mem recvs leftover f.content_length

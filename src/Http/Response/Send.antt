-- ===== src/Http/Response/Send.antt =====
-- `send_res` of src/c_http.c with `send_all` and `send_fd`. `open_file` stands for open() and
-- fstat(): the bytes of the regular file of that name, if there is one. The socket is the list of
-- the outcomes of the coming calls of send(), as in Ws/Send.
use c_http.Base.{
  ℕ, ◌-◌, Bool, true, false, not, ◌&&◌, ◌||◌, List, [], ◌∷◌, ◌++◌, Option, none, some, map,
  if◌then◌else◌, ◌==◌, ltb, leb, min, Bytes, codes, length, take, drop, str_case_eq,
}
use c_http.Base.Decimal.{decimal}
use c_http.Http.Fields.{is_valid_status_code}
use c_http.Http.Headers.{HttpHeader}
use c_http.Http.Response.{HttpResponse}
use c_http.Http.Status.{status_text}
use c_http.Ws.Session.{SendResult, wrote, interrupted, failed}
use c_http.Ws.Send.{Raw}

-- `bytes` (`data` in the source) is what follows the bytes sent. send() takes at most what it is given.
unfoldable pub send_all : List SendResult → Bytes → Raw
send_all sends [] = record { sent_all = true; rest = sends; taken = [] }
send_all [] (b ∷ bytes) = record { sent_all = false; rest = []; taken = [] }
send_all (failed ∷ sends) (b ∷ bytes) = record { sent_all = false; rest = sends; taken = [] }
send_all (interrupted ∷ sends) (b ∷ bytes) = send_all sends (b ∷ bytes)
send_all (wrote n ∷ sends) (b ∷ bytes) =
    let r = send_all sends (drop n (b ∷ bytes)) in
    record { sent_all = r.sent_all; rest = r.rest; taken = take n (b ∷ bytes) ++ r.taken }

-- What follows a send that took all: the rest of the outcomes is for it.
unfoldable pub and_then : Raw → (List SendResult → Raw) → Raw
and_then first next =
    if first.sent_all
    then (let r = next first.rest in
        record { sent_all = r.sent_all; rest = r.rest; taken = first.taken ++ r.taken })
    else first

-- Several calls of send_all, up to one that fails.
unfoldable pub send_parts : List SendResult → List Bytes → Raw
send_parts sends [] = record { sent_all = true; rest = sends; taken = [] }
send_parts sends (part ∷ parts) = and_then (send_all sends part) (λ rest. send_parts rest parts)

abbrev pub is_no_body_status : ℕ → Bool
is_no_body_status status =
    (leb 100 status && ltb status 200) || status == 204 || status == 205 || status == 304

-- The variables of `send_res` before it sends: the response with the status that is sent, the open
-- file (`none` is -1), and the part of the file.
pub record Prepared : Type 0 where
  pub res : HttpResponse
  pub no_body_status : Bool
  pub streaming : Bool
  pub file_fd : Option Bytes
  pub send_offset : ℕ
  pub send_size : ℕ

abbrev pub check_status : HttpResponse → HttpResponse
check_status res = if is_valid_status_code res.status then res else record res { status = 500 }

abbrev pub without_file : Bool → HttpResponse → Prepared
without_file no_body res = record {
  res = res;
  no_body_status = no_body;
  streaming = false;
  file_fd = none;
  send_offset = 0;
  send_size = 0;
}

abbrev pub opened : HttpResponse → Option Bytes → Prepared
opened res none = without_file false (record res { status = 500; body = [] })
opened res (some content) = record {
  res = res;
  no_body_status = false;
  streaming = true;
  file_fd = some content;
  send_offset = 0;
  send_size = length content;
}

abbrev pub open_path : (Bytes → Option Bytes) → HttpResponse → Option Bytes → Prepared
open_path open_file res none = without_file false res
open_path open_file res (some path) = opened res (open_file path)

unfoldable pub open_body : (Bytes → Option Bytes) → HttpResponse → Prepared
open_body open_file res =
    if is_no_body_status res.status
    then without_file true res
    else open_path open_file res res.file_path

-- The range of the handler, against the size of the file.
unfoldable pub clamp_range : Prepared → Prepared
clamp_range p =
    let available = p.send_size - p.res.range_start in
    if not (p.streaming && p.res.ranged)
    then p
    else if leb p.send_size p.res.range_start
    then record p { file_fd = none; res = record (p.res) { status = 416; body = [] } }
    else record p { send_offset = p.res.range_start; send_size = min p.res.range_len available }

unfoldable pub prepare : (Bytes → Option Bytes) → HttpResponse → Prepared
prepare open_file res = clamp_range (open_body open_file (check_status res))

abbrev pub or_body : Option Bytes → Bytes → Bytes
or_body none other = other
or_body (some body) other = body

-- `body` with `body_len`: the encoded body, else the one on the heap, else the buffer.
abbrev pub selected_body : HttpResponse → Bytes
selected_body res = or_body res.encoded_body (or_body res.dyn_body res.body)

abbrev pub crlf : Bytes
crlf = codes "\r\n"

unfoldable pub status_line : ℕ → Bytes
status_line status =
    take 63 (codes "HTTP/1.1 " ++ decimal status ++ codes " " ++ status_text status ++ crlf)

abbrev pub sent_length : Prepared → ℕ
sent_length p = if p.streaming then p.send_size else length (selected_body p.res)

abbrev pub sent_length_line : Prepared → Bytes
sent_length_line p = codes "Content-Length: " ++ decimal (sent_length p) ++ crlf

unfoldable pub has_content_type : List HttpHeader → Bool
has_content_type [] = false
has_content_type (x ∷ items) = str_case_eq x.key (codes "Content-Type") || has_content_type items

-- The default, only if no handler set one.
abbrev pub content_type_lines : Prepared → List Bytes
content_type_lines p =
    if has_content_type p.res.headers.items
    then []
    else if p.streaming
    then codes "Content-Type: application/octet-stream\r\n" ∷ []
    else if ltb 0 (length (selected_body p.res))
    then codes "Content-Type: text/html\r\n" ∷ []
    else []

-- A header, cut to 511 bytes.
abbrev pub header_line : HttpHeader → Bytes
header_line x = take 511 (x.key ++ codes ": " ++ x.value ++ crlf)

abbrev pub header_parts : Prepared → List Bytes
header_parts p = content_type_lines p ++ map header_line p.res.headers.items ++ (crlf ∷ [])

-- The calls of send_all before the body. The line of the length fits its array of 64 bytes.
unfoldable pub head_parts : Prepared → List Bytes
head_parts p =
    status_line p.res.status
    ∷ (if p.no_body_status then header_parts p else sent_length_line p ∷ header_parts p)

-- Nothing is sent from a file that is not open.
abbrev pub send_fd : Option Bytes → ℕ → ℕ → List SendResult → Raw
send_fd none start size sends = record { sent_all = size == 0; rest = sends; taken = [] }
send_fd (some content) start size sends = send_all sends (take size (drop start content))

unfoldable pub send_body : Prepared → Bool → List SendResult → Raw
send_body p suppress_body sends =
    if p.no_body_status || suppress_body
    then record { sent_all = true; rest = sends; taken = [] }
    else if p.streaming
    then send_fd p.file_fd p.send_offset p.send_size sends
    else send_all sends (selected_body p.res)

-- What the socket takes of the response.
unfoldable pub send_res : (Bytes → Option Bytes) → HttpResponse → Bool → List SendResult → Raw
send_res open_file res suppress_body sends =
    let p = prepare open_file res in
    and_then (send_parts sends (head_parts p)) (send_body p suppress_body)

-- ===== src/Http/Response.antt =====
-- The response and the helpers that fill it, of src/c_http.c. A `true` among the results is 0 or
-- the OK of an enumeration, a `false` is -1 or its ERROR. `mem` is as in Http/Headers.
pub mod Send
pub mod Whole
pub mod Delivered
pub mod Lines
pub mod Prepare
pub mod Wire
pub mod Helpers
pub mod Limits
pub mod Tests
use c_http.Base.{
  ℕ, ◌+◌, Bool, true, false, not, ◌&&◌, ◌||◌, List, [], ◌∷◌, ◌++◌, Option, none, some,
  if◌then◌else◌, ◌==◌, ltb, leb, Bytes, codes, length, take, str_eq, str_has, starts_with, map,
  to_lower,
}
use c_http.Base.Decimal.{decimal}
use c_http.Http.Fields.{is_valid_status_code}
use c_http.Http.Headers.{HttpHeader, HttpHeaders, apply_header, find_header}
use c_http.Http.Query.{HttpQueryParam}
use c_http.Http.Status.{status_text}

pub record HttpLocal : Type 0 where
  pub key : Bytes
  pub value : Bytes

-- `body` is the text in the fixed buffer, so `body_len` is its length; `none` is a NULL.
pub record HttpResponse : Type 0 where
  pub status : ℕ
  pub body : Bytes
  pub headers : HttpHeaders
  pub dyn_body : Option Bytes
  pub locals : List HttpLocal
  pub encoded_body : Option Bytes
  pub file_path : Option Bytes
  pub ranged : Bool
  pub range_start : ℕ
  pub range_len : ℕ
  pub error : Bool
  pub error_message : Bytes

-- sizeof(res->body)
abbrev pub body_size : ℕ
body_size = 4096

abbrev pub http_error_message_max : ℕ
http_error_message_max = 256

-- `http_set_header`, then what follows when it gives OK.
abbrev pub on_header :
    HttpResponse → HttpHeaders × Bool → (HttpResponse → HttpResponse × Bool) → HttpResponse × Bool
on_header res (h, true) next = next (record res { headers = h })
on_header res (h, false) next = (record res { headers = h }, false)

abbrev pub http_set_header : (ℕ → Bool) → HttpHeaders → Bytes → Bytes → HttpHeaders × Bool
http_set_header mem h key value = apply_header mem h key value

abbrev pub http_max_locals : ℕ
http_max_locals = 16

-- The loop: the locals with the value replaced, and whether the key was there.
unfoldable pub replace_local : Bytes → Bytes → List HttpLocal → List HttpLocal × Bool
replace_local key value [] = ([], false)
replace_local key value (x ∷ locals) =
    let (rest, found) = replace_local key value locals in
    if str_eq x.key key then (record x { value = value } ∷ locals, true) else (x ∷ rest, found)

unfoldable pub http_set_local : HttpResponse → Bytes → Bytes → HttpResponse × Bool
http_set_local res key value =
    let (locals, found) = replace_local key value res.locals in
    if length key == 0
    then (res, false)
    else if leb 32 (length key) || leb 64 (length value)
    then (res, false)
    else if found
    then (record res { locals = locals }, true)
    else if leb http_max_locals (length res.locals)
    then (res, false)
    else (record res { locals = res.locals ++ (record { key = key; value = value } ∷ []) }, true)

unfoldable pub find_local : List HttpLocal → Bytes → Option Bytes
find_local [] key = none
find_local (x ∷ locals) key = if str_eq key x.key then some x.value else find_local locals key

abbrev pub http_res_local : HttpResponse → Bytes → Option Bytes
http_res_local res key = find_local res.locals key

unfoldable pub http_res_json : (ℕ → Bool) → HttpResponse → ℕ → Bytes → HttpResponse × Bool
http_res_json mem res status body =
    if not (is_valid_status_code status)
    then (res, false)
    else if leb body_size (length body)
    then (res, false)
    else on_header res
        (http_set_header mem res.headers (codes "Content-Type") (codes "application/json"))
        (λ r. (record r { body = body; status = status }, true))

-- The body is stored in the buffer, or in a copy on the heap.
unfoldable pub store_body : (ℕ → Bool) → ℕ → Bytes → HttpResponse → HttpResponse × Bool
store_body mem status body res =
    if ltb (length body) body_size
    then (record res { body = body; dyn_body = none; status = status }, true)
    else if not (mem (length body))
    then (res, false)
    else (record res { dyn_body = some body; body = []; status = status }, true)

unfoldable pub http_res_body : (ℕ → Bool) → HttpResponse → ℕ → Bytes → Bytes → HttpResponse × Bool
http_res_body mem res status content_type body =
    if not (is_valid_status_code status) || length content_type == 0
    then (res, false)
    else on_header res (http_set_header mem res.headers (codes "Content-Type") content_type)
        (store_body mem status body)

unfoldable pub http_res_redirect : (ℕ → Bool) → HttpResponse → ℕ → Bytes → HttpResponse × Bool
http_res_redirect mem res status location =
    if ltb status 300 || ltb 399 status
    then (res, false)
    else on_header res (http_set_header mem res.headers (codes "Location") location)
        (λ r. (record r { status = status; body = [] }, true))

-- strpbrk(name, ";= \t") != NULL
unfoldable pub has_separator : Bytes → Bool
has_separator [] = false
has_separator (c ∷ s) = str_has c (codes ";= \t") || has_separator s

-- snprintf behind what is written: `none` when it does not fit the 512 bytes.
abbrev pub print_more : Bytes → Option Bytes → Option Bytes
print_more more none = none
print_more more (some text) =
    if leb 512 (length text + length more) then none else some (text ++ more)

unfoldable pub cookie_text : Bytes → Bytes → ℕ → Bool → Option Bytes
cookie_text name value max_age http_only =
    let first = print_more (name ++ (b'=' ∷ value) ++ codes "; Path=/") (some []) in
    let aged =
      if ltb 0 max_age then print_more (codes "; Max-Age=" ++ decimal max_age) first else first in
    if http_only then print_more (codes "; HttpOnly") aged else aged

abbrev pub set_cookie : (ℕ → Bool) → HttpResponse → Option Bytes → HttpResponse × Bool
set_cookie mem res none = (res, false)
set_cookie mem res (some cookie) =
    on_header res (http_set_header mem res.headers (codes "Set-Cookie") cookie) (λ r. (r, true))

unfoldable pub http_res_cookie :
    (ℕ → Bool) → HttpResponse → Bytes → Bytes → ℕ → Bool → HttpResponse × Bool
http_res_cookie mem res name value max_age http_only =
    if length name == 0 || has_separator name || str_has b';' value
    then (res, false)
    else set_cookie mem res (cookie_text name value max_age http_only)

-- The message, cut to the array; `none` is a NULL.
abbrev pub message_or : Option Bytes → ℕ → Bytes
message_or none status = take 255 (status_text status)
message_or (some message) status = take 255 message

unfoldable pub http_error : HttpResponse → ℕ → Option Bytes → HttpResponse
http_error res status message =
    let final = if not (is_valid_status_code status) || ltb status 400 then 500 else status in
    record res {
      status = final;
      error = true;
      dyn_body = none;
      error_message = message_or message final;
    }

pub data HttpBodyType : Type 0 where
  body_none body_other body_urlencoded body_json body_multipart : HttpBodyType

-- strncasecmp(s, prefix, strlen(prefix)) == 0
abbrev pub case_prefix : Bytes → Bytes → Bool
case_prefix s prefix = starts_with (map to_lower s) (map to_lower prefix)

abbrev pub type_named : Option Bytes → HttpBodyType
type_named none = body_other
type_named (some ct) =
    if case_prefix ct (codes "application/x-www-form-urlencoded")
    then body_urlencoded
    else if case_prefix ct (codes "application/json")
    then body_json
    else if case_prefix ct (codes "multipart/form-data")
    then body_multipart
    else body_other

-- `none` is a request without a body.
unfoldable pub http_req_body_type : List HttpHeader → Option Bytes → HttpBodyType
http_req_body_type headers none = body_none
http_req_body_type headers (some body) =
    if length body == 0 then body_none else type_named (find_header headers (codes "Content-Type"))

-- `http_req_form`, and with the query `http_req_query`: the first occurrence.
unfoldable pub find_param : List HttpQueryParam → Bytes → Option Bytes
find_param [] key = none
find_param (x ∷ params) key = if str_eq key x.key then some x.value else find_param params key

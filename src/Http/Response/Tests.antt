-- ===== src/Http/Response/Tests.antt =====
-- The theorems on responses at concrete inputs.
use c_http.Base.{
  ℕ, ◌≡◌, refl, ◌≤◌, Bool, true, false, List, [], ◌∷◌, ◌++◌, Option, none, some, Bytes, codes,
  length, replicate, str_has, arith,
}
use c_http.Base.Decimal.{digits_loop, decimal}
use c_http.Http.Fields.{is_valid_status_code, is_valid_header_name, header_value_has_injection}
use c_http.Http.Headers.{HttpHeader, grow_headers, append_header, apply_header}
use c_http.Http.Response.{HttpResponse, http_res_json, store_body, http_res_body, http_res_redirect}
use c_http.Http.Response.Send.{
  selected_body, header_line, open_body, clamp_range, prepare, send_res, head_parts, status_line,
  has_content_type,
}
use c_http.Http.Response.Whole.{response_text, Sends, send_res-Sends}
use c_http.Http.Response.Delivered.{send_res-Delivered}
use c_http.Http.Response.Helpers.{stale_body}
use c_http.Http.Response.Limits.{header_line_cut}
use c_http.Http.Status.{text_in, status_text}
use c_http.Ws.Session.{SendResult, wrote, interrupted, failed}

abbrev tag : HttpHeader
tag = record { key = codes "ETag"; value = codes "1" }

-- A response with a header and a short body.
abbrev hello : HttpResponse
hello = record {
  status = 200;
  body = codes "hi";
  headers = record { items = tag ∷ []; capacity = 8 };
  dyn_body = none;
  locals = [];
  encoded_body = none;
  file_path = none;
  ranged = false;
  range_start = 0;
  range_len = 0;
  error = false;
  error_message = [];
}

-- A file system with one file.
abbrev one_file : Bytes → Option Bytes
one_file path = some (codes "abc")

send_res-Sends_example :
    Sends
      (response_text (prepare one_file hello) false)
      (send_res one_file hello false (wrote 3 ∷ failed ∷ []))
send_res-Sends_example = send_res-Sends one_file hello false (wrote 3 ∷ failed ∷ [])

abbrev slow : List SendResult
slow = interrupted ∷ (replicate 100 (wrote 1) ++ (failed ∷ []))

prepared : prepare one_file hello ≡ record {
  res = hello;
  no_body_status = false;
  streaming = false;
  file_fd = none;
  send_offset = 0;
  send_size = 0;
}
unfolding prepare clamp_range open_body is_valid_status_code
prepared = refl

short_text : length (response_text (prepare one_file hello) false) ≤ 100
unfolding prepare clamp_range open_body is_valid_status_code head_parts status_line decimal
    digits_loop status_text text_in has_content_type
short_text = omega arith

send_res-Delivered_example :
    (send_res one_file hello false slow).taken ≡ response_text (prepare one_file hello) false
unfolding prepare clamp_range open_body is_valid_status_code
send_res-Delivered_example = send_res-Delivered one_file hello false slow tt short_text

abbrev long_header : HttpHeader
long_header = record { key = codes "Set-Cookie"; value = replicate 500 b'x' }

long_header-clean :
    (is_valid_header_name long_header.key ≡ true)
    × (header_value_has_injection long_header.value ≡ false)
unfolding is_valid_header_name header_value_has_injection
long_header-clean = (refl, refl)

header_line_cut_example : str_has b'\n' (header_line long_header) ≡ false
header_line_cut_example = header_line_cut long_header long_header-clean (omega arith)

abbrev ranged : HttpResponse
ranged = record hello {
  file_path = some (codes "f");
  ranged = true;
  range_start = 5;
  range_len = 2;
}

abbrev memory : ℕ → Bool
memory n = true

body_stored : (http_res_body memory hello 404 (codes "text/plain") (codes "gone")).1 ≡ true
unfolding http_res_body is_valid_status_code apply_header is_valid_header_name
    header_value_has_injection grow_headers append_header store_body
body_stored = refl

abbrev large : HttpResponse
large = record hello { dyn_body = some (codes "old") }

json_stored : (http_res_json memory large 200 (codes "{}")).1 ≡ true
unfolding http_res_json is_valid_status_code apply_header is_valid_header_name
    header_value_has_injection grow_headers append_header
json_stored = refl

redirected : (http_res_redirect memory large 302 (codes "/a")).1 ≡ true
unfolding http_res_redirect apply_header is_valid_header_name header_value_has_injection
    grow_headers append_header
redirected = refl

stale_body_example :
    (selected_body (http_res_json memory large 200 (codes "{}")).0 ≡ codes "old")
    × (selected_body (http_res_redirect memory large 302 (codes "/a")).0 ≡ codes "old")
stale_body_example =
    stale_body memory large 200 302 (codes "{}") (codes "/a") (codes "old") refl refl json_stored
      redirected

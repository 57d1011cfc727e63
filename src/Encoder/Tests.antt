-- ===== src/Encoder/Tests.antt =====
-- The theorems on the encoders at concrete inputs.
use c_http.Base.{
  ℕ, ◌≡◌, refl, ap, Bool, true, false, not, List, [], ◌∷◌, ◌++◌, Option, none, some, if◌then◌else◌,
  ◌==◌, Bytes, codes, take_while, drop, deref, starts_with, str_eq, arith,
}
use c_http.Http.Fields.{header_value_has_injection, is_valid_header_name}
use c_http.Http.Headers.{HttpHeader, apply_header, append_header, grow_headers, find_header}
use c_http.Http.Response.{HttpResponse}
use c_http.Http.Token.{not_comma}
use c_http.Encoder.{
  HttpEncoder, parse_q, accept_loop, accept_headers, http_accepts_encoding, http_register_encoder,
  identity_encode, try_encoders, is_encoded, http_encode_body,
}
use c_http.Encoder.Negotiation.{Coding, IsCoding, EndsAtComma}
use c_http.Encoder.Wanted.{ask, http_accepts_encoding-takes}
use c_http.Encoder.Chosen.{
  IsTried, http_encode_body-IsTried, IsKnown, client_body, client_body-http_encode_body,
  http_encode_body-unlabelled,
}

abbrev memory : ℕ → Bool
memory n = true

-- A reader of weights: a text that starts with `0.` and then a digit other than 0, or with `1`.
abbrev above_zero : Bytes → Option Bool
above_zero s =
    if starts_with s (codes "0.")
    then some (not (deref (drop 2 s) == b'0'))
    else if starts_with s (codes "0")
    then some false
    else if starts_with s (codes "1")
    then some true
    else none

abbrev read_weight : Bytes → Option Bool
read_weight s = above_zero (take_while not_comma s)

take_to_comma :
    (w more : Bytes) → take_while not_comma (w ++ (b',' ∷ more)) ≡ take_while not_comma w
take_to_comma [] more = refl
take_to_comma (c ∷ w) more = ground (arith, take_to_comma w more)

read_weight-EndsAtComma : EndsAtComma read_weight
read_weight-EndsAtComma w more = ap above_zero (take_to_comma w more)

abbrev gzip_half : Coding
gzip_half = record { name = codes "GZip"; q = some (codes "0.5") }

abbrev br_zero : Coding
br_zero = record { name = codes "br"; q = some (codes "0") }

abbrev any : Coding
any = record { name = codes "*"; q = none }

gzip_half-IsCoding : IsCoding gzip_half
gzip_half-IsCoding = record {
  name_plain = refl;
  filled = λ e. cc;
  no_lead = refl;
  no_trail = refl;
  q_plain = refl;
}

br_zero-IsCoding : IsCoding br_zero
br_zero-IsCoding = record {
  name_plain = refl;
  filled = λ e. cc;
  no_lead = refl;
  no_trail = refl;
  q_plain = refl;
}

any-IsCoding : IsCoding any
any-IsCoding = record {
  name_plain = refl;
  filled = λ e. cc;
  no_lead = refl;
  no_trail = refl;
  q_plain = refl;
}

-- `br` is named with the weight 0, so `*` does not count.
http_accepts_encoding-takes_example :
    http_accepts_encoding read_weight
      (ask (any ∷ br_zero ∷ []) ∷ ask (gzip_half ∷ []) ∷ [])
      (codes "br")
    ≡ false
http_accepts_encoding-takes_example =
    http_accepts_encoding-takes read_weight (codes "br") read_weight-EndsAtComma
      ((any ∷ br_zero ∷ []) ∷ (gzip_half ∷ []) ∷ []) (λ e. cc)
      ((any-IsCoding, (br_zero-IsCoding, tt)), ((gzip_half-IsCoding, tt), tt))

-- An encoder that leaves a first `a` out, and fails where there is none.
abbrev drop_a : Bytes → Option Bytes
drop_a (c ∷ s) = if c == b'a' then some s else none
drop_a [] = none

abbrev short : HttpEncoder
short = record { name = codes "short"; encode = drop_a }

abbrev add_a : Bytes → Bytes → Option Bytes
add_a coding body = if str_eq coding (codes "short") then some (b'a' ∷ body) else none

abbrev greeting : HttpResponse
greeting = record {
  status = 200;
  body = codes "abc";
  headers = record { items = []; capacity = 0 };
  dyn_body = none;
  locals = [];
  encoded_body = none;
  file_path = none;
  ranged = false;
  range_start = 0;
  range_len = 0;
  error = false;
  error_message = [];
}

abbrev request : List HttpHeader
request = record { key = codes "accept-encoding"; value = codes "gzip, short;q=1" } ∷ []

drop_a-add_a : (s out : Bytes) → drop_a s ≡ some out → add_a (codes "short") out ≡ some s
drop_a-add_a [] out e = cc
drop_a-add_a (c ∷ s) out e = ground arith

short-IsKnown : IsKnown add_a short
unfolding header_value_has_injection
short-IsKnown = record { clean = refl; decodes = drop_a-add_a }

no_coding : find_header greeting.headers.items (codes "Content-Encoding") ≡ none
unfolding find_header
no_coding = refl

client_body-http_encode_body_example :
    client_body add_a (http_encode_body memory read_weight (short ∷ []) request greeting).0
    ≡ some (codes "abc")
client_body-http_encode_body_example =
    client_body-http_encode_body memory read_weight add_a (short ∷ []) request greeting (λ n. refl)
      (short-IsKnown, tt) refl no_coding

http_encode_body-IsTried_example :
    IsTried memory read_weight request greeting
      (short ∷ [])
      (http_encode_body memory read_weight (short ∷ []) request greeting)
http_encode_body-IsTried_example =
    http_encode_body-IsTried memory read_weight request greeting (short ∷ []) (λ e. cc) refl
      no_coding

encoded : (http_encode_body (λ n. false) read_weight (short ∷ []) request greeting).1 ≡ true
unfolding http_encode_body try_encoders http_accepts_encoding accept_headers accept_loop parse_q
    find_header apply_header is_valid_header_name header_value_has_injection grow_headers
    append_header
encoded = refl

http_encode_body-unlabelled_example :
    (is_encoded
        (http_encode_body (λ n. false) read_weight (short ∷ []) request greeting).0.encoded_body
      ≡ true)
    × (find_header
          (http_encode_body (λ n. false) read_weight (short ∷ []) request greeting).0.headers.items
          (codes "Content-Encoding")
        ≡ none)
http_encode_body-unlabelled_example =
    http_encode_body-unlabelled read_weight (short ∷ []) request greeting (λ e. cc) refl no_coding
      encoded

-- The capacity goes from none to four.
registered :
    (http_register_encoder memory (record { encoders = []; capacity = 0 }) short).0.capacity ≡ 4
unfolding http_register_encoder
registered = refl

copied : identity_encode memory (codes "abc") ≡ some (codes "abc")
copied = refl

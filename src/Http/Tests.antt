-- ===== src/Http/Tests.antt =====
-- The theorems on fields, headers, tokens and query strings at concrete inputs.
use c_http.Base.{
  ◌≡◌, refl, true, false, List, [], ◌∷◌, some, Bytes, codes, All, arith, if◌then◌else◌, str_case_eq,
}
use c_http.Http.Headers.{
  HttpHeaders, grow_headers, append_header, apply_header, replace_first, replace_header,
  find_header,
}
use c_http.Http.Fields.{is_valid_header_name, header_value_has_injection}
use c_http.Http.Headers.Invariant.{IsValid}
use c_http.Http.Headers.Lookup.{find_header-replace_header}
use c_http.Http.Token.{header_contains_token}
use c_http.Http.Token.Elements.{lists, header_contains_token-lists}
use c_http.Http.Query.{HttpQueryParam, plain_byte, decode_loop, query_decode, parse_query}
use c_http.Http.Query.Decode.{IsText}
use c_http.Http.Query.RoundTrip.{format_query, IsParam, parse_query-format_query}

-- A list with one header.
abbrev one_header : HttpHeaders
one_header = record { items = record { key = codes "ETag"; value = codes "1" } ∷ []; capacity = 8 }

one_header-IsValid : IsValid one_header
unfolding is_valid_header_name header_value_has_injection
one_header-IsValid = record { clean = ((refl, refl), tt); in_capacity = omega arith }

no_injection : header_value_has_injection (codes "2") ≡ false
unfolding header_value_has_injection
no_injection = refl

added : (apply_header (λ n. true) one_header (codes "Vary") (codes "Accept")).1 ≡ true
unfolding apply_header is_valid_header_name header_value_has_injection grow_headers append_header
added = refl

replaced : (replace_header (λ n. true) one_header (codes "etag") (codes "2")).1 ≡ true
unfolding replace_header replace_first
replaced = refl

find_header-replace_header_example :
    find_header
      (replace_header (λ n. true) one_header (codes "etag") (codes "2")).0.items
      (codes "ETAG")
    ≡ (if str_case_eq (codes "etag") (codes "ETAG")
        then some (codes "2")
        else find_header one_header.items (codes "ETAG"))
find_header-replace_header_example =
    find_header-replace_header (λ n. true) one_header (codes "etag") (codes "2") (codes "ETAG")
      replaced

header_contains_token-lists_example :
    header_contains_token (codes "Upgrade , keep-alive") (codes "upgrade")
    ≡ lists (codes "Upgrade , keep-alive") (codes "upgrade")
header_contains_token-lists_example =
    header_contains_token-lists (codes "upgrade") (λ e. cc) (codes "Upgrade , keep-alive")

finds_keep_alive : header_contains_token (codes "Upgrade , keep-alive") (codes "keep-alive") ≡ true
unfolding header_contains_token
finds_keep_alive = refl

-- A blank, a plus and an ampersand.
abbrev signs : Bytes
signs = 32 ∷ 43 ∷ 38 ∷ []

signs-IsText : All IsText signs
signs-IsText = (
  (omega arith, λ e. omega arith, omega arith),
  (
    (omega arith, λ e. omega arith, omega arith),
    ((omega arith, λ e. omega arith, omega arith), tt),
  ),
)

abbrev a_blank : Bytes
a_blank = 97 ∷ 32 ∷ []

decoded : query_decode (97 ∷ 43 ∷ []) 8 ≡ some a_blank
unfolding query_decode decode_loop plain_byte
decoded = refl

abbrev params : List HttpQueryParam
params = record { key = signs; value = [] } ∷ record { key = signs; value = signs } ∷ []

params-IsParam : All IsParam params
params-IsParam = (
  record {
    key_ne = λ e. cc;
    key_text = signs-IsText;
    value_text = tt;
    key_fits = omega arith;
    value_fits = omega arith;
  },
  (
    record {
      key_ne = λ e. cc;
      key_text = signs-IsText;
      value_text = signs-IsText;
      key_fits = omega arith;
      value_fits = omega arith;
    },
    tt,
  ),
)

parse_query-format_query_example : parse_query (format_query false params) ≡ params
parse_query-format_query_example =
    parse_query-format_query false params params-IsParam (omega arith)

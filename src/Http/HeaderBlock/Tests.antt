-- ===== src/Http/HeaderBlock/Tests.antt =====
-- Header blocks at concrete inputs.
use c_http.Base.{◌≡◌, refl, true, List, [], ◌∷◌, ◌++◌, All, codes, arith}
use c_http.Http.Fields.{is_valid_header_name, header_value_has_injection}
use c_http.Http.Headers.{HttpHeader, HttpHeaders}
use c_http.Http.HeaderBlock.{parse_headers}
use c_http.Http.HeaderBlock.Stored.{IsBounded}
use c_http.Http.HeaderBlock.Format.{IsSendable, format_headers, parse_headers-format_headers}

abbrev none_yet : HttpHeaders
none_yet = record { items = []; capacity = 0 }

none_yet-IsBounded : IsBounded none_yet
none_yet-IsBounded = record {
  valid = record { clean = tt; in_capacity = omega arith };
  few = omega arith;
}

abbrev two_headers : List HttpHeader
two_headers =
    record { key = codes "Host"; value = codes "a.b" }
    ∷ record { key = codes "ETag"; value = [] }
    ∷ []

two_headers-IsSendable : All IsSendable two_headers
unfolding is_valid_header_name header_value_has_injection
two_headers-IsSendable = (
  record { named = refl; safe = refl; no_lead = refl; no_trail = refl },
  (record { named = refl; safe = refl; no_lead = refl; no_trail = refl }, tt),
)

parse_headers-format_headers_example :
    ((parse_headers (λ n. true) (format_headers two_headers (codes "body")) none_yet).0.items
      ≡ none_yet.items ++ two_headers)
    × ((parse_headers (λ n. true) (format_headers two_headers (codes "body")) none_yet).1 ≡ 0)
parse_headers-format_headers_example =
    parse_headers-format_headers two_headers (codes "body") none_yet two_headers-IsSendable
      (omega arith)

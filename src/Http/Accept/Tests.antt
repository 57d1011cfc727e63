-- ===== src/Http/Accept/Tests.antt =====
-- The negotiation of content types at concrete inputs.
use c_http.Base.{
  ℕ, ◌≡◌, refl, List, [], ◌∷◌, Option, none, some, if◌then◌else◌, Bytes, codes, starts_with,
}
use c_http.Http.Headers.{HttpHeader}
use c_http.Http.Accept.{
  one_weight, accepts_parse_q, range_loop, rate_headers, offer_loop, first_valid, has_accept,
  http_req_accepts,
}

-- A reader of the weights 0, 0.5 and 1.
abbrev read_half : Bytes → Option ℕ
read_half s =
    if starts_with s (codes "0.5")
    then some 4602678819172646912
    else if starts_with s (codes "0")
    then some 0
    else if starts_with s (codes "1")
    then some one_weight
    else none

abbrev accept : Bytes → List HttpHeader
accept value = record { key = codes "accept"; value = value } ∷ []

abbrev offers : List Bytes
offers = codes "text/html" ∷ codes "application/json" ∷ []

-- The weight decides between equal scores.
json_taken :
    http_req_accepts read_half (accept (codes "text/html;q=0.5, application/json")) offers
    ≡ some (codes "application/json")
unfolding http_req_accepts has_accept offer_loop rate_headers range_loop accepts_parse_q
json_taken = refl

-- A type that is refused by name is taken by the wildcard behind it.
refused_taken :
    http_req_accepts read_half (accept (codes "text/html;q=0, */*")) (codes "text/html" ∷ [])
    ≡ some (codes "text/html")
unfolding http_req_accepts has_accept offer_loop rate_headers range_loop accepts_parse_q
refused_taken = refl

-- Without an Accept header the first offer with a slash is taken.
first_taken : http_req_accepts read_half [] (codes "html" ∷ offers) ≡ some (codes "text/html")
unfolding http_req_accepts has_accept first_valid
first_taken = refl

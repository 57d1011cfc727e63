-- ===== src/Encoder.antt =====
-- src/c_http_encoder.c: the content encoders. The encoders themselves are functions of zlib or the
-- application. Of the weights only their sign matters, so strtod() is a parameter `positive`: none
-- where it reads no number or one that is not at least 0, otherwise whether it is above 0.
pub mod Negotiation
pub mod Wanted
pub mod Chosen
pub mod Tests
use c_http.Base.{
  ℕ, zero, suc, ◌+◌, ◌*◌, Bool, true, false, not, ◌&&◌, ◌||◌, List, [], ◌∷◌, ◌++◌, Option, none,
  some, if◌then◌else◌, ◌==◌, leb, Bytes, codes, length, is_ows, deref, advance, drop, take_while,
  drop_while, trim_end, str_case_eq, str_eq,
}
use c_http.Http.Headers.{HttpHeader, HttpHeaders, find_header}
use c_http.Http.Response.{HttpResponse, http_set_header}
use c_http.Http.Token.{is_separator, not_comma}

-- `encode` gives `none` when it fails.
pub record HttpEncoder : Type 0 where
  pub name : Bytes
  pub encode : Bytes → Option Bytes

pub record HttpEncoders : Type 0 where
  pub encoders : List HttpEncoder
  pub capacity : ℕ

-- sizeof(HttpEncoder): two pointers
abbrev pub sizeof_encoder : ℕ
sizeof_encoder = 16

abbrev pub identity_encode : (ℕ → Bool) → Bytes → Option Bytes
identity_encode mem bytes =
    if mem (if length bytes == 0 then 1 else length bytes) then some bytes else none

abbrev pub add_encoder : HttpEncoders → HttpEncoder → ℕ → HttpEncoders
add_encoder h encoder cap = record { encoders = h.encoders ++ (encoder ∷ []); capacity = cap }

-- `http_register_encoder`: `false` is the error.
unfoldable pub http_register_encoder : (ℕ → Bool) → HttpEncoders → HttpEncoder → HttpEncoders × Bool
http_register_encoder mem h encoder =
    let new_cap = if h.capacity == 0 then 4 else h.capacity * 2 in
    if not (length h.encoders == h.capacity)
    then (add_encoder h encoder h.capacity, true)
    else if not (mem (new_cap * sizeof_encoder))
    then (h, false)
    else (add_encoder h encoder new_cap, true)

abbrev pub in_name : ℕ → Bool
in_name c = not (c == b',') && not (c == b';')

-- The weight at `p` behind the blanks, if there is one; `q` says whether the weight is above 0.
abbrev pub weight : (Bytes → Option Bool) → Bool → Bytes → Bool
weight positive q p =
    if (deref p == b'q' || deref p == b'Q') && deref (advance p) == b'='
    then elim (positive (drop 2 p)) as (λ _. Bool) [ none ↦ q | some above ↦ above ]
    else q

-- `parse_q`: the weight and the pointer behind the parameters. Each round takes a byte at least.
unfoldable pub parse_q : ℕ → (Bytes → Option Bool) → Bool → Bytes → Bool × Bytes
parse_q zero positive q p = (q, p)
parse_q (suc fuel) positive q p =
    let r = drop_while is_ows (advance p) in
    let next = parse_q fuel positive (weight positive q r) (drop_while in_name r) in
    if deref p == b';' then next else (q, p)

-- The variables of `http_accepts_encoding`; `wildcard_ok` is `wildcard_q > 0.0`.
pub record Accepts : Type 0 where
  pub specific_found : Bool
  pub specific_ok : Bool
  pub wildcard_found : Bool
  pub wildcard_ok : Bool

-- An element with this name and weight.
abbrev pub element : Bytes → Bytes → Bool → Accepts → Accepts
element encoding name q st =
    if str_eq name (codes "*")
    then record st { wildcard_found = true; wildcard_ok = q || st.wildcard_ok }
    else if str_case_eq name encoding
    then record st { specific_found = true; specific_ok = q || st.specific_ok }
    else st

abbrev pub next_element : Bytes → Bytes
next_element p = let q = drop_while not_comma p in if deref q == b',' then advance q else q

abbrev pub weighed : (Bytes → Option Bool) → Bytes → Bool × Bytes
weighed positive p = if deref p == b';' then parse_q (length p) positive true p else (true, p)

-- The loop over a value. Each round takes a byte at least.
unfoldable pub accept_loop : ℕ → (Bytes → Option Bool) → Bytes → Bytes → Accepts → Accepts
accept_loop zero positive encoding p st = st
accept_loop (suc fuel) positive encoding p st =
    let start = drop_while is_separator p in
    let name = trim_end is_ows (take_while in_name start) in
    let (q, behind) = weighed positive (drop_while in_name start) in
    let next =
      accept_loop fuel positive encoding (next_element behind) (element encoding name q st) in
    if length p == 0 then st else if length start == 0 then st else next

unfoldable pub accept_headers : (Bytes → Option Bool) → Bytes → List HttpHeader → Accepts → Accepts
accept_headers positive encoding [] st = st
accept_headers positive encoding (x ∷ headers) st =
    let other = accept_headers positive encoding headers st in
    let next =
      accept_headers positive encoding headers
        (accept_loop (length x.value) positive encoding x.value st) in
    if str_case_eq x.key (codes "Accept-Encoding") then next else other

abbrev pub none_seen : Accepts
none_seen = record {
  specific_found = false;
  specific_ok = false;
  wildcard_found = false;
  wildcard_ok = false;
}

unfoldable pub http_accepts_encoding : (Bytes → Option Bool) → List HttpHeader → Bytes → Bool
http_accepts_encoding positive headers encoding =
    let st = accept_headers positive encoding headers none_seen in
    if length encoding == 0
    then false
    else if st.specific_found
    then st.specific_ok
    else st.wildcard_found && st.wildcard_ok

abbrev pub source_body : HttpResponse → Bytes
source_body res = elim res.dyn_body as (λ _. Bytes) [ none ↦ res.body | some body ↦ body ]

-- Try an encoder that is accepted; `again` goes on with the next.
abbrev pub try_encoded :
    (ℕ → Bool)
    → HttpResponse
    → HttpEncoder
    → Option Bytes
    → HttpResponse × Bool
    → HttpResponse × Bool
try_encoded mem res encoder none again = again
try_encoded mem res encoder (some encoded) again =
    if leb (length (source_body res)) (length encoded) then again else (
      record res {
        encoded_body = some encoded;
        headers = (http_set_header mem res.headers (codes "Content-Encoding") encoder.name).0;
      },
      true,
    )

unfoldable pub try_encoders :
    (ℕ → Bool)
    → (Bytes → Option Bool)
    → List HttpHeader
    → HttpResponse
    → List HttpEncoder
    → HttpResponse × Bool
try_encoders mem positive headers res [] = (res, false)
try_encoders mem positive headers res (encoder ∷ encoders) =
    let again = try_encoders mem positive headers res encoders in
    if not (http_accepts_encoding positive headers encoder.name)
    then again
    else try_encoded mem res encoder (encoder.encode (source_body res)) again

abbrev pub is_encoded : Option Bytes → Bool
is_encoded none = false
is_encoded (some body) = true

unfoldable pub http_encode_body :
    (ℕ → Bool)
    → (Bytes → Option Bool)
    → List HttpEncoder
    → List HttpHeader
    → HttpResponse
    → HttpResponse × Bool
http_encode_body mem positive encoders headers res =
    if length (source_body res) == 0 || is_encoded res.encoded_body
    then (res, false)
    else if is_encoded (find_header res.headers.items (codes "Content-Encoding"))
    then (res, false)
    else try_encoders mem positive headers res encoders

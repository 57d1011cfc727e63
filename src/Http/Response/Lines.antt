-- ===== src/Http/Response/Lines.antt =====
-- The parts of a response as header lines.
use c_http.Base.{
  ℕ, zero, suc, ◌+◌, ◌≤◌, ◌≡◌, refl, ap, ◌∙◌, Bool, true, false, not, ◌&&◌, ◌||◌, List, [], ◌∷◌,
  ◌++◌, append_assoc, map, if◌then◌else◌, ltb, leb, Bytes, codes, All, all_below, all_below_sound,
  length, length-append, take, arith, inl, inr, Bool-cases,
}
use c_http.Base.Decimal.{digits_loop, decimal}
use c_http.Http.Fields.{is_valid_status_code, header_value_has_injection}
use c_http.Http.Headers.{HttpHeader}
use c_http.Http.HeaderBlock.Format.{format_header, format_headers}
use c_http.Http.Response.Send.{
  Prepared, selected_body, crlf, status_line, sent_length, sent_length_line, has_content_type,
  header_line, header_parts, head_parts,
}
use c_http.Http.Response.Whole.{joined, sent_body, response_text}
use c_http.Http.Status.{text_in, status_text}

pub take_whole {ℓ} : {A : Type ℓ} (n : ℕ) (xs : List A) → length xs ≤ n → take n xs ≡ xs
take_whole zero [] h = refl
take_whole zero (x ∷ xs) h = absurd (omega (arith, h))
take_whole (suc n) [] h = refl
take_whole (suc n) (x ∷ xs) h = ap (◌∷◌ x) (take_whole n xs (omega (arith, h)))

-- The status line without its line break.
abbrev pub status_head : ℕ → Bytes
status_head status = codes "HTTP/1.1 " ++ decimal status ++ codes " " ++ status_text status

abbrev fits_line : ℕ → Bool
fits_line status =
    not (is_valid_status_code status)
    || (leb (length (status_head status)) 61
        && not (header_value_has_injection (status_head status)))

status_head_small : all_below 600 fits_line ≡ true
unfolding all_below decimal digits_loop status_text text_in is_valid_status_code
    header_value_has_injection
status_head_small = refl

pub status_head_fits :
    (status : ℕ)
    → is_valid_status_code status ≡ true
    → (length (status_head status) ≤ 61) × (header_value_has_injection (status_head status) ≡ false)
unfolding is_valid_status_code
status_head_fits status v =
    let checked : fits_line status ≡ true =
      all_below_sound 600 fits_line status status_head_small (ground (arith, v)) in
    ground (arith, checked, v)

pub status_line-status_head :
    (status : ℕ)
    → is_valid_status_code status ≡ true
    → status_line status ≡ status_head status ++ crlf
unfolding status_line
status_line-status_head status v =
    let whole = length-append (status_head status) crlf in
    take_whole 63 (status_head status ++ crlf) (omega (arith, whole, (status_head_fits status v).0))

-- A header whose line is not cut.
abbrev pub IsShort : HttpHeader → Type 0
IsShort x = length x.key + length x.value ≤ 507

header_line-format_header : (x : HttpHeader) → IsShort x → header_line x ≡ format_header x ++ crlf
header_line-format_header x h =
    ap (λ s. take 511 (s ++ crlf)) (append_assoc x.key (codes ": ") x.value)
    ∙ take_whole 511 (format_header x ++ crlf) (
        omega (
          arith,
          h,
          length-append (format_header x) crlf,
          length-append x.key (b':' ∷ b' ' ∷ x.value),
        ))

joined-header_lines :
    (items : List HttpHeader) (behind : Bytes)
    → All IsShort items
    → joined (map header_line items ++ (crlf ∷ [])) ++ behind ≡ format_headers items behind
joined-header_lines [] behind h = refl
joined-header_lines (x ∷ items) behind h =
    append_assoc (header_line x) (joined (map header_line items ++ (crlf ∷ []))) behind
    ∙ ap (λ s. s ++ (joined (map header_line items ++ (crlf ∷ [])) ++ behind))
        (header_line-format_header x h.0)
    ∙ append_assoc (format_header x) crlf (joined (map header_line items ++ (crlf ∷ [])) ++ behind)
    ∙ ap (λ s. format_header x ++ (b'\r' ∷ b'\n' ∷ s)) (joined-header_lines items behind h.1)

-- The headers that are sent: the length, a default type, and those of the response.
abbrev pub length_header : Prepared → HttpHeader
length_header p = record { key = codes "Content-Length"; value = decimal (sent_length p) }

abbrev pub default_type : Prepared → List HttpHeader
default_type p =
    if has_content_type p.res.headers.items
    then []
    else if p.streaming
    then record { key = codes "Content-Type"; value = codes "application/octet-stream" } ∷ []
    else if ltb 0 (length (selected_body p.res))
    then record { key = codes "Content-Type"; value = codes "text/html" } ∷ []
    else []

abbrev pub sent_headers : Prepared → List HttpHeader
sent_headers p = length_header p ∷ (default_type p ++ p.res.headers.items)

joined-header_parts :
    (p : Prepared) (behind : Bytes)
    → All IsShort p.res.headers.items
    → joined (header_parts p) ++ behind
      ≡ format_headers (default_type p ++ p.res.headers.items) behind
joined-header_parts p behind h = elim (Bool-cases (has_content_type p.res.headers.items)) [
  | inl typed ↦ rw typed (joined-header_lines p.res.headers.items behind h)
  | inr untyped ↦ elim (Bool-cases p.streaming) [
    | inl streaming ↦
        rw (untyped, streaming) (rw (joined-header_lines p.res.headers.items behind h) refl)
    | inr fixed ↦ elim (Bool-cases (ltb 0 (length (selected_body p.res)))) [
      | inl filled ↦
          rw (untyped, fixed, filled) (rw (joined-header_lines p.res.headers.items behind h) refl)
      | inr empty ↦ rw (untyped, fixed, empty) (joined-header_lines p.res.headers.items behind h)
    ]
  ]
]

-- The whole text, for a status with a body.
pub response_text-format_headers :
    (p : Prepared) (suppress_body : Bool)
    → p.no_body_status ≡ false
    → is_valid_status_code p.res.status ≡ true
    → All IsShort p.res.headers.items
    → response_text p suppress_body
      ≡ status_head p.res.status
        ++ (b'\r' ∷ b'\n' ∷ format_headers (sent_headers p) (sent_body p suppress_body))
unfolding head_parts
response_text-format_headers p suppress_body body v h =
    let head = status_head p.res.status in
    let parts = joined (header_parts p) in
    let sized = sent_length_line p in
    let behind = sent_body p suppress_body in
    let rest = format_headers (default_type p ++ p.res.headers.items) behind in
    let whole : joined (head_parts p) ≡ status_line p.res.status ++ (sized ++ parts) =
      rw body refl in
    ap (λ s. s ++ behind) whole
    ∙ append_assoc (status_line p.res.status) (sized ++ parts) behind
    ∙ ap (λ s. status_line p.res.status ++ s) (append_assoc sized parts behind)
    ∙ ap (λ s. status_line p.res.status ++ (sized ++ s)) (joined-header_parts p behind h)
    ∙ ap (λ s. s ++ (sized ++ rest)) (status_line-status_head p.res.status v)
    ∙ append_assoc head crlf (sized ++ rest)
    ∙ ap (λ s. head ++ (crlf ++ s)) (append_assoc (format_header (length_header p)) crlf rest)

-- ===== src/Http/HeaderBlock/Format.antt =====
-- A header block as a client writes it is read back.
use c_http.Base.{
  ℕ, zero, suc, ◌+◌, ◌≤◌, ◌<◌, ◌≡◌, refl, ap, sym, ◌∙◌, Bool, true, false, ◌&&◌, ◌||◌, List, [],
  ◌∷◌, ◌++◌, some, append_assoc, append-nil, ◌==◌, leb, Bytes, length, length-append, All, all,
  is_ows, deref, drop_while, take_while-append, drop_while-append, trim_end, arith,
}
use c_http.Http.Fields.{is_tchar, all_name_chars, is_valid_header_name, header_value_has_injection}
use c_http.Http.Headers.{HttpHeader, HttpHeaders, grow_headers, append_header, apply_header}
use c_http.Http.HeaderBlock.{
  not_colon, in_front, cut_line, split_line, if_stored, headers_loop, parse_headers,
}

-- A header that can be sent: a name by RFC 9110, and a value with no line break and no blanks
-- around it.
pub record IsSendable (x : HttpHeader) : Type 0 where
  pub named : is_valid_header_name x.key ≡ true
  pub safe : header_value_has_injection x.value ≡ false
  pub no_lead : drop_while is_ows x.value ≡ x.value
  pub no_trail : trim_end is_ows x.value ≡ x.value

abbrev pub format_header : HttpHeader → Bytes
format_header x = x.key ++ (b':' ∷ b' ' ∷ x.value)

abbrev pub format_headers : List HttpHeader → Bytes → Bytes
format_headers [] rest = b'\r' ∷ b'\n' ∷ rest
format_headers (x ∷ items) rest = format_header x ++ (b'\r' ∷ b'\n' ∷ format_headers items rest)

pub cut_line-append :
    (line rest : Bytes)
    → header_value_has_injection line ≡ false
    → cut_line (line ++ (b'\r' ∷ b'\n' ∷ rest)) ≡ some (line, rest)
unfolding cut_line header_value_has_injection
cut_line-append [] rest h = refl
cut_line-append (c ∷ []) rest h = ground arith
cut_line-append (c ∷ d ∷ s) rest h =
    let plain : (c == b'\r' && d == b'\n') ≡ false = ground arith in
    rw plain (ap (in_front c) (cut_line-append (d ∷ s) rest (ground arith)))

injection-append :
    (s t : Bytes)
    → header_value_has_injection s ≡ false
    → header_value_has_injection t ≡ false
    → header_value_has_injection (s ++ t) ≡ false
unfolding header_value_has_injection
injection-append [] t h k = k
injection-append (c ∷ s) t h k = ground (arith, injection-append s t (ground arith) k)

name_plain :
    (s : Bytes)
    → all_name_chars s ≡ true
    → (all not_colon s ≡ true) × (header_value_has_injection s ≡ false)
unfolding all_name_chars is_tchar header_value_has_injection
name_plain [] h = (refl, refl)
name_plain (c ∷ s) h = ground (arith, name_plain s)

named_chars : (s : Bytes) → is_valid_header_name s ≡ true → all_name_chars s ≡ true
unfolding is_valid_header_name
named_chars [] h = cc
named_chars (c ∷ s) h = h

behind_colon :
    (s : Bytes)
    → header_value_has_injection s ≡ false
    → header_value_has_injection (b':' ∷ b' ' ∷ s) ≡ false
unfolding header_value_has_injection
behind_colon s h = h

starts_header :
    (x : HttpHeader) (rest : Bytes)
    → IsSendable x
    → (length (format_header x ++ rest) == 0 || deref (format_header x ++ rest) == b'\r') ≡ false
unfolding header_value_has_injection
starts_header x rest v = first x.key (name_plain x.key (named_chars x.key v.named)).1
  where
    first :
        (key : Bytes)
        → header_value_has_injection key ≡ false
        → (length ((key ++ (b':' ∷ b' ' ∷ x.value)) ++ rest) == 0
            || deref ((key ++ (b':' ∷ b' ' ∷ x.value)) ++ rest) == b'\r')
          ≡ false
    first [] h = ground arith
    first (c ∷ key) h = ground arith

split_line-format_header :
    (x : HttpHeader) → IsSendable x → split_line (format_header x) ≡ some (x.key, x.value)
unfolding split_line
split_line-format_header x v =
    let plain = (name_plain x.key (named_chars x.key v.named)).0 in
    rw
      (
        take_while-append not_colon x.key (b':' ∷ b' ' ∷ x.value) plain refl,
        drop_while-append not_colon x.key (b':' ∷ b' ' ∷ x.value) plain refl,
      )
      (rw v.no_lead (rw v.no_trail refl))

pub format_header-safe :
    (x : HttpHeader) → IsSendable x → header_value_has_injection (format_header x) ≡ false
format_header-safe x v =
    injection-append x.key (b':' ∷ b' ' ∷ x.value) (name_plain x.key (named_chars x.key v.named)).1
      (behind_colon x.value v.safe)

apply_header_stored :
    (h : HttpHeaders) (x : HttpHeader)
    → IsSendable x
    → ((apply_header (λ n. true) h x.key x.value).1 ≡ true)
      × ((apply_header (λ n. true) h x.key x.value).0.items ≡ h.items ++ (x ∷ []))
unfolding apply_header append_header grow_headers
apply_header_stored h x v = ground (arith, v.named, v.safe)

if_stored-true :
    (r : HttpHeaders × Bool) (again : HttpHeaders → HttpHeaders × ℕ)
    → r.1 ≡ true
    → if_stored r again ≡ again r.0
if_stored-true (h, true) again e = refl
if_stored-true (h, false) again e = cc

-- A round of the loop on a header.
headers_loop-header :
    (fuel : ℕ) (x : HttpHeader) (rest : Bytes) (h : HttpHeaders)
    → IsSendable x
    → length h.items < 64
    → headers_loop (suc fuel) (λ n. true) (format_header x ++ (b'\r' ∷ b'\n' ∷ rest)) h
      ≡ headers_loop fuel (λ n. true) rest (apply_header (λ n. true) h x.key x.value).0
unfolding headers_loop
headers_loop-header fuel x rest h v room =
    let full : leb 64 (length h.items) ≡ false = ground arith in
    let begins = starts_header x (b'\r' ∷ b'\n' ∷ rest) v in
    rw begins (
      rw (cut_line-append (format_header x) rest (format_header-safe x v)) (
        rw (split_line-format_header x v) (
          rw (v.named, v.safe, full)
            (if_stored-true _ (headers_loop fuel (λ n. true) rest) (apply_header_stored h x v).0))))

headers_loop_end :
    (fuel : ℕ) (rest : Bytes) (h : HttpHeaders)
    → headers_loop (suc fuel) (λ n. true) (b'\r' ∷ b'\n' ∷ rest) h ≡ (h, 0)
unfolding headers_loop
headers_loop_end fuel rest h = ground arith

headers_loop-format_headers :
    (items : List HttpHeader) (fuel : ℕ) (rest : Bytes) (h : HttpHeaders)
    → All IsSendable items
    → length h.items + length items ≤ 64
    → length (format_headers items rest) ≤ fuel
    → ((headers_loop fuel (λ n. true) (format_headers items rest) h).0.items ≡ h.items ++ items)
      × ((headers_loop fuel (λ n. true) (format_headers items rest) h).1 ≡ 0)
headers_loop-format_headers [] zero rest h v room enough = absurd (omega arith)
headers_loop-format_headers [] (suc fuel) rest h v room enough =
    rw (headers_loop_end fuel rest h) (sym (append-nil h.items), refl)
headers_loop-format_headers (x ∷ items) zero rest h v room enough =
    absurd
      (omega (arith, length-append (format_header x) (b'\r' ∷ b'\n' ∷ format_headers items rest)))
headers_loop-format_headers (x ∷ items) (suc fuel) rest h v room enough =
    let (added, stored) = apply_header_stored h x v.0 in
    let one_more : length (h.items ++ (x ∷ [])) ≡ length h.items + 1 =
      length-append h.items (x ∷ []) in
    let next =
      headers_loop-format_headers items fuel rest (apply_header (λ n. true) h x.key x.value).0 v.1
        (omega (arith, ap length stored, one_more))
        (omega
          (arith, length-append (format_header x) (b'\r' ∷ b'\n' ∷ format_headers items rest))) in
    rw (headers_loop-header fuel x (format_headers items rest) h v.0 (omega arith)) (
      next.0
          ∙ ap (λ (t : List HttpHeader). t ++ items) stored
          ∙ append_assoc h.items (x ∷ []) items,
      next.1,
    )

-- With memory, the headers of a block that is written line by line and ended by an empty line are
-- all stored, in their order, whatever follows, as long as they are at most 64, their names are
-- valid and their values have no line break and no blanks around them.
pub parse_headers-format_headers :
    (items : List HttpHeader) (rest : Bytes) (h : HttpHeaders)
    → All IsSendable items
    → length h.items + length items ≤ 64
    → ((parse_headers (λ n. true) (format_headers items rest) h).0.items ≡ h.items ++ items)
      × ((parse_headers (λ n. true) (format_headers items rest) h).1 ≡ 0)
unfolding parse_headers
parse_headers-format_headers items rest h v room =
    headers_loop-format_headers items (length (format_headers items rest)) rest h v room
      (omega arith)

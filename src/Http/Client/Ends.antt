-- ===== src/Http/Client/Ends.antt =====
-- Where the request line and the header block end in what was received.
use c_http.Base.{
  ℕ, suc, ◌+◌, ◌≡◌, refl, sym, ap, ◌∙◌, true, false, List, [], ◌∷◌, ◌++◌, append_assoc, some, ◌==◌,
  Bytes, all, All, starts_with, deref, length, take, drop, arith,
}
use c_http.Http.Fields.{header_value_has_injection, all_name_chars, is_valid_header_name}
use c_http.Http.Headers.{HttpHeader}
use c_http.Http.HeaderBlock.Format.{IsSendable, format_header, format_headers, format_header-safe}
use c_http.Http.Receive.{blank_line, not_nul, c_string}
use c_http.Http.Response.Send.{crlf}
use c_http.Http.Client.{find_sub}

-- The blank line in `text`, and what stands behind it in `buf`.
record BlankAt (text buf leftover : Bytes) : Type 0 where
  sep : ℕ
  found : find_sub blank_line text ≡ some sep
  behind : drop (sep + 4) buf ≡ leftover

BlankAt-cons :
    (c : ℕ) (text buf leftover : Bytes)
    → starts_with (c ∷ text) blank_line ≡ false
    → BlankAt text buf leftover
    → BlankAt (c ∷ text) (c ∷ buf) leftover
unfolding find_sub
BlankAt-cons c text buf leftover h v =
    let next : suc v.sep + 4 ≡ suc (v.sep + 4) = omega arith in
    record {
      sep = suc v.sep;
      found = rw (h, v.found) refl;
      behind = ap (λ n. drop n (c ∷ buf)) next ∙ v.behind;
    }

BlankAt-line :
    (line text buf leftover : Bytes)
    → header_value_has_injection line ≡ false
    → BlankAt text buf leftover
    → BlankAt (line ++ text) (line ++ buf) leftover
unfolding header_value_has_injection
BlankAt-line [] text buf leftover h v = v
BlankAt-line (c ∷ line) text buf leftover h v =
    BlankAt-cons c (line ++ text) (line ++ buf) leftover (ground (arith, h))
      (BlankAt-line line text buf leftover (ground (arith, h)) v)

BlankAt-break :
    (text buf leftover : Bytes)
    → deref text == b'\r' ≡ false
    → BlankAt text buf leftover
    → BlankAt (b'\r' ∷ b'\n' ∷ text) (b'\r' ∷ b'\n' ∷ buf) leftover
BlankAt-break [] buf leftover h v =
    BlankAt-cons b'\r' (b'\n' ∷ []) (b'\n' ∷ buf) leftover refl
      (BlankAt-cons b'\n' [] buf leftover refl v)
BlankAt-break (c ∷ text) buf leftover h v =
    BlankAt-cons b'\r' (b'\n' ∷ c ∷ text) (b'\n' ∷ buf) leftover (ground (arith, h))
      (BlankAt-cons b'\n' (c ∷ text) buf leftover refl v)

name_start :
    (x : HttpHeader) (rest : Bytes)
    → IsSendable x
    → deref (format_header x ++ rest) == b'\r' ≡ false
name_start x rest v = start x.key v.named
  where
    start :
        (key : Bytes)
        → is_valid_header_name key ≡ true
        → deref ((key ++ (b':' ∷ b' ' ∷ x.value)) ++ rest) == b'\r' ≡ false
    start [] h = refl
    start (c ∷ key) h = unfold is_valid_header_name all_name_chars in ground (arith, h)

BlankAt-end :
    (more leftover : Bytes)
    → BlankAt
        (b'\r' ∷ b'\n' ∷ b'\r' ∷ b'\n' ∷ more)
        (b'\r' ∷ b'\n' ∷ b'\r' ∷ b'\n' ∷ leftover)
        leftover
unfolding find_sub
BlankAt-end more leftover = record { sep = 0; found = refl; behind = refl }

BlankAt-block :
    (items : List HttpHeader) (more leftover : Bytes)
    → All IsSendable items
    → BlankAt
        (b'\r' ∷ b'\n' ∷ format_headers items more)
        (b'\r' ∷ b'\n' ∷ format_headers items leftover)
        leftover
BlankAt-block [] more leftover v = BlankAt-end more leftover
BlankAt-block (x ∷ items) more leftover v =
    let rest = b'\r' ∷ b'\n' ∷ format_headers items more in
    let buf = b'\r' ∷ b'\n' ∷ format_headers items leftover in
    BlankAt-break (format_header x ++ rest) (format_header x ++ buf) leftover
      (name_start x rest v.0)
      (BlankAt-line (format_header x) rest buf leftover (format_header-safe x v.0)
        (BlankAt-block items more leftover v.1))

-- A request as a client writes it, `leftover` behind its header block.
abbrev pub format_request : Bytes → List HttpHeader → Bytes → Bytes
format_request line items leftover = line ++ (b'\r' ∷ b'\n' ∷ format_headers items leftover)

pub blank_at :
    (line : Bytes) (items : List HttpHeader) (more leftover : Bytes)
    → header_value_has_injection line ≡ false
    → All IsSendable items
    → (sep : ℕ) × (find_sub blank_line (format_request line items more) ≡ some sep)
      × (drop (sep + 4) (format_request line items leftover) ≡ leftover)
blank_at line items more leftover h v =
    let at = BlankAt-line line _ _ leftover h (BlankAt-block items more leftover v) in
    (at.sep, at.found, at.behind)

-- The end of the first line.
pub line_end :
    (line rest : Bytes)
    → header_value_has_injection line ≡ false
    → (find_sub crlf (line ++ (b'\r' ∷ b'\n' ∷ rest)) ≡ some (length line))
      × (take (length line) (line ++ (b'\r' ∷ b'\n' ∷ rest)) ≡ line)
      × (drop (length line + 2) (line ++ (b'\r' ∷ b'\n' ∷ rest)) ≡ rest)
unfolding header_value_has_injection find_sub
line_end [] rest h = (refl, refl, refl)
line_end (c ∷ line) rest h =
    let (found, front, behind) = line_end line rest (ground (arith, h)) in
    let next : length (c ∷ line) + 2 ≡ suc (length line + 2) = omega arith in
    let here : starts_with (c ∷ (line ++ (b'\r' ∷ b'\n' ∷ rest))) crlf ≡ false =
      ground (arith, h) in
    (
      rw (here, found) refl,
      ap (◌∷◌ c) front,
      ap (λ n. drop n (c ∷ (line ++ (b'\r' ∷ b'\n' ∷ rest)))) next ∙ behind,
    )

c_string-append : (s t : Bytes) → all not_nul s ≡ true → c_string (s ++ t) ≡ s ++ c_string t
c_string-append [] t h = refl
c_string-append (c ∷ s) t h = ground (arith, c_string-append s t)

-- A value without a NUL.
abbrev pub HasNoNul : HttpHeader → Type 0
HasNoNul x = all not_nul x.value ≡ true

name_no_nul : (s : Bytes) → all_name_chars s ≡ true → all not_nul s ≡ true
unfolding all_name_chars
name_no_nul [] h = refl
name_no_nul (c ∷ s) h = ground (arith, name_no_nul s)

key_no_nul : (s : Bytes) → is_valid_header_name s ≡ true → all not_nul s ≡ true
unfolding is_valid_header_name
key_no_nul [] h = refl
key_no_nul (c ∷ s) h = name_no_nul (c ∷ s) h

c_string-format_headers :
    (items : List HttpHeader) (leftover : Bytes)
    → All IsSendable items
    → All HasNoNul items
    → c_string (format_headers items leftover) ≡ format_headers items (c_string leftover)
c_string-format_headers [] leftover v w = refl
c_string-format_headers (x ∷ items) leftover v w =
    let rest = format_headers items leftover in
    let behind = c_string-format_headers items leftover v.1 w.1 in
    ap c_string (append_assoc x.key (b':' ∷ b' ' ∷ x.value) (b'\r' ∷ b'\n' ∷ rest))
    ∙ c_string-append x.key (b':' ∷ b' ' ∷ (x.value ++ (b'\r' ∷ b'\n' ∷ rest)))
        (key_no_nul x.key v.0.named)
    ∙ ap (λ s. x.key ++ (b':' ∷ b' ' ∷ s)) (c_string-append x.value (b'\r' ∷ b'\n' ∷ rest) w.0)
    ∙ ap (λ s. x.key ++ (b':' ∷ b' ' ∷ (x.value ++ (b'\r' ∷ b'\n' ∷ s)))) behind
    ∙ sym (
        append_assoc x.key (b':' ∷ b' ' ∷ x.value)
          (b'\r' ∷ b'\n' ∷ format_headers items (c_string leftover)))

pub c_string-format_request :
    (line : Bytes) (items : List HttpHeader) (leftover : Bytes)
    → all not_nul line ≡ true
    → All IsSendable items
    → All HasNoNul items
    → c_string (format_request line items leftover) ≡ format_request line items (c_string leftover)
c_string-format_request line items leftover h v w =
    c_string-append line (b'\r' ∷ b'\n' ∷ format_headers items leftover) h
    ∙ ap (λ s. line ++ (b'\r' ∷ b'\n' ∷ s)) (c_string-format_headers items leftover v w)

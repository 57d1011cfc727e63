-- ===== src/Http/Json/Written.antt =====
-- `json_decode_string` on a string that is written in pieces.
use c_http.Base.{
  ℕ, zero, suc, ◌+◌, ◌*◌, ◌/◌, ◌%◌, ◌≤◌, ◌<◌, ◌-◌, ◌^◌, ◌≡◌, refl, sym, ap, ◌∙◌, Bool, false, List,
  [], ◌∷◌, ◌++◌, some, ◌==◌, Bytes, length, length-append, append_assoc, append-nil, All, arith,
}
use c_http.Http.Query.Decode.{hex_digit, hex_val-hex_digit}
use c_http.Http.Json.{
  hex4_loop, json_hex4, json_utf8_encode, Decoded, decoded, overrun, simple_escape, put_byte,
  escape, string_loop, json_decode_string,
}
use c_http.Http.Json.Pieces.{
  Short, quote, backslash, slash, backspace, form_feed, newline, return, tab, letter, meaning,
  Piece, plain, short, unicode, hex4, piece_text, text_of, utf8, piece_bytes, bytes_of, IsCodePoint,
  IsPiece, piece_text-pos, piece_bytes-pos,
}

hex4_loop_step :
    (upper : Bool) (n v d : ℕ) (p : Bytes)
    → d < 16
    → hex4_loop (suc n) v (hex_digit upper d ∷ p) ≡ hex4_loop n (v * 16 + d) p
unfolding hex4_loop
hex4_loop_step upper n v d p h = rw (hex_val-hex_digit upper d h, hex4_loop) refl

json_hex4-hex4 :
    (upper : Bool) (cp : ℕ) (p : Bytes) → cp < 2 ^ 16 → json_hex4 (hex4 upper cp ++ p) ≡ some cp
unfolding hex4_loop
json_hex4-hex4 upper cp p h =
    let d1 = cp / 256 % 16 in
    let d2 = cp / 16 % 16 in
    let d3 = cp % 16 in
    let p3 = hex_digit upper d3 ∷ p in
    let p2 = hex_digit upper d2 ∷ p3 in
    let v1 = cp / 4096 in
    hex4_loop_step upper 3 0 (cp / 4096) (hex_digit upper d1 ∷ p2) (omega arith)
    ∙ hex4_loop_step upper 2 (0 * 16 + v1) d1 p2 (omega arith)
    ∙ hex4_loop_step upper 1 ((0 * 16 + v1) * 16 + d1) d2 p3 (omega arith)
    ∙ hex4_loop_step upper 0 (((0 * 16 + v1) * 16 + d1) * 16 + d2) d3 p (omega arith)
    ∙ ap some (omega arith)

json_utf8_encode-utf8 :
    (cp room : ℕ)
    → IsCodePoint cp
    → length (utf8 cp) ≤ room
    → json_utf8_encode cp room ≡ some (utf8 cp)
unfolding json_utf8_encode
json_utf8_encode-utf8 cp room v h =
    let p = v.no_nul in let q = v.not_surrogate in let r = v.four_digits in ground arith

simple_escape-letter : (e : Short) → simple_escape (letter e) ≡ some (meaning e)
unfolding simple_escape
simple_escape-letter quote = refl
simple_escape-letter backslash = refl
simple_escape-letter slash = refl
simple_escape-letter backspace = refl
simple_escape-letter form_feed = refl
simple_escape-letter newline = refl
simple_escape-letter return = refl
simple_escape-letter tab = refl

-- A piece is read by one round, with what it stands for added. Only a unicode escape may fill the
-- buffer.
abbrev Fits : Piece → ℕ → ℕ → Type 0
Fits (unicode upper cp) used size = used + length (utf8 cp) ≤ size
Fits x used size = used + 1 < size

put_byte_room :
    (again : Bytes → Bytes → Decoded) (size : ℕ) (out : Bytes) (c : ℕ) (p : Bytes)
    → length out + 1 < size
    → put_byte again size out c p ≡ again (out ++ (c ∷ [])) p
unfolding put_byte
put_byte_room again size out c p h = ground arith

letter-ne-u : (e : Short) → letter e == b'u' ≡ false
letter-ne-u quote = refl
letter-ne-u backslash = refl
letter-ne-u slash = refl
letter-ne-u backspace = refl
letter-ne-u form_feed = refl
letter-ne-u newline = refl
letter-ne-u return = refl
letter-ne-u tab = refl

escape-letter :
    (again : Bytes → Bytes → Decoded) (size : ℕ) (out : Bytes) (e : Short) (p : Bytes)
    → length out + 1 < size
    → escape again size out (letter e ∷ p) ≡ again (out ++ (meaning e ∷ [])) p
unfolding escape
escape-letter again size out e p h =
    rw (letter-ne-u e, simple_escape-letter e) (put_byte_room again size out (meaning e) p h)

escape-unicode :
    (again : Bytes → Bytes → Decoded) (size : ℕ) (out : Bytes) (upper : Bool) (cp : ℕ) (p : Bytes)
    → IsCodePoint cp
    → length out + length (utf8 cp) ≤ size
    → escape again size out (b'u' ∷ (hex4 upper cp ++ p)) ≡ again (out ++ utf8 cp) p
unfolding escape
escape-unicode again size out upper cp p v h =
    rw (json_hex4-hex4 upper cp p v.four_digits)
      (rw (json_utf8_encode-utf8 cp (size - length out) v (omega arith)) refl)

string_loop-piece :
    (fuel size : ℕ) (out : Bytes) (x : Piece) (p : Bytes)
    → IsPiece x
    → Fits x (length out) size
    → string_loop (suc fuel) size out (piece_text x ++ p)
      ≡ string_loop fuel size (out ++ piece_bytes x) p
unfolding string_loop
string_loop-piece fuel size out (plain c) p v h =
    let a = v.printable in
    let b = v.not_quote in
    let d = v.not_backslash in ground (arith, put_byte_room (string_loop fuel size) size out c p h)
string_loop-piece fuel size out (short e) p v h =
    escape-letter (string_loop fuel size) size out e p h
string_loop-piece fuel size out (unicode upper cp) p v h =
    escape-unicode (string_loop fuel size) size out upper cp p v h

Fits-room : (x : Piece) (used size : ℕ) → used + length (piece_bytes x) < size → Fits x used size
Fits-room (plain c) used size h = h
Fits-room (short e) used size h = h
Fits-room (unicode upper cp) used size h = omega (arith, h)

-- A round for each piece, and some more.
abbrev rounds : List Piece → ℕ → ℕ
rounds [] rest = rest
rounds (x ∷ xs) rest = suc (rounds xs rest)

string_loop-pieces :
    (xs : List Piece) (rest size : ℕ) (out p : Bytes)
    → All IsPiece xs
    → length out + length (bytes_of xs) < size
    → string_loop (rounds xs rest) size out (text_of xs ++ p)
      ≡ string_loop rest size (out ++ bytes_of xs) p
string_loop-pieces [] rest size out p v h =
    ap (λ o. string_loop rest size o p) (sym (append-nil out))
string_loop-pieces (x ∷ xs) rest size out p v h =
    let used = length-append (piece_bytes x) (bytes_of xs) in
    let now = length-append out (piece_bytes x) in
    let room : length out + length (piece_bytes x) + length (bytes_of xs) < size =
      omega (arith, h, used) in
    rw append_assoc (
      string_loop-piece (rounds xs rest) size out x (text_of xs ++ p) v.0
        (Fits-room x _ size (omega arith)))
    ∙ string_loop-pieces xs rest size (out ++ piece_bytes x) p v.1 (omega (arith, room, now))
    ∙ ap (λ o. string_loop rest size o p) (append_assoc out (piece_bytes x) (bytes_of xs))

rounds-split : (xs : List Piece) (fuel : ℕ) → length xs ≤ fuel → fuel ≡ rounds xs (fuel - length xs)
rounds-split [] fuel h = omega arith
rounds-split (x ∷ xs) zero h = absurd (omega (arith, h))
rounds-split (x ∷ xs) (suc fuel) h =
    let e : suc fuel - length (x ∷ xs) ≡ fuel - length xs = omega arith in
    ap suc (rounds-split xs fuel (omega (arith, h)) ∙ ap (rounds xs) (sym e))

length-text_of : (xs : List Piece) → length xs ≤ length (text_of xs)
length-text_of [] = omega arith
length-text_of (x ∷ xs) =
    omega (arith, length-append (piece_text x) (text_of xs), piece_text-pos x, length-text_of xs)

-- A string as JSON writes it.
abbrev pub quoted : List Piece → Bytes → Bytes
quoted xs behind = b'"' ∷ (text_of xs ++ (b'"' ∷ behind))

json_decode_string-step :
    (xs ys : List Piece) (behind : Bytes) (size : ℕ)
    → All IsPiece xs
    → length (bytes_of xs) < size
    → (fuel : ℕ) × (length ys < fuel)
      × (json_decode_string (b'"' ∷ (text_of xs ++ (text_of ys ++ (b'"' ∷ behind)))) size
          ≡ string_loop fuel size (bytes_of xs) (text_of ys ++ (b'"' ∷ behind)))
unfolding json_decode_string
json_decode_string-step xs ys behind size v h =
    let tail = text_of ys ++ (b'"' ∷ behind) in
    let whole = suc (suc (length (text_of xs ++ tail))) in
    let inner = length-append (text_of xs) tail in
    let last = length-append (text_of ys) (b'"' ∷ behind) in
    let some_room : size == 0 ≡ false = ground (arith, h) in
    let enough : length xs ≤ whole = omega (arith, inner, length-text_of xs) in
    (
      whole - length xs,
      omega (arith, inner, last, length-text_of xs, length-text_of ys),
      rw some_room
            (ap (λ f. string_loop f size [] (text_of xs ++ tail)) (rounds-split xs whole enough))
          ∙ string_loop-pieces xs (whole - length xs) size [] tail v (omega (arith, h)),
    )

-- A string written in any of the ways of JSON, each byte by itself, by its short escape or by a
-- unicode escape with digits of either case, without NUL and surrogates, is decoded to the bytes
-- it stands for when `out` holds them and the NUL.
pub json_decode_string-quoted :
    (xs : List Piece) (behind : Bytes) (size : ℕ)
    → All IsPiece xs
    → length (bytes_of xs) < size
    → json_decode_string (quoted xs behind) size ≡ decoded (bytes_of xs)
json_decode_string-quoted xs behind size v h =
    let (fuel, left, e) = json_decode_string-step xs [] behind size v h in e ∙ close fuel left
  where
    close :
        (fuel : ℕ)
        → 0 < fuel
        → string_loop fuel size (bytes_of xs) (b'"' ∷ behind) ≡ decoded (bytes_of xs)
    close zero left = absurd (omega (arith, left))
    close (suc fuel) left = unfold string_loop in ground (arith, h)

full :
    (fuel : ℕ) (a b p : Bytes)
    → string_loop (suc fuel) (length a + length b) (a ++ b) (b'"' ∷ p) ≡ overrun
unfolding string_loop
full fuel a b p = ground (arith, length-append a b)

-- The branch of a unicode escape leaves no room for the NUL: a string whose last piece is a
-- unicode escape and whose bytes are as many as `out` has makes the code store the NUL one byte
-- behind the end of `out`.
pub json_decode_string_overrun :
    (xs : List Piece) (upper : Bool) (cp : ℕ) (behind : Bytes)
    → All IsPiece xs
    → IsCodePoint cp
    → json_decode_string
        (b'"' ∷ (text_of xs ++ (piece_text (unicode upper cp) ++ (b'"' ∷ behind))))
        (length (bytes_of xs) + length (utf8 cp))
      ≡ overrun
json_decode_string_overrun xs upper cp behind v w =
    let size = length (bytes_of xs) + length (utf8 cp) in
    let last = unicode upper cp in
    let (fuel, left, e) =
      json_decode_string-step xs (last ∷ []) behind size v (omega (arith, piece_bytes-pos last)) in
    e ∙ close fuel left
  where
    close :
        (fuel : ℕ)
        → 1 < fuel
        → string_loop fuel
            (length (bytes_of xs) + length (utf8 cp))
            (bytes_of xs)
            (text_of (unicode upper cp ∷ []) ++ (b'"' ∷ behind))
          ≡ overrun
    close zero left = absurd (omega (arith, left))
    close (suc zero) left = absurd (omega (arith, left))
    close (suc (suc fuel)) left =
        string_loop-piece (suc fuel) _ (bytes_of xs) (unicode upper cp) (b'"' ∷ behind) w
          (omega arith)
        ∙ full fuel (bytes_of xs) (utf8 cp) behind

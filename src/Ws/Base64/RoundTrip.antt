-- ===== src/Ws/Base64/RoundTrip.antt =====
-- Decoding what `base64_encode` wrote.
use c_http.Base.{
  ℕ, ◌+◌, ◌*◌, ◌/◌, ◌%◌, ◌^◌, ◌≤◌, ◌<◌, ◌≡◌, refl, ◌∙◌, Bool, true, false, not, ◌&&◌, ◌≢◌, none,
  some, [], ◌∷◌, ◌++◌, append-nil, append_assoc, arith, ◌==◌, length, length-append, length-pos,
  All, Bytes, IsByte, all_below, all_below_sound,
}
use c_http.Ws.Base64.{
  b64_char, encode_groups, base64_encode, base64_value, decode_char, decode_group, produced, is_nil,
  decode_groups, base64_decode,
}

-- The value of the character for `i` is `i`, and that character is not `=`.
reads_back : ℕ → Bool
reads_back i =
    elim (base64_value (b64_char i)) [ none ↦ false | some w ↦ w == i ] && not (b64_char i == b'=')

reads_back_table : all_below 64 reads_back ≡ true
unfolding all_below reads_back base64_value b64_char
reads_back_table = refl

b64_char_low : (v : ℕ) → b64_char v ≡ b64_char (v % 64)
unfolding b64_char
b64_char_low v = let e : v % 64 % 64 ≡ v % 64 = omega arith in rw e

base64_value-b64_char :
    (v : ℕ) → (base64_value (b64_char v) ≡ some (v % 64)) × (b64_char v == b'=' ≡ false)
unfolding reads_back
base64_value-b64_char v =
    let h = all_below_sound 64 reads_back (v % 64) reads_back_table (omega arith) in
    rw b64_char_low (ground (arith, h))

decode_char-b64_char :
    (last : Bool) (j acc v : ℕ)
    → decode_char last j (record { acc = acc; pad = 0 }) (b64_char v)
      ≡ some (record { acc = acc * 64 + v % 64; pad = 0 })
unfolding decode_char
decode_char-b64_char last j acc v =
    let (value, plain) = base64_value-b64_char v in rw (plain, value)

-- The groups that the encoder writes: full, one byte short, two bytes short.
decode_group_full :
    (last : Bool) (v : ℕ)
    → v < 2 ^ 24
    → decode_group last
        (b64_char (v / 2 ^ 18))
        (b64_char (v / 2 ^ 12))
        (b64_char (v / 2 ^ 6))
        (b64_char v)
      ≡ some (record { acc = v; pad = 0 })
unfolding decode_group
decode_group_full last v h =
    rw decode_char-b64_char
      (rw decode_char-b64_char (rw decode_char-b64_char (rw decode_char-b64_char (ground arith))))

decode_group_one :
    (v : ℕ)
    → v < 2 ^ 24
    → v % 64 ≡ 0
    → decode_group true (b64_char (v / 2 ^ 18)) (b64_char (v / 2 ^ 12)) (b64_char (v / 2 ^ 6)) b'='
      ≡ some (record { acc = v; pad = 1 })
unfolding decode_group
decode_group_one v h low =
    rw decode_char-b64_char
      (rw decode_char-b64_char (rw decode_char-b64_char (unfold decode_char in ground arith)))

decode_group_two :
    (v : ℕ)
    → v < 2 ^ 24
    → v % 2 ^ 12 ≡ 0
    → decode_group true (b64_char (v / 2 ^ 18)) (b64_char (v / 2 ^ 12)) b'=' b'='
      ≡ some (record { acc = v; pad = 2 })
unfolding decode_group
decode_group_two v h low =
    rw decode_char-b64_char (rw decode_char-b64_char (unfold decode_char in ground arith))

decode_groups_full :
    (c0 c1 c2 c3 v : ℕ) (rest : Bytes) (out_size : ℕ) (out : Bytes)
    → decode_group (is_nil rest) c0 c1 c2 c3 ≡ some (record { acc = v; pad = 0 })
    → length out + 3 ≤ out_size
    → decode_groups (c0 ∷ c1 ∷ c2 ∷ c3 ∷ rest) out_size out
      ≡ decode_groups rest out_size (out ++ produced (record { acc = v; pad = 0 }))
unfolding decode_groups
decode_groups_full c0 c1 c2 c3 v rest out_size out e fits = rw e (ground arith)

produced_full :
    (a b c : ℕ)
    → IsByte a
    → IsByte b
    → IsByte c
    → produced (record { acc = a * 2 ^ 16 + b * 2 ^ 8 + c; pad = 0 }) ≡ a ∷ b ∷ c ∷ []
unfolding produced
produced_full a b c ha hb hc = ground arith

decode_groups-encode_groups :
    (bytes : Bytes) (out_size : ℕ) (out : Bytes)
    → All IsByte bytes
    → length out + length bytes ≤ out_size
    → decode_groups (encode_groups bytes) out_size out ≡ some (out ++ bytes)
unfolding decode_groups encode_groups
decode_groups-encode_groups [] size out h fits = rw append-nil
decode_groups-encode_groups (a ∷ []) size out h fits =
    rw (decode_group_two (a * 2 ^ 16) (omega arith) (omega arith)) (unfold produced in ground arith)
decode_groups-encode_groups (a ∷ b ∷ []) size out h fits =
    rw (decode_group_one (a * 2 ^ 16 + b * 2 ^ 8) (omega arith) (omega arith))
      (unfold produced in ground arith)
decode_groups-encode_groups (a ∷ b ∷ c ∷ rest) size out h fits =
    let v = a * 2 ^ 16 + b * 2 ^ 8 + c in
    decode_groups_full (b64_char (v / 2 ^ 18)) (b64_char (v / 2 ^ 12)) (b64_char (v / 2 ^ 6))
      (b64_char v) v (encode_groups rest) size out
      (decode_group_full (is_nil (encode_groups rest)) v (omega arith)) (omega arith)
    ∙ rw (produced_full a b c h.0 h.1.0 h.1.1.0) (
        decode_groups-encode_groups rest size (out ++ (a ∷ b ∷ c ∷ [])) h.1.1.1
          (omega (arith, length-append out (a ∷ b ∷ c ∷ [])))
        ∙ rw append_assoc)

pub length-encode_groups :
    (bytes : Bytes) → length (encode_groups bytes) ≡ (length bytes + 2) / 3 * 4
unfolding encode_groups
length-encode_groups [] = omega arith
length-encode_groups (a ∷ []) = omega arith
length-encode_groups (a ∷ b ∷ []) = omega arith
length-encode_groups (a ∷ b ∷ c ∷ rest) = omega (arith, length-encode_groups rest)

base64_decode-decode_groups :
    (text : Bytes) (out_size : ℕ)
    → 0 < length text
    → length text % 4 ≡ 0
    → base64_decode text out_size ≡ decode_groups text out_size []
unfolding base64_decode
base64_decode-decode_groups text out_size some_text groups =
    let filled : length text == 0 ≡ false = ground arith in
    let whole : length text % 4 == 0 ≡ true = ground arith in rw (filled, whole)

-- Encoding any non-empty bytes into a buffer that holds the text and its NUL returns the length
-- of the text, four characters for each three bytes begun, and decoding that text into a buffer
-- that holds the bytes gives the bytes back.
pub base64_decode-base64_encode :
    (bytes : Bytes) (text_size out_size : ℕ)
    → bytes ≢ []
    → All IsByte bytes
    → (length bytes + 2) / 3 * 4 < text_size
    → length bytes ≤ out_size
    → (text : Bytes) × (base64_encode bytes text_size ≡ ((length bytes + 2) / 3 * 4, some text))
      × (length text ≡ (length bytes + 2) / 3 * 4)
      × (base64_decode text out_size ≡ some bytes)
unfolding base64_encode base64_decode
base64_decode-base64_encode bytes text_size out_size ne h text_fits fits = (
  encode_groups bytes,
  ground (arith, length-encode_groups bytes),
  length-encode_groups bytes,
  base64_decode-decode_groups (encode_groups bytes) out_size
        (omega (arith, length-pos bytes ne, length-encode_groups bytes))
        (omega (arith, length-encode_groups bytes))
      ∙ decode_groups-encode_groups bytes out_size [] h (omega arith),
)

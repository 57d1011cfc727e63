-- ===== src/Static/Decode.antt =====
-- What a decoded path can be.
use c_http.Base.{
  ℕ, ◌+◌, ◌/◌, ◌%◌, ◌<◌, ◌≡◌, ◌≢◌, refl, Bool, true, false, [], ◌∷◌, some, if◌then◌else◌, ◌==◌, leb,
  Bytes, length, All, arith, inl, inr, Bool-cases,
}
use c_http.Http.Query.Decode.{hex_digit}
use c_http.Static.{static_hex_val, escaped, url_decode_loop, url_decode}

-- A byte of a C string.
abbrev pub IsCharacter : ℕ → Type 0
IsCharacter c = (0 < c) × (c < 256)

-- A path written with an escape for the bytes that `must` says.
abbrev pub url_encode : Bool → (ℕ → Bool) → Bytes → Bytes
url_encode upper must [] = []
url_encode upper must (c ∷ s) =
    if must c
    then b'%' ∷ hex_digit upper (c / 16) ∷ hex_digit upper (c % 16) ∷ url_encode upper must s
    else c ∷ url_encode upper must s

static_hex_val-hex_digit :
    (upper : Bool) (d : ℕ) → d < 16 → static_hex_val (hex_digit upper d) ≡ some d
unfolding static_hex_val
static_hex_val-hex_digit upper d h = ground arith

escaped-hex_digit :
    (upper : Bool) (c : ℕ)
    → IsCharacter c
    → escaped
        (static_hex_val (hex_digit upper (c / 16)))
        (static_hex_val (hex_digit upper (c % 16)))
      ≡ some c
escaped-hex_digit upper c h =
    rw
      (
        static_hex_val-hex_digit upper (c / 16) (omega arith),
        static_hex_val-hex_digit upper (c % 16) (omega arith),
      )
      (ground arith)

plain_step :
    (size o c : ℕ) (s out : Bytes)
    → o + 1 < size
    → c ≢ b'%'
    → url_decode_loop size (o + 1) s ≡ some out
    → url_decode_loop size o (c ∷ s) ≡ some (c ∷ out)
unfolding url_decode_loop
plain_step size o c [] out room plain h = ground arith
plain_step size o c (d ∷ []) out room plain h = ground arith
plain_step size o c (d ∷ e ∷ s) out room plain h = ground arith

escape_step :
    (upper : Bool) (size o c : ℕ) (s out : Bytes)
    → o + 1 < size
    → IsCharacter c
    → url_decode_loop size (o + 1) s ≡ some out
    → url_decode_loop size o (b'%' ∷ hex_digit upper (c / 16) ∷ hex_digit upper (c % 16) ∷ s)
      ≡ some (c ∷ out)
unfolding url_decode_loop
escape_step upper size o c s out room k h =
    let space : leb size (o + 1) ≡ false = ground arith in
    rw (space, escaped-hex_digit upper c k, h)

url_decode_loop-url_encode :
    (upper : Bool) (must : ℕ → Bool) (s : Bytes) (size o : ℕ)
    → must b'%' ≡ true
    → All IsCharacter s
    → o + length s < size
    → url_decode_loop size o (url_encode upper must s) ≡ some s
url_decode_loop-url_encode upper must [] size o p v h = unfold url_decode_loop in refl
url_decode_loop-url_encode upper must (c ∷ s) size o p v h =
    let rest = url_decode_loop-url_encode upper must s size (o + 1) p v.1 (omega arith) in
    elim (Bool-cases (must c)) [
      | inl must_c ↦ rw must_c (escape_step upper size o c _ s (omega arith) v.0 rest)
      | inr free ↦
          rw free (plain_step size o c _ s (omega arith) (λ e. not_percent must c p free e) rest)
    ]
  where
    not_percent : (must : ℕ → Bool) (c : ℕ) → must b'%' ≡ true → must c ≡ false → c ≡ b'%' → ⊥
    not_percent must c p free e = let q = rw e at free in cc

-- A path is decoded to itself, whichever of its bytes are written as escapes, with digits of
-- either case, as long as the percent signs are, when the buffer holds it and its NUL: a plus sign
-- stays a plus sign.
url_decode-url_encode :
    (upper : Bool) (must : ℕ → Bool) (s : Bytes) (size : ℕ)
    → must b'%' ≡ true
    → All IsCharacter s
    → length s < size
    → url_decode (url_encode upper must s) size ≡ some s
unfolding url_decode
url_decode-url_encode upper must s size p v h =
    let room : size == 0 ≡ false = ground arith in
    rw room (url_decode_loop-url_encode upper must s size 0 p v (omega arith))

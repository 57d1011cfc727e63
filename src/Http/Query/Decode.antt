-- ===== src/Http/Query/Decode.antt =====
-- What `query_decode` accepts, and what it gives.
use c_http.Base.{
  ℕ, ◌+◌, ◌-◌, ◌/◌, ◌%◌, ◌≤◌, ◌<◌, ◌≡◌, ◌≢◌, refl, Bool, [], ◌∷◌, Option, none, some, if◌then◌else◌,
  ◌==◌, ltb, leb, Bytes, length, All, arith, inl, inr, Bool-cases,
}
use c_http.Http.Query.{hex_val, escaped_byte, plain_byte, emit, decode_loop, query_decode}

-- A byte of text: no control character.
abbrev pub IsText : ℕ → Type 0
IsText c = (0x20 ≤ c) × (c ≢ 0x7f) × (c < 256)

-- The escape of a byte, with the hexadecimal digits of either case.
abbrev pub hex_digit : Bool → ℕ → ℕ
hex_digit upper d =
    if ltb d 10 then b'0' + d else if upper then b'A' + (d - 10) else b'a' + (d - 10)

abbrev pub percent : Bool → ℕ → Bytes → Bytes
percent upper c rest = b'%' ∷ hex_digit upper (c / 16) ∷ hex_digit upper (c % 16) ∷ rest

abbrev pub percent_all : Bool → Bytes → Bytes
percent_all upper [] = []
percent_all upper (c ∷ s) = percent upper c (percent_all upper s)

pub hex_val-hex_digit : (upper : Bool) (d : ℕ) → d < 16 → hex_val (hex_digit upper d) ≡ some d
unfolding hex_val
hex_val-hex_digit upper d h = ground arith

escaped_byte-hex_digit :
    (upper : Bool) (c : ℕ)
    → IsText c
    → escaped_byte (hex_digit upper (c / 16)) (hex_digit upper (c % 16)) ≡ some c
unfolding escaped_byte
escaped_byte-hex_digit upper c t =
    rw
      (
        hex_val-hex_digit upper (c / 16) (omega arith),
        hex_val-hex_digit upper (c % 16) (omega arith),
      )
      (ground arith)

decode_loop-percent_all :
    (upper : Bool) (s : Bytes) (size o : ℕ)
    → All IsText s
    → o + length s < size
    → decode_loop size o (percent_all upper s) ≡ some s
unfolding decode_loop
decode_loop-percent_all upper [] size o t h = refl
decode_loop-percent_all upper (c ∷ s) size o t h =
    rw
      (
        escaped_byte-hex_digit upper c t.0,
        decode_loop-percent_all upper s size (o + 1) t.1 (omega arith),
      )
      (ground arith)

-- A text without control characters, each byte of it written as an escape with digits of either
-- case, is decoded to that text when the buffer holds it and its NUL.
pub query_decode-percent_all :
    (upper : Bool) (s : Bytes) (size : ℕ)
    → All IsText s
    → length s < size
    → query_decode (percent_all upper s) size ≡ some s
unfolding query_decode
query_decode-percent_all upper s size t h = ground (arith, decode_loop-percent_all upper s size 0 t)

abbrev IsDecoded : ℕ → ℕ → Option Bytes → Type 0
IsDecoded size o none = Unit {0}
IsDecoded size o (some out) = All IsText out × (o + length out < size)

emit-IsDecoded :
    (size o : ℕ) (byte : Option ℕ) (rest : Option Bytes)
    → ((b : ℕ) → byte ≡ some b → IsText b)
    → IsDecoded size (o + 1) rest
    → IsDecoded size o (emit byte rest)
emit-IsDecoded size o none rest t h = tt
emit-IsDecoded size o (some b) none t h = tt
emit-IsDecoded size o (some b) (some out) t h = ((t b refl, h.0), omega arith)

escaped_byte-IsText : (h l b : ℕ) → escaped_byte h l ≡ some b → IsText b
unfolding escaped_byte
escaped_byte-IsText h l b e = ground arith

plain_byte-IsText : (c b : ℕ) → c < 256 → plain_byte c ≡ some b → IsText b
unfolding plain_byte
plain_byte-IsText c b h e = ground arith

plain-IsDecoded :
    (size o c : ℕ) (rest : Option Bytes)
    → c < 256
    → IsDecoded size (o + 1) rest
    → IsDecoded size o (emit (plain_byte c) rest)
plain-IsDecoded size o c rest t h =
    emit-IsDecoded size o (plain_byte c) rest (λ b. plain_byte-IsText c b t) h

-- The three ways on from a byte: no room, an escape, a plain byte.
round-IsDecoded :
    (size o c : ℕ) (escape next : Option Bytes)
    → (o + 1 < size → IsDecoded size o escape)
    → (o + 1 < size → IsDecoded size o next)
    → IsDecoded size o (if leb size (o + 1) then none else if c == b'%' then escape else next)
round-IsDecoded size o c escape next he hn = elim (Bool-cases (leb size (o + 1))) [
  | inl full ↦ rw full tt
  | inr room ↦ elim (Bool-cases (c == b'%')) [
    | inl percent ↦ rw (room, percent) (he (ground arith))
    | inr plain ↦ rw (room, plain) (hn (ground arith))
  ]
]

decode_loop-IsDecoded :
    (bytes : Bytes) (size o : ℕ)
    → All (λ c. c < 256) bytes
    → o < size
    → IsDecoded size o (decode_loop size o bytes)
unfolding decode_loop
decode_loop-IsDecoded [] size o t h = (tt, omega arith)
decode_loop-IsDecoded (c ∷ []) size o t h =
    round-IsDecoded size o c none _ (λ _. tt)
      (λ room. plain-IsDecoded size o c (some []) t.0 (tt, omega arith))
decode_loop-IsDecoded (c ∷ b ∷ []) size o t h =
    round-IsDecoded size o c none _ (λ _. tt)
      (λ room.
        plain-IsDecoded size o c _ t.0 (decode_loop-IsDecoded (b ∷ []) size (o + 1) t.1 room))
decode_loop-IsDecoded (c ∷ b ∷ l ∷ s) size o t h =
    round-IsDecoded size o c _ _
      (λ room.
        emit-IsDecoded size o (escaped_byte b l) _ (escaped_byte-IsText b l)
          (decode_loop-IsDecoded s size (o + 1) t.1.1.1 room))
      (λ room.
        plain-IsDecoded size o c _ t.0 (decode_loop-IsDecoded (b ∷ l ∷ s) size (o + 1) t.1 room))

-- Whatever the input, a decoded text has no control character, raw or escaped (so no NUL and no
-- line break), and fits the buffer with its NUL.
query_decode-IsText :
    (bytes out : Bytes) (size : ℕ)
    → All (λ c. c < 256) bytes
    → query_decode bytes size ≡ some out
    → All IsText out × (length out < size)
unfolding query_decode
query_decode-IsText bytes out size t e = elim (Bool-cases (size == 0)) [
  | inl none_left ↦ cc (rw none_left at e)
  | inr room ↦
      let decoded = rw room at e in
      let d = rw decoded at (decode_loop-IsDecoded bytes size 0 t (ground arith)) in
      (d.0, omega (arith, d.1))
]

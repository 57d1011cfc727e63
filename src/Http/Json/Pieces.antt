-- ===== src/Http/Json/Pieces.antt =====
-- The ways to write a JSON string: each piece is a byte, a short escape or a unicode escape.
use c_http.Base.{
  ℕ, ◌+◌, ◌/◌, ◌%◌, ◌≤◌, ◌<◌, ◌^◌, ◌≢◌, Bool, List, [], ◌∷◌, ◌++◌, if◌then◌else◌, ltb, Bytes,
  length, arith,
}
use c_http.Http.Query.Decode.{hex_digit}

-- The short escapes: the letter and the byte it stands for.
pub data Short : Type 0 where
  quote backslash slash backspace form_feed newline return tab : Short

abbrev pub letter : Short → ℕ
letter quote = b'"'
letter backslash = b'\\'
letter slash = b'/'
letter backspace = b'b'
letter form_feed = b'f'
letter newline = b'n'
letter return = b'r'
letter tab = b't'

abbrev pub meaning : Short → ℕ
meaning quote = b'"'
meaning backslash = b'\\'
meaning slash = b'/'
meaning backspace = 8
meaning form_feed = 12
meaning newline = 10
meaning return = 13
meaning tab = 9

pub data Piece : Type 0 where
  plain : ℕ → Piece
  short : Short → Piece
  unicode : (upper : Bool) → ℕ → Piece

abbrev pub hex4 : Bool → ℕ → Bytes
hex4 upper cp =
    hex_digit upper (cp / 4096)
    ∷ hex_digit upper (cp / 256 % 16)
    ∷ hex_digit upper (cp / 16 % 16)
    ∷ hex_digit upper (cp % 16)
    ∷ []

abbrev pub piece_text : Piece → Bytes
piece_text (plain c) = c ∷ []
piece_text (short e) = b'\\' ∷ letter e ∷ []
piece_text (unicode upper cp) = b'\\' ∷ b'u' ∷ hex4 upper cp

abbrev pub text_of : List Piece → Bytes
text_of [] = []
text_of (x ∷ xs) = piece_text x ++ text_of xs

-- UTF-8 of the code points below 2 ^ 16 (RFC 3629).
abbrev pub utf8 : ℕ → Bytes
utf8 cp =
    if ltb cp 128
    then cp ∷ []
    else if ltb cp 2048
    then (192 + cp / 64) ∷ (128 + cp % 64) ∷ []
    else (224 + cp / 4096) ∷ (128 + cp / 64 % 64) ∷ (128 + cp % 64) ∷ []

abbrev pub piece_bytes : Piece → Bytes
piece_bytes (plain c) = c ∷ []
piece_bytes (short e) = meaning e ∷ []
piece_bytes (unicode upper cp) = utf8 cp

abbrev pub bytes_of : List Piece → Bytes
bytes_of [] = []
bytes_of (x ∷ xs) = piece_bytes x ++ bytes_of xs

-- What JSON allows, without NUL and surrogates.
pub record IsPlain (c : ℕ) : Type 0 where
  pub printable : 0x20 ≤ c
  pub not_quote : c ≢ b'"'
  pub not_backslash : c ≢ b'\\'

pub record IsCodePoint (cp : ℕ) : Type 0 where
  pub no_nul : 0 < cp
  pub four_digits : cp < 2 ^ 16
  pub not_surrogate : cp / 2048 ≢ 27

abbrev pub IsPiece : Piece → Type 0
IsPiece (plain c) = IsPlain c
IsPiece (short e) = Unit {0}
IsPiece (unicode upper cp) = IsCodePoint cp

pub piece_text-pos : (x : Piece) → 0 < length (piece_text x)
piece_text-pos (plain c) = omega arith
piece_text-pos (short e) = omega arith
piece_text-pos (unicode upper cp) = omega arith

pub piece_bytes-pos : (x : Piece) → 0 < length (piece_bytes x)
piece_bytes-pos (plain c) = omega arith
piece_bytes-pos (short e) = omega arith
piece_bytes-pos (unicode upper cp) = ground arith

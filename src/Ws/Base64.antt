-- ===== src/Ws/Base64.antt =====
-- The Base64 functions of src/c_http_ws.c.
pub mod RoundTrip
mod Tests
use c_http.Base.{
  ℕ, ◌+◌, ◌-◌, ◌*◌, ◌/◌, ◌%◌, Bool, true, false, not, ◌&&◌, ◌||◌, List, [], ◌∷◌, ◌++◌, Option, none,
  some, if◌then◌else◌, ◌==◌, ltb, leb, is_digit, is_lower, is_upper, Bytes, codes, length, get_or,
  ◌<<<◌, ◌>>>◌, low_bits, u8,
}

-- The array `B64_CHARS`.
abbrev pub b64_chars : Bytes
b64_chars = codes "ABCDEFGHIJKLMNOPQRSTUVWXYZabcdefghijklmnopqrstuvwxyz0123456789+/"

-- `B64_CHARS[v & 0x3F]`
unfoldable pub b64_char : ℕ → ℕ
b64_char v = get_or b64_chars (low_bits v 6) 0

-- The bytes that the loop and the two remainder branches store.
unfoldable pub encode_groups : Bytes → Bytes
unfolding b64_char
encode_groups (a ∷ b ∷ c ∷ rest) =
    let v = (a <<< 16) + (b <<< 8) + c in
    b64_char (v >>> 18) ∷ b64_char (v >>> 12) ∷ b64_char (v >>> 6) ∷ b64_char v ∷ encode_groups rest
encode_groups (a ∷ b ∷ []) =
    let v = (a <<< 16) + (b <<< 8) in
    b64_char (v >>> 18) ∷ b64_char (v >>> 12) ∷ b64_char (v >>> 6) ∷ b'=' ∷ []
encode_groups (a ∷ []) =
    let v = a <<< 16 in b64_char (v >>> 18) ∷ b64_char (v >>> 12) ∷ b'=' ∷ b'=' ∷ []
encode_groups [] = []

-- The return value, and the text that now stands in `out`; `none` is an untouched `out`.
unfoldable pub base64_encode : Bytes → ℕ → ℕ × Option Bytes
unfolding encode_groups
base64_encode bytes out_size =
    let need = (length bytes + 2) / 3 * 4 in
    if ltb out_size (need + 1)
    then (0, none)
    else (length (encode_groups bytes), some (encode_groups bytes))

-- `none` is the -1.
unfoldable pub base64_value : ℕ → Option ℕ
base64_value c =
    if is_upper c
    then some (c - b'A')
    else if is_lower c
    then some (c - b'a' + 26)
    else if is_digit c
    then some (c - b'0' + 52)
    else if c == b'+'
    then some 62
    else if c == b'/'
    then some 63
    else none

-- What a group of four has yielded so far: the values `v[0..j)` and the number of `=`.
pub record Group : Type 0 where
  pub acc : ℕ
  pub pad : ℕ

infixl 5 ◌>>=◌
abbrev pub ◌>>=◌ {ℓ κ} : {A : Type ℓ} {B : Type κ} → Option A → (A → Option B) → Option B
none >>= f = none
some a >>= f = f a

-- One round of the loop over `j`. The accumulator takes the six bits of `v[j]` at once; `last` is
-- `i + 4 == in_len`.
unfoldable pub decode_char : Bool → ℕ → Group → ℕ → Option Group
unfolding base64_value
decode_char last j g c =
    if c == b'='
    then (if not last || ltb j 2
        then none
        else some (record { acc = g.acc <<< 6; pad = g.pad + 1 }))
    else if ltb 0 g.pad
    then none
    else (do v ← base64_value c; some (record { acc = (g.acc <<< 6) + v; pad = g.pad }))

unfoldable pub decode_group : Bool → ℕ → ℕ → ℕ → ℕ → Option Group
unfolding decode_char
decode_group last c0 c1 c2 c3 = do
  g0 ← decode_char last 0 (record { acc = 0; pad = 0 }) c0
  g1 ← decode_char last 1 g0 c1
  g2 ← decode_char last 2 g1 c2
  decode_char last 3 g2 c3

-- The stores of one group: `3 - pad` bytes of `acc`, the highest first.
unfoldable pub produced : Group → Bytes
produced g =
    u8 (g.acc >>> 16)
    ∷ (if ltb 1 (3 - g.pad)
        then u8 (g.acc >>> 8) ∷ (if ltb 2 (3 - g.pad) then u8 g.acc ∷ [] else [])
        else [])

abbrev pub is_nil : Bytes → Bool
is_nil [] = true
is_nil (c ∷ s) = false

-- The loop over the groups of four characters with `out` filled so far.
unfoldable pub decode_groups : Bytes → ℕ → Bytes → Option Bytes
unfolding decode_group produced
decode_groups (c0 ∷ c1 ∷ c2 ∷ c3 ∷ rest) out_size out = do
  g ← decode_group (is_nil rest) c0 c1 c2 c3
  if ltb out_size (length out + (3 - g.pad))
      then none
      else decode_groups rest out_size (out ++ produced g)
decode_groups _ out_size out = some out

-- `none` is `false`; the bytes already stored in `out` then are not looked at by any caller.
unfoldable pub base64_decode : Bytes → ℕ → Option Bytes
unfolding decode_groups
base64_decode text out_size =
    if length text == 0 || not (length text % 4 == 0) then none else decode_groups text out_size []

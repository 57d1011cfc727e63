-- ===== src/Http/Query.antt =====
-- Query strings and URL-encoded forms of src/c_http.c.
pub mod Decode
pub mod RoundTrip
use c_http.Base.{
  ℕ, zero, suc, ◌+◌, ◌-◌, ◌*◌, Bool, true, false, not, ◌&&◌, ◌||◌, List, [], ◌∷◌, ◌++◌, Option,
  none, some, if◌then◌else◌, ◌==◌, ltb, leb, between, is_digit, Bytes, length, u8, deref, advance,
  take_while, drop_while,
}

-- `none` is the -1.
unfoldable pub hex_val : ℕ → Option ℕ
hex_val c =
    if is_digit c
    then some (c - b'0')
    else if between b'a' b'f' c
    then some (c - b'a' + 10)
    else if between b'A' b'F' c
    then some (c - b'A' + 10)
    else none

infixl 5 ◌>>=◌
abbrev pub ◌>>=◌ {ℓ κ} : {A : Type ℓ} {B : Type κ} → Option A → (A → Option B) → Option B
none >>= f = none
some a >>= f = f a

-- A control character, raw or decoded.
abbrev pub is_control : ℕ → Bool
is_control c = ltb c 0x20 || c == 0x7f

unfoldable pub escaped_byte : ℕ → ℕ → Option ℕ
escaped_byte h l = do
  hi ← hex_val h
  lo ← hex_val l
  let decoded = u8 (hi * 16 + lo)
  if is_control decoded then none else some decoded

unfoldable pub plain_byte : ℕ → Option ℕ
plain_byte c = if c == b'+' then some b' ' else if is_control c then none else some c

abbrev pub emit : Option ℕ → Option Bytes → Option Bytes
emit byte rest = do b ← byte; bytes ← rest; some (b ∷ bytes)

-- The bytes stored from `out + o` on, or `none` for -1. An escape needs two bytes behind it.
unfoldable pub decode_loop : ℕ → ℕ → Bytes → Option Bytes
decode_loop out_size o [] = some []
decode_loop out_size o (c ∷ []) =
    if leb out_size (o + 1) then none else if c == b'%' then none else emit (plain_byte c) (some [])
decode_loop out_size o (c ∷ h ∷ []) =
    let next = decode_loop out_size (o + 1) (h ∷ []) in
    if leb out_size (o + 1) then none else if c == b'%' then none else emit (plain_byte c) next
decode_loop out_size o (c ∷ h ∷ l ∷ s) =
    let behind = decode_loop out_size (o + 1) s in
    let next = decode_loop out_size (o + 1) (h ∷ l ∷ s) in
    if leb out_size (o + 1)
    then none
    else if c == b'%'
    then emit (escaped_byte h l) behind
    else emit (plain_byte c) next

unfoldable pub query_decode : Bytes → ℕ → Option Bytes
query_decode bytes out_size = if out_size == 0 then none else decode_loop out_size 0 bytes

pub record HttpQueryParam : Type 0 where
  pub key : Bytes
  pub value : Bytes

abbrev pub http_max_query : ℕ
http_max_query = 16

abbrev pub http_query_key_max : ℕ
http_query_key_max = 32

abbrev pub http_query_value_max : ℕ
http_query_value_max = 64

abbrev pub in_key : ℕ → Bool
in_key c = not (c == b'&') && not (c == b'=')

abbrev pub in_value : ℕ → Bool
in_value c = not (c == b'&')

-- The pair at `p`: its raw key, its raw value, and the pointer behind it.
pub record RawPair : Type 0 where
  pub raw_key : Bytes
  pub raw_value : Bytes
  pub behind : Bytes

unfoldable pub raw_pair : Bytes → RawPair
raw_pair p =
    let p1 = drop_while in_key p in
    if deref p1 == b'='
    then record {
      raw_key = take_while in_key p;
      raw_value = take_while in_value (advance p1);
      behind = drop_while in_value (advance p1);
    }
    else record { raw_key = take_while in_key p; raw_value = []; behind = p1 }

-- The parameters of a raw pair: one, or none when it is skipped.
unfoldable pub decode_pair : RawPair → List HttpQueryParam
decode_pair r =
    if length r.raw_key == 0 then [] else elim (query_decode r.raw_key http_query_key_max) [
      | none ↦ []
      | some key ↦ elim (query_decode r.raw_value http_query_value_max) [
        | none ↦ []
        | some value ↦ record { key = key; value = value } ∷ []
      ]
    ]

abbrev pub skip_ampersand : Bytes → Bytes
skip_ampersand p = if deref p == b'&' then advance p else p

-- Each round takes a byte at least.
unfoldable pub query_loop : ℕ → Bytes → List HttpQueryParam → List HttpQueryParam
query_loop zero p out = out
query_loop (suc fuel) [] out = out
query_loop (suc fuel) (c ∷ p) out =
    let r = raw_pair (c ∷ p) in
    let rest = query_loop fuel (skip_ampersand r.behind) (out ++ decode_pair r) in
    if ltb (length out) http_max_query then rest else out

unfoldable pub parse_query : Bytes → List HttpQueryParam
parse_query query = query_loop (length query) query []

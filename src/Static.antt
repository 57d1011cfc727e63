-- ===== src/Static.antt =====
-- The path helpers of src/c_http_static.c.
pub mod Decode
pub mod Suffix
pub mod Tests
use c_http.Base.{
  ℕ, zero, suc, ◌+◌, ◌-◌, ◌*◌, Bool, true, false, not, ◌&&◌, ◌||◌, List, [], ◌∷◌, Option, none,
  some, if◌then◌else◌, ◌==◌, ltb, leb, between, is_digit, Bytes, codes, length, drop, get_or, deref,
  advance, starts_with, str_eq,
}

-- `none` is the -1.
unfoldable pub static_hex_val : ℕ → Option ℕ
static_hex_val c =
    if is_digit c
    then some (c - b'0')
    else if between b'a' b'f' c
    then some (c - b'a' + 10)
    else if between b'A' b'F' c
    then some (c - b'A' + 10)
    else none

-- The byte of an escape; a NUL is refused.
abbrev pub escaped : Option ℕ → Option ℕ → Option ℕ
escaped none lo = none
escaped (some hi) none = none
escaped (some hi) (some lo) = if hi == 0 && lo == 0 then none else some (hi * 16 + lo)

abbrev pub store_byte : Option ℕ → Option Bytes → Option Bytes
store_byte none rest = none
store_byte (some byte) none = none
store_byte (some byte) (some rest) = some (byte ∷ rest)

-- The bytes stored from `out + o` on, or `none` for -1. An escape needs two bytes behind it: the
-- NUL is no hexadecimal digit.
unfoldable pub url_decode_loop : ℕ → ℕ → Bytes → Option Bytes
url_decode_loop size o [] = some []
url_decode_loop size o (c ∷ []) =
    if leb size (o + 1) then none else if c == b'%' then none else some (c ∷ [])
url_decode_loop size o (c ∷ h ∷ []) =
    let next = url_decode_loop size (o + 1) (h ∷ []) in
    if leb size (o + 1) then none else if c == b'%' then none else store_byte (some c) next
url_decode_loop size o (c ∷ h ∷ l ∷ s) =
    let behind = url_decode_loop size (o + 1) s in
    let next = url_decode_loop size (o + 1) (h ∷ l ∷ s) in
    if leb size (o + 1)
    then none
    else if c == b'%'
    then store_byte (escaped (static_hex_val h) (static_hex_val l)) behind
    else store_byte (some c) next

unfoldable pub url_decode : Bytes → ℕ → Option Bytes
url_decode text size = if size == 0 then none else url_decode_loop size 0 text

unfoldable pub has_control_chars : Bytes → Bool
has_control_chars [] = false
has_control_chars (c ∷ s) = ltb c 0x20 || c == 0x7f || has_control_chars s

-- The suffix, `none` for `false`.
unfoldable pub extract_suffix : Bytes → Bytes → Option Bytes
extract_suffix prefix path =
    let plen = length prefix in
    if plen == 1 && deref prefix == b'/'
    then some (advance path)
    else if not (starts_with path prefix)
    then none
    else if get_or path plen 0 == 0
    then some []
    else if get_or path plen 0 == b'/'
    then some (drop (plen + 1) path)
    else none

-- ===== src/Http/Json.antt =====
-- The JSON scanner of src/c_http.c: strings at the top level of an object.
pub mod Pieces
pub mod Written
pub mod Values
pub mod Skip
pub mod Lookup
pub mod Shorter
pub mod Outcome
pub mod Tests
use c_http.Base.{
  ℕ, zero, suc, ◌+◌, ◌-◌, ◌*◌, ◌/◌, ◌%◌, Bool, true, false, not, ◌&&◌, ◌||◌, List, [], ◌∷◌, ◌++◌,
  Option, none, some, if◌then◌else◌, ◌==◌, ltb, leb, is_digit, Bytes, codes, length, deref, advance,
  take_while, drop_while, drop, between, str_eq, starts_with,
}
use c_http.Http.Query.{hex_val}

abbrev pub is_json_ws : ℕ → Bool
is_json_ws c = c == b' ' || c == b'\t' || c == b'\n' || c == b'\r'

abbrev pub json_skip_ws : Bytes → Bytes
json_skip_ws p = drop_while is_json_ws p

-- `n` more digits behind the value `v`; `none` is the -1.
unfoldable pub hex4_loop : ℕ → ℕ → Bytes → Option ℕ
hex4_loop zero v p = some v
hex4_loop (suc n) v [] = none
hex4_loop (suc n) v (c ∷ p) = elim (hex_val c) [ none ↦ none | some h ↦ hex4_loop n (v * 16 + h) p ]

abbrev pub json_hex4 : Bytes → Option ℕ
json_hex4 p = hex4_loop 4 0 p

-- The bytes written, or `none` for -1. The fields that `|` joins share no bit.
unfoldable pub json_utf8_encode : ℕ → ℕ → Option Bytes
json_utf8_encode cp out_size =
    if between 0xD800 0xDFFF cp
    then none
    else if cp == 0
    then none
    else if ltb cp 0x80
    then if ltb out_size 1 then none else some (cp ∷ [])
    else if ltb cp 0x800
    then if ltb out_size 2 then none else some ((0xC0 + cp / 64) ∷ (0x80 + cp % 64) ∷ [])
    else if ltb out_size 3
    then none
    else some ((0xE0 + cp / 4096) ∷ (0x80 + cp / 64 % 64) ∷ (0x80 + cp % 64) ∷ [])

-- `rejected` is the -1, `overrun` a NUL stored behind the end of `out`, `stuck` a lack of fuel.
-- No call asks for the position behind the string.
pub data Decoded : Type 0 where
  rejected : Decoded
  overrun : Decoded
  stuck : Decoded
  decoded : (out : Bytes) → Decoded

-- `simple` behind the backslash
unfoldable pub simple_escape : ℕ → Option ℕ
simple_escape c =
    if c == b'"'
    then some b'"'
    else if c == b'\\'
    then some b'\\'
    else if c == b'/'
    then some b'/'
    else if c == b'b'
    then some 8
    else if c == b'f'
    then some 12
    else if c == b'n'
    then some b'\n'
    else if c == b'r'
    then some b'\r'
    else if c == b't'
    then some b'\t'
    else none

-- One byte, with room for the NUL; `again` is the loop.
unfoldable pub put_byte : (Bytes → Bytes → Decoded) → ℕ → Bytes → ℕ → Bytes → Decoded
put_byte again out_size out c p =
    if leb out_size (length out + 1) then rejected else again (out ++ (c ∷ [])) p

abbrev pub put_bytes : (Bytes → Bytes → Decoded) → Bytes → Option Bytes → Bytes → Decoded
put_bytes again out none p = rejected
put_bytes again out (some bytes) p = again (out ++ bytes) p

abbrev pub put_code_point : (Bytes → Bytes → Decoded) → ℕ → Bytes → Option ℕ → Bytes → Decoded
put_code_point again out_size out none p = rejected
put_code_point again out_size out (some cp) p =
    put_bytes again out (json_utf8_encode cp (out_size - length out)) (drop 4 p)

abbrev pub put_simple : (Bytes → Bytes → Decoded) → ℕ → Bytes → Option ℕ → Bytes → Decoded
put_simple again out_size out none p = rejected
put_simple again out_size out (some simple) p = put_byte again out_size out simple p

-- Behind the backslash.
unfoldable pub escape : (Bytes → Bytes → Decoded) → ℕ → Bytes → Bytes → Decoded
escape again out_size out [] = rejected
escape again out_size out (c ∷ p) =
    if c == b'u'
    then put_code_point again out_size out (json_hex4 p) p
    else put_simple again out_size out (simple_escape c) p

-- The loop with the bytes stored so far, `o` of them, then the NUL.
unfoldable pub string_loop : ℕ → ℕ → Bytes → Bytes → Decoded
string_loop zero out_size out p = stuck
string_loop (suc fuel) out_size out [] = rejected
string_loop (suc fuel) out_size out (c ∷ p) =
    if c == b'"'
    then if ltb (length out) out_size then decoded out else overrun
    else if ltb c 0x20
    then rejected
    else if c == b'\\'
    then escape (string_loop fuel out_size) out_size out p
    else put_byte (string_loop fuel out_size) out_size out c p

-- Each round takes a byte at least, and the last one none.
unfoldable pub json_decode_string : Bytes → ℕ → Decoded
json_decode_string p out_size =
    if out_size == 0 then rejected else string_loop (suc (length p)) out_size [] (advance p)

-- `malformed` is the NULL, `none_left` a lack of fuel.
pub data Skipped : Type 0 where
  malformed : Skipped
  none_left : Skipped
  after : (p : Bytes) → Skipped

-- Behind the opening quote. A backslash takes the byte behind it along.
unfoldable pub skip_string : Bytes → Skipped
skip_string [] = malformed
skip_string (c ∷ []) = if c == b'"' then after [] else malformed
skip_string (c ∷ e ∷ p) =
    let behind = skip_string p in
    let next = skip_string (e ∷ p) in
    if c == b'"'
    then after (e ∷ p)
    else if c == b'\n' || c == b'\r'
    then malformed
    else if c == b'\\'
    then behind
    else next

abbrev pub is_number_char : ℕ → Bool
is_number_char c = is_digit c || c == b'.' || c == b'e' || c == b'E' || c == b'+' || c == b'-'

abbrev pub skip_minus : Bytes → Bytes
skip_minus p = if deref p == b'-' then advance p else p

unfoldable pub skip_number : Bytes → Skipped
skip_number p =
    if is_digit (deref (skip_minus p))
    then after (drop_while is_number_char (skip_minus p))
    else malformed

unfoldable pub skip_word : Bytes → Skipped
skip_word p =
    if starts_with p (codes "true")
    then after (drop 4 p)
    else if starts_with p (codes "false")
    then after (drop 5 p)
    else if starts_with p (codes "null")
    then after (drop 4 p)
    else skip_number p

-- Behind a value in an object or an array: a comma, and the loop goes on, or the bracket.
abbrev pub behind_value : (Bytes → Skipped) → ℕ → Skipped → Skipped
behind_value again close malformed = malformed
behind_value again close none_left = none_left
behind_value again close (after p) =
    let q = json_skip_ws p in
    if deref q == b','
    then again (json_skip_ws (advance q))
    else if deref q == close
    then after (advance q)
    else malformed

abbrev pub behind_key : (Bytes → Skipped) → (Bytes → Skipped) → Skipped → Skipped
behind_key skip again malformed = malformed
behind_key skip again none_left = none_left
behind_key skip again (after p) =
    let q = json_skip_ws p in
    if deref q == b':' then behind_value again b'}' (skip (json_skip_ws (advance q))) else malformed

-- The loops over the members of an object and the elements of an array; `skip` is
-- json_skip_value one level down. Each round takes a byte at least.
unfoldable pub skip_members : (Bytes → Skipped) → ℕ → Bytes → Skipped
skip_members skip zero p = none_left
skip_members skip (suc fuel) p =
    if deref p == b'"' then behind_key skip (skip_members skip fuel) (skip p) else malformed

unfoldable pub skip_elements : (Bytes → Skipped) → ℕ → Bytes → Skipped
skip_elements skip zero p = none_left
skip_elements skip (suc fuel) p = behind_value (skip_elements skip fuel) b']' (skip p)

-- The loop of an object or an array that is not empty.
abbrev pub skip_items : (ℕ → Bytes → Skipped) → ℕ → Bytes → Skipped
skip_items loop close p = if deref p == close then after (advance p) else loop (suc (length p)) p

unfoldable pub skip_kind : (Bytes → Skipped) → Bytes → Skipped
skip_kind skip [] = skip_word []
skip_kind skip (c ∷ p) =
    if c == b'"'
    then skip_string p
    else if c == b'{'
    then skip_items (skip_members skip) b'}' (json_skip_ws p)
    else if c == b'['
    then skip_items (skip_elements skip) b']' (json_skip_ws p)
    else skip_word (c ∷ p)

-- The first argument is `depth + 1`: a negative depth is 0.
unfoldable pub json_skip_value : ℕ → Bytes → Skipped
json_skip_value zero p = malformed
json_skip_value (suc depth) p = skip_kind (json_skip_value depth) p

abbrev pub is_key_char : ℕ → Bool
is_key_char c = not (c == b'"') && not (c == b'\\')

abbrev pub next_member : (Bytes → Decoded) → Skipped → Decoded
next_member again malformed = rejected
next_member again none_left = stuck
next_member again (after p) =
    let q = json_skip_ws p in if deref q == b',' then again (json_skip_ws (advance q)) else rejected

-- At the value of a member.
unfoldable pub member_value : (Bytes → Decoded) → ℕ → Bool → Bytes → Decoded
member_value again out_size is_match p =
    if is_match
    then if deref p == b'"' then json_decode_string p out_size else rejected
    else next_member again (json_skip_value 33 p)

-- Behind the raw key. The two comparisons of the source, of the lengths and of that many bytes,
-- are one of the whole texts.
unfoldable pub member_key : (Bytes → Decoded) → Bytes → ℕ → Bytes → Bytes → Decoded
member_key again key out_size raw kend =
    let q = json_skip_ws (advance kend) in
    if deref kend == b'"'
    then if deref q == b':'
      then member_value again out_size (str_eq raw key) (json_skip_ws (advance q))
      else rejected
    else rejected

unfoldable pub members_loop : ℕ → Bytes → ℕ → Bytes → Decoded
members_loop zero key out_size p = stuck
members_loop (suc fuel) key out_size p =
    if deref p == b'"'
    then member_key (members_loop fuel key out_size) key out_size
        (take_while is_key_char (advance p)) (drop_while is_key_char (advance p))
    else rejected

-- At the top-level object.
unfoldable pub top_object : Bytes → ℕ → Bytes → Decoded
top_object key out_size p =
    let q = json_skip_ws (advance p) in
    if deref p == b'{'
    then if deref q == b'}' then rejected else members_loop (suc (length q)) key out_size q
    else rejected

-- `none` is a request without a body.
unfoldable pub http_req_json_string : Option Bytes → Bytes → ℕ → Decoded
http_req_json_string none key out_size = rejected
http_req_json_string (some body) key out_size =
    if out_size == 0 || length body == 0
    then rejected
    else top_object key out_size (json_skip_ws body)

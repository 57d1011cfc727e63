-- ===== src/Http/Token.antt =====
-- Tokens in comma-separated header values of src/c_http.c, and the decision to keep a connection.
pub mod Elements
use c_http.Base.{
  ℕ, zero, suc, Bool, true, false, not, ◌&&◌, ◌||◌, List, [], ◌∷◌, Option, none, some,
  if◌then◌else◌, ◌==◌, Bytes, codes, length, is_ows, str_eq, str_case_eq, take_while, drop_while,
  trim_end,
}

abbrev pub is_separator : ℕ → Bool
is_separator c = is_ows c || c == b','

abbrev pub not_comma : ℕ → Bool
not_comma c = not (c == b',')

-- The span of the element at `p`, its trailing blanks taken off.
abbrev pub element_at : Bytes → Bytes
element_at p = trim_end is_ows (take_while not_comma (drop_while is_separator p))

abbrev pub behind_element : Bytes → Bytes
behind_element p = drop_while not_comma (drop_while is_separator p)

-- Each round of the loop takes a byte at least.
unfoldable pub token_loop : ℕ → Bytes → Bytes → Bool
token_loop zero p token = false
token_loop (suc fuel) [] token = false
token_loop (suc fuel) (c ∷ s) token =
    let rest = token_loop fuel (behind_element (c ∷ s)) token in
    let start = element_at (c ∷ s) in
    if length start == length token && str_case_eq start token then true else rest

unfoldable pub header_contains_token : Bytes → Bytes → Bool
unfolding token_loop
header_contains_token value token = token_loop (length value) value token

-- `conn` is the Connection header of the request, `none` when it has none.
unfoldable pub request_wants_keep_alive : Option Bytes → Bytes → Bool
request_wants_keep_alive none version = str_eq version (codes "HTTP/1.1")
request_wants_keep_alive (some conn) version =
    if header_contains_token conn (codes "close")
    then false
    else if header_contains_token conn (codes "keep-alive")
    then true
    else str_eq version (codes "HTTP/1.1")

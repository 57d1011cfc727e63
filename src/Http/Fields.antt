-- ===== src/Http/Fields.antt =====
-- The validation helpers at the head of src/c_http.c.
use c_http.Base.{
  ℕ, Bool, true, false, not, ◌&&◌, ◌||◌, [], ◌∷◌, if◌then◌else◌, ◌==◌, leb, ltb, is_digit, is_lower,
  is_upper, Bytes, codes, str_eq, starts_with, str_has, get_or, length,
}

-- strchr also finds the NUL.
unfoldable pub is_tchar : ℕ → Bool
is_tchar c = is_digit c || is_lower c || is_upper c || str_has c (codes "!#$%&'*+-.^_`|~") || c == 0

abbrev name_char : ℕ → Bool
name_char c = not (leb c 0x20 || c == 0x7f || ltb 0x7e c) && is_tchar c

-- The loop of `is_valid_header_name`.
unfoldable pub all_name_chars : Bytes → Bool
unfolding is_tchar
all_name_chars [] = true
all_name_chars (c ∷ s) = name_char c && all_name_chars s

unfoldable pub is_valid_header_name : Bytes → Bool
unfolding all_name_chars
is_valid_header_name [] = false
is_valid_header_name (c ∷ s) = all_name_chars (c ∷ s)

unfoldable pub header_value_has_injection : Bytes → Bool
header_value_has_injection [] = false
header_value_has_injection (c ∷ s) = c == b'\r' || c == b'\n' || header_value_has_injection s

-- Reading past the end of a shorter version gives the NUL, which fails the test that reads it.
unfoldable pub is_valid_http_version : Bytes → Bool
is_valid_http_version v =
    starts_with v (codes "HTTP/")
    && is_digit (get_or v 5 0)
    && get_or v 6 0 == b'.'
    && is_digit (get_or v 7 0)
    && length v == 8

unfoldable pub is_valid_status_code : ℕ → Bool
is_valid_status_code status = leb 100 status && leb status 599

-- The check of a debug assertion. `method` is not NULL.
unfoldable pub is_valid_request_target : Bytes → Bytes → Bool
is_valid_request_target [] method = false
is_valid_request_target (c ∷ path) method =
    if str_eq (c ∷ path) (codes "*") then str_eq method (codes "OPTIONS") else c == b'/'

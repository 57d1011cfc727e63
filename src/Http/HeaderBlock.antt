-- ===== src/Http/HeaderBlock.antt =====
-- The header block of a request: `parse_headers` of src/c_http.c. The text is the block and what is
-- received behind it; the NULs that the source stores lie behind the cursor and are not read again.
pub mod Stored
pub mod Format
pub mod Tests
use c_http.Base.{
  ℕ, zero, suc, Bool, true, false, not, ◌&&◌, ◌||◌, List, [], ◌∷◌, Option, none, some,
  if◌then◌else◌, ◌==◌, leb, Bytes, length, is_ows, deref, take_while, drop_while, trim_end,
}
use c_http.Http.Fields.{is_valid_header_name, header_value_has_injection}
use c_http.Http.Headers.{HttpHeaders, apply_header}

abbrev pub http_max_headers : ℕ
http_max_headers = 64

abbrev pub status_headers_too_large : ℕ
status_headers_too_large = 431

abbrev pub status_internal_error : ℕ
status_internal_error = 500

abbrev pub not_colon : ℕ → Bool
not_colon c = not (c == b':')

abbrev pub in_front : ℕ → Option (Bytes × Bytes) → Option (Bytes × Bytes)
in_front c none = none
in_front c (some (line, rest)) = some (c ∷ line, rest)

-- `strstr(cursor, "\r\n")`: the line up to it, and what follows the line break.
unfoldable pub cut_line : Bytes → Option (Bytes × Bytes)
cut_line [] = none
cut_line (c ∷ []) = none
cut_line (c ∷ d ∷ s) =
    let next = in_front c (cut_line (d ∷ s)) in
    if c == b'\r' && d == b'\n' then some ([], s) else next

-- The key and the value of a line from its colon on, if memchr() found one.
abbrev pub split_at : Bytes → Bytes → Option (Bytes × Bytes)
split_at key [] = none
split_at key (colon ∷ value) = some (key, trim_end is_ows (drop_while is_ows value))

unfoldable pub split_line : Bytes → Option (Bytes × Bytes)
split_line line = split_at (take_while not_colon line) (drop_while not_colon line)

abbrev pub if_stored : HttpHeaders × Bool → (HttpHeaders → HttpHeaders × ℕ) → HttpHeaders × ℕ
if_stored (h, true) again = again h
if_stored (h, false) again = (h, status_internal_error)

-- The rest of the loop's body; `again` goes on with the next line.
abbrev pub store_line :
    (ℕ → Bool)
    → HttpHeaders
    → Option (Bytes × Bytes)
    → (HttpHeaders → HttpHeaders × ℕ)
    → HttpHeaders × ℕ
store_line mem h none again = again h
store_line mem h (some (key, value)) again =
    if not (is_valid_header_name key) || header_value_has_injection value
    then again h
    else if leb http_max_headers (length h.items)
    then (h, status_headers_too_large)
    else if_stored (apply_header mem h key value) again

abbrev pub at_line :
    (ℕ → Bool)
    → HttpHeaders
    → Option (Bytes × Bytes)
    → (Bytes → HttpHeaders → HttpHeaders × ℕ)
    → HttpHeaders × ℕ
at_line mem h none again = (h, 0)
at_line mem h (some (line, rest)) again = store_line mem h (split_line line) (again rest)

-- The loop; each round takes a line break.
unfoldable pub headers_loop : ℕ → (ℕ → Bool) → Bytes → HttpHeaders → HttpHeaders × ℕ
headers_loop zero mem text h = (h, 0)
headers_loop (suc fuel) mem text h =
    let next = at_line mem h (cut_line text) (headers_loop fuel mem) in
    if length text == 0 || deref text == b'\r' then (h, 0) else next

unfoldable pub parse_headers : (ℕ → Bool) → Bytes → HttpHeaders → HttpHeaders × ℕ
parse_headers mem text h = headers_loop (length text) mem text h

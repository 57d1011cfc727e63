-- ===== src/Tpl/Url.antt =====
-- The URL sanitizer of src/c_http_tpl.c.
pub mod Safe
use c_http.Base.{
  ℕ, zero, suc, ◌+◌, Bool, true, false, not, ◌&&◌, ◌||◌, List, [], ◌∷◌, ◌++◌, Option, none, some,
  if◌then◌else◌, ◌==◌, ltb, is_digit, is_lower, is_upper, to_lower, Bytes, codes, length, take,
  drop_while, trim_end,
}
use c_http.Tpl.Buffer.{TplOut, arena_alloc}
use c_http.Tpl.Escape.{write_escaped}

abbrev pub is_url_space : ℕ → Bool
is_url_space c = c == b' ' || c == b'\t' || c == b'\n' || c == b'\r' || c == 12 || c == 11

abbrev pub is_letter : ℕ → Bool
is_letter c = is_lower c || is_upper c

abbrev pub is_scheme_char : ℕ → Bool
is_scheme_char c = is_letter c || is_digit c || c == b'+' || c == b'-' || c == b'.'

-- The loop of `has_scheme` from `i` on, with the length of the scheme and its colon.
unfoldable pub scheme_end : ℕ → Bytes → Option ℕ
scheme_end i [] = none
scheme_end i (c ∷ s) =
    let behind = scheme_end (i + 1) s in
    if c == b':' then some (i + 1) else if is_scheme_char c then behind else none

unfoldable pub has_scheme : Bytes → Option ℕ
has_scheme [] = none
has_scheme (c ∷ s) = if is_letter c then scheme_end 0 (c ∷ s) else none

-- The loop of `scheme_equals`.
abbrev pub equals_lowered : Bytes → Bytes → Bool
equals_lowered [] [] = true
equals_lowered [] (w ∷ want) = false
equals_lowered (c ∷ s) [] = false
equals_lowered (c ∷ s) (w ∷ want) = to_lower c == w && equals_lowered s want

unfoldable pub scheme_equals : Bytes → ℕ → Bytes → Bool
scheme_equals s len want = length want == len && equals_lowered (take len s) want

abbrev pub is_allowed : Bytes → Option ℕ → Bool
is_allowed s none = true
is_allowed s (some len) =
    scheme_equals s len (codes "http:")
    || scheme_equals s len (codes "https:")
    || scheme_equals s len (codes "mailto:")

-- The loop of `url_is_safe`.
unfoldable pub no_controls : Bytes → Bool
no_controls [] = true
no_controls (c ∷ s) = not (ltb c 0x20 || c == 0x7f) && no_controls s

-- `len` is the length of `s`.
unfoldable pub url_is_safe : Bytes → Bool
url_is_safe s = is_allowed s (has_scheme s) && no_controls s

abbrev pub invalid_url : Bytes
invalid_url = codes "about:invalid#ctmpl"

-- Without the spaces around it.
abbrev pub trimmed : Bytes → Bytes
trimmed url = trim_end is_url_space (drop_while is_url_space url)

-- The copy of the trimmed text, where the arena had room for it.
abbrev pub url_from : TplOut × Bool → Bytes → TplOut × Bytes
url_from (out, false) s = (out, invalid_url)
url_from (out, true) s = (out, if url_is_safe s then s else invalid_url)

-- `none` is NULL.
unfoldable pub tpl_url : (ℕ → Bool) → TplOut → Option Bytes → TplOut × Bytes
tpl_url mem out none = (out, invalid_url)
tpl_url mem out (some url) =
    if length (trimmed url) == length url
    then (out, if url_is_safe url then url else invalid_url)
    else url_from (arena_alloc mem out (length (trimmed url) + 1)) (trimmed url)

unfoldable pub tpl_safe_url : Option Bytes → Bytes
tpl_safe_url none = invalid_url
tpl_safe_url (some url) = url

unfoldable pub tpl_attr_url : (ℕ → Bool) → TplOut → Bytes → TplOut
tpl_attr_url mem out url = write_escaped mem out url

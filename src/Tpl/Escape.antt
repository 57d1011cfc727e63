-- ===== src/Tpl/Escape.antt =====
-- The escaping of src/c_http_tpl.c.
pub mod Html
use c_http.Base.{
  ℕ, zero, suc, Bool, true, false, not, ◌&&◌, ◌||◌, List, [], ◌∷◌, ◌++◌, Option, none, some,
  if◌then◌else◌, ◌==◌, Bytes, codes, length, str_has, take_while, drop_while,
}
use c_http.Tpl.Buffer.{TplOut, tpl_lit_n}

-- The table `tpl_entities`; an empty text is a character that passes through.
unfoldable pub tpl_entities : ℕ → Bytes
tpl_entities c =
    if c == b'&'
    then codes "&amp;"
    else if c == b'<'
    then codes "&lt;"
    else if c == b'>'
    then codes "&gt;"
    else if c == b'"'
    then codes "&#34;"
    else if c == b'\''
    then codes "&#39;"
    else []

-- `strchr(TPL_ESCAPE_CHARS, c) == NULL`: strpbrk() goes on at such a character.
abbrev pub is_plain : ℕ → Bool
is_plain c = not (str_has c (codes "&<>\"'"))

-- What follows strpbrk(), which found the text from `hit` on, or NULL; `lit` is the output with the
-- characters in front of the hit, and `again` goes on behind it.
abbrev pub at_hit :
    (ℕ → Bool) → TplOut → Bytes → TplOut → (TplOut → Bytes → TplOut) → Bytes → TplOut
at_hit mem out p lit again [] = tpl_lit_n mem out p
at_hit mem out p lit again (hit ∷ behind) = again (tpl_lit_n mem lit (tpl_entities hit)) behind

unfoldable pub write_escaped_from : ℕ → (ℕ → Bool) → TplOut → Bytes → TplOut
write_escaped_from zero mem out p = out
write_escaped_from (suc fuel) mem out p =
    let lit = tpl_lit_n mem out (take_while is_plain p) in
    at_hit mem out p lit (write_escaped_from fuel mem) (drop_while is_plain p)

-- Each round but the last takes a byte.
unfoldable pub write_escaped : (ℕ → Bool) → TplOut → Bytes → TplOut
write_escaped mem out s = write_escaped_from (suc (length s)) mem out s

-- `none` is NULL.
unfoldable pub tpl_esc : (ℕ → Bool) → TplOut → Option Bytes → TplOut
tpl_esc mem out none = out
tpl_esc mem out (some s) = write_escaped mem out s

unfoldable pub tpl_attr : (ℕ → Bool) → TplOut → Option Bytes → TplOut
tpl_attr mem out none = out
tpl_attr mem out (some s) = write_escaped mem out s

-- ===== src/Http/Headers/Lookup.antt =====
-- Looking a header up behind a change.
use c_http.Base.{
  ℕ, ◌≡◌, refl, ◌∙◌, Bool, true, false, List, [], ◌∷◌, ◌++◌, Option, none, some, if◌then◌else◌,
  Bytes, map, to_lower, str_eq_iff, str_case_eq, arith, inl, inr, Bool-cases,
}
use c_http.Http.Headers.{
  HttpHeader, HttpHeaders, append_header, apply_header, replace_first, replace_header, find_header,
}

abbrev pub or_else : Option Bytes → Option Bytes → Option Bytes
or_else none other = other
or_else (some v) other = some v

find_header-append :
    (items more : List HttpHeader) (name : Bytes)
    → find_header (items ++ more) name ≡ or_else (find_header items name) (find_header more name)
unfolding find_header
find_header-append [] more name = refl
find_header-append (x ∷ items) more name = ground (arith, find_header-append items more name)

apply_header_ok :
    (mem : ℕ → Bool) (h : HttpHeaders) (key value : Bytes)
    → (apply_header mem h key value).1 ≡ true
    → (apply_header mem h key value).0.items ≡ h.items ++ (record { key = key; value = value } ∷ [])
unfolding apply_header append_header
apply_header_ok mem h key value done = ground arith

-- A header that was added is found under any spelling of its name, unless an older one of that name
-- stands before it, and every other name keeps its value.
pub find_header-apply_header :
    (mem : ℕ → Bool) (h : HttpHeaders) (key value name : Bytes)
    → (apply_header mem h key value).1 ≡ true
    → find_header (apply_header mem h key value).0.items name
      ≡ or_else (find_header h.items name) (if str_case_eq key name then some value else none)
unfolding find_header
find_header-apply_header mem h key value name done =
    rw (apply_header_ok mem h key value done) (find_header-append h.items _ name)

find_header-replace_first :
    (key value name : Bytes) (items : List HttpHeader)
    → (replace_first key value items).1 ≡ true
    → find_header (replace_first key value items).0 name
      ≡ (if str_case_eq key name then some value else find_header items name)
unfolding replace_first find_header
find_header-replace_first key value name [] e = cc
find_header-replace_first key value name (x ∷ items) e = ground (
  arith,
  str_eq_iff (map to_lower x.key) (map to_lower key),
  str_eq_iff (map to_lower x.key) (map to_lower name),
  str_eq_iff (map to_lower key) (map to_lower name),
  find_header-replace_first key value name items,
)

find_header-not_replaced :
    (key value name : Bytes) (items : List HttpHeader)
    → (replace_first key value items).1 ≡ false
    → str_case_eq key name ≡ true
    → find_header items name ≡ none
unfolding replace_first find_header
find_header-not_replaced key value name [] e same = refl
find_header-not_replaced key value name (x ∷ items) e same = ground (
  arith,
  str_eq_iff (map to_lower x.key) (map to_lower key),
  str_eq_iff (map to_lower x.key) (map to_lower name),
  str_eq_iff (map to_lower key) (map to_lower name),
  find_header-not_replaced key value name items,
)

-- After a successful `replace_header` the name, in any spelling, has the new value, whether or not
-- it was there before, and every other name keeps its value.
pub find_header-replace_header :
    (mem : ℕ → Bool) (h : HttpHeaders) (key value name : Bytes)
    → (replace_header mem h key value).1 ≡ true
    → find_header (replace_header mem h key value).0.items name
      ≡ (if str_case_eq key name then some value else find_header h.items name)
unfolding replace_header
find_header-replace_header mem h key value name done =
    elim (Bool-cases (replace_first key value h.items).1) [
      | inl found ↦ ground (arith, find_header-replace_first key value name h.items found)
      | inr absent ↦ rw absent (
          find_header-apply_header mem h key value name (rw absent at done)
          ∙ ground (arith, find_header-not_replaced key value name h.items absent))
    ]

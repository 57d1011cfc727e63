-- ===== src/Http/Headers.antt =====
-- The header lists of src/c_http.c. `mem n` says whether an allocation of `n` bytes succeeds; a
-- `true` among the results is the source's 0, a `false` its -1.
pub mod Invariant
pub mod Lookup
use c_http.Base.{
  ℕ, ◌+◌, ◌*◌, Bool, true, false, not, ◌&&◌, ◌||◌, List, [], ◌∷◌, ◌++◌, Option, none, some,
  if◌then◌else◌, ◌==◌, Bytes, length, str_case_eq,
}
use c_http.Http.Fields.{is_valid_header_name, header_value_has_injection}

pub record HttpHeader : Type 0 where
  pub key : Bytes
  pub value : Bytes

-- `count` is the length of `items`.
pub record HttpHeaders : Type 0 where
  pub items : List HttpHeader
  pub capacity : ℕ

-- sizeof(HttpHeader): two pointers
abbrev pub sizeof_header : ℕ
sizeof_header = 16

abbrev pub strdup : (ℕ → Bool) → Bytes → Option Bytes
strdup mem s = if mem (length s + 1) then some s else none

-- Room for one more: the new capacity, or `none` when realloc() fails.
unfoldable pub grow_headers : (ℕ → Bool) → HttpHeaders → Option ℕ
grow_headers mem h =
    if length h.items == h.capacity
    then (let new_cap = if h.capacity == 0 then 8 else h.capacity * 2 in
        if mem (new_cap * sizeof_header) then some new_cap else none)
    else some h.capacity

-- The stores behind the growth. Where one copy fails, both are freed and `count` stays.
unfoldable pub append_header : (ℕ → Bool) → HttpHeaders → Bytes → Bytes → HttpHeaders × Bool
append_header mem h key value =
    if mem (length key + 1) && mem (length value + 1)
    then (record h { items = h.items ++ (record { key = key; value = value } ∷ []) }, true)
    else (h, false)

unfoldable pub apply_header : (ℕ → Bool) → HttpHeaders → Bytes → Bytes → HttpHeaders × Bool
apply_header mem h key value =
    if not (is_valid_header_name key)
    then (h, false)
    else if header_value_has_injection value
    then (h, false)
    else elim (grow_headers mem h) [
      | none ↦ (h, false)
      | some cap ↦ append_header mem (record h { capacity = cap }) key value
    ]

-- The loop of `replace_header`: the items with the value of the first match replaced, and whether
-- there was one.
unfoldable pub replace_first : Bytes → Bytes → List HttpHeader → List HttpHeader × Bool
replace_first key value [] = ([], false)
replace_first key value (x ∷ items) =
    let (rest, found) = replace_first key value items in
    if str_case_eq x.key key then (record x { value = value } ∷ items, true) else (x ∷ rest, found)

unfoldable pub replace_header : (ℕ → Bool) → HttpHeaders → Bytes → Bytes → HttpHeaders × Bool
replace_header mem h key value =
    let (items, found) = replace_first key value h.items in
    if not found
    then apply_header mem h key value
    else if mem (length value + 1)
    then (record h { items = items }, true)
    else (h, false)

-- `http_req_header` over the items: the value of the first match, `none` for NULL.
unfoldable pub find_header : List HttpHeader → Bytes → Option Bytes
find_header [] key = none
find_header (x ∷ items) key = if str_case_eq x.key key then some x.value else find_header items key

-- ===== src/Http/Headers/Invariant.antt =====
-- What every stored header satisfies.
use c_http.Base.{
  ℕ, ◌+◌, ◌≤◌, ◌≡◌, refl, Bool, true, false, List, [], ◌∷◌, some, Bytes, length, length-append, All,
  All-append, arith, inl, inr, Option-cases, Bool-cases,
}
use c_http.Http.Fields.{is_valid_header_name, header_value_has_injection}
use c_http.Http.Headers.{
  HttpHeader, HttpHeaders, grow_headers, append_header, apply_header, replace_first, replace_header,
}

-- A field name by RFC 9110, and no CR or LF in the value.
abbrev pub IsClean : HttpHeader → Type 0
IsClean x = (is_valid_header_name x.key ≡ true) × (header_value_has_injection x.value ≡ false)

pub record IsValid (h : HttpHeaders) : Type 0 where
  pub clean : All IsClean h.items
  pub in_capacity : length h.items ≤ h.capacity

grow_headers_room :
    (mem : ℕ → Bool) (h : HttpHeaders) (cap : ℕ)
    → length h.items ≤ h.capacity
    → grow_headers mem h ≡ some cap
    → length h.items + 1 ≤ cap
unfolding grow_headers
grow_headers_room mem h cap v e = ground arith

append_header-IsValid :
    (mem : ℕ → Bool) (h : HttpHeaders) (key value : Bytes)
    → All IsClean h.items
    → length h.items + 1 ≤ h.capacity
    → IsClean (record { key = key; value = value })
    → IsValid (append_header mem h key value).0
unfolding append_header
append_header-IsValid mem h key value items room clean =
    let x : HttpHeader = record { key = key; value = value } in
    ground
      (arith, All-append IsClean h.items (x ∷ []) items (clean, tt), length-append h.items (x ∷ []))

-- Whatever key and value a caller gives, and whether or not memory is left, every stored header
-- keeps a valid name and a value with no line break, and the array holds all of them.
pub apply_header-IsValid :
    (mem : ℕ → Bool) (h : HttpHeaders) (key value : Bytes)
    → IsValid h
    → IsValid (apply_header mem h key value).0
unfolding apply_header
apply_header-IsValid mem h key value v = elim (Bool-cases (is_valid_header_name key)) [
  | inr bad ↦ rw bad v
  | inl named ↦ elim (Bool-cases (header_value_has_injection value)) [
    | inl injected ↦ rw (named, injected) v
    | inr safe ↦ elim (Option-cases (grow_headers mem h)) [
      | inl full ↦ rw (named, safe, full) v
      | inr (cap, grown) ↦
          rw (named, safe, grown)
            (append_header-IsValid mem (record h { capacity = cap }) key value v.clean
              (grow_headers_room mem h cap v.in_capacity grown) (named, safe))
    ]
  ]
]

replace_first-IsClean :
    (key value : Bytes) (items : List HttpHeader)
    → All IsClean items
    → header_value_has_injection value ≡ false
    → All IsClean (replace_first key value items).0
      × (length (replace_first key value items).0 ≡ length items)
unfolding replace_first
replace_first-IsClean key value [] c safe = (tt, refl)
replace_first-IsClean key value (x ∷ items) (cx, c) safe =
    ground (arith, replace_first-IsClean key value items c safe)

-- `replace_header` keeps this too, when the new value has no line break.
replace_header-IsValid :
    (mem : ℕ → Bool) (h : HttpHeaders) (key value : Bytes)
    → IsValid h
    → header_value_has_injection value ≡ false
    → IsValid (replace_header mem h key value).0
unfolding replace_header
replace_header-IsValid mem h key value v safe = ground (
  arith,
  replace_first-IsClean key value h.items v.clean safe,
  apply_header-IsValid mem h key value v,
)

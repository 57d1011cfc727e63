-- ===== src/Http/HeaderBlock/Stored.antt =====
-- What a header block can leave.
use c_http.Base.{
  ℕ, zero, suc, ◌≤◌, Bool, true, false, not, ◌||◌, [], ◌∷◌, Option, none, some, ◌==◌, leb, Bytes,
  length, length-append, deref, arith, inl, inr, Bool-cases,
}
use c_http.Http.Fields.{is_valid_header_name, header_value_has_injection}
use c_http.Http.Headers.{HttpHeader, HttpHeaders, append_header, apply_header}
use c_http.Http.Headers.Invariant.{IsValid, apply_header-IsValid}
use c_http.Http.HeaderBlock.{
  cut_line, split_line, if_stored, store_line, at_line, headers_loop, parse_headers,
}

-- At most 64 headers, each of them clean.
pub record IsBounded (h : HttpHeaders) : Type 0 where
  pub valid : IsValid h
  pub few : length h.items ≤ 64

length-apply_header :
    (mem : ℕ → Bool) (h : HttpHeaders) (key value : Bytes)
    → length (apply_header mem h key value).0.items ≤ suc (length h.items)
unfolding apply_header append_header
length-apply_header mem h key value =
    let x : HttpHeader = record { key = key; value = value } in
    ground (arith, length-append h.items (x ∷ []))

if_stored-IsBounded :
    (r : HttpHeaders × Bool) (again : HttpHeaders → HttpHeaders × ℕ)
    → IsBounded r.0
    → ((h : HttpHeaders) → IsBounded h → IsBounded (again h).0)
    → IsBounded (if_stored r again).0
if_stored-IsBounded (h, true) again v next = next h v
if_stored-IsBounded (h, false) again v next = v

store_line-IsBounded :
    (mem : ℕ → Bool) (h : HttpHeaders) (line : Option (Bytes × Bytes))
    (again : HttpHeaders → HttpHeaders × ℕ)
    → IsBounded h
    → ((h : HttpHeaders) → IsBounded h → IsBounded (again h).0)
    → IsBounded (store_line mem h line again).0
store_line-IsBounded mem h none again v next = next h v
store_line-IsBounded mem h (some (key, value)) again v next =
    elim (Bool-cases (not (is_valid_header_name key) || header_value_has_injection value)) [
      | inl bad ↦ rw bad (next h v)
      | inr good ↦ elim (Bool-cases (leb 64 (length h.items))) [
        | inl full ↦ rw (good, full) v
        | inr room ↦
            let few : length (apply_header mem h key value).0.items ≤ 64 =
              ground (arith, length-apply_header mem h key value) in
            rw (good, room)
              (if_stored-IsBounded (apply_header mem h key value) again
                (record { valid = apply_header-IsValid mem h key value v.valid; few = few }) next)
      ]
    ]

at_line-IsBounded :
    (mem : ℕ → Bool) (h : HttpHeaders) (cut : Option (Bytes × Bytes))
    (again : Bytes → HttpHeaders → HttpHeaders × ℕ)
    → IsBounded h
    → ((rest : Bytes) (h : HttpHeaders) → IsBounded h → IsBounded (again rest h).0)
    → IsBounded (at_line mem h cut again).0
at_line-IsBounded mem h none again v next = v
at_line-IsBounded mem h (some (line, rest)) again v next =
    store_line-IsBounded mem h (split_line line) (again rest) v (next rest)

headers_loop-IsBounded :
    (fuel : ℕ) (mem : ℕ → Bool) (text : Bytes) (h : HttpHeaders)
    → IsBounded h
    → IsBounded (headers_loop fuel mem text h).0
unfolding headers_loop
headers_loop-IsBounded zero mem text h v = v
headers_loop-IsBounded (suc fuel) mem text h v =
    elim (Bool-cases (length text == 0 || deref text == b'\r')) [
      | inl ends ↦ rw ends v
      | inr goes_on ↦ rw goes_on (
          at_line-IsBounded mem h (cut_line text) (headers_loop fuel mem) v
            (λ rest h' v'. headers_loop-IsBounded fuel mem rest h' v'))
    ]

-- Whatever is received, and on every way out of the loop, at most 64 headers are stored, each with
-- a valid name and a value with no line break, in an array that holds them.
parse_headers-IsBounded :
    (mem : ℕ → Bool) (text : Bytes) (h : HttpHeaders)
    → IsBounded h
    → IsBounded (parse_headers mem text h).0
unfolding parse_headers
parse_headers-IsBounded mem text h v = headers_loop-IsBounded (length text) mem text h v

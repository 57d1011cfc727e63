-- ===== src/Http/Query/RoundTrip.antt =====
-- A query string is read back pair by pair.
use c_http.Base.{
  ℕ, zero, suc, ◌+◌, ◌/◌, ◌%◌, ◌≤◌, ◌<◌, ◌≡◌, ◌≢◌, refl, sym, ap, ◌∙◌, Bool, true, false, List, [],
  ◌∷◌, ◌++◌, ◌==◌, Bytes, length, length-append, length-pos, All, append-nil, append_assoc, all,
  Stops, take_while-append, drop_while-append, arith,
}
use c_http.Http.Query.{
  HttpQueryParam, in_key, in_value, raw_pair, decode_pair, skip_ampersand, query_loop, parse_query,
}
use c_http.Http.Query.Decode.{IsText, hex_digit, percent_all, query_decode-percent_all}

digits_in_key : (upper : Bool) (s : Bytes) → All IsText s → all in_key (percent_all upper s) ≡ true
digits_in_key upper [] t = refl
digits_in_key upper (c ∷ s) t =
    let high : in_key (hex_digit upper (c / 16)) ≡ true = ground arith in
    let low : in_key (hex_digit upper (c % 16)) ≡ true = ground arith in
    rw (high, low) (digits_in_key upper s t.1)

digits_in_value :
    (upper : Bool) (s : Bytes) → All IsText s → all in_value (percent_all upper s) ≡ true
digits_in_value upper [] t = refl
digits_in_value upper (c ∷ s) t =
    let high : in_value (hex_digit upper (c / 16)) ≡ true = ground arith in
    let low : in_value (hex_digit upper (c % 16)) ≡ true = ground arith in
    rw (high, low) (digits_in_value upper s t.1)

length-percent_all : (upper : Bool) (s : Bytes) → length s ≤ length (percent_all upper s)
length-percent_all upper [] = omega arith
length-percent_all upper (c ∷ s) = omega (arith, length-percent_all upper s)

-- A parameter as a client may write it.
abbrev pub format_pair : Bool → HttpQueryParam → Bytes
format_pair upper x = percent_all upper x.key ++ (b'=' ∷ percent_all upper x.value)

abbrev pub format_query : Bool → List HttpQueryParam → Bytes
format_query upper [] = []
format_query upper (x ∷ []) = format_pair upper x
format_query upper (x ∷ y ∷ xs) = format_pair upper x ++ (b'&' ∷ format_query upper (y ∷ xs))

-- A parameter that fits the arrays of `HttpQueryParam`.
pub record IsParam (x : HttpQueryParam) : Type 0 where
  pub key_ne : x.key ≢ []
  pub key_text : All IsText x.key
  pub value_text : All IsText x.value
  pub key_fits : length x.key < 32
  pub value_fits : length x.value < 64

raw_pair-format_pair :
    (upper : Bool) (x : HttpQueryParam) (tail : Bytes)
    → IsParam x
    → Stops in_value tail
    → raw_pair (percent_all upper x.key ++ (b'=' ∷ (percent_all upper x.value ++ tail))) ≡ record {
      raw_key = percent_all upper x.key;
      raw_value = percent_all upper x.value;
      behind = tail;
    }
unfolding raw_pair
raw_pair-format_pair upper x tail v s =
    let keys = digits_in_key upper x.key v.key_text in
    let values = digits_in_value upper x.value v.value_text in
    let value_tail = b'=' ∷ (percent_all upper x.value ++ tail) in
    rw (
      take_while-append in_key (percent_all upper x.key) value_tail keys refl,
      drop_while-append in_key (percent_all upper x.key) value_tail keys refl,
      take_while-append in_value (percent_all upper x.value) tail values s,
      drop_while-append in_value (percent_all upper x.value) tail values s,
    )

decode_pair-percent_all :
    (upper : Bool) (x : HttpQueryParam) (tail : Bytes)
    → IsParam x
    → decode_pair (record {
      raw_key = percent_all upper x.key;
      raw_value = percent_all upper x.value;
      behind = tail;
    })
      ≡ x ∷ []
unfolding decode_pair
decode_pair-percent_all upper x tail v =
    let filled : length (percent_all upper x.key) == 0 ≡ false =
      ground (arith, length-percent_all upper x.key, length-pos x.key v.key_ne) in
    rw (filled, query_decode-percent_all upper x.key 32 v.key_text v.key_fits)
      (rw (query_decode-percent_all upper x.value 64 v.value_text v.value_fits))

query_loop_step :
    (fuel : ℕ) (p : Bytes) (out : List HttpQueryParam)
    → p ≢ []
    → length out < 16
    → query_loop (suc fuel) p out
      ≡ query_loop fuel (skip_ampersand (raw_pair p).behind) (out ++ decode_pair (raw_pair p))
unfolding query_loop
query_loop_step fuel [] out ne room = absurd (ne refl)
query_loop_step fuel (c ∷ p) out ne room = ground arith

pair-ne-nil : (a b : Bytes) (c : ℕ) → a ++ (c ∷ b) ≢ []
pair-ne-nil [] b c e = cc
pair-ne-nil (x ∷ a) b c e = cc

query_loop-format_pair :
    (upper : Bool) (x : HttpQueryParam) (tail : Bytes) (fuel : ℕ) (out : List HttpQueryParam)
    → IsParam x
    → Stops in_value tail
    → length out < 16
    → query_loop (suc fuel) (format_pair upper x ++ tail) out
      ≡ query_loop fuel (skip_ampersand tail) (out ++ (x ∷ []))
query_loop-format_pair upper x tail fuel out v s room = rw append_assoc (
    query_loop_step fuel _ out (pair-ne-nil (percent_all upper x.key) _ _) room
    ∙ rw (raw_pair-format_pair upper x tail v s) (rw (decode_pair-percent_all upper x tail v)))

length-format_pair : (upper : Bool) (x : HttpQueryParam) → 0 < length (format_pair upper x)
length-format_pair upper x =
    omega (arith, length-append (percent_all upper x.key) (b'=' ∷ percent_all upper x.value))

query_loop-nil : (fuel : ℕ) (out : List HttpQueryParam) → query_loop fuel [] out ≡ out
unfolding query_loop
query_loop-nil zero out = refl
query_loop-nil (suc fuel) out = refl

query_loop-format_query :
    (upper : Bool) (xs out : List HttpQueryParam) (fuel : ℕ)
    → All IsParam xs
    → length out + length xs ≤ 16
    → length (format_query upper xs) ≤ fuel
    → query_loop fuel (format_query upper xs) out ≡ out ++ xs
query_loop-format_query upper [] out zero v fits h = unfold query_loop in sym (append-nil out)
query_loop-format_query upper [] out (suc fuel) v fits h = unfold query_loop in sym (append-nil out)
query_loop-format_query upper (x ∷ []) out zero v fits h =
    absurd (omega (arith, length-format_pair upper x))
query_loop-format_query upper (x ∷ []) out (suc fuel) v fits h =
    ap (λ s. query_loop (suc fuel) s out) (sym (append-nil (format_pair upper x)))
    ∙ query_loop-format_pair upper x [] fuel out v.0 tt (omega arith)
    ∙ query_loop-nil fuel (out ++ (x ∷ []))
query_loop-format_query upper (x ∷ y ∷ xs) out zero v fits h = absurd (
    omega (
      arith,
      length-format_pair upper x,
      length-append (format_pair upper x) (b'&' ∷ format_query upper (y ∷ xs)),
    ))
query_loop-format_query upper (x ∷ y ∷ xs) out (suc fuel) v fits h =
    query_loop-format_pair upper x (b'&' ∷ format_query upper (y ∷ xs)) fuel out v.0 refl
      (omega arith)
    ∙ query_loop-format_query upper (y ∷ xs) (out ++ (x ∷ [])) fuel v.1
        (omega (arith, length-append out (x ∷ [])))
        (omega (
          arith,
          length-format_pair upper x,
          length-append (format_pair upper x) (b'&' ∷ format_query upper (y ∷ xs)),
        ))
    ∙ append_assoc out (x ∷ []) (y ∷ xs)

-- At most sixteen parameters, each with a key and fitting its arrays, written with every byte
-- percent-encoded, in capital or small hex digits, are parsed back, in their order.
pub parse_query-format_query :
    (upper : Bool) (xs : List HttpQueryParam)
    → All IsParam xs
    → length xs ≤ 16
    → parse_query (format_query upper xs) ≡ xs
unfolding parse_query
parse_query-format_query upper xs v fits =
    query_loop-format_query upper xs [] _ v (omega (arith, fits)) (omega arith)

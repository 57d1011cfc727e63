-- ===== src/Http/Json/Skip.antt =====
-- `json_skip_value` goes over the text of a value.
use c_http.Base.{
  ℕ, zero, suc, ◌/◌, ◌%◌, ◌≤◌, ◌<◌, ◌≡◌, ◌≢◌, refl, ap, ◌∙◌, Bool, true, false, List, [], ◌∷◌, ◌++◌,
  ◌==◌, is_digit, Bytes, drop_while-append, length, length-append, append_assoc, all, All, Stops,
  arith,
}
use c_http.Http.Query.Decode.{hex_digit}
use c_http.Http.Json.{
  is_json_ws, json_skip_ws, is_number_char, Skipped, after, skip_string, skip_number, skip_word,
  behind_value, behind_key, skip_members, skip_elements, skip_items, skip_kind, json_skip_value,
}
use c_http.Http.Json.Pieces.{
  quote, backslash, slash, backspace, form_feed, newline, return, tab, Piece, plain, short, unicode,
  piece_text, hex4, text_of, IsCodePoint, IsPiece,
}
use c_http.Http.Json.Written.{quoted}
use c_http.Http.Json.Values.{
  word_true, word_false, word_null, Value, Values, Members, string, number, word, array, object,
  no_values, value, no_members, member, format_value, first_value, more_values, first_member,
  more_members, IsValue, AreValues, AreMembers, format_value-Stops, format_value-ne-close,
  length-format_value, length-key,
}

-- A byte inside a string that is skipped by itself.
abbrev Inside : ℕ → Type 0
Inside c = (c ≢ b'"') × (c ≢ b'\\') × (0x20 ≤ c)

skip_string-Inside : (c : ℕ) (p : Bytes) → Inside c → skip_string (c ∷ p) ≡ skip_string p
unfolding skip_string
skip_string-Inside c [] h = ground arith
skip_string-Inside c (e ∷ p) h = ground arith

hex_digit-Inside : (upper : Bool) (d : ℕ) → d < 16 → Inside (hex_digit upper d)
hex_digit-Inside upper d h = ground arith

skip_string-hex4 :
    (upper : Bool) (cp : ℕ) (p : Bytes)
    → IsCodePoint cp
    → skip_string (hex4 upper cp ++ p) ≡ skip_string p
skip_string-hex4 upper cp p v =
    let digit = skip_digit in
    digit (cp / 4096) _ (omega (arith, v.four_digits))
    ∙ digit (cp / 256 % 16) _ (omega arith)
    ∙ digit (cp / 16 % 16) _ (omega arith)
    ∙ digit (cp % 16) p (omega arith)
  where
    skip_digit : (d : ℕ) (s : Bytes) → d < 16 → skip_string (hex_digit upper d ∷ s) ≡ skip_string s
    skip_digit d s h = skip_string-Inside (hex_digit upper d) s (hex_digit-Inside upper d h)

skip_string-piece :
    (x : Piece) (p : Bytes) → IsPiece x → skip_string (piece_text x ++ p) ≡ skip_string p
unfolding skip_string
skip_string-piece (plain c) p v = skip_string-Inside c p (v.not_quote, v.not_backslash, v.printable)
skip_string-piece (short quote) p v = refl
skip_string-piece (short backslash) p v = refl
skip_string-piece (short slash) p v = refl
skip_string-piece (short backspace) p v = refl
skip_string-piece (short form_feed) p v = refl
skip_string-piece (short newline) p v = refl
skip_string-piece (short return) p v = refl
skip_string-piece (short tab) p v = refl
skip_string-piece (unicode upper cp) p v = skip_string-hex4 upper cp p v

skip_string-quote : (rest : Bytes) → skip_string (b'"' ∷ rest) ≡ after rest
unfolding skip_string
skip_string-quote [] = refl
skip_string-quote (c ∷ rest) = refl

skip_string-text_of :
    (xs : List Piece) (rest : Bytes)
    → All IsPiece xs
    → skip_string (text_of xs ++ (b'"' ∷ rest)) ≡ after rest
skip_string-text_of [] rest v = skip_string-quote rest
skip_string-text_of (x ∷ xs) rest v =
    rw append_assoc (skip_string-piece x (text_of xs ++ (b'"' ∷ rest)) v.0)
    ∙ skip_string-text_of xs rest v.1

skip_number-digit :
    (c : ℕ) (tail rest : Bytes)
    → is_digit c ≡ true
    → all is_number_char tail ≡ true
    → Stops is_number_char rest
    → (skip_number (b'-' ∷ c ∷ (tail ++ rest)) ≡ after rest)
      × (skip_number (c ∷ (tail ++ rest)) ≡ after rest)
unfolding skip_number
skip_number-digit c tail rest d h s =
    let whole = drop_while-append is_number_char tail rest h s in
    let no_minus : c == b'-' ≡ false = ground (arith, d) in
    (rw (d, skip_number) (ap after whole), rw (no_minus, d) (ap after whole))

-- A byte that begins no other kind of value.
other_kind :
    (skip : Bytes → Skipped) (c : ℕ) (p : Bytes)
    → is_digit c ≡ true
    → skip_kind skip (c ∷ p) ≡ skip_number (c ∷ p)
unfolding skip_kind skip_word
other_kind skip c p d = ground (arith, d)

skip_kind-minus :
    (skip : Bytes → Skipped) (p : Bytes) → skip_kind skip (b'-' ∷ p) ≡ skip_number (b'-' ∷ p)
unfolding skip_kind skip_word
skip_kind-minus skip p = refl

pub json_skip_ws-append :
    (w p : Bytes) → all is_json_ws w ≡ true → Stops is_json_ws p → json_skip_ws (w ++ p) ≡ p
json_skip_ws-append w p h s = drop_while-append is_json_ws w p h s

-- What may follow a value stops a number.
pub Stops-behind :
    (w p : Bytes) → all is_json_ws w ≡ true → Stops is_number_char p → Stops is_number_char (w ++ p)
Stops-behind [] p h s = s
Stops-behind (c ∷ w) p h s = ground arith

key-IsValue : (d : ℕ) (key : List Piece) → 0 < d → All IsPiece key → IsValue d (string key)
key-IsValue zero key dp h = absurd (omega (arith, dp))
key-IsValue (suc d) key dp h = h

module _ (w : Bytes) (blank : all is_json_ws w ≡ true) where
  behind_value-close :
      (again : Bytes → Skipped) (close : ℕ) (rest : Bytes)
      → is_json_ws close ≡ false
      → close == b',' ≡ false
      → behind_value again close (after (w ++ (close ∷ rest))) ≡ after rest
  behind_value-close again close rest h k =
      rw (json_skip_ws-append w (close ∷ rest) blank h) (ground (arith, k))

  behind_value-comma :
      (again : Bytes → Skipped) (close : ℕ) (p : Bytes)
      → Stops is_json_ws p
      → behind_value again close (after (w ++ (b',' ∷ (w ++ p)))) ≡ again p
  behind_value-comma again close p h =
      rw (json_skip_ws-append w (b',' ∷ (w ++ p)) blank refl)
        (ap again (json_skip_ws-append w p blank h))

  behind_key-colon :
      (skip again : Bytes → Skipped) (p : Bytes)
      → Stops is_json_ws p
      → behind_key skip again (after (w ++ (b':' ∷ (w ++ p)))) ≡ behind_value again b'}' (skip p)
  behind_key-colon skip again p h =
      rw (json_skip_ws-append w (b':' ∷ (w ++ p)) blank refl)
        (ap (λ q. behind_value again b'}' (skip q)) (json_skip_ws-append w p blank h))

  Stops-more_values :
      (vs : Values) (rest : Bytes) → Stops is_number_char (w ++ more_values w vs rest)
  Stops-more_values no_values rest = Stops-behind w (b']' ∷ rest) blank refl
  Stops-more_values (value v vs) rest = Stops-behind w (more_values w (value v vs) rest) blank refl

  Stops-more_members :
      (ms : Members) (rest : Bytes) → Stops is_number_char (w ++ more_members w ms rest)
  Stops-more_members no_members rest = Stops-behind w (b'}' ∷ rest) blank refl
  Stops-more_members (member k v ms) rest =
      Stops-behind w (more_members w (member k v ms) rest) blank refl

  -- One level of the scanner, from the level below it.
  module _ (d : ℕ) (skip : Bytes → Skipped)
      (known : (v : Value) (rest : Bytes)
        → IsValue d v
        → Stops is_number_char rest
        → skip (format_value w v rest) ≡ after rest) where
    skip_elements-values :
        (v : Value) (vs : Values) (fuel : ℕ) (rest : Bytes)
        → IsValue d v
        → AreValues d vs
        → length (format_value w v (w ++ more_values w vs rest)) < fuel
        → skip_elements skip fuel (format_value w v (w ++ more_values w vs rest)) ≡ after rest
    unfolding skip_elements
    skip_elements-values v vs zero rest h hs k = absurd (omega (arith, k))
    skip_elements-values v no_values (suc fuel) rest h hs k =
        ap (behind_value (skip_elements skip fuel) b']')
          (known v _ h (Stops-more_values no_values rest))
        ∙ behind_value-close (skip_elements skip fuel) b']' rest refl refl
    skip_elements-values v (value u vs) (suc fuel) rest h hs k =
        let next = format_value w u (w ++ more_values w vs rest) in
        ap (behind_value (skip_elements skip fuel) b']')
          (known v _ h (Stops-more_values (value u vs) rest))
        ∙ behind_value-comma (skip_elements skip fuel) b']' next (format_value-Stops w d u _ hs.0)
        ∙ skip_elements-values u vs fuel rest hs.0 hs.1 (
            omega (
              arith,
              k,
              length-format_value w v (w ++ (b',' ∷ (w ++ next))),
              length-append w (b',' ∷ (w ++ next)),
              length-append w next,
            ))

    skip_members-step :
        (key : List Piece) (v : Value) (fuel : ℕ) (tail : Bytes)
        → IsValue d (string key)
        → IsValue d v
        → Stops is_number_char tail
        → skip_members skip (suc fuel) (quoted key (w ++ (b':' ∷ (w ++ format_value w v tail))))
          ≡ behind_value (skip_members skip fuel) b'}' (after tail)
    unfolding skip_members
    skip_members-step key v fuel tail hk hv s =
        let again = skip_members skip fuel in
        let p = format_value w v tail in
        ap (behind_key skip again)
          (known (string key) (w ++ (b':' ∷ (w ++ p))) hk (Stops-behind w _ blank refl))
        ∙ behind_key-colon skip again p (format_value-Stops w d v tail hv)
        ∙ ap (behind_value again b'}') (known v tail hv s)

    skip_members-members :
        (key : List Piece) (v : Value) (ms : Members) (fuel : ℕ) (rest : Bytes)
        → AreMembers d (member key v ms)
        → length (first_member w (member key v ms) rest) < fuel
        → skip_members skip fuel (first_member w (member key v ms) rest) ≡ after rest
    skip_members-members key v ms zero rest h k = absurd (omega (arith, k))
    skip_members-members key v no_members (suc fuel) rest (dp, hk, hv, hs) k =
        skip_members-step key v fuel _ (key-IsValue d key dp hk) hv
          (Stops-more_members no_members rest)
        ∙ behind_value-close (skip_members skip fuel) b'}' rest refl refl
    skip_members-members key v (member next u ms) (suc fuel) rest (dp, hk, hv, hs) k =
        let following = first_member w (member next u ms) rest in
        let tail = w ++ (b',' ∷ (w ++ following)) in
        skip_members-step key v fuel tail (key-IsValue d key dp hk) hv
          (Stops-more_members (member next u ms) rest)
        ∙ behind_value-comma (skip_members skip fuel) b'}' following refl
        ∙ skip_members-members next u ms fuel rest hs (
            omega (
              arith,
              k,
              length-key w key (format_value w v tail),
              length-format_value w v tail,
              length-append w (b',' ∷ (w ++ following)),
              length-append w following,
            ))

    skip_items-elements :
        (vs : Values) (rest : Bytes)
        → AreValues d vs
        → skip_items (skip_elements skip) b']' (first_value w vs rest) ≡ after rest
    skip_items-elements no_values rest h = refl
    skip_items-elements (value v vs) rest h =
        rw (format_value-ne-close w d v (w ++ more_values w vs rest) h.0)
          (skip_elements-values v vs _ rest h.0 h.1 (omega arith))

    skip_items-members :
        (ms : Members) (rest : Bytes)
        → AreMembers d ms
        → skip_items (skip_members skip) b'}' (first_member w ms rest) ≡ after rest
    skip_items-members no_members rest h = refl
    skip_items-members (member key v ms) rest h =
        skip_members-members key v ms _ rest h (omega arith)

    first_value-Stops :
        (vs : Values) (rest : Bytes) → AreValues d vs → Stops is_json_ws (first_value w vs rest)
    first_value-Stops no_values rest h = refl
    first_value-Stops (value v vs) rest h = format_value-Stops w d v _ h.0

    first_member-Stops : (ms : Members) (rest : Bytes) → Stops is_json_ws (first_member w ms rest)
    first_member-Stops no_members rest = refl
    first_member-Stops (member key v ms) rest = refl

    skip_kind-value :
        (v : Value) (rest : Bytes)
        → IsValue (suc d) v
        → Stops is_number_char rest
        → skip_kind skip (format_value w v rest) ≡ after rest
    unfolding skip_kind
    skip_kind-value (string xs) rest h s = skip_string-text_of xs rest h
    skip_kind-value (number true c tail) rest h s =
        skip_kind-minus skip (c ∷ (tail ++ rest)) ∙ (skip_number-digit c tail rest h.0 h.1 s).0
    skip_kind-value (number false c tail) rest h s =
        other_kind skip c (tail ++ rest) h.0 ∙ (skip_number-digit c tail rest h.0 h.1 s).1
    skip_kind-value (word word_true) rest h s = unfold skip_word in refl
    skip_kind-value (word word_false) rest h s = unfold skip_word in refl
    skip_kind-value (word word_null) rest h s = unfold skip_word in refl
    skip_kind-value (array vs) rest h s =
        ap (skip_items (skip_elements skip) b']')
          (json_skip_ws-append w (first_value w vs rest) blank (first_value-Stops vs rest h))
        ∙ skip_items-elements vs rest h
    skip_kind-value (object ms) rest h s =
        ap (skip_items (skip_members skip) b'}')
          (json_skip_ws-append w (first_member w ms rest) blank (first_member-Stops ms rest))
        ∙ skip_items-members ms rest h

-- The scanner goes over the text of every value whose depth is below the bound, with any blanks
-- where JSON allows them, and stops right behind it.
pub json_skip_value-format_value :
    (w : Bytes) (d : ℕ) (v : Value) (rest : Bytes)
    → all is_json_ws w ≡ true
    → IsValue d v
    → Stops is_number_char rest
    → json_skip_value d (format_value w v rest) ≡ after rest
unfolding json_skip_value
json_skip_value-format_value w zero v rest blank h s = absurd h
json_skip_value-format_value w (suc d) v rest blank h s =
    skip_kind-value w blank d (json_skip_value d)
      (λ u r. json_skip_value-format_value w d u r blank) v rest h s

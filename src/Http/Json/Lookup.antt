-- ===== src/Http/Json/Lookup.antt =====
-- `http_req_json_string` on the text of an object.
use c_http.Base.{
  ℕ, zero, suc, ◌<◌, ◌≡◌, refl, ap, ◌∙◌, true, false, List, [], ◌∷◌, ◌++◌, Option, none, some,
  if◌then◌else◌, ◌==◌, Bytes, str_eq, drop_while-append, take_while-append, length, length-append,
  all, All, Stops, arith, inl, inr, Bool-cases,
}
use c_http.Http.Json.{
  is_json_ws, is_number_char, is_key_char, Decoded, rejected, decoded, after, next_member,
  member_value, member_key, members_loop, top_object, http_req_json_string,
}
use c_http.Http.Json.Pieces.{bytes_of}
use c_http.Http.Json.Written.{json_decode_string-quoted}
use c_http.Http.Json.Values.{
  Value, word_true, word_false, word_null, string, number, word, array, object, format_value,
  IsValue, format_value-Stops, length-format_value,
}
use c_http.Http.Json.Skip.{json_skip_ws-append, Stops-behind, json_skip_value-format_value}

pub record JsonMember : Type 0 where
  pub name : Bytes
  pub value : Value

-- A member of the object: its name without escapes, its value at most 32 levels deep.
pub record IsMember (m : JsonMember) : Type 0 where
  pub name_plain : all is_key_char m.name ≡ true
  pub value_valid : IsValue 33 m.value

abbrev pub from_value : Bytes → Value → Bytes → Bytes
from_value w v tail = b':' ∷ (w ++ format_value w v tail)

-- What stands behind the members, and the members behind the first.
abbrev pub more_top : Bytes → List JsonMember → Bytes → Bytes
more_top w [] rest = b'}' ∷ rest
more_top w (m ∷ ms) rest =
    b','
    ∷ (w ++ (b'"' ∷ (m.name ++ (b'"' ∷ (w ++ from_value w m.value (w ++ more_top w ms rest))))))

abbrev pub first_top : Bytes → JsonMember → List JsonMember → Bytes → Bytes
first_top w m ms rest =
    b'"' ∷ (m.name ++ (b'"' ∷ (w ++ from_value w m.value (w ++ more_top w ms rest))))

abbrev pub format_members : Bytes → List JsonMember → Bytes → Bytes
format_members w [] rest = b'}' ∷ rest
format_members w (m ∷ ms) rest = first_top w m ms rest

-- A body: an object with blanks around it.
abbrev pub format_body : Bytes → List JsonMember → Bytes
format_body w ms = w ++ (b'{' ∷ (w ++ format_members w ms w))

-- The value of the first member of that name.
abbrev pub lookup : Bytes → List JsonMember → Option Value
lookup key [] = none
lookup key (m ∷ ms) = if str_eq m.name key then some m.value else lookup key ms

abbrev pub answer : Option Value → Decoded
answer (some (string xs)) = decoded (bytes_of xs)
answer _ = rejected

-- A string that `out` holds with its NUL.
abbrev pub IsReadable : ℕ → Option Value → Type 0
IsReadable size (some (string xs)) = length (bytes_of xs) < size
IsReadable size _ = Unit {0}

decode_value :
    (w : Bytes) (again : Bytes → Decoded) (size : ℕ) (v : Value) (rest : Bytes)
    → IsValue 33 v
    → IsReadable size (some v)
    → member_value again size true (format_value w v rest) ≡ answer (some v)
unfolding member_value
decode_value w again size (string xs) rest h r = json_decode_string-quoted xs rest size h r
decode_value w again size (number true c tail) rest h r = refl
decode_value w again size (number false c tail) rest h r = ground (arith, h.0)
decode_value w again size (word word_true) rest h r = refl
decode_value w again size (word word_false) rest h r = refl
decode_value w again size (word word_null) rest h r = refl
decode_value w again size (array vs) rest h r = refl
decode_value w again size (object ms) rest h r = refl

module _ (w : Bytes) (blank : all is_json_ws w ≡ true) where
  Stops-more_top :
      (ms : List JsonMember) (rest : Bytes) → Stops is_number_char (w ++ more_top w ms rest)
  Stops-more_top [] rest = Stops-behind w (b'}' ∷ rest) blank refl
  Stops-more_top (m ∷ ms) rest = Stops-behind w (more_top w (m ∷ ms) rest) blank refl

  length-first_top :
      (m : JsonMember) (ms : List JsonMember) (rest : Bytes)
      → length (more_top w ms rest) < length (first_top w m ms rest)
  length-first_top m ms rest =
      let tail = w ++ more_top w ms rest in
      let inner = format_value w m.value tail in
      omega (
        arith,
        length-append m.name (b'"' ∷ (w ++ (b':' ∷ (w ++ inner)))),
        length-append w (b':' ∷ (w ++ inner)),
        length-append w inner,
        length-format_value w m.value tail,
        length-append w (more_top w ms rest),
      )

  module _ (key : Bytes) (size : ℕ) where
    -- A round of the loop reads the name and goes to the value.
    members_loop_step :
        (fuel : ℕ) (m : JsonMember) (ms : List JsonMember) (rest : Bytes)
        → IsMember m
        → members_loop (suc fuel) key size (first_top w m ms rest)
          ≡ member_value
              (members_loop fuel key size)
              size
              (str_eq m.name key)
              (format_value w m.value (w ++ more_top w ms rest))
    unfolding members_loop member_key
    members_loop_step fuel m ms rest v =
        let tail = w ++ more_top w ms rest in
        let p = format_value w m.value tail in
        let behind = b'"' ∷ (w ++ (b':' ∷ (w ++ p))) in
        rw
          (
            take_while-append is_key_char m.name behind v.name_plain refl,
            drop_while-append is_key_char m.name behind v.name_plain refl,
          )
          (rw (json_skip_ws-append w (b':' ∷ (w ++ p)) blank refl) (
            rw (json_skip_ws-append w p blank (format_value-Stops w 33 m.value tail v.value_valid))
              refl))

    skip_member :
        (again : Bytes → Decoded) (v : Value) (ms : List JsonMember) (rest : Bytes)
        → IsValue 33 v
        → member_value again size false (format_value w v (w ++ more_top w ms rest))
          ≡ next_member again (after (w ++ more_top w ms rest))
    unfolding member_value
    skip_member again v ms rest h = ap (next_member again) (
        json_skip_value-format_value w 33 v (w ++ more_top w ms rest) blank h
          (Stops-more_top ms rest))

    -- The member is not the one: on to the next.
    pass_member :
        (fuel : ℕ) (m : JsonMember) (ms : List JsonMember) (rest : Bytes)
        → IsMember m
        → str_eq m.name key ≡ false
        → members_loop (suc fuel) key size (first_top w m ms rest)
          ≡ next_member (members_loop fuel key size) (after (w ++ more_top w ms rest))
    pass_member fuel m ms rest v e =
        let again = members_loop fuel key size in
        let p = format_value w m.value (w ++ more_top w ms rest) in
        members_loop_step fuel m ms rest v
        ∙ ap (λ b. member_value again size b p) e
        ∙ skip_member again m.value ms rest v.value_valid

    -- The member is the one, or the others decide.
    decide_member :
        (fuel : ℕ) (m : JsonMember) (ms : List JsonMember) (rest : Bytes)
        → IsMember m
        → IsReadable size (lookup key (m ∷ ms))
        → (IsReadable size (lookup key ms)
            → next_member (members_loop fuel key size) (after (w ++ more_top w ms rest))
              ≡ answer (lookup key ms))
        → members_loop (suc fuel) key size (first_top w m ms rest) ≡ answer (lookup key (m ∷ ms))
    decide_member fuel m ms rest v r others = elim (Bool-cases (str_eq m.name key)) [
      | inl e ↦
          let again = members_loop fuel key size in
          let p = format_value w m.value (w ++ more_top w ms rest) in
          rw e (
            members_loop_step fuel m ms rest v
            ∙ ap (λ b. member_value again size b p) e
            ∙ decode_value w again size m.value _ v.value_valid (rw e at r))
      | inr e ↦ rw e (pass_member fuel m ms rest v e ∙ others (rw e at r))
    ]

    next_member-close :
        (again : Bytes → Decoded) (rest : Bytes)
        → next_member again (after (w ++ (b'}' ∷ rest))) ≡ rejected
    next_member-close again rest = rw (json_skip_ws-append w (b'}' ∷ rest) blank refl) refl

    next_member-comma :
        (again : Bytes → Decoded) (p : Bytes)
        → Stops is_json_ws p
        → next_member again (after (w ++ (b',' ∷ (w ++ p)))) ≡ again p
    next_member-comma again p s =
        rw (json_skip_ws-append w (b',' ∷ (w ++ p)) blank refl)
          (ap again (json_skip_ws-append w p blank s))

    members_loop-lookup :
        (fuel : ℕ) (m : JsonMember) (ms : List JsonMember) (rest : Bytes)
        → All IsMember (m ∷ ms)
        → IsReadable size (lookup key (m ∷ ms))
        → length (first_top w m ms rest) < fuel
        → members_loop fuel key size (first_top w m ms rest) ≡ answer (lookup key (m ∷ ms))
    members_loop-lookup zero m ms rest v r k = absurd (omega (arith, k))
    members_loop-lookup (suc fuel) m [] rest v r k =
        decide_member fuel m [] rest v.0 r
          (λ _. next_member-close (members_loop fuel key size) rest)
    members_loop-lookup (suc fuel) m (n ∷ ns) rest v r k =
        let following = first_top w n ns rest in
        decide_member fuel m (n ∷ ns) rest v.0 r (λ q.
          next_member-comma (members_loop fuel key size) following refl
          ∙ members_loop-lookup fuel n ns rest v.1 q
              (omega (arith, k, length-first_top m (n ∷ ns) rest, length-append w following)))

    top_object-lookup :
        (ms : List JsonMember) (rest : Bytes)
        → All IsMember ms
        → IsReadable size (lookup key ms)
        → top_object key size (b'{' ∷ (w ++ format_members w ms rest)) ≡ answer (lookup key ms)
    unfolding top_object
    top_object-lookup [] rest v r = rw (json_skip_ws-append w (b'}' ∷ rest) blank refl) refl
    top_object-lookup (m ∷ ms) rest v r =
        rw (json_skip_ws-append w (first_top w m ms rest) blank refl)
          (members_loop-lookup _ m ms rest v r (omega arith))

-- On the text of an object, with any blanks around its parts, names without escapes and values of
-- any kind up to 32 levels deep, the value of the first member with the key is returned, decoded,
-- when it is a string that `out` holds with its NUL. The answer is -1 when no member has that name
-- or its value is no string.
pub http_req_json_string-format_body :
    (w : Bytes) (ms : List JsonMember) (key : Bytes) (size : ℕ)
    → all is_json_ws w ≡ true
    → All IsMember ms
    → IsReadable size (lookup key ms)
    → 0 < size
    → http_req_json_string (some (format_body w ms)) key size ≡ answer (lookup key ms)
unfolding http_req_json_string
http_req_json_string-format_body w ms key size blank v r room =
    let body = b'{' ∷ (w ++ format_members w ms w) in
    let some_room : size == 0 ≡ false = ground (arith, room) in
    let some_body : length (w ++ body) == 0 ≡ false = ground (arith, length-append w body) in
    rw (some_room, some_body)
      (ap (top_object key size) (json_skip_ws-append w body blank refl)
        ∙ top_object-lookup w blank key size ms w v r)

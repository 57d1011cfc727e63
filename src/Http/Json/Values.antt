-- ===== src/Http/Json/Values.antt =====
-- JSON values as trees, and their texts.
use c_http.Base.{
  ℕ, zero, suc, ◌+◌, ◌<◌, ◌≡◌, refl, Bool, true, false, List, ◌∷◌, ◌++◌, ◌==◌, is_digit, Bytes,
  codes, deref, length, length-append, all, All, Stops, arith,
}
use c_http.Http.Json.{is_json_ws, is_number_char}
use c_http.Http.Json.Pieces.{Piece, text_of, IsPiece}
use c_http.Http.Json.Written.{quoted}

pub data Word : Type 0 where
  word_true word_false word_null : Word

abbrev pub word_text : Word → Bytes
word_text word_true = codes "true"
word_text word_false = codes "false"
word_text word_null = codes "null"

mutual
  pub data Value : Type 0 where
    string : List Piece → Value
    number : (negative : Bool) → (digit : ℕ) → (tail : Bytes) → Value
    word : Word → Value
    array : Values → Value
    object : Members → Value

  pub data Values : Type 0 where
    no_values : Values
    value : Value → Values → Values

  pub data Members : Type 0 where
    no_members : Members
    member : List Piece → Value → Members → Members

abbrev pub minus : Bool → Bytes → Bytes
minus true s = b'-' ∷ s
minus false s = s

-- The text of a value in front of `rest`, with the blanks `w` wherever JSON allows them.
module _ (w : Bytes) where
  abbrev mutual
    pub format_value : Value → Bytes → Bytes
    format_value (string xs) rest = quoted xs rest
    format_value (number negative digit tail) rest = minus negative (digit ∷ (tail ++ rest))
    format_value (word x) rest = word_text x ++ rest
    format_value (array vs) rest = b'[' ∷ (w ++ first_value vs rest)
    format_value (object ms) rest = b'{' ∷ (w ++ first_member ms rest)

    pub first_value : Values → Bytes → Bytes
    first_value no_values rest = b']' ∷ rest
    first_value (value v vs) rest = format_value v (w ++ more_values vs rest)

    pub more_values : Values → Bytes → Bytes
    more_values no_values rest = b']' ∷ rest
    more_values (value v vs) rest = b',' ∷ (w ++ format_value v (w ++ more_values vs rest))

    pub first_member : Members → Bytes → Bytes
    first_member no_members rest = b'}' ∷ rest
    first_member (member k v ms) rest =
        quoted k (w ++ (b':' ∷ (w ++ format_value v (w ++ more_members ms rest))))

    pub more_members : Members → Bytes → Bytes
    more_members no_members rest = b'}' ∷ rest
    more_members (member k v ms) rest =
        b',' ∷ (w ++ quoted k (w ++ (b':' ∷ (w ++ format_value v (w ++ more_members ms rest)))))

-- A value whose depth is below the number, with its strings and numbers well-formed.
abbrev mutual
  pub IsValue : ℕ → Value → Type 0
  IsValue zero v = ⊥
  IsValue (suc d) (string xs) = All IsPiece xs
  IsValue (suc d) (number negative digit tail) =
      (is_digit digit ≡ true) × (all is_number_char tail ≡ true)
  IsValue (suc d) (word x) = Unit {0}
  IsValue (suc d) (array vs) = AreValues d vs
  IsValue (suc d) (object ms) = AreMembers d ms

  pub AreValues : ℕ → Values → Type 0
  AreValues d no_values = Unit {0}
  AreValues d (value v vs) = IsValue d v × AreValues d vs

  -- A key is a value one level down, too.
  pub AreMembers : ℕ → Members → Type 0
  AreMembers d no_members = Unit {0}
  AreMembers d (member k v ms) = (0 < d) × All IsPiece k × IsValue d v × AreMembers d ms

-- A value begins with no blank and no closing bracket.
pub format_value-Stops :
    (w : Bytes) (d : ℕ) (v : Value) (rest : Bytes)
    → IsValue d v
    → Stops is_json_ws (format_value w v rest)
format_value-Stops w zero v rest h = absurd h
format_value-Stops w (suc d) (string xs) rest h = refl
format_value-Stops w (suc d) (number true digit tail) rest h = refl
format_value-Stops w (suc d) (number false digit tail) rest h = ground (arith, h.0)
format_value-Stops w (suc d) (word word_true) rest h = refl
format_value-Stops w (suc d) (word word_false) rest h = refl
format_value-Stops w (suc d) (word word_null) rest h = refl
format_value-Stops w (suc d) (array vs) rest h = refl
format_value-Stops w (suc d) (object ms) rest h = refl

pub format_value-ne-close :
    (w : Bytes) (d : ℕ) (v : Value) (rest : Bytes)
    → IsValue d v
    → deref (format_value w v rest) == b']' ≡ false
format_value-ne-close w zero v rest h = absurd h
format_value-ne-close w (suc d) (string xs) rest h = refl
format_value-ne-close w (suc d) (number true digit tail) rest h = refl
format_value-ne-close w (suc d) (number false digit tail) rest h = ground (arith, h.0)
format_value-ne-close w (suc d) (word word_true) rest h = refl
format_value-ne-close w (suc d) (word word_false) rest h = refl
format_value-ne-close w (suc d) (word word_null) rest h = refl
format_value-ne-close w (suc d) (array vs) rest h = refl
format_value-ne-close w (suc d) (object ms) rest h = refl

length-quoted : (xs : List Piece) (rest : Bytes) → length rest + 1 < length (quoted xs rest)
length-quoted xs rest = omega (arith, length-append (text_of xs) (b'"' ∷ rest))

pub length-key :
    (w : Bytes) (k : List Piece) (inner : Bytes)
    → length inner < length (quoted k (w ++ (b':' ∷ (w ++ inner))))
length-key w k inner = omega (
  arith,
  length-quoted k (w ++ (b':' ∷ (w ++ inner))),
  length-append w (b':' ∷ (w ++ inner)),
  length-append w inner,
)

mutual
  pub length-format_value :
      (w : Bytes) (v : Value) (rest : Bytes) → length rest < length (format_value w v rest)
  length-format_value w (string xs) rest = omega (arith, length-quoted xs rest)
  length-format_value w (number true digit tail) rest = omega (arith, length-append tail rest)
  length-format_value w (number false digit tail) rest = omega (arith, length-append tail rest)
  length-format_value w (word word_true) rest = omega arith
  length-format_value w (word word_false) rest = omega arith
  length-format_value w (word word_null) rest = omega arith
  length-format_value w (array vs) rest =
      omega (arith, length-append w (first_value w vs rest), length-first_value w vs rest)
  length-format_value w (object ms) rest =
      omega (arith, length-append w (first_member w ms rest), length-first_member w ms rest)

  length-first_value :
      (w : Bytes) (vs : Values) (rest : Bytes) → length rest < length (first_value w vs rest)
  length-first_value w no_values rest = omega arith
  length-first_value w (value v vs) rest = omega (
    arith,
    length-format_value w v (w ++ more_values w vs rest),
    length-append w (more_values w vs rest),
    length-more_values w vs rest,
  )

  length-more_values :
      (w : Bytes) (vs : Values) (rest : Bytes) → length rest < length (more_values w vs rest)
  length-more_values w no_values rest = omega arith
  length-more_values w (value v vs) rest = omega (
    arith,
    length-append w (format_value w v (w ++ more_values w vs rest)),
    length-format_value w v (w ++ more_values w vs rest),
    length-append w (more_values w vs rest),
    length-more_values w vs rest,
  )

  length-first_member :
      (w : Bytes) (ms : Members) (rest : Bytes) → length rest < length (first_member w ms rest)
  length-first_member w no_members rest = omega arith
  length-first_member w (member k v ms) rest = omega (
    arith,
    length-key w k (format_value w v (w ++ more_members w ms rest)),
    length-format_value w v (w ++ more_members w ms rest),
    length-append w (more_members w ms rest),
    length-more_members w ms rest,
  )

  length-more_members :
      (w : Bytes) (ms : Members) (rest : Bytes) → length rest < length (more_members w ms rest)
  length-more_members w no_members rest = omega arith
  length-more_members w (member k v ms) rest = omega (
    arith,
    length-append w
        (quoted k (w ++ (b':' ∷ (w ++ format_value w v (w ++ more_members w ms rest))))),
    length-key w k (format_value w v (w ++ more_members w ms rest)),
    length-format_value w v (w ++ more_members w ms rest),
    length-append w (more_members w ms rest),
    length-more_members w ms rest,
  )

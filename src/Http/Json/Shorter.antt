-- ===== src/Http/Json/Shorter.antt =====
-- The value scanner ends, and stops behind the point where it began.
use c_http.Base.{
  ℕ, zero, suc, ◌≤◌, ◌<◌, ◌≡◌, refl, Bool, true, false, ◌||◌, [], ◌∷◌, if◌then◌else◌, ◌==◌,
  is_digit, Bytes, codes, starts_with, deref, advance, drop, drop_while, length, length-drop,
  length-drop_while-le, arith, inl, inr, Bool-cases,
}
use c_http.Http.Json.{
  is_json_ws, json_skip_ws, is_number_char, Skipped, malformed, none_left, after, skip_string,
  skip_minus, skip_number, skip_word, behind_value, behind_key, skip_members, skip_elements,
  skip_items, skip_kind, json_skip_value,
}

abbrev pub Shorter : ℕ → Skipped → Type 0
Shorter n malformed = Unit {0}
Shorter n none_left = ⊥
Shorter n (after q) = length q < n

pub Shorter-mono : (m n : ℕ) (s : Skipped) → m ≤ n → Shorter m s → Shorter n s
Shorter-mono m n malformed h k = tt
Shorter-mono m n none_left h k = k
Shorter-mono m n (after q) h k = omega (arith, h, k)

Shorter-if :
    (n : ℕ) (b : Bool) (s t : Skipped)
    → (b ≡ true → Shorter n s)
    → (b ≡ false → Shorter n t)
    → Shorter n (if b then s else t)
Shorter-if n true s t h k = h refl
Shorter-if n false s t h k = k refl

pub length-advance-le : (p : Bytes) → length (advance p) ≤ length p
length-advance-le [] = omega arith
length-advance-le (c ∷ p) = omega arith

skip_string-Shorter : (p : Bytes) → Shorter (length p) (skip_string p)
unfolding skip_string
skip_string-Shorter [] = tt
skip_string-Shorter (c ∷ []) =
    Shorter-if 1 (c == b'"') (after []) malformed (λ _. omega arith) (λ _. tt)
skip_string-Shorter (c ∷ e ∷ p) =
    let n = length (c ∷ e ∷ p) in
    let behind = Shorter-mono (length p) n (skip_string p) (omega arith) (skip_string-Shorter p) in
    let next =
      Shorter-mono (suc (length p)) n (skip_string (e ∷ p)) (omega arith)
        (skip_string-Shorter (e ∷ p)) in
    let body = if c == b'\\' then skip_string p else skip_string (e ∷ p) in
    Shorter-if n (c == b'"') (after (e ∷ p)) (if c == b'\n' || c == b'\r' then malformed else body)
      (λ _. omega arith)
      (λ _.
        Shorter-if n (c == b'\n' || c == b'\r') malformed body (λ _. tt)
          (λ _.
            Shorter-if n (c == b'\\') (skip_string p) (skip_string (e ∷ p)) (λ _. behind)
              (λ _. next)))

number_tail :
    (p : Bytes) → is_digit (deref p) ≡ true → length (drop_while is_number_char p) < length p
number_tail [] h = ground arith
number_tail (c ∷ p) h = ground (arith, h, length-drop_while-le is_number_char p)

length-skip_minus : (p : Bytes) → length (skip_minus p) ≤ length p
length-skip_minus p = elim (Bool-cases (deref p == b'-')) [
  | inl e ↦ rw e (length-advance-le p)
  | inr e ↦ rw e (omega arith)
]

skip_number-Shorter : (p : Bytes) → Shorter (length p) (skip_number p)
unfolding skip_number
skip_number-Shorter p =
    Shorter-if _ (is_digit (deref (skip_minus p))) _ _
      (λ h. omega (arith, number_tail (skip_minus p) h, length-skip_minus p)) (λ _. tt)

word_tail :
    (p word : Bytes) (n : ℕ)
    → 0 < n
    → 0 < length word
    → starts_with p word ≡ true
    → length (drop n p) < length p
word_tail p [] n h k e = absurd (omega (arith, k))
word_tail [] (w ∷ word) n h k e = cc
word_tail (c ∷ p) (w ∷ word) n h k e = omega (arith, h, length-drop n (c ∷ p))

skip_word-Shorter : (p : Bytes) → Shorter (length p) (skip_word p)
unfolding skip_word
skip_word-Shorter p =
    Shorter-if _ _ _ _ (word_tail p (codes "true") 4 (omega arith) (omega arith)) (λ _.
      Shorter-if _ _ _ _ (word_tail p (codes "false") 5 (omega arith) (omega arith)) (λ _.
        Shorter-if _ _ _ _ (word_tail p (codes "null") 4 (omega arith) (omega arith))
          (λ _. skip_number-Shorter p)))

pub length-json_skip_ws : (p : Bytes) → length (json_skip_ws (advance p)) ≤ length p
length-json_skip_ws p =
    omega (arith, length-drop_while-le is_json_ws (advance p), length-advance-le p)

module _ (n : ℕ) (again : Bytes → Skipped)
    (shorter : (r : Bytes) → length r < n → Shorter n (again r)) where
  behind_value-Shorter :
      (close : ℕ) (s : Skipped) → Shorter n s → Shorter n (behind_value again close s)
  behind_value-Shorter close malformed h = tt
  behind_value-Shorter close none_left h = h
  behind_value-Shorter close (after p) h =
      let q = json_skip_ws p in
      let le = length-drop_while-le is_json_ws p in
      Shorter-if n (deref q == b',') _ _
        (λ _. shorter (json_skip_ws (advance q)) (omega (arith, h, le, length-json_skip_ws q)))
        (λ _.
          Shorter-if n (deref q == close) _ _ (λ _. omega (arith, h, le, length-advance-le q))
            (λ _. tt))

  behind_key-Shorter :
      (skip : Bytes → Skipped) (s : Skipped)
      → ((r : Bytes) → Shorter (length r) (skip r))
      → Shorter n s
      → Shorter n (behind_key skip again s)
  behind_key-Shorter skip malformed known h = tt
  behind_key-Shorter skip none_left known h = h
  behind_key-Shorter skip (after p) known h =
      let q = json_skip_ws p in
      let r = json_skip_ws (advance q) in
      let le : length r ≤ n =
        omega (arith, h, length-drop_while-le is_json_ws p, length-json_skip_ws q) in
      Shorter-if n (deref q == b':') _ _
        (λ _. behind_value-Shorter b'}' (skip r) (Shorter-mono (length r) n (skip r) le (known r)))
        (λ _. tt)

-- One level, from the level below it.
module _ (skip : Bytes → Skipped) (known : (r : Bytes) → Shorter (length r) (skip r)) where
  skip_elements-Shorter :
      (fuel : ℕ) (p : Bytes) → length p < fuel → Shorter (length p) (skip_elements skip fuel p)
  unfolding skip_elements
  skip_elements-Shorter zero p h = absurd (omega (arith, h))
  skip_elements-Shorter (suc fuel) p h =
      behind_value-Shorter (length p) (skip_elements skip fuel)
        (λ r k.
          Shorter-mono (length r) _ _ (omega (arith, k))
            (skip_elements-Shorter fuel r (omega (arith, h, k))))
        b']' (skip p) (known p)

  skip_members-Shorter :
      (fuel : ℕ) (p : Bytes) → length p < fuel → Shorter (length p) (skip_members skip fuel p)
  unfolding skip_members
  skip_members-Shorter zero p h = absurd (omega (arith, h))
  skip_members-Shorter (suc fuel) p h =
      Shorter-if _ (deref p == b'"') _ _
        (λ _.
          behind_key-Shorter (length p) (skip_members skip fuel)
            (λ r k.
              Shorter-mono (length r) _ _ (omega (arith, k))
                (skip_members-Shorter fuel r (omega (arith, h, k))))
            skip (skip p) known (known p))
        (λ _. tt)

  skip_items-Shorter :
      (n : ℕ) (loop : ℕ → Bytes → Skipped) (close : ℕ) (p : Bytes)
      → ((fuel : ℕ) (r : Bytes) → length r < fuel → Shorter (length r) (loop fuel r))
      → length p < n
      → Shorter n (skip_items loop close p)
  skip_items-Shorter n loop close p shorter h =
      Shorter-if n (deref p == close) _ _ (λ _. omega (arith, h, length-advance-le p))
        (λ _.
          Shorter-mono (length p) n _ (omega (arith, h)) (shorter (suc (length p)) p (omega arith)))

  skip_kind-Shorter : (p : Bytes) → Shorter (length p) (skip_kind skip p)
  unfolding skip_kind
  skip_kind-Shorter [] = skip_word-Shorter []
  skip_kind-Shorter (c ∷ p) =
      let n = suc (length p) in
      let le : length (json_skip_ws p) < n = omega (arith, length-drop_while-le is_json_ws p) in
      let list = skip_items (skip_elements skip) b']' (json_skip_ws p) in
      let object = skip_items (skip_members skip) b'}' (json_skip_ws p) in
      let last = if c == b'[' then list else skip_word (c ∷ p) in
      Shorter-if n (c == b'"') (skip_string p) (if c == b'{' then object else last)
        (λ _. Shorter-mono (length p) n _ (omega arith) (skip_string-Shorter p))
        (λ _.
          Shorter-if n (c == b'{') object last
            (λ _.
              skip_items-Shorter n (skip_members skip) b'}' (json_skip_ws p) skip_members-Shorter
                le)
            (λ _.
              Shorter-if n (c == b'[') list (skip_word (c ∷ p))
                (λ _.
                  skip_items-Shorter n (skip_elements skip) b']' (json_skip_ws p)
                    skip_elements-Shorter le)
                (λ _. skip_word-Shorter (c ∷ p))))

pub json_skip_value-Shorter : (depth : ℕ) (p : Bytes) → Shorter (length p) (json_skip_value depth p)
unfolding json_skip_value
json_skip_value-Shorter zero p = tt
json_skip_value-Shorter (suc depth) p =
    skip_kind-Shorter (json_skip_value depth) (json_skip_value-Shorter depth) p

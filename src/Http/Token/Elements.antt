-- ===== src/Http/Token/Elements.antt =====
-- The loop finds what a split at the commas finds.
use c_http.Base.{
  ℕ, zero, suc, ◌≤◌, ◌≡◌, ◌≢◌, ◌⊎◌, refl, sym, ◌∙◌, ap, Bool, true, false, ◌||◌, List, [], ◌∷◌, inl,
  inr, if◌then◌else◌, ◌==◌, Bytes, length, arith, Bool-cases, is_ows, str_case_eq, take_while,
  drop_while, trim_end, length-drop_while-le,
}
use c_http.Http.Token.{
  is_separator, not_comma, element_at, behind_element, token_loop, header_contains_token,
}

-- A value split at its commas: the first element and the others.
abbrev pub elements : Bytes → Bytes × List Bytes
elements [] = ([], [])
elements (c ∷ s) =
    let (first, others) = elements s in
    if c == b',' then ([], first ∷ others) else (c ∷ first, others)

-- An element with the blanks around it taken off.
abbrev pub trim : Bytes → Bytes
trim s = trim_end is_ows (drop_while is_ows s)

abbrev pub names : Bytes → Bytes → Bool
names token element = str_case_eq (trim element) token

abbrev pub any_names : Bytes → List Bytes → Bool
any_names token [] = false
any_names token (x ∷ xs) = names token x || any_names token xs

-- Some element of the list, trimmed, is the token but for case.
abbrev pub lists : Bytes → Bytes → Bool
lists value token =
    let (first, others) = elements value in names token first || any_names token others

elements_take : (s : Bytes) → (elements s).0 ≡ take_while not_comma s
elements_take [] = refl
elements_take (c ∷ s) = elim (Bool-cases (c == b',')) [
  | inl comma ↦ rw comma
  | inr plain ↦ rw plain (ap (◌∷◌ c) (elements_take s))
]

-- The elements behind the first stand behind its comma.
abbrev others_of : Bytes → List Bytes
others_of [] = []
others_of (c ∷ s) = let (first, others) = elements s in first ∷ others

elements_drop : (s : Bytes) → (elements s).1 ≡ others_of (drop_while not_comma s)
elements_drop [] = refl
elements_drop (c ∷ s) = elim (Bool-cases (c == b',')) [
  | inl comma ↦ rw comma
  | inr plain ↦ rw plain (elements_drop s)
]

at_comma :
    (s : Bytes)
    → (drop_while not_comma s ≡ []) ⊎ ((q : Bytes) × (drop_while not_comma s ≡ b',' ∷ q))
at_comma [] = inl refl
at_comma (c ∷ s) = elim (Bool-cases (c == b',')) [
  | inl comma ↦ inr (s, rw comma (ground arith))
  | inr plain ↦ rw plain (at_comma s)
]

-- Behind the separators an element has no leading blank.
names_start :
    (p token : Bytes)
    → names token (take_while not_comma (drop_while is_separator p))
      ≡ str_case_eq (element_at p) token
names_start [] token = refl
names_start (c ∷ p) token = elim (Bool-cases (is_separator c)) [
  | inl skipped ↦ rw skipped (names_start p token)
  | inr stays ↦
      let blank : is_ows c ≡ false = ground arith in
      let plain : not_comma c ≡ true = ground arith in rw (stays, plain) (rw blank)
]

behind_shorter : (c : ℕ) (s : Bytes) → length (behind_element (c ∷ s)) ≤ length s
behind_shorter c s = elim (Bool-cases (is_separator c)) [
  | inl skipped ↦ rw skipped (
      omega (
        arith,
        length-drop_while-le not_comma (drop_while is_separator s),
        length-drop_while-le is_separator s,
      ))
  | inr stays ↦
      let plain : not_comma c ≡ true = ground arith in
      rw (stays, plain) (length-drop_while-le not_comma s)
]

same_length : (a b : Bytes) → str_case_eq a b ≡ true → length a ≡ length b
same_length [] [] h = refl
same_length [] (b ∷ bs) h = cc
same_length (a ∷ as') [] h = cc
same_length (a ∷ as') (b ∷ bs) h = ground (arith, same_length as' bs)

module _ (token : Bytes) (ne : token ≢ []) where
  empty_no_token : str_case_eq [] token ≡ false
  empty_no_token = cases token ne
    where
      cases : (t : Bytes) → t ≢ [] → str_case_eq [] t ≡ false
      cases [] h = absurd (h refl)
      cases (c ∷ t) h = refl

  lists_comma : (s : Bytes) → lists (b',' ∷ s) token ≡ lists s token
  lists_comma s = rw empty_no_token

  lists_blank : (c : ℕ) (s : Bytes) → is_ows c ≡ true → lists (c ∷ s) token ≡ lists s token
  lists_blank c s blank = let plain : c == b',' ≡ false = ground arith in rw (plain, blank)

  lists_skip : (s : Bytes) → lists (drop_while is_separator s) token ≡ lists s token
  lists_skip [] = refl
  lists_skip (c ∷ s) = elim (Bool-cases (is_ows c)) [
    | inl blank ↦ rw blank (lists_skip s ∙ sym (lists_blank c s blank))
    | inr other ↦ elim (Bool-cases (c == b',')) [
      | inl comma ↦ let e : c ≡ b',' = ground arith in rw e (lists_skip s ∙ sym (lists_comma s))
      | inr plain ↦ let stays : is_separator c ≡ false = ground arith in rw stays
    ]
  ]

  others_lists :
      (r : Bytes)
      → (r ≡ []) ⊎ ((q : Bytes) × (r ≡ b',' ∷ q))
      → any_names token (others_of r) ≡ lists r token
  others_lists r (inl e) = rw e (rw empty_no_token)
  others_lists r (inr (q, e)) = rw e (sym (lists_comma q))

  -- The first element and what stands behind it.
  lists_first :
      (s : Bytes)
      → lists s token ≡ names token (take_while not_comma s) || lists (drop_while not_comma s) token
  lists_first s =
      rw (elements_take s, elements_drop s)
        (ap (λ (b : Bool). names token (take_while not_comma s) || b)
          (others_lists (drop_while not_comma s) (at_comma s)))

  -- A round of the loop, which skips all separators first.
  lists_round :
      (p : Bytes)
      → lists p token ≡ str_case_eq (element_at p) token || lists (behind_element p) token
  lists_round p =
      sym (lists_skip p)
      ∙ lists_first (drop_while is_separator p)
      ∙ ap (λ (b : Bool). b || lists (behind_element p) token) (names_start p token)

  token_loop-lists :
      (fuel : ℕ) (p : Bytes) → length p ≤ fuel → token_loop fuel p token ≡ lists p token
  unfolding token_loop
  token_loop-lists zero [] h = rw empty_no_token
  token_loop-lists zero (c ∷ s) h = absurd (omega arith)
  token_loop-lists (suc fuel) [] h = rw empty_no_token
  token_loop-lists (suc fuel) (c ∷ s) h = ground (
    arith,
    lists_round (c ∷ s),
    same_length (element_at (c ∷ s)) token,
    token_loop-lists fuel (behind_element (c ∷ s)) (omega (arith, behind_shorter c s)),
  )

  -- The loop with its pointers finds a token exactly when some element of the value, split at the
  -- commas and with the blanks around it taken off, is the token but for the case of letters.
  pub header_contains_token-lists :
      (value : Bytes) → header_contains_token value token ≡ lists value token
  unfolding header_contains_token
  header_contains_token-lists value = token_loop-lists (length value) value (omega arith)

-- ===== src/Tpl/Url/Safe.antt =====
-- What a sanitized URL can be.
use c_http.Base.{
  ℕ, suc, ◌+◌, ◌≤◌, ◌≡◌, ◌≢◌, refl, sym, ap, ◌∙◌, Bool, true, false, ◌&&◌, [], ◌∷◌, ◌++◌, some, ◌⊎◌,
  inl, inr, Bool-cases, if◌then◌else◌, ◌==◌, map, to_lower, Bytes, codes, length, take,
  take-append_self, length-append, reverse, reverse-reverse, length-reverse, drop_while,
  length-drop_while-le, drop_while_whole, append_assoc, all, All, arith,
}
use c_http.Tpl.Buffer.{TplOut, arena_alloc}
use c_http.Tpl.Url.{
  is_letter, is_scheme_char, scheme_end, has_scheme, equals_lowered, scheme_equals, is_allowed,
  no_controls, url_is_safe, invalid_url, trimmed, url_from, tpl_url, is_url_space,
}

-- A URL with this scheme, a name by RFC 3986.
pub record HasScheme (url : Bytes) (first : ℕ) (more : Bytes) : Type 0 where
  pub rest : Bytes
  pub of_url : url ≡ first ∷ (more ++ (b':' ∷ rest))
  pub letter : is_letter first ≡ true
  pub scheme_chars : all is_scheme_char more ≡ true

scheme_end-append :
    (i : ℕ) (more rest : Bytes)
    → all is_scheme_char more ≡ true
    → scheme_end i (more ++ (b':' ∷ rest)) ≡ some (i + length more + 1)
unfolding scheme_end
scheme_end-append i [] rest h = ap (λ (n : ℕ). some (n + 1)) (omega arith)
scheme_end-append i (c ∷ more) rest h =
    let tail_ok : all is_scheme_char more ≡ true = ground arith in
    let no_colon : c == b':' ≡ false = ground arith in
    let good : is_scheme_char c ≡ true = ground arith in
    let ends : i + 1 + length more + 1 ≡ i + suc (length more) + 1 = omega arith in
    rw (no_colon, good) (scheme_end-append (i + 1) more rest tail_ok ∙ ap (λ (n : ℕ). some n) ends)

equals_lowered_lem : (s want : Bytes) → equals_lowered s want ≡ true → map to_lower s ≡ want
equals_lowered_lem [] [] h = refl
equals_lowered_lem [] (w ∷ want) h = cc
equals_lowered_lem (c ∷ s) [] h = cc
equals_lowered_lem (c ∷ s) (w ∷ want) h = ground (arith, equals_lowered_lem s want)

abbrev IsPrintable : ℕ → Type 0
IsPrintable c = (0x20 ≤ c) × (c ≢ 0x7f)

no_controls-IsPrintable : (s : Bytes) → no_controls s ≡ true → All IsPrintable s
unfolding no_controls
no_controls-IsPrintable [] h = tt
no_controls-IsPrintable (c ∷ s) h = ground (arith, no_controls-IsPrintable s)

has_scheme-HasScheme :
    (url : Bytes) (first : ℕ) (more : Bytes)
    → HasScheme url first more
    → has_scheme url ≡ some (length more + 2)
unfolding has_scheme
has_scheme-HasScheme url first more h =
    let whole_ok : all is_scheme_char (first ∷ more) ≡ true =
      ground (arith, h.letter, h.scheme_chars) in
    rw (h.of_url, h.letter)
      (scheme_end-append 0 (first ∷ more) h.rest whole_ok ∙ ap (λ (n : ℕ). some n) (omega arith))

-- The schemes that links and forms may have.
pub data IsLinkScheme : Bytes → Type 0 where
  http : IsLinkScheme (codes "http")
  https : IsLinkScheme (codes "https")
  mailto : IsLinkScheme (codes "mailto")

-- No control character, and no scheme but these, in letters of either case.
pub record IsSafeUrl (url : Bytes) : Type 0 where
  pub printable : All IsPrintable url
  pub schemes :
      (first : ℕ) (more : Bytes)
      → HasScheme url first more
      → IsLinkScheme (map to_lower (first ∷ more))

take-scheme :
    (first : ℕ) (more rest : Bytes)
    → take (length more + 2) (first ∷ (more ++ (b':' ∷ rest))) ≡ first ∷ (more ++ (b':' ∷ []))
take-scheme first more rest =
    let scheme : Bytes = first ∷ (more ++ (b':' ∷ [])) in
    let size : length more + 2 ≡ length scheme = omega (arith, length-append more (b':' ∷ [])) in
    let split : first ∷ (more ++ (b':' ∷ rest)) ≡ scheme ++ rest =
      ap (λ (t : Bytes). first ∷ t) (sym (append_assoc more (b':' ∷ []) rest)) in
    ap (λ (n : ℕ). take n (first ∷ (more ++ (b':' ∷ rest)))) size
    ∙ ap (λ (t : Bytes). take (length scheme) t) split
    ∙ take-append_self scheme rest

-- Both texts end with the colon.
equals_lowered-colon :
    (s want : Bytes)
    → equals_lowered (s ++ (b':' ∷ [])) (want ++ (b':' ∷ [])) ≡ true
    → map to_lower s ≡ want
equals_lowered-colon [] [] h = refl
equals_lowered-colon [] (w ∷ []) h = ground arith
equals_lowered-colon [] (w ∷ v ∷ want) h = ground arith
equals_lowered-colon (c ∷ []) [] h = ground arith
equals_lowered-colon (c ∷ d ∷ s) [] h = ground arith
equals_lowered-colon (c ∷ s) (w ∷ want) h = ground (arith, equals_lowered-colon s want)

scheme_equals_lem :
    (url want : Bytes) (first : ℕ) (more : Bytes)
    → HasScheme url first more
    → scheme_equals url (length more + 2) (want ++ (b':' ∷ [])) ≡ true
    → map to_lower (first ∷ more) ≡ want
unfolding scheme_equals
scheme_equals_lem url want first more h e =
    let scheme = take-scheme first more h.rest in
    let taken : take (length more + 2) url ≡ first ∷ (more ++ (b':' ∷ [])) = rw h.of_url scheme in
    let equal : equals_lowered (take (length more + 2) url) (want ++ (b':' ∷ [])) ≡ true =
      ground arith in
    equals_lowered-colon (first ∷ more) want (rw taken at equal)

scheme_link :
    (url : Bytes) (first : ℕ) (more : Bytes)
    → HasScheme url first more
    → is_allowed url (some (length more + 2)) ≡ true
    → IsLinkScheme (map to_lower (first ∷ more))
scheme_link url first more h e =
    let named = λ (want : Bytes). scheme_equals url (length more + 2) (want ++ (b':' ∷ [])) in
    elim (Bool-cases (named (codes "http"))) [
      | inl a ↦ rw (scheme_equals_lem url (codes "http") first more h a) http
      | inr na ↦ elim (Bool-cases (named (codes "https"))) [
        | inl b ↦ rw (scheme_equals_lem url (codes "https") first more h b) https
        | inr nb ↦
            rw (scheme_equals_lem url (codes "mailto") first more h (rw (na, nb) at e)) mailto
      ]
    ]

url_is_safe-IsSafeUrl : (url : Bytes) → url_is_safe url ≡ true → IsSafeUrl url
unfolding url_is_safe
url_is_safe-IsSafeUrl url e = record {
  printable = no_controls-IsPrintable url (ground arith);
  schemes = λ first more h.
      scheme_link url first more h (rw (has_scheme-HasScheme url first more h) at (allowed e));
}
  where
    allowed :
        is_allowed url (has_scheme url) && no_controls url ≡ true
        → is_allowed url (has_scheme url) ≡ true
    allowed h = ground arith

-- What a sanitized URL can be, for the text that was given.
abbrev pub Sanitized : Bytes → Bytes → Type 0
Sanitized url result = (result ≡ invalid_url) ⊎ ((result ≡ trimmed url) × IsSafeUrl result)

choose-Sanitized :
    (url s : Bytes) → s ≡ trimmed url → Sanitized url (if url_is_safe s then s else invalid_url)
choose-Sanitized url s e = elim (Bool-cases (url_is_safe s)) [
  | inl safe ↦ rw safe (inr (e, url_is_safe-IsSafeUrl s safe))
  | inr unsafe ↦ rw unsafe (inl refl)
]

url_from-Sanitized :
    (r : TplOut × Bool) (url s : Bytes) → s ≡ trimmed url → Sanitized url (url_from r s).1
url_from-Sanitized (out, false) url s e = inl refl
url_from-Sanitized (out, true) url s e = choose-Sanitized url s e

trimmed_whole : (url : Bytes) → length (trimmed url) ≡ length url → url ≡ trimmed url
trimmed_whole url h =
    let front = drop_while is_url_space url in
    let back = drop_while is_url_space (reverse front) in
    let front_le = length-drop_while-le is_url_space url in
    let back_le = length-drop_while-le is_url_space (reverse front) in
    let size : length (reverse back) ≡ length url = h in
    let back_same =
      drop_while_whole is_url_space (reverse front)
        (omega (arith, size, length-reverse back, length-reverse front)) in
    let front_same =
      drop_while_whole is_url_space url
        (omega (arith, size, length-reverse back, length-reverse front)) in
    sym (ap reverse back_same ∙ reverse-reverse front ∙ front_same)

-- Whatever the template is given, the URL that `tpl_url` returns is the marker for an invalid one,
-- or the given text without the spaces around it, free of control characters and with no scheme
-- but http, https and mailto in any spelling.
pub tpl_url-Sanitized :
    (mem : ℕ → Bool) (out : TplOut) (url : Bytes) → Sanitized url (tpl_url mem out (some url)).1
unfolding tpl_url
tpl_url-Sanitized mem out url = elim (Bool-cases (length (trimmed url) == length url)) [
  | inl whole ↦ rw whole (choose-Sanitized url url (trimmed_whole url (ground arith)))
  | inr shorter ↦
      rw shorter
        (url_from-Sanitized (arena_alloc mem out (length (trimmed url) + 1)) url (trimmed url) refl)
]

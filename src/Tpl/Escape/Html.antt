-- ===== src/Tpl/Escape/Html.antt =====
-- Escaped text as HTML: what a browser reads back.
use c_http.Base.{
  ℕ, zero, suc, ◌<◌, ◌≡◌, ◌≢◌, refl, ap, ◌∙◌, Bool, true, false, [], ◌∷◌, ◌++◌, some, if◌then◌else◌,
  ◌==◌, Bytes, codes, length, length-drop_while-le, starts_with, take_while, drop_while, All,
  All-append, arith, inl, inr, ◌⊎◌, Bool-cases,
}
use c_http.Tpl.Buffer.{TplOut, tpl_lit_n}
use c_http.Tpl.Buffer.Writes.{IsValid, Wrote, tpl_lit_n-WroteOnce, Wrote-append}
use c_http.Tpl.Escape.{tpl_entities, is_plain, write_escaped_from, write_escaped, tpl_esc, tpl_attr}

-- The escaped text, character by character.
abbrev pub html : Bytes → Bytes
html [] = []
html (c ∷ s) = if is_plain c then c ∷ html s else tpl_entities c ++ html s

-- A reader of HTML text, behind the rest of a character reference: the five references stand for
-- their characters.
abbrev pub read_html : ℕ → Bytes → Bytes
read_html k [] = []
read_html (suc k) (c ∷ s) = read_html k s
read_html zero (c ∷ s) =
    if starts_with (c ∷ s) (codes "&amp;")
    then b'&' ∷ read_html 4 s
    else if starts_with (c ∷ s) (codes "&lt;")
    then b'<' ∷ read_html 3 s
    else if starts_with (c ∷ s) (codes "&gt;")
    then b'>' ∷ read_html 3 s
    else if starts_with (c ∷ s) (codes "&#34;")
    then b'"' ∷ read_html 4 s
    else if starts_with (c ∷ s) (codes "&#39;")
    then b'\'' ∷ read_html 4 s
    else c ∷ read_html 0 s

-- No character that starts a tag or ends a quoted attribute.
abbrev pub IsInert : ℕ → Type 0
IsInert c = (c ≢ b'<') × (c ≢ b'>') × (c ≢ b'"') × (c ≢ b'\'')

read_html-plain : (c : ℕ) (s : Bytes) → is_plain c ≡ true → read_html 0 (c ∷ s) ≡ c ∷ read_html 0 s
read_html-plain c s h = let other : c == b'&' ≡ false = ground arith in rw other

read_html-tpl_entities :
    (c : ℕ) (s : Bytes) → is_plain c ≡ false → read_html 0 (tpl_entities c ++ s) ≡ c ∷ read_html 0 s
unfolding tpl_entities
read_html-tpl_entities c s h = ground arith

pub read_html-html : (s : Bytes) → read_html 0 (html s) ≡ s
read_html-html [] = refl
read_html-html (c ∷ s) = elim (Bool-cases (is_plain c)) [
  | inl plain ↦ rw plain (read_html-plain c (html s) plain ∙ ap (◌∷◌ c) (read_html-html s))
  | inr special ↦
      rw special (read_html-tpl_entities c (html s) special ∙ ap (◌∷◌ c) (read_html-html s))
]

tpl_entities-IsInert : (c : ℕ) → All IsInert (tpl_entities c)
unfolding tpl_entities
tpl_entities-IsInert c = ground arith

pub html-IsInert : (s : Bytes) → All IsInert (html s)
html-IsInert [] = tt
html-IsInert (c ∷ s) = elim (Bool-cases (is_plain c)) [
  | inl plain ↦ rw plain (ground arith, html-IsInert s)
  | inr special ↦
      rw special
        (All-append IsInert (tpl_entities c) (html s) (tpl_entities-IsInert c) (html-IsInert s))
]

hit_cases : (s : Bytes) → (s ≡ []) ⊎ ((hit : ℕ) × (behind : Bytes) × (s ≡ hit ∷ behind))
hit_cases [] = inl refl
hit_cases (c ∷ s) = inr (c, s, refl)

-- A round of the loop: the plain characters, the escape of the character behind them, the rest.
html-hit :
    (p : Bytes) (hit : ℕ) (behind : Bytes)
    → drop_while is_plain p ≡ hit ∷ behind
    → html p ≡ take_while is_plain p ++ (tpl_entities hit ++ html behind)
html-hit [] hit behind e = cc
html-hit (c ∷ p) hit behind e = elim (Bool-cases (is_plain c)) [
  | inl plain ↦ rw plain (ap (◌∷◌ c) (html-hit p hit behind (rw plain at e)))
  | inr special ↦ let e' = rw special at e in rw special cc
]

html-no_hit : (p : Bytes) → drop_while is_plain p ≡ [] → html p ≡ p
html-no_hit [] e = refl
html-no_hit (c ∷ p) e = elim (Bool-cases (is_plain c)) [
  | inl plain ↦ rw plain (ap (◌∷◌ c) (html-no_hit p (rw plain at e)))
  | inr special ↦ let e' = rw special at e in cc
]

write_escaped_from-Wrote :
    (fuel : ℕ) (mem : ℕ → Bool) (out : TplOut) (p : Bytes)
    → length p < fuel
    → IsValid out
    → Wrote out (html p) (write_escaped_from fuel mem out p)
unfolding write_escaped_from
write_escaped_from-Wrote zero mem out p h v = absurd (omega arith)
write_escaped_from-Wrote (suc fuel) mem out p h v =
    let first = (tpl_lit_n-WroteOnce mem out (take_while is_plain p) v).wrote in
    elim (hit_cases (drop_while is_plain p)) [
      | inl last ↦ simp (last, html-no_hit p last) (tpl_lit_n-WroteOnce mem out p v).wrote
      | inr (hit, behind, e) ↦
          let lit = tpl_lit_n mem out (take_while is_plain p) in
          let second = (tpl_lit_n-WroteOnce mem lit (tpl_entities hit) first.valid).wrote in
          let shorter : length behind < fuel =
            omega (arith, length-drop_while-le is_plain p, ap length e) in
          let rest = write_escaped_from-Wrote fuel mem _ behind shorter second.valid in
          simp (e, html-hit p hit behind e)
            (Wrote-append out _ _ _ _ first (Wrote-append _ _ _ _ _ second rest))
    ]

write_escaped-Wrote :
    (mem : ℕ → Bool) (out : TplOut) (s : Bytes)
    → IsValid out
    → Wrote out (html s) (write_escaped mem out s)
unfolding write_escaped
write_escaped-Wrote mem out s v =
    write_escaped_from-Wrote (suc (length s)) mem out s (omega arith) v

-- What `tpl_esc` and `tpl_attr` append, when no write fails and the fragment state lets them
-- through, has no angle bracket and no quote, and read as HTML it is the given text, whatever that
-- is. The buffer stays within its capacity and the fragment state as it is.
pub write_escaped-html :
    (mem : ℕ → Bool) (out : TplOut) (s : Bytes)
    → IsValid out
    → (text : Bytes) × Wrote out text (tpl_esc mem out (some s))
      × Wrote out text (tpl_attr mem out (some s))
      × All IsInert text
      × (read_html 0 text ≡ s)
unfolding tpl_esc tpl_attr
write_escaped-html mem out s v =
    let w = write_escaped-Wrote mem out s v in (html s, w, w, html-IsInert s, read_html-html s)

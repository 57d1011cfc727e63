-- ===== src/Encoder/Negotiation.antt =====
-- The loop of `http_accepts_encoding` on a value written as a list of codings with weights.
use c_http.Base.{
  ℕ, zero, suc, ◌≤◌, ◌<◌, ◌≡◌, ◌≢◌, refl, sym, ◌∙◌, ap, Bool, true, false, List, [], ◌∷◌, ◌++◌,
  append-nil, append_assoc, Option, none, some, ◌==◌, Bytes, codes, length, length-append,
  length-pos, is_ows, deref, all, All, drop_while, take_while-append, drop_while-append,
  length-drop_while-le, Stops, trim_end, arith, inl, inr, Bool-cases,
}
use c_http.Http.Token.{is_separator}
use c_http.Encoder.{in_name, weight, parse_q, Accepts, element, next_element, weighed, accept_loop}

-- What a client asks for: a coding, or `*`, and the text of its weight.
pub record Coding : Type 0 where
  pub name : Bytes
  pub q : Option Bytes

abbrev plain_weight : Option Bytes → Bool
plain_weight none = true
plain_weight (some w) = all in_name w

-- No commas, no semicolons and no blanks at the ends of the name; no commas and no semicolons in
-- the weight.
pub record IsCoding (c : Coding) : Type 0 where
  pub name_plain : all in_name c.name ≡ true
  pub filled : c.name ≢ []
  pub no_lead : is_separator (deref c.name) ≡ false
  pub no_trail : trim_end is_ows c.name ≡ c.name
  pub q_plain : plain_weight c.q ≡ true

abbrev write_q : Option Bytes → Bytes
write_q none = []
write_q (some w) = codes ";q=" ++ w

abbrev write_coding : Coding → Bytes
write_coding c = c.name ++ write_q c.q

abbrev write_rest : List Coding → Bytes
write_rest [] = []
write_rest (c ∷ cs) = b',' ∷ b' ' ∷ (write_coding c ++ write_rest cs)

-- The value of the header: `gzip;q=0.5, *`.
abbrev pub write_codings : List Coding → Bytes
write_codings [] = []
write_codings (c ∷ cs) = write_coding c ++ write_rest cs

-- strtod() reads no further than a comma.
abbrev pub EndsAtComma : (Bytes → Option Bool) → Type 0
EndsAtComma positive = (w more : Bytes) → positive (w ++ (b',' ∷ more)) ≡ positive w

-- A coding without a weight, or with one that is no number, is wanted.
abbrev pub wanted : (Bytes → Option Bool) → Option Bytes → Bool
wanted positive none = true
wanted positive (some w) = elim (positive w) as (λ _. Bool) [ none ↦ true | some above ↦ above ]

write_rest-Stops : (cs : List Coding) → Stops in_name (write_rest cs)
write_rest-Stops [] = tt
write_rest-Stops (c ∷ cs) = refl

rest_plain : (cs : List Coding) → deref (write_rest cs) == b';' ≡ false
rest_plain [] = refl
rest_plain (c ∷ cs) = refl

write_q-Stops : (q : Option Bytes) (cs : List Coding) → Stops in_name (write_q q ++ write_rest cs)
write_q-Stops none cs = write_rest-Stops cs
write_q-Stops (some w) cs = refl

positive_rest :
    (positive : Bytes → Option Bool) (w : Bytes) (cs : List Coding)
    → EndsAtComma positive
    → positive (w ++ write_rest cs) ≡ positive w
positive_rest positive w [] ends = ap positive (append-nil w)
positive_rest positive w (c ∷ cs) ends = ends w _

parse_q_end :
    (fuel : ℕ) (positive : Bytes → Option Bool) (q : Bool) (cs : List Coding)
    → parse_q fuel positive q (write_rest cs) ≡ (q, write_rest cs)
unfolding parse_q
parse_q_end zero positive q cs = refl
parse_q_end (suc fuel) positive q cs = rw (rest_plain cs)

parse_q_round :
    (fuel : ℕ) (positive : Bytes → Option Bool) (q : Bool) (s : Bytes)
    → parse_q (suc fuel) positive q (b';' ∷ s)
      ≡ parse_q fuel positive
          (weight positive q (drop_while is_ows s))
          (drop_while in_name (drop_while is_ows s))
unfolding parse_q
parse_q_round fuel positive q s = refl

-- The codings, one after the other.
unfoldable pub seen : (Bytes → Option Bool) → Bytes → List Coding → Accepts → Accepts
seen positive encoding [] st = st
seen positive encoding (c ∷ cs) st =
    seen positive encoding cs (element encoding c.name (wanted positive c.q) st)

name_start :
    (s more : Bytes)
    → s ≢ []
    → is_separator (deref s) ≡ false
    → drop_while is_separator (s ++ more) ≡ s ++ more
name_start [] more filled plain = absurd (filled refl)
name_start (c ∷ s) more filled plain = rw plain

next_written : (cs : List Coding) → length (next_element (write_rest cs)) ≤ length (write_rest cs)
next_written [] = omega arith
next_written (c ∷ cs) = omega arith

pub codings_start :
    (cs : List Coding)
    → All IsCoding cs
    → drop_while is_separator (write_codings cs) ≡ write_codings cs
codings_start [] h = refl
codings_start (c ∷ cs) h =
    ap (drop_while is_separator) (append_assoc c.name (write_q c.q) (write_rest cs))
    ∙ name_start c.name (write_q c.q ++ write_rest cs) h.0.filled h.0.no_lead
    ∙ sym (append_assoc c.name (write_q c.q) (write_rest cs))

next_start :
    (cs : List Coding)
    → All IsCoding cs
    → drop_while is_separator (next_element (write_rest cs)) ≡ write_codings cs
next_start [] h = refl
next_start (c ∷ cs) h = codings_start (c ∷ cs) h

-- A value that starts with a name.
not_empty : (s more : Bytes) → s ≢ [] → length (s ++ more) == 0 ≡ false
not_empty [] more filled = absurd (filled refl)
not_empty (c ∷ s) more filled = ground arith

not_skipped : (p : Bytes) → length (drop_while is_separator p) == 0 ≡ false → length p == 0 ≡ false
not_skipped [] h = h
not_skipped (c ∷ p) h = ground arith

next_shorter :
    (p : Bytes) (c : Coding) (cs : List Coding)
    → c.name ≢ []
    → drop_while is_separator p ≡ write_codings (c ∷ cs)
    → length (next_element (write_rest cs)) < length p
next_shorter p c cs filled start = omega (
  arith,
  next_written cs,
  length-pos c.name filled,
  length-append c.name (write_q c.q),
  length-append (write_coding c) (write_rest cs),
  ap length start,
  length-drop_while-le is_separator p,
)

module _ (positive : Bytes → Option Bool) (ends : EndsAtComma positive) where
  weighed_written :
      (q : Option Bytes) (cs : List Coding)
      → plain_weight q ≡ true
      → weighed positive (write_q q ++ write_rest cs) ≡ (wanted positive q, write_rest cs)
  weighed_written none cs plain = rw (rest_plain cs)
  weighed_written (some w) cs plain =
      parse_q_round (length (b'q' ∷ b'=' ∷ (w ++ write_rest cs))) positive true
        (b'q' ∷ b'=' ∷ (w ++ write_rest cs))
      ∙ rw (drop_while-append in_name w (write_rest cs) plain (write_rest-Stops cs)) (
          rw (positive_rest positive w cs ends) (
            parse_q_end (length (b'q' ∷ b'=' ∷ (w ++ write_rest cs))) positive
              (wanted positive (some w)) cs))

  -- A round of the loop, at a coding.
  loop_round :
      (fuel : ℕ) (encoding p : Bytes) (c : Coding) (cs : List Coding) (st : Accepts)
      → IsCoding c
      → drop_while is_separator p ≡ c.name ++ (write_q c.q ++ write_rest cs)
      → accept_loop (suc fuel) positive encoding p st
        ≡ accept_loop fuel positive encoding
            (next_element (write_rest cs))
            (element encoding c.name (wanted positive c.q) st)
  unfolding accept_loop
  loop_round fuel encoding p c cs st v start =
      let more = write_q c.q ++ write_rest cs in
      let stops = write_q-Stops c.q cs in
      rw (start) (
        rw
          (
            take_while-append in_name c.name more v.name_plain stops,
            drop_while-append in_name c.name more v.name_plain stops,
          )
          (rw (v.no_trail, weighed_written c.q cs v.q_plain)
            (rw (
              not_skipped p (rw start (not_empty c.name more v.filled)),
              not_empty c.name more v.filled,
            ))))

  accept_loop_end :
      (fuel : ℕ) (encoding p : Bytes) (st : Accepts)
      → drop_while is_separator p ≡ []
      → accept_loop fuel positive encoding p st ≡ st
  unfolding accept_loop
  accept_loop_end zero encoding p st start = refl
  accept_loop_end (suc fuel) encoding p st start = elim (Bool-cases (length p == 0)) [
    | inl empty ↦ rw empty
    | inr blank ↦ rw (start, blank)
  ]

  pub accept_loop-seen :
      (fuel : ℕ) (encoding p : Bytes) (cs : List Coding) (st : Accepts)
      → All IsCoding cs
      → drop_while is_separator p ≡ write_codings cs
      → length p ≤ fuel
      → accept_loop fuel positive encoding p st ≡ seen positive encoding cs st
  unfolding seen
  accept_loop-seen fuel encoding p [] st h start enough = accept_loop_end fuel encoding p st start
  accept_loop-seen zero encoding p (c ∷ cs) st h start enough =
      absurd (omega (arith, enough, next_shorter p c cs h.0.filled start))
  accept_loop-seen (suc fuel) encoding p (c ∷ cs) st h start enough =
      loop_round fuel encoding p c cs st h.0
        (start ∙ append_assoc c.name (write_q c.q) (write_rest cs))
      ∙ accept_loop-seen fuel encoding (next_element (write_rest cs)) cs _ h.1 (next_start cs h.1)
          (omega (arith, enough, next_shorter p c cs h.0.filled start))

-- ===== src/Tpl/Fragment/Blocks.antt =====
-- The calls that a component makes, and what each leaves of the counters.
use c_http.Base.{
  ℕ, suc, ◌≤◌, ◌≡◌, refl, sym, ap, ◌∙◌, Bool, true, false, [], ◌++◌, some, append-nil, append_assoc,
  if◌then◌else◌, ltb, Bytes, str_eq, arith, inl, inr, Bool-cases,
}
use c_http.Tpl.Buffer.{pos, TplOut, tpl_lit_n, is_outside, discards}
use c_http.Tpl.Buffer.Writes.{IsValid, written, tpl_lit_n-WroteOnce}
use c_http.Tpl.Fragment.{tpl_frag_begin, tpl_frag_end}

-- What a component does as it runs: it writes literals and has fragment blocks.
pub data Component : Type 0 where
  done : Component
  literal : Bytes → Component → Component
  fragment : (name : Bytes) → (body : Component) → Component → Component

-- The calls that the generated code makes.
abbrev pub render : (ℕ → Bool) → Component → TplOut → TplOut
render mem done out = out
render mem (literal s rest) out = render mem rest (tpl_lit_n mem out s)
render mem (fragment name body rest) out =
    render mem rest (tpl_frag_end (render mem body (tpl_frag_begin out (some name))))

-- All that the component writes.
abbrev pub whole : Component → Bytes
whole done = []
whole (literal s rest) = s ++ whole rest
whole (fragment name body rest) = whole body ++ whole rest

-- All that stands in the outermost fragments of the name.
abbrev pub selected : Bytes → Component → Bytes
selected sel done = []
selected sel (literal s rest) = selected sel rest
selected sel (fragment name body rest) =
    (if str_eq sel name then whole body else selected sel body) ++ selected sel rest

-- What is to be seen of a component with so many open blocks of a match.
abbrev pub visible : Bytes → ℕ → Component → Bytes
visible sel matched c = if ltb 0 matched then whole c else selected sel c

-- The selection with its counters.
pub record At (out : TplOut) (sel : Bytes) (depth matched : ℕ) : Type 0 where
  pub valid : IsValid out
  pub sel_is : out.frag_sel ≡ some sel
  pub depth_is : out.frag_depth ≡ pos depth
  pub match_is : out.frag_match ≡ pos matched

pub record Rendered (out : TplOut) (sel : Bytes) (depth matched : ℕ) (text : Bytes) (after : TplOut)
    : Type 0 where
  pub at : At after sel depth matched
  pub appended : after.failed ≡ false → (out.failed ≡ false) × (after.text ≡ out.text ++ text)

written_is :
    (out : TplOut) (sel s : Bytes) (matched : ℕ)
    → out.frag_sel ≡ some sel
    → out.frag_match ≡ pos matched
    → written out s ≡ out.text ++ (if ltb 0 matched then s else [])
unfolding discards is_outside
written_is out sel s matched e k = elim (Bool-cases (ltb 0 matched)) [
  | inl inside ↦ simp (e, k, inside)
  | inr outside ↦ simp (e, k, outside) (sym (append-nil out.text))
]

literal-Rendered :
    (mem : ℕ → Bool) (out : TplOut) (sel s : Bytes) (depth matched : ℕ)
    → At out sel depth matched
    → Rendered out sel depth matched (if ltb 0 matched then s else []) (tpl_lit_n mem out s)
unfolding discards is_outside
literal-Rendered mem out sel s depth matched a =
    let w = (tpl_lit_n-WroteOnce mem out s a.valid).wrote in
    record {
      at = record {
        valid = w.valid;
        sel_is = w.kept.sel ∙ a.sel_is;
        depth_is = w.kept.depth ∙ a.depth_is;
        match_is = w.kept.matched ∙ a.match_is;
      };
      appended = λ ok.
          let (fine, text) = w.done ok in
          (fine, text ∙ written_is out sel s matched a.sel_is a.match_is);
    }

-- The output with other counters.
abbrev counted : TplOut → ℕ → ℕ → TplOut
counted out depth matched = record out { frag_depth = pos depth; frag_match = pos matched }

counted-Rendered :
    (out : TplOut) (sel : Bytes) (d m d' m' : ℕ)
    → At out sel d m
    → Rendered out sel d' m' [] (counted out d' m')
counted-Rendered out sel d m d' m' a = record {
  at = record {
    valid = record { in_cap = a.valid.in_cap; cap_max = a.valid.cap_max; blocks = a.valid.blocks };
    sel_is = a.sel_is;
    depth_is = refl;
    match_is = refl;
  };
  appended = λ ok. (ok, sym (append-nil out.text));
}

abbrev begin_match : Bytes → Bytes → ℕ → ℕ → ℕ
begin_match sel name depth matched =
    if ltb 0 matched then matched else if str_eq sel name then suc depth else 0

tpl_frag_begin-counted :
    (out : TplOut) (sel name : Bytes) (depth matched : ℕ)
    → out.frag_sel ≡ some sel
    → out.frag_depth ≡ pos depth
    → out.frag_match ≡ pos matched
    → tpl_frag_begin out (some name) ≡ counted out (suc depth) (begin_match sel name depth matched)
unfolding tpl_frag_begin
tpl_frag_begin-counted out sel name depth matched es ed em = elim (Bool-cases (ltb 0 matched)) [
  | inl inside ↦ rw (es, ed, em, inside)
  | inr outside ↦ elim (Bool-cases (str_eq sel name)) [
    | inl same ↦ rw (es, ed, em, outside, same)
    | inr other ↦ let none_open : matched ≡ 0 = ground arith in rw (es, ed, em, none_open, other)
  ]
]

begin-Rendered :
    (out : TplOut) (sel name : Bytes) (depth matched : ℕ)
    → At out sel depth matched
    → Rendered out sel
        (suc depth)
        (begin_match sel name depth matched)
        []
        (tpl_frag_begin out (some name))
begin-Rendered out sel name depth matched a =
    rw (tpl_frag_begin-counted out sel name depth matched a.sel_is a.depth_is a.match_is)
      (counted-Rendered out sel depth matched _ _ a)

tpl_frag_end-counted :
    (out : TplOut) (sel : Bytes) (depth matched : ℕ)
    → out.frag_sel ≡ some sel
    → out.frag_depth ≡ pos (suc depth)
    → out.frag_match ≡ pos matched
    → tpl_frag_end out ≡ counted out depth (if ltb depth matched then 0 else matched)
unfolding tpl_frag_end
tpl_frag_end-counted out sel depth matched es ed em = elim (Bool-cases (ltb depth matched)) [
  | inl closes ↦ rw (es, ed, em, closes)
  | inr stays ↦ rw (es, ed, em, stays)
]

end-Rendered :
    (out : TplOut) (sel : Bytes) (depth matched : ℕ)
    → At out sel (suc depth) matched
    → Rendered out sel depth (if ltb depth matched then 0 else matched) [] (tpl_frag_end out)
end-Rendered out sel depth matched a =
    rw (tpl_frag_end-counted out sel depth matched a.sel_is a.depth_is a.match_is)
      (counted-Rendered out sel (suc depth) matched _ _ a)

Rendered-append :
    (out middle after : TplOut) (sel s t : Bytes) (d m d' m' : ℕ)
    → Rendered out sel d m s middle
    → Rendered middle sel d' m' t after
    → Rendered out sel d' m' (s ++ t) after
Rendered-append out middle after sel s t d m d' m' a b = record {
  at = b.at;
  appended = λ ok.
      let (fine, text) = b.appended ok in
      let (start, before) = a.appended fine in
      (start, text ∙ ap (λ (u : Bytes). u ++ t) before ∙ append_assoc out.text s t);
}

visible-literal :
    (sel s : Bytes) (matched : ℕ) (rest : Component)
    → (if ltb 0 matched then s else []) ++ visible sel matched rest
      ≡ visible sel matched (literal s rest)
visible-literal sel s matched rest = elim (Bool-cases (ltb 0 matched)) [
  | inl inside ↦ rw inside
  | inr outside ↦ rw outside
]

visible-fragment :
    (sel name : Bytes) (depth matched : ℕ) (body rest : Component)
    → visible sel (begin_match sel name depth matched) body ++ visible sel matched rest
      ≡ visible sel matched (fragment name body rest)
visible-fragment sel name depth matched body rest = elim (Bool-cases (ltb 0 matched)) [
  | inl inside ↦ rw (inside, inside)
  | inr outside ↦ elim (Bool-cases (str_eq sel name)) [
    | inl same ↦ let deep : ltb 0 (suc depth) ≡ true = ground arith in rw (outside, same, deep)
    | inr other ↦ rw (outside, other)
  ]
]

-- Behind a block the match is what it was in front of it.
match-restored :
    (sel name : Bytes) (depth matched : ℕ)
    → matched ≤ depth
    → (if ltb depth (begin_match sel name depth matched)
        then 0
        else begin_match sel name depth matched)
      ≡ matched
match-restored sel name depth matched h = ground arith

nothing_visible :
    (out : TplOut) (sel : Bytes) (matched : ℕ) → out.text ≡ out.text ++ visible sel matched done
nothing_visible out sel matched = elim (Bool-cases (ltb 0 matched)) [
  | inl inside ↦ rw inside (sym (append-nil out.text))
  | inr outside ↦ rw outside (sym (append-nil out.text))
]

pub render-Rendered :
    (mem : ℕ → Bool) (c : Component) (out : TplOut) (sel : Bytes) (depth matched : ℕ)
    → At out sel depth matched
    → matched ≤ depth
    → Rendered out sel depth matched (visible sel matched c) (render mem c out)
render-Rendered mem done out sel depth matched a h = record {
  at = a;
  appended = λ ok. (ok, nothing_visible out sel matched);
}
render-Rendered mem (literal s rest) out sel depth matched a h =
    let first = literal-Rendered mem out sel s depth matched a in
    let both =
      Rendered-append out _ _ sel _ _ _ _ _ _ first
        (render-Rendered mem rest _ sel depth matched first.at h) in
    rw (visible-literal sel s matched rest) at both
render-Rendered mem (fragment name body rest) out sel depth matched a h =
    let first = begin-Rendered out sel name depth matched a in
    let inside = begin_match sel name depth matched in
    let inside_le : inside ≤ suc depth = ground arith in
    let second = render-Rendered mem body _ sel (suc depth) inside first.at inside_le in
    let third = end-Rendered _ sel depth inside second.at in
    let restored = rw (match-restored sel name depth matched h) at third in
    let rest_done = render-Rendered mem rest _ sel depth matched restored.at h in
    let inner = Rendered-append _ _ _ sel _ _ _ _ _ _ second restored in
    let outer = Rendered-append out _ _ sel _ _ _ _ _ _ first inner in
    let both = Rendered-append out _ _ sel _ _ _ _ _ _ outer rest_done in
    rw (append-nil (visible sel inside body), visible-fragment sel name depth matched body rest) at
      both

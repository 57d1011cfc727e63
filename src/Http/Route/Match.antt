-- ===== src/Http/Route/Match.antt =====
-- What a pattern matches.
use c_http.Base.{
  ℕ, suc, ◌+◌, ◌-◌, ◌≤◌, ◌<◌, ◌≡◌, ◌↔◌, refl, ap, sym, ◌∙◌, true, false, List, [], ◌∷◌, ◌++◌, some,
  if◌then◌else◌, ◌==◌, ltb, leb, length, length-drop, length-append, append_assoc, append-nil, drop,
  str_eq, str_eq_iff, All, arith, inl, inr, Bool-cases,
}
use c_http.Http.Route.{HttpRouteSegment, HttpParam, match_loop, segments_match_at}

-- Segment by segment: a parameter stands for any text, another segment for its own.
pub data Matches : List HttpRouteSegment → List HttpRouteSegment → Type 0 where
  end : Matches [] []
  literal :
      (p c : HttpRouteSegment) {pattern cur : List HttpRouteSegment}
      → p.is_param ≡ false
      → p.text ≡ c.text
      → Matches pattern cur
      → Matches (p ∷ pattern) (c ∷ cur)
  parameter :
      (p c : HttpRouteSegment) {pattern cur : List HttpRouteSegment}
      → p.is_param ≡ true
      → Matches pattern cur
      → Matches (p ∷ pattern) (c ∷ cur)

-- The parameters of a pattern with the texts at their places.
abbrev pub bindings : List HttpRouteSegment → List HttpRouteSegment → List HttpParam
bindings [] cur = []
bindings (p ∷ pattern) [] = []
bindings (p ∷ pattern) (c ∷ cur) =
    if p.is_param
    then record { key = p.text; value = c.text } ∷ bindings pattern cur
    else bindings pattern cur

length-Matches :
    {pattern cur : List HttpRouteSegment} → Matches pattern cur → length pattern ≡ length cur
length-Matches end = refl
length-Matches (literal p c l e m) = ap suc (length-Matches m)
length-Matches (parameter p c l m) = ap suc (length-Matches m)

match_loop-Matches :
    (pattern cur : List HttpRouteSegment) (bound out : List HttpParam)
    → length pattern ≡ length cur
    → match_loop false pattern cur bound ≡ some out
    → Matches pattern cur
unfolding match_loop
match_loop-Matches [] [] bound out same h = end
match_loop-Matches [] (c ∷ cur) bound out same h = absurd (omega arith)
match_loop-Matches (p ∷ pattern) [] bound out same h = absurd (omega arith)
match_loop-Matches (p ∷ pattern) (c ∷ cur) bound out same h = elim (Bool-cases p.is_param) [
  | inl param ↦
      parameter p c param (match_loop-Matches pattern cur bound out (omega arith) (rw param at h))
  | inr lit ↦ elim (Bool-cases (str_eq p.text c.text)) [
    | inl equal ↦
        literal p c lit ((str_eq_iff p.text c.text).0 equal)
          (match_loop-Matches pattern cur bound out (omega arith) (rw (lit, equal) at h))
    | inr other ↦ let no = rw (lit, other) at h in cc
  ]
]

match_loop_found :
    {pattern cur : List HttpRouteSegment} (bound : List HttpParam)
    → Matches pattern cur
    → match_loop false pattern cur bound ≡ some bound
unfolding match_loop
match_loop_found bound end = refl
match_loop_found bound (literal p c lit e m) =
    rw (lit, (str_eq_iff p.text c.text).1 e) (match_loop_found bound m)
match_loop_found bound (parameter p c param m) = rw param (match_loop_found bound m)

-- The test of a pattern succeeds exactly on the requests that agree with it from the offset on,
-- segment by segment and to the end: a parameter agrees with any segment, a literal with its text.
pub segments_match_at-Matches :
    (pattern request : List HttpRouteSegment) (offset : ℕ)
    → (segments_match_at false pattern request offset ≡ some [])
      ↔ ((offset ≤ length request) × Matches pattern (drop offset request))
unfolding segments_match_at
segments_match_at-Matches pattern request offset = (sound, complete)
  where
    sound :
        segments_match_at false pattern request offset ≡ some []
        → (offset ≤ length request) × Matches pattern (drop offset request)
    sound h = elim (Bool-cases (ltb (length request) offset)) [
      | inl out ↦ let no = rw out at h in cc
      | inr inside ↦ elim (Bool-cases (length pattern == length request - offset)) [
        | inr unequal ↦ let no = rw (inside, unequal) at h in cc
        | inl equal ↦ (
          ground arith,
          match_loop-Matches pattern (drop offset request) [] []
              (ground (arith, length-drop offset request)) (rw (inside, equal) at h),
        )
      ]
    ]

    complete :
        (offset ≤ length request) × Matches pattern (drop offset request)
        → segments_match_at false pattern request offset ≡ some []
    complete (le, m) =
        let inside : ltb (length request) offset ≡ false = ground arith in
        let equal : length pattern == length request - offset ≡ true =
          ground (arith, length-Matches m, length-drop offset request) in
        rw (inside, equal) (match_loop_found [] m)

-- The number of parameters of a pattern.
abbrev pub param_count : List HttpRouteSegment → ℕ
param_count [] = 0
param_count (p ∷ pattern) = (if p.is_param then 1 else 0) + param_count pattern

-- The text of a segment fits its array, and a parameter's name that of a key.
abbrev pub FitsKey : HttpRouteSegment → Type 0
FitsKey p = length p.text < (if p.is_param then 32 else 64)

abbrev pub FitsValue : HttpRouteSegment → Type 0
FitsValue c = length c.text < 64

match_loop-bindings :
    {pattern cur : List HttpRouteSegment} (bound : List HttpParam)
    → Matches pattern cur
    → All FitsKey pattern
    → All FitsValue cur
    → length bound + param_count pattern ≤ 16
    → match_loop true pattern cur bound ≡ some (bound ++ bindings pattern cur)
unfolding match_loop
match_loop-bindings bound end keys values room =
    ap (λ (b : List HttpParam). some b) (sym (append-nil bound))
match_loop-bindings bound (literal p c lit e m) keys values room =
    let equal = (str_eq_iff p.text c.text).1 e in
    let fewer = rw lit at room in
    rw (lit, equal) (match_loop-bindings bound m keys.1 values.1 (omega (arith, fewer)))
match_loop-bindings bound (parameter p c param m) keys values room =
    let fewer = rw param at room in
    let short : leb 32 (length p.text) ≡ false = let k = rw param at keys.0 in ground arith in
    let short_value : leb 64 (length c.text) ≡ false = ground (arith, values.0) in
    let some_left : leb 16 (length bound) ≡ false = ground (arith, fewer) in
    let x : HttpParam = record { key = p.text; value = c.text } in
    let more : length (bound ++ (x ∷ [])) + param_count _ ≤ 16 =
      omega (arith, fewer, length-append bound (x ∷ [])) in
    rw (param, some_left, short, short_value)
      (match_loop-bindings (bound ++ (x ∷ [])) m keys.1 values.1 more
        ∙ ap (λ (b : List HttpParam). some b) (append_assoc bound (x ∷ []) _))

-- Where the request agrees with a pattern of at most 16 parameters whose names fit, the test
-- succeeds, and binding gives each parameter the segment at its place, in the pattern's order.
pub segments_match_at-bindings :
    (pattern request : List HttpRouteSegment) (offset : ℕ)
    → All FitsKey pattern
    → All FitsValue (drop offset request)
    → param_count pattern ≤ 16
    → offset ≤ length request
    → Matches pattern (drop offset request)
    → (segments_match_at false pattern request offset ≡ some [])
      × (segments_match_at true pattern request offset
          ≡ some (bindings pattern (drop offset request)))
unfolding segments_match_at
segments_match_at-bindings pattern request offset keys values few le m =
    let inside : ltb (length request) offset ≡ false = ground arith in
    let equal : length pattern == length request - offset ≡ true =
      ground (arith, length-Matches m, length-drop offset request) in
    let bound = match_loop-bindings [] m keys values (omega arith) in
    (rw (inside, equal) (match_loop_found [] m), rw (inside, equal) bound)

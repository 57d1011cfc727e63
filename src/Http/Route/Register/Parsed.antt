-- ===== src/Http/Route/Register/Parsed.antt =====
-- The segments of a parsed path fit their arrays.
use c_http.Base.{
  ℕ, zero, suc, ◌*◌, Bool, not, ◌&&◌, [], ◌∷◌, Option, none, some, if◌then◌else◌, ◌==◌, leb, Bytes,
  length, take_while, drop_while, deref, advance, All, All-append, arith, inl, inr, Bool-cases,
}
use c_http.Http.Route.{
  HttpRouteSegments, not_slash, grow_segments, push_segment, then_loop, segment_at, at_slash,
  segments_loop, http_parse_route_segments,
}
use c_http.Http.Route.Match.{FitsValue}

-- What the loop leaves when it gets through: the segments fit.
abbrev pub Parsed : Option HttpRouteSegments → Type 0
Parsed none = Unit {0}
Parsed (some s) = All FitsValue s.segments

then_loop-Parsed :
    (o : Option HttpRouteSegments) (again : HttpRouteSegments → Option HttpRouteSegments)
    → Parsed o
    → ((s : HttpRouteSegments) → All FitsValue s.segments → Parsed (again s))
    → Parsed (then_loop o again)
then_loop-Parsed none again h next = tt
then_loop-Parsed (some s) again h next = next s h

grow_segments-Parsed :
    (mem : ℕ → Bool) (s : HttpRouteSegments)
    → All FitsValue s.segments
    → Parsed (grow_segments mem s)
grow_segments-Parsed mem s h = elim (Bool-cases (length s.segments == s.capacity)) [
  | inr room ↦ rw room h
  | inl full ↦ elim (Bool-cases (mem (s.capacity * 2 * 65))) [
    | inl given ↦ rw (full, given) h
    | inr left ↦ rw (full, left) tt
  ]
]

segment_at-Parsed :
    (mem : ℕ → Bool) (is_param : Bool) (p : Bytes) (s : HttpRouteSegments)
    (again : HttpRouteSegments → Option HttpRouteSegments)
    → All FitsValue s.segments
    → ((s : HttpRouteSegments) → All FitsValue s.segments → Parsed (again s))
    → Parsed (segment_at mem is_param p s again)
segment_at-Parsed mem is_param p s again h next =
    let text = take_while not_slash p in
    elim (Bool-cases (length text == 0 && not is_param)) [
      | inl blank ↦ rw blank (next s h)
      | inr kept ↦ elim (Bool-cases (length text == 0)) [
        | inl bare ↦ rw (kept, bare) tt
        | inr filled ↦ elim (Bool-cases (leb 64 (length text))) [
          | inl long ↦ rw (kept, filled, long) tt
          | inr fits ↦
              let pushed = push_segment s is_param text in
              let valid : All FitsValue pushed.segments =
                All-append FitsValue s.segments _ h (ground arith, tt) in
              rw (kept, filled, fits)
                (then_loop-Parsed (grow_segments mem pushed) again
                  (grow_segments-Parsed mem pushed valid) next)
        ]
      ]
    ]

at_slash-Parsed :
    (mem : ℕ → Bool) (again : Bytes → HttpRouteSegments → Option HttpRouteSegments) (p : Bytes)
    (s : HttpRouteSegments)
    → All FitsValue s.segments
    → ((q : Bytes) (s : HttpRouteSegments) → All FitsValue s.segments → Parsed (again q s))
    → Parsed (at_slash mem again p s)
at_slash-Parsed mem again [] s h next = h
at_slash-Parsed mem again (c ∷ p) s h next =
    let q = if deref p == b':' then advance p else p in
    segment_at-Parsed mem (deref p == b':') q s (again q) h (next q)

segments_loop-Parsed :
    (fuel : ℕ) (mem : ℕ → Bool) (p : Bytes) (s : HttpRouteSegments)
    → All FitsValue s.segments
    → Parsed (segments_loop fuel mem p s)
unfolding segments_loop
segments_loop-Parsed zero mem p s h = tt
segments_loop-Parsed (suc fuel) mem p s h =
    at_slash-Parsed mem (segments_loop fuel mem) (drop_while not_slash p) s h
      (λ q t k. segments_loop-Parsed fuel mem q t k)

pub http_parse_route_segments-Parsed :
    (mem : ℕ → Bool) (path : Bytes) → Parsed (http_parse_route_segments mem path)
unfolding http_parse_route_segments
http_parse_route_segments-Parsed mem path = elim (Bool-cases (mem (8 * 65))) [
  | inl given ↦ rw given (segments_loop-Parsed (suc (length path)) mem path _ tt)
  | inr left ↦ rw left tt
]

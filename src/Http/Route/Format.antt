-- ===== src/Http/Route/Format.antt =====
-- A pattern as it is written is parsed into its segments.
use c_http.Base.{
  ℕ, zero, suc, ◌*◌, ◌<◌, ◌≡◌, ◌≢◌, refl, ap, sym, ◌∙◌, true, false, not, ◌||◌, List, [], ◌∷◌, ◌++◌,
  Option, some, append_assoc, append-nil, if◌then◌else◌, ◌==◌, leb, Bytes, length, length-append,
  length-pos, All, all, deref, Stops, take_while-append, drop_while-append, arith, inl, inr,
  Bool-cases,
}
use c_http.Http.Route.{
  HttpRouteSegment, HttpRouteSegments, not_slash, grow_segments, push_segment, then_loop,
  segment_at, at_slash, segments_loop, http_parse_route_segments,
}

-- A segment that can be written: a text of 1 to 63 characters without a slash, and no colon at its
-- head unless it is a parameter.
pub record IsSegment (s : HttpRouteSegment) : Type 0 where
  pub filled : s.text ≢ []
  pub whole : all not_slash s.text ≡ true
  pub fits : length s.text < 64
  pub marked : (s.is_param || not (deref s.text == b':')) ≡ true

abbrev pub format_segment : HttpRouteSegment → Bytes
format_segment s = if s.is_param then b':' ∷ s.text else s.text

abbrev pub format_path : List HttpRouteSegment → Bytes
format_path [] = []
format_path (s ∷ segments) = b'/' ∷ (format_segment s ++ format_path segments)

-- The loop got through, with these segments.
abbrev pub Gives : Option HttpRouteSegments → List HttpRouteSegment → Type 0
Gives o segments = (capacity : ℕ) × (o ≡ some (record { segments = segments; capacity = capacity }))

grown-Gives :
    (s : HttpRouteSegments) (again : HttpRouteSegments → Option HttpRouteSegments)
    (segments : List HttpRouteSegment)
    → ((t : HttpRouteSegments) → t.segments ≡ s.segments → Gives (again t) segments)
    → Gives (then_loop (grow_segments (λ n. true) s) again) segments
grown-Gives s again segments next = elim (Bool-cases (length s.segments == s.capacity)) [
  | inl full ↦ rw full (next (record s { capacity = s.capacity * 2 }) refl)
  | inr room ↦ rw room (next s refl)
]

Stops-format_path : (segments : List HttpRouteSegment) → Stops not_slash (format_path segments)
Stops-format_path [] = tt
Stops-format_path (s ∷ segments) = refl

segment_at-Gives :
    (x : HttpRouteSegment) (more : List HttpRouteSegment) (s : HttpRouteSegments)
    (segments : List HttpRouteSegment) (again : HttpRouteSegments → Option HttpRouteSegments)
    → IsSegment x
    → ((t : HttpRouteSegments) → t.segments ≡ s.segments ++ (x ∷ []) → Gives (again t) segments)
    → Gives (segment_at (λ n. true) x.is_param (x.text ++ format_path more) s again) segments
segment_at-Gives x more s segments again v next =
    let filled : length x.text == 0 ≡ false = ground (arith, length-pos x.text v.filled) in
    let short : leb 64 (length x.text) ≡ false = ground (arith, v.fits) in
    rw (take_while-append not_slash x.text (format_path more) v.whole (Stops-format_path more))
      (rw (filled, short) (grown-Gives (push_segment s x.is_param x.text) again segments next))

-- Behind the slash stands the colon of a parameter, or the text.
after_slash :
    (x : HttpRouteSegment) (more : List HttpRouteSegment) (s : HttpRouteSegments)
    (again : Bytes → HttpRouteSegments → Option HttpRouteSegments)
    → IsSegment x
    → at_slash (λ n. true) again (b'/' ∷ (format_segment x ++ format_path more)) s
      ≡ segment_at
          (λ n. true)
          x.is_param
          (x.text ++ format_path more)
          s
          (again (x.text ++ format_path more))
after_slash x more s again v = elim (Bool-cases x.is_param) [
  | inl param ↦ simp param
  | inr lit ↦
      let plain = simp lit at v.marked in
      let head : deref (x.text ++ format_path more) == b':' ≡ false = first x.text v.filled plain in
      simp (lit, head)
]
  where
    first :
        (text : Bytes)
        → text ≢ []
        → not (deref text == b':') ≡ true
        → deref (text ++ format_path more) == b':' ≡ false
    first [] ne h = absurd (ne refl)
    first (c ∷ text) ne h = ground arith

segments_loop-Gives :
    (segments : List HttpRouteSegment) (fuel : ℕ) (front : Bytes) (s : HttpRouteSegments)
    → All IsSegment segments
    → all not_slash front ≡ true
    → length (format_path segments) < fuel
    → Gives
        (segments_loop fuel (λ n. true) (front ++ format_path segments) s)
        (s.segments ++ segments)
unfolding segments_loop
segments_loop-Gives segments zero front s v plain h = absurd (omega arith)
segments_loop-Gives [] (suc fuel) front s v plain h =
    rw (drop_while-append not_slash front [] plain tt) (
      s.capacity,
      ap (λ (t : List HttpRouteSegment). some (record { segments = t; capacity = s.capacity }))
          (sym (append-nil s.segments)),
    )
segments_loop-Gives (x ∷ segments) (suc fuel) front s v plain h =
    let shorter : length (format_path segments) < fuel =
      omega (arith, length-append (format_segment x) (format_path segments)) in
    rw
      (
        drop_while-append not_slash front (format_path (x ∷ segments)) plain refl,
        after_slash x segments s (segments_loop fuel (λ n. true)) v.0,
      )
      (segment_at-Gives x segments s (s.segments ++ (x ∷ segments))
        (segments_loop fuel (λ n. true) (x.text ++ format_path segments)) v.0
        (λ t e.
          let stored : t.segments ++ segments ≡ s.segments ++ (x ∷ segments) =
            ap (λ (u : List HttpRouteSegment). u ++ segments) e
            ∙ append_assoc s.segments (x ∷ []) segments in
          rw stored at (segments_loop-Gives segments fuel x.text t v.1 v.0.whole shorter)))

-- Any list of segments that can be written is parsed back from its path, with memory, however long
-- it is.
pub http_parse_route_segments-format_path :
    (segments : List HttpRouteSegment)
    → All IsSegment segments
    → Gives (http_parse_route_segments (λ n. true) (format_path segments)) segments
unfolding http_parse_route_segments
http_parse_route_segments-format_path segments v =
    segments_loop-Gives segments (suc (length (format_path segments))) [] _ v refl (omega arith)

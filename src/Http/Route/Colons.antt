-- ===== src/Http/Route/Colons.antt =====
-- A request path whose last segment begins with a colon.
use c_http.Base.{
  ℕ, suc, ◌<◌, ◌≡◌, ◌≢◌, refl, ap, ◌∙◌, Bool, true, false, [], ◌∷◌, some, ◌==◌, leb, Bytes, length,
  length-pos, all, take_while, drop_while, str_eq_iff, arith,
}
use c_http.Http.Route.{
  HttpRouteSegments, not_slash, segment_at, segments_loop, http_parse_route_segments, match_loop,
  segments_match_at, path_from, path_matches,
}
use c_http.Http.Route.Slashes.{without_slash_two, path_matches-path_from}

take_while-all : (s : Bytes) → all not_slash s ≡ true → take_while not_slash s ≡ s
take_while-all [] h = refl
take_while-all (c ∷ s) h = ground (arith, take_while-all s)

drop_while-all : (s : Bytes) → all not_slash s ≡ true → drop_while not_slash s ≡ []
drop_while-all [] h = refl
drop_while-all (c ∷ s) h = ground (arith, drop_while-all s)

one_segment : Bytes → Bool → HttpRouteSegments
one_segment text is_param = record {
  segments = record { text = text; is_param = is_param } ∷ [];
  capacity = 8;
}

loop_ends :
    (fuel : ℕ) (mem : ℕ → Bool) (p : Bytes) (s : HttpRouteSegments)
    → all not_slash p ≡ true
    → segments_loop (suc fuel) mem p s ≡ some s
unfolding segments_loop
loop_ends fuel mem p s h = rw (drop_while-all p h)

segment_only :
    (is_param : Bool) (fuel : ℕ) (text : Bytes)
    → text ≢ []
    → all not_slash text ≡ true
    → length text < 64
    → segment_at
        (λ n. true)
        is_param
        text
        (record { segments = []; capacity = 8 })
        (segments_loop (suc fuel) (λ n. true) text)
      ≡ some (one_segment text is_param)
unfolding one_segment
segment_only is_param fuel text ne plain fits =
    let whole = take_while-all text plain in
    let filled : length text == 0 ≡ false = ground (arith, length-pos text ne) in
    let short : leb 64 (length text) ≡ false = ground arith in
    rw (whole, filled, short) (loop_ends fuel (λ n. true) text _ plain)

-- A colon at the head of a request's segment is dropped by the parser, and the test looks at the
-- text only: so a request for a path of one segment with a colon in front of it reaches the route
-- of that path without the colon, and a middleware for the path is not run on it.
colon_ignored :
    (c : ℕ) (text : Bytes)
    → c ≢ b'/'
    → c ≢ b':'
    → all not_slash text ≡ true
    → length text < 63
    → (pattern : HttpRouteSegments) × (request : HttpRouteSegments) × (http_parse_route_segments
          (λ n. true)
          (b'/' ∷ c ∷ text)
        ≡ some pattern)
      × (http_parse_route_segments (λ n. true) (b'/' ∷ b':' ∷ c ∷ text) ≡ some request)
      × (segments_match_at false pattern.segments request.segments 0 ≡ some [])
      × (path_matches (b'/' ∷ c ∷ text) (b'/' ∷ b':' ∷ c ∷ text) ≡ false)
unfolding one_segment http_parse_route_segments segments_loop segments_match_at match_loop
colon_ignored c text no_slash no_colon plain fits =
    let literal : c == b':' ≡ false = ground arith in
    let all_plain : all not_slash (c ∷ text) ≡ true = ground arith in
    let (t, e) = without_slash_two c text no_slash in
    let other : path_from (b'/' ∷ c ∷ t) (b'/' ∷ b':' ∷ c ∷ text) ≡ false = ground arith in
    (
      one_segment (c ∷ text) false,
      one_segment (c ∷ text) true,
      rw literal
          (segment_only false (suc (length text)) (c ∷ text) (λ x. cc) all_plain (omega arith)),
      segment_only true (suc (suc (length text))) (c ∷ text) (λ x. cc) all_plain (omega arith),
      rw ((str_eq_iff (c ∷ text) (c ∷ text)).1 refl) refl,
      path_matches-path_from (b'/' ∷ c ∷ text) (b'/' ∷ b':' ∷ c ∷ text)
          ∙ ap (λ (r : Bytes). path_from r (b'/' ∷ b':' ∷ c ∷ text)) e
          ∙ other,
    )

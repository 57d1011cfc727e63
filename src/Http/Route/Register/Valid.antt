-- ===== src/Http/Route/Register/Valid.antt =====
-- What every registered route satisfies.
use c_http.Base.{
  ℕ, zero, suc, ◌≤◌, ◌≡◌, Bool, true, false, List, [], ◌∷◌, some, Bytes, length, drop, All,
}
use c_http.Http.Route.{
  HttpRouteSegment, HttpRouteSegments, http_parse_route_segments, segments_match_at,
}
use c_http.Http.Route.Match.{
  FitsKey, FitsValue, param_count, bindings, segments_match_at-Matches, segments_match_at-bindings,
}
use c_http.Http.Route.Dispatch.{HttpRoute}
use c_http.Http.Route.Register.{HttpRoutes, has_conflict}
use c_http.Http.Route.Register.Parsed.{Parsed, http_parse_route_segments-Parsed}

-- A route that can be matched and bound.
pub record IsRoute (r : HttpRoute) : Type 0 where
  pub keys : All FitsKey r.route_segments
  pub few : param_count r.route_segments ≤ 16

-- No two routes have the same method and path.
abbrev pub Distinct : List HttpRoute → Type 0
Distinct [] = Unit {0}
Distinct (r ∷ routes) = (has_conflict routes r.method r.path ≡ false) × Distinct routes

pub record IsValid (r : HttpRoutes) : Type 0 where
  pub all_routes : All IsRoute r.routes
  pub distinct : Distinct r.routes
  pub in_capacity : length r.routes ≤ r.capacity

drop-All :
    (n : ℕ) (segments : List HttpRouteSegment)
    → All FitsValue segments
    → All FitsValue (drop n segments)
drop-All zero segments v = v
drop-All (suc n) [] v = tt
drop-All (suc n) (s ∷ segments) v = drop-All n segments v.1

-- For a route of the table and a request path that was parsed, a match that binds succeeds where
-- the test does, so that a handler is never called without the parameters of its route.
segments_match_at-registered :
    (mem : ℕ → Bool) (route : HttpRoute) (path : Bytes) (request : HttpRouteSegments) (offset : ℕ)
    → IsRoute route
    → http_parse_route_segments mem path ≡ some request
    → segments_match_at false route.route_segments request.segments offset ≡ some []
    → segments_match_at true route.route_segments request.segments offset
      ≡ some (bindings route.route_segments (drop offset request.segments))
segments_match_at-registered mem route path request offset v parsed test =
    let (le, m) = (segments_match_at-Matches route.route_segments request.segments offset).0 test in
    let values = rw parsed at (http_parse_route_segments-Parsed mem path) in
    (segments_match_at-bindings route.route_segments request.segments offset v.keys
      (drop-All offset request.segments values) v.few le m).1

-- ===== src/Http/Route/Tests.antt =====
-- Routes and requests at concrete inputs.
use c_http.Base.{
  All, ◌≤◌, ◌≡◌, ◌↔◌, refl, true, false, List, [], ◌∷◌, some, codes, length, drop, arith,
}
use c_http.Http.Method.{get, head, string_to_http_method}
use c_http.Http.Route.{
  HttpRouteSegment, segments_loop, http_parse_route_segments, match_loop, segments_match_at,
  path_matches,
}
use c_http.Http.Route.Match.{Matches, end, literal, parameter, segments_match_at-Matches}
use c_http.Http.Route.Slashes.{doubled_slash}
use c_http.Http.Route.Format.{IsSegment, format_path, Gives, http_parse_route_segments-format_path}
use c_http.Http.Route.Register.{HttpRoutes}
use c_http.Http.Route.Register.Valid.{IsRoute}
use c_http.Http.Route.Dispatch.{
  HttpRoute, HttpRouterMount, not_matched, collect_allow, execute_handler,
}
use c_http.Http.Route.Dispatch.Lists.{asked, chosen, any_asked}
use c_http.Http.Route.Dispatch.Chosen.{outcome_of, execute_handler-outcome}

-- "/users/:id" and "/users/7"
abbrev users : HttpRouteSegment
users = record { text = codes "users"; is_param = false }

abbrev id_param : HttpRouteSegment
id_param = record { text = codes "id"; is_param = true }

abbrev seven : HttpRouteSegment
seven = record { text = codes "7"; is_param = false }

parsed_pattern :
    http_parse_route_segments (λ n. true) (codes "/users//:id")
    ≡ some (record { segments = users ∷ id_param ∷ []; capacity = 8 })
unfolding http_parse_route_segments segments_loop
parsed_pattern = refl

parsed_request :
    http_parse_route_segments (λ n. true) (codes "/users/7")
    ≡ some (record { segments = users ∷ seven ∷ []; capacity = 8 })
unfolding http_parse_route_segments segments_loop
parsed_request = refl

segments_match_at-Matches_example :
    (segments_match_at false (users ∷ id_param ∷ []) (users ∷ seven ∷ []) 0 ≡ some []) ↔ (
      (0 ≤ length (users ∷ seven ∷ []))
      × Matches (users ∷ id_param ∷ []) (drop 0 (users ∷ seven ∷ [])))
segments_match_at-Matches_example =
    segments_match_at-Matches (users ∷ id_param ∷ []) (users ∷ seven ∷ []) 0

seven-Matches : Matches (users ∷ id_param ∷ []) (users ∷ seven ∷ [])
seven-Matches = literal users users refl refl (parameter id_param seven refl end)

doubled_slash_example :
    (http_parse_route_segments (λ n. true) (codes "//admin")
      ≡ http_parse_route_segments (λ n. true) (codes "/admin"))
    × (path_matches (codes "/admin") (codes "//admin") ≡ false)
doubled_slash_example =
    doubled_slash (λ n. true) b'a' (codes "dmin") (codes "admin") (λ e. omega (arith, e))

abbrev empty : HttpRoutes
empty = record { routes = []; capacity = 0 }

abbrev users_route : HttpRoute
users_route = record {
  path = codes "/users/:id";
  handler = 5;
  method = get;
  route_segments = users ∷ id_param ∷ [];
}

users_route-IsRoute : IsRoute users_route
users_route-IsRoute = record { keys = (omega arith, (omega arith, tt)); few = omega arith }

users_test : segments_match_at false (users ∷ id_param ∷ []) (users ∷ seven ∷ []) 0 ≡ some []
unfolding segments_match_at match_loop
users_test = refl

-- The same route in a router below "/api".
abbrev mounts : List HttpRouterMount
mounts =
    record {
      prefix_segments = record { text = codes "api"; is_param = false } ∷ [];
      routes = users_route ∷ [];
    }
    ∷ []

known_head : string_to_http_method (codes "HEAD") ≡ some head
unfolding string_to_http_method
known_head = refl

execute_handler-outcome_example :
    let lists = (users_route ∷ [], 0) ∷ asked mounts (users ∷ seven ∷ []) in
    execute_handler (codes "HEAD") (users_route ∷ []) mounts (users ∷ seven ∷ []) [] not_matched
    ≡ outcome_of
        (chosen lists head (users ∷ seven ∷ []))
        head
        (users ∷ seven ∷ [])
        []
        (collect_allow (users_route ∷ []) mounts (users ∷ seven ∷ []) 128)
        not_matched
        (any_asked lists (users ∷ seven ∷ []))
execute_handler-outcome_example =
    execute_handler-outcome (codes "HEAD") head (users_route ∷ []) mounts (users ∷ seven ∷ []) []
      not_matched known_head

users_id-IsSegment : All IsSegment (users ∷ id_param ∷ [])
users_id-IsSegment = (
  record { filled = λ e. cc; whole = refl; fits = omega arith; marked = refl },
  (record { filled = λ e. cc; whole = refl; fits = omega arith; marked = refl }, tt),
)

http_parse_route_segments-format_path_example :
    Gives
      (http_parse_route_segments (λ n. true) (format_path (users ∷ id_param ∷ [])))
      (users ∷ id_param ∷ [])
http_parse_route_segments-format_path_example =
    http_parse_route_segments-format_path (users ∷ id_param ∷ []) users_id-IsSegment

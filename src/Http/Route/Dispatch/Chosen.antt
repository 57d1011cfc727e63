-- ===== src/Http/Route/Dispatch/Chosen.antt =====
-- Which route is chosen for a request.
use c_http.Base.{
  ℕ, ◌≡◌, refl, ap, sym, ◌∙◌, Bool, false, ◌&&◌, ◌||◌, List, [], ◌∷◌, Option, none, some,
  if◌then◌else◌, ltb, Bytes, length, inl, inr, Bool-cases,
}
use c_http.Http.Method.{HttpMethod, options, string_to_http_method}
use c_http.Http.Route.{HttpRouteSegment, HttpParam, prefix_segments_match}
use c_http.Http.Route.Dispatch.{
  HttpRoute, HttpRouterMount, StaticResult, same_method, binds_for, Search, search_routes,
  search_mounts, collect_allow, Outcome, called, answered, static_outcome, after_search,
  execute_handler,
}
use c_http.Http.Route.Dispatch.Lists.{
  or_first, choice, with_offset, asked, chosen, any_asked, settle, or_false, or_assoc, unless_none,
  unless_some, search_routes-settle,
}

-- What a search over mounts leaves, which may stop early.
abbrev Leaves : Option (HttpRoute × ℕ) → List HttpRouteSegment → Bool → Search → Search → Type 0
Leaves none request any found after =
    after ≡ record found { path_exists = found.path_exists || any }
Leaves (some (route, offset)) request any found after =
    (after.handler ≡ some route.handler)
    × (after.params ≡ binds_for route request offset found.params)

-- A search that has its handler goes no further.
search_mounts_done :
    (mounts : List HttpRouterMount) (method : HttpMethod) (request : List HttpRouteSegment)
    (found : Search) (n : ℕ)
    → found.handler ≡ some n
    → search_mounts mounts method request found ≡ found
unfolding search_mounts
search_mounts_done [] method request found n h = refl
search_mounts_done (mount ∷ mounts) method request found n h = unless_some found _ n h

Leaves-behind :
    (o rest : Option (HttpRoute × ℕ)) (mounts : List HttpRouterMount) (method : HttpMethod)
    (request : List HttpRouteSegment) (any more : Bool) (found : Search)
    → found.handler ≡ none
    → ((s : Search)
        → s.handler ≡ none
        → Leaves rest request more s (search_mounts mounts method request s))
    → Leaves
        (or_first o rest)
        request
        (any || more)
        found
        (search_mounts mounts method request (settle o request any found))
Leaves-behind (some (route, offset)) rest mounts method request any more found h next =
    rw
      (search_mounts_done mounts method request (settle (some (route, offset)) request any found)
        route.handler refl)
      (refl, refl)
Leaves-behind none none mounts method request any more found h next =
    next (settle none request any found) h
    ∙ ap (λ (b : Bool). record found { path_exists = b }) (or_assoc found.path_exists any more)
Leaves-behind none (some (route, offset)) mounts method request any more found h next =
    next (settle none request any found) h

search_mounts-Leaves :
    (mounts : List HttpRouterMount) (method : HttpMethod) (request : List HttpRouteSegment)
    (found : Search)
    → found.handler ≡ none
    → Leaves
        (chosen (asked mounts request) method request)
        request
        (any_asked (asked mounts request) request)
        found
        (search_mounts mounts method request found)
unfolding search_mounts
search_mounts-Leaves [] method request found h =
    ap (λ (b : Bool). record found { path_exists = b }) (sym (or_false found.path_exists))
search_mounts-Leaves (mount ∷ mounts) method request found h =
    elim (Bool-cases (prefix_segments_match mount.prefix_segments request)) [
      | inr outside ↦ rw outside (
          rw (unless_none found (search_mounts mounts method request found) h)
            (search_mounts-Leaves mounts method request found h))
      | inl inside ↦
          let offset = length mount.prefix_segments in
          let settled = search_routes-settle mount.routes method request offset found h in
          rw inside (
            rw
              (unless_none found
                (search_mounts mounts method request
                  (search_routes mount.routes method request offset found))
                h)
              (rw settled (
                Leaves-behind (with_offset offset (choice mount.routes method request offset)) _
                  mounts method request _ _ found h
                  (λ s none_yet. search_mounts-Leaves mounts method request s none_yet))))
    ]

-- What a request comes to, for the route chosen and its offset.
abbrev pub outcome_of :
    Option (HttpRoute × ℕ)
    → HttpMethod
    → List HttpRouteSegment
    → List HttpParam
    → Bytes
    → StaticResult
    → Bool
    → Outcome
outcome_of (some (route, offset)) method request params allow static any =
    called route.handler (binds_for route request offset params)
outcome_of none method request params allow static any =
    if same_method method options && ltb 0 (length allow)
    then answered allow
    else static_outcome static any

Leaves-outcome :
    (o : Option (HttpRoute × ℕ)) (routes : List HttpRoute) (mounts : List HttpRouterMount)
    (method : HttpMethod) (request : List HttpRouteSegment) (static : StaticResult) (any : Bool)
    (found after : Search)
    → found.handler ≡ none
    → found.path_exists ≡ false
    → Leaves o request any found after
    → after_search routes mounts method request static after.handler after
      ≡ outcome_of o method request found.params
          (collect_allow routes mounts request 128)
          static
          any
unfolding after_search
Leaves-outcome (some (route, offset)) routes mounts method request static any found after h p l =
    rw (l.0, l.1)
Leaves-outcome none routes mounts method request static any found after h p l = rw (l, h, p)

-- The handler that is called is that of the first route, in the order of registration, whose
-- pattern matches and whose method is the request's; the server's routes are asked first, then
-- those of each router whose prefix the request has, in the order of the mounts, and within each
-- list HEAD falls back to GET. It gets the parameters of its own match. Where there is none,
-- OPTIONS is answered with the methods of the path, if it has any; else the static mounts decide,
-- and if they have nothing either it is 405 when some route of another method matches, 404 when
-- none does.
pub execute_handler-outcome :
    (name : Bytes) (method : HttpMethod) (routes : List HttpRoute) (mounts : List HttpRouterMount)
    (request : List HttpRouteSegment) (params : List HttpParam) (static : StaticResult)
    → string_to_http_method name ≡ some method
    → let lists = (routes, 0) ∷ asked mounts request in
      execute_handler name routes mounts request params static
      ≡ outcome_of
          (chosen lists method request)
          method
          request
          params
          (collect_allow routes mounts request 128)
          static
          (any_asked lists request)
unfolding execute_handler
execute_handler-outcome name method routes mounts request params static known =
    let start : Search = record { handler = none; params = params; path_exists = false } in
    rw known (
      rw (search_routes-settle routes method request 0 start refl) (
        Leaves-outcome _ routes mounts method request static _ start _ refl refl (
          Leaves-behind (with_offset 0 (choice routes method request 0)) _ mounts method request _ _
            start refl (λ s none_yet. search_mounts-Leaves mounts method request s none_yet))))

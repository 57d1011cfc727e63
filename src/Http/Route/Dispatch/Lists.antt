-- ===== src/Http/Route/Dispatch/Lists.antt =====
-- The search for a route within one list, and the lists that are asked.
use c_http.Base.{
  ℕ, ◌≡◌, ◌⊎◌, refl, ap, sym, ◌∙◌, Bool, true, false, ◌&&◌, ◌||◌, List, [], ◌∷◌, Option, none, some,
  if◌then◌else◌, length, inl, inr, Bool-cases,
}
use c_http.Http.Method.{HttpMethod, get, head}
use c_http.Http.Route.{HttpRouteSegment, prefix_segments_match}
use c_http.Http.Route.Dispatch.{
  HttpRoute, HttpRouterMount, same_method, binds_for, tests, Search, find_route, find_get, if_none,
  unless_found, search_routes,
}

-- The first route of the method whose pattern matches from the offset on.
abbrev pub first_with : List HttpRoute → HttpMethod → List HttpRouteSegment → ℕ → Option HttpRoute
first_with [] method request offset = none
first_with (route ∷ routes) method request offset =
    if tests route request offset && same_method route.method method
    then some route
    else first_with routes method request offset

abbrev pub any_tests : List HttpRoute → List HttpRouteSegment → ℕ → Bool
any_tests [] request offset = false
any_tests (route ∷ routes) request offset =
    tests route request offset || any_tests routes request offset

abbrev pub or_first {ℓ} : {A : Type ℓ} → Option A → Option A → Option A
or_first none other = other
or_first (some a) other = some a

-- Within one list a HEAD request falls back to a GET route.
abbrev pub choice : List HttpRoute → HttpMethod → List HttpRouteSegment → ℕ → Option HttpRoute
choice routes method request offset =
    or_first (first_with routes method request offset)
      (if same_method method head then first_with routes get request offset else none)

abbrev pub with_offset : ℕ → Option HttpRoute → Option (HttpRoute × ℕ)
with_offset offset none = none
with_offset offset (some route) = some (route, offset)

-- The lists that are asked: the server's, then those of the routers below whose prefix the request
-- is, in the order of the mounts, each with the number of segments in front.
abbrev pub asked : List HttpRouterMount → List HttpRouteSegment → List (List HttpRoute × ℕ)
asked [] request = []
asked (mount ∷ mounts) request =
    if prefix_segments_match mount.prefix_segments request
    then (mount.routes, length mount.prefix_segments) ∷ asked mounts request
    else asked mounts request

abbrev pub chosen :
    List (List HttpRoute × ℕ) → HttpMethod → List HttpRouteSegment → Option (HttpRoute × ℕ)
chosen [] method request = none
chosen ((routes, offset) ∷ more) method request =
    or_first (with_offset offset (choice routes method request offset)) (chosen more method request)

abbrev pub any_asked : List (List HttpRoute × ℕ) → List HttpRouteSegment → Bool
any_asked [] request = false
any_asked ((routes, offset) ∷ more) request =
    any_tests routes request offset || any_asked more request

-- A search that found a route, or none.
abbrev pub settle : Option (HttpRoute × ℕ) → List HttpRouteSegment → Bool → Search → Search
settle none request any found = record found { path_exists = found.path_exists || any }
settle (some (route, offset)) request any found = record {
  handler = some route.handler;
  params = binds_for route request offset found.params;
  path_exists = found.path_exists || any;
}

or_true : (b : Bool) → (b || true) ≡ true
or_true true = refl
or_true false = refl

pub or_false : (b : Bool) → (b || false) ≡ b
or_false true = refl
or_false false = refl

pub or_assoc : (a b c : Bool) → ((a || b) || c) ≡ (a || (b || c))
or_assoc true b c = refl
or_assoc false b c = refl

settle_absorbs :
    (o : Option (HttpRoute × ℕ)) (request : List HttpRouteSegment) (any : Bool) (found : Search)
    → settle o request any (record found { path_exists = true }) ≡ settle o request true found
settle_absorbs none request any found =
    ap (λ (b : Bool). record found { path_exists = b }) (sym (or_true found.path_exists))
settle_absorbs (some (route, offset)) request any found =
    ap
      (λ (b : Bool). record {
        handler = some route.handler;
        params = binds_for route request offset found.params;
        path_exists = b;
      })
      (sym (or_true found.path_exists))

find_route-settle :
    (routes : List HttpRoute) (method : HttpMethod) (request : List HttpRouteSegment) (offset : ℕ)
    (found : Search)
    → find_route routes method request offset found
      ≡ settle
          (with_offset offset (first_with routes method request offset))
          request
          (any_tests routes request offset)
          found
unfolding find_route
find_route-settle [] method request offset found =
    ap (λ (b : Bool). record found { path_exists = b }) (sym (or_false found.path_exists))
find_route-settle (route ∷ routes) method request offset found =
    elim (Bool-cases (tests route request offset)) [
      | inr fails ↦ simp fails (find_route-settle routes method request offset found)
      | inl matches ↦ elim (Bool-cases (same_method route.method method)) [
        | inl same ↦ simp (matches, same, or_true found.path_exists)
        | inr other ↦
            simp (matches, other)
              (find_route-settle routes method request offset (record found { path_exists = true })
                ∙ settle_absorbs (with_offset offset (first_with routes method request offset))
                    request _ found)
      ]
    ]

-- The fallback leaves `path_exists`.
abbrev settle_get : Option (HttpRoute × ℕ) → List HttpRouteSegment → Search → Search
settle_get none request found = found
settle_get (some (route, offset)) request found = record found {
  handler = some route.handler;
  params = binds_for route request offset found.params;
}

find_get-settle_get :
    (routes : List HttpRoute) (request : List HttpRouteSegment) (offset : ℕ) (found : Search)
    → find_get routes request offset found
      ≡ settle_get (with_offset offset (first_with routes get request offset)) request found
unfolding find_get
find_get-settle_get [] request offset found = refl
find_get-settle_get (route ∷ routes) request offset found =
    elim (Bool-cases (tests route request offset)) [
      | inr fails ↦ simp fails (find_get-settle_get routes request offset found)
      | inl matches ↦ elim (Bool-cases (same_method route.method get)) [
        | inl same ↦ simp (matches, same)
        | inr other ↦ simp (matches, other) (find_get-settle_get routes request offset found)
      ]
    ]

settle_get-settle :
    (o : Option (HttpRoute × ℕ)) (request : List HttpRouteSegment) (any : Bool) (found : Search)
    → settle_get o request (settle none request any found) ≡ settle o request any found
settle_get-settle none request any found = refl
settle_get-settle (some (route, offset)) request any found = refl

pub unless_none : (found other : Search) → found.handler ≡ none → unless_found found other ≡ other
unless_none found other h = ap (λ (o : Option ℕ). if_none o other found) h

pub unless_some :
    (found other : Search) (n : ℕ) → found.handler ≡ some n → unless_found found other ≡ found
unless_some found other n h = ap (λ (o : Option ℕ). if_none o other found) h

pub search_routes-settle :
    (routes : List HttpRoute) (method : HttpMethod) (request : List HttpRouteSegment) (offset : ℕ)
    (found : Search)
    → found.handler ≡ none
    → search_routes routes method request offset found
      ≡ settle
          (with_offset offset (choice routes method request offset))
          request
          (any_tests routes request offset)
          found
unfolding search_routes
search_routes-settle routes method request offset found start =
    simp (find_route-settle routes method request offset found)
      (by_first (first_with routes method request offset))
  where
    fallback :
        (same_method method head ≡ true) ⊎ (same_method method head ≡ false)
        → (if same_method method head
            then find_get routes request offset
                (settle none request (any_tests routes request offset) found)
            else settle none request (any_tests routes request offset) found)
          ≡ settle
              (with_offset offset
                (if same_method method head then first_with routes get request offset else none))
              request
              (any_tests routes request offset)
              found
    fallback (inr other) = rw other
    fallback (inl is_head) = rw is_head (
        find_get-settle_get routes request offset _
        ∙ settle_get-settle (with_offset offset (first_with routes get request offset)) request _
            found)

    by_first :
        (o : Option HttpRoute)
        → unless_found
            (settle (with_offset offset o) request (any_tests routes request offset) found)
            (if same_method method head
              then find_get routes request offset
                  (settle (with_offset offset o) request (any_tests routes request offset) found)
              else settle (with_offset offset o) request (any_tests routes request offset) found)
          ≡ settle
              (with_offset offset (
                or_first o
                  (if same_method method head then first_with routes get request offset else none)))
              request
              (any_tests routes request offset)
              found
    by_first (some route) = refl
    by_first none =
        unless_none (settle none request (any_tests routes request offset) found) _ start
        ∙ fallback (Bool-cases (same_method method head))

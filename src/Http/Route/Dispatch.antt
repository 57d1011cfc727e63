-- ===== src/Http/Route/Dispatch.antt =====
-- `execute_handler` of src/c_http.c: from a request to its handler. The answer of
-- `http_static_dispatch` is a parameter.
pub mod Lists
pub mod Chosen
use c_http.Base.{
  ℕ, zero, suc, ◌+◌, Bool, true, false, not, ◌&&◌, ◌||◌, List, [], ◌∷◌, ◌++◌, Option, none, some,
  if◌then◌else◌, ◌==◌, ltb, leb, Bytes, codes, length, str_eq,
}
use c_http.Http.Method.{HttpMethod, get, head, options, method_name, string_to_http_method}
use c_http.Http.Route.{
  HttpRouteSegment, HttpParam, segments_match_at, http_segments_match, prefix_segments_match,
}

-- A handler is a number.
pub record HttpRoute : Type 0 where
  pub path : Bytes
  pub handler : ℕ
  pub method : HttpMethod
  pub route_segments : List HttpRouteSegment

pub record HttpRouterMount : Type 0 where
  pub prefix_segments : List HttpRouteSegment
  pub routes : List HttpRoute

pub data StaticResult : Type 0 where
  served static_method_not_allowed not_matched : StaticResult

pub data HandlerResult : Type 0 where
  handler_ok handler_not_found handler_method_not_allowed handler_not_implemented : HandlerResult

-- `a == b` on methods
abbrev pub same_method : HttpMethod → HttpMethod → Bool
same_method a b = str_eq (method_name a) (method_name b)

abbrev pub is_some : Option (List HttpParam) → Bool
is_some none = false
is_some (some params) = true

-- What a binding leaves in `req->params`: nothing new when it fails.
abbrev pub bound_or_kept : Option (List HttpParam) → List HttpParam → List HttpParam
bound_or_kept none params = params
bound_or_kept (some bound) params = bound

abbrev pub binds_for : HttpRoute → List HttpRouteSegment → ℕ → List HttpParam → List HttpParam
binds_for route request offset params =
    bound_or_kept (segments_match_at true route.route_segments request offset) params

abbrev pub tests : HttpRoute → List HttpRouteSegment → ℕ → Bool
tests route request offset = is_some (segments_match_at false route.route_segments request offset)

-- The state of the search: the handler with its parameters, and whether any path matched.
pub record Search : Type 0 where
  pub handler : Option ℕ
  pub params : List HttpParam
  pub path_exists : Bool

-- The first loop over a list of routes, which stops at a route of the method.
unfoldable pub find_route :
    List HttpRoute → HttpMethod → List HttpRouteSegment → ℕ → Search → Search
find_route [] method request offset found = found
find_route (route ∷ routes) method request offset found =
    let next = find_route routes method request offset found in
    let matched = find_route routes method request offset (record found { path_exists = true }) in
    if not (tests route request offset)
    then next
    else if same_method route.method method
    then record {
      handler = some route.handler;
      params = binds_for route request offset found.params;
      path_exists = true;
    }
    else matched

-- The loop of the HEAD fallback, which leaves `path_exists` alone.
unfoldable pub find_get : List HttpRoute → List HttpRouteSegment → ℕ → Search → Search
find_get [] request offset found = found
find_get (route ∷ routes) request offset found =
    let next = find_get routes request offset found in
    if not (tests route request offset) || not (same_method route.method get)
    then next
    else record found {
      handler = some route.handler;
      params = binds_for route request offset found.params;
    }

abbrev pub if_none : Option ℕ → Search → Search → Search
if_none none other found = other
if_none (some handler) other found = found

-- What is done only while there is no handler.
abbrev pub unless_found : Search → Search → Search
unless_found found other = if_none found.handler other found

-- A list of routes: the loop, then for HEAD the fallback.
unfoldable pub search_routes :
    List HttpRoute → HttpMethod → List HttpRouteSegment → ℕ → Search → Search
search_routes routes method request offset found =
    let first = find_route routes method request offset found in
    unless_found first
      (if same_method method head then find_get routes request offset first else first)

-- The loop over the mounted routers.
unfoldable pub search_mounts :
    List HttpRouterMount → HttpMethod → List HttpRouteSegment → Search → Search
search_mounts [] method request found = found
search_mounts (mount ∷ mounts) method request found =
    let offset = length mount.prefix_segments in
    let inside = search_routes mount.routes method request offset found in
    let next = search_mounts mounts method request found in
    let behind = search_mounts mounts method request inside in
    unless_found found
      (if not (prefix_segments_match mount.prefix_segments request) then next else behind)

-- `allow_append`, with the text in the buffer of `size` bytes.
unfoldable pub allow_append : Bytes → ℕ → Bytes → Bytes
allow_append allow size name =
    if ltb 0 (length allow)
    then (if leb size (length allow + 2 + length name)
        then allow
        else allow ++ (b',' ∷ b' ' ∷ name))
    else if leb size (length allow + length name)
    then allow
    else allow ++ name

-- The loop of `collect_allow` over a list of routes.
unfoldable pub collect_routes : List HttpRoute → List HttpRouteSegment → ℕ → ℕ → Bytes → Bytes
collect_routes [] request offset size allow = allow
collect_routes (route ∷ routes) request offset size allow =
    let next = collect_routes routes request offset size allow in
    let more =
      collect_routes routes request offset size
        (allow_append allow size (method_name route.method)) in
    if not (tests route request offset) then next else more

unfoldable pub collect_mounts : List HttpRouterMount → List HttpRouteSegment → ℕ → Bytes → Bytes
collect_mounts [] request size allow = allow
collect_mounts (mount ∷ mounts) request size allow =
    let offset = length mount.prefix_segments in
    let next = collect_mounts mounts request size allow in
    let more =
      collect_mounts mounts request size (collect_routes mount.routes request offset size allow) in
    if not (prefix_segments_match mount.prefix_segments request) then next else more

unfoldable pub collect_allow :
    List HttpRoute → List HttpRouterMount → List HttpRouteSegment → ℕ → Bytes
collect_allow routes mounts request size =
    collect_mounts mounts request size (collect_routes routes request 0 size [])

-- What the request comes to: a handler that is called with these parameters, an answer to OPTIONS
-- with this Allow header, or a result without either.
pub data Outcome : Type 0 where
  called : (handler : ℕ) → (params : List HttpParam) → Outcome
  answered : (allow : Bytes) → Outcome
  left : HandlerResult → Outcome

abbrev pub static_outcome : StaticResult → Bool → Outcome
static_outcome served path_exists = left handler_ok
static_outcome static_method_not_allowed path_exists = left handler_method_not_allowed
static_outcome not_matched path_exists =
    left (if path_exists then handler_method_not_allowed else handler_not_found)

-- What follows the search.
unfoldable pub after_search :
    List HttpRoute
    → List HttpRouterMount
    → HttpMethod
    → List HttpRouteSegment
    → StaticResult
    → Option ℕ
    → Search
    → Outcome
after_search routes mounts method request static (some handler) found = called handler found.params
after_search routes mounts method request static none found =
    let allow = collect_allow routes mounts request 128 in
    if same_method method options && ltb 0 (length allow)
    then answered allow
    else static_outcome static found.path_exists

-- `execute_handler`, with the parameters that are in the request before.
abbrev pub dispatch_method :
    Option HttpMethod
    → List HttpRoute
    → List HttpRouterMount
    → List HttpRouteSegment
    → List HttpParam
    → StaticResult
    → Outcome
dispatch_method none routes mounts request params static = left handler_not_implemented
dispatch_method (some method) routes mounts request params static =
    let start : Search = record { handler = none; params = params; path_exists = false } in
    let found = search_mounts mounts method request (search_routes routes method request 0 start) in
    after_search routes mounts method request static found.handler found

unfoldable pub execute_handler :
    Bytes
    → List HttpRoute
    → List HttpRouterMount
    → List HttpRouteSegment
    → List HttpParam
    → StaticResult
    → Outcome
execute_handler method routes mounts request params static =
    dispatch_method (string_to_http_method method) routes mounts request params static

-- ===== src/Http/Route/Register.antt =====
-- Registering a route: `add_route_to` of src/c_http.c.
pub mod Parsed
pub mod Valid
use c_http.Base.{
  ℕ, zero, suc, ◌+◌, ◌*◌, Bool, true, false, not, ◌&&◌, ◌||◌, List, [], ◌∷◌, ◌++◌, Option, none,
  some, if◌then◌else◌, ◌==◌, ltb, leb, Bytes, length, str_eq, str_has,
}
use c_http.Http.Method.{HttpMethod}
use c_http.Http.Route.{
  HttpRouteSegment, HttpRouteSegments, http_max_params, http_parse_route_segments,
}
use c_http.Http.Route.Dispatch.{HttpRoute, same_method}

pub data HttpRouteAddResult : Type 0 where
  add_ok add_conflict add_error : HttpRouteAddResult

-- `count` is the length of `routes`.
pub record HttpRoutes : Type 0 where
  pub routes : List HttpRoute
  pub capacity : ℕ

abbrev pub http_path_max : ℕ
http_path_max = 512

-- sizeof(HttpRoute)
abbrev pub sizeof_route : ℕ
sizeof_route = 48

-- Room for one more: the new capacity, or `none` when realloc() fails.
abbrev pub grow_routes : (ℕ → Bool) → HttpRoutes → Option ℕ
grow_routes mem r =
    if length r.routes == r.capacity
    then (let new_cap = if r.capacity == 0 then 8 else r.capacity * 2 in
        if mem (new_cap * sizeof_route) then some new_cap else none)
    else some r.capacity

-- The loop that looks for a route of the same method and path.
unfoldable pub has_conflict : List HttpRoute → HttpMethod → Bytes → Bool
has_conflict [] method path = false
has_conflict (r ∷ routes) method path =
    (same_method r.method method && str_eq r.path path) || has_conflict routes method path

-- The inner loop: a parameter of the same name in front.
unfoldable pub has_param : List HttpRouteSegment → Bytes → Bool
has_param [] name = false
has_param (s ∷ segments) name = (s.is_param && str_eq s.text name) || has_param segments name

-- The loop that validates the parameters, with those in front and their number.
unfoldable pub params_valid : List HttpRouteSegment → ℕ → List HttpRouteSegment → Bool
params_valid front count [] = true
params_valid front count (s ∷ segments) =
    let skip = params_valid (front ++ (s ∷ [])) count segments in
    let next = params_valid (front ++ (s ∷ [])) (count + 1) segments in
    if not s.is_param
    then skip
    else if ltb http_max_params (count + 1) || leb 32 (length s.text)
    then false
    else if has_param front s.text
    then false
    else next

-- The slot behind the parsed path.
abbrev pub add_parsed :
    HttpRoutes → Bytes → ℕ → HttpMethod → Option HttpRouteSegments → HttpRoutes × HttpRouteAddResult
add_parsed r path handler method none = (r, add_error)
add_parsed r path handler method (some s) =
    let slot : HttpRoute = record {
      path = path;
      handler = handler;
      method = method;
      route_segments = s.segments;
    } in
    if params_valid [] 0 s.segments
    then (record r { routes = r.routes ++ (slot ∷ []) }, add_ok)
    else (r, add_error)

-- What follows the growth of the array.
abbrev pub add_grown :
    (ℕ → Bool) → HttpRoutes → Bytes → ℕ → HttpMethod → Option ℕ → HttpRoutes × HttpRouteAddResult
add_grown mem r path handler method none = (r, add_error)
add_grown mem r path handler method (some cap) =
    if has_conflict r.routes method path
    then (record r { capacity = cap }, add_conflict)
    else if not (mem (length path + 1))
    then (record r { capacity = cap }, add_error)
    else add_parsed (record r { capacity = cap }) path handler method
        (http_parse_route_segments mem path)

unfoldable pub add_route_to :
    (ℕ → Bool) → HttpRoutes → Bytes → ℕ → HttpMethod → HttpRoutes × HttpRouteAddResult
add_route_to mem r path handler method =
    if leb http_path_max (length path)
    then (r, add_error)
    else if str_has b'?' path
    then (r, add_error)
    else add_grown mem r path handler method (grow_routes mem r)

-- ===== src/Http/Route.antt =====
-- Route patterns of src/c_http.c: parsing, matching, registration.
pub mod Match
pub mod Format
pub mod Slashes
pub mod Colons
pub mod Register
pub mod Dispatch
pub mod Tests
use c_http.Base.{
  ℕ, zero, suc, ◌+◌, ◌-◌, ◌*◌, Bool, true, false, not, ◌&&◌, ◌||◌, List, [], ◌∷◌, ◌++◌, Option,
  none, some, if◌then◌else◌, ◌==◌, ltb, leb, Bytes, length, take, drop, get_or, deref, advance,
  take_while, drop_while, str_eq, str_has, starts_with,
}
use c_http.Http.Method.{HttpMethod, method_name}

pub record HttpRouteSegment : Type 0 where
  pub text : Bytes
  pub is_param : Bool

-- `count` is the length of `segments`.
pub record HttpRouteSegments : Type 0 where
  pub segments : List HttpRouteSegment
  pub capacity : ℕ

-- sizeof(HttpRouteSegment): the text and a bool
abbrev pub sizeof_segment : ℕ
sizeof_segment = 65

abbrev pub not_slash : ℕ → Bool
not_slash c = not (c == b'/')

-- The array behind a store: it is grown when that has filled it.
abbrev pub grow_segments : (ℕ → Bool) → HttpRouteSegments → Option HttpRouteSegments
grow_segments mem s =
    if length s.segments == s.capacity
    then (if mem (s.capacity * 2 * sizeof_segment)
        then some (record s { capacity = s.capacity * 2 })
        else none)
    else some s

abbrev pub push_segment : HttpRouteSegments → Bool → Bytes → HttpRouteSegments
push_segment s is_param text = record s {
  segments = s.segments ++ (record { text = text; is_param = is_param } ∷ []);
}

abbrev pub then_loop :
    Option HttpRouteSegments
    → (HttpRouteSegments → Option HttpRouteSegments)
    → Option HttpRouteSegments
then_loop none again = none
then_loop (some s) again = again s

-- The body of the loop, with `p` behind the slash and behind the colon of a parameter.
abbrev pub segment_at :
    (ℕ → Bool)
    → Bool
    → Bytes
    → HttpRouteSegments
    → (HttpRouteSegments → Option HttpRouteSegments)
    → Option HttpRouteSegments
segment_at mem is_param p s again =
    let text = take_while not_slash p in
    let len = length text in
    if len == 0 && not is_param
    then again s
    else if len == 0
    then none
    else if leb 64 len
    then none
    else then_loop (grow_segments mem (push_segment s is_param text)) again

-- `behind` is the text that strchr() found, from its slash on.
abbrev pub at_slash :
    (ℕ → Bool)
    → (Bytes → HttpRouteSegments → Option HttpRouteSegments)
    → Bytes
    → HttpRouteSegments
    → Option HttpRouteSegments
at_slash mem again [] s = some s
at_slash mem again (slash ∷ p) s =
    let is_param = deref p == b':' in
    let q = if is_param then advance p else p in segment_at mem is_param q s (again q)

-- The loop; each round takes a slash.
unfoldable pub segments_loop : ℕ → (ℕ → Bool) → Bytes → HttpRouteSegments → Option HttpRouteSegments
segments_loop zero mem p s = none
segments_loop (suc fuel) mem p s = at_slash mem (segments_loop fuel mem) (drop_while not_slash p) s

-- `none` is `false`.
unfoldable pub http_parse_route_segments : (ℕ → Bool) → Bytes → Option HttpRouteSegments
http_parse_route_segments mem pattern =
    if mem (8 * sizeof_segment)
    then segments_loop (suc (length pattern)) mem pattern (record { segments = []; capacity = 8 })
    else none

pub record HttpParam : Type 0 where
  pub key : Bytes
  pub value : Bytes

abbrev pub http_max_params : ℕ
http_max_params = 16

-- The loop of `segments_match_at` with the parameters bound so far; `binds` is `params != NULL`.
-- Both lists have the same length.
unfoldable pub match_loop :
    Bool → List HttpRouteSegment → List HttpRouteSegment → List HttpParam → Option (List HttpParam)
match_loop binds [] cur bound = some bound
match_loop binds (p ∷ pattern) [] bound = none
match_loop binds (p ∷ pattern) (c ∷ cur) bound =
    let next = match_loop binds pattern cur bound in
    let with_param =
      match_loop binds pattern cur (bound ++ (record { key = p.text; value = c.text } ∷ [])) in
    if p.is_param
    then (if not binds
        then next
        else if leb http_max_params (length bound)
        then none
        else if leb 32 (length p.text)
        then none
        else if leb 64 (length c.text)
        then none
        else with_param)
    else if not (str_eq p.text c.text)
    then none
    else next

-- `none` is `false`; a match has the parameters that it has bound.
unfoldable pub segments_match_at :
    Bool → List HttpRouteSegment → List HttpRouteSegment → ℕ → Option (List HttpParam)
segments_match_at binds pattern request offset =
    if ltb (length request) offset
    then none
    else if not (length pattern == length request - offset)
    then none
    else match_loop binds pattern (drop offset request) []

unfoldable pub http_segments_match :
    Bool → List HttpRouteSegment → List HttpRouteSegment → Option (List HttpParam)
http_segments_match binds pattern request = segments_match_at binds pattern request 0

-- The loop of `prefix_segments_match`.
unfoldable pub prefix_loop : List HttpRouteSegment → List HttpRouteSegment → Bool
prefix_loop [] request = true
prefix_loop (p ∷ prefix) [] = false
prefix_loop (p ∷ prefix) (r ∷ request) =
    if not (str_eq p.text r.text) then false else prefix_loop prefix request

unfoldable pub prefix_segments_match : List HttpRouteSegment → List HttpRouteSegment → Bool
prefix_segments_match prefix request =
    if ltb (length request) (length prefix) then false else prefix_loop prefix request

-- `strncmp(reg_path, real_path, reg_len) == 0`, and what follows from there on.
abbrev pub path_from : Bytes → Bytes → Bool
path_from reg real =
    let reg_len = length reg in
    if reg_len == 0
    then true
    else if length real == 0
    then false
    else if not (starts_with real reg)
    then false
    else if length real == reg_len
    then true
    else if get_or reg (reg_len - 1) 0 == b'/'
    then true
    else get_or real reg_len 0 == b'/'

-- Whether a middleware for `reg_path` is run on `real_path`.
unfoldable pub path_matches : Bytes → Bytes → Bool
path_matches reg_path real_path =
    let reg_len = length reg_path in
    let shorter = take (reg_len - 1) reg_path in
    if ltb 1 reg_len && get_or reg_path (reg_len - 1) 0 == b'/'
    then path_from shorter real_path
    else path_from reg_path real_path

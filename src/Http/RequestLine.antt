-- ===== src/Http/RequestLine.antt =====
-- The request line: `parse_request_line` of src/c_http.c.
pub mod Parsed
pub mod Format
pub mod Tests
use c_http.Base.{
  ℕ, Bool, true, false, not, ◌&&◌, ◌||◌, List, [], ◌∷◌, if◌then◌else◌, ◌==◌, leb, Bytes, codes,
  length, take_while, drop_while, str_eq,
}
use c_http.Http.Fields.{is_valid_http_version}
use c_http.Http.Query.{HttpQueryParam, parse_query}

-- The fields that the request line fills.
pub record HttpRequest : Type 0 where
  pub method : Bytes
  pub path : Bytes
  pub version : Bytes
  pub query : List HttpQueryParam

abbrev pub status_bad_request : ℕ
status_bad_request = 400

abbrev pub status_uri_too_long : ℕ
status_uri_too_long = 414

abbrev pub status_not_implemented : ℕ
status_not_implemented = 501

abbrev pub status_version_not_supported : ℕ
status_version_not_supported = 505

abbrev pub not_space : ℕ → Bool
not_space c = not (c == b' ')

abbrev pub is_space : ℕ → Bool
is_space c = c == b' '

abbrev pub not_question : ℕ → Bool
not_question c = not (c == b'?')

-- The version, at `version`.
unfoldable pub read_version : HttpRequest → Bytes → HttpRequest × ℕ
read_version req version =
    let filled = record req { version = version } in
    if leb 16 (length version)
    then (req, status_version_not_supported)
    else if not (is_valid_http_version version)
    then (filled, status_bad_request)
    else if not (str_eq version (codes "HTTP/1.1")) && not (str_eq version (codes "HTTP/1.0"))
    then (filled, status_version_not_supported)
    else (filled, 0)

-- The query behind the question mark that strchr() found, or none.
abbrev pub read_query : HttpRequest → Bytes → HttpRequest
read_query req [] = req
read_query req (mark ∷ query) = record req { query = parse_query query }

-- The path in front of the query; `behind` follows the space behind the target.
abbrev pub read_path : HttpRequest → Bytes → Bytes → HttpRequest × ℕ
read_path req [] behind = (req, status_bad_request)
read_path req (c ∷ path) behind =
    if leb 512 (length (c ∷ path))
    then (req, status_uri_too_long)
    else read_version (record req { path = c ∷ path }) (drop_while is_space behind)

-- The target at `target`, and what strchr() found from its end on.
abbrev pub read_target : HttpRequest → Bytes → Bytes → HttpRequest × ℕ
read_target req target [] = (req, status_bad_request)
read_target req target (space ∷ behind) =
    read_path (read_query req (drop_while not_question target)) (take_while not_question target)
      behind

-- The method, and what strchr() found from its end on.
abbrev pub read_method : HttpRequest → Bytes → Bytes → HttpRequest × ℕ
read_method req method [] = (req, status_bad_request)
read_method req method (space ∷ rest) =
    let target = drop_while is_space rest in
    if leb 8 (length method)
    then (req, status_not_implemented)
    else read_target (record req { method = method }) (take_while not_space target)
        (drop_while not_space target)

-- The request, and 0 or the status of the response.
unfoldable pub parse_request_line : Bytes → HttpRequest → HttpRequest × ℕ
parse_request_line line req =
    read_method req (take_while not_space line) (drop_while not_space line)

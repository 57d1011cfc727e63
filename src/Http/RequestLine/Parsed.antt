-- ===== src/Http/RequestLine/Parsed.antt =====
-- What is accepted as a request line, and what it is read as.
use c_http.Base.{
  ℕ, ◌<◌, ◌≡◌, ◌≢◌, ◌⊎◌, inl, inr, refl, Bool, true, ◌&&◌, [], ◌∷◌, leb, Bytes, codes, length, all,
  take_while, drop_while, str_eq, str_eq_iff, arith, Bool-cases,
}
use c_http.Http.Fields.{is_valid_http_version}
use c_http.Http.RequestLine.{
  HttpRequest, not_space, is_space, not_question, read_version, read_query, read_path, read_target,
  read_method, parse_request_line,
}

pub data IsHttp1 : Bytes → Type 0 where
  http_1_1 : IsHttp1 (codes "HTTP/1.1")
  http_1_0 : IsHttp1 (codes "HTTP/1.0")

-- A request that a line without errors gives.
pub record IsParsed (req : HttpRequest) : Type 0 where
  pub method_fits : length req.method < 8
  pub method_whole : all not_space req.method ≡ true
  pub path_ne : req.path ≢ []
  pub path_fits : length req.path < 512
  pub path_whole : all not_question req.path && all not_space req.path ≡ true
  pub version_is : IsHttp1 req.version

all-take_while : (p : ℕ → Bool) (s : Bytes) → all p (take_while p s) ≡ true
all-take_while p [] = refl
all-take_while p (c ∷ s) = ground (arith, all-take_while p s)

all-take_while_other : (p q : ℕ → Bool) (s : Bytes) → all q s ≡ true → all q (take_while p s) ≡ true
all-take_while_other p q [] h = refl
all-take_while_other p q (c ∷ s) h = ground (arith, all-take_while_other p q s (ground arith))

-- Every result, by the status.
abbrev Ends : HttpRequest × ℕ → Type 0
Ends (req, status) = (status ≢ 0) ⊎ IsParsed req

read_version-Ends :
    (req : HttpRequest) (version : Bytes)
    → length req.method < 8
    → all not_space req.method ≡ true
    → req.path ≢ []
    → length req.path < 512
    → all not_question req.path && all not_space req.path ≡ true
    → Ends (read_version req version)
unfolding read_version
read_version-Ends req version m mw pn pf pw = elim (Bool-cases (leb 16 (length version))) [
  | inl long ↦ rw long (inl (λ e. omega (arith, e)))
  | inr fits ↦ elim (Bool-cases (is_valid_http_version version)) [
    | inr bad ↦ rw (fits, bad) (inl (λ e. omega (arith, e)))
    | inl good ↦ elim (Bool-cases (str_eq version (codes "HTTP/1.1"))) [
      | inl new ↦
          rw (fits, good, new)
            (inr (record {
              method_fits = m;
              method_whole = mw;
              path_ne = pn;
              path_fits = pf;
              path_whole = pw;
              version_is = rw ((str_eq_iff version (codes "HTTP/1.1")).0 new) http_1_1;
            }))
      | inr not_new ↦ elim (Bool-cases (str_eq version (codes "HTTP/1.0"))) [
        | inl old ↦
            rw (fits, good, not_new, old)
              (inr (record {
                method_fits = m;
                method_whole = mw;
                path_ne = pn;
                path_fits = pf;
                path_whole = pw;
                version_is = rw ((str_eq_iff version (codes "HTTP/1.0")).0 old) http_1_0;
              }))
        | inr neither ↦ rw (fits, good, not_new, neither) (inl (λ e. omega (arith, e)))
      ]
    ]
  ]
]

read_path-Ends :
    (req : HttpRequest) (path behind : Bytes)
    → length req.method < 8
    → all not_space req.method ≡ true
    → all not_question path && all not_space path ≡ true
    → Ends (read_path req path behind)
read_path-Ends req [] behind m mw pw = inl (λ e. omega (arith, e))
read_path-Ends req (c ∷ path) behind m mw pw = elim (Bool-cases (leb 512 (length (c ∷ path)))) [
  | inl long ↦ rw long (inl (λ e. omega (arith, e)))
  | inr fits ↦ rw fits (
      read_version-Ends (record req { path = c ∷ path }) (drop_while is_space behind) m mw (λ e. cc)
        (ground arith) pw)
]

read_query_method : (req : HttpRequest) (found : Bytes) → (read_query req found).method ≡ req.method
read_query_method req [] = refl
read_query_method req (mark ∷ query) = refl

read_target-Ends :
    (req : HttpRequest) (target behind : Bytes)
    → length req.method < 8
    → all not_space req.method ≡ true
    → all not_space target ≡ true
    → Ends (read_target req target behind)
read_target-Ends req target [] m mw t = inl (λ e. omega (arith, e))
read_target-Ends req target (space ∷ behind) m mw t =
    let same = read_query_method req (drop_while not_question target) in
    read_path-Ends _ (take_while not_question target) behind (rw same m) (rw same mw) (
      ground (
        arith,
        all-take_while not_question target,
        all-take_while_other not_question not_space target t,
      ))

read_method-Ends :
    (req : HttpRequest) (method behind : Bytes)
    → all not_space method ≡ true
    → Ends (read_method req method behind)
read_method-Ends req method [] mw = inl (λ e. omega (arith, e))
read_method-Ends req method (space ∷ rest) mw = elim (Bool-cases (leb 8 (length method))) [
  | inl long ↦ rw long (inl (λ e. omega (arith, e)))
  | inr fits ↦ rw fits (
      read_target-Ends (record req { method = method })
        (take_while not_space (drop_while is_space rest)) _ (ground arith) mw
        (all-take_while not_space (drop_while is_space rest)))
]

-- Whatever the line, it is answered by a status, or the request has a method of at most seven
-- characters, a path that is not empty, has at most 511 characters and neither a space nor a
-- question mark, and the version 1.1 or 1.0.
pub parse_request_line-IsParsed :
    (line : Bytes) (req : HttpRequest)
    → ((parse_request_line line req).1 ≢ 0) ⊎ IsParsed (parse_request_line line req).0
unfolding parse_request_line
parse_request_line-IsParsed line req =
    read_method-Ends req (take_while not_space line) (drop_while not_space line)
      (all-take_while not_space line)

-- ===== src/Http/RequestLine/Format.antt =====
-- A request line as a client writes it is read back.
use c_http.Base.{
  ℕ, ◌<◌, ◌≡◌, ◌≢◌, refl, ap, sym, ◌∙◌, Bool, true, false, List, [], ◌∷◌, ◌++◌, Option, none, some,
  append-nil, leb, Bytes, length, all, take_while, drop_while, take_while-append, drop_while-append,
  arith,
}
use c_http.Http.Fields.{is_valid_http_version}
use c_http.Http.Query.{HttpQueryParam, parse_query}
use c_http.Http.RequestLine.{
  HttpRequest, not_space, is_space, not_question, read_version, read_query, read_path,
  parse_request_line,
}
use c_http.Http.RequestLine.Parsed.{IsHttp1, http_1_1, http_1_0}

abbrev pub with_query : Bytes → Option Bytes → Bytes
with_query path none = path
with_query path (some query) = path ++ (b'?' ∷ query)

abbrev pub params_of : Option Bytes → List HttpQueryParam → List HttpQueryParam
params_of none params = params
params_of (some query) params = parse_query query

-- The line as a client writes it.
abbrev pub format_line : Bytes → Bytes → Option Bytes → Bytes → Bytes
format_line method path query version =
    method ++ (b' ' ∷ (with_query path query ++ (b' ' ∷ version)))

-- A text that stands in the line as a word.
pub record IsWord (s : Bytes) : Type 0 where
  pub filled : s ≢ []
  pub whole : all not_space s ≡ true

all-append : (p : ℕ → Bool) (s t : Bytes) → all p s ≡ true → all p t ≡ true → all p (s ++ t) ≡ true
all-append p [] t h k = k
all-append p (c ∷ s) t h k = ground (arith, all-append p s t (ground arith) k)

no_blank : (s t : Bytes) → IsWord s → drop_while is_space (s ++ t) ≡ s ++ t
no_blank [] t w = absurd (w.filled refl)
no_blank (c ∷ s) t w = let first : is_space c ≡ false = ground (arith, w.whole) in rw first

read_version-IsHttp1 :
    (req : HttpRequest) (version : Bytes)
    → IsHttp1 version
    → read_version req version ≡ (record req { version = version }, 0)
unfolding read_version is_valid_http_version
read_version-IsHttp1 req _ http_1_1 = refl
read_version-IsHttp1 req _ http_1_0 = refl

version_word : (version : Bytes) → IsHttp1 version → drop_while is_space version ≡ version
version_word _ http_1_1 = refl
version_word _ http_1_0 = refl

read_path-IsHttp1 :
    (req : HttpRequest) (path version : Bytes)
    → path ≢ []
    → length path < 512
    → IsHttp1 version
    → read_path req path version ≡ (record req { path = path; version = version }, 0)
read_path-IsHttp1 req [] version ne fits v = absurd (ne refl)
read_path-IsHttp1 req (c ∷ path) version ne fits v =
    let short : leb 512 (length (c ∷ path)) ≡ false = ground arith in
    rw (short, version_word version v)
      (read_version-IsHttp1 (record req { path = c ∷ path }) version v)

read_query-with_query :
    (req : HttpRequest) (path : Bytes) (query : Option Bytes)
    → all not_question path ≡ true
    → (read_query req (drop_while not_question (with_query path query))
        ≡ record req { query = params_of query req.query })
      × (take_while not_question (with_query path query) ≡ path)
read_query-with_query req path none h =
    let split = sym (append-nil path) in
    let after : drop_while not_question path ≡ [] =
      ap (drop_while not_question) split ∙ drop_while-append not_question path [] h tt in
    (
      ap (read_query req) after,
      ap (take_while not_question) split ∙ take_while-append not_question path [] h tt,
    )
read_query-with_query req path (some q) h = (
  ap (read_query req) (drop_while-append not_question path (b'?' ∷ q) h refl),
  take_while-append not_question path (b'?' ∷ q) h refl,
)

-- A method of one to seven characters, a path of one to 511 characters without a question mark,
-- with or without a query, and the version 1.1 or 1.0, with no space in any of them, are read back
-- from the line that is written with one space between them; the query is parsed.
pub parse_request_line-format_line :
    (method path : Bytes) (query : Option Bytes) (version : Bytes) (req : HttpRequest)
    → all not_space method ≡ true
    → length method < 8
    → IsWord (with_query path query)
    → path ≢ []
    → all not_question path ≡ true
    → length path < 512
    → IsHttp1 version
    → parse_request_line (format_line method path query version) req ≡ (
      record { method = method; path = path; version = version; query = params_of query req.query },
      0,
    )
unfolding parse_request_line
parse_request_line-format_line method path query version req m ms target pn pq pf v =
    let rest = with_query path query ++ (b' ' ∷ version) in
    let short : leb 8 (length method) ≡ false = ground arith in
    let (asked, in_front) = read_query-with_query (record req { method = method }) path query pq in
    rw
      (
        take_while-append not_space method (b' ' ∷ rest) m refl,
        drop_while-append not_space method (b' ' ∷ rest) m refl,
      )
      (rw (short, no_blank (with_query path query) (b' ' ∷ version) target)
        (rw
          (
            take_while-append not_space (with_query path query) (b' ' ∷ version) target.whole refl,
            drop_while-append not_space (with_query path query) (b' ' ∷ version) target.whole refl,
          )
          (rw (asked, in_front) (read_path-IsHttp1 _ path version pn pf v))))

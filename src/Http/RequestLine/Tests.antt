-- ===== src/Http/RequestLine/Tests.antt =====
-- Request lines at concrete inputs.
use c_http.Base.{◌≡◌, ◌≢◌, ◌⊎◌, refl, some, [], codes, arith}
use c_http.Http.RequestLine.{HttpRequest, parse_request_line}
use c_http.Http.RequestLine.Parsed.{IsParsed, http_1_1, parse_request_line-IsParsed}
use c_http.Http.RequestLine.Format.{
  with_query, params_of, format_line, IsWord, parse_request_line-format_line,
}

abbrev zeroed : HttpRequest
zeroed = record { method = []; path = []; version = []; query = [] }

parse_request_line-IsParsed_example :
    ((parse_request_line (codes "GET /a?b=1 HTTP/1.1") zeroed).1 ≢ 0)
    ⊎ IsParsed (parse_request_line (codes "GET /a?b=1 HTTP/1.1") zeroed).0
parse_request_line-IsParsed_example =
    parse_request_line-IsParsed (codes "GET /a?b=1 HTTP/1.1") zeroed

target-IsWord : IsWord (with_query (codes "/a") (some (codes "b=1")))
target-IsWord = record { filled = λ e. cc; whole = refl }

parse_request_line-format_line_example :
    parse_request_line
      (format_line (codes "GET") (codes "/a") (some (codes "b=1")) (codes "HTTP/1.1"))
      zeroed
    ≡ (
      record {
        method = codes "GET";
        path = codes "/a";
        version = codes "HTTP/1.1";
        query = params_of (some (codes "b=1")) [];
      },
      0,
    )
parse_request_line-format_line_example =
    parse_request_line-format_line (codes "GET") (codes "/a") (some (codes "b=1"))
      (codes "HTTP/1.1") zeroed refl (omega arith) target-IsWord (λ e. cc) refl (omega arith)
      http_1_1

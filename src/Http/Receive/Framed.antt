-- ===== src/Http/Receive/Framed.antt =====
-- Which header blocks announce a body.
use c_http.Base.{
  ℕ, ◌≡◌, Bool, true, false, ◌||◌, List, [], ◌∷◌, Option, none, some, if◌then◌else◌, ◌==◌, codes,
  str_case_eq,
}
use c_http.Http.Headers.{HttpHeader}
use c_http.Http.Receive.{parse_length, Framing}

abbrev pub is_te : HttpHeader → Bool
is_te x = str_case_eq x.key (codes "Transfer-Encoding")

abbrev pub is_length : HttpHeader → Bool
is_length x = str_case_eq x.key (codes "Content-Length")

abbrev pub same_length : Option ℕ → ℕ → Bool
same_length none n = false
same_length (some m) n = m == n

-- No Transfer-Encoding, and if it is a Content-Length then one of this value.
abbrev pub agrees : ℕ → HttpHeader → Bool
agrees n x =
    if is_te x then false else if is_length x then same_length (parse_length x.value) n else true

abbrev pub any_length : List HttpHeader → Bool
any_length [] = false
any_length (x ∷ headers) = is_length x || any_length headers

abbrev framing : Bool → Option ℕ → Framing
framing has_te len = record { bad = false; has_te = has_te; content_length = len }

-- What was read before is this value or nothing.
abbrev Consistent : ℕ → Option ℕ → Type 0
Consistent n none = Unit {0}
Consistent n (some k) = k ≡ n

abbrev given : Option ℕ → Bool
given none = false
given (some k) = true

-- ===== src/Http/Method/Names.antt =====
-- The two conversions are inverse to one another.
use c_http.Base.{◌≡◌, refl, ◌↔◌, some, Bytes, codes, str_eq_iff, arith}
use c_http.Http.Method.{
  HttpMethod, get, post, put, patch, delete, head, options, connect, trace, method_name,
  string_to_http_method,
}

-- A method's name is read back as the method.
string_to_http_method-method_name :
    (m : HttpMethod) → string_to_http_method (method_name m) ≡ some m
unfolding string_to_http_method method_name
string_to_http_method-method_name get = refl
string_to_http_method-method_name post = refl
string_to_http_method-method_name put = refl
string_to_http_method-method_name patch = refl
string_to_http_method-method_name delete = refl
string_to_http_method-method_name head = refl
string_to_http_method-method_name options = refl
string_to_http_method-method_name connect = refl
string_to_http_method-method_name trace = refl

method_name_of : (s : Bytes) (m : HttpMethod) → string_to_http_method s ≡ some m → s ≡ method_name m
unfolding string_to_http_method method_name
method_name_of s m h = ground (
  arith,
  str_eq_iff s (codes "GET"),
  str_eq_iff s (codes "POST"),
  str_eq_iff s (codes "PUT"),
  str_eq_iff s (codes "PATCH"),
  str_eq_iff s (codes "DELETE"),
  str_eq_iff s (codes "HEAD"),
  str_eq_iff s (codes "OPTIONS"),
  str_eq_iff s (codes "CONNECT"),
  str_eq_iff s (codes "TRACE"),
)

-- A text names a method exactly when it is that method's name, letter for letter.
string_to_http_method_iff :
    (s : Bytes) (m : HttpMethod) → (string_to_http_method s ≡ some m) ↔ (s ≡ method_name m)
string_to_http_method_iff s m =
    (method_name_of s m, λ e. rw e (string_to_http_method-method_name m))

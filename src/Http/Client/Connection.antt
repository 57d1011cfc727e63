-- ===== src/Http/Client/Connection.antt =====
-- The headers that a response has before the handlers run.
use c_http.Base.{
  ◌≡◌, refl, sym, ap, ◌∙◌, Bool, true, false, List, [], ◌∷◌, ◌++◌, append-nil, append_assoc, ltb,
  Bytes, codes, All, All-append, length, arith, inl, inr, Bool-cases,
}
use c_http.Http.Fields.{is_valid_header_name, header_value_has_injection}
use c_http.Http.Headers.{
  HttpHeader, HttpHeaders, grow_headers, append_header, apply_header, replace_first, replace_header,
}
use c_http.Http.Headers.Invariant.{IsClean}
use c_http.Http.Client.{
  HttpServer, apply_all, connection, server_header, security_headers, default_headers,
  empty_response, apply_default_headers, set_connection,
}

apply_header_clean :
    (h : HttpHeaders) (x : HttpHeader)
    → IsClean x
    → (apply_header (λ n. true) h x.key x.value).0.items ≡ h.items ++ (x ∷ [])
unfolding apply_header append_header grow_headers
apply_header_clean h x v = ground (arith, v.0, v.1)

apply_all_clean :
    (xs : List HttpHeader) (h : HttpHeaders)
    → All IsClean xs
    → (apply_all (λ n. true) h xs).items ≡ h.items ++ xs
apply_all_clean [] h v = sym (append-nil h.items)
apply_all_clean (x ∷ xs) h v =
    apply_all_clean xs (apply_header (λ n. true) h x.key x.value).0 v.1
    ∙ ap (λ (s : List HttpHeader). s ++ xs) (apply_header_clean h x v.0)
    ∙ append_assoc h.items (x ∷ []) xs

injection-append :
    (s t : Bytes)
    → header_value_has_injection s ≡ false
    → header_value_has_injection t ≡ false
    → header_value_has_injection (s ++ t) ≡ false
unfolding header_value_has_injection
injection-append [] t h k = k
injection-append (c ∷ s) t h k = ground (arith, injection-append s t)

security_headers-IsClean : All IsClean security_headers
unfolding is_valid_header_name header_value_has_injection
security_headers-IsClean = (
  (refl, refl),
  (
    (refl, refl),
    ((refl, refl), ((refl, refl), ((refl, refl), ((refl, refl), ((refl, refl), tt))))),
  ),
)

connection-safe : (persist : Bool) → header_value_has_injection (connection persist) ≡ false
unfolding header_value_has_injection
connection-safe true = refl
connection-safe false = refl

named :
    (is_valid_header_name (codes "Date") ≡ true)
    × (is_valid_header_name (codes "Connection") ≡ true)
    × (is_valid_header_name (codes "Server") ≡ true)
unfolding is_valid_header_name
named = (refl, refl, refl)

version_safe : header_value_has_injection (codes "/0.9.0") ≡ false
unfolding header_value_has_injection
version_safe = refl

server_header-IsClean :
    (name : Bytes) → header_value_has_injection name ≡ false → All IsClean (server_header name)
server_header-IsClean name h = elim (Bool-cases (ltb (length (name ++ codes "/0.9.0")) 64)) [
  | inl fits ↦ rw fits ((named.2, injection-append name (codes "/0.9.0") h version_safe), tt)
  | inr long ↦ rw long tt
]

default_headers-IsClean :
    (server : HttpServer) (persist : Bool)
    → header_value_has_injection server.app.date ≡ false
    → header_value_has_injection server.server_name ≡ false
    → All IsClean (default_headers server persist)
default_headers-IsClean server persist d n = (
  (named.0, d),
  (
    (named.1, connection-safe persist),
    All-append IsClean (server_header server.server_name) security_headers
        (server_header-IsClean server.server_name n) security_headers-IsClean,
  ),
)

replace_connection :
    (server : HttpServer) (persist : Bool) (h : HttpHeaders)
    → h.items ≡ default_headers server false
    → (replace_header (λ n. true) h (codes "Connection") (connection persist)).0.items
      ≡ default_headers server persist
unfolding replace_header replace_first
replace_connection server persist h e = rw e refl

-- With memory, and a date and a server name without line breaks, every response starts with the
-- same headers in the same order, the security headers among them, and with one Connection header,
-- which says keep-alive exactly when the connection will be kept.
set_connection-default_headers :
    (server : HttpServer) (persist : Bool)
    → server.mem ≡ (λ n. true)
    → header_value_has_injection server.app.date ≡ false
    → header_value_has_injection server.server_name ≡ false
    → (set_connection server
        (apply_default_headers server empty_response false)
        persist).headers.items
      ≡ default_headers server persist
unfolding apply_default_headers
set_connection-default_headers server persist m d n =
    let before = default_headers server false in
    rw m (
      replace_connection server persist (apply_all (λ n. true) empty_response.headers before)
        (apply_all_clean before empty_response.headers (default_headers-IsClean server false d n)))

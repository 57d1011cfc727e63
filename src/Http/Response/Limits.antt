-- ===== src/Http/Response/Limits.antt =====
-- Where `send_res` does not keep to the format.
use c_http.Base.{
  ℕ, zero, suc, ◌+◌, ◌≡◌, ◌≤◌, refl, sym, ap, ◌∙◌, true, false, [], ◌∷◌, ◌++◌, Bytes, codes, length,
  length-append, take, str_has, append_assoc, arith,
}
use c_http.Http.Fields.{all_name_chars, is_valid_header_name, header_value_has_injection}
use c_http.Http.Headers.{HttpHeader}
use c_http.Http.Headers.Invariant.{IsClean}
use c_http.Http.Response.Send.{header_line}

no_feed_append :
    (s t : Bytes)
    → str_has b'\n' s ≡ false
    → str_has b'\n' t ≡ false
    → str_has b'\n' (s ++ t) ≡ false
no_feed_append [] t h k = k
no_feed_append (c ∷ s) t h k = ground (arith, no_feed_append s t)

value_no_feed : (s : Bytes) → header_value_has_injection s ≡ false → str_has b'\n' s ≡ false
unfolding header_value_has_injection
value_no_feed [] h = refl
value_no_feed (c ∷ s) h = ground (arith, value_no_feed s)

chars_no_feed : (s : Bytes) → all_name_chars s ≡ true → str_has b'\n' s ≡ false
unfolding all_name_chars
chars_no_feed [] h = refl
chars_no_feed (c ∷ s) h = ground (arith, chars_no_feed s)

name_no_feed : (s : Bytes) → is_valid_header_name s ≡ true → str_has b'\n' s ≡ false
unfolding is_valid_header_name
name_no_feed [] h = cc
name_no_feed (c ∷ s) h = chars_no_feed (c ∷ s) h

take_no_feed :
    (n : ℕ) (s t : Bytes)
    → str_has b'\n' s ≡ false
    → n ≤ length s
    → str_has b'\n' (take n (s ++ t)) ≡ false
take_no_feed zero s t h k = refl
take_no_feed (suc n) [] t h k = absurd (omega (arith, k))
take_no_feed (suc n) (c ∷ s) t h k = ground (arith, take_no_feed n s t)

-- A header whose name and value together have 508 bytes or more, which every other part of the
-- library accepts, loses its line break: the line is cut in front of the line feed, so the client
-- joins the next header, or the end of the block, to it.
pub header_line_cut :
    (x : HttpHeader)
    → IsClean x
    → 508 ≤ length x.key + length x.value
    → str_has b'\n' (header_line x) ≡ false
header_line_cut x c h =
    let text = x.key ++ codes ": " ++ x.value in
    let sized = length-append text (b'\r' ∷ []) in
    let named = length-append (x.key ++ codes ": ") x.value in
    let front = length-append x.key (codes ": ") in
    let clean : str_has b'\n' (text ++ (b'\r' ∷ [])) ≡ false =
      no_feed_append text (b'\r' ∷ [])
        (no_feed_append (x.key ++ codes ": ") x.value
          (no_feed_append x.key (codes ": ") (name_no_feed x.key c.0) refl)
          (value_no_feed x.value c.1))
        refl in
    ap (λ s. str_has b'\n' (take 511 s)) (sym (append_assoc text (b'\r' ∷ []) (b'\n' ∷ [])))
    ∙ take_no_feed 511 (text ++ (b'\r' ∷ [])) (b'\n' ∷ []) clean
        (omega (arith, h, sized, named, front))

-- ===== src/Ws/Base64/Tests.antt =====
-- Concrete runs of the Base64 coder.
use c_http.Base.{◌/◌, ◌+◌, ◌*◌, ◌≡◌, refl, some, none, [], ◌∷◌, Bytes, codes, length, arith}
use c_http.Ws.Base64.{base64_encode, base64_decode}
use c_http.Ws.Base64.RoundTrip.{base64_decode-base64_encode}

encode_hello : base64_encode (codes "hello") 9 ≡ (8, some (codes "aGVsbG8="))
unfolding base64_encode
encode_hello = refl

decode_hello : base64_decode (codes "aGVsbG8=") 5 ≡ some (codes "hello")
unfolding base64_decode
decode_hello = refl

decode_bad : base64_decode (codes "aG=sbG8=") 50 ≡ none
unfolding base64_decode
decode_bad = refl

abbrev four_bytes : Bytes
four_bytes = 0 ∷ 255 ∷ 7 ∷ 128 ∷ []

base64_decode-base64_encode_example :
    (text : Bytes) × (base64_encode four_bytes 9 ≡ ((length four_bytes + 2) / 3 * 4, some text))
    × (length text ≡ (length four_bytes + 2) / 3 * 4)
    × (base64_decode text 4 ≡ some four_bytes)
base64_decode-base64_encode_example =
    base64_decode-base64_encode four_bytes 9 4 (λ e. cc)
      (omega arith, (omega arith, (omega arith, (omega arith, tt)))) (omega arith) (omega arith)

-- ===== src/Http/Json/Tests.antt =====
-- The theorems on the JSON reader at concrete inputs.
use c_http.Base.{◌≡◌, refl, ◌+◌, true, false, List, [], ◌∷◌, ◌++◌, some, codes, All, length, arith}
use c_http.Http.Json.{overrun, decoded, json_decode_string, http_req_json_string}
use c_http.Http.Json.Pieces.{
  Piece, plain, short, unicode, newline, piece_text, text_of, utf8, bytes_of, IsPiece,
}
use c_http.Http.Json.Written.{json_decode_string_overrun}
use c_http.Http.Json.Values.{
  string, number, array, object, no_values, value, no_members, member, word, word_true,
}
use c_http.Http.Json.Lookup.{
  JsonMember, IsMember, format_body, lookup, answer, http_req_json_string-format_body,
}

-- h, a line break, and an e with an acute accent
abbrev greeting : List Piece
greeting = plain b'h' ∷ short newline ∷ unicode false 0xe9 ∷ []

greeting-valid : All IsPiece greeting
greeting-valid = (
  record { printable = omega arith; not_quote = omega arith; not_backslash = omega arith },
  (
    tt,
    (record { no_nul = omega arith; four_digits = omega arith; not_surrogate = omega arith }, tt),
  ),
)

greeting_text : bytes_of greeting ≡ b'h' ∷ b'\n' ∷ 0xc3 ∷ 0xa9 ∷ []
greeting_text = refl

json_decode_string_overrun_example :
    json_decode_string
      (b'"' ∷ (text_of greeting ++ (piece_text (unicode true 0x20ac) ++ (b'"' ∷ []))))
      (length (bytes_of greeting) + length (utf8 0x20ac))
    ≡ overrun
json_decode_string_overrun_example =
    json_decode_string_overrun greeting true 0x20ac [] greeting-valid
      (record { no_nul = omega arith; four_digits = omega arith; not_surrogate = omega arith })

-- {"id" : [-1.5, {"a" : true}], "msg" : "h\n\u00e9"}, blanks included
abbrev members : List JsonMember
members =
    record {
      name = codes "id";
      value = array (
          value (number true b'1' (codes ".5"))
            (value (object (member (plain b'a' ∷ []) (word word_true) no_members)) no_values));
    }
    ∷ record { name = codes "msg"; value = string greeting }
    ∷ []

letter_a-valid : All IsPiece (plain b'a' ∷ [])
letter_a-valid =
    (record { printable = omega arith; not_quote = omega arith; not_backslash = omega arith }, tt)

members-valid : All IsMember members
members-valid = (
  record {
    name_plain = refl;
    value_valid = ((refl, refl), ((omega arith, letter_a-valid, tt, tt), tt));
  },
  (record { name_plain = refl; value_valid = greeting-valid }, tt),
)

http_req_json_string-format_body_example :
    http_req_json_string (some (format_body (codes " ") members)) (codes "msg") 5
    ≡ answer (lookup (codes "msg") members)
http_req_json_string-format_body_example =
    http_req_json_string-format_body (codes " ") members (codes "msg") 5 refl members-valid
      (omega arith) (omega arith)

msg_found : answer (lookup (codes "msg") members) ≡ decoded (bytes_of greeting)
msg_found = refl

-- ===== src/Http/Receive/Tests.antt =====
-- The theorems on reading at concrete inputs.
use c_http.Base.{refl, true, List, [], ◌∷◌, ◌++◌, some, codes, arith}
use c_http.Base.Decimal.{digits_value}
use c_http.Http.Headers.{HttpHeader}
use c_http.Http.Receive.{
  RecvResult, received, recv_interrupted, recv_failed, read_request, parse_length, framing_loop,
  read_body,
}
use c_http.Http.Receive.Complete.{IsReading, read_request-IsReading}
use c_http.Http.Receive.Bodies.{arriving, IsBody, Announces, read_body-IsBody}

-- The blank line comes in two chunks.
abbrev pub pieces : List RecvResult
pieces = received (codes "GET / HTTP/1.1\r\n\r") ∷ recv_interrupted ∷ received (codes "\nrest") ∷ []

read_request-IsReading_example :
    IsReading 4096 (read_request pieces 4096).buf (read_request pieces 4096).complete
read_request-IsReading_example =
    read_request-IsReading pieces 4096 (refl, (tt, (refl, tt))) (omega arith)

abbrev lengths : List HttpHeader
lengths =
    record { key = codes "content-length"; value = codes "5" }
    ∷ record { key = codes "Content-Length"; value = codes "5" }
    ∷ []

five : Announces lengths (some 5)
unfolding framing_loop parse_length digits_value
five = refl

abbrev chunks : List RecvResult
chunks = received (codes "l") ∷ recv_interrupted ∷ received (codes "lo") ∷ []

read_body-IsBody_example :
    IsBody
      (codes "he" ++ arriving (recv_failed ∷ []))
      5
      (read_body (λ n. true) (recv_failed ∷ []) (codes "he") lengths)
read_body-IsBody_example =
    read_body-IsBody (λ n. true) (recv_failed ∷ []) (codes "he") lengths 5 five

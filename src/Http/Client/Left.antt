-- ===== src/Http/Client/Left.antt =====
-- What the parsing of a request leaves of the socket's outcomes.
use c_http.Base.{
  ℕ, ◌+◌, ◌-◌, ◌≤◌, ◌≡◌, refl, Bool, true, false, not, List, [], ◌∷◌, ◌++◌, Option, none, some,
  if◌then◌else◌, ◌==◌, ltb, Bytes, length, take, drop, arith,
}
use c_http.Http.Headers.{HttpHeader, HttpHeaders}
use c_http.Http.HeaderBlock.{parse_headers}
use c_http.Http.Receive.{
  RecvResult, received, recv_interrupted, recv_failed, blank_line, c_string, http_max_body,
  framing_loop, ReadBody, body_loop, framed_body, read_body,
}
use c_http.Http.RequestLine.{HttpRequest, parse_request_line}
use c_http.Http.Response.Send.{crlf}
use c_http.Http.Client.{
  Call, find_sub, ParsedRequest, refused, ready, no_line, no_call, with_body, with_headers,
  with_line, with_ends, parse_request, recvs_of,
}

module _ (n : ℕ) where
  -- The outcomes that a call leaves are at most `n`.
  abbrev Few : ReadBody → Type 0
  Few r = length r.recvs ≤ n

  Few-if :
      (b : Bool) (r s : ReadBody)
      → (b ≡ true → Few r)
      → (b ≡ false → Few s)
      → Few (if b then r else s)
  Few-if true r s h k = h refl
  Few-if false r s h k = k refl

  body_loop-Few :
      (recvs : List RecvResult) (len : ℕ) (got : Bytes)
      → length recvs ≤ n
      → Few (body_loop recvs len got)
  unfolding body_loop
  body_loop-Few [] len got h = Few-if (ltb (length got) len) _ _ (λ _. h) (λ _. h)
  body_loop-Few (recv_failed ∷ recvs) len got h =
      Few-if (ltb (length got) len) _ _ (λ _. omega (arith, h)) (λ _. h)
  body_loop-Few (recv_interrupted ∷ recvs) len got h =
      Few-if (ltb (length got) len) _ _ (λ _. body_loop-Few recvs len got (omega (arith, h)))
        (λ _. h)
  body_loop-Few (received bytes ∷ recvs) len got h =
      let chunk = take (len - length got) bytes in
      Few-if (not (ltb (length got) len)) _ _ (λ _. h)
        (λ _.
          Few-if (length chunk == 0) (record { body = none; status = 400; recvs = recvs })
            (body_loop recvs len (got ++ chunk)) (λ _. omega (arith, h))
            (λ _. body_loop-Few recvs len (got ++ chunk) (omega (arith, h))))

  framed_body-Few :
      (mem : ℕ → Bool) (recvs : List RecvResult) (leftover : Bytes) (len : Option ℕ)
      → length recvs ≤ n
      → Few (framed_body mem recvs leftover len)
  framed_body-Few mem recvs leftover none h = h
  framed_body-Few mem recvs leftover (some len) h =
      let fourth = body_loop recvs len leftover in
      let smuggled : ReadBody = record { body = none; status = 400; recvs = recvs } in
      let no_memory : ReadBody = record { body = none; status = 500; recvs = recvs } in
      let third = if ltb len (length leftover) then smuggled else fourth in
      let second = if not (mem (len + 1)) then no_memory else third in
      Few-if (ltb http_max_body len) (record { body = none; status = 413; recvs = recvs }) second
        (λ _. h)
        (λ _.
          Few-if (not (mem (len + 1))) no_memory third (λ _. h)
            (λ _.
              Few-if (ltb len (length leftover)) smuggled fourth (λ _. h)
                (λ _. body_loop-Few recvs len leftover h)))

  read_body-Few :
      (mem : ℕ → Bool) (recvs : List RecvResult) (leftover : Bytes) (headers : List HttpHeader)
      → length recvs ≤ n
      → Few (read_body mem recvs leftover headers)
  unfolding read_body
  read_body-Few mem recvs leftover headers h =
      let f = framing_loop headers false none in
      let encoded : ReadBody = record { body = none; status = 501; recvs = recvs } in
      let last = framed_body mem recvs leftover f.content_length in
      Few-if f.bad (record { body = none; status = 400; recvs = recvs })
        (if f.has_te then encoded else last) (λ _. h)
        (λ _.
          Few-if f.has_te encoded last (λ _. h)
            (λ _. framed_body-Few mem recvs leftover f.content_length h))

  abbrev pub FewLeft : ParsedRequest → Type 0
  FewLeft p = length (recvs_of p) ≤ n

  FewLeft-if :
      (b : Bool) (r s : ParsedRequest)
      → (b ≡ true → FewLeft r)
      → (b ≡ false → FewLeft s)
      → FewLeft (if b then r else s)
  FewLeft-if true r s h k = h refl
  FewLeft-if false r s h k = k refl

  with_headers-FewLeft :
      (mem : ℕ → Bool) (recvs : List RecvResult) (leftover : Bytes) (call : Call)
      (h : HttpHeaders × ℕ)
      → length recvs ≤ n
      → FewLeft (with_headers mem recvs leftover call h)
  with_headers-FewLeft mem recvs leftover call (h, status) few =
      let r = read_body mem recvs leftover h.items in
      let left = read_body-Few mem recvs leftover h.items few in
      let full = record call { headers = h.items } in
      FewLeft-if (not (status == 0)) (refused full status recvs) (with_body full r) (λ _. few)
        (λ _.
          FewLeft-if (not (r.status == 0)) (refused full r.status r.recvs)
            (ready (record full { body = r.body }) r.recvs) (λ _. left) (λ _. left))

  with_line-FewLeft :
      (mem : ℕ → Bool) (recvs : List RecvResult) (leftover text : Bytes) (line : HttpRequest × ℕ)
      → length recvs ≤ n
      → FewLeft (with_line mem recvs leftover text line)
  with_line-FewLeft mem recvs leftover text (line, status) few =
      let next = record no_call { line = line } in
      let parsed = parse_headers mem text (record { items = []; capacity = 0 }) in
      FewLeft-if (not (status == 0)) (refused next status recvs)
        (with_headers mem recvs leftover next parsed) (λ _. few)
        (λ _. with_headers-FewLeft mem recvs leftover next parsed few)

  with_ends-FewLeft :
      (mem : ℕ → Bool) (recvs : List RecvResult) (buf : Bytes) (sep eol : Option ℕ)
      → length recvs ≤ n
      → FewLeft (with_ends mem recvs buf sep eol)
  with_ends-FewLeft mem recvs buf none eol few = few
  with_ends-FewLeft mem recvs buf (some sep) none few = few
  with_ends-FewLeft mem recvs buf (some sep) (some eol) few =
      with_line-FewLeft mem recvs (drop (sep + 4) buf) (drop (eol + 2) (c_string buf))
        (parse_request_line (take eol (c_string buf)) no_line) few

  pub parse_request-FewLeft :
      (mem : ℕ → Bool) (buf : Bytes) (complete : Bool) (recvs : List RecvResult)
      → length recvs ≤ n
      → FewLeft (parse_request mem buf complete recvs)
  unfolding parse_request
  parse_request-FewLeft mem buf complete recvs few =
      FewLeft-if (not complete) (refused no_call 431 recvs) _ (λ _. few)
        (λ _.
          with_ends-FewLeft mem recvs buf (find_sub blank_line (c_string buf))
            (find_sub crlf (c_string buf)) few)

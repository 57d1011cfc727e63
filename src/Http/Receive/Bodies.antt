-- ===== src/Http/Receive/Bodies.antt =====
-- The bodies that `read_body` gives.
use c_http.Base.{
  ℕ, zero, suc, ◌+◌, ◌-◌, ◌*◌, ◌≤◌, ◌<◌, ◌≡◌, refl, sym, ap, ◌∙◌, Bool, true, false, not, List, [],
  ◌∷◌, ◌++◌, append-nil, Option, none, some, if◌then◌else◌, ◌==◌, ltb, Bytes, length, length-append,
  length-take, take, arith, inl, inr, Bool-cases, Option-cases,
}
use c_http.Http.Headers.{HttpHeader}
use c_http.Http.Receive.{
  RecvResult, received, recv_interrupted, recv_failed, http_max_body, framing_loop, ReadBody,
  body_loop, framed_body, read_body,
}

-- The bytes that arrive before the client closes, falls silent or fails.
abbrev pub arriving : List RecvResult → Bytes
arriving [] = []
arriving (recv_failed ∷ recvs) = []
arriving (recv_interrupted ∷ recvs) = arriving recvs
arriving (received [] ∷ recvs) = []
arriving (received (b ∷ bytes) ∷ recvs) = (b ∷ bytes) ++ arriving recvs

-- The body of this length, 0 and no body, or an error and no body. A body is made of what stood
-- behind the header block and then of what arrives, in that order.
abbrev pub IsBody : Bytes → ℕ → ReadBody → Type 0
IsBody text len r = elim r.body [
  | none ↦ 0 < r.status
  | some body ↦ (r.status ≡ 0) × (body ≡ take len text) × (length body ≡ len)
]

take-short : (n : ℕ) (s t : Bytes) → n ≤ length s → take n (s ++ t) ≡ take n s
take-short zero s t h = refl
take-short (suc n) [] t h = absurd (omega (arith, h))
take-short (suc n) (c ∷ s) t h = ap (◌∷◌ c) (take-short n s t (omega (arith, h)))

take-long : (n : ℕ) (s t : Bytes) → length s ≤ n → take n (s ++ t) ≡ s ++ take (n - length s) t
take-long n [] t h = ap (λ m. take m t) (omega arith)
take-long zero (c ∷ s) t h = absurd (omega (arith, h))
take-long (suc n) (c ∷ s) t h =
    let e : suc n - length (c ∷ s) ≡ n - length s = omega arith in
    ap (◌∷◌ c) (take-long n s t (omega (arith, h)) ∙ ap (λ m. s ++ take m t) (sym e))

-- A body that is finished.
body_done : (len : ℕ) (got more : Bytes) → length got ≡ len → got ≡ take len (got ++ more)
body_done len got more e =
    let none_left : len - length got ≡ 0 = omega (arith, e) in
    sym (
      take-long len got more (omega (arith, e))
      ∙ ap (λ m. got ++ take m more) none_left
      ∙ append-nil got)

take-take : (n : ℕ) (s t : Bytes) → take n (take n s ++ t) ≡ take n (s ++ t)
take-take zero s t = refl
take-take (suc n) [] t = refl
take-take (suc n) (c ∷ s) t = ap (◌∷◌ c) (take-take n s t)

-- The bytes of one chunk, as many as are wanted, stand where they arrive.
chunk_in_order :
    (len : ℕ) (got bytes more : Bytes)
    → length got ≤ len
    → take len ((got ++ take (len - length got) bytes) ++ more) ≡ take len (got ++ (bytes ++ more))
chunk_in_order len [] bytes more h =
    let all_of : len - length {A = ℕ} [] ≡ len = omega arith in
    ap (λ n. take len (take n bytes ++ more)) all_of ∙ take-take len bytes more
chunk_in_order zero (c ∷ got) bytes more h = absurd (omega (arith, h))
chunk_in_order (suc n) (c ∷ got) bytes more h =
    let same : suc n - length (c ∷ got) ≡ n - length got = omega arith in
    ap (◌∷◌ c) (
      ap (λ m. take n ((got ++ take m bytes) ++ more)) same
      ∙ chunk_in_order n got bytes more (omega (arith, h)))

IsBody-if :
    (text : Bytes) (len : ℕ) (b : Bool) (r s : ReadBody)
    → (b ≡ true → IsBody text len r)
    → (b ≡ false → IsBody text len s)
    → IsBody text len (if b then r else s)
IsBody-if text len true r s h k = h refl
IsBody-if text len false r s h k = k refl

module _ (len : ℕ) where
  IsBody-text :
      (s t : Bytes) (r : ReadBody) → take len s ≡ take len t → IsBody s len r → IsBody t len r
  IsBody-text s t r e h = elim (Option-cases r.body) [
    | inl no_body ↦ rw no_body (rw no_body at h)
    | inr (body, held) ↦ let b = rw held at h in rw held (b.0, b.1 ∙ e, b.2)
  ]

  -- The end of the loop.
  got_all :
      (got more : Bytes) (recvs : List RecvResult)
      → length got ≤ len
      → ltb (length got) len ≡ false
      → IsBody (got ++ more) len (record { body = some got; status = 0; recvs = recvs })
  got_all got more recvs h e =
      let exact : length got ≡ len = ground (arith, e, h) in
      (refl, body_done len got more exact, exact)

  body_loop-IsBody :
      (recvs : List RecvResult) (got : Bytes)
      → length got ≤ len
      → IsBody (got ++ arriving recvs) len (body_loop recvs len got)
  unfolding body_loop
  body_loop-IsBody [] got h =
      IsBody-if _ len (ltb (length got) len) _ _ (λ _. omega arith) (got_all got [] [] h)
  body_loop-IsBody (recv_failed ∷ recvs) got h =
      IsBody-if _ len (ltb (length got) len) _ _ (λ _. omega arith)
        (got_all got [] (recv_failed ∷ recvs) h)
  body_loop-IsBody (recv_interrupted ∷ recvs) got h =
      IsBody-if _ len (ltb (length got) len) _ _ (λ _. body_loop-IsBody recvs got h)
        (got_all got (arriving recvs) (recv_interrupted ∷ recvs) h)
  body_loop-IsBody (received [] ∷ recvs) got h =
      let chunk : Bytes = take (len - length got) [] in
      let none_came : length chunk ≡ 0 = omega (arith, length-take {A = ℕ} (len - length got) []) in
      IsBody-if _ len (not (ltb (length got) len)) _ _
        (λ e. got_all got [] (received [] ∷ recvs) h (ground (arith, e)))
        (λ _.
          IsBody-if _ len (length chunk == 0) (record { body = none; status = 400; recvs = recvs })
            (body_loop recvs len (got ++ chunk)) (λ _. omega arith)
            (λ e. absurd (ground (arith, e, none_came))))
  body_loop-IsBody (received (b ∷ bytes) ∷ recvs) got h =
      let room = len - length got in
      let chunk = take room (b ∷ bytes) in
      let fits : length (got ++ chunk) ≤ len =
        omega (arith, h, length-append got chunk, length-take room (b ∷ bytes)) in
      IsBody-if _ len (not (ltb (length got) len)) _ _
        (λ e.
          got_all got ((b ∷ bytes) ++ arriving recvs) (received (b ∷ bytes) ∷ recvs) h
            (ground (arith, e)))
        (λ _.
          IsBody-if _ len (length chunk == 0) (record { body = none; status = 400; recvs = recvs })
            (body_loop recvs len (got ++ chunk)) (λ _. omega arith)
            (λ _.
              IsBody-text _ _ (body_loop recvs len (got ++ chunk))
                (chunk_in_order len got (b ∷ bytes) (arriving recvs) h)
                (body_loop-IsBody recvs (got ++ chunk) fits)))

-- Enough bytes arrive.
body_loop_arrived :
    (recvs : List RecvResult) (len : ℕ) (got : Bytes)
    → length got ≤ len
    → len ≤ length got + length (arriving recvs)
    → (body_loop recvs len got).status ≡ 0
unfolding body_loop
body_loop_arrived [] len got h k =
    let full : ltb (length got) len ≡ false = ground (arith, k) in rw full refl
body_loop_arrived (recv_failed ∷ recvs) len got h k =
    let full : ltb (length got) len ≡ false = ground (arith, k) in rw full refl
body_loop_arrived (recv_interrupted ∷ recvs) len got h k =
    elim (Bool-cases (ltb (length got) len)) [
      | inl more ↦ rw more (body_loop_arrived recvs len got h k)
      | inr full ↦ rw full refl
    ]
body_loop_arrived (received [] ∷ recvs) len got h k =
    let full : ltb (length got) len ≡ false = ground (arith, k) in rw full refl
body_loop_arrived (received (b ∷ bytes) ∷ recvs) len got h k =
    elim (Bool-cases (ltb (length got) len)) [
      | inr full ↦ rw full refl
      | inl more ↦
          let room = len - length got in
          let chunk = take room (b ∷ bytes) in
          let taken = length-take room (b ∷ bytes) in
          let some_came : length chunk == 0 ≡ false = ground (arith, more, taken) in
          let longer = length-append got chunk in
          let behind = length-append (b ∷ bytes) (arriving recvs) in
          rw (more, some_came)
            (body_loop_arrived recvs len (got ++ chunk) (omega (arith, h, longer, taken))
              (omega (arith, k, longer, taken, behind)))
    ]

-- The header block announces this length, by one Content-Length or several of the same value,
-- and no Transfer-Encoding.
abbrev pub Announces : List HttpHeader → Option ℕ → Type 0
Announces headers len =
    framing_loop headers false none ≡ record { bad = false; has_te = false; content_length = len }

pub framed :
    (mem : ℕ → Bool) (recvs : List RecvResult) (leftover : Bytes) (headers : List HttpHeader)
    (len : Option ℕ)
    → Announces headers len
    → read_body mem recvs leftover headers ≡ framed_body mem recvs leftover len
unfolding read_body
framed mem recvs leftover headers len a = rw a refl

-- Whatever happens on the socket and to the memory, a body whose length is announced is handed on
-- with exactly that many bytes, those received behind the header block and then those that arrive,
-- in chunks of any sizes and with interrupts between; otherwise there is no body and a status
-- above 0.
pub read_body-IsBody :
    (mem : ℕ → Bool) (recvs : List RecvResult) (leftover : Bytes) (headers : List HttpHeader)
    (len : ℕ)
    → Announces headers (some len)
    → IsBody (leftover ++ arriving recvs) len (read_body mem recvs leftover headers)
read_body-IsBody mem recvs leftover headers len a =
    let text = leftover ++ arriving recvs in
    let fourth = body_loop recvs len leftover in
    let smuggled : ReadBody = record { body = none; status = 400; recvs = recvs } in
    let no_memory : ReadBody = record { body = none; status = 500; recvs = recvs } in
    let third = if ltb len (length leftover) then smuggled else fourth in
    let second = if not (mem (len + 1)) then no_memory else third in
    rw (framed mem recvs leftover headers (some len) a) (
      IsBody-if text len (ltb http_max_body len)
        (record { body = none; status = 413; recvs = recvs }) second (λ _. omega arith)
        (λ _.
          IsBody-if text len (not (mem (len + 1))) no_memory third (λ _. omega arith)
            (λ _.
              IsBody-if text len (ltb len (length leftover)) smuggled fourth (λ _. omega arith)
                (λ e. body_loop-IsBody len recvs leftover (ground (arith, e))))))

IsBody-ok :
    (text : Bytes) (len : ℕ) (r : ReadBody)
    → IsBody text len r
    → r.status ≡ 0
    → r.body ≡ some (take len text)
IsBody-ok text len r v e = elim (Option-cases r.body) [
  | inl no_body ↦ absurd (omega (arith, rw no_body at v, e))
  | inr (body, held) ↦ held ∙ ap some (rw held at v).1
]

-- With memory, and when as many bytes as are announced, at most 50 MB, arrive before the client
-- closes, falls silent or fails, and no more stood behind the header block, the body is those bytes.
pub read_body_arrived :
    (recvs : List RecvResult) (leftover : Bytes) (headers : List HttpHeader) (len : ℕ)
    → Announces headers (some len)
    → len ≤ 50 * 1024 * 1024
    → length leftover ≤ len
    → len ≤ length leftover + length (arriving recvs)
    → ((read_body (λ n. true) recvs leftover headers).status ≡ 0)
      × ((read_body (λ n. true) recvs leftover headers).body
          ≡ some (take len (leftover ++ arriving recvs)))
read_body_arrived recvs leftover headers len a small few enough =
    let in_bounds : ltb http_max_body len ≡ false = ground (arith, small) in
    let not_more : ltb len (length leftover) ≡ false = ground (arith, few) in
    let status : (read_body (λ n. true) recvs leftover headers).status ≡ 0 =
      rw (framed (λ n. true) recvs leftover headers (some len) a)
        (rw (in_bounds, not_more) (body_loop_arrived recvs len leftover few enough)) in
    (
      status,
      IsBody-ok (leftover ++ arriving recvs) len (read_body (λ n. true) recvs leftover headers)
          (read_body-IsBody (λ n. true) recvs leftover headers len a) status,
    )

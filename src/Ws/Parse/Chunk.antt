-- ===== src/Ws/Parse/Chunk.antt =====
-- The size of a chunk, the bytes that it holds, and the round that stores it.
use c_http.Base.{
  ℕ, ◌+◌, ◌-◌, ◌^◌, ◌≤◌, ◌<◌, ◌≡◌, Bool, some, [], ◌∷◌, ◌++◌, length, Bytes, take, drop, min,
  length-take, sub_size_lem, arith,
}
use c_http.Ws.Session.{need_payload, HttpWs}
use c_http.Ws.Parse.{
  go, ws_msg_reserve, unmask, chunk_size, ws_unmask_chunk, put_chunk, store_chunk, step_payload,
  step_in, parse_step,
}

pub length-unmask :
    (mask : Bytes) (done : ℕ) (bytes : Bytes) → length (unmask mask done bytes) ≡ length bytes
unfolding unmask
length-unmask mask done [] = omega arith
length-unmask mask done (c ∷ cs) = omega (arith, length-unmask mask (done + 1) cs)

-- With the payload counted right, a chunk is what is missing of it or what is there, whichever is
-- less.
pub chunk_size-min :
    (ws : HttpWs)
    → ws.payload_done ≤ ws.payload_len
    → ws.payload_len - ws.payload_done < 2 ^ 64
    → chunk_size ws ≡ min (ws.payload_len - ws.payload_done) (length ws.input)
unfolding chunk_size
chunk_size-min ws h k = ground (arith, sub_size_lem ws.payload_len ws.payload_done h k)

-- The session behind a chunk of `n` bytes that is stored into `msg`.
abbrev pub with_data : HttpWs → ℕ → ℕ → HttpWs
with_data ws n cap = record ws {
  payload_done = ws.payload_done + n;
  input = drop n ws.input;
  msg = ws.msg ++ unmask ws.mask ws.payload_done (take n ws.input);
  msg_cap = cap;
}

module _ (mem : ℕ → Bool) (ws : HttpWs) (n cap : ℕ) (s : ws.state ≡ need_payload)
    (op : ws.opcode < 8) (left : ws.payload_len ≡ ws.payload_done + n) (pos : 0 < n)
    (enough : n ≤ length ws.input) (small : n < 2 ^ 64)
    (reserved : ws_msg_reserve mem ws.msg_cap (length ws.msg + n) ≡ some cap) where
  size : chunk_size ws ≡ n
  size = omega (arith, chunk_size-min ws (omega arith) (omega arith))

  chunk_len : length (unmask ws.mask ws.payload_done (take n ws.input)) ≡ n
  chunk_len =
      omega (arith, length-unmask ws.mask ws.payload_done (take n ws.input), length-take n ws.input)

  takes : ws_unmask_chunk ws ≡ (
    record ws { payload_done = ws.payload_done + n; input = drop n ws.input },
    unmask ws.mask ws.payload_done (take n ws.input),
  )
  unfolding ws_unmask_chunk
  takes = rw size

  puts :
      put_chunk mem
        (record ws { payload_done = ws.payload_done + n; input = drop n ws.input })
        (unmask ws.mask ws.payload_done (take n ws.input))
      ≡ go (with_data ws n cap)
  unfolding put_chunk
  puts = rw (chunk_len, reserved) (ground arith)

  stores : store_chunk mem ws ≡ go (with_data ws n cap)
  unfolding store_chunk
  stores = rw takes puts

  -- The rest of a data frame's payload is there in one piece.
  pub step_data : parse_step mem ws ≡ go (with_data ws n cap)
  unfolding step_in step_payload
  step_data = rw s (ground (arith, stores))

-- ===== src/Ws/Parse/Overrun.antt =====
-- Where the NUL behind a message is stored.
use c_http.Base.{
  ℕ, ◌+◌, ◌≤◌, ◌<◌, ◌≡◌, ◌++◌, Bool, true, some, length, length-append, take, length-take, ap,
  arith,
}
use c_http.Ws.Session.{need_payload, need_header, HttpWs}
use c_http.Ws.Parse.Chunk.{step_data, with_data, length-unmask}
use c_http.Ws.Parse.Invariant.{IsValid}
use c_http.Ws.Parse.Relation.{next, returns, ws_parse-Parses}
use c_http.Ws.Parse.{
  WsParseResult, overrun, ret, ws_msg_reserve, unmask, deliver, frame_complete, step_payload,
  step_in, parse_step, ws_parse,
}

-- A complete message that fills the buffer.
step_full :
    (mem : ℕ → Bool) (ws : HttpWs)
    → ws.state ≡ need_payload
    → ws.payload_done ≡ ws.payload_len
    → ws.opcode < 8
    → ws.fin ≡ true
    → 0 < length ws.msg
    → ws.msg_cap ≡ length ws.msg
    → parse_step mem ws ≡ ret (record ws { state = need_header; payload_done = 0 }) overrun
unfolding step_in step_payload frame_complete deliver
step_full mem ws s done op fin some_msg full = rw s (ground arith)

reserve_full : (mem : ℕ → Bool) (cap need : ℕ) → cap ≡ need → ws_msg_reserve mem cap need ≡ some cap
unfolding ws_msg_reserve
reserve_full mem cap need e = ground arith

-- The last bytes of a data frame that ends a message are waiting, and with them the message would
-- fill its buffer: then `ws_msg_reserve` lets them in without growing the buffer, and the NUL that
-- ends the message is stored one byte past it. So it goes on every well-formed session, whatever
-- the allocator does.
pub ws_parse_overrun :
    (mem : ℕ → Bool) (ws : HttpWs) (n : ℕ)
    → IsValid ws
    → ws.state ≡ need_payload
    → ws.opcode < 8
    → ws.fin ≡ true
    → ws.payload_len ≡ ws.payload_done + n
    → 0 < n
    → n ≤ length ws.input
    → ws.msg_cap ≡ length ws.msg + n
    → (ws_parse mem ws).1 ≡ overrun
ws_parse_overrun mem ws n v s op fin left pos enough full =
    let inv = rw s at v.in_state in
    let reserved = reserve_full mem ws.msg_cap (length ws.msg + n) full in
    let stored = step_data mem ws n ws.msg_cap s op left pos enough (grind arith) reserved in
    let stored_bytes = unmask ws.mask ws.payload_done (take n ws.input) in
    let filled : length (ws.msg ++ stored_bytes) ≡ length ws.msg + n = omega (
      arith,
      length-append ws.msg stored_bytes,
      length-unmask ws.mask ws.payload_done (take n ws.input),
      length-take n ws.input,
    ) in
    let ends =
      step_full mem (with_data ws n ws.msg_cap) s (omega arith) op fin (omega (arith, filled))
        (omega (arith, filled)) in
    ap (λ (r : HttpWs × WsParseResult). r.1) (ws_parse-Parses ws v (next stored (returns ends)))

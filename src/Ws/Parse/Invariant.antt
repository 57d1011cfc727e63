-- ===== src/Ws/Parse/Invariant.antt =====
-- The well-formedness of a session, and that every round of the parser keeps it.
use c_http.Base.{
  ℕ, zero, suc, ◌+◌, ◌-◌, ◌*◌, ◌^◌, ◌≤◌, ◌<◌, ◌≡◌, refl, Bool, [], ◌∷◌, inl, inr, Bytes, length,
  take, length-take, length-append, sub_size_lem, arith, Option-cases, if◌then◌else◌, ◌==◌,
}
use c_http.Ws.Session.{
  WsParseState, need_header, need_len16, need_len64, need_mask, need_payload, HttpWs,
}
use c_http.Ws.Parse.Growth.{ws_msg_reserve-le}
use c_http.Ws.Parse.Chunk.{length-unmask, chunk_size-min}
use c_http.Ws.Parse.{
  WsParseResult, Round, go, wait, ret, ws_protocol_violation, internal_error, ws_msg_reserve,
  chunk_size, ws_unmask_chunk, ws_frame_length_known, ws_handle_control, short_length, check_header,
  step_header, step_len16, long_length, step_len64, parse_step, after_round, step_mask, deliver,
  frame_complete, put_chunk, store_chunk, step_payload, step_in, parse_loop, ws_parse, with_header,
}

-- What the payload still to come may add to a message of `len` bytes: a data frame fits the message
-- limit, and a control frame fits the array `ctrl`.
abbrev pub Fits : ℕ → ℕ → ℕ → ℕ → ℕ → Type 0
Fits opcode len limit payload left =
    (opcode < 8 → len + left ≤ limit) × (8 ≤ opcode → payload ≤ 125)

-- By the opcode, the lengths of `msg` and `ctrl`, the limit, `payload_len` and `payload_done`.
abbrev pub StateInv : WsParseState → ℕ → ℕ → ℕ → ℕ → ℕ → ℕ → Type 0
StateInv need_header op len ctrl limit payload done = Unit {0}
StateInv need_len16 op len ctrl limit payload done = op < 8
StateInv need_len64 op len ctrl limit payload done = op < 8
StateInv need_mask op len ctrl limit payload done = Fits op len limit payload payload
StateInv need_payload op len ctrl limit payload done =
    Fits op len limit payload (payload - done) × (done ≤ payload) × (8 ≤ op → ctrl ≡ done)

-- The stores into `ctrl` (125 bytes) and `msg` (`msg_cap` bytes) stay in bounds, and a message
-- never passes the limit of its route.
pub record IsValid (ws : HttpWs) : Type 0 where
  pub limit_fits : ws.max_message < 2 ^ 64
  pub within_limit : length ws.msg ≤ ws.max_message
  pub within_cap : length ws.msg ≤ ws.msg_cap
  pub ctrl_fits : length ws.ctrl ≤ 125
  pub in_state :
      StateInv ws.state ws.opcode
        (length ws.msg)
        (length ws.ctrl)
        ws.max_message
        ws.payload_len
        ws.payload_done

abbrev pub RoundInv : Round → Type 0
RoundInv (go ws) = IsValid ws
RoundInv (wait ws) = IsValid ws
RoundInv (ret ws r) = IsValid ws

-- Sending touches nothing that the invariant is about.
ws_protocol_violation-IsValid :
    (ws : HttpWs) (code : ℕ) → IsValid ws → RoundInv (ws_protocol_violation ws code)
unfolding ws_protocol_violation
ws_protocol_violation-IsValid ws code v = record {
  limit_fits = v.limit_fits;
  within_limit = v.within_limit;
  within_cap = v.within_cap;
  ctrl_fits = v.ctrl_fits;
  in_state = v.in_state;
}

internal_error-IsValid : (ws : HttpWs) → IsValid ws → RoundInv (internal_error ws)
unfolding internal_error
internal_error-IsValid ws v = record {
  limit_fits = v.limit_fits;
  within_limit = v.within_limit;
  within_cap = v.within_cap;
  ctrl_fits = v.ctrl_fits;
  in_state = v.in_state;
}

ws_frame_length_known-IsValid :
    (ws : HttpWs)
    → IsValid ws
    → (8 ≤ ws.opcode → ws.payload_len ≤ 125)
    → RoundInv (ws_frame_length_known ws)
unfolding ws_frame_length_known
ws_frame_length_known-IsValid ws v control = ground (
  arith,
  ws_protocol_violation-IsValid ws 1009 v,
  sub_size_lem ws.max_message (length ws.msg) v.within_limit (omega arith),
)

ws_handle_control-IsValid :
    (ws : HttpWs) → IsValid ws → ws.state ≡ need_header → RoundInv (ws_handle_control ws)
unfolding ws_handle_control
ws_handle_control-IsValid ws v e = ground (arith, ws_protocol_violation-IsValid ws 1002 v)

short_length-IsValid :
    (ws : HttpWs) (len7 : ℕ)
    → IsValid ws
    → ws.state ≡ need_header
    → (8 ≤ ws.opcode → len7 ≤ 125)
    → RoundInv (short_length ws len7)
unfolding short_length
short_length-IsValid ws len7 v e control =
    ground (arith, ws_frame_length_known-IsValid (record ws { payload_len = len7 }))

check_header-IsValid :
    (ws : HttpWs) (rsv len7 : ℕ)
    → IsValid ws
    → ws.state ≡ need_header
    → RoundInv (check_header ws rsv len7)
unfolding check_header
check_header-IsValid ws rsv len7 v e = ground (
  arith,
  ws_protocol_violation-IsValid ws 1002 v,
  short_length-IsValid ws len7 v e,
  short_length-IsValid
      (record ws { msg_opcode = if ws.opcode == 0 then ws.msg_opcode else ws.opcode }) len7,
)

step_header-IsValid :
    (ws : HttpWs) (bytes : Bytes)
    → IsValid ws
    → ws.state ≡ need_header
    → RoundInv (step_header ws bytes)
unfolding step_header
step_header-IsValid ws (b0 ∷ b1 ∷ rest) v e =
    check_header-IsValid (with_header ws b0 b1 rest) _ _ (ground arith) e
step_header-IsValid ws (b0 ∷ []) v e = v
step_header-IsValid ws [] v e = v

step_len16-IsValid :
    (ws : HttpWs) (bytes : Bytes)
    → IsValid ws
    → ws.state ≡ need_len16
    → RoundInv (step_len16 ws bytes)
unfolding step_len16
step_len16-IsValid ws (hi ∷ lo ∷ rest) v e =
    let ws1 = record ws { input = rest; payload_len = hi * 2 ^ 8 + lo } in
    ground (arith, ws_protocol_violation-IsValid ws1 1002, ws_frame_length_known-IsValid ws1)
step_len16-IsValid ws (hi ∷ []) v e = v
step_len16-IsValid ws [] v e = v

step_mask-IsValid :
    (ws : HttpWs) (bytes : Bytes)
    → IsValid ws
    → ws.state ≡ need_mask
    → RoundInv (step_mask ws bytes)
unfolding step_mask
step_mask-IsValid ws (a ∷ b ∷ c ∷ d ∷ rest) v e = ground arith
step_mask-IsValid ws _ v e = v

deliver-IsValid :
    (mem : ℕ → Bool) (ws : HttpWs) → IsValid ws → ws.state ≡ need_header → RoundInv (deliver mem ws)
unfolding deliver
deliver-IsValid mem ws v e = ground (arith, internal_error-IsValid ws v)

frame_complete-IsValid :
    (mem : ℕ → Bool) (ws : HttpWs) → IsValid ws → RoundInv (frame_complete mem ws)
unfolding frame_complete
frame_complete-IsValid mem ws v =
    let ws1 = record ws { state = need_header; payload_done = 0 } in
    ground (arith, ws_handle_control-IsValid ws1, deliver-IsValid mem ws1)

long_length-IsValid :
    (ws : HttpWs) (len : ℕ) (rest : Bytes)
    → IsValid ws
    → ws.state ≡ need_len64
    → RoundInv (long_length ws len rest)
unfolding long_length
long_length-IsValid ws len rest v s =
    let ws1 = record ws { input = rest; payload_len = len } in
    ground (
      arith,
      ws_protocol_violation-IsValid ws 1002 v,
      ws_protocol_violation-IsValid ws1 1002,
      ws_frame_length_known-IsValid ws1,
    )

step_len64-IsValid :
    (ws : HttpWs) (bytes : Bytes)
    → IsValid ws
    → ws.state ≡ need_len64
    → RoundInv (step_len64 ws bytes)
unfolding step_len64
step_len64-IsValid ws (a ∷ b ∷ c ∷ d ∷ e ∷ f ∷ g ∷ h ∷ rest) v s = long_length-IsValid ws _ rest v s
step_len64-IsValid ws _ v s = v

-- What is left of the payload is counted without wrap, and so is the chunk.
chunk_facts :
    (ws : HttpWs)
    → IsValid ws
    → ws.state ≡ need_payload
    → (length (ws_unmask_chunk ws).1 ≡ chunk_size ws)
      × (ws.payload_done + chunk_size ws ≤ ws.payload_len)
unfolding ws_unmask_chunk
chunk_facts ws v s =
    let inv = rw s at v.in_state in
    let size = chunk_size-min ws inv.1 (grind arith) in
    (
      omega (
        arith,
        size,
        length-unmask ws.mask ws.payload_done (take (chunk_size ws) ws.input),
        length-take (chunk_size ws) ws.input,
      ),
      omega (arith, size),
    )

put_chunk-IsValid :
    (mem : ℕ → Bool) (ws : HttpWs) (n : ℕ) (rest chunk : Bytes)
    → IsValid ws
    → ws.state ≡ need_payload
    → length chunk ≡ n
    → ws.payload_done + n ≤ ws.payload_len
    → RoundInv
        (put_chunk mem (record ws { payload_done = ws.payload_done + n; input = rest }) chunk)
unfolding put_chunk
put_chunk-IsValid mem ws n rest chunk v s size fits =
    let ws1 = record ws { payload_done = ws.payload_done + n; input = rest } in
    elim (Option-cases (ws_msg_reserve mem ws.msg_cap (length ws.msg + length chunk))) [
      | inl full ↦ rw full (ground (arith, length-append ws.ctrl chunk, internal_error-IsValid ws1))
      | inr (cap, reserved) ↦ rw reserved (
          ground (
            arith,
            length-append ws.ctrl chunk,
            length-append ws.msg chunk,
            ws_msg_reserve-le mem ws.msg_cap (length ws.msg + length chunk) cap reserved,
          ))
    ]

store_chunk-IsValid :
    (mem : ℕ → Bool) (ws : HttpWs)
    → IsValid ws
    → ws.state ≡ need_payload
    → RoundInv (store_chunk mem ws)
unfolding store_chunk ws_unmask_chunk
store_chunk-IsValid mem ws v s =
    let (chunk_len, chunk_fits) = chunk_facts ws v s in
    put_chunk-IsValid mem ws (chunk_size ws) _ _ v s chunk_len chunk_fits

step_payload-IsValid :
    (mem : ℕ → Bool) (ws : HttpWs)
    → IsValid ws
    → ws.state ≡ need_payload
    → RoundInv (step_payload mem ws)
unfolding step_payload
step_payload-IsValid mem ws v s =
    ground (arith, frame_complete-IsValid mem ws v, store_chunk-IsValid mem ws v s)

step_in-IsValid :
    (state : WsParseState) (mem : ℕ → Bool) (ws : HttpWs)
    → IsValid ws
    → ws.state ≡ state
    → RoundInv (step_in state mem ws)
unfolding step_in
step_in-IsValid need_header mem ws v s = step_header-IsValid ws ws.input v s
step_in-IsValid need_len16 mem ws v s = step_len16-IsValid ws ws.input v s
step_in-IsValid need_len64 mem ws v s = step_len64-IsValid ws ws.input v s
step_in-IsValid need_mask mem ws v s = step_mask-IsValid ws ws.input v s
step_in-IsValid need_payload mem ws v s = step_payload-IsValid mem ws v s

pub parse_step-IsValid : (mem : ℕ → Bool) (ws : HttpWs) → IsValid ws → RoundInv (parse_step mem ws)
parse_step-IsValid mem ws v = step_in-IsValid ws.state mem ws v refl

after_round-IsValid :
    (again : HttpWs → HttpWs × WsParseResult)
    → ((ws : HttpWs) → IsValid ws → IsValid (again ws).0)
    → (r : Round) → RoundInv r
    → IsValid (after_round again r).0
after_round-IsValid again keeps (go ws) i = keeps ws i
after_round-IsValid again keeps (wait ws) i = i
after_round-IsValid again keeps (ret ws p) i = i

parse_loop-IsValid :
    (fuel : ℕ) (mem : ℕ → Bool) (ws : HttpWs) → IsValid ws → IsValid (parse_loop fuel mem ws).0
unfolding parse_loop
parse_loop-IsValid zero mem ws v = v
parse_loop-IsValid (suc fuel) mem ws v =
    after_round-IsValid (parse_loop fuel mem) (parse_loop-IsValid fuel mem) (parse_step mem ws)
      (parse_step-IsValid mem ws v)

-- Whatever the peer sends, whatever the socket and the allocator answer, parsing keeps the
-- session well formed: the bytes stored into `ctrl` number at most 125, those stored into `msg` at
-- most its capacity and at most the message limit, and so does what the current frame still
-- announces.
pub ws_parse-IsValid : (mem : ℕ → Bool) (ws : HttpWs) → IsValid ws → IsValid (ws_parse mem ws).0
ws_parse-IsValid mem ws v = unfold ws_parse in parse_loop-IsValid _ mem ws v

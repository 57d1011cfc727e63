-- ===== src/Ws/Parse/Termination.antt =====
-- The loop of `ws_parse` ends.
use c_http.Base.{
  ℕ, zero, suc, ◌+◌, ◌*◌, ◌^◌, ◌≤◌, ◌<◌, ◌≡◌, ◌≢◌, refl, Bool, ◌∷◌, inl, inr, Bytes, length,
  length-drop, arith, Option-cases, if◌then◌else◌, ◌==◌,
}
use c_http.Ws.Session.{
  WsParseState, need_header, need_len16, need_len64, need_mask, need_payload, HttpWs,
}
use c_http.Ws.Parse.Chunk.{chunk_size-min}
use c_http.Ws.Parse.Invariant.{IsValid, RoundInv, parse_step-IsValid}
use c_http.Ws.Parse.{
  WsParseResult, stuck, Round, go, wait, ret, with_header, ws_protocol_violation, internal_error,
  ws_msg_reserve, chunk_size, ws_unmask_chunk, ws_frame_length_known, ws_handle_control,
  short_length, check_header, step_header, step_len16, long_length, step_len64, step_mask, deliver,
  frame_complete, put_chunk, store_chunk, step_payload, step_in, parse_step, after_round,
  parse_loop, ws_parse,
}

-- A payload that is complete takes one more round with no input.
abbrev pub complete : WsParseState → ℕ → ℕ → ℕ
complete need_payload done payload = if done == payload then 1 else 0
complete _ done payload = 0

-- What the rounds use up.
abbrev pub pending : HttpWs → ℕ
pending ws = 2 * length ws.input + complete ws.state ws.payload_done ws.payload_len

abbrev pub Below : ℕ → Round → Type 0
Below m (go ws) = pending ws < m
Below m (wait ws) = Unit {0}
Below m (ret ws r) = r ≢ stuck

ws_protocol_violation-Below :
    (m : ℕ) (ws : HttpWs) (code : ℕ) → Below m (ws_protocol_violation ws code)
unfolding ws_protocol_violation
ws_protocol_violation-Below m ws code e = cc

internal_error-Below : (m : ℕ) (ws : HttpWs) → Below m (internal_error ws)
unfolding internal_error
internal_error-Below m ws e = cc

ws_frame_length_known-Below :
    (m : ℕ) (ws : HttpWs) → 2 * length ws.input < m → Below m (ws_frame_length_known ws)
unfolding ws_frame_length_known
ws_frame_length_known-Below m ws h = ground (arith, ws_protocol_violation-Below m ws 1009)

ws_handle_control-Below :
    (m : ℕ) (ws : HttpWs)
    → ws.state ≡ need_header
    → 2 * length ws.input < m
    → Below m (ws_handle_control ws)
unfolding ws_handle_control
ws_handle_control-Below m ws s h = ground (arith, ws_protocol_violation-Below m ws 1002)

short_length-Below :
    (m : ℕ) (ws : HttpWs) (len7 : ℕ) → 2 * length ws.input < m → Below m (short_length ws len7)
unfolding short_length
short_length-Below m ws len7 h =
    ground (arith, ws_frame_length_known-Below m (record ws { payload_len = len7 }) h)

check_header-Below :
    (m : ℕ) (ws : HttpWs) (rsv len7 : ℕ)
    → 2 * length ws.input < m
    → Below m (check_header ws rsv len7)
unfolding check_header
check_header-Below m ws rsv len7 h = ground (
  arith,
  ws_protocol_violation-Below m ws 1002,
  short_length-Below m ws len7 h,
  short_length-Below m
      (record ws { msg_opcode = if ws.opcode == 0 then ws.msg_opcode else ws.opcode }) len7 h,
)

step_header-Below :
    (m : ℕ) (ws : HttpWs) (bytes : Bytes) → 2 * length bytes ≤ m → Below m (step_header ws bytes)
unfolding step_header
step_header-Below m ws (b0 ∷ b1 ∷ rest) h =
    check_header-Below m (with_header ws b0 b1 rest) _ _ (omega arith)
step_header-Below m ws _ h = tt

step_len16-Below :
    (m : ℕ) (ws : HttpWs) (bytes : Bytes) → 2 * length bytes ≤ m → Below m (step_len16 ws bytes)
unfolding step_len16
step_len16-Below m ws (hi ∷ lo ∷ rest) h =
    let ws1 = record ws { input = rest; payload_len = hi * 2 ^ 8 + lo } in
    ground (
      arith,
      ws_protocol_violation-Below m ws1 1002,
      ws_frame_length_known-Below m ws1 (omega arith),
    )
step_len16-Below m ws _ h = tt

long_length-Below :
    (m : ℕ) (ws : HttpWs) (len : ℕ) (rest : Bytes)
    → 2 * length rest < m
    → Below m (long_length ws len rest)
unfolding long_length
long_length-Below m ws len rest h =
    let ws1 = record ws { input = rest; payload_len = len } in
    ground (
      arith,
      ws_protocol_violation-Below m ws 1002,
      ws_protocol_violation-Below m ws1 1002,
      ws_frame_length_known-Below m ws1 h,
    )

step_len64-Below :
    (m : ℕ) (ws : HttpWs) (bytes : Bytes) → 2 * length bytes ≤ m → Below m (step_len64 ws bytes)
unfolding step_len64
step_len64-Below m ws (a ∷ b ∷ c ∷ d ∷ e ∷ f ∷ g ∷ h ∷ rest) k =
    long_length-Below m ws _ rest (omega arith)
step_len64-Below m ws _ k = tt

step_mask-Below :
    (m : ℕ) (ws : HttpWs) (bytes : Bytes) → 2 * length bytes ≤ m → Below m (step_mask ws bytes)
unfolding step_mask
step_mask-Below m ws (a ∷ b ∷ c ∷ d ∷ rest) h = ground arith
step_mask-Below m ws _ h = tt

deliver-Below : (m : ℕ) (mem : ℕ → Bool) (ws : HttpWs) → Below m (deliver mem ws)
unfolding deliver
deliver-Below m mem ws = ground (arith, internal_error-Below m ws)

frame_complete-Below :
    (m : ℕ) (mem : ℕ → Bool) (ws : HttpWs)
    → 2 * length ws.input < m
    → Below m (frame_complete mem ws)
unfolding frame_complete
frame_complete-Below m mem ws h =
    let ws1 = record ws { state = need_header; payload_done = 0 } in
    ground (arith, ws_handle_control-Below m ws1 refl h, deliver-Below m mem ws1)

put_chunk-Below :
    (m : ℕ) (mem : ℕ → Bool) (ws : HttpWs) (chunk : Bytes)
    → pending ws < m
    → Below m (put_chunk mem ws chunk)
unfolding put_chunk
put_chunk-Below m mem ws chunk h =
    elim (Option-cases (ws_msg_reserve mem ws.msg_cap (length ws.msg + length chunk))) [
      | inl full ↦ rw full (ground (arith, internal_error-Below m ws))
      | inr (cap, reserved) ↦ rw reserved (ground arith)
    ]

chunk_size-pos :
    (ws : HttpWs)
    → IsValid ws
    → ws.state ≡ need_payload
    → ws.payload_done ≢ ws.payload_len
    → 0 < length ws.input
    → (0 < chunk_size ws) × (chunk_size ws ≤ length ws.input)
chunk_size-pos ws v s ne more_input =
    let inv = rw s at v.in_state in
    let size = chunk_size-min ws inv.1 (grind arith) in (omega (arith, size), omega (arith, size))

store_chunk-Below :
    (mem : ℕ → Bool) (ws : HttpWs)
    → IsValid ws
    → ws.state ≡ need_payload
    → ws.payload_done ≢ ws.payload_len
    → 0 < length ws.input
    → Below (pending ws) (store_chunk mem ws)
unfolding store_chunk ws_unmask_chunk
store_chunk-Below mem ws v s ne more_input =
    let (pos, le) = chunk_size-pos ws v s ne more_input in
    put_chunk-Below (pending ws) mem (ws_unmask_chunk ws).0 _
      (rw s (ground (arith, length-drop (chunk_size ws) ws.input)))

step_payload-Below :
    (mem : ℕ → Bool) (ws : HttpWs)
    → IsValid ws
    → ws.state ≡ need_payload
    → Below (pending ws) (step_payload mem ws)
unfolding step_payload
step_payload-Below mem ws v s =
    ground (arith, frame_complete-Below (pending ws) mem ws, store_chunk-Below mem ws v s)

step_in-Below :
    (state : WsParseState) (mem : ℕ → Bool) (ws : HttpWs)
    → IsValid ws
    → ws.state ≡ state
    → Below (pending ws) (step_in state mem ws)
unfolding step_in
step_in-Below need_header mem ws v s = step_header-Below _ ws ws.input (omega arith)
step_in-Below need_len16 mem ws v s = step_len16-Below _ ws ws.input (omega arith)
step_in-Below need_len64 mem ws v s = step_len64-Below _ ws ws.input (omega arith)
step_in-Below need_mask mem ws v s = step_mask-Below _ ws ws.input (omega arith)
step_in-Below need_payload mem ws v s = step_payload-Below mem ws v s

pub parse_step-Below :
    (mem : ℕ → Bool) (ws : HttpWs) → IsValid ws → Below (pending ws) (parse_step mem ws)
parse_step-Below mem ws v = step_in-Below ws.state mem ws v refl

after_round-ne-stuck :
    (again : HttpWs → HttpWs × WsParseResult) (m : ℕ) (r : Round)
    → ((ws : HttpWs) → IsValid ws → pending ws < m → (again ws).1 ≢ stuck)
    → Below m r
    → RoundInv r
    → (after_round again r).1 ≢ stuck
after_round-ne-stuck again m (go ws) ends b i = ends ws i b
after_round-ne-stuck again m (wait ws) ends b i = λ e. cc
after_round-ne-stuck again m (ret ws p) ends b i = b

parse_loop-ne-stuck :
    (fuel : ℕ) (mem : ℕ → Bool) (ws : HttpWs)
    → IsValid ws
    → pending ws < fuel
    → (parse_loop fuel mem ws).1 ≢ stuck
unfolding parse_loop
parse_loop-ne-stuck zero mem ws v h = elim h [ ]
parse_loop-ne-stuck (suc fuel) mem ws v h =
    after_round-ne-stuck (parse_loop fuel mem) (pending ws) (parse_step mem ws)
      (λ ws1 v1 b. parse_loop-ne-stuck fuel mem ws1 v1 (omega arith)) (parse_step-Below mem ws v)
      (parse_step-IsValid mem ws v)

-- On a well-formed session `ws_parse` returns, whatever bytes are waiting: its loop never uses up
-- the two rounds for each byte and two more.
pub ws_parse-ne-stuck : (mem : ℕ → Bool) (ws : HttpWs) → IsValid ws → (ws_parse mem ws).1 ≢ stuck
ws_parse-ne-stuck mem ws v = unfold ws_parse in parse_loop-ne-stuck _ mem ws v (ground arith)

-- ===== src/Ws/Parse.antt =====
-- The parse state machine of src/c_http_ws.c. One round of the loop of `ws_parse` is `parse_step`,
-- with a function for each `case`. `mem n` says whether an allocation of `n` bytes succeeds.
pub mod Growth
pub mod Chunk
mod Mask
pub mod Invariant
pub mod Termination
pub mod Relation
pub mod Overrun
pub mod RoundTrip
mod Tests
use Prim.Native.Nat.{bit_xor}
use c_http.Base.{
  ℕ, zero, suc, ◌+◌, ◌-◌, ◌*◌, ◌/◌, ◌^◌, ◌%◌, Bool, true, false, not, ◌&&◌, ◌||◌, List, [], ◌∷◌,
  ◌++◌, Option, none, some, if◌then◌else◌, ◌==◌, ltb, leb, Bytes, length, take, drop, get_or, ◌<<<◌,
  ◌>>>◌, low_bits, sub_size,
}
use c_http.Ws.Session.{
  SendResult, WsParseState, need_header, need_len16, need_len64, need_mask, need_payload, text,
  binary, WsMessage, HttpWs, ws_mark_dead,
}
use c_http.Ws.Send.{
  ws_op_cont, ws_op_text, ws_op_binary, ws_op_close, ws_op_ping, ws_op_pong, ws_send_raw,
  frame_header, ws_send_frame_locked, ws_send_frame, close_payload, ws_send_close,
}

-- `overrun` is not of the source: the NUL behind a message would be stored past the end of `msg`,
-- which C leaves undefined. `stuck` is the loop without fuel.
pub data WsParseResult : Type 0 where
  more : WsParseResult
  message : WsMessage → WsParseResult
  closed : WsParseResult
  protocol : WsParseResult
  io_error_result : WsParseResult
  overrun : WsParseResult
  stuck : WsParseResult

-- How a round of the loop ends: `continue`, the `break` that waits for input, or a `return`.
pub data Round : Type 0 where
  go : HttpWs → Round
  wait : HttpWs → Round
  ret : HttpWs → WsParseResult → Round

abbrev pub size_max : ℕ
size_max = 2 ^ 64 - 1

unfoldable pub ws_protocol_violation : HttpWs → ℕ → Round
ws_protocol_violation ws code =
    let (sent, _) = ws_send_close ws.conn code [] in
    ret (record ws { conn = ws_mark_dead sent 0 false }) protocol

-- An internal error: the close frame with 1011, and a dead session.
unfoldable pub internal_error : HttpWs → Round
internal_error ws =
    let (sent, _) = ws_send_close ws.conn 1011 [] in
    ret (record ws { conn = ws_mark_dead sent 0 true }) io_error_result

-- The doubling loop of `ws_msg_reserve`; 64 rounds are enough from any capacity above 0.
unfoldable pub grow_cap : ℕ → ℕ → ℕ → ℕ
grow_cap zero cap need = cap
grow_cap (suc fuel) cap need =
    let doubled = grow_cap fuel (cap * 2) need in
    if not (ltb cap (need + 1)) then cap else if ltb (size_max / 2) cap then need + 1 else doubled

abbrev pub grow_rounds : ℕ
grow_rounds = 64

-- The new value of `msg_cap`, or `none` for `false`.
unfoldable pub ws_msg_reserve : (ℕ → Bool) → ℕ → ℕ → Option ℕ
ws_msg_reserve mem cap need =
    if leb need cap
    then some cap
    else if ltb (size_max - 1) need
    then none
    else (let new_cap = grow_cap grow_rounds (if cap == 0 then 256 else cap) need in
        if mem new_cap then some new_cap else none)

-- `ws->in[pos + i] ^= mask[(payload_done + i) % 4]`, from `payload_done` on
unfoldable pub unmask : Bytes → ℕ → Bytes → Bytes
unmask mask done [] = []
unmask mask done (c ∷ cs) = bit_xor c (get_or mask (done % 4) 0) ∷ unmask mask (done + 1) cs

-- The number of bytes that `ws_unmask_chunk` takes.
unfoldable pub chunk_size : HttpWs → ℕ
chunk_size ws =
    let chunk = sub_size ws.payload_len ws.payload_done in
    if ltb (length ws.input) chunk then length ws.input else chunk

-- The session behind the chunk, and the chunk unmasked.
unfoldable pub ws_unmask_chunk : HttpWs → HttpWs × Bytes
ws_unmask_chunk ws =
    let chunk = chunk_size ws in
    (
      record ws { payload_done = ws.payload_done + chunk; input = drop chunk ws.input },
      unmask ws.mask ws.payload_done (take chunk ws.input),
    )

unfoldable pub ws_frame_length_known : HttpWs → Round
ws_frame_length_known ws =
    if ltb ws.opcode ws_op_close && ltb (sub_size ws.max_message (length ws.msg)) ws.payload_len
    then ws_protocol_violation ws 1009
    else go (record ws { state = need_mask })

-- The code of a close frame: 0 for an empty payload.
abbrev pub close_code_of : Bytes → ℕ
close_code_of (hi ∷ lo ∷ _) = (hi <<< 8) + lo
close_code_of _ = 0

unfoldable pub ws_handle_control : HttpWs → Round
ws_handle_control ws =
    if ws.opcode == ws_op_ping
    then (let (sent, ok) = ws_send_frame ws.conn ws_op_pong ws.ctrl in
        if ok
        then go (record ws { conn = sent })
        else ret (record ws { conn = ws_mark_dead sent 0 true }) io_error_result)
    else if ws.opcode == ws_op_pong
    then go ws
    else if ws.opcode == ws_op_close
    then (if length ws.ctrl == 1
        then ws_protocol_violation ws 1002
        else (let code = close_code_of ws.ctrl in
            let echoed =
              if ws.conn.close_sent then ws.conn else (ws_send_close ws.conn code []).0 in
            let ended = ws_mark_dead echoed (if code == 0 then 1005 else code) false in
            ret (record ws { conn = record ended { close_received = true } }) closed))
    else ws_protocol_violation ws 1002

abbrev pub is_known_opcode : ℕ → Bool
is_known_opcode op =
    op == ws_op_cont
    || op == ws_op_text
    || op == ws_op_binary
    || op == ws_op_close
    || op == ws_op_ping
    || op == ws_op_pong

-- The header of a frame as the two bytes give it. `b0 & 0x70` and the like are read off by
-- division.
abbrev pub with_header : HttpWs → ℕ → ℕ → Bytes → HttpWs
with_header ws b0 b1 rest = record ws {
  input = rest;
  fin = b0 / 128 % 2 == 1;
  opcode = low_bits b0 4;
  masked = b1 / 128 % 2 == 1;
}

-- The length field of the second byte: a short length, or how many bytes of length follow.
unfoldable pub short_length : HttpWs → ℕ → Round
short_length ws len7 =
    if ltb len7 126
    then ws_frame_length_known (record ws { payload_len = len7 })
    else if len7 == 126
    then go (record ws { state = need_len16 })
    else go (record ws { state = need_len64 })

-- The checks on a header that has been read into the session.
unfoldable pub check_header : HttpWs → ℕ → ℕ → Round
check_header ws rsv len7 =
    if not (rsv == 0)
    then ws_protocol_violation ws 1002
    else if not ws.masked
    then ws_protocol_violation ws 1002
    else if not (is_known_opcode ws.opcode)
    then ws_protocol_violation ws 1002
    else if leb ws_op_close ws.opcode
    then (if ltb 125 len7 || not ws.fin
        then ws_protocol_violation ws 1002
        else short_length ws len7)
    else if ws.opcode == ws_op_cont && not ws.msg_active
    then ws_protocol_violation ws 1002
    else if not (ws.opcode == ws_op_cont) && ws.msg_active
    then ws_protocol_violation ws 1002
    else short_length
        (record ws { msg_opcode = if ws.opcode == ws_op_cont then ws.msg_opcode else ws.opcode })
        len7

-- `case WS_NEED_HEADER`
unfoldable pub step_header : HttpWs → Bytes → Round
step_header ws (b0 ∷ b1 ∷ rest) =
    check_header (with_header ws b0 b1 rest) (low_bits (b0 >>> 4) 3) (low_bits b1 7)
step_header ws _ = wait ws

-- The 16-bit form of `case WS_NEED_LEN16: case WS_NEED_LEN64`
unfoldable pub step_len16 : HttpWs → Bytes → Round
step_len16 ws (hi ∷ lo ∷ rest) =
    let len = (hi <<< 8) + lo in
    let ws1 = record ws { input = rest; payload_len = len } in
    if ltb len 126 then ws_protocol_violation ws1 1002 else ws_frame_length_known ws1
step_len16 ws _ = wait ws

-- `len = (len << 8) | in[pos + i]`; eight bytes cannot pass 64 bits.
abbrev pub from_be : ℕ → Bytes → ℕ
from_be len [] = len
from_be len (b ∷ bs) = from_be ((len <<< 8) + b) bs

-- The 64-bit form of it, once `len` is put together.
unfoldable pub long_length : HttpWs → ℕ → Bytes → Round
long_length ws len rest =
    let ws1 = record ws { input = rest; payload_len = len } in
    if not (len >>> 63 == 0)
    then ws_protocol_violation ws 1002
    else if ltb len 65536
    then ws_protocol_violation ws1 1002
    else ws_frame_length_known ws1

unfoldable pub step_len64 : HttpWs → Bytes → Round
step_len64 ws (a ∷ b ∷ c ∷ d ∷ e ∷ f ∷ g ∷ h ∷ rest) =
    long_length ws (from_be 0 (a ∷ b ∷ c ∷ d ∷ e ∷ f ∷ g ∷ h ∷ [])) rest
step_len64 ws _ = wait ws

-- `case WS_NEED_MASK`
unfoldable pub step_mask : HttpWs → Bytes → Round
step_mask ws (a ∷ b ∷ c ∷ d ∷ rest) = go (record ws {
  input = rest;
  mask = a ∷ b ∷ c ∷ d ∷ [];
  payload_done = 0;
  ctrl = [];
  state = need_payload;
})
step_mask ws _ = wait ws

-- A whole message: it moves to `cur_data`, with a NUL stored at `msg[msg_len]`.
unfoldable pub deliver : (ℕ → Bool) → HttpWs → Round
deliver mem ws =
    if ws.msg_cap == 0 && not (mem 1)
    then internal_error ws
    else (let cap = if ws.msg_cap == 0 then 1 else ws.msg_cap in
        let m : WsMessage = record {
          type_of = if ws.msg_opcode == ws_op_text then text else binary;
          content = ws.msg;
        } in
        let ws1 = record ws { cur = some m; msg = []; msg_cap = 0; msg_active = false } in
        if ltb (length ws.msg) cap then ret ws1 (message m) else ret ws overrun)

-- A frame whose payload is complete.
unfoldable pub frame_complete : (ℕ → Bool) → HttpWs → Round
frame_complete mem ws0 =
    let ws = record ws0 { state = need_header; payload_done = 0 } in
    if leb ws_op_close ws.opcode
    then ws_handle_control ws
    else if not ws.fin
    then go (record ws { msg_active = true })
    else deliver mem ws

-- A chunk of payload, stored into `ctrl` or `msg`. `msg_len + chunk` counts bytes in memory.
unfoldable pub put_chunk : (ℕ → Bool) → HttpWs → Bytes → Round
put_chunk mem ws chunk =
    if leb ws_op_close ws.opcode
    then go (record ws { ctrl = ws.ctrl ++ chunk })
    else elim (ws_msg_reserve mem ws.msg_cap (length ws.msg + length chunk)) [
      | none ↦ internal_error ws
      | some cap ↦ go (record ws { msg = ws.msg ++ chunk; msg_cap = cap })
    ]

unfoldable pub store_chunk : (ℕ → Bool) → HttpWs → Round
store_chunk mem ws = let (ws1, chunk) = ws_unmask_chunk ws in put_chunk mem ws1 chunk

-- `case WS_NEED_PAYLOAD`
unfoldable pub step_payload : (ℕ → Bool) → HttpWs → Round
step_payload mem ws =
    if ws.payload_done == ws.payload_len
    then frame_complete mem ws
    else if length ws.input == 0
    then wait ws
    else store_chunk mem ws

unfoldable pub step_in : WsParseState → (ℕ → Bool) → HttpWs → Round
step_in need_header mem ws = step_header ws ws.input
step_in need_len16 mem ws = step_len16 ws ws.input
step_in need_len64 mem ws = step_len64 ws ws.input
step_in need_mask mem ws = step_mask ws ws.input
step_in need_payload mem ws = step_payload mem ws

abbrev pub parse_step : (ℕ → Bool) → HttpWs → Round
parse_step mem ws = step_in ws.state mem ws

-- What the loop does behind a round; `again` is the loop.
abbrev pub after_round : (HttpWs → HttpWs × WsParseResult) → Round → HttpWs × WsParseResult
after_round again (go ws) = again ws
after_round again (wait ws) = (ws, more)
after_round again (ret ws r) = (ws, r)

unfoldable pub parse_loop : ℕ → (ℕ → Bool) → HttpWs → HttpWs × WsParseResult
parse_loop zero mem ws = (ws, stuck)
parse_loop (suc fuel) mem ws = after_round (parse_loop fuel mem) (parse_step mem ws)

-- Every round but the one behind a complete payload takes a byte at least.
unfoldable pub ws_parse : (ℕ → Bool) → HttpWs → HttpWs × WsParseResult
unfolding ws_send_raw frame_header ws_send_frame_locked ws_send_frame close_payload ws_send_close
    ws_mark_dead ws_protocol_violation internal_error grow_cap ws_msg_reserve unmask chunk_size
    ws_unmask_chunk ws_frame_length_known ws_handle_control short_length check_header step_header
    step_len16 long_length step_len64 step_mask deliver frame_complete put_chunk store_chunk
    step_payload step_in parse_loop sub_size
ws_parse mem ws = parse_loop (2 * length ws.input + 2) mem ws

-- ===== src/Ws/Send.antt =====
-- The frame writer of src/c_http_ws.c. The socket is the list of the outcomes of the coming calls
-- of send(); when the list is used up the connection is broken, and every further send fails.
pub mod Wire
pub mod Tests
use c_http.Base.{
  ℕ, ◌+◌, ◌-◌, ◌*◌, ◌/◌, ◌^◌, ◌%◌, Bool, true, false, not, ◌&&◌, List, [], ◌∷◌, ◌++◌, if◌then◌else◌,
  ◌==◌, ltb, leb, Bytes, length, take, drop, ◌>>>◌, u8,
}
use c_http.Ws.Session.{SendResult, wrote, interrupted, failed, Conn}

abbrev pub ws_op_cont : ℕ
ws_op_cont = 0

abbrev pub ws_op_text : ℕ
ws_op_text = 1

abbrev pub ws_op_binary : ℕ
ws_op_binary = 2

abbrev pub ws_op_close : ℕ
ws_op_close = 8

abbrev pub ws_op_ping : ℕ
ws_op_ping = 9

abbrev pub ws_op_pong : ℕ
ws_op_pong = 10

-- What a call of `ws_send_raw` leaves: its result (0 is `true`, -1 is `false`), the outcomes that
-- it has not used, and the bytes that the socket took.
pub record Raw : Type 0 where
  pub sent_all : Bool
  pub rest : List SendResult
  pub taken : Bytes

-- `bytes` are those from `sent` on. send() takes at most what it is given.
unfoldable pub ws_send_raw : List SendResult → Bytes → Raw
ws_send_raw sends [] = record { sent_all = true; rest = sends; taken = [] }
ws_send_raw [] (b ∷ bytes) = record { sent_all = false; rest = []; taken = [] }
ws_send_raw (failed ∷ sends) (b ∷ bytes) = record { sent_all = false; rest = sends; taken = [] }
ws_send_raw (interrupted ∷ sends) (b ∷ bytes) = ws_send_raw sends (b ∷ bytes)
ws_send_raw (wrote n ∷ sends) (b ∷ bytes) =
    let r = ws_send_raw sends (drop n (b ∷ bytes)) in
    record { sent_all = r.sent_all; rest = r.rest; taken = take n (b ∷ bytes) ++ r.taken }

-- The 8 bytes of a length, the highest first.
abbrev pub be64 : ℕ → Bytes
be64 n =
    u8 (n >>> 56)
    ∷ u8 (n >>> 48)
    ∷ u8 (n >>> 40)
    ∷ u8 (n >>> 32)
    ∷ u8 (n >>> 24)
    ∷ u8 (n >>> 16)
    ∷ u8 (n >>> 8)
    ∷ u8 n
    ∷ []

-- `hdr[0..hlen)`. An opcode is below 16, so `0x80 | opcode` is a sum.
unfoldable pub frame_header : ℕ → ℕ → Bytes
frame_header opcode len =
    u8 (0x80 + opcode)
    ∷ (if leb len 125
        then u8 len ∷ []
        else if leb len 0xFFFF
        then 126 ∷ u8 (len >>> 8) ∷ u8 len ∷ []
        else 127 ∷ be64 len)

abbrev pub after_send : Conn → Raw → Conn
after_send conn r = record conn { sends = r.rest; wire = conn.wire ++ r.taken }

abbrev pub broken : Conn → Conn
broken conn = record conn { dead = true; io_error = true }

-- The result is `true` for 0 and `false` for -1.
unfoldable pub ws_send_frame_locked : Conn → ℕ → Bytes → Conn × Bool
ws_send_frame_locked conn opcode payload =
    let head = ws_send_raw conn.sends (frame_header opcode (length payload)) in
    let conn1 = after_send conn head in
    if not head.sent_all
    then (broken conn1, false)
    else (let body = ws_send_raw conn1.sends payload in
        let conn2 = after_send conn1 body in
        if ltb 0 (length payload) && not body.sent_all
        then (broken conn2, false)
        else (conn2, true))

unfoldable pub ws_send_frame : Conn → ℕ → Bytes → Conn × Bool
ws_send_frame conn opcode payload =
    if conn.dead then (conn, false) else ws_send_frame_locked conn opcode payload

-- `payload[0..plen)`: the code and at most 123 bytes of the reason.
unfoldable pub close_payload : ℕ → Bytes → Bytes
close_payload code reason = if code == 0 then [] else u8 (code >>> 8) ∷ u8 code ∷ take 123 reason

unfoldable pub ws_send_close : Conn → ℕ → Bytes → Conn × Bool
ws_send_close conn code reason =
    if conn.dead
    then (record conn { close_sent = true }, false)
    else (let (sent, ok) = ws_send_frame_locked conn ws_op_close (close_payload code reason) in
        let coded =
          if not conn.close_sent && not (code == 0)
          then record sent { close_code = code }
          else sent in
        (record coded { close_sent = true }, ok))

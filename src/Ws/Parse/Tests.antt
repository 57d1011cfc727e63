-- ===== src/Ws/Parse/Tests.antt =====
-- Concrete runs of the parser, and the theorems at concrete sessions.
use c_http.Base.{◌≡◌, ◌≢◌, refl, true, false, none, [], ◌∷◌, ◌++◌, Bytes, codes, replicate, arith}
use c_http.Ws.Session.{wrote, need_header, need_payload, text, Conn, HttpWs}
use c_http.Ws.Parse.Invariant.{IsValid, ws_parse-IsValid}
use c_http.Ws.Parse.Termination.{ws_parse-ne-stuck}
use c_http.Ws.Parse.Overrun.{ws_parse_overrun}
use c_http.Ws.Parse.RoundTrip.{client_frame, idle}
use c_http.Ws.Parse.{more, message, closed, overrun, stuck, ws_parse}

abbrev conn : Conn
conn = record {
  sends = wrote 100 ∷ wrote 100 ∷ [];
  wire = [];
  close_sent = false;
  close_received = false;
  dead = false;
  io_error = false;
  close_code = 0;
}

-- A new session of a route with a limit of 600 bytes.
abbrev session : Bytes → HttpWs
session input = record {
  conn = conn;
  input = input;
  state = need_header;
  fin = false;
  opcode = 0;
  masked = false;
  mask = [];
  payload_len = 0;
  payload_done = 0;
  ctrl = [];
  msg_active = false;
  msg_opcode = 0;
  msg = [];
  msg_cap = 0;
  max_message = 600;
  cur = none;
}

abbrev key : Bytes
key = 1 ∷ 2 ∷ 3 ∷ 4 ∷ []

-- "Hi!" in a text frame.
hi_frame :
    (ws_parse (λ n. true) (session (0x81 ∷ 0x83 ∷ 1 ∷ 2 ∷ 3 ∷ 4 ∷ 73 ∷ 107 ∷ 34 ∷ []))).1
    ≡ message (record { type_of = text; content = codes "Hi!" })
unfolding ws_parse
hi_frame = refl

half_frame : (ws_parse (λ n. true) (session (0x81 ∷ 0x83 ∷ 1 ∷ 2 ∷ 3 ∷ 4 ∷ 73 ∷ []))).1 ≡ more
unfolding ws_parse
half_frame = refl

-- A frame that is not masked is answered by a close frame with 1002.
not_masked :
    (ws_parse (λ n. true) (session (0x81 ∷ 0x01 ∷ 65 ∷ []))).0.conn.wire
    ≡ 0x88 ∷ 0x02 ∷ 0x03 ∷ 0xEA ∷ []
unfolding ws_parse
not_masked = refl

-- A ping is answered by a pong with the same payload.
ping :
    (ws_parse (λ n. true) (session (0x89 ∷ 0x81 ∷ 1 ∷ 2 ∷ 3 ∷ 4 ∷ 64 ∷ []))).0.conn.wire
    ≡ 0x8A ∷ 0x01 ∷ 65 ∷ []
unfolding ws_parse
ping = refl

close_frame : (ws_parse (λ n. true) (session (0x88 ∷ 0x80 ∷ 1 ∷ 2 ∷ 3 ∷ 4 ∷ []))).1 ≡ closed
unfolding ws_parse
close_frame = refl

-- A message of 256 bytes in two frames of 128 fills the first buffer exactly.
two_frames :
    (ws_parse
      (λ n. true)
      (session (
        0x01
        ∷ 0xFE
        ∷ 0
        ∷ 128
        ∷ 0
        ∷ 0
        ∷ 0
        ∷ 0
        ∷ (replicate 128 65 ++ (0x80 ∷ 0xFE ∷ 0 ∷ 128 ∷ 0 ∷ 0 ∷ 0 ∷ 0 ∷ replicate 128 65))))).1
    ≡ overrun
unfolding ws_parse
two_frames = refl

abbrev hi : HttpWs
hi = idle (session []) (client_frame 1 key (codes "Hi!") ++ (7 ∷ []))

ws_parse-IsValid_example : IsValid (ws_parse (λ n. true) (session (0x81 ∷ 0x83 ∷ []))).0
ws_parse-IsValid_example = ws_parse-IsValid (λ n. true) (session (0x81 ∷ 0x83 ∷ [])) (omega arith)

ws_parse-ne-stuck_example : (ws_parse (λ n. true) (session (0x81 ∷ 0x83 ∷ []))).1 ≢ stuck
ws_parse-ne-stuck_example = ws_parse-ne-stuck (λ n. true) (session (0x81 ∷ 0x83 ∷ [])) (omega arith)

-- The last byte of a message of 256 bytes, whose first 255 are in the buffer.
abbrev nearly_full : HttpWs
nearly_full = record (session (65 ∷ [])) {
  state = need_payload;
  fin = true;
  opcode = 1;
  mask = key;
  payload_len = 1;
  msg = replicate 255 65;
  msg_cap = 256;
}

ws_parse_overrun_example : (ws_parse (λ n. true) nearly_full).1 ≡ overrun
ws_parse_overrun_example =
    ws_parse_overrun (λ n. true) nearly_full 1 (omega arith) refl (omega arith) refl refl
      (omega arith) (omega arith) refl

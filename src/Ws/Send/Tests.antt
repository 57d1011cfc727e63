-- ===== src/Ws/Send/Tests.antt =====
-- Frames written to concrete sockets.
use c_http.Base.{◌≡◌, refl, false, [], ◌∷◌, codes}
use c_http.Ws.Session.{wrote, interrupted, Conn}
use c_http.Ws.Send.{frame_header, ws_send_raw, ws_send_frame_locked, ws_send_frame}

-- A socket that takes the header in two parts and then breaks in the payload.
abbrev conn : Conn
conn = record {
  sends = wrote 1 ∷ interrupted ∷ wrote 9 ∷ wrote 2 ∷ [];
  wire = [];
  close_sent = false;
  close_received = false;
  dead = false;
  io_error = false;
  close_code = 0;
}

torn_wire : (ws_send_frame conn 1 (codes "abc")).0.wire ≡ 0x81 ∷ 3 ∷ 97 ∷ 98 ∷ []
unfolding ws_send_frame ws_send_frame_locked ws_send_raw frame_header
torn_wire = refl

torn_result : (ws_send_frame conn 1 (codes "abc")).1 ≡ false
unfolding ws_send_frame ws_send_frame_locked ws_send_raw frame_header
torn_result = refl

-- ===== src/Ws/Session.antt =====
-- The session of src/c_http_ws.c (`struct HttpWs`) and its socket. One thread is modelled, so the
-- lock is left out. The receive buffer (`in`, `in_len`, `pos`) is the list of the bytes that are
-- not parsed yet: advancing `pos` drops bytes, and compacting the buffer leaves the list as it is.
-- `ctrl` and `msg` are the bytes stored so far, so `ctrl_len` and `msg_len` are their lengths.
use c_http.Base.{ℕ, List, Bool, true, Option, Bytes, if◌then◌else◌, ◌==◌}

-- The outcome of one call of send(): a count of bytes taken, an interrupt, or an error.
pub data SendResult : Type 0 where
  wrote : ℕ → SendResult
  interrupted : SendResult
  failed : SendResult

pub data WsParseState : Type 0 where
  need_header need_len16 need_len64 need_mask need_payload : WsParseState

pub data WsMessageType : Type 0 where
  text binary : WsMessageType

pub record WsMessage : Type 0 where
  pub type_of : WsMessageType
  pub content : Bytes

-- The part of `struct HttpWs` that sending uses: the socket (what it answers to the coming sends,
-- and the bytes that it has taken) and the flags that the lock guards.
pub record Conn : Type 0 where
  pub sends : List SendResult
  pub wire : Bytes
  pub close_sent : Bool
  pub close_received : Bool
  pub dead : Bool
  pub io_error : Bool
  pub close_code : ℕ

pub record HttpWs : Type 0 where
  pub conn : Conn
  pub input : Bytes
  pub state : WsParseState
  pub fin : Bool
  pub opcode : ℕ
  pub masked : Bool
  pub mask : Bytes
  pub payload_len : ℕ
  pub payload_done : ℕ
  pub ctrl : Bytes
  pub msg_active : Bool
  pub msg_opcode : ℕ
  pub msg : Bytes
  pub msg_cap : ℕ
  pub max_message : ℕ
  pub cur : Option WsMessage

-- `ws_mark_dead`
unfoldable pub ws_mark_dead : Conn → ℕ → Bool → Conn
ws_mark_dead conn code io = record conn {
  close_code = if code == 0 then conn.close_code else code;
  io_error = if io then true else conn.io_error;
  dead = true;
}

-- ===== src/Ws/Parse/RoundTrip.antt =====
-- A message that a client sends in one frame.
use c_http.Base.{
  ℕ, ◌+◌, ◌^◌, ◌≤◌, ◌<◌, ◌≡◌, ◌⊎◌, Bool, true, false, [], ◌∷◌, ◌++◌, some, Bytes, length, leb,
  if◌then◌else◌, ◌==◌, u8, ◌>>>◌,
}
use c_http.Ws.Session.{WsParseState, need_header, need_mask, need_payload, text, binary, HttpWs}
use c_http.Ws.Send.{be64}
use c_http.Ws.Parse.{WsParseResult, message, unmask}

-- The header of a final data frame from a client, by RFC 6455: the shortest length form.
abbrev pub masked_header : ℕ → ℕ → Bytes
masked_header op len =
    (128 + op)
    ∷ (if leb len 125
        then (128 + len) ∷ []
        else if leb len 0xFFFF
        then 254 ∷ u8 (len >>> 8) ∷ u8 len ∷ []
        else 255 ∷ be64 len)

-- The frame: the header, the key, and the payload masked by it.
abbrev pub client_frame : ℕ → Bytes → Bytes → Bytes
client_frame op key payload = masked_header op (length payload) ++ (key ++ unmask key 0 payload)

-- A session between two messages, with `input` waiting.
abbrev pub idle : HttpWs → Bytes → HttpWs
idle ws input = record ws {
  input = input;
  state = need_header;
  ctrl = [];
  msg_active = false;
  msg = [];
  msg_cap = 0;
}

-- The same behind the header of a data frame.
abbrev headed : HttpWs → ℕ → ℕ → Bytes → HttpWs
headed ws op len tail = record ws {
  input = tail;
  state = need_mask;
  fin = true;
  opcode = op;
  masked = true;
  payload_len = len;
  ctrl = [];
  msg_active = false;
  msg_opcode = op;
  msg = [];
  msg_cap = 0;
}

module _ (mem : ℕ → Bool) (ws : HttpWs) (op len : ℕ) (tail : Bytes)
    (limit : ws.max_message < 2 ^ 64) (data_op : (op ≡ 1) ⊎ (op ≡ 2))
    (fits : len ≤ ws.max_message) where
  -- The session that waits for the longer length.
  long_header : WsParseState → Bytes → HttpWs
  long_header state input = record (headed ws op ws.payload_len input) { state = state }

-- Behind the key.
abbrev keyed : HttpWs → ℕ → ℕ → Bytes → Bytes → HttpWs
keyed ws op len key input = record (headed ws op len input) {
  mask = key;
  payload_done = 0;
  state = need_payload;
}

-- A message behind its last byte.
abbrev pub delivered : HttpWs → ℕ → ℕ → Bytes → Bytes → Bytes → HttpWs
delivered ws op len key payload tail = record (keyed ws op len key tail) {
  state = need_header;
  cur = some (record { type_of = if op == 1 then text else binary; content = payload });
}

abbrev pub whole_message : ℕ → Bytes → WsParseResult
whole_message op payload =
    message (record { type_of = if op == 1 then text else binary; content = payload })

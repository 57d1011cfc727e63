-- ===== src/Ws/Send/Wire.antt =====
-- What reaches the wire.
use c_http.Base.{
  ℕ, ◌^◌, ◌<◌, ◌≡◌, refl, sym, ap, ◌∙◌, Bool, true, false, not, ◌&&◌, List, [], ◌∷◌, ◌++◌, some,
  append-nil, append_assoc, inl, inr, Bool-cases, take-append-drop, Bytes, length, take, drop, leb,
  ltb, arith,
}
use c_http.Ws.Session.{SendResult, wrote, interrupted, failed, Conn}
use c_http.Ws.Rfc.{read_head}
use c_http.Ws.Send.{ws_send_raw, frame_header, ws_send_frame_locked, ws_send_frame}

-- What send() took is a prefix of the bytes, and all of them exactly when the result is 0.
ws_send_raw_taken :
    (sends : List SendResult) (bytes : Bytes)
    → (unsent : Bytes) × (bytes ≡ (ws_send_raw sends bytes).taken ++ unsent)
      × ((ws_send_raw sends bytes).sent_all ≡ true → unsent ≡ [])
unfolding ws_send_raw
ws_send_raw_taken sends [] = ([], refl, λ e. refl)
ws_send_raw_taken [] (b ∷ bytes) = (b ∷ bytes, refl, λ e. cc)
ws_send_raw_taken (failed ∷ sends) (b ∷ bytes) = (b ∷ bytes, refl, λ e. cc)
ws_send_raw_taken (interrupted ∷ sends) (b ∷ bytes) = ws_send_raw_taken sends (b ∷ bytes)
ws_send_raw_taken (wrote n ∷ sends) (b ∷ bytes) =
    let (unsent, split, full) = ws_send_raw_taken sends (drop n (b ∷ bytes)) in
    (
      unsent,
      sym (take-append-drop n (b ∷ bytes))
          ∙ ap (λ (t : Bytes). take n (b ∷ bytes) ++ t) split
          ∙ sym (
              append_assoc (take n (b ∷ bytes)) (ws_send_raw sends (drop n (b ∷ bytes))).taken
                unsent),
      full,
    )

-- The header of a server frame is read back by RFC 6455: final, no reserved bits, the opcode, not
-- masked, and the length; and it ends where the payload begins.
read_head-frame_header :
    (opcode len : ℕ) (rest : Bytes)
    → opcode < 16
    → len < 2 ^ 64
    → read_head (frame_header opcode len ++ rest)
      ≡ some (record { fin = true; rsv = 0; opcode = opcode; masked = false; len = len }, rest)
unfolding frame_header
read_head-frame_header opcode len rest op small = elim (Bool-cases (leb len 125)) [
  | inl short ↦ rw short (ground arith)
  | inr long ↦ elim (Bool-cases (leb len 0xFFFF)) [
    | inl two ↦ rw (long, two) (ground arith)
    | inr eight ↦ rw (long, eight) (ground arith)
  ]
]

-- What a call may leave, for the frame with this opcode and payload.
pub record FrameSent (conn : Conn) (opcode : ℕ) (payload : Bytes) (after : Conn) (ok : Bool)
    : Type 0 where
  pub sent : Bytes
  pub unsent : Bytes
  pub on_wire : after.wire ≡ conn.wire ++ sent
  pub of_frame : frame_header opcode (length payload) ++ payload ≡ sent ++ unsent
  pub whole :
      ok ≡ true → (unsent ≡ []) × (after.dead ≡ conn.dead) × (after.io_error ≡ conn.io_error)
  pub torn : ok ≡ false → (after.dead ≡ true) × (after.io_error ≡ true)
  pub close_kept : (after.close_sent ≡ conn.close_sent) × (after.close_code ≡ conn.close_code)

body_sent :
    (sends : List SendResult) (payload : Bytes)
    → ltb 0 (length payload) && not (ws_send_raw sends payload).sent_all ≡ false
    → (ws_send_raw sends payload).sent_all ≡ true
body_sent sends [] e = unfold ws_send_raw in refl
body_sent sends (b ∷ payload) e = ground arith

ws_send_frame_locked-FrameSent :
    (conn : Conn) (opcode : ℕ) (payload : Bytes)
    → let (after, ok) = ws_send_frame_locked conn opcode payload in
      FrameSent conn opcode payload after ok
unfolding ws_send_frame_locked
ws_send_frame_locked-FrameSent conn opcode payload =
    let header = frame_header opcode (length payload) in
    let head = ws_send_raw conn.sends header in
    let body = ws_send_raw head.rest payload in
    let (head_left, head_split, head_full) = ws_send_raw_taken conn.sends header in
    let (body_left, body_split, body_full) = ws_send_raw_taken head.rest payload in
    elim (Bool-cases head.sent_all) [
      | inr stopped ↦ rw stopped (record {
        sent = head.taken;
        unsent = head_left ++ payload;
        on_wire = refl;
        of_frame =
            ap (λ (t : Bytes). t ++ payload) head_split ∙ append_assoc head.taken head_left payload;
        whole = λ e. cc;
        torn = λ e. (refl, refl);
        close_kept = (refl, refl);
      })
      | inl passed ↦
          let header_sent = head_full passed in
          let wire_is = append_assoc conn.wire head.taken body.taken in
          let split : header ++ payload ≡ (head.taken ++ body.taken) ++ body_left =
            ap (λ (t : Bytes). t ++ payload) (head_split ∙ rw header_sent (append-nil head.taken))
            ∙ ap (λ (t : Bytes). head.taken ++ t) body_split
            ∙ sym (append_assoc head.taken body.taken body_left) in
          elim (Bool-cases (ltb 0 (length payload) && not body.sent_all)) [
            | inl stopped ↦
                rw (passed, stopped)
                  (record {
                    sent = head.taken ++ body.taken;
                    unsent = body_left;
                    on_wire = wire_is;
                    of_frame = split;
                    whole = λ e. cc;
                    torn = λ e. (refl, refl);
                    close_kept = (refl, refl);
                  })
            | inr done ↦
                rw (passed, done)
                  (record {
                    sent = head.taken ++ body.taken;
                    unsent = body_left;
                    on_wire = wire_is;
                    of_frame = split;
                    whole = λ e. (body_full (body_sent head.rest payload done), refl, refl);
                    torn = λ e. cc;
                    close_kept = (refl, refl);
                  })
          ]
    ]

-- Sending a frame on a live session: what the socket took is a beginning of the frame (its header,
-- then its payload). With the result 0 it is the whole frame and the session is as alive as
-- before; with -1 the session is dead with an I/O error. Whether a close frame went out, and with
-- what code, is left alone.
ws_send_frame_sent :
    (conn : Conn) (opcode : ℕ) (payload : Bytes)
    → conn.dead ≡ false
    → FrameSent conn opcode payload
        (ws_send_frame conn opcode payload).0
        (ws_send_frame conn opcode payload).1
unfolding ws_send_frame
ws_send_frame_sent conn opcode payload live =
    simp live (ws_send_frame_locked-FrameSent conn opcode payload)

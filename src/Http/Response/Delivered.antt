-- ===== src/Http/Response/Delivered.antt =====
-- A client that goes on reading receives the whole response.
use c_http.Base.{
  ℕ, zero, suc, ◌+◌, ◌≤◌, ◌≡◌, refl, Bool, true, false, ◌||◌, List, [], ◌∷◌, Option, none, some,
  Bytes, length, length-append, take, drop, length-drop, arith, inl, inr, Bool-cases,
}
use c_http.Http.Response.{HttpResponse}
use c_http.Http.Response.Send.{
  send_all, and_then, send_parts, Prepared, prepare, selected_body, head_parts, send_fd, send_body,
  send_res,
}
use c_http.Http.Response.Whole.{joined, file_slice, sent_body, response_text, send_res-Sends}
use c_http.Ws.Session.{SendResult, wrote, interrupted, failed}
use c_http.Ws.Send.{Raw}

-- How many calls take a byte at least before one fails.
abbrev pub progress : List SendResult → ℕ
progress [] = 0
progress (failed ∷ sends) = 0
progress (interrupted ∷ sends) = progress sends
progress (wrote zero ∷ sends) = progress sends
progress (wrote (suc n) ∷ sends) = suc (progress sends)

-- All was sent, and no more calls were used than there were bytes.
record Delivers (n : ℕ) (sends : List SendResult) (r : Raw) : Type 0 where
  done : r.sent_all ≡ true
  left : progress sends ≤ progress r.rest + n

send_all-Delivers :
    (sends : List SendResult) (text : Bytes)
    → length text ≤ progress sends
    → Delivers (length text) sends (send_all sends text)
unfolding send_all
send_all-Delivers sends [] h = record { done = refl; left = omega arith }
send_all-Delivers [] (b ∷ text) h = absurd (omega (arith, h))
send_all-Delivers (failed ∷ sends) (b ∷ text) h = absurd (omega (arith, h))
send_all-Delivers (interrupted ∷ sends) (b ∷ text) h =
    let next = send_all-Delivers sends (b ∷ text) h in record { done = next.done; left = next.left }
send_all-Delivers (wrote zero ∷ sends) (b ∷ text) h =
    let next = send_all-Delivers sends (b ∷ text) h in record { done = next.done; left = next.left }
send_all-Delivers (wrote (suc n) ∷ sends) (b ∷ text) h =
    let shorter = length-drop n text in
    let next = send_all-Delivers sends (drop n text) (omega (arith, h, shorter)) in
    record { done = next.done; left = omega (arith, next.left, shorter) }

and_then-Delivers :
    (n m : ℕ) (sends : List SendResult) (first : Raw) (next : List SendResult → Raw)
    → Delivers n sends first
    → n + m ≤ progress sends
    → ((rest : List SendResult) → m ≤ progress rest → Delivers m rest (next rest))
    → Delivers (n + m) sends (and_then first next)
unfolding and_then
and_then-Delivers n m sends first next v h w =
    let d = w first.rest (omega (arith, v.left, h)) in
    rw (v.done) (record { done = d.done; left = omega (arith, d.left, v.left) })

send_parts-Delivers :
    (parts : List Bytes) (sends : List SendResult)
    → length (joined parts) ≤ progress sends
    → Delivers (length (joined parts)) sends (send_parts sends parts)
unfolding send_parts
send_parts-Delivers [] sends h = record { done = refl; left = omega arith }
send_parts-Delivers (part ∷ parts) sends h =
    let all_of = length-append part (joined parts) in
    rw all_of (
      and_then-Delivers (length part) (length (joined parts)) sends (send_all sends part)
        (λ rest. send_parts rest parts) (send_all-Delivers sends part (omega (arith, h, all_of)))
        (omega (arith, h, all_of)) (send_parts-Delivers parts))

-- The file that the length was taken from is open.
abbrev pub HasFile : Bool → Option Bytes → Type 0
HasFile true none = ⊥
HasFile true (some content) = Unit {0}
HasFile false fd = Unit {0}

send_body-Delivers :
    (p : Prepared) (suppress_body : Bool) (sends : List SendResult)
    → HasFile p.streaming p.file_fd
    → length (sent_body p suppress_body) ≤ progress sends
    → Delivers (length (sent_body p suppress_body)) sends (send_body p suppress_body sends)
unfolding send_body
send_body-Delivers p suppress_body sends f h =
    elim (Bool-cases (p.no_body_status || suppress_body)) [
      | inl no_body ↦ rw no_body (record { done = refl; left = omega arith })
      | inr body ↦ elim (Bool-cases p.streaming) [
        | inl streaming ↦
            rw (body, streaming)
              (from_file p.file_fd p.send_offset p.send_size sends (rw streaming at f)
                (rw (body, streaming) at h))
        | inr fixed ↦
            rw (body, fixed) (send_all-Delivers sends (selected_body p.res) (rw (body, fixed) at h))
      ]
    ]
  where
    from_file :
        (fd : Option Bytes) (start size : ℕ) (sends : List SendResult)
        → HasFile true fd
        → length (file_slice fd start size) ≤ progress sends
        → Delivers (length (file_slice fd start size)) sends (send_fd fd start size sends)
    from_file none start size sends ne k = absurd ne
    from_file (some content) start size sends ne k =
        send_all-Delivers sends (take size (drop start content)) k

-- When the socket takes something often enough before it fails, once for each byte at the most,
-- with interrupts and empty calls between, the client receives the whole response.
pub send_res-Delivered :
    (open_file : Bytes → Option Bytes) (res : HttpResponse) (suppress_body : Bool)
    (sends : List SendResult)
    → HasFile (prepare open_file res).streaming (prepare open_file res).file_fd
    → length (response_text (prepare open_file res) suppress_body) ≤ progress sends
    → (send_res open_file res suppress_body sends).taken
      ≡ response_text (prepare open_file res) suppress_body
send_res-Delivered open_file res suppress_body sends f h =
    (send_res-Sends open_file res suppress_body sends).whole delivered.done
  where
    delivered :
        Delivers
          (length (joined (head_parts (prepare open_file res)))
            + length (sent_body (prepare open_file res) suppress_body))
          sends
          (send_res open_file res suppress_body sends)
    delivered =
        let p = prepare open_file res in
        let all_of = length-append (joined (head_parts p)) (sent_body p suppress_body) in
        unfold send_res in
        and_then-Delivers (length (joined (head_parts p))) (length (sent_body p suppress_body))
          sends (send_parts sends (head_parts p)) (send_body p suppress_body)
          (send_parts-Delivers (head_parts p) sends (omega (arith, h, all_of)))
          (omega (arith, h, all_of)) (λ rest k. send_body-Delivers p suppress_body rest f k)

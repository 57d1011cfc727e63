-- ===== src/Http/Response/Whole.antt =====
-- What reaches the client: all of the response, or the front of it.
use c_http.Base.{
  ℕ, ◌≡◌, refl, sym, ap, ◌∙◌, Bool, true, ◌||◌, List, [], ◌∷◌, ◌++◌, append_assoc, Option, none,
  some, if◌then◌else◌, Bytes, take, drop, take-append-drop, inl, inr, Bool-cases,
}
use c_http.Http.Response.{HttpResponse}
use c_http.Http.Response.Send.{
  send_all, and_then, send_parts, Prepared, prepare, selected_body, head_parts, send_fd, send_body,
  send_res,
}
use c_http.Ws.Session.{SendResult, wrote, interrupted, failed}
use c_http.Ws.Send.{Raw}

-- A call that was to send the text: it took the front of it, and all of it if it says so.
pub record Sends (text : Bytes) (r : Raw) : Type 0 where
  pub missing : Bytes
  pub front : r.taken ++ missing ≡ text
  pub whole : r.sent_all ≡ true → r.taken ≡ text

send_all-Sends : (sends : List SendResult) (text : Bytes) → Sends text (send_all sends text)
unfolding send_all
send_all-Sends sends [] = record { missing = []; front = refl; whole = λ _. refl }
send_all-Sends [] (b ∷ text) = record { missing = b ∷ text; front = refl; whole = λ e. cc }
send_all-Sends (failed ∷ sends) (b ∷ text) = record {
  missing = b ∷ text;
  front = refl;
  whole = λ e. cc;
}
send_all-Sends (interrupted ∷ sends) (b ∷ text) = send_all-Sends sends (b ∷ text)
send_all-Sends (wrote n ∷ sends) (b ∷ text) =
    let next = send_all-Sends sends (drop n (b ∷ text)) in
    let now = take n (b ∷ text) in
    record {
      missing = next.missing;
      front =
          append_assoc now (send_all sends (drop n (b ∷ text))).taken next.missing
          ∙ ap (λ s. now ++ s) next.front
          ∙ take-append-drop n (b ∷ text);
      whole = λ e. ap (λ s. now ++ s) (next.whole e) ∙ take-append-drop n (b ∷ text);
    }

and_then-Sends :
    (text more : Bytes) (first : Raw) (next : List SendResult → Raw)
    → Sends text first
    → ((sends : List SendResult) → Sends more (next sends))
    → Sends (text ++ more) (and_then first next)
unfolding and_then
and_then-Sends text more first next v w = elim (Bool-cases first.sent_all) [
  | inl sent ↦ rw sent (record {
    missing = (w first.rest).missing;
    front =
        append_assoc first.taken (next first.rest).taken (w first.rest).missing
        ∙ ap (λ s. first.taken ++ s) (w first.rest).front
        ∙ ap (λ s. s ++ more) (v.whole sent);
    whole = λ e.
        ap (λ s. first.taken ++ s) ((w first.rest).whole e) ∙ ap (λ s. s ++ more) (v.whole sent);
  })
  | inr stopped ↦ rw stopped (record {
    missing = v.missing ++ more;
    front = sym (append_assoc first.taken v.missing more) ∙ ap (λ s. s ++ more) v.front;
    whole = λ e. cc;
  })
]

-- The parts one behind the other.
abbrev pub joined : List Bytes → Bytes
joined [] = []
joined (part ∷ parts) = part ++ joined parts

send_parts-Sends :
    (parts : List Bytes) (sends : List SendResult) → Sends (joined parts) (send_parts sends parts)
unfolding send_parts
send_parts-Sends [] sends = record { missing = []; front = refl; whole = λ _. refl }
send_parts-Sends (part ∷ parts) sends =
    and_then-Sends part (joined parts) (send_all sends part) (λ rest. send_parts rest parts)
      (send_all-Sends sends part) (send_parts-Sends parts)

-- The slice of the file that is sent as the body.
abbrev pub file_slice : Option Bytes → ℕ → ℕ → Bytes
file_slice none start size = []
file_slice (some content) start size = take size (drop start content)

abbrev pub sent_body : Prepared → Bool → Bytes
sent_body p suppress_body =
    if p.no_body_status || suppress_body
    then []
    else if p.streaming
    then file_slice p.file_fd p.send_offset p.send_size
    else selected_body p.res

abbrev pub response_text : Prepared → Bool → Bytes
response_text p suppress_body = joined (head_parts p) ++ sent_body p suppress_body

send_fd-Sends :
    (fd : Option Bytes) (start size : ℕ) (sends : List SendResult)
    → Sends (file_slice fd start size) (send_fd fd start size sends)
send_fd-Sends none start size sends = record { missing = []; front = refl; whole = λ _. refl }
send_fd-Sends (some content) start size sends =
    send_all-Sends sends (take size (drop start content))

send_body-Sends :
    (p : Prepared) (suppress_body : Bool) (sends : List SendResult)
    → Sends (sent_body p suppress_body) (send_body p suppress_body sends)
unfolding send_body
send_body-Sends p suppress_body sends = elim (Bool-cases (p.no_body_status || suppress_body)) [
  | inl no_body ↦ rw no_body (record { missing = []; front = refl; whole = λ _. refl })
  | inr body ↦ elim (Bool-cases p.streaming) [
    | inl streaming ↦ rw (body, streaming) (send_fd-Sends p.file_fd p.send_offset p.send_size sends)
    | inr fixed ↦ rw (body, fixed) (send_all-Sends sends (selected_body p.res))
  ]
]

-- Whatever the calls of send() give, the client receives the front of the response, nothing twice
-- and nothing out of order, and when no call failed the whole of it.
pub send_res-Sends :
    (open_file : Bytes → Option Bytes) (res : HttpResponse) (suppress_body : Bool)
    (sends : List SendResult)
    → Sends
        (response_text (prepare open_file res) suppress_body)
        (send_res open_file res suppress_body sends)
unfolding send_res
send_res-Sends open_file res suppress_body sends =
    let p = prepare open_file res in
    and_then-Sends (joined (head_parts p)) (sent_body p suppress_body)
      (send_parts sends (head_parts p)) (send_body p suppress_body)
      (send_parts-Sends (head_parts p) sends) (send_body-Sends p suppress_body)

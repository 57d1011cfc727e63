-- ===== src/Http/Client/Loop.antt =====
-- The loop over the requests of a connection ends.
use c_http.Base.{
  ℕ, zero, suc, ◌-◌, ◌≤◌, ◌<◌, ◌≡◌, ◌≢◌, refl, Bool, true, false, not, List, [], ◌∷◌, ◌++◌, Option,
  none, some, if◌then◌else◌, ◌==◌, ltb, Bytes, length, take, arith,
}
use c_http.Http.Receive.{
  RecvResult, received, recv_interrupted, recv_failed, found_in, ReadRequest, request_loop,
  read_request,
}
use c_http.Http.Client.{
  HttpServer, parse_request, recvs_of, Handled, upgraded, respond, Iteration, closed, taken_over,
  sent, send_handled, answer_request, empty_response, apply_default_headers, serve, after_read,
  handle_request, Ending, unfinished, go_on, client_loop, handle_client,
}
use c_http.Http.Client.Left.{parse_request-FewLeft}
use c_http.Ws.Session.{SendResult}

abbrev FewRead : ℕ → ReadRequest → Type 0
FewRead n r = length r.recvs ≤ n

FewRead-if :
    (n : ℕ) (b : Bool) (r s : ReadRequest)
    → (b ≡ true → FewRead n r)
    → (b ≡ false → FewRead n s)
    → FewRead n (if b then r else s)
FewRead-if n true r s h k = h refl
FewRead-if n false r s h k = k refl

FewRead-mono : (m n : ℕ) (r : ReadRequest) → m ≤ n → FewRead m r → FewRead n r
FewRead-mono m n r h k = omega (arith, h, k)

request_loop-FewRead :
    (recvs : List RecvResult) (size : ℕ) (buf : Bytes)
    → FewRead (length recvs) (request_loop recvs size buf)
unfolding request_loop
request_loop-FewRead [] size buf =
    FewRead-if 0 (ltb (length buf) (size - 1)) _ _ (λ _. omega arith) (λ _. omega arith)
request_loop-FewRead (recv_failed ∷ recvs) size buf =
    FewRead-if (suc (length recvs)) (ltb (length buf) (size - 1)) _ _ (λ _. omega arith)
      (λ _. omega arith)
request_loop-FewRead (recv_interrupted ∷ recvs) size buf =
    FewRead-if (suc (length recvs)) (ltb (length buf) (size - 1)) _ _
      (λ _.
        FewRead-mono _ _ (request_loop recvs size buf) (omega arith)
          (request_loop-FewRead recvs size buf))
      (λ _. omega arith)
request_loop-FewRead (received bytes ∷ recvs) size buf =
    let n = suc (length recvs) in
    let chunk = take (size - 1 - length buf) bytes in
    let again = request_loop recvs size (buf ++ chunk) in
    let stop : ReadRequest = record { buf = some (buf ++ chunk); complete = true; recvs = recvs } in
    let hang_up : ReadRequest = record { buf = some buf; complete = false; recvs = recvs } in
    FewRead-if n (not (ltb (length buf) (size - 1))) _ _ (λ _. omega arith)
      (λ _.
        FewRead-if n (length chunk == 0) hang_up (if found_in buf chunk then stop else again)
          (λ _. omega arith)
          (λ _.
            FewRead-if n (found_in buf chunk) stop again (λ _. omega arith)
              (λ _.
                FewRead-mono (length recvs) n again (omega arith)
                  (request_loop-FewRead recvs size (buf ++ chunk)))))

-- A request that has bytes took an outcome.
abbrev Took : ℕ → Option Bytes → List RecvResult → Type 0
Took n none recvs = Unit {0}
Took n (some []) recvs = Unit {0}
Took n (some (b ∷ buf)) recvs = length recvs < n

Took-some :
    (n : ℕ) (buf : Option Bytes) (recvs : List RecvResult) → length recvs < n → Took n buf recvs
Took-some n none recvs h = tt
Took-some n (some []) recvs h = tt
Took-some n (some (b ∷ buf)) recvs h = h

Took-if :
    (n : ℕ) (b : Bool) (r s : ReadRequest)
    → (b ≡ true → Took n r.buf r.recvs)
    → (b ≡ false → Took n s.buf s.recvs)
    → Took n (if b then r else s).buf (if b then r else s).recvs
Took-if n true r s h k = h refl
Took-if n false r s h k = k refl

read_request-Took :
    (recvs : List RecvResult)
    → Took (length recvs) (request_loop recvs 4096 []).buf (request_loop recvs 4096 []).recvs
unfolding request_loop
read_request-Took [] = tt
read_request-Took (recv_failed ∷ recvs) = tt
read_request-Took (recv_interrupted ∷ recvs) =
    Took-some (suc (length recvs)) (request_loop recvs 4096 []).buf
      (request_loop recvs 4096 []).recvs (omega (arith, request_loop-FewRead recvs 4096 []))
read_request-Took (received bytes ∷ recvs) =
    let n = suc (length recvs) in
    let chunk = take 4095 bytes in
    let again = request_loop recvs 4096 chunk in
    let stop : ReadRequest = record { buf = some chunk; complete = true; recvs = recvs } in
    let hang_up : ReadRequest = record { buf = some []; complete = false; recvs = recvs } in
    Took-if n (length chunk == 0) hang_up (if found_in [] chunk then stop else again) (λ _. tt)
      (λ _.
        Took-if n (found_in [] chunk) stop again (λ _. Took-some n (some chunk) recvs (omega arith))
          (λ _.
            Took-some n again.buf again.recvs
              (omega (arith, request_loop-FewRead recvs 4096 chunk))))

-- What an iteration leaves for the next.
abbrev LeavesFewer : ℕ → Iteration → Type 0
LeavesFewer n (sent raw persist recvs) = length recvs < n
LeavesFewer n _ = Unit {0}

send_handled-LeavesFewer :
    (n : ℕ) (server : HttpServer) (sends : List SendResult) (recvs : List RecvResult) (h : Handled)
    → length recvs < n
    → LeavesFewer n (send_handled server sends recvs h)
send_handled-LeavesFewer n server sends recvs upgraded k = tt
send_handled-LeavesFewer n server sends recvs (respond call res persist) k = k

after_read-LeavesFewer :
    (n : ℕ) (server : HttpServer) (sends : List SendResult) (recvs : List RecvResult)
    (complete : Bool) (buf : Option Bytes)
    → Took n buf recvs
    → LeavesFewer n (after_read server sends recvs complete buf)
unfolding serve
after_read-LeavesFewer n server sends recvs complete none k = tt
after_read-LeavesFewer n server sends recvs complete (some []) k = tt
after_read-LeavesFewer n server sends recvs complete (some (b ∷ buf)) k =
    let parsed = parse_request server.mem (b ∷ buf) complete recvs in
    send_handled-LeavesFewer n server sends (recvs_of parsed)
      (answer_request server (apply_default_headers server empty_response false) parsed)
      (omega (
        arith,
        k,
        parse_request-FewLeft (length recvs) server.mem (b ∷ buf) complete recvs (omega arith),
      ))

handle_request-LeavesFewer :
    (server : HttpServer) (recvs : List RecvResult) (sends : List SendResult)
    → LeavesFewer (length recvs) (handle_request server recvs sends)
unfolding handle_request read_request
handle_request-LeavesFewer server recvs sends =
    let r = request_loop recvs 4096 [] in
    after_read-LeavesFewer (length recvs) server sends r.recvs r.complete r.buf
      (read_request-Took recvs)

go_on-ends :
    (n : ℕ) (again : List RecvResult → List SendResult → Bytes → Ending) (wire : Bytes)
    (i : Iteration)
    → LeavesFewer n i
    → ((recvs : List RecvResult) (sends : List SendResult) (w : Bytes)
        → length recvs < n
        → again recvs sends w ≢ unfinished)
    → go_on again wire i ≢ unfinished
go_on-ends n again wire closed h known e = cc
go_on-ends n again wire taken_over h known e = cc
go_on-ends n again wire (sent raw true recvs) h known e =
    known recvs raw.rest (wire ++ raw.taken) h e
go_on-ends n again wire (sent raw false recvs) h known e = cc

client_loop-ends :
    (fuel : ℕ) (server : HttpServer) (recvs : List RecvResult) (sends : List SendResult)
    (wire : Bytes)
    → length recvs < fuel
    → client_loop fuel server recvs sends wire ≢ unfinished
unfolding client_loop
client_loop-ends zero server recvs sends wire h e = omega (arith, h)
client_loop-ends (suc fuel) server recvs sends wire h e =
    go_on-ends (length recvs) (client_loop fuel server) wire (handle_request server recvs sends)
      (handle_request-LeavesFewer server recvs sends)
      (λ rs ss w k. client_loop-ends fuel server rs ss w (omega (arith, h, k))) e

-- Whatever a client sends and however its calls go, and whatever the handlers do, the loop over the
-- requests of its connection ends: each request that is answered takes something that was received.
pub handle_client-ne-unfinished :
    (server : HttpServer) (recvs : List RecvResult) (sends : List SendResult)
    → handle_client server recvs sends ≢ unfinished
unfolding handle_client
handle_client-ne-unfinished server recvs sends =
    client_loop-ends (suc (length recvs)) server recvs sends [] (omega arith)

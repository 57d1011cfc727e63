-- ===== src/Ws/Parse/Relation.antt =====
-- The loop of `ws_parse` as a relation: the rounds that it makes, with no fuel.
use c_http.Base.{ℕ, zero, suc, ◌<◌, ◌≡◌, Bool, arith}
use c_http.Ws.Session.{HttpWs}
use c_http.Ws.Parse.Invariant.{IsValid, parse_step-IsValid}
use c_http.Ws.Parse.Termination.{pending, parse_step-Below}
use c_http.Ws.Parse.{WsParseResult, more, go, wait, ret, parse_step, parse_loop, ws_parse}

pub data Parses (mem : ℕ → Bool) (last : HttpWs) (result : WsParseResult) : HttpWs → Type 0 where
  next :
      {ws ws1 : HttpWs}
      → parse_step mem ws ≡ go ws1
      → Parses mem last result ws1
      → Parses mem last result ws
  waits : {ws : HttpWs} → parse_step mem ws ≡ wait last → result ≡ more → Parses mem last result ws
  returns : {ws : HttpWs} → parse_step mem ws ≡ ret last result → Parses mem last result ws

parse_loop-Parses :
    {mem : ℕ → Bool} {last ws : HttpWs} {result : WsParseResult} (fuel : ℕ)
    → IsValid ws
    → pending ws < fuel
    → Parses mem last result ws
    → parse_loop fuel mem ws ≡ (last, result)
unfolding parse_loop
parse_loop-Parses zero v h p = elim h [ ]
parse_loop-Parses {mem} {ws = ws} (suc fuel) v h (next {ws1 = ws1} e p) =
    let below = rw e at (parse_step-Below mem ws v) in
    let valid = rw e at (parse_step-IsValid mem ws v) in
    rw e (parse_loop-Parses fuel valid (omega arith) p)
parse_loop-Parses (suc fuel) v h (waits e r) = rw e (cc)
parse_loop-Parses (suc fuel) v h (returns e) = rw e

-- The rounds of a well-formed session are those that `ws_parse` makes.
pub ws_parse-Parses :
    {mem : ℕ → Bool} {last : HttpWs} {result : WsParseResult} (ws : HttpWs)
    → IsValid ws
    → Parses mem last result ws
    → ws_parse mem ws ≡ (last, result)
ws_parse-Parses ws v p = unfold ws_parse in parse_loop-Parses _ v (ground arith) p

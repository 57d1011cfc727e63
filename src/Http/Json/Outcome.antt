-- ===== src/Http/Json/Outcome.antt =====
-- `http_req_json_string` on every body.
use c_http.Base.{ℕ, ◌≤◌, ◌<◌, Option, none, some, Bytes, All, length}
use c_http.Http.Json.{Decoded, rejected, overrun, stuck, decoded}
use c_http.Http.Json.Shorter.{Shorter}

-- The loops end; a decoded text has no NUL and fits the buffer of that size with its NUL.
abbrev pub IsOutcome : ℕ → Decoded → Type 0
IsOutcome size rejected = Unit {0}
IsOutcome size overrun = Unit {0}
IsOutcome size stuck = ⊥
IsOutcome size (decoded out) = (length out < size) × All (λ c. 0 < c) out

-- The bytes stored so far.
record Stored (size : ℕ) (out : Bytes) : Type 0 where
  in_size : length out ≤ size
  no_nul : All (λ c. 0 < c) out

abbrev Encoded : ℕ → Option Bytes → Type 0
Encoded room none = Unit {0}
Encoded room (some bytes) = (length bytes ≤ room) × All (λ c. 0 < c) bytes

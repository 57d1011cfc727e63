-- ===== src/Ws/Parse/Growth.antt =====
-- The growth of the message buffer.
use native.Mathlib.Nat.{pow-suc}
use c_http.Base.{ℕ, zero, suc, ◌*◌, ◌^◌, ◌≤◌, ◌<◌, ◌≡◌, ap, Bool, true, some, arith}
use c_http.Ws.Parse.{grow_cap, ws_msg_reserve}

two_pow_suc : (cap fuel : ℕ) → cap * 2 ^ suc fuel ≡ cap * 2 * 2 ^ fuel
two_pow_suc cap fuel = omega (arith, ap (λ (t : ℕ). cap * t) (pow-suc 2 fuel))

-- Enough rounds reach the capacity that is needed.
grow_cap_enough : (fuel cap need : ℕ) → need < cap * 2 ^ fuel → need < grow_cap fuel cap need
unfolding grow_cap
grow_cap_enough zero cap need h = omega arith
grow_cap_enough (suc fuel) cap need h =
    ground (arith, two_pow_suc cap fuel, grow_cap_enough fuel (cap * 2) need)

pub ws_msg_reserve-le :
    (mem : ℕ → Bool) (cap need new_cap : ℕ)
    → ws_msg_reserve mem cap need ≡ some new_cap
    → need ≤ new_cap
unfolding ws_msg_reserve
ws_msg_reserve-le mem cap need new_cap h =
    ground (arith, grow_cap_enough 64 256 need, grow_cap_enough 64 cap need)

-- An empty buffer grows past what is asked for, so that the NUL has its place.
pub ws_msg_reserve_fresh :
    (need : ℕ)
    → 0 < need
    → need < 2 ^ 63
    → (cap : ℕ) × (ws_msg_reserve (λ n. true) 0 need ≡ some cap) × (need < cap)
unfolding ws_msg_reserve
ws_msg_reserve_fresh need pos small =
    (grow_cap 64 256 need, ground arith, grow_cap_enough 64 256 need (omega arith))

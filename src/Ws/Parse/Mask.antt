-- ===== src/Ws/Parse/Mask.antt =====
-- Masking twice with one key gives the bytes back.
use Prim.Native.Nat.{bit_xor}
use c_http.Base.{
  ℕ, zero, suc, ◌+◌, ◌%◌, ◌≡◌, refl, Bool, true, ◌&&◌, [], ◌∷◌, Bytes, IsByte, All, get_or, ◌==◌,
  ltb, arith, all_below, all_below_sound,
}
use c_http.Ws.Parse.{unmask}

undoes : ℕ → ℕ → Bool
undoes k x = bit_xor (bit_xor x k) k == x && ltb (bit_xor x k) 256

undoes_all : ℕ → Bool
unfolding all_below
undoes_all k = all_below 256 (undoes k)

undoes_table : all_below 256 undoes_all ≡ true
unfolding all_below undoes_all undoes
undoes_table = refl

bit_xor_twice :
    (x k : ℕ) → IsByte x → IsByte k → (bit_xor (bit_xor x k) k ≡ x) × IsByte (bit_xor x k)
unfolding undoes undoes_all
bit_xor_twice x k hx hk =
    let h =
      all_below_sound 256 (undoes k) x (all_below_sound 256 undoes_all k undoes_table hk) hx in
    ground (arith, h)

get_or-IsByte : (key : Bytes) (i : ℕ) → All IsByte key → IsByte (get_or key i 0)
get_or-IsByte [] i h = omega arith
get_or-IsByte (k ∷ ks) zero h = h.0
get_or-IsByte (k ∷ ks) (suc i) h = get_or-IsByte ks i h.1

pub unmask_twice :
    (key : Bytes) (done : ℕ) (bytes : Bytes)
    → All IsByte key
    → All IsByte bytes
    → unmask key done (unmask key done bytes) ≡ bytes
unfolding unmask
unmask_twice key done [] hk h = refl
unmask_twice key done (c ∷ cs) hk h = ground (
  arith,
  bit_xor_twice c (get_or key (done % 4) 0) h.0 (get_or-IsByte key (done % 4) hk),
  unmask_twice key (done + 1) cs hk h.1,
)

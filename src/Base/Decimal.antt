-- ===== src/Base/Decimal.antt =====
-- Decimal numbers: what printf("%d") and printf("%zu") write of a natural number, and strtoll().
use Prim.Native.Nat.{ℕ, zero, suc, ◌+◌, ◌-◌, ◌*◌, ◌/◌, ◌%◌, ◌^◌, ◌<◌}
use mathlib.Core.Path.{◌≡◌, refl, ap, ◌∙◌}
use mathlib.Core.Bool.{Bool, true, false, ◌||◌}
use mathlib.Core.List.{[], ◌∷◌}
use mathlib.Core.Logic.{◌≢◌, inl, inr}
use native.Mathlib.Omega.{arith}
use c_http.Base.Tests.{if◌then◌else◌, ◌==◌, ltb, leb, between, is_digit, Bool-cases}
use c_http.Base.Lists.{all, drop_while, length}
use c_http.Base.CString.{Bytes}

-- The digits of `n` in front of `behind`; a digit is taken off in each round.
unfoldable pub digits_loop : ℕ → ℕ → Bytes → Bytes
digits_loop zero n behind = behind
digits_loop (suc fuel) n behind =
    let rest = digits_loop fuel (n / 10) ((b'0' + n % 10) ∷ behind) in
    if ltb n 10 then (b'0' + n) ∷ behind else rest

unfoldable pub decimal : ℕ → Bytes
decimal n = digits_loop (suc n) n []

-- isspace()
abbrev pub is_c_space : ℕ → Bool
is_c_space c = c == b' ' || between 9 13 c

-- The value of the digits at the pointer, behind a value that was read.
unfoldable pub digits_value : ℕ → Bytes → ℕ
digits_value v [] = v
digits_value v (c ∷ s) = if is_digit c then digits_value (v * 10 + (c - b'0')) s else v

-- The number in front of `behind`: `any` is false when there is no digit, which leaves `end` at the
-- start of the text.
pub record Strtoll : Type 0 where
  pub any : Bool
  pub negative : Bool
  pub magnitude : ℕ
  pub end_ptr : Bytes

abbrev pub digits_at : Bool → Bytes → Strtoll
digits_at negative [] = record { any = false; negative = negative; magnitude = 0; end_ptr = [] }
digits_at negative (c ∷ s) = record {
  any = is_digit c;
  negative = negative;
  magnitude = digits_value 0 (c ∷ s);
  end_ptr = drop_while is_digit (c ∷ s);
}

abbrev pub sign_at : Bytes → Strtoll
sign_at [] = digits_at false []
sign_at (c ∷ s) =
    if c == b'-'
    then digits_at true s
    else if c == b'+'
    then digits_at false s
    else digits_at false (c ∷ s)

abbrev pub strtoll : Bytes → Strtoll
strtoll s = sign_at (drop_while is_c_space s)

-- The range of long long: ERANGE outside of it.
abbrev pub in_range : Strtoll → Bool
in_range r = if r.negative then leb r.magnitude (2 ^ 63) else ltb r.magnitude (2 ^ 63)

digits_value-digits_loop :
    (fuel n : ℕ) (behind : Bytes)
    → n < fuel
    → digits_value 0 (digits_loop fuel n behind) ≡ digits_value n behind
unfolding digits_value digits_loop
digits_value-digits_loop zero n behind h = absurd (omega (arith, h))
digits_value-digits_loop (suc fuel) n behind h = elim (Bool-cases (ltb n 10)) [
  | inl small ↦
      let digit : is_digit (b'0' + n) ≡ true = ground arith in
      rw (small, digit) (ap (λ v. digits_value v behind) (omega arith))
  | inr large ↦
      let digit : is_digit (b'0' + n % 10) ≡ true = ground arith in
      rw large (
        digits_value-digits_loop fuel (n / 10) ((b'0' + n % 10) ∷ behind) (ground arith)
        ∙ rw digit (ap (λ v. digits_value v behind) (omega arith)))
]

all_digits :
    (fuel n : ℕ) (behind : Bytes)
    → n < fuel
    → all is_digit behind ≡ true
    → all is_digit (digits_loop fuel n behind) ≡ true
unfolding digits_loop
all_digits zero n behind h k = absurd (omega (arith, h))
all_digits (suc fuel) n behind h k = elim (Bool-cases (ltb n 10)) [
  | inl small ↦ let digit : is_digit (b'0' + n) ≡ true = ground arith in rw small (rw digit k)
  | inr large ↦
      let digit : is_digit (b'0' + n % 10) ≡ true = ground arith in
      rw large (all_digits fuel (n / 10) ((b'0' + n % 10) ∷ behind) (ground arith) (rw digit k))
]

length-digits_loop :
    (fuel n : ℕ) (behind : Bytes) → n < fuel → length behind < length (digits_loop fuel n behind)
unfolding digits_loop
length-digits_loop zero n behind h = absurd (omega (arith, h))
length-digits_loop (suc fuel) n behind h =
    let next = length-digits_loop fuel (n / 10) ((b'0' + n % 10) ∷ behind) in ground (arith, next)

pub decimal-digits : (n : ℕ) → (all is_digit (decimal n) ≡ true) × (decimal n ≢ [])
unfolding decimal
decimal-digits n = (
  all_digits (suc n) n [] (omega arith) refl,
  λ e. omega (arith, length-digits_loop (suc n) n [] (omega arith), ap length e),
)

digits_value-decimal : (n : ℕ) → digits_value 0 (decimal n) ≡ n
unfolding digits_value decimal
digits_value-decimal n = digits_value-digits_loop (suc n) n [] (omega arith)

drop_digits : (s : Bytes) → all is_digit s ≡ true → drop_while is_digit s ≡ []
drop_digits [] h = refl
drop_digits (c ∷ s) h = ground (arith, drop_digits s)

-- A text of digits is read whole.
strtoll-digits :
    (s : Bytes)
    → all is_digit s ≡ true
    → s ≢ []
    → strtoll s
      ≡ record { any = true; negative = false; magnitude = digits_value 0 s; end_ptr = [] }
strtoll-digits [] h ne = absurd (ne refl)
strtoll-digits (c ∷ s) h ne =
    let digit : is_digit c ≡ true = ground (arith, h) in
    let not_blank : is_c_space c ≡ false = ground (arith, digit) in
    let no_minus : c == b'-' ≡ false = ground (arith, digit) in
    let no_plus : c == b'+' ≡ false = ground (arith, digit) in
    rw not_blank (rw (no_minus, no_plus) (rw (drop_digits (c ∷ s) h) (rw digit refl)))

-- A printed number is read back.
pub strtoll-decimal :
    (n : ℕ)
    → strtoll (decimal n) ≡ record { any = true; negative = false; magnitude = n; end_ptr = [] }
strtoll-decimal n =
    let (digits, ne) = decimal-digits n in
    strtoll-digits (decimal n) digits ne
    ∙ ap (λ m. record { any = true; negative = false; magnitude = m; end_ptr = [] })
        (digits_value-decimal n)

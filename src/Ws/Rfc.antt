-- ===== src/Ws/Rfc.antt =====
-- The frame header of RFC 6455, section 5.2, read independently of the program.
use c_http.Base.{
  ℕ, ◌+◌, ◌*◌, ◌/◌, ◌%◌, ◌^◌, Bool, ◌∷◌, Option, none, some, if◌then◌else◌, ◌==◌, ltb, Bytes,
}

pub record FrameHead : Type 0 where
  pub fin : Bool
  pub rsv : ℕ
  pub opcode : ℕ
  pub masked : Bool
  pub len : ℕ

abbrev pub head_of : ℕ → ℕ → ℕ → FrameHead
head_of b0 b1 len = record {
  fin = b0 / 128 == 1;
  rsv = b0 / 16 % 8;
  opcode = b0 % 16;
  masked = b1 / 128 == 1;
  len = len;
}

abbrev pub read_long : ℕ → ℕ → Bytes → Option (FrameHead × Bytes)
read_long b0 b1 (a ∷ b ∷ c ∷ d ∷ e ∷ f ∷ g ∷ h ∷ rest) = some (
  head_of b0 b1
      (a * 2 ^ 56 + b * 2 ^ 48 + c * 2 ^ 40 + d * 2 ^ 32 + e * 2 ^ 24 + f * 2 ^ 16 + g * 2 ^ 8 + h),
  rest,
)
read_long b0 b1 _ = none

abbrev pub read_middle : ℕ → ℕ → Bytes → Option (FrameHead × Bytes)
read_middle b0 b1 (a ∷ b ∷ rest) = some (head_of b0 b1 (a * 2 ^ 8 + b), rest)
read_middle b0 b1 _ = none

-- The header and what follows it.
abbrev pub read_head : Bytes → Option (FrameHead × Bytes)
read_head (b0 ∷ b1 ∷ rest) =
    if ltb (b1 % 128) 126
    then some (head_of b0 b1 (b1 % 128), rest)
    else if b1 % 128 == 126
    then read_middle b0 b1 rest
    else read_long b0 b1 rest
read_head _ = none

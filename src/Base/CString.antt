-- ===== src/Base/CString.antt =====
-- C strings: a pointer into a NUL-terminated string is the list of the bytes in front of the NUL.
-- Reading at the end gives the NUL, 0.
use Prim.Native.Nat.{ℕ}
use Prim.Native.Char.{code}
use Prim.Native.String.{String}
use mathlib.Core.Path.{◌≡◌, refl}
use mathlib.Core.Logic.{◌↔◌}
use mathlib.Core.Bool.{Bool, true, false, ◌&&◌, ◌||◌}
use mathlib.Core.List.{List, [], ◌∷◌, ◌++◌, map, reverse}
use native.Mathlib.Omega.{arith}
use c_http.Base.Tests.{◌==◌, to_lower}
use c_http.Base.Lists.{drop_while}

abbrev pub Bytes : Type 0
Bytes = List ℕ

-- The code points of a text: its bytes, if it is ASCII. `String` has its own `[]` and `∷`.
abbrev pub codes : String → Bytes
codes String.[] = []
codes (String.◌∷◌ c s) = code c ∷ codes s

-- `*p`
abbrev pub deref : Bytes → ℕ
deref [] = 0
deref (c ∷ s) = c

-- `p + 1`, for a `p` that is not at the NUL
abbrev pub advance : Bytes → Bytes
advance [] = []
advance (c ∷ s) = s

-- `strcmp(a, b) == 0`
abbrev pub str_eq : Bytes → Bytes → Bool
str_eq [] [] = true
str_eq [] (b ∷ bs) = false
str_eq (a ∷ as') [] = false
str_eq (a ∷ as') (b ∷ bs) = a == b && str_eq as' bs

-- `strcasecmp(a, b) == 0`
abbrev pub str_case_eq : Bytes → Bytes → Bool
str_case_eq a b = str_eq (map to_lower a) (map to_lower b)

-- `strncmp(s, prefix, strlen(prefix)) == 0`
abbrev pub starts_with : Bytes → Bytes → Bool
starts_with s [] = true
starts_with [] (p ∷ ps) = false
starts_with (c ∷ s) (p ∷ ps) = c == p && starts_with s ps

-- `strchr(s, c) != NULL`, for a `c` that is not the NUL
abbrev pub str_has : ℕ → Bytes → Bool
str_has c [] = false
str_has c (x ∷ xs) = x == c || str_has c xs

-- `while (len > 0 && is_ows(start[len - 1])) len--` over the span `s`
abbrev pub trim_end : (ℕ → Bool) → Bytes → Bytes
trim_end p s = reverse (drop_while p (reverse s))

pub str_eq_iff : (a b : Bytes) → (str_eq a b ≡ true) ↔ (a ≡ b)
str_eq_iff [] [] = ground arith
str_eq_iff [] (b ∷ bs) = ground arith
str_eq_iff (a ∷ as') [] = ground arith
str_eq_iff (a ∷ as') (b ∷ bs) = ground (arith, str_eq_iff as' bs)

pub starts_with_iff : (s p : Bytes) → (starts_with s p ≡ true) ↔ ((t : Bytes) × (s ≡ p ++ t))
starts_with_iff s p = (found s p, λ (t, e). holds s p t e)
  where
    found : (s p : Bytes) → starts_with s p ≡ true → (t : Bytes) × (s ≡ p ++ t)
    found s [] h = (s, refl)
    found [] (p ∷ ps) h = cc
    found (c ∷ s) (p ∷ ps) h = let (t, e) = found s ps (ground arith) in (t, ground arith)

    holds : (s p t : Bytes) → s ≡ p ++ t → starts_with s p ≡ true
    holds s [] t e = refl
    holds [] (p ∷ ps) t e = cc
    holds (c ∷ s) (p ∷ ps) t e = ground (arith, holds s ps t (ground arith))

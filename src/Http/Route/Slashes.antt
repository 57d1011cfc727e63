-- ===== src/Http/Route/Slashes.antt =====
-- The paths that a middleware is run on, and those that reach a route.
use c_http.Base.{
  ℕ, suc, ◌-◌, ◌≡◌, ◌≢◌, ◌↔◌, refl, ap, sym, ◌∙◌, Bool, true, false, ◌&&◌, [], ◌∷◌, ◌++◌,
  if◌then◌else◌, ◌==◌, ltb, Bytes, length, length-append, append-nil, take, get_or, deref,
  starts_with, starts_with_iff, arith, inl, inr, Bool-cases,
}
use c_http.Http.Route.{segments_loop, http_parse_route_segments, path_from, path_matches}

-- The registered path without the slash at its end, which is optional.
abbrev pub without_slash : Bytes → Bytes
without_slash reg =
    if ltb 1 (length reg) && get_or reg (length reg - 1) 0 == b'/'
    then take (length reg - 1) reg
    else reg

-- The path itself and those below it; the empty path covers all.
pub data Covers : Bytes → Bytes → Type 0 where
  everything : (real : Bytes) → Covers [] real
  same : (c : ℕ) (reg : Bytes) → Covers (c ∷ reg) (c ∷ reg)
  below : (c : ℕ) (reg rest : Bytes) → Covers (c ∷ reg) (c ∷ (reg ++ (b'/' ∷ rest)))
  below_slash :
      (c : ℕ) (reg rest : Bytes)
      → get_or (c ∷ reg) (length reg) 0 ≡ b'/'
      → Covers (c ∷ reg) (c ∷ (reg ++ rest))

get_or_behind : (xs ys : Bytes) → get_or (xs ++ ys) (length xs) 0 ≡ deref ys
get_or_behind [] [] = refl
get_or_behind [] (y ∷ ys) = refl
get_or_behind (x ∷ xs) ys = get_or_behind xs ys

behind_cons : (c : ℕ) (reg : Bytes) → suc (length reg) - 1 ≡ length reg
behind_cons c reg = omega arith

extends-Covers :
    (c : ℕ) (reg rest : Bytes)
    → path_from (c ∷ reg) (c ∷ (reg ++ rest)) ≡ true
    → Covers (c ∷ reg) (c ∷ (reg ++ rest))
extends-Covers c reg [] h = rw append-nil (same c reg)
extends-Covers c reg (d ∷ rest) h = elim (Bool-cases (get_or (c ∷ reg) (length reg) 0 == b'/')) [
  | inl slash ↦ below_slash c reg (d ∷ rest) (ground arith)
  | inr plain ↦
      let longer : length (c ∷ (reg ++ (d ∷ rest))) == length (c ∷ reg) ≡ false =
        ground (arith, length-append reg (d ∷ rest)) in
      let next : d ≡ b'/' = ground (arith, behind_cons c reg, get_or_behind reg (d ∷ rest)) in
      rw next (below c reg rest)
]

path_from-Covers : (reg real : Bytes) → path_from reg real ≡ true → Covers reg real
path_from-Covers [] real h = everything real
path_from-Covers (c ∷ reg) [] h = ground arith
path_from-Covers (c ∷ reg) (d ∷ real) h =
    let starts : starts_with (d ∷ real) (c ∷ reg) ≡ true = ground arith in
    let (rest, e) = (starts_with_iff (d ∷ real) (c ∷ reg)).0 starts in
    rw e (extends-Covers c reg rest (ap (path_from (c ∷ reg)) (sym e) ∙ h))

starts_with-append : (reg rest : Bytes) → starts_with (reg ++ rest) reg ≡ true
starts_with-append reg rest = (starts_with_iff (reg ++ rest) reg).1 (rest, refl)

str_self : (reg : Bytes) → starts_with reg reg ≡ true
str_self reg = (starts_with_iff reg reg).1 ([], sym (append-nil reg))

Covers-path_from : (reg real : Bytes) → Covers reg real → path_from reg real ≡ true
Covers-path_from _ _ (everything real) = refl
Covers-path_from _ _ (same c reg) = ground (arith, str_self (c ∷ reg))
Covers-path_from _ _ (below c reg rest) =
    ground (arith, starts_with-append (c ∷ reg) (b'/' ∷ rest), get_or_behind reg (b'/' ∷ rest))
Covers-path_from _ _ (below_slash c reg rest slash) =
    ground (arith, starts_with-append (c ∷ reg) rest, behind_cons c reg)

pub path_matches-path_from :
    (reg real : Bytes) → path_matches reg real ≡ path_from (without_slash reg) real
unfolding path_matches
path_matches-path_from reg real = ground arith

-- A middleware is run exactly on its path and the paths below it, on all of them for the empty
-- path; a slash at the end of its path, behind something, is ignored.
path_matches-Covers :
    (reg real : Bytes) → (path_matches reg real ≡ true) ↔ Covers (without_slash reg) real
path_matches-Covers reg real = (
  λ h. path_from-Covers _ _ (sym (path_matches-path_from reg real) ∙ h),
  λ c. path_matches-path_from reg real ∙ Covers-path_from _ _ c,
)

parse_doubled :
    (mem : ℕ → Bool) (path : Bytes)
    → http_parse_route_segments mem (b'/' ∷ b'/' ∷ path)
      ≡ http_parse_route_segments mem (b'/' ∷ path)
unfolding http_parse_route_segments segments_loop
parse_doubled mem path = refl

pub without_slash_two :
    (c : ℕ) (reg : Bytes) → c ≢ b'/' → (t : Bytes) × (without_slash (b'/' ∷ c ∷ reg) ≡ b'/' ∷ c ∷ t)
without_slash_two c [] other = ([], ground arith)
without_slash_two c (d ∷ reg) other =
    elim (Bool-cases (get_or (b'/' ∷ c ∷ d ∷ reg) (length (b'/' ∷ c ∷ d ∷ reg) - 1) 0 == b'/')) [
      | inl slash ↦
          let shorter : length (b'/' ∷ c ∷ d ∷ reg) - 1 ≡ suc (suc (length reg)) = omega arith in
          (take (length reg) (d ∷ reg), ground arith)
      | inr plain ↦ (d ∷ reg, ground arith)
    ]

-- A slash is ignored by the routes when it is doubled, but not by the middlewares: with a second
-- slash at its head a request reaches the same route, whatever that is, and no middleware that is
-- registered for a path of its own is run on it.
pub doubled_slash :
    (mem : ℕ → Bool) (c : ℕ) (reg path : Bytes)
    → c ≢ b'/'
    → (http_parse_route_segments mem (b'/' ∷ b'/' ∷ path)
        ≡ http_parse_route_segments mem (b'/' ∷ path))
      × (path_matches (b'/' ∷ c ∷ reg) (b'/' ∷ b'/' ∷ path) ≡ false)
doubled_slash mem c reg path other =
    let (t, e) = without_slash_two c reg other in
    let elsewhere : path_from (b'/' ∷ c ∷ t) (b'/' ∷ b'/' ∷ path) ≡ false = ground arith in
    (
      parse_doubled mem path,
      path_matches-path_from (b'/' ∷ c ∷ reg) (b'/' ∷ b'/' ∷ path)
          ∙ ap (λ (r : Bytes). path_from r (b'/' ∷ b'/' ∷ path)) e
          ∙ elsewhere,
    )

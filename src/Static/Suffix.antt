-- ===== src/Static/Suffix.antt =====
-- Which paths belong to a mount.
use c_http.Base.{
  ℕ, suc, ◌+◌, ◌<◌, ◌≡◌, ◌≢◌, refl, ap, sym, ◌∙◌, true, false, ◌&&◌, [], ◌∷◌, ◌++◌, Option, none,
  some, ◌↔◌, if◌then◌else◌, ◌==◌, Bytes, length, drop, get_or, deref, advance, append-nil,
  starts_with, starts_with_iff, All, arith, inl, inr, Bool-cases,
}
use c_http.Static.{extract_suffix}

get_or-length : (xs ys : Bytes) → get_or (xs ++ ys) (length xs) 0 ≡ deref ys
get_or-length [] [] = refl
get_or-length [] (y ∷ ys) = refl
get_or-length (x ∷ xs) ys = get_or-length xs ys

drop_behind : (xs : Bytes) (y : ℕ) (ys : Bytes) → drop (suc (length xs)) (xs ++ (y ∷ ys)) ≡ ys
drop_behind [] y ys = refl
drop_behind (x ∷ xs) y ys = drop_behind xs y ys

-- The paths of a mount with what stands behind the mount's path: of the root all of them, of
-- another the mount's path itself and those below it.
pub data Below : Bytes → Bytes → Bytes → Type 0 where
  root : (path : Bytes) → Below (b'/' ∷ []) path (advance path)
  itself : (prefix : Bytes) → prefix ≢ b'/' ∷ [] → Below prefix prefix []
  inside :
      (prefix suffix : Bytes) → prefix ≢ b'/' ∷ [] → Below prefix (prefix ++ (b'/' ∷ suffix)) suffix

is_root : (prefix : Bytes) → length prefix == 1 && deref prefix == b'/' ≡ true → prefix ≡ b'/' ∷ []
is_root [] h = ground arith
is_root (c ∷ []) h = ground arith
is_root (c ∷ d ∷ s) h = ground arith

not_root :
    (prefix : Bytes) → prefix ≢ b'/' ∷ [] → length prefix == 1 && deref prefix == b'/' ≡ false
not_root prefix other = elim (Bool-cases (length prefix == 1 && deref prefix == b'/')) [
  | inl yes_root ↦ absurd (other (is_root prefix yes_root))
  | inr plain ↦ plain
]

abbrev behind_prefix : Bytes → Option Bytes
behind_prefix [] = some []
behind_prefix (c ∷ t) = if c == b'/' then some t else none

extract_suffix-other :
    (prefix t : Bytes)
    → prefix ≢ b'/' ∷ []
    → All (λ c. 0 < c) t
    → extract_suffix prefix (prefix ++ t) ≡ behind_prefix t
unfolding extract_suffix
extract_suffix-other prefix [] other v =
    rw (not_root prefix other, (starts_with_iff (prefix ++ []) prefix).1 ([], refl))
      (rw (get_or-length prefix []) refl)
extract_suffix-other prefix (c ∷ t) other v =
    let not_end : c == 0 ≡ false = ground (arith, v.0) in
    let size : length prefix + 1 ≡ suc (length prefix) = omega arith in
    rw (not_root prefix other, (starts_with_iff (prefix ++ (c ∷ t)) prefix).1 (c ∷ t, refl))
      (rw (get_or-length prefix (c ∷ t)) (rw not_end (rw size (rw (drop_behind prefix c t) refl))))

extract_suffix-elsewhere :
    (prefix path : Bytes)
    → prefix ≢ b'/' ∷ []
    → starts_with path prefix ≡ false
    → extract_suffix prefix path ≡ none
unfolding extract_suffix
extract_suffix-elsewhere prefix path other h = rw (not_root prefix other, h)

not_root_ne :
    (prefix : Bytes) → length prefix == 1 && deref prefix == b'/' ≡ false → prefix ≢ b'/' ∷ []
not_root_ne prefix h e = let never = rw e at h in cc

sound_root :
    (prefix path suffix : Bytes)
    → prefix ≡ b'/' ∷ []
    → extract_suffix prefix path ≡ some suffix
    → Below prefix path suffix
unfolding extract_suffix
sound_root prefix path suffix e h =
    let found : some (advance path) ≡ some suffix = rw e at h in
    let same : advance path ≡ suffix = cc in rw (e, sym same) (root path)

All-behind : (s t : Bytes) → All (λ c. 0 < c) (s ++ t) → All (λ c. 0 < c) t
All-behind [] t v = v
All-behind (c ∷ s) t v = All-behind s t v.1

behind_prefix-Below :
    (prefix t suffix : Bytes)
    → prefix ≢ b'/' ∷ []
    → behind_prefix t ≡ some suffix
    → Below prefix (prefix ++ t) suffix
behind_prefix-Below prefix [] suffix other h =
    let none_left : suffix ≡ [] = ground arith in rw (append-nil, none_left) (itself prefix other)
behind_prefix-Below prefix (c ∷ t) suffix other h = elim (Bool-cases (c == b'/')) [
  | inl slash ↦
      let is_slash : c ≡ b'/' = ground arith in
      let same : t ≡ suffix = ground arith in rw (is_slash, same) (inside prefix suffix other)
  | inr plain ↦ let never = rw plain at h in cc
]

sound :
    (prefix path suffix : Bytes)
    → All (λ c. 0 < c) path
    → extract_suffix prefix path ≡ some suffix
    → Below prefix path suffix
sound prefix path suffix v h = elim (Bool-cases (length prefix == 1 && deref prefix == b'/')) [
  | inl r ↦ sound_root prefix path suffix (is_root prefix r) h
  | inr plain ↦
      let other = not_root_ne prefix plain in
      elim (Bool-cases (starts_with path prefix)) [
        | inr elsewhere ↦
            let never = sym (extract_suffix-elsewhere prefix path other elsewhere) ∙ h in cc
        | inl starts ↦
            let (t, e) = (starts_with_iff path prefix).0 starts in
            let found = ap (extract_suffix prefix) (sym e) ∙ h in
            let below = behind_prefix-Below prefix t suffix other (
              sym (extract_suffix-other prefix t other (All-behind prefix t (rw e at v)))
              ∙ found) in
            rw e below
      ]
]

complete :
    (prefix path suffix : Bytes)
    → All (λ c. 0 < c) path
    → Below prefix path suffix
    → extract_suffix prefix path ≡ some suffix
complete _ path _ v (root _) = unfold extract_suffix in refl
complete prefix _ _ v (itself _ other) =
    ap (extract_suffix prefix) (sym (append-nil prefix)) ∙ extract_suffix-other prefix [] other tt
complete prefix _ suffix v (inside _ _ other) =
    extract_suffix-other prefix (b'/' ∷ suffix) other (All-behind prefix _ v)

-- A request path belongs to a mount exactly when the mount is the root, or the path is that of the
-- mount or below it, and the suffix is what stands behind the mount's path and its slash.
pub extract_suffix-Below :
    (prefix path suffix : Bytes)
    → All (λ c. 0 < c) path
    → (extract_suffix prefix path ≡ some suffix) ↔ Below prefix path suffix
extract_suffix-Below prefix path suffix v =
    (sound prefix path suffix v, complete prefix path suffix v)

-- ===== src/Tpl/Buffer/Writes.antt =====
-- A write takes effect whole or not at all.
use native.Mathlib.Nat.{pow-suc}
use c_http.Base.{
  ℕ, zero, suc, ◌+◌, ◌*◌, ◌^◌, ◌≤◌, ◌<◌, ◌≡◌, refl, sym, ap, ◌∙◌, append_assoc, Bool, true, false,
  [], ◌∷◌, ◌++◌, Option, append-nil, if◌then◌else◌, ltb, leb, ◌==◌, Bytes, length, length-append,
  All, arith, inl, inr, Bool-cases, sub_size, leb→le,
}
use c_http.Tpl.Buffer.{
  size_max, TplArenaBlock, TplOut, grow, buf_reserve, is_outside, discards, store, tpl_lit_n,
}

-- The bytes of the buffer and of every block of the arena are allocated.
pub record IsValid (out : TplOut) : Type 0 where
  pub in_cap : length out.text ≤ out.cap
  pub cap_max : out.cap < 2 ^ 64
  pub blocks : All (λ (b : TplArenaBlock). b.used ≤ b.cap) out.arena

two_pow_suc : (cap fuel : ℕ) → cap * 2 ^ suc fuel ≡ cap * 2 * 2 ^ fuel
two_pow_suc cap fuel = omega (arith, ap (λ (t : ℕ). cap * t) (pow-suc 2 fuel))

grow-le : (fuel cap need : ℕ) → need ≤ cap * 2 ^ fuel → need ≤ grow fuel cap need
unfolding grow
grow-le zero cap need h = omega arith
grow-le (suc fuel) cap need h = ground (arith, two_pow_suc cap fuel, grow-le fuel (cap * 2) need)

grow_max : (fuel cap need : ℕ) → need < 2 ^ 64 → cap < 2 ^ 64 → grow fuel cap need < 2 ^ 64
unfolding grow
grow_max zero cap need h k = omega arith
grow_max (suc fuel) cap need h k = ground (arith, grow_max fuel (cap * 2) need h)

-- What stays as it is over a write.
pub record Kept (out after : TplOut) : Type 0 where
  pub sel : after.frag_sel ≡ out.frag_sel
  pub depth : after.frag_depth ≡ out.frag_depth
  pub matched : after.frag_match ≡ out.frag_match
  pub arena : after.arena ≡ out.arena

pub Kept-refl : (out : TplOut) → Kept out out
Kept-refl out = record { sel = refl; depth = refl; matched = refl; arena = refl }

-- The text behind a write of `s`.
abbrev pub written : TplOut → Bytes → Bytes
written out s = if discards out then out.text else out.text ++ s

-- What one or more writes of `s` in all leave.
pub record Wrote (out : TplOut) (s : Bytes) (after : TplOut) : Type 0 where
  pub kept : Kept out after
  pub valid : IsValid after
  pub done : after.failed ≡ false → (out.failed ≡ false) × (after.text ≡ written out s)

-- The same for one write, which on a failure has no effect on the text.
pub record WroteOnce (out : TplOut) (s : Bytes) (after : TplOut) : Type 0 where
  pub wrote : Wrote out s after
  pub lost : after.failed ≡ true → after.text ≡ out.text

abbrev Reserved : TplOut → ℕ → TplOut × Bool → Type 0
Reserved out len (after, true) =
    Kept out after
    × (out.failed ≡ false)
    × (after.failed ≡ false)
    × (after.text ≡ out.text)
    × (length out.text + len ≤ after.cap)
    × (after.cap < 2 ^ 64)
Reserved out len (after, false) =
    Kept out after × (after.failed ≡ true) × (after.text ≡ out.text) × (after.cap ≡ out.cap)

buf_reserve-Reserved :
    (mem : ℕ → Bool) (out : TplOut) (len : ℕ)
    → IsValid out
    → Reserved out len (buf_reserve mem out len)
unfolding buf_reserve sub_size
buf_reserve-Reserved mem out len v =
    let need = length out.text + len in
    let start = if out.cap == 0 then 256 else out.cap in
    let started : start < 2 ^ 64 = ground (arith, v.cap_max) in
    elim (Bool-cases out.failed) [
      | inl stuck ↦
          simp stuck
            (record { sel = refl; depth = refl; matched = refl; arena = refl }, refl, refl, refl)
      | inr fine ↦ elim (Bool-cases (ltb (sub_size size_max (length out.text)) len)) [
        | inl over ↦
            simp (fine, over)
              (record { sel = refl; depth = refl; matched = refl; arena = refl }, refl, refl, refl)
        | inr small ↦ elim (Bool-cases (leb need out.cap)) [
          | inl room ↦
              simp (fine, small, room)
                (
                  record { sel = refl; depth = refl; matched = refl; arena = refl },
                  refl,
                  refl,
                  refl,
                  leb→le need out.cap room,
                  v.cap_max,
                )
          | inr tight ↦ elim (Bool-cases (mem (grow 64 start need))) [
            | inl given ↦
                simp (fine, small, tight, given)
                  (
                    record { sel = refl; depth = refl; matched = refl; arena = refl },
                    refl,
                    refl,
                    refl,
                    grow-le 64 start need (ground (arith, v.in_cap, v.cap_max)),
                    grow_max 64 start need (ground arith) started,
                  )
            | inr none_left ↦
                simp (fine, small, tight, none_left)
                  (
                    record { sel = refl; depth = refl; matched = refl; arena = refl },
                    refl,
                    refl,
                    refl,
                  )
          ]
        ]
      ]
    ]

no_bytes : (s : Bytes) → length s == 0 ≡ true → s ≡ []
no_bytes [] h = refl
no_bytes (c ∷ s) h = ground arith

nothing : (out : TplOut) (s : Bytes) → IsValid out → s ≡ [] → WroteOnce out s out
nothing out s v e = record {
  wrote = record {
    kept = Kept-refl out;
    valid = v;
    done = λ ok. (
      ok,
      rw e (elim (Bool-cases (discards out)) [
        | inl d ↦ simp d
        | inr d ↦ simp d (sym (append-nil out.text))
      ]),
    );
  };
  lost = λ no. refl;
}

skipped : (out : TplOut) (s : Bytes) → IsValid out → discards out ≡ true → WroteOnce out s out
skipped out s v d = record {
  wrote = record { kept = Kept-refl out; valid = v; done = λ ok. (ok, simp d) };
  lost = λ no. refl;
}

stored :
    (out : TplOut) (s : Bytes) (r : TplOut × Bool)
    → IsValid out
    → discards out ≡ false
    → Reserved out (length s) r
    → WroteOnce out s (store r s)
stored out s (after, true) v keeps (k, fine, fine2, same, room, small) = record {
  wrote = record {
    kept = record { sel = k.sel; depth = k.depth; matched = k.matched; arena = k.arena };
    valid = record {
      in_cap = omega (arith, length-append after.text s, ap length same, room);
      cap_max = small;
      blocks = rw k.arena v.blocks;
    };
    done = λ ok. (fine, simp keeps (ap (λ (t : Bytes). t ++ s) same));
  };
  lost = λ no. cc;
}
stored out s (after, false) v keeps (k, failed, same, cap) = record {
  wrote = record {
    kept = k;
    valid = record {
      in_cap = omega (arith, v.in_cap, ap length same, cap);
      cap_max = omega (arith, v.cap_max, cap);
      blocks = rw k.arena v.blocks;
    };
    done = λ ok. cc;
  };
  lost = λ no. same;
}

-- A write keeps the buffer and the arena within what is allocated and the fragment state as it is.
-- When it does not fail, no write before it failed, and it has appended all of its bytes, or none
-- where it is discarded; when it fails, the text is what it was.
pub tpl_lit_n-WroteOnce :
    (mem : ℕ → Bool) (out : TplOut) (s : Bytes)
    → IsValid out
    → WroteOnce out s (tpl_lit_n mem out s)
unfolding tpl_lit_n
tpl_lit_n-WroteOnce mem out s v = elim (Bool-cases (length s == 0)) [
  | inl empty ↦ simp empty (nothing out s v (no_bytes s empty))
  | inr some_bytes ↦ elim (Bool-cases (discards out)) [
    | inl discarded ↦ simp (some_bytes, discarded) (skipped out s v discarded)
    | inr keeps ↦
        simp (some_bytes, keeps)
          (stored out s (buf_reserve mem out (length s)) v keeps
            (buf_reserve-Reserved mem out (length s) v))
  ]
]

discards-Kept : (out after : TplOut) → Kept out after → discards after ≡ discards out
unfolding discards
discards-Kept out after k =
    ap (is_outside after.frag_sel) k.matched
    ∙ ap (λ (sel : Option Bytes). is_outside sel out.frag_match) k.sel

-- Two writes, one behind the other, are a write of both texts.
pub Wrote-append :
    (out middle after : TplOut) (s t : Bytes)
    → Wrote out s middle
    → Wrote middle t after
    → Wrote out (s ++ t) after
Wrote-append out middle after s t a b = record {
  kept = record {
    sel = b.kept.sel ∙ a.kept.sel;
    depth = b.kept.depth ∙ a.kept.depth;
    matched = b.kept.matched ∙ a.kept.matched;
    arena = b.kept.arena ∙ a.kept.arena;
  };
  valid = b.valid;
  done = λ ok. let (m, text) = b.done ok in let (o, before) = a.done m in (o, text ∙ joined before);
}
  where
    joined : middle.text ≡ written out s → written middle t ≡ written out (s ++ t)
    joined before = elim (Bool-cases (discards out)) [
      | inl d ↦ let d' = discards-Kept out middle a.kept ∙ d in simp (d, d') (before ∙ simp d)
      | inr d ↦
          let d' = discards-Kept out middle a.kept ∙ d in
          simp (d, d') (ap (λ (u : Bytes). u ++ t) (before ∙ simp d) ∙ append_assoc out.text s t)
    ]

-- Writing on when the text ran empty.
pub Wrote-nil : (out : TplOut) → IsValid out → Wrote out [] out
Wrote-nil out v = (nothing out [] v refl).wrote

store_le :
    (r : TplOut × Bool) (s : Bytes) (n : ℕ)
    → length r.0.text ≡ n
    → length (store r s).text ≤ n + length s
store_le (out, true) s n h = omega (arith, length-append out.text s)
store_le (out, false) s n h = omega arith

buf_reserve-text :
    (mem : ℕ → Bool) (out : TplOut) (len : ℕ)
    → length (buf_reserve mem out len).0.text ≡ length out.text
unfolding buf_reserve
buf_reserve-text mem out len = ground arith

pub length-tpl_lit_n-le :
    (mem : ℕ → Bool) (out : TplOut) (s : Bytes)
    → length (tpl_lit_n mem out s).text ≤ length out.text + length s
unfolding tpl_lit_n
length-tpl_lit_n-le mem out s = ground (
  arith,
  store_le (buf_reserve mem out (length s)) s (length out.text)
      (buf_reserve-text mem out (length s)),
)

buf_reserve_ok :
    (out : TplOut) (len : ℕ)
    → out.failed ≡ false
    → length out.text + len < 2 ^ 64
    → ((buf_reserve (λ n. true) out len).0.failed ≡ false)
      × ((buf_reserve (λ n. true) out len).1 ≡ true)
unfolding buf_reserve sub_size
buf_reserve_ok out len fine small = ground arith

store-failed : (r : TplOut × Bool) (s : Bytes) → (store r s).failed ≡ r.0.failed
store-failed (out, true) s = refl
store-failed (out, false) s = refl

-- With memory for it a write does not fail.
pub tpl_lit_n_ok :
    (out : TplOut) (s : Bytes)
    → out.failed ≡ false
    → length out.text + length s < 2 ^ 64
    → (tpl_lit_n (λ n. true) out s).failed ≡ false
unfolding tpl_lit_n
tpl_lit_n_ok out s fine small = ground (
  arith,
  buf_reserve_ok out (length s) fine small,
  store-failed (buf_reserve (λ n. true) out (length s)) s,
)

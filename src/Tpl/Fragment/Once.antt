-- ===== src/Tpl/Fragment/Once.antt =====
-- A once block is rendered once.
use c_http.Base.{
  ℕ, ◌+◌, ◌*◌, ◌≤◌, ◌≡◌, Bool, true, false, ◌&&◌, ◌||◌, List, [], ◌∷◌, ◌++◌, if◌then◌else◌, ◌==◌,
  length, arith,
}
use c_http.Tpl.Buffer.{TplOut, arena_alloc}
use c_http.Tpl.Fragment.{has_fired, register, tpl_once_begin}

-- How often a handle is granted in a sequence of calls.
abbrev pub grants : (ℕ → Bool) → TplOut → List ℕ → ℕ → ℕ
grants mem out [] handle = 0
grants mem out (h ∷ calls) handle =
    let (after, granted) = tpl_once_begin mem out h in
    (if granted && h == handle then 1 else 0) + grants mem after calls handle

has_fired-append :
    (fired : List ℕ) (h handle : ℕ)
    → has_fired (fired ++ (h ∷ [])) handle ≡ (has_fired fired handle || h == handle)
unfolding has_fired
has_fired-append [] h handle = ground arith
has_fired-append (f ∷ fired) h handle = ground (arith, has_fired-append fired h handle)

arena_alloc-once_fired :
    (mem : ℕ → Bool) (out : TplOut) (len : ℕ)
    → (arena_alloc mem out len).0.once_fired ≡ out.once_fired
unfolding arena_alloc
arena_alloc-once_fired mem out len = ground arith

register_lem :
    (r : TplOut × Bool) (h handle : ℕ)
    → has_fired (register r h).0.once_fired handle
      ≡ (has_fired r.0.once_fired handle || ((register r h).1 && h == handle))
register_lem (out, true) h handle = has_fired-append out.once_fired h handle
register_lem (out, false) h handle = ground arith

-- A call grants only a handle that has not fired, which then has.
tpl_once_begin_lem :
    (mem : ℕ → Bool) (out : TplOut) (h handle : ℕ)
    → let (after, granted) = tpl_once_begin mem out h in
      (has_fired after.once_fired handle
        ≡ (has_fired out.once_fired handle || (granted && h == handle)))
      × (granted && h == handle ≡ true → has_fired out.once_fired handle ≡ false)
unfolding tpl_once_begin
tpl_once_begin_lem mem out h handle =
    let r = arena_alloc mem out ((length out.once_fired + 1) * 8) in
    ground (
      arith,
      register_lem r h handle,
      arena_alloc-once_fired mem out ((length out.once_fired + 1) * 8),
    )

-- In any sequence of calls a handle is granted at most once, and not at all when it has fired
-- before, whether or not there is memory.
grants-le :
    (mem : ℕ → Bool) (out : TplOut) (calls : List ℕ) (handle : ℕ)
    → grants mem out calls handle ≤ (if has_fired out.once_fired handle then 0 else 1)
grants-le mem out [] handle = omega arith
grants-le mem out (h ∷ calls) handle = ground (
  arith,
  tpl_once_begin_lem mem out h handle,
  grants-le mem (tpl_once_begin mem out h).0 calls handle,
)

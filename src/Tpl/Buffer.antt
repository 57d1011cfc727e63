-- ===== src/Tpl/Buffer.antt =====
-- The output buffer and the scratch arena of src/c_http_tpl.c. `mem n` says whether an allocation
-- of `n` bytes succeeds.
pub mod Writes
use c_http.Base.{
  ℕ, zero, suc, ◌+◌, ◌-◌, ◌*◌, ◌/◌, Bool, true, false, not, ◌&&◌, ◌||◌, List, [], ◌∷◌, ◌++◌, Option,
  none, some, if◌then◌else◌, ◌==◌, ltb, leb, Bytes, length, sub_size,
}

abbrev pub size_max : ℕ
size_max = 18446744073709551615

-- The int fields of the fragment state, which an unbalanced `tpl_frag_end` takes below 0.
pub data ℤ : Type 0 where
  pos : ℕ → ℤ
  negsuc : ℕ → ℤ

abbrev pub increment : ℤ → ℤ
increment (pos n) = pos (suc n)
increment (negsuc zero) = pos 0
increment (negsuc (suc n)) = negsuc n

abbrev pub decrement : ℤ → ℤ
decrement (pos zero) = negsuc 0
decrement (pos (suc n)) = pos n
decrement (negsuc n) = negsuc (suc n)

-- `a > b`
abbrev pub greater : ℤ → ℤ → Bool
greater (pos a) (pos b) = ltb b a
greater (pos a) (negsuc b) = true
greater (negsuc a) (pos b) = false
greater (negsuc a) (negsuc b) = ltb a b

pub record TplArenaBlock : Type 0 where
  pub used : ℕ
  pub cap : ℕ

-- `len` is the length of `text`, `data == NULL` is the capacity 0, `once_fired_count` the length of
-- `once_fired`, whose handles are numbers.
pub record TplOut : Type 0 where
  pub text : Bytes
  pub cap : ℕ
  pub failed : Bool
  pub arena : List TplArenaBlock
  pub frag_sel : Option Bytes
  pub frag_depth : ℤ
  pub frag_match : ℤ
  pub once_fired : List ℕ

-- sizeof(TplArenaBlock): a pointer and two sizes
abbrev pub sizeof_block : ℕ
sizeof_block = 24

abbrev pub tpl_arena_block_size : ℕ
tpl_arena_block_size = 512

-- `out->arena == NULL || out->arena->cap - out->arena->used < len`
abbrev pub arena_full : List TplArenaBlock → ℕ → Bool
arena_full [] len = true
arena_full (b ∷ blocks) len = ltb (sub_size b.cap b.used) len

abbrev pub take_from : List TplArenaBlock → ℕ → List TplArenaBlock
take_from [] len = []
take_from (b ∷ blocks) len = record b { used = b.used + len } ∷ blocks

-- `true` is a pointer to `len` bytes of the first block, `false` is NULL.
unfoldable pub arena_alloc : (ℕ → Bool) → TplOut → ℕ → TplOut × Bool
arena_alloc mem out len =
    let size = if ltb tpl_arena_block_size len then len else tpl_arena_block_size in
    if arena_full out.arena len
    then (if mem (sizeof_block + size)
        then (record out { arena = record { used = len; cap = size } ∷ out.arena }, true)
        else (record out { failed = true }, false))
    else (record out { arena = take_from out.arena len }, true)

-- The doubling loop of `buf_reserve`; 64 rounds are enough from any capacity above 0.
unfoldable pub grow : ℕ → ℕ → ℕ → ℕ
grow zero cap need = cap
grow (suc fuel) cap need =
    let doubled = grow fuel (cap * 2) need in
    if not (ltb cap need) then cap else if ltb (size_max / 2) cap then need else doubled

unfoldable pub buf_reserve : (ℕ → Bool) → TplOut → ℕ → TplOut × Bool
buf_reserve mem out len =
    let need = length out.text + len in
    let new_cap = grow 64 (if out.cap == 0 then 256 else out.cap) need in
    if out.failed
    then (out, false)
    else if ltb (sub_size size_max (length out.text)) len
    then (record out { failed = true }, false)
    else if leb need out.cap
    then (out, true)
    else if mem new_cap
    then (record out { cap = new_cap }, true)
    else (record out { failed = true }, false)

-- `frag_sel != NULL && frag_match <= 0`
unfoldable pub is_outside : Option Bytes → ℤ → Bool
is_outside none matched = false
is_outside (some name) matched = not (greater matched (pos 0))

-- Whether a write is discarded: a fragment is selected, and this is outside it.
unfoldable pub discards : TplOut → Bool
discards out = is_outside out.frag_sel out.frag_match

-- What `tpl_lit_n` stores where `buf_reserve` gave room.
abbrev pub store : TplOut × Bool → Bytes → TplOut
store (out, true) s = record out { text = out.text ++ s }
store (out, false) s = out

unfoldable pub tpl_lit_n : (ℕ → Bool) → TplOut → Bytes → TplOut
tpl_lit_n mem out s =
    if length s == 0
    then out
    else if discards out
    then out
    else store (buf_reserve mem out (length s)) s

-- `tpl_ok`
unfoldable pub tpl_ok : TplOut → Bool
tpl_ok out = not out.failed

-- The text that `tpl_str` returns, behind the room for its NUL.
unfoldable pub tpl_str : (ℕ → Bool) → TplOut → TplOut × Bytes
tpl_str mem out =
    let (reserved, room) = buf_reserve mem out 1 in
    if out.cap == 0
    then (out, [])
    else if length out.text == out.cap
    then (if room then (reserved, reserved.text) else (reserved, []))
    else (out, out.text)

unfoldable pub tpl_out_free : TplOut → TplOut
tpl_out_free out = record {
  text = [];
  cap = 0;
  failed = false;
  arena = [];
  frag_sel = none;
  frag_depth = pos 0;
  frag_match = pos 0;
  once_fired = [];
}

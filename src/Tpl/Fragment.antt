-- ===== src/Tpl/Fragment.antt =====
-- Fragments and once blocks of src/c_http_tpl.c.
pub mod Blocks
pub mod Render
pub mod Once
use c_http.Base.{
  ℕ, zero, suc, ◌+◌, ◌*◌, Bool, true, false, not, ◌&&◌, ◌||◌, List, [], ◌∷◌, ◌++◌, Option, none,
  some, if◌then◌else◌, ◌==◌, Bytes, length, str_eq,
}
use c_http.Tpl.Buffer.{ℤ, pos, increment, decrement, greater, TplOut, arena_alloc}

-- `name` is `none` for NULL, which renders everything.
unfoldable pub tpl_frag_select : TplOut → Option Bytes → TplOut
tpl_frag_select out name = record out { frag_sel = name; frag_depth = pos 0; frag_match = pos 0 }

-- `name != NULL && strcmp(sel, name) == 0`
abbrev pub is_selected : Bytes → Option Bytes → Bool
is_selected sel none = false
is_selected sel (some name) = str_eq sel name

abbrev pub begin_in : Option Bytes → TplOut → Option Bytes → TplOut
begin_in none out name = out
begin_in (some sel) out name =
    let deeper = increment out.frag_depth in
    if greater out.frag_match (pos 0)
    then record out { frag_depth = deeper }
    else if is_selected sel name
    then record out { frag_depth = deeper; frag_match = deeper }
    else record out { frag_depth = deeper }

unfoldable pub tpl_frag_begin : TplOut → Option Bytes → TplOut
tpl_frag_begin out name = begin_in out.frag_sel out name

abbrev pub end_in : Option Bytes → TplOut → TplOut
end_in none out = out
end_in (some sel) out =
    let outer = decrement out.frag_depth in
    if greater out.frag_match outer
    then record out { frag_depth = outer; frag_match = pos 0 }
    else record out { frag_depth = outer }

unfoldable pub tpl_frag_end : TplOut → TplOut
tpl_frag_end out = end_in out.frag_sel out

-- The search loop of `tpl_once_begin`.
unfoldable pub has_fired : List ℕ → ℕ → Bool
has_fired [] handle = false
has_fired (h ∷ fired) handle = h == handle || has_fired fired handle

-- The copy of the registry with one more handle, where the arena had room for it.
abbrev pub register : TplOut × Bool → ℕ → TplOut × Bool
register (out, true) handle = (record out { once_fired = out.once_fired ++ (handle ∷ []) }, true)
register (out, false) handle = (out, false)

-- A pointer has 8 bytes.
unfoldable pub tpl_once_begin : (ℕ → Bool) → TplOut → ℕ → TplOut × Bool
tpl_once_begin mem out handle =
    if has_fired out.once_fired handle
    then (out, false)
    else register (arena_alloc mem out ((length out.once_fired + 1) * 8)) handle

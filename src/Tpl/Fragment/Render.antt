-- ===== src/Tpl/Fragment/Render.antt =====
-- Rendering a component with a fragment selected.
use c_http.Base.{
  ℕ, ◌+◌, ◌^◌, ◌≤◌, ◌<◌, ◌≡◌, refl, ap, ◌∙◌, Bool, true, false, ◌++◌, Option, some, Bytes, length,
  length-append, arith,
}
use c_http.Tpl.Buffer.{TplOut, tpl_lit_n}
use c_http.Tpl.Buffer.Writes.{IsValid, length-tpl_lit_n-le, tpl_lit_n_ok}
use c_http.Tpl.Fragment.{tpl_frag_select, tpl_frag_begin, tpl_frag_end}
use c_http.Tpl.Fragment.Blocks.{
  Component, render, whole, selected, At, render-Rendered, done, literal, fragment,
}

-- With a fragment selected on a new output, a component writes all that stands in the outermost
-- fragments of that name, however they are nested with others, and nothing else, when no write
-- fails. The output stays within its buffer.
pub render-selected :
    (mem : ℕ → Bool) (c : Component) (out : TplOut) (sel : Bytes)
    → IsValid out
    → let after = render mem c (tpl_frag_select out (some sel)) in
      IsValid after
      × (after.failed ≡ false → (out.failed ≡ false) × (after.text ≡ out.text ++ selected sel c))
unfolding tpl_frag_select
render-selected mem c out sel v =
    let start : At (tpl_frag_select out (some sel)) sel 0 0 = record {
      valid = record { in_cap = v.in_cap; cap_max = v.cap_max; blocks = v.blocks };
      sel_is = refl;
      depth_is = refl;
      match_is = refl;
    } in
    let r = render-Rendered mem c _ sel 0 0 start (omega arith) in (r.at.valid, r.appended)

select-same :
    (out : TplOut) (name : Option Bytes)
    → ((tpl_frag_select out name).text ≡ out.text)
      × ((tpl_frag_select out name).failed ≡ out.failed)
unfolding tpl_frag_select
select-same out name = (refl, refl)

begin-same :
    (out : TplOut) (name : Option Bytes)
    → ((tpl_frag_begin out name).text ≡ out.text) × ((tpl_frag_begin out name).failed ≡ out.failed)
unfolding tpl_frag_begin
begin-same out name = ground arith

end-same :
    (out : TplOut) → ((tpl_frag_end out).text ≡ out.text) × ((tpl_frag_end out).failed ≡ out.failed)
unfolding tpl_frag_end
end-same out = ground arith

length-render-le :
    (mem : ℕ → Bool) (c : Component) (out : TplOut)
    → length (render mem c out).text ≤ length out.text + length (whole c)
length-render-le mem done out = omega arith
length-render-le mem (literal s rest) out = omega (
  arith,
  length-render-le mem rest (tpl_lit_n mem out s),
  length-tpl_lit_n-le mem out s,
  length-append s (whole rest),
)
length-render-le mem (fragment name body rest) out =
    let begun = tpl_frag_begin out (some name) in
    let inside = render mem body begun in
    omega (
      arith,
      length-render-le mem rest (tpl_frag_end inside),
      ap length (end-same inside).0,
      length-render-le mem body begun,
      ap length (begin-same out (some name)).0,
      length-append (whole body) (whole rest),
    )

render_ok :
    (c : Component) (out : TplOut)
    → out.failed ≡ false
    → length out.text + length (whole c) < 2 ^ 64
    → (render (λ n. true) c out).failed ≡ false
render_ok done out fine small = fine
render_ok (literal s rest) out fine small =
    let len = length-append s (whole rest) in
    render_ok rest (tpl_lit_n (λ n. true) out s) (tpl_lit_n_ok out s fine (omega arith))
      (omega (arith, length-tpl_lit_n-le (λ n. true) out s))
render_ok (fragment name body rest) out fine small =
    let begun = tpl_frag_begin out (some name) in
    let inside = render (λ n. true) body begun in
    let len = length-append (whole body) (whole rest) in
    let opened = ap length (begin-same out (some name)).0 in
    let closed = ap length (end-same inside).0 in
    let inside_ok = render_ok body begun ((begin-same out (some name)).1 ∙ fine) (omega arith) in
    render_ok rest (tpl_frag_end inside) ((end-same inside).1 ∙ inside_ok)
      (omega (arith, length-render-le (λ n. true) body begun))

-- With memory for all that the component writes, the render does not fail, and what it appends is
-- what stands in the outermost fragments of the selected name.
render-selected_ok :
    (c : Component) (out : TplOut) (sel : Bytes)
    → IsValid out
    → out.failed ≡ false
    → length out.text + length (whole c) < 2 ^ 64
    → let after = render (λ n. true) c (tpl_frag_select out (some sel)) in
      (after.failed ≡ false) × (after.text ≡ out.text ++ selected sel c)
render-selected_ok c out sel v fine small =
    let (same_text, same_failed) = select-same out (some sel) in
    let ok =
      render_ok c (tpl_frag_select out (some sel)) (same_failed ∙ fine)
        (omega (arith, ap length same_text)) in
    (ok, ((render-selected (λ n. true) c out sel v).1 ok).1)

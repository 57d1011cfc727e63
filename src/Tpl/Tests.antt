-- ===== src/Tpl/Tests.antt =====
-- The template runtime at concrete inputs.
use c_http.Base.{◌≡◌, refl, true, false, [], ◌++◌, none, some, Bytes, codes, All, arith}
use c_http.Tpl.Buffer.{pos, TplOut, arena_alloc}
use c_http.Tpl.Buffer.Writes.{IsValid, Wrote}
use c_http.Tpl.Escape.{tpl_esc, tpl_attr}
use c_http.Tpl.Escape.Html.{IsInert, read_html, write_escaped-html}
use c_http.Tpl.Fragment.{tpl_frag_select}
use c_http.Tpl.Fragment.Blocks.{Component, done, literal, fragment, render, selected}
use c_http.Tpl.Fragment.Render.{render-selected}
use c_http.Tpl.Url.{scheme_end, has_scheme, scheme_equals, no_controls, url_is_safe, tpl_url}
use c_http.Tpl.Url.Safe.{Sanitized, tpl_url-Sanitized}

abbrev new_out : TplOut
new_out = record {
  text = [];
  cap = 0;
  failed = false;
  arena = [];
  frag_sel = none;
  frag_depth = pos 0;
  frag_match = pos 0;
  once_fired = [];
}

new_out-IsValid : IsValid new_out
new_out-IsValid = record { in_cap = omega arith; cap_max = omega arith; blocks = tt }

write_escaped-html_example :
    (text : Bytes) × Wrote new_out text (tpl_esc (λ n. true) new_out (some (codes "a<b&c")))
    × Wrote new_out text (tpl_attr (λ n. true) new_out (some (codes "a<b&c")))
    × All IsInert text
    × (read_html 0 text ≡ codes "a<b&c")
write_escaped-html_example = write_escaped-html (λ n. true) new_out (codes "a<b&c") new_out-IsValid

-- A list with two items, the second within a block of another name.
abbrev page : Component
page = literal (codes "<ul>") (
    fragment (codes "item") (literal (codes "one") done) (
      fragment (codes "more") (fragment (codes "item") (literal (codes "two") done) done)
        (literal (codes "</ul>") done)))

selected_items : selected (codes "item") page ≡ codes "onetwo"
selected_items = refl

render-selected_example :
    let after = render (λ n. true) page (tpl_frag_select new_out (some (codes "item"))) in
    IsValid after
    × (after.failed ≡ false
        → (new_out.failed ≡ false) × (after.text ≡ new_out.text ++ selected (codes "item") page))
render-selected_example = render-selected (λ n. true) page new_out (codes "item") new_out-IsValid

tpl_url-Sanitized_example :
    Sanitized (codes " HTTPS://a/b ") (tpl_url (λ n. true) new_out (some (codes " HTTPS://a/b "))).1
tpl_url-Sanitized_example = tpl_url-Sanitized (λ n. true) new_out (codes " HTTPS://a/b ")

passes_link : (tpl_url (λ n. true) new_out (some (codes " HTTPS://a/b "))).1 ≡ codes "HTTPS://a/b"
unfolding tpl_url arena_alloc url_is_safe has_scheme scheme_end scheme_equals no_controls
passes_link = refl

stops_script :
    (tpl_url (λ n. true) new_out (some (codes "JavaScript:a"))).1 ≡ codes "about:invalid#ctmpl"
unfolding tpl_url arena_alloc url_is_safe has_scheme scheme_end scheme_equals no_controls
stops_script = refl

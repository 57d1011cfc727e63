-- ===== src/Http/Response/Helpers.antt =====
-- What the helpers make of the body that is sent.
use c_http.Base.{
  ℕ, ◌≡◌, refl, ◌∙◌, Bool, true, false, not, ◌||◌, [], none, some, ◌==◌, ltb, leb, Bytes, codes,
  length, inl, inr, Bool-cases,
}
use c_http.Http.Fields.{is_valid_status_code}
use c_http.Http.Headers.{HttpHeaders, apply_header}
use c_http.Http.Response.{
  HttpResponse, on_header, http_res_json, store_body, http_res_body, http_res_redirect,
}
use c_http.Http.Response.Send.{or_body, selected_body}

on_header_ok :
    (res : HttpResponse) (set : HttpHeaders × Bool) (next : HttpResponse → HttpResponse × Bool)
    → (on_header res set next).1 ≡ true
    → on_header res set next ≡ next (record res { headers = set.0 })
on_header_ok res (h, true) next e = refl
on_header_ok res (h, false) next e = cc

store_body-selected :
    (mem : ℕ → Bool) (status : ℕ) (body : Bytes) (res : HttpResponse)
    → (store_body mem status body res).1 ≡ true
    → (selected_body (store_body mem status body res).0 ≡ or_body res.encoded_body body)
      × ((store_body mem status body res).0.status ≡ status)
unfolding store_body
store_body-selected mem status body res e = elim (Bool-cases (ltb (length body) 4096)) [
  | inl small ↦ rw small (refl, refl)
  | inr large ↦ elim (Bool-cases (mem (length body))) [
    | inl copied ↦ rw (large, copied) (refl, refl)
    | inr no_memory ↦ cc (rw (large, no_memory) at e)
  ]
]

-- When `http_res_body` succeeds the body that is sent is the one given, of any size, whatever the
-- response held before, unless an encoder has already run, and the status is the one given.
http_res_body-selected :
    (mem : ℕ → Bool) (res : HttpResponse) (status : ℕ) (content_type body : Bytes)
    → (http_res_body mem res status content_type body).1 ≡ true
    → (selected_body (http_res_body mem res status content_type body).0
        ≡ or_body res.encoded_body body)
      × ((http_res_body mem res status content_type body).0.status ≡ status)
unfolding http_res_body
http_res_body-selected mem res status content_type body e =
    elim (Bool-cases (not (is_valid_status_code status) || length content_type == 0)) [
      | inl bad ↦ cc (rw bad at e)
      | inr good ↦
          let set = apply_header mem res.headers (codes "Content-Type") content_type in
          let done = rw good at e in
          let stored = on_header_ok res set (store_body mem status body) done in
          rw (good, stored)
            (store_body-selected mem status body (record res { headers = set.0 })
              (rw stored at done))
    ]

json_stale :
    (mem : ℕ → Bool) (res : HttpResponse) (status : ℕ) (body : Bytes)
    → (http_res_json mem res status body).1 ≡ true
    → selected_body (http_res_json mem res status body).0
      ≡ or_body res.encoded_body (or_body res.dyn_body body)
unfolding http_res_json
json_stale mem res status body e = elim (Bool-cases (is_valid_status_code status)) [
  | inr bad ↦ cc (simp bad at e)
  | inl good ↦ elim (Bool-cases (leb 4096 (length body))) [
    | inl long ↦ cc (rw (good, long) at e)
    | inr fits ↦
        let set = apply_header mem res.headers (codes "Content-Type") (codes "application/json") in
        rw
          (
            good,
            fits,
            on_header_ok res set (λ r. (record r { body = body; status = status }, true))
                (rw (good, fits) at e),
          )
          refl
  ]
]

redirect_stale :
    (mem : ℕ → Bool) (res : HttpResponse) (status : ℕ) (location : Bytes)
    → (http_res_redirect mem res status location).1 ≡ true
    → selected_body (http_res_redirect mem res status location).0
      ≡ or_body res.encoded_body (or_body res.dyn_body [])
unfolding http_res_redirect
redirect_stale mem res status location e = elim (Bool-cases (ltb status 300 || ltb 399 status)) [
  | inl bad ↦ cc (rw bad at e)
  | inr good ↦
      let set = apply_header mem res.headers (codes "Location") location in
      rw
        (
          good,
          on_header_ok res set (λ r. (record r { status = status; body = [] }, true))
              (rw good at e),
        )
        refl
]

-- `http_res_json` and `http_res_redirect` leave a body on the heap: when they succeed behind a
-- body of 4096 bytes or more, that body is sent still, not the JSON and not an empty one.
pub stale_body :
    (mem : ℕ → Bool) (res : HttpResponse) (status moved : ℕ) (body location old : Bytes)
    → res.encoded_body ≡ none
    → res.dyn_body ≡ some old
    → (http_res_json mem res status body).1 ≡ true
    → (http_res_redirect mem res moved location).1 ≡ true
    → (selected_body (http_res_json mem res status body).0 ≡ old)
      × (selected_body (http_res_redirect mem res moved location).0 ≡ old)
stale_body mem res status moved body location old plain held json redirect = (
  json_stale mem res status body json ∙ rw (plain, held) refl,
  redirect_stale mem res moved location redirect ∙ rw (plain, held) refl,
)

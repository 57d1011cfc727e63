-- ===== src/Http/Accept.antt =====
-- The negotiation of the content type in src/c_http.c. A weight is the bit pattern of a double, 0
-- or above, so weights are ordered as numbers are; strtod() is a parameter `read_q`: none where it
-- reads no number or one that is not between 0 and 1.
pub mod Best
pub mod Tests
use c_http.Base.{
  ℕ, zero, suc, Bool, true, false, not, ◌&&◌, ◌||◌, List, [], ◌∷◌, Option, none, some,
  if◌then◌else◌, ◌==◌, ltb, Bytes, codes, length, is_ows, deref, advance, drop, str_has, take_while,
  drop_while, str_eq, str_case_eq,
}
use c_http.Http.Headers.{HttpHeader}
use c_http.Http.Token.{is_separator, not_comma}

-- 1.0
abbrev pub one_weight : ℕ
one_weight = 4607182418800017408

abbrev pub in_subtype : ℕ → Bool
in_subtype c = not (c == b',') && not (c == b';')

abbrev pub in_type : ℕ → Bool
in_type c = in_subtype c && not (c == b'/')

abbrev pub not_slash_char : ℕ → Bool
not_slash_char c = not (c == b'/')

abbrev pub weight_at : (Bytes → Option ℕ) → ℕ → Bytes → ℕ
weight_at read_q q p =
    if (deref p == b'q' || deref p == b'Q') && deref (advance p) == b'='
    then elim (read_q (drop 2 p)) as (λ _. ℕ) [ none ↦ q | some v ↦ v ]
    else q

-- Each round takes a byte at least.
unfoldable pub accepts_parse_q : ℕ → (Bytes → Option ℕ) → ℕ → Bytes → ℕ × Bytes
accepts_parse_q zero read_q q p = (q, p)
accepts_parse_q (suc fuel) read_q q p =
    let r = drop_while is_ows (advance p) in
    let next = accepts_parse_q fuel read_q (weight_at read_q q r) (drop_while in_subtype r) in
    if deref p == b';' then next else (q, p)

-- A type that is offered, split at its slash.
pub record Offer : Type 0 where
  pub type_part : Bytes
  pub subtype : Bytes

-- `none` for an offer without a slash.
abbrev pub split_offer : Bytes → Option Offer
split_offer type =
    if str_has b'/' type
    then some (record {
      type_part = take_while not_slash_char type;
      subtype = advance (drop_while not_slash_char type);
    })
    else none

abbrev pub pair_score : Offer → Bytes → Bytes → ℕ
pair_score offer rtype rsub =
    if (str_eq rtype (codes "*")
        || (length rtype == length offer.type_part && str_case_eq rtype offer.type_part))
      && (str_eq rsub (codes "*")
          || (length rsub == length offer.subtype && str_case_eq rsub offer.subtype))
    then (if length rtype == length offer.type_part
        then (if length rsub == length offer.subtype then 3 else 2)
        else 1)
    else 0

-- `score` and `q`
pub record Rating : Type 0 where
  pub score : ℕ
  pub q : ℕ

abbrev pub above : Rating → Rating → Bool
above r old = ltb old.score r.score || (r.score == old.score && ltb old.q r.q)

abbrev pub rate : ℕ → ℕ → Rating → Rating
rate rscore q_val best =
    let new : Rating = record { score = rscore; q = q_val } in
    if ltb 0 rscore && (ltb 0 q_val && above new best) then new else best

-- The media range at `start`: its score and what stands behind it.
abbrev pub range_at : Offer → Bytes → ℕ × Bytes
range_at offer start =
    let rtype = take_while in_type start in
    let p = drop_while in_type start in
    if deref p == b'/'
    then (
      pair_score offer rtype (take_while in_subtype (advance p)),
      drop_while in_subtype (advance p),
    )
    else ((if str_eq rtype (codes "*") then 1 else 0), p)

abbrev pub next_range : Bytes → Bytes
next_range p = let q = drop_while not_comma p in if deref q == b',' then advance q else q

-- The loop over a value. Each round takes a byte at least.
unfoldable pub range_loop : ℕ → (Bytes → Option ℕ) → Offer → Bytes → Rating → Rating
range_loop zero read_q offer p best = best
range_loop (suc fuel) read_q offer p best =
    let start = drop_while is_separator p in
    let (rscore, behind) = range_at offer start in
    let (q_val, end) = accepts_parse_q (length behind) read_q one_weight behind in
    let next = range_loop fuel read_q offer (next_range end) (rate rscore q_val best) in
    if length p == 0 then best else if length start == 0 then best else next

unfoldable pub rate_headers : (Bytes → Option ℕ) → Offer → List HttpHeader → Rating → Rating
rate_headers read_q offer [] best = best
rate_headers read_q offer (x ∷ headers) best =
    let other = rate_headers read_q offer headers best in
    let next =
      rate_headers read_q offer headers (range_loop (length x.value) read_q offer x.value best) in
    if str_case_eq x.key (codes "Accept") then next else other

abbrev pub unrated : Rating
unrated = record { score = 0; q = 0 }

-- An offer without a slash is passed over, as one with the score 0 is.
abbrev pub rating : (Bytes → Option ℕ) → List HttpHeader → Bytes → Rating
rating read_q headers type = elim (split_offer type) as (λ _. Rating) [
  | none ↦ unrated
  | some offer ↦ rate_headers read_q offer headers unrated
]

-- `best_type`, with `best_score` and `best_q`
abbrev pub better : Rating → Option (Bytes × Rating) → Bool
better r none = ltb 0 r.score
better r (some (type, best)) = ltb 0 r.score && above r best

unfoldable pub offer_loop :
    (Bytes → Rating) → List Bytes → Option (Bytes × Rating) → Option (Bytes × Rating)
offer_loop rate_type [] best = best
offer_loop rate_type (type ∷ types) best =
    offer_loop rate_type types
      (if better (rate_type type) best then some (type, rate_type type) else best)

unfoldable pub first_valid : List Bytes → Option Bytes
first_valid [] = none
first_valid (type ∷ types) =
    let rest = first_valid types in if str_has b'/' type then some type else rest

unfoldable pub has_accept : List HttpHeader → Bool
has_accept [] = false
has_accept (x ∷ headers) = str_case_eq x.key (codes "Accept") || has_accept headers

abbrev pub taken_type : Option (Bytes × Rating) → Option Bytes
taken_type none = none
taken_type (some (type, best)) = some type

unfoldable pub http_req_accepts : (Bytes → Option ℕ) → List HttpHeader → List Bytes → Option Bytes
http_req_accepts read_q headers types =
    if length types == 0
    then none
    else if not (has_accept headers)
    then first_valid types
    else taken_type (offer_loop (rating read_q headers) types none)

-- ===== src/Encoder/Wanted.antt =====
-- What `http_accepts_encoding` makes of the codings that a client lists.
use c_http.Base.{
  ◌≡◌, ◌≢◌, refl, sym, ◌∙◌, ap, Bool, false, not, ◌&&◌, ◌||◌, List, [], ◌∷◌, ◌++◌, Option,
  if◌then◌else◌, Bytes, codes, length, length-pos, All, map, str_case_eq, str_eq, arith,
}
use c_http.Http.Headers.{HttpHeader}
use c_http.Encoder.{Accepts, element, accept_headers, none_seen, http_accepts_encoding}
use c_http.Encoder.Negotiation.{
  Coding, IsCoding, write_codings, EndsAtComma, wanted, seen, codings_start, accept_loop-seen,
}

abbrev is_star : Coding → Bool
is_star c = str_eq c.name (codes "*")

abbrev is_named : Bytes → Coding → Bool
is_named encoding c = not (is_star c) && str_case_eq c.name encoding

abbrev any_of : (Coding → Bool) → List Coding → Bool
any_of p [] = false
any_of p (c ∷ cs) = p c || any_of p cs

-- Whether a client that lists these codings takes this one: where it is named, in any spelling,
-- some mention must want it, and `*` counts only where it is not.
abbrev pub takes : (Bytes → Option Bool) → Bytes → List Coding → Bool
takes positive encoding cs =
    if any_of (is_named encoding) cs
    then any_of (λ c. is_named encoding c && wanted positive c.q) cs
    else any_of (λ c. is_star c && wanted positive c.q) cs

-- All codings of the headers.
abbrev pub all_codings : List (List Coding) → List Coding
all_codings [] = []
all_codings (cs ∷ values) = cs ++ all_codings values

abbrev pub ask : List Coding → HttpHeader
ask cs = record { key = codes "Accept-Encoding"; value = write_codings cs }

module _ (positive : Bytes → Option Bool) (encoding : Bytes) where
  seen-append :
      (cs more : List Coding) (st : Accepts)
      → seen positive encoding (cs ++ more) st
        ≡ seen positive encoding more (seen positive encoding cs st)
  unfolding seen
  seen-append [] more st = refl
  seen-append (c ∷ cs) more st = seen-append cs more _

  seen_specific :
      (cs : List Coding) (st : Accepts)
      → ((seen positive encoding cs st).specific_found
          ≡ any_of (is_named encoding) cs || st.specific_found)
        × ((seen positive encoding cs st).specific_ok
            ≡ any_of (λ c. is_named encoding c && wanted positive c.q) cs || st.specific_ok)
  unfolding seen
  seen_specific [] st = (refl, refl)
  seen_specific (c ∷ cs) st =
      let next = seen_specific cs (element encoding c.name (wanted positive c.q) st) in
      (ground (arith, next.0), ground (arith, next.1))

  seen_wildcard :
      (cs : List Coding) (st : Accepts)
      → ((seen positive encoding cs st).wildcard_found ≡ any_of is_star cs || st.wildcard_found)
        × ((seen positive encoding cs st).wildcard_ok
            ≡ any_of (λ c. is_star c && wanted positive c.q) cs || st.wildcard_ok)
  unfolding seen
  seen_wildcard [] st = (refl, refl)
  seen_wildcard (c ∷ cs) st =
      let next = seen_wildcard cs (element encoding c.name (wanted positive c.q) st) in
      (ground (arith, next.0), ground (arith, next.1))

  star_found :
      (cs : List Coding)
      → any_of is_star cs && any_of (λ c. is_star c && wanted positive c.q) cs
        ≡ any_of (λ c. is_star c && wanted positive c.q) cs
  star_found [] = refl
  star_found (c ∷ cs) = ground (arith, star_found cs)

  module _ (ends : EndsAtComma positive) where
    accept_headers-seen :
        (values : List (List Coding)) (st : Accepts)
        → All (All IsCoding) values
        → accept_headers positive encoding (map ask values) st
          ≡ seen positive encoding (all_codings values) st
    unfolding accept_headers seen
    accept_headers-seen [] st h = refl
    accept_headers-seen (cs ∷ values) st h =
        accept_headers-seen values _ h.1
        ∙ ap (seen positive encoding (all_codings values)) (
            accept_loop-seen positive ends (length (write_codings cs)) encoding (write_codings cs)
              cs st h.0 (codings_start cs h.0) (omega arith))
        ∙ sym (seen-append cs (all_codings values) st)

    -- For any list of codings, with weights or without, over any number of Accept-Encoding
    -- headers: a coding that is named, in any spelling, is accepted exactly where some mention of
    -- it has no weight, one that is no number at least 0, or one above 0, and `*` decides in the
    -- same way only for a coding that is not named. The names are not empty and have no commas,
    -- no semicolons and no blanks at their ends, the texts of the weights have no commas and no
    -- semicolons, and the reader of the weights stops at a comma.
    pub http_accepts_encoding-takes :
        (values : List (List Coding))
        → encoding ≢ []
        → All (All IsCoding) values
        → http_accepts_encoding positive (map ask values) encoding
          ≡ takes positive encoding (all_codings values)
    unfolding http_accepts_encoding
    http_accepts_encoding-takes values named h =
        let cs = all_codings values in
        let specific = seen_specific cs none_seen in
        let wildcard = seen_wildcard cs none_seen in
        let star = star_found cs in
        rw (accept_headers-seen values none_seen h) (
          ground (
            arith,
            length-pos encoding named,
            specific.0,
            specific.1,
            wildcard.0,
            wildcard.1,
            star,
          ))

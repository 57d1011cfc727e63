-- ===== src/Encoder/Chosen.antt =====
-- The choice of `http_encode_body`, and what a client decodes.
use c_http.Base.{
  ℕ, ◌≤◌, ◌<◌, ◌+◌, ◌*◌, ◌≡◌, ◌≢◌, refl, ◌∙◌, ap, Bool, true, false, List, [], ◌∷◌, ◌++◌, Option,
  none, some, if◌then◌else◌, ◌==◌, leb, Bytes, codes, length, All, length-pos, arith, inl, inr, ◌⊎◌,
  Bool-cases,
}
use c_http.Http.Fields.{header_value_has_injection, is_valid_header_name, all_name_chars}
use c_http.Http.Headers.{
  HttpHeader, HttpHeaders, apply_header, append_header, grow_headers, find_header,
}
use c_http.Http.Headers.Lookup.{find_header-apply_header}
use c_http.Http.Response.{HttpResponse, http_set_header}
use c_http.Encoder.{
  HttpEncoder, http_accepts_encoding, source_body, try_encoded, try_encoders, is_encoded,
  http_encode_body,
}

-- Why an encoder is passed over.
pub data Refused (positive : Bytes → Option Bool) (headers : List HttpHeader) (body : Bytes)
    (encoder : HttpEncoder) : Type 0 where
  unwanted :
      http_accepts_encoding positive headers encoder.name ≡ false
      → Refused positive headers body encoder
  failing : encoder.encode body ≡ none → Refused positive headers body encoder
  no_gain :
      (out : Bytes)
      → encoder.encode body ≡ some out
      → length body ≤ length out
      → Refused positive headers body encoder

-- The first encoder that is not passed over, with its output.
pub record IsChosen (positive : Bytes → Option Bool) (headers : List HttpHeader) (body : Bytes)
    (encoders : List HttpEncoder) (encoder : HttpEncoder) (out : Bytes) : Type 0 where
  pub before : List HttpEncoder
  pub behind : List HttpEncoder
  pub registered : encoders ≡ before ++ (encoder ∷ behind)
  pub passed : All (Refused positive headers body) before
  pub accepted : http_accepts_encoding positive headers encoder.name ≡ true
  pub output : encoder.encode body ≡ some out
  pub smaller : length out < length body

abbrev pub encoded_with : (ℕ → Bool) → HttpResponse → Bytes → Bytes → HttpResponse
encoded_with mem res name out = record res {
  encoded_body = some out;
  headers = (http_set_header mem res.headers (codes "Content-Encoding") name).0;
}

-- What `try_encoders` may give.
pub data IsTried (mem : ℕ → Bool) (positive : Bytes → Option Bool) (headers : List HttpHeader)
    (res : HttpResponse) (encoders : List HttpEncoder) : HttpResponse × Bool → Type 0 where
  exhausted :
      All (Refused positive headers (source_body res)) encoders
      → IsTried mem positive headers res encoders (res, false)
  chosen :
      (encoder : HttpEncoder) (out : Bytes)
      → IsChosen positive headers (source_body res) encoders encoder out
      → IsTried mem positive headers res encoders (encoded_with mem res encoder.name out, true)

is_empty : (s : Bytes) → (s ≡ []) ⊎ (s ≢ [])
is_empty [] = inl refl
is_empty (c ∷ s) = inr (λ e. cc)

module _ (mem : ℕ → Bool) (positive : Bytes → Option Bool) (headers : List HttpHeader)
    (res : HttpResponse) where
  again :
      (encoder : HttpEncoder) (encoders : List HttpEncoder) (r : HttpResponse × Bool)
      → Refused positive headers (source_body res) encoder
      → IsTried mem positive headers res encoders r
      → IsTried mem positive headers res (encoder ∷ encoders) r
  again encoder encoders _ refused (exhausted all) = exhausted (refused, all)
  again encoder encoders _ refused (chosen e out c) = chosen e out (record {
    before = encoder ∷ c.before;
    behind = c.behind;
    registered = ap (◌∷◌ encoder) c.registered;
    passed = (refused, c.passed);
    accepted = c.accepted;
    output = c.output;
    smaller = c.smaller;
  })

  try_encoded-IsTried :
      (encoder : HttpEncoder) (encoders : List HttpEncoder) (result : Option Bytes)
      (r : HttpResponse × Bool)
      → http_accepts_encoding positive headers encoder.name ≡ true
      → encoder.encode (source_body res) ≡ result
      → IsTried mem positive headers res encoders r
      → IsTried mem positive headers res (encoder ∷ encoders) (try_encoded mem res encoder result r)
  try_encoded-IsTried encoder encoders none r wanted e next =
      again encoder encoders r (failing e) next
  try_encoded-IsTried encoder encoders (some out) r wanted e next =
      elim (Bool-cases (leb (length (source_body res)) (length out))) [
        | inl large ↦ rw large (again encoder encoders r (no_gain out e (ground arith)) next)
        | inr small ↦ rw small (
            chosen encoder out (record {
              before = [];
              behind = encoders;
              registered = refl;
              passed = tt;
              accepted = wanted;
              output = e;
              smaller = ground arith;
            }))
      ]

  try_encoders-IsTried :
      (encoders : List HttpEncoder)
      → IsTried mem positive headers res encoders (try_encoders mem positive headers res encoders)
  unfolding try_encoders
  try_encoders-IsTried [] = exhausted tt
  try_encoders-IsTried (encoder ∷ encoders) =
      let next = try_encoders-IsTried encoders in
      elim (Bool-cases (http_accepts_encoding positive headers encoder.name)) [
        | inl wanted ↦ rw wanted (try_encoded-IsTried encoder encoders _ _ wanted refl next)
        | inr refused ↦ rw refused (again encoder encoders _ (unwanted refused) next)
      ]

  http_encode_body-empty :
      (encoders : List HttpEncoder)
      → source_body res ≡ []
      → http_encode_body mem positive encoders headers res ≡ (res, false)
  unfolding http_encode_body
  http_encode_body-empty encoders empty = ground (arith, ap length empty)

  http_encode_body-tries :
      (encoders : List HttpEncoder)
      → source_body res ≢ []
      → res.encoded_body ≡ none
      → find_header res.headers.items (codes "Content-Encoding") ≡ none
      → http_encode_body mem positive encoders headers res
        ≡ try_encoders mem positive headers res encoders
  unfolding http_encode_body
  http_encode_body-tries encoders filled fresh plain =
      rw (fresh, plain) (ground (arith, length-pos (source_body res) filled))

  -- A body that is not empty, not encoded yet and has no Content-Encoding header is encoded by the
  -- first of the registered encoders that the client accepts, that does not fail and whose output
  -- is smaller than the body: its output becomes the encoded body, and its name is set as the
  -- Content-Encoding. Every encoder before it is refused by the client, fails or does not make
  -- the body smaller, and where this holds of all of them the response is unchanged.
  pub http_encode_body-IsTried :
      (encoders : List HttpEncoder)
      → source_body res ≢ []
      → res.encoded_body ≡ none
      → find_header res.headers.items (codes "Content-Encoding") ≡ none
      → IsTried mem positive headers res encoders
          (http_encode_body mem positive encoders headers res)
  http_encode_body-IsTried encoders filled fresh plain =
      rw (http_encode_body-tries encoders filled fresh plain) (try_encoders-IsTried encoders)

-- The body a client reads: decoded by the coding that the response names.
abbrev pub read_coded : (Bytes → Bytes → Option Bytes) → Option Bytes → Bytes → Option Bytes
read_coded decode none body = some body
read_coded decode (some coding) body = decode coding body

-- The body that is sent: the encoded one comes first.
abbrev pub coded_body : Option Bytes → HttpResponse → Bytes
coded_body none res = source_body res
coded_body (some body) res = body

abbrev pub client_body : (Bytes → Bytes → Option Bytes) → HttpResponse → Option Bytes
client_body decode res =
    read_coded decode (find_header res.headers.items (codes "Content-Encoding"))
      (coded_body res.encoded_body res)

-- The client knows the coding, and the name can stand in a header.
pub record IsKnown (decode : Bytes → Bytes → Option Bytes) (encoder : HttpEncoder) : Type 0 where
  pub clean : header_value_has_injection encoder.name ≡ false
  pub decodes : (s out : Bytes) → encoder.encode s ≡ some out → decode encoder.name out ≡ some s

All-middle :
    (P : HttpEncoder → Type 0) (before : List HttpEncoder) (x : HttpEncoder)
    (behind : List HttpEncoder)
    → All P (before ++ (x ∷ behind))
    → P x
All-middle P [] x behind h = h.0
All-middle P (y ∷ before) x behind h = All-middle P before x behind h.1

content_encoding_named : is_valid_header_name (codes "Content-Encoding") ≡ true
unfolding is_valid_header_name all_name_chars
content_encoding_named = refl

set_header_done :
    (mem : ℕ → Bool) (h : HttpHeaders) (value : Bytes)
    → ((n : ℕ) → mem n ≡ true)
    → header_value_has_injection value ≡ false
    → (http_set_header mem h (codes "Content-Encoding") value).1 ≡ true
unfolding apply_header append_header grow_headers
set_header_done mem h value enough clean = ground (
  arith,
  content_encoding_named,
  clean,
  enough ((if h.capacity == 0 then 8 else h.capacity * 2) * 16),
  enough (length (codes "Content-Encoding") + 1),
  enough (length value + 1),
)

client_body_fresh :
    (decode : Bytes → Bytes → Option Bytes) (res : HttpResponse)
    → res.encoded_body ≡ none
    → find_header res.headers.items (codes "Content-Encoding") ≡ none
    → client_body decode res ≡ some (source_body res)
client_body_fresh decode res fresh plain = rw (fresh, plain)

client_body_coded :
    (mem : ℕ → Bool) (decode : Bytes → Bytes → Option Bytes) (res : HttpResponse)
    (encoder : HttpEncoder) (out : Bytes)
    → ((n : ℕ) → mem n ≡ true)
    → IsKnown decode encoder
    → encoder.encode (source_body res) ≡ some out
    → find_header res.headers.items (codes "Content-Encoding") ≡ none
    → client_body decode (encoded_with mem res encoder.name out) ≡ some (source_body res)
client_body_coded mem decode res encoder out enough known output plain =
    let named =
      find_header-apply_header mem res.headers (codes "Content-Encoding") encoder.name
        (codes "Content-Encoding")
        (set_header_done mem res.headers encoder.name enough known.clean) in
    rw named (rw plain (known.decodes (source_body res) out output))

client_body-tried :
    (mem : ℕ → Bool) (positive : Bytes → Option Bool) (decode : Bytes → Bytes → Option Bytes)
    (encoders : List HttpEncoder) (headers : List HttpHeader) (res : HttpResponse)
    (r : HttpResponse × Bool)
    → ((n : ℕ) → mem n ≡ true)
    → All (IsKnown decode) encoders
    → res.encoded_body ≡ none
    → find_header res.headers.items (codes "Content-Encoding") ≡ none
    → IsTried mem positive headers res encoders r
    → client_body decode r.0 ≡ some (source_body res)
client_body-tried mem positive decode encoders headers res _ enough known fresh plain
      (exhausted all) =
    client_body_fresh decode res fresh plain
client_body-tried mem positive decode encoders headers res _ enough known fresh plain
      (chosen encoder out c) =
    client_body_coded mem decode res encoder out enough
      (All-middle (IsKnown decode) c.before encoder c.behind (rw c.registered at known)) c.output
      plain

-- Where memory suffices, the client can decode what every registered encoder puts out, the names
-- of the encoders can stand in a header, and the response is not encoded yet and has no
-- Content-Encoding: behind `http_encode_body` the client reads the body of the handler, whatever it
-- accepts and whichever encoder was taken, since the coding that the response names is the one
-- that was used.
pub client_body-http_encode_body :
    (mem : ℕ → Bool) (positive : Bytes → Option Bool) (decode : Bytes → Bytes → Option Bytes)
    (encoders : List HttpEncoder) (headers : List HttpHeader) (res : HttpResponse)
    → ((n : ℕ) → mem n ≡ true)
    → All (IsKnown decode) encoders
    → res.encoded_body ≡ none
    → find_header res.headers.items (codes "Content-Encoding") ≡ none
    → client_body decode (http_encode_body mem positive encoders headers res).0
      ≡ some (source_body res)
client_body-http_encode_body mem positive decode encoders headers res enough known fresh plain =
    elim (is_empty (source_body res)) [
      | inl empty ↦
          ap (λ (r : HttpResponse × Bool). client_body decode r.0)
            (http_encode_body-empty mem positive headers res encoders empty)
          ∙ client_body_fresh decode res fresh plain
      | inr filled ↦
          client_body-tried mem positive decode encoders headers res _ enough known fresh plain
            (http_encode_body-IsTried mem positive headers res encoders filled fresh plain)
    ]

lost_header :
    (h : HttpHeaders) (key value : Bytes)
    → (http_set_header (λ n. false) h key value).0.items ≡ h.items
unfolding apply_header append_header grow_headers
lost_header h key value = ground arith

tried_lost :
    (positive : Bytes → Option Bool) (encoders : List HttpEncoder) (headers : List HttpHeader)
    (res : HttpResponse) (r : HttpResponse × Bool)
    → IsTried (λ n. false) positive headers res encoders r
    → r.1 ≡ true
    → (is_encoded r.0.encoded_body ≡ true) × (r.0.headers.items ≡ res.headers.items)
tried_lost positive encoders headers res _ (exhausted all) done = cc
tried_lost positive encoders headers res _ (chosen encoder out c) done =
    (refl, lost_header res.headers (codes "Content-Encoding") encoder.name)

-- Where no memory is left for the header, a response with a body, not encoded yet and without a
-- Content-Encoding, for which `http_encode_body` gives true all the same has the encoded body set
-- and still no Content-Encoding.
pub http_encode_body-unlabelled :
    (positive : Bytes → Option Bool) (encoders : List HttpEncoder) (headers : List HttpHeader)
    (res : HttpResponse)
    → source_body res ≢ []
    → res.encoded_body ≡ none
    → find_header res.headers.items (codes "Content-Encoding") ≡ none
    → (http_encode_body (λ n. false) positive encoders headers res).1 ≡ true
    → (is_encoded (http_encode_body (λ n. false) positive encoders headers res).0.encoded_body
        ≡ true)
      × (find_header
            (http_encode_body (λ n. false) positive encoders headers res).0.headers.items
            (codes "Content-Encoding")
          ≡ none)
http_encode_body-unlabelled positive encoders headers res filled fresh plain done =
    let (encoded, same) =
      tried_lost positive encoders headers res _
        (http_encode_body-IsTried (λ n. false) positive headers res encoders filled fresh plain)
        done in
    (encoded, ap (λ items. find_header items (codes "Content-Encoding")) same ∙ plain)

-- ===== src/Http/Receive/Complete.antt =====
-- The search of `read_request` through each new chunk finds what a search of all would find.
use c_http.Base.{
  ℕ, zero, suc, ◌-◌, ◌≤◌, ◌<◌, ◌≡◌, refl, sym, ap, ◌∙◌, Bool, true, false, not, ◌&&◌, ◌||◌, List,
  [], ◌∷◌, ◌++◌, Option, none, some, if◌then◌else◌, ◌==◌, ltb, leb, Bytes, all, All, length,
  length-append, length-take, take, drop, starts_with, arith, inl, inr, Bool-cases,
}
use c_http.Http.Receive.{
  RecvResult, received, recv_interrupted, recv_failed, has_sub, not_nul, c_string, blank_line,
  ReadRequest, found_in, request_loop, read_request,
}

starts_with-front :
    (s t needle : Bytes)
    → length needle ≤ length s
    → starts_with (s ++ t) needle ≡ starts_with s needle
starts_with-front s t [] h = refl
starts_with-front [] t (n ∷ needle) h = absurd (omega (arith, h))
starts_with-front (c ∷ s) t (n ∷ needle) h =
    ap (λ b. c == n && b) (starts_with-front s t needle (omega (arith, h)))

-- The bytes from which on a needle of four may begin that ends in the chunk.
abbrev overlap : Bytes → Bytes
overlap buf = drop (length buf - 3) buf

overlap-cons : (c : ℕ) (buf : Bytes) → 3 ≤ length buf → overlap (c ∷ buf) ≡ overlap buf
overlap-cons c buf h =
    let e : suc (length buf) - 3 ≡ suc (length buf - 3) = omega (arith, h) in
    ap (λ n. drop n (c ∷ buf)) e

overlap-short : (buf : Bytes) → length buf ≤ 3 → overlap buf ≡ buf
overlap-short buf h = let e : length buf - 3 ≡ 0 = omega (arith, h) in ap (λ n. drop n buf) e

has_sub-overlap :
    (buf chunk : Bytes)
    → has_sub blank_line buf ≡ false
    → has_sub blank_line (buf ++ chunk) ≡ has_sub blank_line (overlap buf ++ chunk)
unfolding has_sub
has_sub-overlap [] chunk h = refl
has_sub-overlap (c ∷ buf) chunk h = elim (Bool-cases (leb 3 (length buf))) [
  | inl long ↦
      let enough : 3 ≤ length buf = ground (arith, long) in
      let here = starts_with-front (c ∷ buf) chunk blank_line (omega (arith, enough)) in
      let absent : starts_with (c ∷ buf) blank_line ≡ false = ground (arith, h) in
      let later : has_sub blank_line buf ≡ false = ground (arith, h) in
      ap (λ b. b || has_sub blank_line (buf ++ chunk)) (here ∙ absent)
      ∙ has_sub-overlap buf chunk later
      ∙ ap (λ s. has_sub blank_line (s ++ chunk)) (sym (overlap-cons c buf enough))
  | inr short ↦
      ap (λ s. has_sub blank_line (s ++ chunk))
        (sym (overlap-short (c ∷ buf) (ground (arith, short))))
]

c_string-text : (s : Bytes) → all not_nul s ≡ true → c_string s ≡ s
c_string-text [] h = refl
c_string-text (c ∷ s) h = ground (arith, c_string-text s)

all-append :
    (s t : Bytes) → all not_nul s ≡ true → all not_nul t ≡ true → all not_nul (s ++ t) ≡ true
all-append [] t h k = k
all-append (c ∷ s) t h k = ground (arith, all-append s t)

all-drop : (n : ℕ) (s : Bytes) → all not_nul s ≡ true → all not_nul (drop n s) ≡ true
all-drop zero s h = h
all-drop (suc n) [] h = refl
all-drop (suc n) (c ∷ s) h = all-drop n s (ground (arith, h))

all-take : (n : ℕ) (s : Bytes) → all not_nul s ≡ true → all not_nul (take n s) ≡ true
all-take zero s h = refl
all-take (suc n) [] h = refl
all-take (suc n) (c ∷ s) h = ground (arith, all-take n s)

drop-append : (n : ℕ) (s t : Bytes) → n ≤ length s → drop n (s ++ t) ≡ drop n s ++ t
drop-append zero s t h = refl
drop-append (suc n) [] t h = absurd (omega (arith, h))
drop-append (suc n) (c ∷ s) t h = drop-append n s t (omega (arith, h))

scan_from : (n : ℕ) → (if ltb 3 n then n - 3 else 0) ≡ n - 3
scan_from n = ground arith

found_in-has_sub :
    (buf chunk : Bytes)
    → all not_nul buf ≡ true
    → all not_nul chunk ≡ true
    → has_sub blank_line buf ≡ false
    → found_in buf chunk ≡ has_sub blank_line (buf ++ chunk)
found_in-has_sub buf chunk h k absent =
    ap (λ n. has_sub blank_line (c_string (drop n (buf ++ chunk)))) (scan_from (length buf))
    ∙ ap (λ s. has_sub blank_line (c_string s))
        (drop-append (length buf - 3) buf chunk (omega arith))
    ∙ ap (has_sub blank_line) (
        c_string-text (overlap buf ++ chunk)
          (all-append (overlap buf) chunk (all-drop (length buf - 3) buf h) k))
    ∙ sym (has_sub-overlap buf chunk absent)

-- Bytes without a NUL.
abbrev pub IsText : RecvResult → Type 0
IsText (received bytes) = all not_nul bytes ≡ true
IsText recv_interrupted = Unit {0}
IsText recv_failed = Unit {0}

-- What was read fits the buffer with its NUL, and is complete exactly when it has a blank line.
abbrev pub IsReading : ℕ → Option Bytes → Bool → Type 0
IsReading size none complete = complete ≡ false
IsReading size (some buf) complete = (length buf < size) × (complete ≡ has_sub blank_line buf)

abbrev Reads : ℕ → ReadRequest → Type 0
Reads size r = IsReading size r.buf r.complete

-- No room, or one more round.
Reads-if :
    (size : ℕ) (b : Bool) (r s : ReadRequest)
    → (b ≡ true → Reads size r)
    → (b ≡ false → Reads size s)
    → Reads size (if b then r else s)
Reads-if size true r s h k = h refl
Reads-if size false r s h k = k refl

request_loop-Reads :
    (recvs : List RecvResult) (size : ℕ) (buf : Bytes)
    → All IsText recvs
    → all not_nul buf ≡ true
    → length buf < size
    → has_sub blank_line buf ≡ false
    → Reads size (request_loop recvs size buf)
unfolding request_loop
request_loop-Reads [] size buf texts h fits absent =
    Reads-if size (ltb (length buf) (size - 1)) _ _ (λ _. refl) (λ _. (fits, sym absent))
request_loop-Reads (recv_failed ∷ recvs) size buf texts h fits absent =
    Reads-if size (ltb (length buf) (size - 1)) _ _ (λ _. refl) (λ _. (fits, sym absent))
request_loop-Reads (recv_interrupted ∷ recvs) size buf texts h fits absent =
    Reads-if size (ltb (length buf) (size - 1)) _ _
      (λ _. request_loop-Reads recvs size buf texts.1 h fits absent) (λ _. (fits, sym absent))
request_loop-Reads (received bytes ∷ recvs) size buf texts h fits absent =
    let room = size - 1 - length buf in
    let chunk = take room bytes in
    let text = all-take room bytes texts.0 in
    let whole = all-append buf chunk h text in
    let found = found_in-has_sub buf chunk h text absent in
    let bigger : length (buf ++ chunk) < size =
      omega (arith, fits, length-append buf chunk, length-take room bytes) in
    let stop : ReadRequest = record { buf = some (buf ++ chunk); complete = true; recvs = recvs } in
    let again = request_loop recvs size (buf ++ chunk) in
    let closed : ReadRequest = record { buf = some buf; complete = false; recvs = recvs } in
    Reads-if size (not (ltb (length buf) (size - 1))) _ _ (λ _. (fits, sym absent))
      (λ _.
        Reads-if size (length chunk == 0) closed (if found_in buf chunk then stop else again)
          (λ _. (fits, sym absent))
          (λ _.
            Reads-if size (found_in buf chunk) stop again (λ e. (bigger, sym e ∙ found))
              (λ e.
                request_loop-Reads recvs size (buf ++ chunk) texts.1 whole bigger (sym found ∙ e))))

-- From a client that sends no NUL, in chunks of any sizes: what is read fits the buffer with its
-- NUL, and it is reported as complete exactly when there is a blank line anywhere in it, although
-- each chunk is searched with only three bytes in front of it.
pub read_request-IsReading :
    (recvs : List RecvResult) (size : ℕ)
    → All IsText recvs
    → 0 < size
    → IsReading size (read_request recvs size).buf (read_request recvs size).complete
unfolding read_request has_sub
read_request-IsReading recvs size texts room = request_loop-Reads recvs size [] texts refl room refl

-- ===== src/Http/Response/Prepare.antt =====
-- What `send_res` knows before it sends.
use c_http.Base.{
  ℕ, ◌+◌, ◌-◌, ◌≤◌, ◌<◌, ◌≡◌, refl, sym, Bool, true, false, ◌&&◌, Option, none, some, leb, Bytes,
  length, drop, length-take, length-drop, min, arith, inl, inr, Bool-cases,
}
use c_http.Http.Fields.{is_valid_status_code}
use c_http.Http.Response.{HttpResponse}
use c_http.Http.Response.Send.{
  Prepared, is_no_body_status, check_status, without_file, opened, open_path, open_body,
  clamp_range, prepare, sent_length,
}
use c_http.Http.Response.Whole.{file_slice, sent_body}
use c_http.Http.Response.Delivered.{HasFile}

-- An open file with its size.
abbrev Whole : Bool → Option Bytes → ℕ → ℕ → Type 0
Whole false fd start size = Unit {0}
Whole true none start size = ⊥
Whole true (some content) start size = (start ≡ 0) × (size ≡ length content)

record IsOpened (p : Prepared) : Type 0 where
  valid : is_valid_status_code p.res.status ≡ true
  whole : Whole p.streaming p.file_fd p.send_offset p.send_size

-- An open file has the bytes that are promised.
abbrev pub Promised : Bool → Option Bytes → ℕ → ℕ → Type 0
Promised true (some content) start size = start + size ≤ length content
Promised _ _ start size = Unit {0}

pub record IsPrepared (p : Prepared) : Type 0 where
  pub valid : is_valid_status_code p.res.status ≡ true
  pub promised : Promised p.streaming p.file_fd p.send_offset p.send_size

check_status-valid : (res : HttpResponse) → is_valid_status_code (check_status res).status ≡ true
unfolding is_valid_status_code
check_status-valid res = ground arith

without_file-IsOpened :
    (no_body : Bool) (res : HttpResponse)
    → is_valid_status_code res.status ≡ true
    → IsOpened (without_file no_body res)
without_file-IsOpened no_body res v = record { valid = v; whole = tt }

status_500 : is_valid_status_code 500 ≡ true
unfolding is_valid_status_code
status_500 = refl

status_416 : is_valid_status_code 416 ≡ true
unfolding is_valid_status_code
status_416 = refl

opened-IsOpened :
    (res : HttpResponse) (content : Option Bytes)
    → is_valid_status_code res.status ≡ true
    → IsOpened (opened res content)
opened-IsOpened res none v = record { valid = status_500; whole = tt }
opened-IsOpened res (some content) v = record { valid = v; whole = (refl, refl) }

open_path-IsOpened :
    (open_file : Bytes → Option Bytes) (res : HttpResponse) (path : Option Bytes)
    → is_valid_status_code res.status ≡ true
    → IsOpened (open_path open_file res path)
open_path-IsOpened open_file res none v = without_file-IsOpened false res v
open_path-IsOpened open_file res (some path) v = opened-IsOpened res (open_file path) v

open_body-IsOpened :
    (open_file : Bytes → Option Bytes) (res : HttpResponse)
    → is_valid_status_code res.status ≡ true
    → IsOpened (open_body open_file res)
unfolding open_body
open_body-IsOpened open_file res v = elim (Bool-cases (is_no_body_status res.status)) [
  | inl no_body ↦ rw no_body (without_file-IsOpened true res v)
  | inr body ↦ rw body (open_path-IsOpened open_file res res.file_path v)
]

Promised-closed : (streaming : Bool) (start size : ℕ) → Promised streaming none start size
Promised-closed true start size = tt
Promised-closed false start size = tt

Promised-whole :
    (streaming : Bool) (fd : Option Bytes) (start size : ℕ)
    → Whole streaming fd start size
    → Promised streaming fd start size
Promised-whole false none start size w = tt
Promised-whole false (some content) start size w = tt
Promised-whole true none start size w = absurd w
Promised-whole true (some content) start size w = omega (arith, w.0, w.1)

Promised-part :
    (streaming : Bool) (fd : Option Bytes) (start size from len : ℕ)
    → Whole streaming fd start size
    → from < size
    → Promised streaming fd from (min len (size - from))
Promised-part false none start size from len w h = tt
Promised-part false (some content) start size from len w h = tt
Promised-part true none start size from len w h = absurd w
Promised-part true (some content) start size from len w h = omega (arith, w.1, h)

clamp_range-IsPrepared : (p : Prepared) → IsOpened p → IsPrepared (clamp_range p)
unfolding clamp_range
clamp_range-IsPrepared p v = elim (Bool-cases (p.streaming && p.res.ranged)) [
  | inr whole ↦ rw whole (record {
    valid = v.valid;
    promised = Promised-whole p.streaming p.file_fd p.send_offset p.send_size v.whole;
  })
  | inl ranged ↦ elim (Bool-cases (leb p.send_size p.res.range_start)) [
    | inl beyond ↦
        rw (ranged, beyond)
          (record {
            valid = status_416;
            promised = Promised-closed p.streaming p.send_offset p.send_size;
          })
    | inr inside ↦
        rw (ranged, inside)
          (record {
            valid = v.valid;
            promised =
                Promised-part p.streaming p.file_fd p.send_offset p.send_size p.res.range_start
                  p.res.range_len v.whole (ground (arith, inside));
          })
  ]
]

pub prepare-IsPrepared :
    (open_file : Bytes → Option Bytes) (res : HttpResponse) → IsPrepared (prepare open_file res)
unfolding prepare
prepare-IsPrepared open_file res =
    clamp_range-IsPrepared (open_body open_file (check_status res))
      (open_body-IsOpened open_file (check_status res) (check_status-valid res))

length-file_slice :
    (fd : Option Bytes) (start size : ℕ)
    → HasFile true fd
    → Promised true fd start size
    → length (file_slice fd start size) ≡ size
length-file_slice none start size f h = absurd f
length-file_slice (some content) start size f h =
    omega (arith, h, length-take size (drop start content), length-drop start content)

-- The length in the header is that of the body that is sent.
pub sent_length-sent_body :
    (p : Prepared)
    → IsPrepared p
    → HasFile p.streaming p.file_fd
    → p.no_body_status ≡ false
    → sent_length p ≡ length (sent_body p false)
sent_length-sent_body p v f body = elim (Bool-cases p.streaming) [
  | inl streaming ↦
      rw (body, streaming)
        (sym (
          length-file_slice p.file_fd p.send_offset p.send_size (rw streaming at f)
            (rw streaming at v.promised)))
  | inr fixed ↦ rw (body, fixed) refl
]

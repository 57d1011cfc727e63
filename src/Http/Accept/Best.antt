-- ===== src/Http/Accept/Best.antt =====
-- The type that `http_req_accepts` takes.
use c_http.Base.{◌≡◌, true, false, ◌&&◌, List, ◌∷◌, ◌++◌, ◌⊎◌, Option, none, some, ltb, Bytes, All}
use c_http.Http.Accept.{Rating, above}

-- The first of the best: it has a score, those before it are worse and those behind not better.
pub record IsFirstBest (rate_type : Bytes → Rating) (types : List Bytes) (type : Bytes)
    : Type 0 where
  pub before : List Bytes
  pub behind : List Bytes
  pub offered : types ≡ before ++ (type ∷ behind)
  pub scores : ltb 0 (rate_type type).score ≡ true
  pub worse :
      All
        (λ t. (ltb 0 (rate_type t).score ≡ false) ⊎ (above (rate_type type) (rate_type t) ≡ true))
        before
  pub not_better :
      All (λ t. (ltb 0 (rate_type t).score && above (rate_type t) (rate_type type)) ≡ false) behind

abbrev pub IsChoice : (Bytes → Rating) → List Bytes → Option Bytes → Type 0
IsChoice rate_type types none = All (λ t. ltb 0 (rate_type t).score ≡ false) types
IsChoice rate_type types (some type) = IsFirstBest rate_type types type

-- What is known of `best_type` behind the offers seen so far.
abbrev IsState : (Bytes → Rating) → List Bytes → Option (Bytes × Rating) → Type 0
IsState rate_type seen none = IsChoice rate_type seen none
IsState rate_type seen (some (type, r)) = (r ≡ rate_type type) × IsFirstBest rate_type seen type

module _ (rate_type : Bytes → Rating) where
  abbrev Scores : Bytes → Type 0
  Scores t = ltb 0 (rate_type t).score ≡ true

  abbrev Worse : Bytes → Bytes → Type 0
  Worse type t = (ltb 0 (rate_type t).score ≡ false) ⊎ (above (rate_type type) (rate_type t) ≡ true)

  abbrev NotBetter : Bytes → Bytes → Type 0
  NotBetter type t = (ltb 0 (rate_type t).score && above (rate_type t) (rate_type type)) ≡ false

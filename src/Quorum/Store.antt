-- ===== src/Quorum/Store.antt =====
-- agents/agent_quorum.py: the records, and the rows of the proposals file.
use hollow_agent_os.Base.{
  ℕ, zero, suc, ◌≡◌, ◌≢◌, refl, String, Bool, true, false, Option, none, some, List, [], ◌∷◌, ◌++◌,
  arith, length,
}
use hollow_agent_os.Dict.{Dict}
use hollow_agent_os.Event.{Json}

pub data Status : Type 0 where
  pending approved rejected withdrawn : Status

abbrev pub is_pending : Status → Bool
is_pending pending = true
is_pending _ = false

pub record ProposalRecord : Type 0 where
  pub proposal_id : String
  pub proposer_id : String
  pub proposal_type : String
  pub description : String
  pub payload : Json
  pub votes : Dict (Option Bool)
  pub required_quorum : ℕ
  pub status : Status
  pub created_at : ℕ
  pub expires_at : ℕ
  pub finalized_at : Option ℕ

-- A line of voting_history.jsonl.
pub record VoteEntry : Type 0 where
  pub proposal_id : String
  pub voter_id : String
  pub vote : Bool
  pub timestamp : ℕ

-- `AgentQuorum` with its three files, `none` where a file does not exist.
pub record Quorum : Type 0 where
  pub percentage : ℕ
  pub proposals : Option (List ProposalRecord)
  pub index : Option (Dict ℕ)
  pub history : Option (List VoteEntry)

-- The rows of a file, and the entries of the index.
abbrev pub rows {ℓ} : {A : Type ℓ} → Option (List A) → List A
rows none = []
rows (some ls) = ls

-- `lines[idx]`, and `lines[idx] = v`.
abbrev pub row {ℓ} : {A : Type ℓ} → ℕ → List A → Option A
row n [] = none
row zero (x ∷ xs) = some x
row (suc n) (x ∷ xs) = row n xs

abbrev pub set_row {ℓ} : {A : Type ℓ} → ℕ → A → List A → List A
set_row n v [] = []
set_row zero v (x ∷ xs) = v ∷ xs
set_row (suc n) v (x ∷ xs) = x ∷ set_row n v xs

module _ {ℓ} {A : Type ℓ} where
  pub row-set_row_self :
      (n : ℕ) (v x : A) (xs : List A) → row n xs ≡ some x → row n (set_row n v xs) ≡ some v
  row-set_row_self n v x [] e = cc
  row-set_row_self zero v x (y ∷ ys) e = refl
  row-set_row_self (suc n) v x (y ∷ ys) e = row-set_row_self n v x ys e

  pub row-set_row_ne : (n m : ℕ) (v : A) (xs : List A) → n ≢ m → row m (set_row n v xs) ≡ row m xs
  row-set_row_ne n m v [] h = refl
  row-set_row_ne zero zero v (y ∷ ys) h = absurd (h refl)
  row-set_row_ne zero (suc m) v (y ∷ ys) h = refl
  row-set_row_ne (suc n) zero v (y ∷ ys) h = refl
  row-set_row_ne (suc n) (suc m) v (y ∷ ys) h = row-set_row_ne n m v ys (λ e. h (omega arith))

  pub row-append_last : (xs : List A) (v : A) → row (length xs) (xs ++ v ∷ []) ≡ some v
  row-append_last [] v = refl
  row-append_last (x ∷ xs) v = row-append_last xs v

  pub row-append :
      (n : ℕ) (xs : List A) (v x : A) → row n xs ≡ some x → row n (xs ++ v ∷ []) ≡ some x
  row-append n [] v x e = cc
  row-append zero (y ∷ ys) v x e = e
  row-append (suc n) (y ∷ ys) v x e = row-append n ys v x e

-- ===== src/Quorum/Rows.antt =====
-- agents/agent_quorum.py: the rows of the proposals file, read and written through the index.
use mathlib.Core.Path.{fun_ext}
use hollow_agent_os.Base.{
  ℕ, ◌≡◌, ◌≢◌, refl, sym, ap, ◌∙◌, subst, String, ◌==◌, eq_iff, false, Option, none, some, List,
  arith, inl, inr, if◌then◌else◌, Bool-cases, Option-cases,
}
use hollow_agent_os.Dict
use hollow_agent_os.Dict.{get-put, get-put_self}
use hollow_agent_os.Quorum.Store.{
  Quorum, ProposalRecord, rows, row, set_row, row-set_row_self, row-set_row_ne,
}
use hollow_agent_os.Quorum.{row_of, get_proposal, write_row}

-- The abstract state: what is filed under each identifier.
abbrev pub View : Type 0
View = String → Option ProposalRecord

-- A map changed at one identifier.
abbrev pub update : View → String → ProposalRecord → View
update f i p j = if i == j then some p else f j

-- Every entry of the index is the row of the proposal of that identifier.
abbrev pub IsIndexed : Quorum → Type 0
IsIndexed q =
    (i : String) (n : ℕ)
    → Dict.get i (rows q.index) ≡ some n
    → (p : ProposalRecord) × (row n (rows q.proposals) ≡ some p) × (p.proposal_id ≡ i)

row_of-get :
    (q : Quorum) (i : String) (n : ℕ) → row_of q i ≡ some n → Dict.get i (rows q.index) ≡ some n
unfolding row_of
row_of-get q i n e = elim (Option-cases q.proposals) [
  | inl none_q ↦ cc
  | inr (ls, some_q) ↦ subst (λ o. o ≡ some n) (rw (some_q, row_of) refl) e
]

-- The row of a proposal that the index has.
pub filed :
    (q : Quorum) (i : String) (n : ℕ)
    → IsIndexed q
    → row_of q i ≡ some n
    → (p : ProposalRecord) × (row n (rows q.proposals) ≡ some p) × (p.proposal_id ≡ i)
filed q i n h e = h i n (row_of-get q i n e)

empty-row :
    (n : ℕ) (p : ProposalRecord) (ls : Option (List ProposalRecord))
    → ls ≡ none
    → row n (rows ls) ≡ some p
    → ⊥
empty-row n p none e f = cc
empty-row n p (some ls) e f = cc

-- An index in order has no entries while there is no proposals file.
pub row_of-IsIndexed :
    (q : Quorum) (j : String) → IsIndexed q → row_of q j ≡ Dict.get j (rows q.index)
unfolding row_of
row_of-IsIndexed q j h = elim (Option-cases q.proposals) [
  | inl none_q ↦ elim (Option-cases (Dict.get j (rows q.index))) [
    | inl e ↦ rw (none_q, row_of, e) refl
    | inr (n, e) ↦ let (p, at_n, id_p) = h j n e in absurd (empty-row n p q.proposals none_q at_n)
  ]
  | inr (ls, some_q) ↦ rw (some_q, row_of) refl
]

-- A proposals file that is read has rows.
row_of-write_row :
    (q : Quorum) (i j : String) (n : ℕ) (p : ProposalRecord)
    → row_of q i ≡ some n
    → row_of (write_row q n p) j ≡ row_of q j
unfolding write_row row_of
row_of-write_row q i j n p e = elim (Option-cases q.proposals) [
  | inl none_q ↦ cc
  | inr (ls, some_q) ↦ rw (some_q, row_of) refl
]

some-proposal_id :
    (p r : ProposalRecord) (i j : String)
    → some p ≡ some r
    → p.proposal_id ≡ i
    → r.proposal_id ≡ j
    → i ≡ j
some-proposal_id p r i j e f g = cc

-- Two identifiers have different rows.
rows_differ :
    (q : Quorum) (i j : String) (n m : ℕ)
    → IsIndexed q
    → row_of q i ≡ some n
    → row_of q j ≡ some m
    → (i == j) ≡ false
    → n ≢ m
rows_differ q i j n m h e f ne =
    let (p, at_n, id_p) = filed q i n h e in
    let (r, at_m, id_r) = filed q j m h f in
    λ n_m.
      let same_row = subst (λ k. row k (rows q.proposals) ≡ some r) (sym n_m) at_m in
      let same = some-proposal_id p r i j (sym at_n ∙ same_row) id_p id_r in
      ground (arith, eq_iff i j)

pub some_row : (n m : ℕ) → some n ≡ some m → n ≡ m
some_row n m e = cc

same_row :
    (q : Quorum) (i j : String) (n m : ℕ)
    → row_of q i ≡ some n
    → row_of q j ≡ some m
    → i ≡ j
    → n ≡ m
same_row q i j n m e f ij = some_row n m (sym e ∙ ap (row_of q) ij ∙ f)

write_row-row :
    (q : Quorum) (i j : String) (n m : ℕ) (p p' : ProposalRecord)
    → IsIndexed q
    → row_of q i ≡ some n
    → row_of q j ≡ some m
    → row n (rows q.proposals) ≡ some p
    → row m (rows (write_row q n p').proposals)
      ≡ (if i == j then some p' else row m (rows q.proposals))
unfolding write_row
write_row-row q i j n m p p' h e f at_n = elim (Bool-cases (i == j)) [
  | inl same ↦ rw (same) (
      subst (λ k. row k (set_row n p' (rows q.proposals)) ≡ some p')
        (same_row q i j n m e f ((eq_iff i j).0 same))
        (row-set_row_self n p' p (rows q.proposals) at_n))
  | inr other ↦
      rw (other) (row-set_row_ne n m p' (rows q.proposals) (rows_differ q i j n m h e f other))
]

pub get_proposal-none : (q : Quorum) (j : String) → row_of q j ≡ none → get_proposal q j ≡ none
unfolding get_proposal
get_proposal-none q j e = rw (e, get_proposal) refl

pub get_proposal-some :
    (q : Quorum) (j : String) (m : ℕ)
    → row_of q j ≡ some m
    → get_proposal q j ≡ row m (rows q.proposals)
unfolding get_proposal
get_proposal-some q j m e = rw (e, get_proposal) refl

-- Writing the row of a proposal changes the map at its identifier, and nowhere else.
write_row-get :
    (q : Quorum) (i : String) (n : ℕ) (p p' : ProposalRecord)
    → IsIndexed q
    → row_of q i ≡ some n
    → row n (rows q.proposals) ≡ some p
    → (j : String) → get_proposal (write_row q n p') j ≡ update (get_proposal q) i p' j
write_row-get q i n p p' h e at_n j = elim (Option-cases (row_of q j)) [
  | inl none_j ↦
      get_proposal-none (write_row q n p') j (row_of-write_row q i j n p' e ∙ none_j)
      ∙ ground (arith, eq_iff i j, get_proposal-none q j none_j)
  | inr (m, f) ↦
      get_proposal-some (write_row q n p') j m (row_of-write_row q i j n p' e ∙ f)
      ∙ write_row-row q i j n m p p' h e f at_n
      ∙ ground (arith, get_proposal-some q j m f)
]

-- The change of one proposal.
abbrev pub change : View → String → (ProposalRecord → ProposalRecord) → View
change f i g = elim (f i) [ none ↦ f | some p ↦ update f i (g p) ]

-- What a call has done to the map, with the index in order and the percentage as it was.
abbrev pub Refines : Quorum → ℕ → View → Type 0
Refines q percentage f = IsIndexed q × (q.percentage ≡ percentage) × (get_proposal q ≡ f)

write_row-IsIndexed :
    (q : Quorum) (i : String) (n : ℕ) (p p' : ProposalRecord)
    → IsIndexed q
    → row_of q i ≡ some n
    → row n (rows q.proposals) ≡ some p
    → p'.proposal_id ≡ i
    → IsIndexed (write_row q n p')
unfolding write_row
write_row-IsIndexed q i n p p' h e at_n id_p' j m f' =
    let f = row_of-IsIndexed q j h ∙ f' in
    let (r, at_m, id_r) = filed q j m h f in
    elim (Bool-cases (i == j)) [
      | inl same ↦
          (p', ground (arith, write_row-row q i j n m p p' h e f at_n), ground (arith, eq_iff i j))
      | inr other ↦ (r, ground (arith, write_row-row q i j n m p p' h e f at_n), id_r)
    ]

pub not_filed :
    (q : Quorum) (i : String) (p : ProposalRecord)
    → row_of q i ≡ none
    → get_proposal q i ≡ some p
    → ⊥
not_filed q i p e f = cc (get_proposal-none q i e)

update-same :
    (f : View) (i : String) (p : ProposalRecord)
    → f i ≡ some p
    → (j : String) → update f i p j ≡ f j
update-same f i p e j = elim (Bool-cases (i == j)) [
  | inl same ↦ rw (same) (sym e ∙ ap f ((eq_iff i j).0 same))
  | inr other ↦ rw (other) refl
]

change-some :
    (f : View) (i : String) (g : ProposalRecord → ProposalRecord) (p : ProposalRecord)
    → f i ≡ some p
    → (j : String) → change f i g j ≡ update f i (g p) j
change-some f i g p e j = rw (e, change) refl

pub write_row-Refines :
    (q : Quorum) (i : String) (n : ℕ) (p : ProposalRecord) (g : ProposalRecord → ProposalRecord)
    → IsIndexed q
    → row_of q i ≡ some n
    → row n (rows q.proposals) ≡ some p
    → ((r : ProposalRecord) → (g r).proposal_id ≡ r.proposal_id)
    → Refines (write_row q n (g p)) q.percentage (change (get_proposal q) i g)
unfolding write_row
write_row-Refines q i n p g h e at_n keeps =
    let (r, at_r, id_r) = filed q i n h e in
    let f = get_proposal-some q i n e ∙ at_n in
    (
      write_row-IsIndexed q i n p (g p) h e at_n
          (keeps p ∙ some-proposal_id p r p.proposal_id i (sym at_n ∙ at_r) refl id_r),
      refl,
      fun_ext (λ j.
          write_row-get q i n p (g p) h e at_n j ∙ sym (change-some (get_proposal q) i g p f j)),
    )

-- A change that changes nothing.
pub change-same :
    (f : View) (i : String) (g : ProposalRecord → ProposalRecord)
    → ((p : ProposalRecord) → f i ≡ some p → g p ≡ p)
    → f ≡ change f i g
change-same f i g same = elim (Option-cases (f i)) [
  | inl e ↦ rw (e, change) refl
  | inr (p, e) ↦ fun_ext (λ j.
      sym (change-some f i g p e j ∙ ap (λ r. update f i r j) (same p e) ∙ update-same f i p e j))
]

-- ===== src/Lineage/Walks.antt =====
-- agents/lineage.py: walks along the edges, and the last visit of an agent on one.
use hollow_agent_os.Base.{
  ◌≡◌, refl, sym, subst, ◌⊎◌, String, Bool, true, false, ◌&&◌, ◌==◌, eq_iff, eq_refl, List, [], ◌∷◌,
  arith, inl, inr, Bool-cases, filter, any_of, contains,
}
use hollow_agent_os.Lineage.Tree.{Edge, outgoing}
use hollow_agent_os.Lineage.Total.{leads_to}

-- Some edge has this parent and this child.
abbrev joins : String → String → Edge → Bool
joins i j e = e.parent_id == i && e.child_id == j

abbrev pub HasEdge : List Edge → String → String → Type 0
HasEdge edges i j = any_of (joins i j) edges ≡ true

-- One edge or more lead from one agent to another, and the agents that they leave are not in `visited`.
pub data Walk (edges : List Edge) (visited : List String) : String → String → Type 0 where
  arrives : {i j : String} → contains i visited ≡ false → HasEdge edges i j → Walk edges visited i j
  goes_on :
      {i j k : String}
      → contains i visited ≡ false
      → HasEdge edges i j
      → Walk edges visited j k
      → Walk edges visited i k

-- One edge or more lead from one agent to another.
abbrev pub Reach : List Edge → String → String → Type 0
Reach edges = Walk edges []

pub any_of-outgoing :
    (i j : String) (edges : List Edge)
    → any_of (leads_to j) (outgoing edges i) ≡ any_of (joins i j) edges
unfolding any_of outgoing filter
any_of-outgoing i j [] = refl
any_of-outgoing i j (e ∷ es) = ground (arith, any_of-outgoing i j es)

-- What leaves an agent on a walk after the last visit there.
abbrev Leaves : List Edge → List String → String → String → Type 0
Leaves edges visited i k =
    (j : String) × (HasEdge edges i j) × ((j ≡ k) ⊎ Walk edges (i ∷ visited) j k)

-- A walk avoids an agent, or there is a last visit.
last_visit :
    (edges : List Edge) (visited : List String) (i a k : String)
    → Walk edges visited a k
    → Walk edges (i ∷ visited) a k ⊎ Leaves edges visited i k
unfolding contains
last_visit edges visited i a k (arrives f e) = elim (Bool-cases (i == a)) [
  | inl same ↦ inr (k, subst (λ b. HasEdge edges b k) (sym ((eq_iff i a).0 same)) e, inl refl)
  | inr other ↦ inl (arrives (ground arith) e)
]
last_visit edges visited i a k (goes_on {j = j} f e w) = elim (last_visit edges visited i j k w) [
  | inr v ↦ inr v
  | inl w' ↦ elim (Bool-cases (i == a)) [
    | inl same ↦ inr (j, subst (λ b. HasEdge edges b j) (sym ((eq_iff i a).0 same)) e, inr w')
    | inr other ↦ inl (goes_on (ground arith) e w')
  ]
]

pub start-fresh :
    (edges : List Edge) (visited : List String) (i k : String)
    → Walk edges visited i k
    → contains i visited ≡ false
start-fresh edges visited i k (arrives f e) = f
start-fresh edges visited i k (goes_on f e w) = f

at_start : (i : String) (visited : List String) → contains i (i ∷ visited) ≡ false → ⊥
unfolding contains
at_start i visited h = ground (arith, eq_refl i)

pub leaves :
    (edges : List Edge) (visited : List String) (i k : String)
    → Walk edges visited i k
    → Leaves edges visited i k
unfolding contains
leaves edges visited i k w = elim (last_visit edges visited i i k w) [
  | inl w' ↦ absurd (at_start i visited (start-fresh edges (i ∷ visited) i k w'))
  | inr v ↦ v
]

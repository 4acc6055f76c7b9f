-- ===== src/Lineage/Loop.antt =====
-- agents/lineage.py: the children that the loop of `build_node` files, and what they list.
use hollow_agent_os.Base.{
  ℕ, suc, ◌≡◌, refl, sym, ap, ◌∙◌, subst, ◌⊎◌, String, Bool, true, false, ◌||◌, ◌==◌, eq_iff,
  eq_refl, Option, none, some, List, [], ◌∷◌, arith, inl, inr, if_ind, some-injective, none-some,
  Bool-cases, Option-cases, any_of, contains, contains-append,
}
use hollow_agent_os.Dict
use hollow_agent_os.Dict.{Dict}
use hollow_agent_os.Registry.Record.{AgentRecord}
use hollow_agent_os.Lineage.Tree.{
  Edge, Node, node, leaf, Children, nil, child, put_child, outgoing, build_children, close_node,
  build_node, collect_descendants, collect_children,
}
use hollow_agent_os.Lineage.Total.{leads_to}

-- What every child of a node satisfies, and whether there is a child.
abbrev EveryChild : (String → Node → Type 0) → Children → Type 0
EveryChild P nil = Unit
EveryChild P (child i t cs) = P i t × EveryChild P cs

abbrev has_child : String → Children → Bool
has_child j nil = false
has_child j (child i t cs) = (i == j) || has_child j cs

put_child-EveryChild :
    (P : String → Node → Type 0) (i : String) (t : Node) (cs : Children)
    → P i t
    → EveryChild P cs
    → EveryChild P (put_child i t cs)
unfolding put_child
put_child-EveryChild P i t nil p h = (p, tt)
put_child-EveryChild P i t (child j u cs) p (q, h) =
    if_ind (EveryChild P) (j == i) (child i t cs) (child j u (put_child i t cs)) (λ e. (p, h))
      (λ e. (q, put_child-EveryChild P i t cs p h))

has_child-put_child :
    (i j : String) (t : Node) (cs : Children)
    → has_child j (put_child i t cs) ≡ ((i == j) || has_child j cs)
unfolding put_child
has_child-put_child i j t nil = refl
has_child-put_child i j t (child k u cs) =
    ground (arith, has_child-put_child i j t cs, eq_iff k i, eq_iff i j, eq_iff k j)

-- One round of the loop over the edges.
build_children-round :
    (build : String → Option Node) (e : Edge) (es : List Edge) (cs cs' : Children)
    → build_children build (e ∷ es) cs ≡ some cs'
    → (t : Node) × (build e.child_id ≡ some t)
      × (build_children build es (put_child e.child_id t cs) ≡ some cs')
unfolding build_children
build_children-round build e es cs cs' h = elim (Option-cases (build e.child_id)) [
  | inl q ↦
      let closed : build_children build (e ∷ es) cs ≡ none = rw (q, build_children) refl in
      absurd (none-some cs' (sym closed ∙ h))
  | inr (t, q) ↦
      let opened : build_children build (e ∷ es) cs
          ≡ build_children build es (put_child e.child_id t cs) =
        rw (q, build_children) refl in
      (t, q, sym opened ∙ h)
]

pub build_children-EveryChild :
    (P : String → Node → Type 0) (build : String → Option Node) (es : List Edge) (cs cs' : Children)
    → ((j : String) (t : Node) → any_of (leads_to j) es ≡ true → build j ≡ some t → P j t)
    → EveryChild P cs
    → build_children build es cs ≡ some cs'
    → EveryChild P cs'
unfolding build_children any_of
build_children-EveryChild P build [] cs cs' p h e = subst (EveryChild P) (some-injective cs cs' e) h
build_children-EveryChild P build (e ∷ es) cs cs' p h f =
    let (t, q, rest) = build_children-round build e es cs cs' f in
    build_children-EveryChild P build es (put_child e.child_id t cs) cs'
      (λ j u leads b. p j u (ground arith) b)
      (put_child-EveryChild P e.child_id t cs
        (p e.child_id t (ground (arith, eq_refl e.child_id)) q) h)
      rest

pub build_children-has_child :
    (build : String → Option Node) (j : String) (es : List Edge) (cs cs' : Children)
    → build_children build es cs ≡ some cs'
    → (has_child j cs || any_of (leads_to j) es) ≡ true
    → has_child j cs' ≡ true
unfolding build_children any_of
build_children-has_child build j [] cs cs' e h =
    ap (has_child j) (sym (some-injective cs cs' e)) ∙ ground arith
build_children-has_child build j (e ∷ es) cs cs' f h =
    let (t, q, rest) = build_children-round build e es cs cs' f in
    build_children-has_child build j es (put_child e.child_id t cs) cs' rest
      (ground (arith, has_child-put_child e.child_id j t cs))

-- The descendants that one child contributes.
pub collect_children-has_child :
    (P : String → Node → Type 0) (j : String) (cs : Children)
    → EveryChild P cs
    → has_child j cs ≡ true
    → (contains j (collect_children cs) ≡ true)
      × (t : Node) × (P j t)
      × ((x : String)
          → contains x (collect_descendants t) ≡ true
          → contains x (collect_children cs) ≡ true)
unfolding collect_descendants contains
collect_children-has_child P j nil h e = cc
collect_children-has_child P j (child i t cs) (p, h) e = elim (Bool-cases (i == j)) [
  | inl same ↦ (
    ground arith,
    t,
    subst (λ k. P k t) ((eq_iff i j).0 same) p,
    λ x f. ground (arith, contains-append x (collect_descendants t) (collect_children cs)),
  )
  | inr other ↦
      let (listed, u, q, below) = collect_children-has_child P j cs h (ground arith) in
      (
        ground (arith, contains-append j (collect_descendants t) (collect_children cs)),
        u,
        q,
        λ x f.
            let g = below x f in
            ground (arith, contains-append x (collect_descendants t) (collect_children cs)),
      )
]

-- Where a descendant comes from.
pub collect_children-child :
    (P : String → Node → Type 0) (x : String) (cs : Children)
    → EveryChild P cs
    → contains x (collect_children cs) ≡ true
    → (j : String) × (t : Node) × (P j t) × ((j ≡ x) ⊎ (contains x (collect_descendants t) ≡ true))
unfolding collect_descendants contains
collect_children-child P x nil h e = cc
collect_children-child P x (child i t cs) (p, h) e = elim (Bool-cases (i == x)) [
  | inl same ↦ (i, t, p, inl ((eq_iff i x).0 same))
  | inr other ↦ elim (Bool-cases (contains x (collect_descendants t))) [
    | inl below ↦ (i, t, p, inr below)
    | inr beside ↦
        collect_children-child P x cs h
          (ground (arith, contains-append x (collect_descendants t) (collect_children cs)))
  ]
]

-- A node is a leaf, or has the children that the loop builds.
pub build_node-cases :
    (agents : Dict AgentRecord) (edges : List Edge) (fuel : ℕ) (visited : List String) (i : String)
    (t : Node)
    → build_node agents edges (suc fuel) visited i ≡ some t
    → (contains i visited ≡ false
        → (cs : Children) × (build_children
              (build_node agents edges fuel (i ∷ visited))
              (outgoing edges i)
              nil
            ≡ some cs)
          × (collect_descendants t ≡ collect_children cs))
      × (contains i visited ≡ true → collect_descendants t ≡ [])
unfolding build_node close_node collect_descendants
build_node-cases agents edges fuel visited i t h = (
  λ fresh.
      elim (Option-cases
        (build_children (build_node agents edges fuel (i ∷ visited)) (outgoing edges i) nil)) [
          | inl q ↦
              let closed : build_node agents edges (suc fuel) visited i ≡ none =
                rw (fresh, q, build_node, close_node) refl in
              absurd (none-some t (sym closed ∙ h))
          | inr (cs, q) ↦
              let opened : build_node agents edges (suc fuel) visited i
                  ≡ some (node i (Dict.get i agents) (outgoing edges i) cs) =
                rw (fresh, q, build_node, close_node) refl in
              (
                cs,
                q,
                ap collect_descendants (
                    sym (
                      some-injective (node i (Dict.get i agents) (outgoing edges i) cs) t
                        (sym opened ∙ h))),
              )
        ],
  λ seen.
      let opened : build_node agents edges (suc fuel) visited i ≡ some (leaf i) =
        rw (seen, build_node) refl in
      ap collect_descendants (sym (some-injective (leaf i) t (sym opened ∙ h))),
)

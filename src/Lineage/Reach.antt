-- ===== src/Lineage/Reach.antt =====
-- agents/lineage.py: the agents that the tree of `get_subtree` lists are those that the edges reach.
use hollow_agent_os.Base.{
  ℕ, zero, suc, ◌≡◌, refl, sym, ap, ◌∙◌, subst, ◌↔◌, String, true, some, List, [], ◌∷◌, inl, inr,
  none-some, false-true, Bool-cases, contains,
}
use hollow_agent_os.Dict.{Dict}
use hollow_agent_os.Registry.Record.{AgentRecord, Registry}
use hollow_agent_os.Lineage.Tree.{
  Edge, Node, nil, outgoing, build_node, collect_descendants, collect_children,
}
use hollow_agent_os.Lineage.Total.{build_node-total}
use hollow_agent_os.Lineage.{
  Graph, get_subtree, annotated, enough, get_blast_radius, descendants_of,
}
use hollow_agent_os.Lineage.Walks.{
  HasEdge, Walk, Reach, any_of-outgoing, start-fresh, leaves, arrives, goes_on,
}
use hollow_agent_os.Lineage.Loop.{
  build_children-EveryChild, build_children-has_child, collect_children-has_child,
  collect_children-child, build_node-cases,
}

no_fuel :
    (agents : Dict AgentRecord) (edges : List Edge) (visited : List String) (i : String) (t : Node)
    → build_node agents edges zero visited i ≡ some t
    → ⊥
unfolding build_node
no_fuel agents edges visited i t h = none-some t h

-- What the tree lists is reached.
listed-Reach :
    (agents : Dict AgentRecord) (edges : List Edge) (fuel : ℕ) (visited : List String)
    (i x : String) (t : Node)
    → build_node agents edges fuel visited i ≡ some t
    → contains x (collect_descendants t) ≡ true
    → Reach edges i x
unfolding contains
listed-Reach agents edges zero visited i x t h e = absurd (no_fuel agents edges visited i t h)
listed-Reach agents edges (suc fuel) visited i x t h e = elim (Bool-cases (contains i visited)) [
  | inl seen ↦ absurd (
      false-true
        (ap (contains x) (sym ((build_node-cases agents edges fuel visited i t h).1 seen)) ∙ e))
  | inr fresh ↦
      let (cs, built, same) = (build_node-cases agents edges fuel visited i t h).0 fresh in
      let P : String → Node → Type 0 = λ j u.
        HasEdge edges i j
        × ((y : String) → contains y (collect_descendants u) ≡ true → Reach edges j y) in
      let every =
        build_children-EveryChild P (build_node agents edges fuel (i ∷ visited)) (outgoing edges i)
          nil cs
          (λ j u leads b. (
            sym (any_of-outgoing i j edges) ∙ leads,
            λ y f. listed-Reach agents edges fuel (i ∷ visited) j y u b f,
          ))
          tt built in
      let (j, u, (edge, onward), there) =
        collect_children-child P x cs every (ap (contains x) (sym same) ∙ e) in
      elim there [
        | inl arrived ↦ arrives refl (subst (HasEdge edges i) arrived edge)
        | inr below ↦ goes_on refl edge (onward x below)
      ]
]

-- What is reached past the visited agents is listed.
Walk-listed :
    (agents : Dict AgentRecord) (edges : List Edge) (fuel : ℕ) (visited : List String)
    (i x : String) (t : Node)
    → build_node agents edges fuel visited i ≡ some t
    → Walk edges visited i x
    → contains x (collect_descendants t) ≡ true
Walk-listed agents edges zero visited i x t h w = absurd (no_fuel agents edges visited i t h)
Walk-listed agents edges (suc fuel) visited i x t h w =
    let (cs, built, same) =
      (build_node-cases agents edges fuel visited i t h).0 (start-fresh edges visited i x w) in
    let P : String → Node → Type 0 = λ j u.
      (y : String) → Walk edges (i ∷ visited) j y → contains y (collect_descendants u) ≡ true in
    let every =
      build_children-EveryChild P (build_node agents edges fuel (i ∷ visited)) (outgoing edges i)
        nil cs (λ j u leads b y v. Walk-listed agents edges fuel (i ∷ visited) j y u b v) tt
        built in
    let (j, edge, there) = leaves edges visited i x w in
    let has =
      build_children-has_child (build_node agents edges fuel (i ∷ visited)) j (outgoing edges i) nil
        cs built (any_of-outgoing i j edges ∙ edge) in
    let (listed, u, onward, below) = collect_children-has_child P j cs every has in
    ap (contains x) same ∙ elim there [
      | inl arrived ↦ subst (λ y. contains y (collect_children cs) ≡ true) arrived listed
      | inr v ↦ below x (onward x v)
    ]

-- The blast radius of an agent lists exactly the agents that some path of one edge or more leads to
-- from it; an agent on a cycle is listed for itself.
pub get_blast_radius-Reach :
    (g : Graph) (r : Registry) (i x : String)
    → g.registry ≡ some r
    → (contains x (get_blast_radius g i).affected_agents ≡ true) ↔ Reach g.edges i x
unfolding get_blast_radius get_subtree descendants_of annotated
get_blast_radius-Reach g r i x h =
    let (t, e) = build_node-total r.agents g.edges i in
    let listed : (get_blast_radius g i).affected_agents ≡ collect_descendants t =
      rw (h, e, get_subtree) refl in
    (
      λ f.
          listed-Reach r.agents g.edges (enough g.edges) [] i x t e
            (ap (contains x) (sym listed) ∙ f),
      λ w. ap (contains x) listed ∙ Walk-listed r.agents g.edges (enough g.edges) [] i x t e w,
    )

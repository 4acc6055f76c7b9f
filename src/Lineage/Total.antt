-- ===== src/Lineage/Total.antt =====
-- agents/lineage.py: the recursion of `get_subtree` ends, and its count of the descendants.
use hollow_agent_os.Base.{
  ℕ, zero, suc, ◌+◌, ◌<◌, ◌≡◌, refl, ap, subst, String, Bool, true, false, ◌==◌, eq_refl, Option,
  some, List, [], ◌∷◌, arith, inl, inr, Bool-cases, length, length-append, filter, any_of, contains,
}
use hollow_agent_os.Dict
use hollow_agent_os.Dict.{Dict}
use hollow_agent_os.Registry.Record.{AgentRecord, Registry}
use hollow_agent_os.Lineage.Tree.{
  Edge, Node, node, leaf, Children, nil, child, put_child, outgoing, build_children, close_node,
  build_node, count_descendants, count_children, collect_descendants, collect_children,
}
use hollow_agent_os.Lineage.Unvisited.{
  unvisited_count, unvisited_count-lt, unvisited_count-le-length,
}
use hollow_agent_os.Lineage.{
  Graph, subtree, annotated, get_subtree, enough, get_blast_radius, descendants_of,
}

-- The count of the descendants is the length of the list of them.
mutual
  unfolding count_descendants collect_descendants

  count_descendants-collect : (t : Node) → count_descendants t ≡ length (collect_descendants t)
  count_descendants-collect (node i a es cs) = count_children-collect cs

  count_children-collect : (cs : Children) → count_children cs ≡ length (collect_children cs)
  count_children-collect nil = refl
  count_children-collect (child i t cs) = omega (
    arith,
    count_descendants-collect t,
    count_children-collect cs,
    length-append (collect_descendants t) (collect_children cs),
  )

-- The edge leads to `i`.
abbrev pub leads_to : String → Edge → Bool
leads_to i e = e.child_id == i

abbrev left : List Edge → List String → ℕ
left = unvisited_count (λ e. e.child_id)

any_of-filter :
    (p q : Edge → Bool) (es : List Edge) → any_of p (filter q es) ≡ true → any_of p es ≡ true
unfolding any_of filter
any_of-filter p q [] h = h
any_of-filter p q (e ∷ es) h = ground (arith, any_of-filter p q es)

build_children-total :
    (build : String → Option Node) (es : List Edge) (cs : Children)
    → ((i : String) → any_of (leads_to i) es ≡ true → (t : Node) × (build i ≡ some t))
    → (cs' : Children) × (build_children build es cs ≡ some cs')
unfolding build_children any_of
build_children-total build [] cs h = (cs, refl)
build_children-total build (e ∷ es) cs h =
    let (t, found) = h e.child_id (ground (arith, eq_refl e.child_id)) in
    let (cs', rest) =
      build_children-total build es (put_child e.child_id t cs) (λ i q. h i (ground arith)) in
    (cs', rw (found, build_children) rest)

build_node-step :
    (agents : Dict AgentRecord) (edges : List Edge) (fuel : ℕ) (visited : List String) (i : String)
    → ((j : String)
        → contains i visited ≡ false
        → any_of (leads_to j) edges ≡ true
        → (t : Node) × (build_node agents edges fuel (i ∷ visited) j ≡ some t))
    → (t : Node) × (build_node agents edges (suc fuel) visited i ≡ some t)
unfolding build_node close_node outgoing
build_node-step agents edges fuel visited i h = elim (Bool-cases (contains i visited)) [
  | inl seen ↦ (leaf i, rw (seen, build_node) refl)
  | inr fresh ↦
      let (cs, e) =
        build_children-total (build_node agents edges fuel (i ∷ visited)) (outgoing edges i) nil
          (λ j q. h j fresh (any_of-filter (leads_to j) (λ e. e.parent_id == i) edges q)) in
      (node i (Dict.get i agents) (outgoing edges i) cs, rw (fresh, e, build_node, close_node) refl)
]

-- The child of an edge.
build_node_below :
    (agents : Dict AgentRecord) (edges : List Edge) (fuel : ℕ) (visited : List String) (i : String)
    → any_of (leads_to i) edges ≡ true
    → left edges visited < fuel
    → (t : Node) × (build_node agents edges fuel visited i ≡ some t)
build_node_below agents edges zero visited i h f = absurd (omega arith)
build_node_below agents edges (suc fuel) visited i h f =
    build_node-step agents edges fuel visited i (λ j fresh q.
      build_node_below agents edges fuel (i ∷ visited) j q
        (omega (arith, unvisited_count-lt (λ (e : Edge). e.child_id) edges visited i h fresh)))

pub build_node-total :
    (agents : Dict AgentRecord) (edges : List Edge) (i : String)
    → (t : Node) × (build_node agents edges (enough edges) [] i ≡ some t)
build_node-total agents edges i =
    subst (λ n. (t : Node) × (build_node agents edges n [] i ≡ some t)) (omega arith)
      (build_node-step agents edges (length edges + 1) [] i (λ j fresh q.
        build_node_below agents edges (length edges + 1) (i ∷ []) j q
          (omega (arith, unvisited_count-le-length (λ (e : Edge). e.child_id) edges (i ∷ [])))))

-- With a registry, get_subtree always comes to an end, whatever cycles the edges form; the count in
-- its root is the number of the agents that get_blast_radius lists.
pub get_subtree-ends :
    (g : Graph) (r : Registry) (root_id : String)
    → g.registry ≡ some r
    → (t : Node) × (get_subtree g root_id
        ≡ subtree t (get_blast_radius g root_id).affected_agent_count)
unfolding get_subtree get_blast_radius descendants_of annotated
get_subtree-ends g r root_id h =
    let (t, e) = build_node-total r.agents g.edges root_id in
    (t, rw (h, get_subtree, e) (ap (subtree t) (count_descendants-collect t)))

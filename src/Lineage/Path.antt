-- ===== src/Lineage/Path.antt =====
-- agents/lineage.py: the chain of `critical_path`.
use hollow_agent_os.Base.{
  ℕ, zero, suc, ◌+◌, ◌<◌, ◌≡◌, refl, sym, subst, String, Bool, true, false, ◌==◌, eq_refl, Option,
  some, List, [], ◌∷◌, arith, inl, inr, ltb, if◌then◌else◌, if_ind, Bool-cases, length, take,
  any_of, contains, contains-append,
}
use hollow_agent_os.Scheduler.Record.{Task}
use hollow_agent_os.Lineage.Unvisited.{
  unvisited_count, unvisited_count-lt, unvisited_count-le-length,
}
use hollow_agent_os.Lineage.{
  Graph, dependents_in, successors, best_path, extend_path, longest_path, critical_path,
}

-- The task has this identifier.
abbrev named : String → Task → Bool
named i t = t.task_id == i

abbrev left : List Task → List String → ℕ
left = unvisited_count (λ t. t.task_id)

-- Each task of the list depends on the one before it.
abbrev IsChain : List Task → List String → Type 0
IsChain ts [] = Unit
IsChain ts (i ∷ []) = Unit
IsChain ts (i ∷ j ∷ path) = (contains j (successors ts i) ≡ true) × IsChain ts (j ∷ path)

-- A chain that begins with the task.
abbrev pub StartsAt : List Task → String → List String → Type 0
StartsAt ts i path = (rest : List String) × (path ≡ i ∷ rest) × IsChain ts path

dependents_in-named :
    (s dep : String) (t : Task) (ds : List String)
    → contains s (dependents_in dep t ds) ≡ true
    → (t.task_id == s) ≡ true
unfolding dependents_in contains
dependents_in-named s dep t [] h = cc
dependents_in-named s dep t (d ∷ ds) h = ground (arith, dependents_in-named s dep t ds)

-- A successor is a listed task.
successors-named :
    (s dep : String) (ts : List Task)
    → contains s (successors ts dep) ≡ true
    → any_of (named s) ts ≡ true
unfolding successors any_of contains
successors-named s dep [] h = cc
successors-named s dep (t ∷ ts) h = ground (
  arith,
  contains-append s (dependents_in dep t t.depends_on) (successors ts dep),
  dependents_in-named s dep t t.depends_on,
  successors-named s dep ts,
)

-- What the loop over the successors ends with: no path, or a chain from a successor.
abbrev Best : List Task → String → List String → Type 0
Best ts i path = IsChain ts (i ∷ path)

StartsAt-Best :
    (ts : List Task) (i s : String) (p : List String)
    → contains s (successors ts i) ≡ true
    → StartsAt ts s p
    → Best ts i p
StartsAt-Best ts i s p next (rest, e, chain) =
    subst (Best ts i) (sym e) (next, subst (IsChain ts) e chain)

best_path-Best :
    (ts : List Task) (i : String) (path : String → Option (List String)) (ss best : List String)
    → ((s : String)
        → contains s ss ≡ true
        → (contains s (successors ts i) ≡ true)
          × (p : List String) × (path s ≡ some p)
          × StartsAt ts s p)
    → Best ts i best
    → (r : List String) × (best_path path ss best ≡ some r) × Best ts i r
unfolding best_path contains
best_path-Best ts i path [] best h b = (best, refl, b)
best_path-Best ts i path (s ∷ ss) best h b =
    let (next, p, found, starts) = h s (ground (arith, eq_refl s)) in
    let (r, e, rest) =
      best_path-Best ts i path ss (if ltb (length best) (length p) then p else best)
        (λ s' q. h s' (ground arith))
        (if_ind (Best ts i) (ltb (length best) (length p)) p best
          (λ l. StartsAt-Best ts i s p next starts) (λ l. b)) in
    (r, rw (found, best_path) e, rest)

longest_path-step :
    (ts : List Task) (fuel : ℕ) (visited : List String) (i : String)
    → ((s : String)
        → contains i visited ≡ false
        → contains s (successors ts i) ≡ true
        → (p : List String) × (longest_path ts fuel (i ∷ visited) s ≡ some p) × StartsAt ts s p)
    → (p : List String) × (longest_path ts (suc fuel) visited i ≡ some p) × StartsAt ts i p
unfolding longest_path extend_path
longest_path-step ts fuel visited i h = elim (Bool-cases (contains i visited)) [
  | inl seen ↦ (i ∷ [], rw (seen, longest_path) refl, ([], refl, tt))
  | inr fresh ↦
      let (r, e, chain) =
        best_path-Best ts i (longest_path ts fuel (i ∷ visited)) (successors ts i) []
          (λ s q. let (p, found, starts) = h s fresh q in (q, p, found, starts)) tt in
      (i ∷ r, rw (fresh, e, longest_path, extend_path) refl, (r, refl, chain))
]

longest_path_below :
    (ts : List Task) (fuel : ℕ) (visited : List String) (i : String)
    → any_of (named i) ts ≡ true
    → left ts visited < fuel
    → (p : List String) × (longest_path ts fuel visited i ≡ some p) × StartsAt ts i p
longest_path_below ts zero visited i h f = absurd (omega arith)
longest_path_below ts (suc fuel) visited i h f = longest_path-step ts fuel visited i (λ s fresh q.
    longest_path_below ts fuel (i ∷ visited) s (successors-named s i ts q)
      (omega (arith, unvisited_count-lt (λ (t : Task). t.task_id) ts visited i h fresh)))

-- With a scheduler, critical_path always comes to an end, whatever cycles the dependencies form, and
-- gives a chain that begins with the task and in which each task lists the one before it in its
-- depends_on.
pub critical_path-IsChain :
    (g : Graph) (all : List Task) (task_id : String)
    → g.tasks ≡ some all
    → (p : List String) × (critical_path g task_id ≡ some p) × StartsAt (take 1000 all) task_id p
unfolding critical_path
critical_path-IsChain g all task_id h =
    let ts = take 1000 all in
    let (p, e, starts) = longest_path-step ts (length ts + 1) [] task_id (λ s fresh q.
      longest_path_below ts (length ts + 1) (task_id ∷ []) s (successors-named s task_id ts q)
        (omega (arith, unvisited_count-le-length (λ (t : Task). t.task_id) ts (task_id ∷ [])))) in
    let fuel : suc (length ts + 1) ≡ length ts + 2 = omega arith in
    (p, rw (h, critical_path) (subst (λ n. longest_path ts n [] task_id ≡ some p) fuel e), starts)

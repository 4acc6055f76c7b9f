-- ===== src/Lineage/Unvisited.antt =====
-- agents/lineage.py: the measure of the recursions that pass on the set of visited names.
use hollow_agent_os.Base.{
  ℕ, ◌≤◌, ◌<◌, ◌≡◌, String, true, false, ◌==◌, eq_iff, List, [], ◌∷◌, arith, if◌then◌else◌, length,
  any_of, count_if, contains, count_if-le-length,
}

module _ {ℓ} {A : Type ℓ} (name : A → String) where
  -- The things whose name was not visited yet.
  abbrev pub unvisited_count : List A → List String → ℕ
  unvisited_count xs visited = count_if (λ x. if contains (name x) visited then false else true) xs

  unvisited_count-le :
      (xs : List A) (visited : List String) (i : String)
      → unvisited_count xs (i ∷ visited) ≤ unvisited_count xs visited
  unfolding count_if contains
  unvisited_count-le [] visited i = omega arith
  unvisited_count-le (x ∷ xs) visited i = ground (arith, unvisited_count-le xs visited i)

  -- One less for a name that was not visited before.
  pub unvisited_count-lt :
      (xs : List A) (visited : List String) (i : String)
      → any_of (λ x. name x == i) xs ≡ true
      → contains i visited ≡ false
      → unvisited_count xs (i ∷ visited) < unvisited_count xs visited
  unfolding count_if contains any_of
  unvisited_count-lt [] visited i h f = cc
  unvisited_count-lt (x ∷ xs) visited i h f = ground (
    arith,
    unvisited_count-le xs visited i,
    unvisited_count-lt xs visited i,
    eq_iff (name x) i,
    eq_iff i (name x),
  )

  pub unvisited_count-le-length :
      (xs : List A) (visited : List String) → unvisited_count xs visited ≤ length xs
  unvisited_count-le-length xs visited = count_if-le-length _ xs

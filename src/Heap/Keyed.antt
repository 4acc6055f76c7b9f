-- ===== src/Heap/Keyed.antt =====
-- memory/heap.py: dicts in which every object stands under its own key, and the keys that a selection
-- of the objects names.
use hollow_agent_os.Base.{
  ℕ, ◌≡◌, refl, sym, ap, subst, ◌∙◌, zero, suc, String, ◌==◌, eq_iff, Bool, false, some, List, [],
  ◌∷◌, arith, inl, inr, if_ind, Bool-cases, All, filter, take, map, insert_sorted, sort_by,
  contains,
}
use hollow_agent_os.Dict
use hollow_agent_os.Dict.{Dict, get-put}
use hollow_agent_os.Dict.Unique.{IsUnique}
use hollow_agent_os.Heap.Record.{MemoryObject}

-- Every object stands under its own key.
abbrev pub IsKeyed : Dict MemoryObject → Type 0
IsKeyed [] = Unit
IsKeyed ((k, o) ∷ d) = (o.key ≡ k) × IsKeyed d

pub put-IsKeyed :
    (k : String) (o : MemoryObject) (d : Dict MemoryObject)
    → o.key ≡ k
    → IsKeyed d
    → IsKeyed (Dict.put k o d)
unfolding Dict.put
put-IsKeyed k o [] e h = (e, tt)
put-IsKeyed k o ((i, p) ∷ d) e (q, h) = elim (Bool-cases (i == k)) [
  | inl b ↦ rw (b, Dict.put) (e, h)
  | inr b ↦ rw (b, Dict.put) (q, put-IsKeyed k o d e h)
]

pub get-IsKeyed :
    (k : String) (o : MemoryObject) (d : Dict MemoryObject)
    → IsKeyed d
    → Dict.get k d ≡ some o
    → o.key ≡ k
unfolding Dict.get
get-IsKeyed k o [] h e = cc
get-IsKeyed k o ((i, p) ∷ d) (q, h) e = elim (Bool-cases (i == k)) [
  | inl b ↦
      let same : p ≡ o = ground arith in
      ap (λ (x : MemoryObject). x.key) (sym same) ∙ q ∙ (eq_iff i k).0 b
  | inr b ↦ get-IsKeyed k o d h (ground arith)
]

-- Objects under other keys than `k`.
abbrev pub Other : String → MemoryObject → Type 0
Other k o = (o.key == k) ≡ false

pub filter_fresh :
    (p : MemoryObject → Bool) (k : String) (d : Dict MemoryObject)
    → IsKeyed d
    → Dict.has_key k d ≡ false
    → All (Other k) (filter p (Dict.values d))
unfolding filter Dict.values Dict.has_key Dict.get
filter_fresh p k [] h f = tt
filter_fresh p k ((i, o) ∷ d) (q, h) f =
    let other : (o.key == k) ≡ false = ground arith in
    let rest = filter_fresh p k d h (ground arith) in
    if_ind (All (Other k)) (p o) _ _ (λ yes_p. (other, rest)) (λ no_p. rest)

pub filter-Other :
    (p : MemoryObject → Bool) (k : String) (obj : MemoryObject) (d : Dict MemoryObject)
    → IsUnique d
    → IsKeyed d
    → Dict.get k d ≡ some obj
    → p obj ≡ false
    → All (Other k) (filter p (Dict.values d))
unfolding filter Dict.values Dict.get
filter-Other p k obj [] u h e out_p = cc
filter-Other p k obj ((i, o) ∷ d) (fresh, u) (q, h) e out_p = elim (Bool-cases (i == k)) [
  | inl b ↦
      let out : p o ≡ false = ground (arith, ap p) in
      rw (out, filter)
        (filter_fresh p k d h (subst (λ j. Dict.has_key j d ≡ false) ((eq_iff i k).0 b) fresh))
  | inr b ↦
      let other : (o.key == k) ≡ false = subst (λ j. (j == k) ≡ false) (sym q) b in
      let rest = filter-Other p k obj d u h (ground arith) out_p in
      if_ind (All (Other k)) (p o) _ _ (λ yes_p. (other, rest)) (λ no_p. rest)
]

module _ (P : MemoryObject → Type 0) (before : MemoryObject → MemoryObject → Bool) where
  All-insert_sorted :
      (x : MemoryObject) (xs : List MemoryObject)
      → P x
      → All P xs
      → All P (insert_sorted before x xs)
  unfolding insert_sorted
  All-insert_sorted x [] p h = (p, tt)
  All-insert_sorted x (y ∷ ys) p (q, h) =
      if_ind (All P) (before x y) _ _ (λ b. (p, (q, h))) (λ b. (q, All-insert_sorted x ys p h))

  pub All-sort_by : (xs : List MemoryObject) → All P xs → All P (sort_by before xs)
  unfolding sort_by
  All-sort_by [] h = tt
  All-sort_by (x ∷ xs) (p, h) = All-insert_sorted x (sort_by before xs) p (All-sort_by xs h)

pub All-take :
    (P : MemoryObject → Type 0) (n : ℕ) (xs : List MemoryObject) → All P xs → All P (take n xs)
All-take P zero xs h = tt
All-take P (suc n) [] h = tt
All-take P (suc n) (x ∷ xs) (p, h) = (p, All-take P n xs h)

pub contains-keys :
    (k : String) (xs : List MemoryObject)
    → All (Other k) xs
    → contains k (map (λ o. o.key) xs) ≡ false
unfolding contains
contains-keys k [] h = refl
contains-keys k (x ∷ xs) (p, h) = ground (arith, contains-keys k xs h)

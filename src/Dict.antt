-- ===== src/Dict.antt =====
-- Python's `dict` with text keys: an association list in insertion order. A write to a key that is
-- present keeps its place, a new key goes to the end, as the source's loops over `.values()` see it.
pub mod Unique
use hollow_agent_os.Base.{
  String, ◌≡◌, refl, ◌==◌, eq_iff, eq_refl, Bool, true, false, ℕ, ◌+◌, ◌≤◌, ◌<◌, length, count_if,
  Option, none, some, List, [], ◌∷◌, arith, if◌then◌else◌, is_some, inl, inr, subst, Bool-cases,
  Option-cases,
}

abbrev pub Dict {ℓ} : Type ℓ → Type ℓ
Dict V = List (String × V)

module _ {ℓ} {V : Type ℓ} where
  -- `d.get(k)`.
  unfoldable pub get : String → Dict V → Option V
  get k [] = none
  get k ((j, v) ∷ d) = if j == k then some v else get k d

  -- `k in d`.
  unfoldable pub has_key : String → Dict V → Bool
  unfolding get
  has_key k d = is_some (get k d)

  -- `d[k] = v`.
  unfoldable pub put : String → V → Dict V → Dict V
  put k v [] = (k, v) ∷ []
  put k v ((j, w) ∷ d) = let rest = put k v d in if j == k then (k, v) ∷ d else (j, w) ∷ rest

  -- `d.pop(k, None)` and `del d[k]`.
  unfoldable pub remove : String → Dict V → Dict V
  remove k [] = []
  remove k ((j, v) ∷ d) = let rest = remove k d in if j == k then rest else (j, v) ∷ rest

  -- `d.keys()` and `d.values()`.
  unfoldable pub keys : Dict V → List String
  keys [] = []
  keys ((j, v) ∷ d) = j ∷ keys d

  unfoldable pub values : Dict V → List V
  values [] = []
  values ((j, v) ∷ d) = v ∷ values d

  -- A loop `for v in d.values()` that changes each value in place.
  unfoldable pub map_values : (V → V) → Dict V → Dict V
  map_values f [] = []
  map_values f ((j, v) ∷ d) = (j, f v) ∷ map_values f d

  -- `{k: v for k, v in d.items() if p(v)}`.
  unfoldable pub keep : (V → Bool) → Dict V → Dict V
  keep p [] = []
  keep p ((j, v) ∷ d) = let rest = keep p d in if p v then (j, v) ∷ rest else rest

  pub get-put :
      (k j : String) (v : V) (d : Dict V) → get j (put k v d) ≡ (if k == j then some v else get j d)
  unfolding get put
  get-put k j v [] = refl
  get-put k j v ((i, w) ∷ d) = ground (arith, eq_iff k j, eq_iff i k, eq_iff i j, get-put k j v d)

  pub get-put_self : (k : String) (v : V) (d : Dict V) → get k (put k v d) ≡ some v
  get-put_self k v d = ground (arith, get-put k k v d, eq_refl k)

  pub get-remove :
      (k j : String) (d : Dict V) → get j (remove k d) ≡ (if k == j then none else get j d)
  unfolding get remove
  get-remove k j [] = ground arith
  get-remove k j ((i, w) ∷ d) = ground (arith, eq_iff k j, eq_iff i k, eq_iff i j, get-remove k j d)

  abbrev pub map_option : (V → V) → Option V → Option V
  map_option f none = none
  map_option f (some v) = some (f v)

  pub get-map_values :
      (f : V → V) (j : String) (d : Dict V) → get j (map_values f d) ≡ map_option f (get j d)
  unfolding get map_values
  get-map_values f j [] = refl
  get-map_values f j ((i, w) ∷ d) = ground (arith, get-map_values f j d)

  -- What every binding of a dict satisfies, read through `get`.
  abbrev pub Holds {κ} : (String → V → Type κ) → Dict V → Type (ℓ ⊔ κ)
  Holds P d = (k : String) (v : V) → get k d ≡ some v → P k v

  pub Holds-put {κ} :
      {P : String → V → Type κ} (k : String) (v : V) (d : Dict V)
      → P k v
      → Holds P d
      → Holds P (put k v d)
  Holds-put {P = P} k v d pv h j w e = elim (Bool-cases (k == j)) [
    | inl q ↦
        subst (λ i. P i w) ((eq_iff k j).0 q) (subst (P k) (ground (arith, get-put k j v d)) pv)
    | inr q ↦ h j w (ground (arith, get-put k j v d))
  ]

  pub Holds-remove {κ} :
      {P : String → V → Type κ} (k : String) (d : Dict V) → Holds P d → Holds P (remove k d)
  Holds-remove k d h j w e = h j w (ground (arith, get-remove k j d))

  pub Holds-map_values {κ} :
      {P : String → V → Type κ} (f : V → V) (d : Dict V)
      → ((k : String) (v : V) → P k v → P k (f v))
      → Holds P d
      → Holds P (map_values f d)
  Holds-map_values {P = P} f d step h j w e = elim (Option-cases (get j d)) [
    | inl q ↦ cc (get-map_values f j d)
    | inr (v, q) ↦ subst (P j) (ground (arith, get-map_values f j d)) (step j v (h j v q))
  ]

pub length-remove-le {ℓ} : {V : Type ℓ} (k : String) (d : Dict V) → length (remove k d) ≤ length d
unfolding remove
length-remove-le k [] = omega arith
length-remove-le k ((i, w) ∷ d) = ground (arith, length-remove-le k d)

module _ {ℓ} {V : Type ℓ} where
  -- A new key goes to the end.
  pub length-put_new :
      (k : String) (v : V) (d : Dict V) → has_key k d ≡ false → length (put k v d) ≡ length d + 1
  unfolding has_key put get
  length-put_new k v [] h = omega arith
  length-put_new k v ((i, w) ∷ d) h = ground (arith, length-put_new k v d)

  pub count_if-put_new :
      (p : V → Bool) (k : String) (v : V) (d : Dict V)
      → has_key k d ≡ false
      → count_if p (values (put k v d)) ≡ count_if p (values d) + (if p v then 1 else 0)
  unfolding has_key put get values count_if
  count_if-put_new p k v [] h = omega arith
  count_if-put_new p k v ((i, w) ∷ d) h = ground (arith, count_if-put_new p k v d)

  pub has_key-put :
      (k j : String) (v : V) (d : Dict V)
      → has_key j (put k v d) ≡ (if k == j then true else has_key j d)
  unfolding has_key
  has_key-put k j v d = ground (arith, get-put k j v d)

  pub length-remove-lt :
      (k : String) (d : Dict V) → has_key k d ≡ true → length (remove k d) < length d
  unfolding has_key remove get
  length-remove-lt k [] h = cc
  length-remove-lt k ((i, w) ∷ d) h = ground (arith, length-remove-lt k d, length-remove-le k d)

pub ruleset dict_laws = (get-put, get-remove, get-map_values)

-- ===== src/Dict/Unique.antt =====
-- Dicts that bind each key once, and statements about every value of a dict.
use hollow_agent_os.Base.{
  String, ◌≡◌, refl, ◌==◌, eq_iff, false, some, [], ◌∷◌, arith, inl, inr, if◌then◌else◌, subst,
  Bool-cases,
}
use hollow_agent_os.Dict
use hollow_agent_os.Dict.{Dict, has_key-put, get-remove, get-put}

module _ {ℓ} {V : Type ℓ} where
  -- Each key is bound once, as in a dict of the source.
  abbrev pub IsUnique : Dict V → Type 0
  IsUnique [] = Unit
  IsUnique ((k, v) ∷ d) = (Dict.has_key k d ≡ false) × IsUnique d

  pub put-IsUnique : (k : String) (v : V) (d : Dict V) → IsUnique d → IsUnique (Dict.put k v d)
  unfolding Dict.put Dict.has_key Dict.get
  put-IsUnique k v [] h = (refl, tt)
  put-IsUnique k v ((i, w) ∷ d) (fresh, h) = elim (Bool-cases (i == k)) [
    | inl q ↦ rw (q, Dict.put) (subst (λ j. Dict.has_key j d ≡ false) ((eq_iff i k).0 q) fresh, h)
    | inr q ↦
        rw (q, Dict.put)
          (ground (arith, has_key-put k i v d, eq_iff i k, eq_iff k i), put-IsUnique k v d h)
  ]

  pub has_key-remove :
      (k j : String) (d : Dict V)
      → Dict.has_key j (Dict.remove k d) ≡ (if k == j then false else Dict.has_key j d)
  unfolding Dict.has_key
  has_key-remove k j d = ground (arith, get-remove k j d)

  pub remove-IsUnique : (k : String) (d : Dict V) → IsUnique d → IsUnique (Dict.remove k d)
  unfolding Dict.remove
  remove-IsUnique k [] h = tt
  remove-IsUnique k ((i, w) ∷ d) (fresh, h) = elim (Bool-cases (i == k)) [
    | inl q ↦ rw (q, Dict.remove) (remove-IsUnique k d h)
    | inr q ↦ rw (q, Dict.remove) (ground (arith, has_key-remove k i d), remove-IsUnique k d h)
  ]

  -- Removing a key that is not there.
  pub remove-fresh : (k : String) (d : Dict V) → Dict.has_key k d ≡ false → Dict.remove k d ≡ d
  unfolding Dict.remove Dict.has_key Dict.get
  remove-fresh k [] h = refl
  remove-fresh k ((i, w) ∷ d) h = ground (arith, remove-fresh k d)

  -- Every value of a dict satisfies `P`.
  abbrev pub Every {κ} : (V → Type κ) → Dict V → Type κ
  Every P [] = Unit
  Every P ((k, v) ∷ d) = P v × Every P d

  module _ {κ} (P : V → Type κ) where
    pub put-Every : (k : String) (v : V) (d : Dict V) → P v → Every P d → Every P (Dict.put k v d)
    unfolding Dict.put
    put-Every k v [] p h = (p, tt)
    put-Every k v ((i, w) ∷ d) p (q, h) = elim (Bool-cases (i == k)) [
      | inl e ↦ rw (e, Dict.put) (p, h)
      | inr e ↦ rw (e, Dict.put) (q, put-Every k v d p h)
    ]

    pub remove-Every : (k : String) (d : Dict V) → Every P d → Every P (Dict.remove k d)
    unfolding Dict.remove
    remove-Every k [] h = tt
    remove-Every k ((i, w) ∷ d) (q, h) = elim (Bool-cases (i == k)) [
      | inl e ↦ rw (e, Dict.remove) (remove-Every k d h)
      | inr e ↦ rw (e, Dict.remove) (q, remove-Every k d h)
    ]

    pub get-Every : (k : String) (v : V) (d : Dict V) → Every P d → Dict.get k d ≡ some v → P v
    unfolding Dict.get
    get-Every k v [] h e = cc
    get-Every k v ((i, w) ∷ d) (q, h) e = elim (Bool-cases (i == k)) [
      | inl b ↦ subst P (ground arith) q
      | inr b ↦ get-Every k v d h (ground arith)
    ]

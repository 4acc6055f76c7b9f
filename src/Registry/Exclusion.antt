-- ===== src/Registry/Exclusion.antt =====
-- agents/registry.py, `acquire_lock` and `release_lock`: mutual exclusion of named locks.
use hollow_agent_os.Base.{
  ℕ, ◌≡◌, refl, String, ◌==◌, eq_iff, Bool, true, false, some, [], ◌∷◌, arith, ◌⊎◌, inl, inr,
  Option-cases, Bool-cases, sym, ◌∙◌, subst,
}
use hollow_agent_os.Dict
use hollow_agent_os.Dict.{Dict, get-put, get-put_self, get-remove, get-map_values, Holds}
use hollow_agent_os.Registry.Record.{AgentRecord, LockInfo, Registry}
use hollow_agent_os.Registry.Locks.{
  expire_locks, held_by_other, purge, take_lock, acquire_lock, grant_lock,
}

-- The agent has an entry for the lock.
abbrev pub HasLock : String → AgentRecord → Type 0
HasLock n a = Dict.has_key n a.locks ≡ true

-- A record is filed under its own identifier, and no lock has two holders.
pub record IsExclusive (agents : Dict AgentRecord) : Type 0 where
  pub keyed : (i : String) (a : AgentRecord) → Dict.get i agents ≡ some a → a.agent_id ≡ i
  pub exclusive :
      (n i j : String) (a b : AgentRecord)
      → Dict.get i agents ≡ some a
      → Dict.get j agents ≡ some b
      → HasLock n a
      → HasLock n b
      → i ≡ j

-- What no operation on an existing record changes.
pub record SameGrants (a a' : AgentRecord) : Type 0 where
  pub same_id : a'.agent_id ≡ a.agent_id
  pub same_depth : a'.spawn_depth ≡ a.spawn_depth
  pub same_role : a'.role ≡ a.role
  pub same_capabilities : a'.capabilities ≡ a.capabilities

-- A change of the records that adds no lock and keeps every identifier.
abbrev pub Shrinks : Dict AgentRecord → Dict AgentRecord → Type 0
Shrinks d d' =
    (i : String) (a' : AgentRecord)
    → Dict.get i d' ≡ some a'
    → (a : AgentRecord) × (Dict.get i d ≡ some a)
      × SameGrants a a'
      × ((n : String) → HasLock n a' → HasLock n a)

pub Shrinks-IsExclusive : (d d' : Dict AgentRecord) → Shrinks d d' → IsExclusive d → IsExclusive d'
Shrinks-IsExclusive d d' s v = record {
  keyed = λ i a' e. let (a, ea, same, _) = s i a' e in same.same_id ∙ v.keyed i a ea;
  exclusive = λ n i j a' b' ei ej hi hj.
      let (a, ea, _, la) = s i a' ei in
      let (b, eb, _, lb) = s j b' ej in v.exclusive n i j a b ea eb (la n hi) (lb n hj);
}

pub SameGrants-refl : (a : AgentRecord) → SameGrants a a
SameGrants-refl a = record {
  same_id = refl;
  same_depth = refl;
  same_role = refl;
  same_capabilities = refl;
}

-- Such a change of one record.
pub Shrinks-put :
    (d : Dict AgentRecord) (k : String) (a a' : AgentRecord)
    → Dict.get k d ≡ some a
    → SameGrants a a'
    → ((n : String) → HasLock n a' → HasLock n a)
    → Shrinks d (Dict.put k a' d)
Shrinks-put d k a a' known same fewer i c e = elim (Bool-cases (k == i)) [
  | inl q ↦
      let same_record : a' ≡ c = ground (arith, get-put k i a' d) in
      subst
        (λ (c : AgentRecord).
          (b : AgentRecord) × (Dict.get i d ≡ some b)
          × SameGrants b c
          × ((n : String) → HasLock n c → HasLock n b))
        same_record (a, subst (λ j. Dict.get j d ≡ some a) ((eq_iff k i).0 q) known, same, fewer)
  | inr q ↦ (c, ground (arith, get-put k i a' d), SameGrants-refl c, λ n h. h)
]

has_key-keep :
    (p : LockInfo → Bool) (n : String) (d : Dict LockInfo)
    → Dict.has_key n (Dict.keep p d) ≡ true
    → Dict.has_key n d ≡ true
unfolding Dict.has_key Dict.get Dict.keep
has_key-keep p n [] h = h
has_key-keep p n ((i, l) ∷ d) h = ground (arith, has_key-keep p n d)

HasLock-expire :
    (now : ℕ) (n : String) (b : AgentRecord) → HasLock n (expire_locks now b) → HasLock n b
unfolding expire_locks
HasLock-expire now n b h = has_key-keep _ n b.locks h

expire-SameGrants : (now : ℕ) (b : AgentRecord) → SameGrants b (expire_locks now b)
unfolding expire_locks
expire-SameGrants now b = record {
  same_id = refl;
  same_depth = refl;
  same_role = refl;
  same_capabilities = refl;
}

pub purge-Shrinks : (now : ℕ) (r : Registry) → Shrinks r.agents (purge now r).agents
unfolding purge
purge-Shrinks now r i a' e = elim (Option-cases (Dict.get i r.agents)) [
  | inl q ↦ cc (get-map_values (expire_locks now) i r.agents)
  | inr (b, q) ↦
      let same : expire_locks now b ≡ a' =
        ground (arith, get-map_values (expire_locks now) i r.agents) in
      subst
        (λ (c : AgentRecord).
          (x : AgentRecord) × (Dict.get i r.agents ≡ some x)
          × SameGrants x c
          × ((n : String) → HasLock n c → HasLock n x))
        same (b, q, expire-SameGrants now b, λ n h. HasLock-expire now n b h)
]

held_by_other-false :
    (me n j : String) (d : Dict AgentRecord) (b : AgentRecord)
    → held_by_other me n d ≡ false
    → Dict.get j d ≡ some b
    → HasLock n b
    → b.agent_id ≡ me
unfolding held_by_other Dict.get
held_by_other-false me n j [] b h e l = cc
held_by_other-false me n j ((i, a) ∷ d) b h e l =
    ground (arith, held_by_other-false me n j d b, eq_iff b.agent_id me)

-- Another record keeps its locks when the lock goes to `me`.
has_key-put_ne :
    (n m : String) (l : LockInfo) (d : Dict LockInfo)
    → Dict.has_key m (Dict.put n l d) ≡ true
    → (n == m) ≡ false
    → Dict.has_key m d ≡ true
unfolding Dict.has_key
has_key-put_ne n m l d h e = ground (arith, get-put n m l d)

module _ (me n : String) (now ttl : ℕ) (d : Dict AgentRecord) (a : AgentRecord) where
  abbrev granted : Dict AgentRecord
  granted = Dict.put me (grant_lock now ttl n a) d

  -- What stands in the dict after the grant.
  granted_cases :
      (i : String) (b : AgentRecord)
      → Dict.get i granted ≡ some b
      → ((me ≡ i) × (grant_lock now ttl n a ≡ b)) ⊎ (Dict.get i d ≡ some b)
  granted_cases i b e = elim (Bool-cases (me == i)) [
    | inl q ↦ inl ((eq_iff me i).0 q, ground (arith, get-put me i (grant_lock now ttl n a) d))
    | inr q ↦ inr (ground (arith, get-put me i (grant_lock now ttl n a) d))
  ]

  only_holder :
      held_by_other me n d ≡ false
      → IsExclusive d
      → (i : String) (b : AgentRecord) → Dict.get i granted ≡ some b
      → HasLock n b
      → me ≡ i
  only_holder free v i b e h = elim (granted_cases i b e) [
    | inl (q, _) ↦ q
    | inr old ↦ sym (held_by_other-false me n i d b free old h) ∙ v.keyed i b old
  ]

  -- A holder of another lock held it before.
  older_holder :
      Dict.get me d ≡ some a
      → (m i : String) (b : AgentRecord) → (n == m) ≡ false
      → Dict.get i granted ≡ some b
      → HasLock m b
      → (c : AgentRecord) × (Dict.get i d ≡ some c) × HasLock m c
  older_holder known m i b other e h = elim (granted_cases i b e) [
    | inl (q, same) ↦ (
      a,
      subst (λ k. Dict.get k d ≡ some a) q known,
      has_key-put_ne n m _ a.locks (subst (HasLock m) (sym same) h) other,
    )
    | inr old ↦ (b, old, h)
  ]

  grant-IsExclusive :
      Dict.get me d ≡ some a → held_by_other me n d ≡ false → IsExclusive d → IsExclusive granted
  grant-IsExclusive known free v = record {
    keyed = λ i b e. elim (granted_cases i b e) [
      | inl (q, same) ↦ subst (λ c. c.agent_id ≡ i) same (v.keyed me a known ∙ q)
      | inr old ↦ v.keyed i b old
    ];
    exclusive = λ m i j b c ei ej hb hc. elim (Bool-cases (n == m)) [
      | inl q ↦
          let same : m ≡ n = sym ((eq_iff n m).0 q) in
          sym (only_holder free v i b ei (subst (λ k. HasLock k b) same hb))
          ∙ only_holder free v j c ej (subst (λ k. HasLock k c) same hc)
      | inr q ↦
          let (b', eb, lb) = older_holder known m i b q ei hb in
          let (c', ec, lc) = older_holder known m j c q ej hc in v.exclusive m i j b' c' eb ec lb lc
    ];
  }

take_lock-IsExclusive :
    (r : Registry) (me n : String) (now ttl : ℕ)
    → IsExclusive r.agents
    → IsExclusive (take_lock r me n now ttl).1.agents
unfolding take_lock
take_lock-IsExclusive r me n now ttl v = elim (Bool-cases (held_by_other me n r.agents)) [
  | inl q ↦ rw (q, take_lock) v
  | inr q ↦ elim (Option-cases (Dict.get me r.agents)) [
    | inl k ↦ rw (q, k, take_lock) v
    | inr (a, k) ↦ rw (q, k, take_lock) (grant-IsExclusive me n now ttl r.agents a k q v)
  ]
]

-- Whatever agent asks for whatever lock at whatever time, no lock gets a second holder, and every
-- record stays under its own identifier.
pub acquire_lock-IsExclusive :
    (r : Registry) (agent_id lock_name : String) (now ttl : ℕ)
    → IsExclusive r.agents
    → IsExclusive (acquire_lock r agent_id lock_name now ttl).1.agents
unfolding acquire_lock
acquire_lock-IsExclusive r agent_id lock_name now ttl v =
    take_lock-IsExclusive (purge now r) agent_id lock_name now ttl
      (Shrinks-IsExclusive r.agents (purge now r).agents (purge-Shrinks now r) v)

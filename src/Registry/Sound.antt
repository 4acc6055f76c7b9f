-- ===== src/Registry/Sound.antt =====
-- agents/registry.py: what a well-formed registry is. No lock has two holders, no agent is deeper than
-- the limit, and none has a capability that its role does not allow.
use hollow_agent_os.Base.{
  ℕ, ◌≤◌, ◌≡◌, String, ◌==◌, eq_iff, Bool, true, false, Option, none, some, List, [], ◌∷◌, arith,
  inl, inr, ltb, Bool-cases, subst, contains, filter,
}
use hollow_agent_os.Dict
use hollow_agent_os.Dict.{Dict, get-put, get-put_self, get-map_values, get-remove}
use hollow_agent_os.Registry.Record.{AgentRecord, Registry, has_cap, max_spawn_depth}
use hollow_agent_os.Registry.Accounts.{Crypto, Request, new_record, caps_for, granted, known_role}
use hollow_agent_os.Registry.Exclusion.{
  IsExclusive, Shrinks, Shrinks-IsExclusive, SameGrants, HasLock,
}

-- Every capability of a record is one that its role allows, and it is no deeper than the limit.
pub record IsEntitled (a : AgentRecord) : Type 0 where
  pub shallow : a.spawn_depth ≤ max_spawn_depth
  pub allowed :
      (cap : String) → has_cap a cap ≡ true → contains cap (caps_for "custom" a.role) ≡ true

pub record IsSound (d : Dict AgentRecord) : Type 0 where
  pub locking : IsExclusive d
  pub entitled : (i : String) (a : AgentRecord) → Dict.get i d ≡ some a → IsEntitled a

pub SameGrants-IsEntitled : (a a' : AgentRecord) → SameGrants a a' → IsEntitled a → IsEntitled a'
unfolding has_cap
SameGrants-IsEntitled a a' s v = record {
  shallow = omega (arith, s.same_depth, v.shallow);
  allowed = λ cap h. ground (arith, v.allowed cap, s.same_capabilities, s.same_role);
}

pub Shrinks-IsSound : (d d' : Dict AgentRecord) → Shrinks d d' → IsSound d → IsSound d'
Shrinks-IsSound d d' s v = record {
  locking = Shrinks-IsExclusive d d' s v.locking;
  entitled = λ i a' e.
      let (a, ea, same, _) = s i a' e in SameGrants-IsEntitled a a' same (v.entitled i a ea);
}

filter-contains :
    (p : String → Bool) (x : String) (xs : List String)
    → contains x (filter p xs) ≡ true
    → contains x xs ≡ true
unfolding filter contains
filter-contains p x [] h = h
filter-contains p x (y ∷ ys) h = ground (arith, filter-contains p x ys)

-- What is granted is allowed, whatever is asked for.
granted-allowed :
    (allowed : List String) (asked : Option (List String)) (cap : String)
    → contains cap (granted allowed asked) ≡ true
    → contains cap allowed ≡ true
unfolding granted
granted-allowed allowed none cap h = h
granted-allowed allowed (some []) cap h = h
granted-allowed allowed (some (c ∷ cs)) cap h = filter-contains _ cap allowed h

no_lock : (n : String) (a : AgentRecord) → a.locks ≡ [] → HasLock n a → ⊥
unfolding Dict.has_key Dict.get
no_lock n a e h = ground arith

-- Filing a record under its own identifier, with no locks yet.
pub file-IsSound :
    (d : Dict AgentRecord) (a : AgentRecord)
    → a.locks ≡ []
    → IsEntitled a
    → IsSound d
    → IsSound (Dict.put a.agent_id a d)
file-IsSound d a fresh good v = record {
  locking = record {
    keyed = λ i b e. elim (Bool-cases (a.agent_id == i)) [
      | inl q ↦ ground (arith, get-put a.agent_id i a d, eq_iff a.agent_id i)
      | inr q ↦ v.locking.keyed i b (ground (arith, get-put a.agent_id i a d))
    ];
    exclusive = λ n i j b c ei ej hi hj.
        v.locking.exclusive n i j b c (older n i b ei hi) (older n j c ej hj) hi hj;
  };
  entitled = λ i b e. elim (Bool-cases (a.agent_id == i)) [
    | inl q ↦ subst IsEntitled (ground (arith, get-put a.agent_id i a d)) good
    | inr q ↦ v.entitled i b (ground (arith, get-put a.agent_id i a d))
  ];
}
  where
    older :
        (n i : String) (b : AgentRecord)
        → Dict.get i (Dict.put a.agent_id a d) ≡ some b
        → HasLock n b
        → Dict.get i d ≡ some b
    older n i b e h = elim (Bool-cases (a.agent_id == i)) [
      | inl q ↦ absurd (no_lock n b (ground (arith, get-put a.agent_id i a d)) h)
      | inr q ↦ ground (arith, get-put a.agent_id i a d)
    ]

-- The record that `register` builds, when the depth test passes.
pub new_record-IsEntitled :
    (crypto : Crypto) (r : Registry) (i : String) (now : ℕ) (q : Request)
    → ltb max_spawn_depth (new_record crypto r i now q).spawn_depth ≡ false
    → IsEntitled (new_record crypto r i now q)
unfolding new_record has_cap
new_record-IsEntitled crypto r i now q h = record {
  shallow = ground arith;
  allowed = λ cap e. granted-allowed (caps_for "custom" (known_role q.role)) q.capabilities cap e;
}

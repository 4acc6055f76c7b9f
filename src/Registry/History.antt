-- ===== src/Registry/History.antt =====
-- agents/registry.py: the registry over any sequence of calls.
use hollow_agent_os.Base.{
  ℕ, ◌≡◌, refl, String, ◌==◌, false, Option, none, some, List, [], ◌∷◌, arith, inl, inr, ltb,
  Option-cases, Bool-cases,
}
use hollow_agent_os.Dict
use hollow_agent_os.Dict.{Dict, get-put, get-put_self, get-map_values, get-remove}
use hollow_agent_os.Registry.Record.{Registry, max_spawn_depth}
use hollow_agent_os.Registry.Accounts.{
  Crypto, Request, register, Registered, ok, depth_exceeded, new_record,
}
use hollow_agent_os.Registry.Lifecycle.{
  Cause, suspend, resume, terminate, terminate_known, force_terminate, force_terminate_all,
  terminate_group, group_members, set_task, write_tombstone,
}
use hollow_agent_os.Registry.Locks.{
  held_by_other, acquire_lock, release_lock, purge, take_lock, grant_lock,
}
use hollow_agent_os.Registry.Usage.{update_usage}
use hollow_agent_os.Registry.Exclusion.{Shrinks, purge-Shrinks, acquire_lock-IsExclusive}
use hollow_agent_os.Registry.Static.{
  Shrinks-refl, Shrinks-trans, suspend-Shrinks, resume-Shrinks, set_task-Shrinks,
  update_usage-Shrinks, tombstone-Shrinks, release_lock-Shrinks, terminate_known-Shrinks,
}
use hollow_agent_os.Registry.Sound.{
  IsEntitled, IsSound, Shrinks-IsSound, SameGrants-IsEntitled, file-IsSound, new_record-IsEntitled,
}

-- One call of the registry, with its clock readings and fresh identifiers.
pub data Call : Type 0 where
  registers : String → ℕ → Request → Call
  suspends resumes : String → Call
  terminates : String → Cause → Call
  terminates_group : String → String → ℕ → Call
  sets_task : String → Option String → Call
  charges : String → ℕ → ℕ → ℕ → Call
  acquires : String → String → ℕ → ℕ → Call
  releases : String → String → Call

-- A call that raises leaves the registry as it was.
abbrev after_register : Registry → Registered → Registry
after_register r (ok a token r') = r'
after_register r depth_exceeded = r

abbrev after_terminate : Registry → Option Registry → Registry
after_terminate r none = r
after_terminate r (some r') = r'

unfoldable pub step : Crypto → Registry → Call → Registry
step crypto r (registers i now q) = after_register r (register crypto r i now q)
step crypto r (suspends i) = suspend r i
step crypto r (resumes i) = resume r i
step crypto r (terminates i c) = after_terminate r (terminate r i c)
step crypto r (terminates_group g by now) = (terminate_group r g by now).1
step crypto r (sets_task i t) = set_task r i t
step crypto r (charges i calls tin tout) = update_usage r i calls tin tout
step crypto r (acquires i n now ttl) = (acquire_lock r i n now ttl).1
step crypto r (releases i n) = (release_lock r i n).1

unfoldable pub run : Crypto → Registry → List Call → Registry
run crypto r [] = r
run crypto r (c ∷ cs) = run crypto (step crypto r c) cs

register-IsSound :
    (crypto : Crypto) (r : Registry) (i : String) (now : ℕ) (q : Request)
    → IsSound r.agents
    → IsSound (after_register r (register crypto r i now q)).agents
unfolding register
register-IsSound crypto r i now q v =
    elim (Bool-cases (ltb max_spawn_depth (new_record crypto r i now q).spawn_depth)) [
      | inl deep ↦ rw (deep, register) v
      | inr fits ↦ rw (fits, register) (filed fits)
    ]
  where
    filed :
        ltb max_spawn_depth (new_record crypto r i now q).spawn_depth ≡ false
        → IsSound (Dict.put i (new_record crypto r i now q) r.agents)
    filed fits =
        file-IsSound r.agents (new_record crypto r i now q) refl
          (new_record-IsEntitled crypto r i now q fits) v

take_lock-IsEntitled :
    (r : Registry) (i n : String) (now ttl : ℕ)
    → Dict.Holds (λ _ a. IsEntitled a) r.agents
    → Dict.Holds (λ _ a. IsEntitled a) (take_lock r i n now ttl).1.agents
unfolding take_lock
take_lock-IsEntitled r i n now ttl v = elim (Bool-cases (held_by_other i n r.agents)) [
  | inl q ↦ rw (q, take_lock) v
  | inr q ↦ elim (Option-cases (Dict.get i r.agents)) [
    | inl k ↦ rw (q, k, take_lock) v
    | inr (a, k) ↦
        rw (q, k, take_lock)
          (Dict.Holds-put {P = λ _ b. IsEntitled b} i (grant_lock now ttl n a) r.agents
            (SameGrants-IsEntitled a (grant_lock now ttl n a) (ground arith) (v i a k)) v)
  ]
]

acquire-IsSound :
    (r : Registry) (i n : String) (now ttl : ℕ)
    → IsSound r.agents
    → IsSound (acquire_lock r i n now ttl).1.agents
unfolding acquire_lock
acquire-IsSound r i n now ttl v = record {
  locking = acquire_lock-IsExclusive r i n now ttl v.locking;
  entitled =
      take_lock-IsEntitled (purge now r) i n now ttl
        (Shrinks-IsSound r.agents (purge now r).agents (purge-Shrinks now r) v).entitled;
}

terminated-Shrinks :
    (r : Registry) (i : String) (c : Cause)
    → Shrinks r.agents (terminate_known (write_tombstone r i c).1 i c).agents
terminated-Shrinks r i c =
    Shrinks-trans r.agents (write_tombstone r i c).1.agents _ (tombstone-Shrinks r i c)
      (terminate_known-Shrinks (write_tombstone r i c).1 i c)

terminate-Shrinks :
    (r : Registry) (i : String) (c : Cause)
    → Shrinks r.agents (after_terminate r (terminate r i c)).agents
unfolding terminate
terminate-Shrinks r i c = elim (Bool-cases (i == "root")) [
  | inl q ↦ rw (q, terminate) (Shrinks-refl r.agents)
  | inr q ↦ rw (q, terminate) (terminated-Shrinks r i c)
]

force_terminate-Shrinks :
    (r : Registry) (i : String) (c : Cause) → Shrinks r.agents (force_terminate r i c).agents
unfolding force_terminate
force_terminate-Shrinks r i c = elim (Bool-cases (i == "root")) [
  | inl q ↦ rw (q, force_terminate) (Shrinks-refl r.agents)
  | inr q ↦ rw (q, force_terminate) (terminated-Shrinks r i c)
]

force_terminate_all-Shrinks :
    (r : Registry) (members : List String) (c : Cause)
    → Shrinks r.agents (force_terminate_all r members c).agents
unfolding force_terminate_all
force_terminate_all-Shrinks r [] c = Shrinks-refl r.agents
force_terminate_all-Shrinks r (m ∷ members) c =
    Shrinks-trans r.agents (force_terminate r m c).agents _ (force_terminate-Shrinks r m c)
      (force_terminate_all-Shrinks (force_terminate r m c) members c)

-- Every call keeps the registry sound.
step-IsSound :
    (crypto : Crypto) (r : Registry) (c : Call)
    → IsSound r.agents
    → IsSound (step crypto r c).agents
unfolding step terminate_group
step-IsSound crypto r (registers i now q) v = register-IsSound crypto r i now q v
step-IsSound crypto r (suspends i) v = Shrinks-IsSound r.agents _ (suspend-Shrinks r i) v
step-IsSound crypto r (resumes i) v = Shrinks-IsSound r.agents _ (resume-Shrinks r i) v
step-IsSound crypto r (terminates i c) v = Shrinks-IsSound r.agents _ (terminate-Shrinks r i c) v
step-IsSound crypto r (terminates_group g by now) v =
    Shrinks-IsSound r.agents _
      (force_terminate_all-Shrinks r (group_members g r.agents)
        (record { reason = "group_terminate"; terminated_by = by; at = now }))
      v
step-IsSound crypto r (sets_task i t) v = Shrinks-IsSound r.agents _ (set_task-Shrinks r i t) v
step-IsSound crypto r (charges i calls tin tout) v =
    Shrinks-IsSound r.agents _ (update_usage-Shrinks r i calls tin tout) v
step-IsSound crypto r (acquires i n now ttl) v = acquire-IsSound r i n now ttl v
step-IsSound crypto r (releases i n) v = Shrinks-IsSound r.agents _ (release_lock-Shrinks r i n) v

pub run-IsSound :
    (crypto : Crypto) (r : Registry) (cs : List Call)
    → IsSound r.agents
    → IsSound (run crypto r cs).agents
unfolding run
run-IsSound crypto r [] v = v
run-IsSound crypto r (c ∷ cs) v =
    run-IsSound crypto (step crypto r c) cs (step-IsSound crypto r c v)

-- ===== src/Registry/Static.antt =====
-- agents/registry.py: the calls that change records in place keep each agent's identity, depth, role
-- and capabilities, and hand out no lock.
use hollow_agent_os.Base.{
  ℕ, ◌≡◌, String, true, Option, arith, inl, inr, Option-cases, Bool-cases, ◌∙◌,
}
use hollow_agent_os.Dict
use hollow_agent_os.Dict.{Dict, get-put, get-put_self, get-map_values, get-remove}
use hollow_agent_os.Registry.Record.{AgentRecord, LockInfo, Registry, is_active, is_suspended}
use hollow_agent_os.Registry.Lifecycle.{
  Cause, suspend, resume, terminate_known, set_task, write_tombstone, retire, adopt,
}
use hollow_agent_os.Registry.Locks.{release_lock}
use hollow_agent_os.Registry.Usage.{update_usage, charge}
use hollow_agent_os.Registry.Exclusion.{Shrinks, Shrinks-put, SameGrants-refl}

pub Shrinks-refl : (d : Dict AgentRecord) → Shrinks d d
Shrinks-refl d i a e = (a, e, SameGrants-refl a, λ n h. h)

pub Shrinks-trans : (d e f : Dict AgentRecord) → Shrinks d e → Shrinks e f → Shrinks d f
Shrinks-trans d e f s t i c h =
    let (b, eb, sb, lb) = t i c h in
    let (a, ea, sa, la) = s i b eb in
    (
      a,
      ea,
      record {
        same_id = sb.same_id ∙ sa.same_id;
        same_depth = sb.same_depth ∙ sa.same_depth;
        same_role = sb.same_role ∙ sa.same_role;
        same_capabilities = sb.same_capabilities ∙ sa.same_capabilities;
      },
      λ n l. la n (lb n l),
    )

has_key-remove :
    (n : String) (l : Dict LockInfo) (m : String)
    → Dict.has_key m (Dict.remove n l) ≡ true
    → Dict.has_key m l ≡ true
unfolding Dict.has_key
has_key-remove n l m h = ground (arith, get-remove n m l)

-- Calls that write one record, and leave its locks and grants alone.
module _ (r : Registry) (i : String) where
  pub suspend-Shrinks : Shrinks r.agents (suspend r i).agents
  unfolding suspend
  suspend-Shrinks = elim (Option-cases (Dict.get i r.agents)) [
    | inl e ↦ rw (e, suspend) (Shrinks-refl r.agents)
    | inr (a, e) ↦ elim (Bool-cases (is_active a.status)) [
      | inl q ↦ rw (e, q, suspend) (Shrinks-put r.agents i a _ e (ground arith) (λ n h. h))
      | inr q ↦ rw (e, q, suspend) (Shrinks-refl r.agents)
    ]
  ]

  pub resume-Shrinks : Shrinks r.agents (resume r i).agents
  unfolding resume
  resume-Shrinks = elim (Option-cases (Dict.get i r.agents)) [
    | inl e ↦ rw (e, resume) (Shrinks-refl r.agents)
    | inr (a, e) ↦ elim (Bool-cases (is_suspended a.status)) [
      | inl q ↦ rw (e, q, resume) (Shrinks-put r.agents i a _ e (ground arith) (λ n h. h))
      | inr q ↦ rw (e, q, resume) (Shrinks-refl r.agents)
    ]
  ]

  pub set_task-Shrinks : (t : Option String) → Shrinks r.agents (set_task r i t).agents
  unfolding set_task
  set_task-Shrinks t = elim (Option-cases (Dict.get i r.agents)) [
    | inl e ↦ rw (e, set_task) (Shrinks-refl r.agents)
    | inr (a, e) ↦ rw (e, set_task) (Shrinks-put r.agents i a _ e (ground arith) (λ n h. h))
  ]

  pub update_usage-Shrinks :
      (calls tin tout : ℕ) → Shrinks r.agents (update_usage r i calls tin tout).agents
  unfolding update_usage charge
  update_usage-Shrinks calls tin tout = elim (Option-cases (Dict.get i r.agents)) [
    | inl e ↦ rw (e, update_usage) (Shrinks-refl r.agents)
    | inr (a, e) ↦ rw (e, update_usage) (Shrinks-put r.agents i a _ e (ground arith) (λ n h. h))
  ]

  pub tombstone-Shrinks : (c : Cause) → Shrinks r.agents (write_tombstone r i c).1.agents
  unfolding write_tombstone
  tombstone-Shrinks c = elim (Option-cases (Dict.get i r.agents)) [
    | inl e ↦ rw (e, write_tombstone) (Shrinks-refl r.agents)
    | inr (a, e) ↦ rw (e, write_tombstone) (Shrinks-put r.agents i a _ e (ground arith) (λ n h. h))
  ]

  pub release_lock-Shrinks : (n : String) → Shrinks r.agents (release_lock r i n).1.agents
  unfolding release_lock
  release_lock-Shrinks n = elim (Option-cases (Dict.get i r.agents)) [
    | inl e ↦ rw (e, release_lock) (Shrinks-refl r.agents)
    | inr (a, e) ↦ elim (Bool-cases (Dict.has_key n a.locks)) [
      | inl q ↦
          rw (e, q, release_lock)
            (Shrinks-put r.agents i a _ e (ground arith) (has_key-remove n a.locks))
      | inr q ↦ rw (e, q, release_lock) (Shrinks-refl r.agents)
    ]
  ]

adopt-Shrinks : (i : String) (d : Dict AgentRecord) → Shrinks d (Dict.map_values (adopt i) d)
unfolding adopt
adopt-Shrinks i d j a' e = elim (Option-cases (Dict.get j d)) [
  | inl q ↦ cc (get-map_values (adopt i) j d)
  | inr (b, q) ↦
      let same : a' ≡ adopt i b = ground (arith, get-map_values (adopt i) j d) in
      (b, q, ground arith, λ n h. ground arith)
]

pub terminate_known-Shrinks :
    (r : Registry) (i : String) (c : Cause) → Shrinks r.agents (terminate_known r i c).agents
unfolding terminate_known retire
terminate_known-Shrinks r i c =
    let agents = Dict.map_values (adopt i) r.agents in
    elim (Option-cases (Dict.get i agents)) [
      | inl e ↦ rw (e, terminate_known) (Shrinks-refl r.agents)
      | inr (a, e) ↦
          rw (e, terminate_known)
            (Shrinks-trans r.agents agents _ (adopt-Shrinks i r.agents)
              (Shrinks-put agents i a _ e (ground arith) (λ n h. h)))
    ]

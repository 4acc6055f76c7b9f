-- ===== src/Signals/Watch.antt =====
-- agents/signals.py: what a watchdog does to the agent it waits for, and to the others.
use hollow_agent_os.Base.{
  ◌≡◌, refl, sym, ap, ◌∙◌, subst, String, ◌==◌, eq_iff, eq_refl, Bool, true, false, some, List, [],
  ◌∷◌, arith, if◌then◌else◌, inl, inr, Bool-cases, Option-cases, any_of,
}
use hollow_agent_os.Dict
use hollow_agent_os.Dict.{Dict, get-put, get-put_self, map_option}
use hollow_agent_os.Registry.Record.{AgentRecord, Registry, is_terminated}
use hollow_agent_os.Registry.Lifecycle.{Cause, force_terminate, adopt}
use hollow_agent_os.Registry.Termination.{terminate-agents, retired}
use hollow_agent_os.Signals.{Watchdog, fire, fire_all}

-- The agent is registered, and it is terminated or not.
abbrev pub Has : Bool → String → Registry → Type 0
Has ended j r =
    (a : AgentRecord) × (Dict.get j r.agents ≡ some a) × (is_terminated a.status ≡ ended)

abbrev pub watches : String → Watchdog → Bool
watches j w = w.agent_id == j

abbrev pub HasWatch : String → List Watchdog → Type 0
HasWatch j ws = any_of (watches j) ws ≡ true

adopt-terminated :
    (i : String) (b : AgentRecord) → is_terminated (adopt i b).status ≡ is_terminated b.status
unfolding adopt
adopt-terminated i b = ground arith

-- The agents that forced termination leaves.
force_terminate-agents :
    (r : Registry) (i j : String) (c : Cause) (a : AgentRecord)
    → Dict.get i r.agents ≡ some a
    → (i == "root") ≡ false
    → Dict.get j (force_terminate r i c).agents
      ≡ (if i == j then some (retired i a) else map_option (adopt i) (Dict.get j r.agents))
unfolding force_terminate
force_terminate-agents r i j c a e other =
    rw (other, force_terminate) (terminate-agents r i c a e j)

-- Forced termination ends the agent, and no other one.
force_terminate_self :
    (r : Registry) (i : String) (c : Cause) (a : AgentRecord)
    → Dict.get i r.agents ≡ some a
    → (i == "root") ≡ false
    → Has true i (force_terminate r i c)
force_terminate_self r i c a e other =
    (retired i a, ground (arith, force_terminate-agents r i i c a e other, eq_refl i), refl)

force_terminate_other :
    (ended : Bool) (r : Registry) (i j : String) (c : Cause) (a : AgentRecord)
    → Dict.get i r.agents ≡ some a
    → (i == "root") ≡ false
    → (i == j) ≡ false
    → Has ended j r
    → Has ended j (force_terminate r i c)
force_terminate_other ended r i j c a e other apart (b, f, g) =
    (adopt i b, ground (arith, force_terminate-agents r i j c a e other), adopt-terminated i b ∙ g)

fire_other :
    (ended : Bool) (r : Registry) (w : Watchdog) (j : String)
    → (w.agent_id == j) ≡ false
    → Has ended j r
    → Has ended j (fire r w)
unfolding fire force_terminate
fire_other ended r w j apart h = elim (Option-cases (Dict.get w.agent_id r.agents)) [
  | inl e ↦ rw (e, fire) h
  | inr (a, e) ↦ elim (Bool-cases (is_terminated a.status)) [
    | inl f ↦ rw (e, f, fire) h
    | inr f ↦ elim (Bool-cases (w.agent_id == "root")) [
      | inl q ↦ rw (e, f, q, fire, force_terminate) h
      | inr q ↦ rw (e, f, fire) (force_terminate_other ended r w.agent_id j _ a e q apart h)
    ]
  ]
]

-- The agent of a watchdog that fires is terminated afterwards, unless it is root.
fire_self :
    (ended : Bool) (r : Registry) (w : Watchdog)
    → (w.agent_id == "root") ≡ false
    → Has ended w.agent_id r
    → Has true w.agent_id (fire r w)
unfolding fire
fire_self ended r w other (a, e, g) = elim (Bool-cases (is_terminated a.status)) [
  | inl f ↦ rw (e, f, fire) (a, e, f)
  | inr f ↦ rw (e, f, fire) (force_terminate_self r w.agent_id _ a e other)
]

fire-terminated : (r : Registry) (w : Watchdog) (j : String) → Has true j r → Has true j (fire r w)
unfolding fire
fire-terminated r w j (a, e, g) = elim (Bool-cases (w.agent_id == j)) [
  | inl q ↦
      let here : Dict.get w.agent_id r.agents ≡ some a =
        ap (λ i. Dict.get i r.agents) ((eq_iff w.agent_id j).0 q) ∙ e in
      rw (here, g, fire) (a, e, g)
  | inr q ↦ fire_other true r w j q (a, e, g)
]

fire_all-terminated :
    (ws : List Watchdog) (r : Registry) (j : String) → Has true j r → Has true j (fire_all r ws)
unfolding fire_all
fire_all-terminated [] r j h = h
fire_all-terminated (w ∷ ws) r j h = fire_all-terminated ws (fire r w) j (fire-terminated r w j h)

-- An agent that a watchdog waits for is terminated once all of them have fired.
pub fire_all-watched :
    (ended : Bool) (ws : List Watchdog) (r : Registry) (j : String)
    → (j == "root") ≡ false
    → HasWatch j ws
    → Has ended j r
    → Has true j (fire_all r ws)
unfolding fire_all any_of
fire_all-watched ended [] r j other h k = cc
fire_all-watched ended (w ∷ ws) r j other h k = elim (Bool-cases (w.agent_id == j)) [
  | inl q ↦
      let same = (eq_iff w.agent_id j).0 q in
      fire_all-terminated ws (fire r w) j (
        subst (λ i. Has true i (fire r w)) same
          (fire_self ended r w (ap (λ i. i == "root") same ∙ other)
            (subst (λ i. Has ended i r) (sym same) k)))
  | inr q ↦ fire_all-watched ended ws (fire r w) j other (ground arith) (fire_other ended r w j q k)
]

-- ===== src/Registry/Startup.antt =====
-- agents/registry.py: `AgentRegistry.__init__` makes a sound registry, and every history keeps it so.
use hollow_agent_os.Base.{
  ℕ, ◌≡◌, refl, String, true, none, List, [], arith, inl, inr, Option-cases, Bool-cases, contains,
}
use hollow_agent_os.Dict
use hollow_agent_os.Dict.{Dict, get-put, get-put_self, get-map_values, get-remove}
use hollow_agent_os.Registry.Record.{Registry, is_active, has_cap}
use hollow_agent_os.Registry.Accounts.{Crypto, caps_for}
use hollow_agent_os.Registry.Boot.{
  start, blank, load, ensure_root, ensure_core_agents, ensure_core_agent, ensure_scout,
  ensure_analyst, core_record, root_record,
}
use hollow_agent_os.Registry.Exclusion.{Shrinks-put}
use hollow_agent_os.Registry.Sound.{IsEntitled, IsSound, Shrinks-IsSound, file-IsSound}
use hollow_agent_os.Registry.History.{Call, run, run-IsSound}

empty-IsSound : IsSound []
unfolding Dict.get
empty-IsSound = record {
  locking = record { keyed = λ i a e. cc; exclusive = λ n i j a b ei ej hi hj. cc };
  entitled = λ i a e. cc;
}

core-IsSound :
    (crypto : Crypto) (now : ℕ) (i name role description : String) (r : Registry)
    → IsEntitled (core_record crypto now i name role description r)
    → IsSound r.agents
    → IsSound (ensure_core_agent crypto now i name role description r).agents
unfolding ensure_core_agent
core-IsSound crypto now i name role description r good v =
    elim (Option-cases (Dict.get i r.agents)) [
      | inl e ↦
          rw (e, ensure_core_agent)
            (file-IsSound r.agents (core_record crypto now i name role description r) refl good v)
      | inr (a, e) ↦ elim (Bool-cases (is_active a.status)) [
        | inl q ↦ rw (e, q, ensure_core_agent) v
        | inr q ↦
            rw (e, q, ensure_core_agent)
              (Shrinks-IsSound r.agents _ (Shrinks-put r.agents i a _ e (ground arith) (λ n h. h))
                v)
      ]
    ]

module _ (crypto : Crypto) (now : ℕ) where
  known_role-IsSound :
      (i name role description : String) (r : Registry)
      → ((cap : String)
          → contains cap (caps_for "worker" role) ≡ true
          → contains cap (caps_for "custom" role) ≡ true)
      → IsSound r.agents
      → IsSound (ensure_core_agent crypto now i name role description r).agents
  unfolding has_cap
  known_role-IsSound i name role description r known v =
      core-IsSound crypto now i name role description r
        (record { shallow = omega arith; allowed = known }) v

  ensure_core_agents-IsSound :
      (r : Registry) → IsSound r.agents → IsSound (ensure_core_agents crypto now r).agents
  unfolding ensure_core_agents caps_for Dict.get
  ensure_core_agents-IsSound r v =
      let s =
        known_role-IsSound "scout" "Scout" "orchestrator" "Scout — discovers and maps the codebase"
          r (λ cap h. h) v in
      let a =
        known_role-IsSound "analyst" "Analyst" "coder"
          "Analyst — identifies issues and proposes fixes" (ensure_scout crypto now r) (λ cap h. h)
          s in
      known_role-IsSound "builder" "Builder" "coder"
        "Builder — implements code changes and new capabilities"
        (ensure_analyst crypto now (ensure_scout crypto now r)) (λ cap h. h) a

  root-IsEntitled : (r : Registry) → IsEntitled (root_record crypto now r)
  unfolding has_cap caps_for Dict.get
  root-IsEntitled r = record { shallow = omega arith; allowed = λ cap h. h }

  ensure_root-IsSound :
      (token : String) → IsSound (ensure_root crypto now (load (blank token none))).agents
  unfolding ensure_root load Dict.get
  ensure_root-IsSound token =
      file-IsSound [] (root_record crypto now (blank token none)) refl
        (root-IsEntitled (blank token none)) empty-IsSound

  start-IsSound : (token : String) → IsSound (start crypto now token none).agents
  unfolding start
  start-IsSound token =
      ensure_core_agents-IsSound (ensure_root crypto now (load (blank token none)))
        (ensure_root-IsSound token)

-- From the first start, with no registry file, and whatever calls follow: every record stands under
-- its own identifier, no lock has two holders, no agent is deeper than the spawn limit, and no agent
-- has a capability that its role does not allow.
pub run-start-IsSound :
    (crypto : Crypto) (now : ℕ) (token : String) (cs : List Call)
    → IsSound (run crypto (start crypto now token none) cs).agents
run-start-IsSound crypto now token cs =
    run-IsSound crypto (start crypto now token none) cs (start-IsSound crypto now token)

-- ===== src/Signals/Group.antt =====
-- agents/signals.py and agents/registry.py: what SIGTERM to a group leads to.
use hollow_agent_os.Base.{
  ℕ, ◌+◌, ◌⊎◌, ◌≡◌, refl, sym, ap, ◌∙◌, subst, String, ◌==◌, eq_iff, eq_refl, Bool, true, false,
  not, ◌||◌, ◌&&◌, none, some, List, [], ◌∷◌, ◌++◌, arith, if◌then◌else◌, if_ind, inl, inr,
  some-injective, Bool-cases, Option-cases, any_of, contains,
}
use hollow_agent_os.Dict
use hollow_agent_os.Dict.{Dict, get-put, get-put_self, map_option}
use hollow_agent_os.Event.{Json, text, number, emit}
use hollow_agent_os.Registry.Record.{AgentRecord, is_terminated, is_id, save}
use hollow_agent_os.Registry.Lifecycle.{group_members}
use hollow_agent_os.Signals.{
  System, Watchdog, signal_dispatch, received_event, act, sigterm, post, mark, update_agent,
  fire_all, signal_all, terminate_group,
}
use hollow_agent_os.Signals.Watch.{Has, watches, HasWatch, fire_all-watched}

mark-terminated :
    (a : AgentRecord) (d : List (String × Json))
    → is_terminated (mark a d).status ≡ is_terminated a.status
unfolding mark
mark-terminated a [] = refl
mark-terminated a ((k, v) ∷ d) = mark-terminated (record a { metadata = Dict.put k v a.metadata }) d

any_of-append :
    (p : Watchdog → Bool) (xs ys : List Watchdog)
    → any_of p (xs ++ ys) ≡ (any_of p xs || any_of p ys)
unfolding any_of
any_of-append p [] ys = refl
any_of-append p (x ∷ xs) ys = ground (arith, any_of-append p xs ys)

-- SIGTERM to a live agent, and to any other one.
module _ (s : System) (m sent_by : String) (grace : ℕ) (msg_id : String) (now : ℕ) where
  abbrev after : System
  after = (signal_dispatch s m "SIGTERM" sent_by grace none msg_id now).1

  abbrev notes : List (String × Json)
  notes = ("terminating_after", number (now + grace)) ∷ ("sigterm_sent_by", text sent_by) ∷ []

  abbrev dog : Watchdog
  dog = record { agent_id = m; sent_by = sent_by; fires_at = now + grace }

  abbrev noticed : System
  noticed = record s { events = emit (received_event m "SIGTERM" sent_by) s.events }

  after-live :
      (a : AgentRecord)
      → Dict.get m s.registry.agents ≡ some a
      → is_terminated a.status ≡ false
      → after ≡ sigterm noticed m a sent_by grace msg_id now
  unfolding signal_dispatch act contains
  after-live a e f = rw (e, f, after, signal_dispatch) refl

  after-still : Dict.get m s.registry.agents ≡ none ⊎ Has true m s.registry → after ≡ s
  unfolding signal_dispatch contains
  after-still (inl e) = rw (e, after, signal_dispatch) refl
  after-still (inr (a, e, f)) = rw (e, f, after, signal_dispatch) refl

  sigterm-Has :
      (ended : Bool) (j : String) (a : AgentRecord)
      → Dict.get m s.registry.agents ≡ some a
      → Has ended j s.registry
      → Has ended j (sigterm noticed m a sent_by grace msg_id now).registry
  unfolding sigterm post update_agent save
  sigterm-Has ended j a e (b, f, g) = elim (Bool-cases (m == j)) [
    | inl q ↦ (
      mark a notes,
      get-put m j (mark a notes) s.registry.agents ∙ rw (q) refl,
      mark-terminated a notes
          ∙ ap (λ (x : AgentRecord). is_terminated x.status)
              (some-injective a b
                (sym e ∙ ap (λ i. Dict.get i s.registry.agents) ((eq_iff m j).0 q) ∙ f))
          ∙ g,
    )
    | inr q ↦ (b, get-put m j (mark a notes) s.registry.agents ∙ rw (q) f, g)
  ]

  after-Has : (ended : Bool) (j : String) → Has ended j s.registry → Has ended j after.registry
  after-Has ended j h = elim (Option-cases (Dict.get m s.registry.agents)) [
    | inl e ↦ subst (λ (t : System). Has ended j t.registry) (sym (after-still (inl e))) h
    | inr (a, e) ↦ elim (Bool-cases (is_terminated a.status)) [
      | inl f ↦ subst (λ (t : System). Has ended j t.registry) (sym (after-still (inr (a, e, f)))) h
      | inr f ↦
          subst (λ (t : System). Has ended j t.registry) (sym (after-live a e f))
            (sigterm-Has ended j a e h)
    ]
  ]

  -- The watchdogs that wait already go on waiting.
  after-HasWatch : (j : String) → HasWatch j s.watchdogs → HasWatch j after.watchdogs
  unfolding sigterm post update_agent
  after-HasWatch j h = elim (Option-cases (Dict.get m s.registry.agents)) [
    | inl e ↦ subst (λ (t : System). HasWatch j t.watchdogs) (sym (after-still (inl e))) h
    | inr (a, e) ↦ elim (Bool-cases (is_terminated a.status)) [
      | inl f ↦ subst (λ (t : System). HasWatch j t.watchdogs) (sym (after-still (inr (a, e, f)))) h
      | inr f ↦
          subst (λ (t : System). HasWatch j t.watchdogs) (sym (after-live a e f))
            (any_of-append (watches j) s.watchdogs (dog ∷ [])
              ∙ ap (λ b. b || any_of (watches j) (dog ∷ [])) h)
    ]
  ]

  -- A live agent gets a watchdog.
  after-watched : Has false m s.registry → HasWatch m after.watchdogs
  unfolding sigterm post update_agent any_of
  after-watched (a, e, f) =
      subst (λ (t : System). HasWatch m t.watchdogs) (sym (after-live a e f))
        (any_of-append (watches m) s.watchdogs (dog ∷ []) ∙ ground (arith, eq_refl m))

-- The loop over the members.
signal_all-keeps :
    (name : String → String) (ms : List String) (s : System) (sent_by : String) (grace now : ℕ)
    (j : String)
    → HasWatch j s.watchdogs
    → Has false j s.registry
    → HasWatch j (signal_all name s ms sent_by grace now).watchdogs
      × Has false j (signal_all name s ms sent_by grace now).registry
unfolding signal_all
signal_all-keeps name [] s sent_by grace now j h k = (h, k)
signal_all-keeps name (m ∷ ms) s sent_by grace now j h k =
    signal_all-keeps name ms (after s m sent_by grace (name m) now) sent_by grace now j
      (after-HasWatch s m sent_by grace (name m) now j h)
      (after-Has s m sent_by grace (name m) now false j k)

signal_all-watched :
    (name : String → String) (ms : List String) (s : System) (sent_by : String) (grace now : ℕ)
    (j : String)
    → contains j ms ≡ true
    → Has false j s.registry
    → HasWatch j (signal_all name s ms sent_by grace now).watchdogs
      × Has false j (signal_all name s ms sent_by grace now).registry
unfolding signal_all contains
signal_all-watched name [] s sent_by grace now j h k = cc
signal_all-watched name (m ∷ ms) s sent_by grace now j h k =
    let still = after-Has s m sent_by grace (name m) now false j k in
    elim (Bool-cases (m == j)) [
      | inl q ↦
          let same = (eq_iff m j).0 q in
          signal_all-keeps name ms (after s m sent_by grace (name m) now) sent_by grace now j
            (subst (λ i. HasWatch i (after s m sent_by grace (name m) now).watchdogs) same
              (after-watched s m sent_by grace (name m) now
                (subst (λ i. Has false i s.registry) (sym same) k)))
            still
      | inr q ↦
          signal_all-watched name ms (after s m sent_by grace (name m) now) sent_by grace now j
            (ground arith) still
    ]

-- A live agent of the group is a member.
group_members-contains :
    (group_id j : String) (d : Dict AgentRecord) (a : AgentRecord)
    → Dict.get j d ≡ some a
    → a.agent_id ≡ j
    → is_id a.group_id group_id ≡ true
    → is_terminated a.status ≡ false
    → contains j (group_members group_id d) ≡ true
unfolding group_members contains Dict.get
group_members-contains group_id j [] a e i g l = cc
group_members-contains group_id j ((k, b) ∷ d) a e i g l = elim (Bool-cases (k == j)) [
  | inl q ↦
      let here : Dict.get j ((k, b) ∷ d) ≡ some b = rw (q, Dict.get) refl in
      let same = some-injective a b (sym e ∙ here) in
      let ms = group_members group_id d in
      subst
        (λ (x : AgentRecord).
          contains j (
            if is_id x.group_id group_id && not (is_terminated x.status)
            then x.agent_id ∷ ms
            else ms)
          ≡ true)
        same (rw (g, l, i) (ground (arith, eq_refl j)))
  | inr q ↦
      let rest = group_members-contains group_id j d a (ground arith) i g l in
      if_ind (λ ms. contains j ms ≡ true)
        (is_id b.group_id group_id && not (is_terminated b.status)) _ _ (λ t. ground arith)
        (λ t. rest)
]

-- SIGTERM to a group, and then the end of the grace period of every watchdog: each agent of the group
-- that was live is terminated, root excepted. Its record carries the identifier that it is filed
-- under.
pub terminate_group-ends :
    (name : String → String) (s : System) (group_id sent_by j : String) (grace now : ℕ)
    (a : AgentRecord)
    → Dict.get j s.registry.agents ≡ some a
    → a.agent_id ≡ j
    → is_id a.group_id group_id ≡ true
    → is_terminated a.status ≡ false
    → (j == "root") ≡ false
    → let s' = (terminate_group name s group_id sent_by grace now).1 in
      (b : AgentRecord) × (Dict.get j (fire_all s'.registry s'.watchdogs).agents ≡ some b)
      × (is_terminated b.status ≡ true)
unfolding terminate_group
terminate_group-ends name s group_id sent_by j grace now a e i g l other =
    let members = group_members group_id s.registry.agents in
    let s' = signal_all name s members sent_by grace now in
    let (watched, alive) =
      signal_all-watched name members s sent_by grace now j
        (group_members-contains group_id j s.registry.agents a e i g l) (a, e, l) in
    fire_all-watched false s'.watchdogs s'.registry j other watched alive

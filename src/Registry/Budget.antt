-- ===== src/Registry/Budget.antt =====
-- agents/registry.py: what `over_budget` and `update_usage` say about the budgets.
use hollow_agent_os.Base.{
  ℕ, ◌+◌, ◌≤◌, ◌<◌, ◌≡◌, refl, ◌⊎◌, String, ◌==◌, eq_iff, eq_refl, false, Option, none, some, List,
  [], ◌∷◌, ◌++◌, arith, inl, inr, leb, leb→le, if◌then◌else◌, Option-cases, Bool-cases, contains,
  IsSetList, add-IsSetList, add, length, length-append, get_or,
}
use hollow_agent_os.Dict
use hollow_agent_os.Dict.{Dict, get-put, get-put_self}
use hollow_agent_os.Event.{Event}
use hollow_agent_os.Registry.Record.{AgentRecord, Registry, over_budget, first_exhausted}
use hollow_agent_os.Registry.Usage.{
  Alerts, bump, warn_key, check_threshold, check_thresholds, add_usage, update_usage, charge,
  reversed_onto, exhausted_event, warning_event,
}

abbrev pub used : Dict ℕ → String → ℕ
used usage key = get_or (Dict.get key usage) 0

-- Every resource of the budget is used below its limit.
abbrev pub WithinBudget : Dict ℕ → Dict ℕ → Type 0
WithinBudget usage [] = Unit
WithinBudget usage ((key, limit) ∷ budget) = (used usage key < limit) × WithinBudget usage budget

-- The first resource at or above its limit.
abbrev pub FirstExhausted : Dict ℕ → Dict ℕ → String → Type 0
FirstExhausted usage [] k = ⊥
FirstExhausted usage ((key, limit) ∷ budget) k =
    ((limit ≤ used usage key) × (k ≡ key))
    ⊎ ((used usage key < limit) × FirstExhausted usage budget k)

-- What the answer of `over_budget` means.
abbrev pub Verdict : Dict ℕ → Dict ℕ → Option String → Type 0
Verdict usage budget none = WithinBudget usage budget
Verdict usage budget (some k) = FirstExhausted usage budget k

Verdict-cons :
    (usage budget : Dict ℕ) (key : String) (limit : ℕ) (answer : Option String)
    → used usage key < limit
    → Verdict usage budget answer
    → Verdict usage ((key, limit) ∷ budget) answer
Verdict-cons usage budget key limit none below v = (below, v)
Verdict-cons usage budget key limit (some k) below v = inr (below, v)

first_exhausted-Verdict :
    (usage budget : Dict ℕ) → Verdict usage budget (first_exhausted usage budget)
unfolding first_exhausted
first_exhausted-Verdict usage [] = tt
first_exhausted-Verdict usage ((key, limit) ∷ budget) =
    elim (Bool-cases (leb limit (used usage key))) [
      | inl full ↦ rw (full, first_exhausted) (inl (leb→le _ _ full, refl))
      | inr below ↦
          rw (below, first_exhausted)
            (Verdict-cons usage budget key limit _ (ground arith)
              (first_exhausted-Verdict usage budget))
    ]

-- `over_budget` answers None exactly when every budgeted resource is below its limit, and else names
-- the first resource, in the budget's order, that has reached its limit.
pub over_budget-Verdict : (a : AgentRecord) → Verdict a.usage a.budget (over_budget a)
unfolding over_budget
over_budget-Verdict a = first_exhausted-Verdict a.usage a.budget

used-bump :
    (key k : String) (n : ℕ) (usage : Dict ℕ)
    → used (bump key n usage) k ≡ used usage k + (if key == k then n else 0)
unfolding bump
used-bump key k n usage = ground (arith, get-put key k (used usage key + n) usage, eq_iff key k)

-- The record that `update_usage` files.
abbrev charged : AgentRecord → ℕ → ℕ → ℕ → AgentRecord
charged a calls tokens_in tokens_out = record a {
  usage = add_usage calls tokens_in tokens_out a.usage;
}

used-add_usage :
    (usage : Dict ℕ) (calls tokens_in tokens_out : ℕ) (k : String)
    → used (add_usage calls tokens_in tokens_out usage) k
      ≡ used usage k
        + (if "shell_calls" == k then calls else 0)
        + (if "tokens_in" == k then tokens_in else 0)
        + (if "tokens_out" == k then tokens_out else 0)
unfolding add_usage
used-add_usage usage calls tokens_in tokens_out k = omega (
  arith,
  used-bump "shell_calls" k calls usage,
  used-bump "tokens_in" k tokens_in (bump "shell_calls" calls usage),
  used-bump "tokens_out" k tokens_out (bump "tokens_in" tokens_in (bump "shell_calls" calls usage)),
)

-- `update_usage` adds each amount to its counter of the known agent `i`, and changes nothing else of
-- that agent and nothing of any other agent `j`.
pub update_usage-agents :
    (r : Registry) (i j k : String) (calls tokens_in tokens_out : ℕ) (a : AgentRecord)
    → Dict.get i r.agents ≡ some a
    → (Dict.get j (update_usage r i calls tokens_in tokens_out).agents
        ≡ (if i == j then some (charged a calls tokens_in tokens_out) else Dict.get j r.agents))
      × (used (charged a calls tokens_in tokens_out).usage k
          ≡ used a.usage k
            + (if "shell_calls" == k then calls else 0)
            + (if "tokens_in" == k then tokens_in else 0)
            + (if "tokens_out" == k then tokens_out else 0))
unfolding update_usage charge
update_usage-agents r i j k calls tokens_in tokens_out a e = (
  ground (arith, get-put i j (charged a calls tokens_in tokens_out) r.agents),
  used-add_usage a.usage calls tokens_in tokens_out k,
)

-- Events and reported thresholds grow together.
record Balanced (s t : Alerts) : Type 0 where
  once :
      length t.events + length s.warned + length s.exhausted
      ≡ length s.events + length t.warned + length t.exhausted
  warned_once : IsSetList s.warned → IsSetList t.warned
  exhausted_once : IsSetList s.exhausted → IsSetList t.exhausted

check_threshold-Balanced :
    (i key : String) (current limit : ℕ) (s : Alerts)
    → Balanced s (check_threshold i key current limit s)
unfolding check_threshold add
check_threshold-Balanced i key current limit s = record {
  once = ground arith;
  warned_once = λ h. ground (arith, add-IsSetList (warn_key i key) s.warned h);
  exhausted_once = λ h. ground (arith, add-IsSetList (warn_key i key) s.exhausted h);
}

Balanced-trans : (s t u : Alerts) → Balanced s t → Balanced t u → Balanced s u
Balanced-trans s t u a b = record {
  once = omega (arith, a.once, b.once);
  warned_once = λ h. b.warned_once (a.warned_once h);
  exhausted_once = λ h. b.exhausted_once (a.exhausted_once h);
}

Balanced-refl : (s : Alerts) → Balanced s s
Balanced-refl s = record { once = refl; warned_once = λ h. h; exhausted_once = λ h. h }

check_thresholds-Balanced :
    (i : String) (usage budget : Dict ℕ) (s : Alerts)
    → Balanced s (check_thresholds i usage budget s)
unfolding check_thresholds
check_thresholds-Balanced i usage [] s = Balanced-refl s
check_thresholds-Balanced i usage ((key, limit) ∷ budget) s = elim (Bool-cases (leb limit 0)) [
  | inl skip ↦ rw (skip, check_thresholds) (check_thresholds-Balanced i usage budget s)
  | inr test ↦
      rw (test, check_thresholds)
        (Balanced-trans s (check_threshold i key (used usage key) limit s) _
          (check_threshold-Balanced i key (used usage key) limit s)
          (check_thresholds-Balanced i usage budget
            (check_threshold i key (used usage key) limit s)))
]

length-reversed_onto :
    (es acc : List Event) → length (reversed_onto es acc) ≡ length es + length acc
length-reversed_onto [] acc = omega arith
length-reversed_onto (e ∷ es) acc = omega (arith, length-reversed_onto es (e ∷ acc))

-- The thresholds that a registry has reported.
abbrev pub reported : Registry → ℕ
reported r = length r.budget_warned + length r.budget_exhausted

-- Each threshold event that `update_usage` emits goes with one threshold that was not reported before,
-- so no threshold is announced twice: the log grows by as much as the two sets of reported
-- thresholds, and these stay free of repetitions.
pub update_usage_reports_once :
    (r : Registry) (i : String) (calls tokens_in tokens_out : ℕ) (log : List Event)
    → r.event_bus ≡ some log
    → IsSetList r.budget_warned
    → IsSetList r.budget_exhausted
    → let r' = update_usage r i calls tokens_in tokens_out in
      (log' : List Event) × (r'.event_bus ≡ some log')
      × (length log' + reported r ≡ length log + reported r')
      × IsSetList r'.budget_warned
      × IsSetList r'.budget_exhausted
unfolding update_usage charge
update_usage_reports_once r i calls tokens_in tokens_out log e w x =
    elim (Option-cases (Dict.get i r.agents)) [
      | inl q ↦ rw (q, update_usage) (log, e, omega arith, w, x)
      | inr (a, q) ↦
          let s : Alerts = record {
            warned = r.budget_warned;
            exhausted = r.budget_exhausted;
            events = [];
          } in
          let a' : AgentRecord = charged a calls tokens_in tokens_out in
          let b = check_thresholds-Balanced i a'.usage a'.budget s in
          let t : Alerts = check_thresholds i a'.usage a'.budget s in
          rw (q, update_usage)
            (
              log ++ reversed_onto t.events [],
              ground arith,
              omega (
                arith,
                b.once,
                length-append log (reversed_onto t.events []),
                length-reversed_onto t.events [],
              ),
              b.warned_once w,
              b.exhausted_once x,
            )
    ]

-- A resource that goes straight to its limit is announced as exhausted by the first check, then as
-- merely nearly used up by the second; from then on nothing is said.
pub check_threshold_settles :
    (i key : String) (current limit : ℕ) (s : Alerts)
    → limit ≤ current
    → contains (warn_key i key) s.exhausted ≡ false
    → contains (warn_key i key) s.warned ≡ false
    → let s1 = check_threshold i key current limit s in
      let s2 = check_threshold i key current limit s1 in
      (s2.events
        ≡ warning_event i key current limit ∷ exhausted_event i key current limit ∷ s.events)
      × (check_threshold i key current limit s2 ≡ s2)
unfolding check_threshold add contains
check_threshold_settles i key current limit s full new quiet =
    ground (arith, eq_refl (warn_key i key))

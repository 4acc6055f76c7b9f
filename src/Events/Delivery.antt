-- ===== src/Events/Delivery.antt =====
-- agents/events.py: to whom an event is delivered, and which subscriptions are left.
use hollow_agent_os.Base.{
  ℕ, ◌≡◌, refl, ap, ◌∙◌, String, Bool, true, false, not, ◌&&◌, ◌==◌, eq_iff, eq_refl, Option, none,
  some, leb, get_or, ◌++◌, List, [], ◌∷◌, arith, inl, inr, Bool-cases, map, filter, contains,
}
use hollow_agent_os.Dict
use hollow_agent_os.Dict.{Dict}
use hollow_agent_os.Dict.Unique.{IsUnique, remove-fresh}
use hollow_agent_os.Events.{
  AgentEvent, Subscription, Line, entry, Host, EventBus, is_expired, sort_out, scan, delete_all,
  deliver_all, route, emit, append_log,
}

-- An expiry time that is not over yet.
abbrev pub is_live : ℕ → Option ℕ → Bool
is_live now none = true
is_live now (some t) = leb now t

-- The agents of the subscriptions that are live and match, in the order of the dict.
unfoldable pub subscribers : (String → Bool) → ℕ → Dict Subscription → List String
unfolding Dict.values
subscribers matches now d =
    map (λ sub. sub.agent_id)
      (filter (λ sub. is_live now sub.expires_at && matches sub.pattern) (Dict.values d))

live-expired :
    (now : ℕ) (t : Option ℕ) (sub : Subscription)
    → sub.expires_at ≡ t
    → is_live now t ≡ not (is_expired now sub)
unfolding is_expired
live-expired now none sub e = rw (e, is_expired) refl
live-expired now (some t) sub e = rw (e, is_expired) (ground arith)

live : (now : ℕ) (sub : Subscription) → is_live now sub.expires_at ≡ not (is_expired now sub)
live now sub = live-expired now sub.expires_at sub refl

scan-subscribers :
    (matches : String → Bool) (now : ℕ) (d : Dict Subscription)
    → (scan matches now d).0 ≡ subscribers matches now d
unfolding scan sort_out subscribers filter Dict.values
scan-subscribers matches now [] = refl
scan-subscribers matches now ((i, sub) ∷ d) = elim (Bool-cases (is_expired now sub)) [
  | inl e ↦ rw (live now sub, e, scan) (scan-subscribers matches now d)
  | inr e ↦ elim (Bool-cases (matches sub.pattern)) [
    | inl f ↦
        rw (live now sub, e, f, scan) (ap (λ l. sub.agent_id ∷ l) (scan-subscribers matches now d))
    | inr f ↦ rw (live now sub, e, f, scan) (scan-subscribers matches now d)
  ]
]

keep-live :
    (now : ℕ) (d : Dict Subscription)
    → Dict.keep (λ sub. not (is_expired now sub)) d
      ≡ Dict.keep (λ sub. is_live now sub.expires_at) d
unfolding Dict.keep
keep-live now [] = refl
keep-live now ((i, sub) ∷ d) = ground (arith, live now sub, keep-live now d)

-- The calls of the message bus, one for each name, from left to right.
abbrev pub fold {ℓ} : {B : Type ℓ} → (B → String → B) → B → List String → B
fold call b [] = b
fold call b (agent_id ∷ agents) = fold call (call b agent_id) agents

deliver_all-fold {ℓ} :
    {B : Type ℓ} (host : Host B) (e : AgentEvent) (agents : List String) (b : B)
    → deliver_all host e agents b ≡ fold (λ b' agent_id. host.deliver_event b' agent_id e) b agents
unfolding deliver_all
deliver_all-fold host e [] b = refl
deliver_all-fold host e (agent_id ∷ agents) b =
    deliver_all-fold host e agents (host.deliver_event b agent_id e)

append_log-end :
    (log : Option (List Line)) (e : AgentEvent)
    → append_log log e ≡ some (get_or log [] ++ entry e ∷ [])
unfolding append_log
append_log-end none e = refl
append_log-end (some ls) e = refl

sort_out-fresh :
    (i j agent_id : String) (expired matches : Bool) (r : List String × List String)
    → (j == i) ≡ false
    → contains i r.1 ≡ false
    → contains i (sort_out expired matches j agent_id r).1 ≡ false
unfolding sort_out contains
sort_out-fresh i j agent_id true matches (a, b) h f = ground arith
sort_out-fresh i j agent_id false true (a, b) h f = f
sort_out-fresh i j agent_id false false (a, b) h f = f

-- The expired keys are keys.
scan-fresh :
    (i : String) (matches : String → Bool) (now : ℕ) (d : Dict Subscription)
    → Dict.has_key i d ≡ false
    → contains i (scan matches now d).1 ≡ false
unfolding scan contains Dict.has_key Dict.get
scan-fresh i matches now [] h = refl
scan-fresh i matches now ((j, sub) ∷ d) h = elim (Bool-cases (j == i)) [
  | inl e ↦ ground arith
  | inr e ↦
      sort_out-fresh i j sub.agent_id (is_expired now sub) (matches sub.pattern)
        (scan matches now d) e (scan-fresh i matches now d (ground arith))
]

delete_all-spares :
    (i : String) (sub : Subscription) (sids : List String) (d : Dict Subscription)
    → contains i sids ≡ false
    → delete_all sids ((i, sub) ∷ d) ≡ (i, sub) ∷ delete_all sids d
unfolding delete_all contains Dict.remove
delete_all-spares i sub [] d h = refl
delete_all-spares i sub (j ∷ sids) d h = elim (Bool-cases (j == i)) [
  | inl e ↦ ground arith
  | inr e ↦
      let apart : (i == j) ≡ false = ground (arith, eq_iff i j, eq_iff j i) in
      rw (apart) (delete_all-spares i sub sids (Dict.remove j d) (ground arith))
]

remove-first :
    (i : String) (sub : Subscription) (d : Dict Subscription)
    → Dict.has_key i d ≡ false
    → Dict.remove i ((i, sub) ∷ d) ≡ d
unfolding Dict.remove
remove-first i sub d h = rw (eq_refl i, Dict.remove) (remove-fresh i d h)

-- Deleting the expired keys one by one.
delete_all-keep :
    (matches : String → Bool) (now : ℕ) (d : Dict Subscription)
    → IsUnique d
    → delete_all (scan matches now d).1 d ≡ Dict.keep (λ sub. not (is_expired now sub)) d
unfolding scan sort_out delete_all Dict.keep Dict.remove
delete_all-keep matches now [] u = refl
delete_all-keep matches now ((i, sub) ∷ d) (fresh, u) = elim (Bool-cases (is_expired now sub)) [
  | inl e ↦
      rw (e, scan)
        (ap (delete_all (scan matches now d).1) (remove-first i sub d fresh)
          ∙ delete_all-keep matches now d u)
  | inr e ↦
      let kept =
        delete_all-spares i sub (scan matches now d).1 d (scan-fresh i matches now d fresh)
        ∙ ap (λ r. (i, sub) ∷ r) (delete_all-keep matches now d u) in
      elim (Bool-cases (matches sub.pattern)) [
        | inl f ↦ rw (e, f, scan) kept
        | inr f ↦ rw (e, f, scan) kept
      ]
]

-- An event is filed at the end of the log, which is created where it is missing, and the message bus
-- is called once for each subscription that has not expired and whose pattern matches the type, with
-- the agent of the subscription, in the order of the subscriptions; the subscriptions whose expiry is
-- over are dropped, and no other. The keys of the subscriptions are distinct.
pub emit-delivers {ℓ} :
    {B : Type ℓ} (host : Host B) (b : EventBus B) (bus : B) (e : AgentEvent) (now : ℕ)
    → b.bus ≡ some bus
    → IsUnique b.subscriptions
    → let b' = emit host b e now in
      let agents = subscribers (host.fnmatch e.event_type) now b.subscriptions in
      (b'.log ≡ some (get_or b.log [] ++ entry e ∷ []))
      × (b'.bus ≡ some (fold (λ b1 agent_id. host.deliver_event b1 agent_id e) bus agents))
      × (b'.subscriptions ≡ Dict.keep (λ sub. is_live now sub.expires_at) b.subscriptions)
unfolding emit route
emit-delivers host b bus e now on unique =
    let matches = host.fnmatch e.event_type in
    rw (on, emit)
      (
        append_log-end b.log e,
        ap (λ agents. some (deliver_all host e agents bus))
              (scan-subscribers matches now b.subscriptions)
            ∙ ap some (deliver_all-fold host e (subscribers matches now b.subscriptions) bus),
        delete_all-keep matches now b.subscriptions unique ∙ keep-live now b.subscriptions,
      )

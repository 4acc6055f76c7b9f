-- ===== src/RateLimit/Penalty.antt =====
-- agents/ratelimit.py: how long the penalty of a circuit break lasts.
use hollow_agent_os.Base.{
  ℕ, ◌+◌, ◌*◌, ◌/◌, ◌<◌, max, ◌≡◌, refl, String, ◌==◌, sym, subst, eq_refl, false, none, some, List,
  arith, leb, lt→ltb,
}
use hollow_agent_os.Dict
use hollow_agent_os.Dict.{get-put, get-put_self, get-remove}
use hollow_agent_os.RateLimit.Tokens.{new_bucket}
use hollow_agent_os.RateLimit.{
  Limiter, limited, unit, raw_limits, is_huge, penalized, is_circuit_broken, get_limits, bucket_for,
  get_bucket, check, circuit_break,
}
use hollow_agent_os.RateLimit.Held.{
  HasLimits, Use, uses, uses-Held, Held-get_bucket, first_check-Held,
}

-- The bucket that the first check after the break builds.
get_bucket-broken :
    (l : Limiter) (agent_id resource role : String) (capacity rate expiry now : ℕ)
    → Dict.get agent_id l.buckets ≡ none
    → Dict.get agent_id l.circuit_broken ≡ some expiry
    → now < expiry
    → raw_limits l agent_id resource role ≡ limited capacity rate
    → is_huge (limited capacity rate) ≡ false
    → (get_bucket l agent_id resource role now).0
      ≡ bucket_for (penalized (limited capacity rate)) now
unfolding get_bucket get_limits is_circuit_broken Dict.get
get_bucket-broken l agent_id resource role capacity rate expiry now empty broken soon raw small =
    rw
      (empty, get_bucket, get_limits, raw, small, broken, is_circuit_broken, lt→ltb now expiry soon)
      refl

penalized-small :
    (capacity rate : ℕ)
    → is_huge (limited capacity rate) ≡ false
    → leb (100000000000000000 * unit) (max unit (capacity / 10)) ≡ false
unfolding is_huge
penalized-small capacity rate small = ground arith

bucket_for-penalized :
    (capacity rate now : ℕ)
    → is_huge (limited capacity rate) ≡ false
    → HasLimits
        (max unit (capacity / 10))
        (max 3 (rate / 10))
        (bucket_for (penalized (limited capacity rate)) now)
unfolding bucket_for penalized is_huge new_bucket
bucket_for-penalized capacity rate now small =
    rw (penalized-small capacity rate small, bucket_for) (refl, refl)

-- The first check of an agent in the window of its circuit break builds a bucket with a tenth of the
-- capacity and of the refill rate, at least 1 token and 0.001 tokens in a second. After any sequence
-- of further checks and status queries of any agents, at any times, the agent still has this capacity
-- and rate for the resource, also when the window is over. The role is not root, and the limits
-- before the break are below 1e17.
pub penalty_outlasts :
    (l : Limiter) (agent_id resource role reason msg_id : String)
    (capacity rate duration amount broke first later wall : ℕ) (us : List Use)
    → (role == "root") ≡ false
    → raw_limits l agent_id resource role ≡ limited capacity rate
    → is_huge (limited capacity rate) ≡ false
    → first < broke + duration * 1000
    → let l1 = circuit_break l agent_id reason duration broke wall msg_id in
      let l2 = (check l1 agent_id resource role amount first).1 in
      let b = (get_bucket (uses l2 us) agent_id resource role later).0 in
      (b.capacity ≡ max unit (capacity / 10)) × (b.refill_rate ≡ max 3 (rate / 10))
unfolding circuit_break raw_limits
penalty_outlasts l agent_id resource role reason msg_id capacity rate duration amount broke first
      later wall us other raw small soon =
    let l1 = circuit_break l agent_id reason duration broke wall msg_id in
    let l2 = (check l1 agent_id resource role amount first).1 in
    let built =
      get_bucket-broken l1 agent_id resource role capacity rate (broke + duration * 1000) first
        (ground (arith, get-remove agent_id agent_id l.buckets, eq_refl agent_id))
        (get-put_self agent_id (broke + duration * 1000) l.circuit_broken) soon raw small in
    Held-get_bucket agent_id resource role (max unit (capacity / 10)) (max 3 (rate / 10))
      (uses l2 us) later
      (uses-Held agent_id resource (max unit (capacity / 10)) (max 3 (rate / 10)) l2 us (
        first_check-Held (max unit (capacity / 10)) (max 3 (rate / 10)) l1 agent_id resource role
          amount first other
          (subst (HasLimits (max unit (capacity / 10)) (max 3 (rate / 10))) (sym built)
            (bucket_for-penalized capacity rate first small))))

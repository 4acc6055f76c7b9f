-- ===== src/RateLimit/Held.antt =====
-- agents/ratelimit.py: a bucket that is there keeps its capacity and its rate, whatever is checked or
-- asked for.
use hollow_agent_os.Base.{
  ℕ, ◌≡◌, refl, ap, ◌∙◌, String, ◌==◌, ◌&&◌, ◌⊎◌, inl, inr, Option, Bool-cases, Option-cases, subst,
  eq_iff, false, some, List, ◌∷◌, [], arith, get_or,
}
use hollow_agent_os.Dict
use hollow_agent_os.Dict.{get-put, get-put_self, get-remove}
use hollow_agent_os.RateLimit.Tokens.{Bucket, refill, take_from, consume, depth}
use hollow_agent_os.RateLimit.{
  Limiter, is_circuit_broken, get_limits, bucket_for, set_bucket, get_bucket, check, levels,
  get_status,
}

-- What a call of a bucket never changes.
abbrev pub HasLimits : ℕ → ℕ → Bucket → Type 0
HasLimits capacity rate b = (b.capacity ≡ capacity) × (b.refill_rate ≡ rate)

consume-HasLimits :
    (capacity rate : ℕ) (b : Bucket) (n now : ℕ)
    → HasLimits capacity rate b
    → HasLimits capacity rate (consume b n now).1
unfolding consume take_from refill
consume-HasLimits capacity rate b n now (c, r) = (ground (arith, c), ground (arith, r))

depth-HasLimits :
    (capacity rate : ℕ) (b : Bucket) (now : ℕ)
    → HasLimits capacity rate b
    → HasLimits capacity rate (depth b now).1
unfolding depth refill
depth-HasLimits capacity rate b now h = h

abbrev bucket_at : Limiter → String → String → Option Bucket
bucket_at l agent_id resource = Dict.get resource (get_or (Dict.get agent_id l.buckets) [])

-- The bucket of an agent and a resource is there, with these limits.
abbrev pub Held : String → String → ℕ → ℕ → Limiter → Type 0
Held i r capacity rate l = (b : Bucket) × (bucket_at l i r ≡ some b) × HasLimits capacity rate b

-- The bucket is that of another agent or resource, or has the limits.
abbrev Fits : String → String → String → String → ℕ → ℕ → Bucket → Type 0
Fits agent_id resource i r capacity rate b =
    (((agent_id == i) && (resource == r)) ≡ false) ⊎ HasLimits capacity rate b

-- Any other bucket may be set, and this one to a bucket with these limits.
set_bucket-Held :
    (agent_id resource i r : String) (capacity rate : ℕ) (b : Bucket) (l : Limiter)
    → Held i r capacity rate l
    → Fits agent_id resource i r capacity rate b
    → Held i r capacity rate (set_bucket agent_id resource b l)
unfolding set_bucket
set_bucket-Held agent_id resource i r capacity rate b l (b1, e, h) new =
    let inner = get_or (Dict.get agent_id l.buckets) [] in
    elim (Bool-cases (agent_id == i)) [
      | inr q ↦ (b1, ground (arith, get-put agent_id i (Dict.put resource b inner) l.buckets), h)
      | inl q ↦ elim (Bool-cases (resource == r)) [
        | inr q' ↦ (
          b1,
          ground (
            arith,
            eq_iff agent_id i,
            get-put agent_id i (Dict.put resource b inner) l.buckets,
            get-put resource r b inner,
          ),
          h,
        )
        | inl q' ↦ (
          b,
          ground (
            arith,
            get-put agent_id i (Dict.put resource b inner) l.buckets,
            get-put resource r b inner,
          ),
          elim new [ inr limits ↦ limits | inl other ↦ ground (arith) ],
        )
      ]
    ]

is_circuit_broken-buckets :
    (l : Limiter) (agent_id : String) (now : ℕ)
    → (is_circuit_broken l agent_id now).1.buckets ≡ l.buckets
unfolding is_circuit_broken
is_circuit_broken-buckets l agent_id now = ground arith

get_limits-buckets :
    (l : Limiter) (agent_id resource role : String) (now : ℕ)
    → (get_limits l agent_id resource role now).1.buckets ≡ l.buckets
unfolding get_limits
get_limits-buckets l agent_id resource role now =
    ground (arith, is_circuit_broken-buckets l agent_id now)

module _ (i r : String) (capacity rate : ℕ) where
  buckets-Held :
      (l l' : Limiter)
      → l'.buckets ≡ l.buckets
      → Held i r capacity rate l
      → Held i r capacity rate l'
  buckets-Held l l' same (b, e, h) =
      (b, ap (λ d. Dict.get r (get_or (Dict.get i d) [])) same ∙ e, h)

  get_bucket-Held :
      (l : Limiter) (agent_id resource role : String) (now : ℕ)
      → Held i r capacity rate l
      → let (b, l1) = get_bucket l agent_id resource role now in
        Fits agent_id resource i r capacity rate b × Held i r capacity rate l1
  unfolding get_bucket
  get_bucket-Held l agent_id resource role now (b1, e, h) =
      elim (Option-cases (bucket_at l agent_id resource)) [
        | inl q ↦
            let other : ((agent_id == i) && (resource == r)) ≡ false =
              ground (arith, eq_iff agent_id i, eq_iff resource r) in
            let (limits, l') = get_limits l agent_id resource role now in
            let b = bucket_for limits now in
            rw (q, get_bucket)
              (
                inl other,
                set_bucket-Held agent_id resource i r capacity rate b l'
                    (buckets-Held l l' (get_limits-buckets l agent_id resource role now) (b1, e, h))
                    (inl other),
              )
        | inr (b0, q) ↦
            let fits : Fits agent_id resource i r capacity rate b0 =
              elim (Bool-cases ((agent_id == i) && (resource == r))) [
                | inr other ↦ inl other
                | inl same ↦
                    let one : b1 ≡ b0 = ground (arith, eq_iff agent_id i, eq_iff resource r) in
                    inr (subst (HasLimits capacity rate) one h)
              ] in
            rw (q, get_bucket) (fits, (b1, e, h))
      ]

  consume-Fits :
      (agent_id resource : String) (b : Bucket) (n now : ℕ)
      → Fits agent_id resource i r capacity rate b
      → Fits agent_id resource i r capacity rate (consume b n now).1
  consume-Fits agent_id resource b n now f = elim f [
    | inl other ↦ inl other
    | inr h ↦ inr (consume-HasLimits capacity rate b n now h)
  ]

  check-Held :
      (l : Limiter) (agent_id resource role : String) (amount now : ℕ)
      → Held i r capacity rate l
      → Held i r capacity rate (check l agent_id resource role amount now).1
  unfolding check
  check-Held l agent_id resource role amount now h =
      let (b, l1) = get_bucket l agent_id resource role now in
      let (fits, held) = get_bucket-Held l agent_id resource role now h in
      elim (Bool-cases (role == "root")) [
        | inl q ↦ rw (q, check) h
        | inr q ↦
            rw (q, check)
              (set_bucket-Held agent_id resource i r capacity rate (consume b amount now).1 l1 held
                (consume-Fits agent_id resource b amount now fits))
      ]

  levels-Held :
      (l : Limiter) (agent_id role : String) (now : ℕ) (resources : List String)
      → Held i r capacity rate l
      → Held i r capacity rate (levels l agent_id role now resources).1
  unfolding levels depth
  levels-Held l agent_id role now [] h = h
  levels-Held l agent_id role now (resource ∷ rest) h =
      let (b, l1) = get_bucket l agent_id resource role now in
      let (fits, held) = get_bucket-Held l agent_id resource role now h in
      let l2 = set_bucket agent_id resource (depth b now).1 l1 in
      levels-Held l2 agent_id role now rest (
        set_bucket-Held agent_id resource i r capacity rate (depth b now).1 l1 held (elim fits [
          | inl other ↦ inl other
          | inr limits ↦ inr (depth-HasLimits capacity rate b now limits)
        ]))

  get_status-Held :
      (l : Limiter) (agent_id role : String) (now : ℕ)
      → Held i r capacity rate l
      → Held i r capacity rate (get_status l agent_id role now).1
  unfolding get_status
  get_status-Held l agent_id role now h =
      let all = "tokens_in" ∷ "shell_calls" ∷ "api_calls" ∷ "task_submissions" ∷ [] in
      let l1 = (levels l agent_id role now all).1 in
      buckets-Held l1 (is_circuit_broken l1 agent_id now).1
        (is_circuit_broken-buckets l1 agent_id now) (levels-Held l agent_id role now all h)

-- Calls that agents and monitors make of the limiter, for any agent.
pub data Use : Type 0 where
  checks : (agent_id resource role : String) (amount now : ℕ) → Use
  asks : (agent_id role : String) (now : ℕ) → Use

unfoldable step : Limiter → Use → Limiter
step l (checks agent_id resource role amount now) = (check l agent_id resource role amount now).1
step l (asks agent_id role now) = (get_status l agent_id role now).1

unfoldable pub uses : Limiter → List Use → Limiter
unfolding step
uses l [] = l
uses l (u ∷ us) = uses (step l u) us

pub uses-Held :
    (i r : String) (capacity rate : ℕ) (l : Limiter) (us : List Use)
    → Held i r capacity rate l
    → Held i r capacity rate (uses l us)
unfolding uses step
uses-Held i r capacity rate l [] h = h
uses-Held i r capacity rate l (checks agent_id resource role amount now ∷ us) h =
    uses-Held i r capacity rate (check l agent_id resource role amount now).1 us
      (check-Held i r capacity rate l agent_id resource role amount now h)
uses-Held i r capacity rate l (asks agent_id role now ∷ us) h =
    uses-Held i r capacity rate (get_status l agent_id role now).1 us
      (get_status-Held i r capacity rate l agent_id role now h)

-- A bucket that is held is the one that the next call uses, whatever the limits have become.
pub Held-get_bucket :
    (i r role : String) (capacity rate : ℕ) (l : Limiter) (now : ℕ)
    → Held i r capacity rate l
    → HasLimits capacity rate (get_bucket l i r role now).0
unfolding get_bucket
Held-get_bucket i r role capacity rate l now (b, e, h) = rw (e, get_bucket) h

set_bucket-slot :
    (l : Limiter) (agent_id resource : String) (b : Bucket)
    → bucket_at (set_bucket agent_id resource b l) agent_id resource ≡ some b
unfolding set_bucket
set_bucket-slot l agent_id resource b =
    let inner = get_or (Dict.get agent_id l.buckets) [] in
    rw (get-put_self agent_id (Dict.put resource b inner) l.buckets, get-put_self resource b inner)
      refl

-- A check that builds the bucket leaves it in its place.
pub first_check-Held :
    (capacity rate : ℕ) (l : Limiter) (agent_id resource role : String) (amount now : ℕ)
    → (role == "root") ≡ false
    → HasLimits capacity rate (get_bucket l agent_id resource role now).0
    → Held agent_id resource capacity rate (check l agent_id resource role amount now).1
unfolding check
first_check-Held capacity rate l agent_id resource role amount now other h =
    let (b, l1) = get_bucket l agent_id resource role now in
    rw (other, check)
      (
        (consume b amount now).1,
        set_bucket-slot l1 agent_id resource (consume b amount now).1,
        consume-HasLimits capacity rate b amount now h,
      )

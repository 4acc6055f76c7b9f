-- ===== src/RateLimit.antt =====
-- agents/ratelimit.py: the limits of the roles and agents, the buckets that are built from them, and
-- the circuit breaker. The registry, the event bus and the message bus may not be set.
pub mod Tokens
pub mod Window
pub mod Held
pub mod Penalty
mod Examples
use hollow_agent_os.Base.{
  ℕ, ◌+◌, ◌-◌, ◌*◌, ◌/◌, max, String, Bool, true, false, not, ◌&&◌, ◌==◌, Option, none, some, List,
  [], ◌∷◌, leb, ltb, if◌then◌else◌, get_or, is_some, map, contains,
}
use hollow_agent_os.Dict
use hollow_agent_os.Dict.{Dict}
use hollow_agent_os.Event.{Event, Json, object_of, text, number, texts, emit}
use hollow_agent_os.Bus.{Bus, send, new_message}
use hollow_agent_os.Registry.Record.{Registry}
use hollow_agent_os.Registry.Lifecycle.{suspend}
use hollow_agent_os.RateLimit.Tokens.{Bucket, Result, new_bucket, consume, depth}

-- The parts of one token.
abbrev pub unit : ℕ
unit = 3000000

-- A pair of capacity and refill rate; `UNLIMITED` is an infinity in the source.
pub data Limits : Type 0 where
  unlimited : Limits
  limited : (capacity refill_rate : ℕ) → Limits

-- N tokens, refilled by N / 60 in a second.
abbrev pub per_minute : ℕ → Limits
per_minute n = limited (n * unit) (n * 50)

abbrev limits_of : Limits → Limits → Limits → Limits → Dict Limits
limits_of tokens shell api tasks =
    ("tokens_in", tokens)
    ∷ ("shell_calls", shell)
    ∷ ("api_calls", api)
    ∷ ("task_submissions", tasks)
    ∷ []

-- `_DEFAULT_ROLE_LIMITS`.
abbrev custom_limits : Dict Limits
custom_limits = limits_of (per_minute 5000) (per_minute 10) (per_minute 10) (per_minute 5)

-- `_ROLE_LIMITS`.
abbrev role_limits : Dict (Dict Limits)
role_limits =
    ("root", limits_of unlimited unlimited unlimited unlimited)
    ∷ (
      "orchestrator",
      limits_of (per_minute 100000) (per_minute 300) (per_minute 300) (per_minute 60),
    )
    ∷ ("worker", limits_of (per_minute 20000) (per_minute 60) (per_minute 60) (per_minute 10))
    ∷ ("coder", limits_of (per_minute 50000) (per_minute 120) (per_minute 120) (per_minute 20))
    ∷ ("reasoner", limits_of (per_minute 50000) (per_minute 10) (per_minute 10) (per_minute 5))
    ∷ ("custom", custom_limits)
    ∷ []

-- `RateLimiter`.
pub record Limiter : Type 0 where
  pub buckets : Dict (Dict Bucket)
  pub agent_overrides : Dict (Dict Limits)
  pub role_overrides : Dict (Dict Limits)
  pub circuit_broken : Dict ℕ
  pub registry : Option Registry
  pub events : Option (List Event)
  pub bus : Option Bus

-- `RateLimiter.set_subsystems`: what is not given is dropped.
unfoldable set_subsystems : Limiter → Option Registry → Option (List Event) → Option Bus → Limiter
set_subsystems l registry events bus = record l { registry = registry; events = events; bus = bus }

-- `RateLimiter.is_circuit_broken`: a break that is over is forgotten.
unfoldable pub is_circuit_broken : Limiter → String → ℕ → Bool × Limiter
is_circuit_broken l agent_id now = elim (Dict.get agent_id l.circuit_broken) [
  | none ↦ (false, l)
  | some expiry ↦
      if ltb now expiry
      then (true, l)
      else (false, record l { circuit_broken = Dict.remove agent_id l.circuit_broken })
]

-- `d[name][resource]` where both are there.
unfoldable pub override : String → String → Dict (Dict Limits) → Option Limits
override name resource d = elim (Dict.get name d) [
  | none ↦ none
  | some limits ↦ Dict.get resource limits
]

-- `RateLimiter._raw_limits`.
unfoldable pub raw_limits : Limiter → String → String → String → Limits
unfolding override
raw_limits l agent_id resource role = elim (override agent_id resource l.agent_overrides) [
  | some limits ↦ limits
  | none ↦ elim (override role resource l.role_overrides) [
    | some limits ↦ limits
    | none ↦ get_or (Dict.get resource (get_or (Dict.get role role_limits) custom_limits)) unlimited
  ]
]

-- `cap >= 1e17`.
unfoldable pub is_huge : Limits → Bool
is_huge unlimited = true
is_huge (limited capacity refill_rate) = leb (100000000000000000 * unit) capacity

-- A tenth of the limits, 1 token and 0.001 tokens in a second at least.
unfoldable pub penalized : Limits → Limits
penalized unlimited = unlimited
penalized (limited capacity refill_rate) =
    limited (max unit (capacity / 10)) (max 3 (refill_rate / 10))

-- `RateLimiter._get_limits`.
unfoldable pub get_limits : Limiter → String → String → String → ℕ → Limits × Limiter
unfolding is_circuit_broken raw_limits is_huge penalized
get_limits l agent_id resource role now =
    let raw = raw_limits l agent_id resource role in
    let (broken, l') = is_circuit_broken l agent_id now in
    if is_huge raw then (raw, l) else (if broken then penalized raw else raw, l')

-- The bucket that `_get_bucket` builds.
unfoldable pub bucket_for : Limits → ℕ → Bucket
unfolding new_bucket is_huge
bucket_for unlimited now = new_bucket (1000000000000000000 * unit) (1000000000000000000 * 3000) now
bucket_for (limited capacity refill_rate) now =
    if is_huge (limited capacity refill_rate)
    then new_bucket (1000000000000000000 * unit) (1000000000000000000 * 3000) now
    else new_bucket capacity refill_rate now

unfoldable pub set_bucket : String → String → Bucket → Limiter → Limiter
set_bucket agent_id resource b l = record l {
  buckets =
      Dict.put agent_id (Dict.put resource b (get_or (Dict.get agent_id l.buckets) [])) l.buckets;
}

-- `RateLimiter._get_bucket`.
unfoldable pub get_bucket : Limiter → String → String → String → ℕ → Bucket × Limiter
unfolding get_limits bucket_for set_bucket
get_bucket l agent_id resource role now =
    elim (Dict.get resource (get_or (Dict.get agent_id l.buckets) [])) [
      | some b ↦ (b, l)
      | none ↦
          let (limits, l') = get_limits l agent_id resource role now in
          let b = bucket_for limits now in (b, set_bucket agent_id resource b l')
    ]

-- The answer of `check`: the root role is always allowed, to an infinite depth.
pub data Answer : Type 0 where
  unbounded : Answer
  answered : Result → Answer

-- `RateLimiter.check`.
unfoldable pub check : Limiter → String → String → String → ℕ → ℕ → Answer × Limiter
unfolding get_bucket consume set_bucket
check l agent_id resource role amount now =
    if role == "root"
    then (unbounded, l)
    else let (b, l1) = get_bucket l agent_id resource role now in
      let (r, b') = consume b amount now in (answered r, set_bucket agent_id resource b' l1)

-- A value of `limits` in `configure`: a number, or a dict with its own rate.
pub data Setting : Type 0 where
  plain : ℕ → Setting
  detailed : Option ℕ → Option ℕ → Setting

unfoldable pub parse_setting : Setting → Limits
parse_setting (plain n) = per_minute n
parse_setting (detailed capacity refill_rate) =
    let n = get_or capacity 10 in limited (n * unit) (get_or refill_rate (n * 50))

unfoldable pub parse_settings : Dict Setting → Dict Limits
unfolding parse_setting
parse_settings [] = []
parse_settings ((resource, s) ∷ d) = (resource, parse_setting s) ∷ parse_settings d

-- `RateLimiter.configure`: new limits of a role invalidate all buckets.
unfoldable pub configure : Limiter → String → Dict Setting → Limiter
unfolding parse_settings
configure l target limits =
    let parsed = parse_settings limits in
    if is_some (Dict.get target role_limits)
    then record l { role_overrides = Dict.put target parsed l.role_overrides; buckets = [] }
    else record l {
      agent_overrides = Dict.put target parsed l.agent_overrides;
      buckets = Dict.remove target l.buckets;
    }

-- `RateLimiter.clear_circuit_break`.
unfoldable pub clear_circuit_break : Limiter → String → Limiter
clear_circuit_break l agent_id = record l {
  circuit_broken = Dict.remove agent_id l.circuit_broken;
  buckets = Dict.remove agent_id l.buckets;
}

abbrev review_fields : String → String → ℕ → List (String × Json)
review_fields agent_id reason duration =
    ("agent_id", text agent_id)
    ∷ ("reason", text reason)
    ∷ ("duration_seconds", number duration)
    ∷ ("decision_type", text "circuit_break_review")
    ∷ ("options", texts ("restore" ∷ "terminate" ∷ []))
    ∷ []

unfoldable pub break_event : String → String → ℕ → Event
break_event agent_id reason duration = record {
  event_type = "security.circuit_break";
  source_id = "system";
  payload =
      object_of (("penalty", text "10pct_rate_limits") ∷ review_fields agent_id reason duration);
}

-- The decision prompt for root; the bus makes it a message of type "data".
unfoldable pub ask_root : String → String → ℕ → String → ℕ → Bus → Bus
unfolding send new_message
ask_root agent_id reason duration msg_id wall b = send b (
    new_message msg_id "system" "root" (object_of (review_fields agent_id reason duration))
      "decision" none none wall)

-- `RateLimiter.circuit_break`, with the monotonic clock in milliseconds, the duration in seconds, the
-- wall clock and the identifier of the message.
unfoldable pub circuit_break : Limiter → String → String → ℕ → ℕ → ℕ → String → Limiter
unfolding suspend break_event ask_root
circuit_break l agent_id reason duration now wall msg_id = record l {
  circuit_broken = Dict.put agent_id (now + duration * 1000) l.circuit_broken;
  buckets = Dict.remove agent_id l.buckets;
  registry = elim l.registry [ none ↦ none | some r ↦ some (suspend r agent_id) ];
  events = emit (break_event agent_id reason duration) l.events;
  bus = elim l.bus [
    | none ↦ none
    | some b ↦ some (ask_root agent_id reason duration msg_id wall b)
  ];
}

-- The entry of one resource in `get_status`; the milliseconds to the full bucket are
-- `missing / refill_rate`, before they are rounded.
pub data Level : Type 0 where
  no_limit : Level
  level : (bucket_depth capacity refill_rate missing : ℕ) → Level

unfoldable pub level_of : Bucket → ℕ → Level
unfolding depth
level_of b now =
    let (d, b') = depth b now in
    if leb (100000000000000000 * unit) b.capacity
    then no_limit
    else level d b.capacity b.refill_rate (b.capacity - d)

unfoldable pub levels : Limiter → String → String → ℕ → List String → Dict Level × Limiter
unfolding get_bucket level_of depth set_bucket
levels l agent_id role now [] = ([], l)
levels l agent_id role now (resource ∷ rest) =
    let (b, l1) = get_bucket l agent_id resource role now in
    let (d, b') = depth b now in
    let (more, l2) = levels (set_bucket agent_id resource b' l1) agent_id role now rest in
    ((resource, level_of b now) ∷ more, l2)

-- `RateLimiter.get_status`: whether the agent is penalized, and its levels.
unfoldable pub get_status : Limiter → String → String → ℕ → (Bool × Dict Level) × Limiter
unfolding levels is_circuit_broken
get_status l agent_id role now =
    let (entries, l1) =
      levels l agent_id role now
        ("tokens_in" ∷ "shell_calls" ∷ "api_calls" ∷ "task_submissions" ∷ []) in
    let (broken, l2) = is_circuit_broken l1 agent_id now in ((broken, entries), l2)

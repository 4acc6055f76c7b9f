-- ===== src/RateLimit/Examples.antt =====
-- The theorems on buckets and limits at concrete values.
use hollow_agent_os.Base.{ℕ, ◌+◌, ◌-◌, ◌*◌, ◌/◌, ◌≤◌, max, ◌≡◌, refl, none, List, [], ◌∷◌, arith}
use hollow_agent_os.Dict
use hollow_agent_os.RateLimit.Tokens.{Bucket, drain}
use hollow_agent_os.RateLimit.Window.{drain-le}
use hollow_agent_os.RateLimit.{
  Limiter, unit, check, get_bucket, circuit_break, raw_limits, override, is_huge,
}
use hollow_agent_os.RateLimit.Penalty.{penalty_outlasts}
use hollow_agent_os.RateLimit.Held.{Use, checks, asks, uses}

-- Two tokens in a minute, one of them left.
abbrev bucket : Bucket
bucket = record { capacity = 2 * unit; refill_rate = 100; current = unit; last_refill = 1000 }

abbrev calls : List (ℕ × ℕ)
calls = (unit, 1000) ∷ (unit, 2000) ∷ (unit, 40000) ∷ []

drain-le_example :
    let (granted, b') = drain bucket calls in
    (granted + b'.current
      ≤ bucket.current + (b'.last_refill - bucket.last_refill) * bucket.refill_rate)
    × (b'.current ≤ bucket.capacity)
    × (bucket.last_refill ≤ b'.last_refill)
drain-le_example =
    drain-le bucket calls (omega arith, (omega arith, (omega arith, tt))) (omega arith)

abbrev limiter : Limiter
limiter = record {
  buckets = [];
  agent_overrides = [];
  role_overrides = [];
  circuit_broken = [];
  registry = none;
  events = none;
  bus = none;
}

abbrev between : List Use
between =
    checks "scout" "shell_calls" "worker" unit 400000
    ∷ checks "coder" "api_calls" "coder" unit 500000
    ∷ asks "scout" "worker" 600000
    ∷ []

penalty_outlasts_example :
    let l1 = circuit_break limiter "scout" "anomaly" 300 1000 5 "m1" in
    let l2 = (check l1 "scout" "shell_calls" "worker" unit 2000).1 in
    let b = (get_bucket (uses l2 between) "scout" "shell_calls" "worker" 999999).0 in
    (b.capacity ≡ max unit (60 * unit / 10)) × (b.refill_rate ≡ max 3 (3000 / 10))
unfolding raw_limits override Dict.get is_huge
penalty_outlasts_example =
    penalty_outlasts limiter "scout" "shell_calls" "worker" "anomaly" "m1" (60 * unit) 3000 300 unit
      1000 2000 999999 5 between refl refl refl (omega arith)

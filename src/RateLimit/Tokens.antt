-- ===== src/RateLimit/Tokens.antt =====
-- agents/ratelimit.py: the token bucket. A clock reading is in milliseconds, an amount in parts of
-- 1/3,000,000 token, and a refill rate in parts for a millisecond, so that the default limits and
-- the tenth of them that is the penalty are whole numbers.
use hollow_agent_os.Base.{
  ℕ, ◌+◌, ◌-◌, ◌*◌, ◌/◌, min, Bool, true, false, List, [], ◌∷◌, leb, ltb, if◌then◌else◌,
}

-- `RateLimitResult`.
pub record Result : Type 0 where
  pub allowed : Bool
  pub wait_ms : ℕ
  pub bucket_depth : ℕ

-- `TokenBucket`.
pub record Bucket : Type 0 where
  pub capacity : ℕ
  pub refill_rate : ℕ
  pub current : ℕ
  pub last_refill : ℕ

-- `TokenBucket.__init__`: the bucket starts full.
unfoldable pub new_bucket : ℕ → ℕ → ℕ → Bucket
new_bucket capacity refill_rate now = record {
  capacity = capacity;
  refill_rate = refill_rate;
  current = capacity;
  last_refill = now;
}

-- `TokenBucket._refill`; the clock is monotonic.
unfoldable pub refill : Bucket → ℕ → Bucket
refill b now = record b {
  current = min b.capacity (b.current + (now - b.last_refill) * b.refill_rate);
  last_refill = now;
}

-- `math.ceil(needed / self.refill_rate * 1000)`, or 999,999 where nothing is refilled.
unfoldable pub wait_for : ℕ → ℕ → ℕ
wait_for needed rate = if ltb 0 rate then (needed + (rate - 1)) / rate else 999999

-- `TokenBucket.consume`, after the refill.
unfoldable pub take_from : Bucket → ℕ → Result × Bucket
unfolding wait_for
take_from b n =
    if leb n b.current
    then (
      record { allowed = true; wait_ms = 0; bucket_depth = b.current - n },
      record b { current = b.current - n },
    )
    else (
      record {
        allowed = false;
        wait_ms = wait_for (n - b.current) b.refill_rate;
        bucket_depth = b.current;
      },
      b,
    )

unfoldable pub consume : Bucket → ℕ → ℕ → Result × Bucket
unfolding refill take_from
consume b n now = take_from (refill b now) n

-- `TokenBucket.depth`.
unfoldable pub depth : Bucket → ℕ → ℕ × Bucket
unfolding refill
depth b now = ((refill b now).current, refill b now)

-- A sequence of calls of `consume`, each an amount and a time: what was granted, and the bucket.
unfoldable pub drain : Bucket → List (ℕ × ℕ) → ℕ × Bucket
unfolding consume
drain b [] = (0, b)
drain b ((n, now) ∷ calls) =
    let (r, b1) = consume b n now in
    let (granted, b2) = drain b1 calls in ((if r.allowed then n else 0) + granted, b2)

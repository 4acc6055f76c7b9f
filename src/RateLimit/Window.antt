-- ===== src/RateLimit/Window.antt =====
-- agents/ratelimit.py: what a bucket grants over a window of time.
use hollow_agent_os.Base.{
  ℕ, ◌+◌, ◌-◌, ◌*◌, ◌≤◌, min, ◌≡◌, refl, sym, ap, subst, ◌∙◌, if_ind, List, [], ◌∷◌, arith, leb,
  if◌then◌else◌,
}
use native.Mathlib.Nat.{add-mul}
use hollow_agent_os.RateLimit.Tokens.{Bucket, Result, refill, take_from, consume, drain}

-- The clock readings of the calls are monotonic.
abbrev pub InOrder : ℕ → List (ℕ × ℕ) → Type 0
InOrder last [] = Unit
InOrder last ((n, now) ∷ calls) = (last ≤ now) × InOrder now calls

-- What one call grants and leaves, against what the time since the last one refilled.
abbrev Step : Bucket → ℕ → ℕ → Result × Bucket → Type 0
Step b n now (r, b') =
    ((if r.allowed then n else 0) + b'.current ≤ b.current + (now - b.last_refill) * b.refill_rate)
    × (b'.refill_rate ≡ b.refill_rate)
    × (b'.last_refill ≡ now)
    × (b'.current ≤ b.capacity)
    × (b'.capacity ≡ b.capacity)

consume-Step : (b : Bucket) (n now : ℕ) → Step b n now (consume b n now)
unfolding consume take_from refill
consume-Step b n now =
    let full = min b.capacity (b.current + (now - b.last_refill) * b.refill_rate) in
    if_ind (λ (r : Result × Bucket). Step b n now r) (leb n full) _ _
      (λ enough. (ground arith, refl, refl, ground arith, refl))
      (λ short. (ground arith, refl, refl, ground arith, refl))

span :
    (last now end rate : ℕ)
    → last ≤ now
    → now ≤ end
    → (now - last) * rate + (end - now) * rate ≡ (end - last) * rate
span last now end rate h g =
    sym (add-mul (now - last) (end - now) rate) ∙ ap (λ k. k * rate) (omega arith)

-- Over any sequence of calls a bucket grants at most what it held and what the time between refilled,
-- and it never holds more than its capacity.
pub drain-le :
    (b : Bucket) (calls : List (ℕ × ℕ))
    → InOrder b.last_refill calls
    → b.current ≤ b.capacity
    → let (granted, b') = drain b calls in
      (granted + b'.current ≤ b.current + (b'.last_refill - b.last_refill) * b.refill_rate)
      × (b'.current ≤ b.capacity)
      × (b.last_refill ≤ b'.last_refill)
unfolding drain
drain-le b [] h c = (omega arith, c, omega arith)
drain-le b ((n, now) ∷ calls) (before, h) c =
    let (r, b1) = consume b n now in
    let (grants, rate, at, held, cap) = consume-Step b n now in
    let (rest, held', later) =
      drain-le b1 calls (subst (λ t. InOrder t calls) (sym at) h) (omega arith) in
    let end = (drain b1 calls).1.last_refill in
    let same : (end - b1.last_refill) * b1.refill_rate ≡ (end - now) * b.refill_rate =
      ap (λ t. (end - t) * b1.refill_rate) at ∙ ap (λ k. (end - now) * k) rate in
    (
      omega (arith, span b.last_refill now end b.refill_rate before (omega arith)),
      omega arith,
      omega arith,
    )

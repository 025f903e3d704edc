-- ===== src/RateLimiter/Budget.antt =====
-- The budget of the token bucket of ratelimiter.redis.go.
use native.Mathlib.Nat.{add-mul, suc-mul, mul-le-mul_right}
use grnoti.Prelude.{
  ℕ, suc, ◌+◌, ◌-◌, ◌*◌, ◌≡◌, ◌≤◌, ◌<◌, refl, ap, ◌∙◌, Bool, true, false, Option, none, some, List,
  [], ◌∷◌, length, arith, leb, if_cases, if_both,
}
use grnoti.RateLimiter.Redis.{
  million, key_ttl, Bucket, unexpired, refilled, taken, token_bucket_script,
}

abbrev pub one_if : Bool → ℕ
one_if true = 1
one_if false = 0

-- How many of the calls at these times the script allows.
abbrev pub grants : (ℕ → ℕ) → ℕ → ℕ → List ℕ → Option Bucket → ℕ
grants stored capacity rate [] bucket = 0
grants stored capacity rate (now ∷ times) bucket =
    let r = token_bucket_script stored capacity rate now bucket in
    one_if r.0 + grants stored capacity rate times (some r.1)

-- The times do not go back, and no two neighbours are so far apart that the key expires.
abbrev pub Steady : ℕ → List ℕ → Type 0
Steady previous [] = Unit
Steady previous (now ∷ times) = (previous ≤ now) × (now < previous + key_ttl) × Steady now times

abbrev pub last_of : ℕ → List ℕ → ℕ
last_of previous [] = previous
last_of previous (now ∷ times) = last_of now times

times_lem : (t n rate k : ℕ) → (t + n * k) * rate ≡ t * rate + n * k * rate
times_lem t n rate k = add-mul t (n * k) rate

more_lem : (t n rate k : ℕ) → (t + suc n * k) * rate ≡ (t + n * k) * rate + k * rate
more_lem t n rate k = ap (λ x. x * rate) (regroup t n k) ∙ add-mul (t + n * k) k rate
  where
    regroup : (t n k : ℕ) → t + suc n * k ≡ (t + n * k) + k
    regroup t n k = omega (arith, suc-mul n k)

module _ (stored : ℕ → ℕ) (slack capacity rate : ℕ) (low : (t : ℕ) → t ≤ stored t + slack)
    (high : (t : ℕ) → stored t ≤ t + slack) where
  taken_lem :
      (now tokens : ℕ)
      → one_if (taken stored now tokens).0 * million + (taken stored now tokens).1.tokens ≡ tokens
  taken_lem now tokens =
      if_cases (λ (x : Bool × Bucket). one_if x.0 * million + x.1.tokens ≡ tokens)
        (leb million tokens) _ _ (λ enough. ground arith) (λ short. omega arith)

  taken_time :
      (now tokens : ℕ)
      → ((taken stored now tokens).1.updated_at ≡ stored now)
        × ((taken stored now tokens).1.expires_at ≡ now + key_ttl)
  taken_time now tokens =
      if_both
        (λ (x : Bool × Bucket). (x.1.updated_at ≡ stored now) × (x.1.expires_at ≡ now + key_ttl))
        (leb million tokens) _ _ (refl, refl) (refl, refl)

  refilled_lem :
      (now : ℕ) (b : Bucket)
      → b.updated_at ≤ now + slack
      → refilled capacity rate now (some b) + b.updated_at * rate
        ≤ b.tokens + (stored now + (slack + slack)) * rate
  refilled_lem now b recent = omega (
    arith,
    add-mul (now - b.updated_at) b.updated_at rate,
    mul-le-mul_right rate (bound now b recent),
  )
    where
      bound :
          (now : ℕ) (b : Bucket)
          → b.updated_at ≤ now + slack
          → (now - b.updated_at) + b.updated_at ≤ stored now + (slack + slack)
      bound now b recent = omega (arith, low now, recent)

  -- A bucket that a call left at the time before.
  record LeftAt (previous : ℕ) (b : Bucket) : Type 0 where
    at : b.updated_at ≡ stored previous
    lives : b.expires_at ≡ previous + key_ttl

  unexpired_lem : (now : ℕ) (b : Bucket) → now < b.expires_at → unexpired now (some b) ≡ some b
  unexpired_lem now b alive =
      if_cases (λ x. x ≡ some b) (leb b.expires_at now) _ _ (λ gone. ground (arith, gone, alive))
        (λ here. refl)

  script : ℕ → Option Bucket → Bool × Bucket
  script now bucket = token_bucket_script stored capacity rate now bucket

  taken-LeftAt : (now tokens : ℕ) → LeftAt now (taken stored now tokens).1
  taken-LeftAt now tokens = let v = taken_time now tokens in record { at = v.0; lives = v.1 }

  -- One call: what it grants and leaves is paid by what it found and by the time.
  script_lem :
      (previous now : ℕ) (b : Bucket)
      → LeftAt previous b
      → previous ≤ now
      → now < previous + key_ttl
      → let r = token_bucket_script stored capacity rate now (some b) in
        (one_if r.0 * million + r.1.tokens + b.updated_at * rate
          ≤ b.tokens + (stored now + (slack + slack)) * rate)
        × LeftAt now r.1
  unfolding token_bucket_script
  script_lem previous now b left order near =
      rw (unexpired_lem now b (omega (arith, left.lives, near))) (
        omega (
          arith,
          taken_lem now (refilled capacity rate now (some b)),
          refilled_lem now b (omega (arith, left.at, high previous, order)),
        ),
        taken-LeftAt now (refilled capacity rate now (some b)),
      )

  grants_lem :
      (previous : ℕ) (b : Bucket) (times : List ℕ)
      → LeftAt previous b
      → Steady previous times
      → grants stored capacity rate times (some b) * million + b.updated_at * rate
        ≤ b.tokens + (stored (last_of previous times) + length times * (slack + slack)) * rate
  grants_lem previous b [] left steady =
      omega (arith, ap (λ x. x * rate) left.at, times_lem (stored previous) 0 rate (slack + slack))
  grants_lem previous b (now ∷ times) left steady =
      let r = token_bucket_script stored capacity rate now (some b) in
      let one = script_lem previous now b left steady.0 steady.1 in
      let rest = grants_lem now r.1 times one.1 steady.2 in
      omega (
        arith,
        one.0,
        rest,
        add-mul (stored now) (slack + slack) rate,
        ap (λ x. x * rate) one.1.at,
        more_lem (stored (last_of now times)) (length times) rate (slack + slack),
      )

  -- A rate limiter of a key lets through at most its burst, and its rate times the time from the
  -- first call to the last, whatever the calls in between, of any number of processes. Each call
  -- adds the time that the stored updated_at may be off, on both sides. Time does not run back, and
  -- the key does not expire between two calls. (In millionths of a token and microseconds.)
  pub grants_bounded :
      (first : ℕ) (times : List ℕ)
      → Steady first times
      → grants stored capacity rate (first ∷ times) none * million + first * rate
        ≤ capacity * million + (last_of first times + suc (length times) * (slack + slack)) * rate
  unfolding token_bucket_script
  grants_bounded first times steady =
      let r = taken stored first (capacity * million) in
      let left = taken-LeftAt first (capacity * million) in
      let rest = grants_lem first r.1 times left steady in
      omega (
        arith,
        taken_lem first (capacity * million),
        rest,
        ap (λ x. x * rate) left.at,
        mul-le-mul_right rate (low first),
        add-mul (stored first) slack rate,
        mul-le-mul_right rate (high (last_of first times)),
        add-mul (last_of first times) slack rate,
        times_lem (stored (last_of first times)) (length times) rate (slack + slack),
        times_lem (last_of first times) (length times) rate (slack + slack),
        more_lem (last_of first times) (length times) rate (slack + slack),
        add-mul slack slack rate,
      )

-- ===== src/Backoff/Bounds.antt =====
-- The range of FullJitterBackoff in retrystrategy.go, against min(max, base * 2^attempt).
use Prim.Native.Nat.{min}
use native.Mathlib.Decide.{dec_lt}
use native.Mathlib.Nat.{one-le-pow, pow-le-pow_right}
use grnoti.Prelude.{
  ℕ, ◌+◌, ◌*◌, ◌%◌, ◌^◌, ◌≡◌, ◌≤◌, ◌<◌, arith, ltb, lt→ltb, ltb→lt, Bool-cases, inl, inr,
  if◌then◌else◌,
}
use grnoti.Prelude.Int.{pos}
use grnoti.Backoff.{scaled, largest_sleep, ceiling_of, replaces, full_jitter_backoff}

-- What rand.Int63n documents: a value below its argument.
abbrev pub IsInt63n : (ℕ → ℕ) → Type 0
IsInt63n int63n = (n : ℕ) → 0 < n → int63n n < n

-- The choice of the largest sleep, from the exact product.
abbrev pick : ℕ → ℕ → ℕ
pick product ceiling = if replaces (product % 2 ^ 64) ceiling then product % 2 ^ 64 else ceiling

pick-eq-min :
    (product ceiling : ℕ)
    → 0 < product
    → product < 2 ^ 63
    → pick product ceiling ≡ min ceiling product
pick-eq-min product ceiling p q = ground arith

-- Where the product overflows, a wrapped value may be taken for the ceiling, but never a larger one.
pick-le :
    (product ceiling : ℕ)
    → ceiling ≤ 2 ^ 62
    → 0 < product
    → (pick product ceiling ≤ ceiling) × (pick product ceiling ≤ product)
pick-le product ceiling small p = ground arith

product_pos : (base attempt : ℕ) → 0 < base → 0 < base * 2 ^ attempt
product_pos base attempt p = grind (arith, one-le-pow attempt 2 (omega arith))

product_large : (base attempt : ℕ) → 0 < base → 62 ≤ attempt → 2 ^ 62 ≤ base * 2 ^ attempt
product_large base attempt p q = grind (arith, pow-le-pow_right {n = 2} (omega arith) q)

-- Without overflow of the 64-bit product, the largest sleep is the documented formula.
pub largest_sleep-eq-min :
    (base ceiling attempt : ℕ)
    → 0 < base
    → attempt < 62
    → base * 2 ^ attempt < 2 ^ 63
    → largest_sleep base ceiling (pos attempt) ≡ min ceiling (base * 2 ^ attempt)
unfolding largest_sleep
largest_sleep-eq-min base ceiling attempt p q fits =
    rw (lt→ltb attempt 62 q)
      (pick-eq-min (base * 2 ^ attempt) ceiling (product_pos base attempt p) fits)

largest_sleep-le :
    (base ceiling attempt : ℕ)
    → ceiling ≤ 2 ^ 62
    → 0 < base
    → (largest_sleep base ceiling (pos attempt) ≤ ceiling)
      × (largest_sleep base ceiling (pos attempt) ≤ base * 2 ^ attempt)
unfolding largest_sleep
largest_sleep-le base ceiling attempt small p = elim (dec_lt attempt 62) [
  | yes q ↦
      rw (lt→ltb attempt 62 q)
        (pick-le (base * 2 ^ attempt) ceiling small (product_pos base attempt p))
  | no q ↦ elim (Bool-cases (ltb attempt 62)) [
    | inl r ↦ absurd (q (ltb→lt attempt 62 r))
    | inr r ↦ rw r (omega (arith, product_large base attempt p (omega arith)))
  ]
]

-- For a random source as documented, a positive base and a maximum of at most 2^62 ns, the
-- backoff of attempt n is at most the maximum (30 s if none is given) and at most base * 2^n,
-- whether or not the product overflows.
pub full_jitter_backoff-le :
    (int63n : ℕ → ℕ) (base max attempt : ℕ)
    → IsInt63n int63n
    → 0 < base
    → max ≤ 2 ^ 62
    → (full_jitter_backoff int63n base max (pos attempt) ≤ ceiling_of max)
      × (full_jitter_backoff int63n base max (pos attempt) ≤ base * 2 ^ attempt)
unfolding full_jitter_backoff
full_jitter_backoff-le int63n base max attempt below p small =
    let ceiling = ceiling_of max in
    let sleep = largest_sleep base ceiling (pos attempt) in
    ground (
      arith,
      below (sleep + 1),
      largest_sleep-le base ceiling attempt,
      (let c : ceiling ≤ 2 ^ 62 = ground arith in c),
    )

-- Where the product base * 2^n passes 2^64 and its low 64 bits are positive and below the ceiling,
-- the largest sleep is those low bits, and so below the documented min(ceiling, base * 2^n).
pub overflow_shrinks :
    (base ceiling attempt : ℕ)
    → attempt < 62
    → 2 ^ 64 ≤ base * 2 ^ attempt
    → 0 < scaled base attempt
    → scaled base attempt < ceiling
    → ceiling < 2 ^ 63
    → (largest_sleep base ceiling (pos attempt) ≡ scaled base attempt)
      × (largest_sleep base ceiling (pos attempt) < min ceiling (base * 2 ^ attempt))
unfolding largest_sleep
overflow_shrinks base ceiling attempt q over some_bits below small =
    rw (lt→ltb attempt 62 q) (ground arith)

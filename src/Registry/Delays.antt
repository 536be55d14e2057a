-- ===== src/Registry/Delays.antt =====
-- The delay before the transport's next attempt (core/registry.ts, `nextAttemptDelayMs`).
use native.Mathlib.Nat.{pow-le-pow_right, mul-le-mul_left}
use open_mercato_durable.Common.{
  ℕ, ◌*◌, ◌-◌, ◌^◌, ◌≤◌, ◌<◌, ◌≡◌, refl, ◌⊎◌, inl, inr, min, Option, none, some, if◌then◌else◌, leb,
  ltb, Bool-cases, arith,
}
use open_mercato_durable.Types.{RetrySettings, Backoff, BackoffType}

-- `2 ** Math.max(0, attempt - 1)`: the truncated subtraction is that maximum.
unfoldable pub raw_delay : Backoff → ℕ → ℕ
raw_delay b attempt = elim b.type [
  | BackoffType.exponential ↦ b.delay_ms * 2 ^ (attempt - 1)
  | BackoffType.fixed ↦ b.delay_ms
]

unfoldable pub capped_delay : Backoff → ℕ → ℕ
unfolding raw_delay
capped_delay b attempt = min (raw_delay b attempt) b.max_delay_ms

unfoldable pub next_attempt_delay_ms : RetrySettings → ℕ → Option ℕ
unfolding capped_delay
next_attempt_delay_ms retry attempt =
    if leb retry.attempts attempt then none else some (capped_delay retry.backoff attempt)

pub BackoffType-cases : (t : BackoffType) → (t ≡ BackoffType.exponential) ⊎ (t ≡ BackoffType.fixed)
BackoffType-cases BackoffType.exponential = inl refl
BackoffType-cases BackoffType.fixed = inr refl

raw_delay_mono : (b : Backoff) (m n : ℕ) → m ≤ n → raw_delay b m ≤ raw_delay b n
unfolding raw_delay
raw_delay_mono b m n h = elim (BackoffType-cases b.type) [
  | inl e ↦
      rw (e, raw_delay) (mul-le-mul_left b.delay_ms (pow-le-pow_right (omega arith) (omega arith)))
  | inr e ↦ rw (e, raw_delay) (omega arith)
]

capped_delay_mono : (b : Backoff) (m n : ℕ) → m ≤ n → capped_delay b m ≤ capped_delay b n
unfolding capped_delay
capped_delay_mono b m n h = omega (arith, raw_delay_mono b m n h)

-- While attempts are left after the n-th, there is a next delay after it and after every attempt
-- before it, which never shrinks from the one to the other and never passes the cap; with none left
-- there is no next delay.
pub next_attempt_delay_ms-bounds :
    (retry : RetrySettings) (m n : ℕ)
    → m ≤ n
    → ((n < retry.attempts)
        × (d : ℕ) × (e : ℕ) × (next_attempt_delay_ms retry m ≡ some d)
        × (next_attempt_delay_ms retry n ≡ some e)
        × (d ≤ e)
        × (e ≤ retry.backoff.max_delay_ms))
      ⊎ ((retry.attempts ≤ n) × (next_attempt_delay_ms retry n ≡ none))
next_attempt_delay_ms-bounds retry m n h = elim (Bool-cases (ltb n retry.attempts)) [
  | inl left ↦ inl (
    ground arith,
    capped_delay retry.backoff m,
    capped_delay retry.backoff n,
    unfold next_attempt_delay_ms in ground arith,
    unfold next_attempt_delay_ms in ground arith,
    capped_delay_mono retry.backoff m n h,
    unfold capped_delay in omega arith,
  )
  | inr spent ↦ inr (ground arith, unfold next_attempt_delay_ms in ground arith)
]

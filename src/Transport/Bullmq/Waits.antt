-- ===== src/Transport/Bullmq/Waits.antt =====
-- How long BullMQ waits before a retry, beside what the row says
-- (packages/durable-work/src/transport/bullmq.ts, `backoffFor`; core/registry.ts, `nextAttemptDelayMs`).
use open_mercato_durable.Common.{
  min, leb, Bool-cases, Option, ℕ, ◌-◌, ◌*◌, ◌^◌, ◌≤◌, ◌<◌, ◌≡◌, inl, inr, ◌⊎◌, some, arith,
}
use open_mercato_durable.Types.{Delivery, RetrySettings, Backoff, BackoffType}
use open_mercato_durable.Registry.Delays.{
  BackoffType-cases, next_attempt_delay_ms, capped_delay, raw_delay,
}
use open_mercato_durable.Transport.Bullmq.Adapter.{BullBackoff, backoff_of, add_options}

-- BullMQ's own schedule, by the number of the attempt that failed: a fixed delay, or one that doubles
-- from attempt to attempt.
pub record Schedule : Type 0 where
  pub wait : BullBackoff → ℕ → ℕ
  pub wait_fixed :
      (delay attempt : ℕ)
      → wait (record { type = BackoffType.fixed; delay = delay }) attempt ≡ delay
  pub wait_exponential :
      (delay attempt : ℕ)
      → wait (record { type = BackoffType.exponential; delay = delay }) attempt
        ≡ delay * 2 ^ (attempt - 1)

within : (raw cap waited : ℕ) → waited ≡ raw → (waited ≡ min raw cap) ⊎ (min raw cap ≡ cap)
within raw cap waited e = elim (Bool-cases (leb raw cap)) [
  | inl small ↦ inl (ground arith)
  | inr large ↦ inr (ground arith)
]

module _ (bull : Schedule) where
  wait-raw_delay :
      (b : Backoff) (attempt : ℕ)
      → bull.wait (record { type = b.type; delay = b.delay_ms }) attempt ≡ raw_delay b attempt
  unfolding raw_delay
  wait-raw_delay b attempt = elim (BackoffType-cases b.type) [
    | inl grows ↦ rw (grows, raw_delay) (bull.wait_exponential b.delay_ms attempt)
    | inr fixed ↦ rw (fixed, raw_delay) (bull.wait_fixed b.delay_ms attempt)
  ]

  -- BullMQ never delivers a retry before the time that is written to the row as the next attempt's,
  -- and at exactly that time as long as the kind's cap is not reached.
  pub add_options-wait :
      (d : Delivery) (r : RetrySettings) (delay_ms : Option ℕ) (attempt : ℕ)
      → attempt < r.attempts
      → (ms : ℕ) × (next_attempt_delay_ms r attempt ≡ some ms)
        × (ms ≤ bull.wait (add_options d r delay_ms).backoff attempt)
        × ((bull.wait (add_options d r delay_ms).backoff attempt ≡ ms)
            ⊎ (ms ≡ r.backoff.max_delay_ms))
  unfolding add_options next_attempt_delay_ms capped_delay
  add_options-wait d r delay_ms attempt left =
      let waits = wait-raw_delay r.backoff attempt in
      (
        capped_delay r.backoff attempt,
        ground (arith, left),
        omega (arith, waits),
        within (raw_delay r.backoff attempt) r.backoff.max_delay_ms
            (bull.wait (backoff_of r) attempt) waits,
      )

-- ===== src/Transport/PgBoss/Options.antt =====
-- What pg-boss is told in whole seconds (packages/durable-work/src/transport/pgboss.ts, `enqueue`).
use open_mercato_durable.Common.{
  ℕ, ◌+◌, ◌*◌, ◌≤◌, ◌<◌, ◌≡◌, inl, inr, max, Bool, some, coalesce, Bool-cases, arith,
}
use open_mercato_durable.Types.{Delivery, RetrySettings}
use open_mercato_durable.Transport.PgBoss.Adapter.{is_exponential, ceil_seconds, send_options}

-- In seconds a delay is never shorter than asked, and longer by less than one; the delay of a retry
-- is at least one second, and from there on within half a second of the kind's; and the cap that
-- travels with it, if one does, is no smaller, where the kind's cap is no smaller than its delay.
send_options-bounds :
    (d : Delivery) (r : RetrySettings) (ms : ℕ) (tx : Bool)
    → 0 < ms
    → r.backoff.delay_ms ≤ r.backoff.max_delay_ms
    → let o = send_options d r (some ms) tx in
      (n : ℕ) × (o.start_after ≡ some n)
      × (ms ≤ n * 1000)
      × (n * 1000 < ms + 1000)
      × (1 ≤ o.retry_delay)
      × (r.backoff.delay_ms < o.retry_delay * 1000 + 500)
      × (o.retry_delay * 1000 ≤ max 1000 (r.backoff.delay_ms + 500))
      × (o.retry_delay ≤ coalesce o.retry_delay_max o.retry_delay)
unfolding send_options
send_options-bounds d r ms tx later capped = (
  ceil_seconds ms,
  ground arith,
  omega arith,
  omega arith,
  omega arith,
  omega arith,
  omega arith,
  elim (Bool-cases (is_exponential r.backoff.type)) [
    | inl grows ↦ rw grows (omega arith)
    | inr fixed ↦ rw fixed (omega arith)
  ],
)

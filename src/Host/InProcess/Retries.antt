-- ===== src/Host/InProcess/Retries.antt =====
-- How long a retry waits (om/in-process-worker.ts, `scheduleRetry`).
use native.Mathlib.Nat.{pow-le-pow_right}
use open_mercato_durable.Common.{ℕ, ◌≤◌, ◌-◌, ◌^◌, arith}
use open_mercato_durable.Host.InProcess.{start_retry_delay}

powers : (i j : ℕ) → i ≤ j → 2 ^ i ≤ 2 ^ j
powers i j h = pow-le-pow_right (omega arith) h

-- The waits before the retries never shrink, and lie between five seconds and a minute.
start_retry_delay_bounds :
    (m n : ℕ)
    → m ≤ n
    → (5000 ≤ start_retry_delay m)
      × (start_retry_delay m ≤ start_retry_delay n)
      × (start_retry_delay n ≤ 60000)
unfolding start_retry_delay
start_retry_delay_bounds m n h =
    let base : 2 ^ 0 ≤ 2 ^ (m - 1) = powers 0 (m - 1) (omega arith) in
    let grows : 2 ^ (m - 1) ≤ 2 ^ (n - 1) = powers (m - 1) (n - 1) (omega arith) in
    (omega arith, omega arith, omega arith)

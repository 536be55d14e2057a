-- ===== src/Host/InProcess.antt =====
-- The worker in the app's server process (packages/durable-work/src/om/in-process-worker.ts). The
-- module's variables are a record; what a promise or a timer does later is an event. Whether a
-- start succeeds (the container, `startWorker`) is told by the event that ends it.
use open_mercato_durable.Common.{
  ℕ, zero, suc, ◌+◌, ◌-◌, ◌*◌, ◌^◌, min, Bool, true, false, ◌||◌, not, Option, none, some, List, [],
  ◌∷◌, ◌++◌, if◌then◌else◌,
}
pub mod Keeps
pub mod Retries

-- `memo` says whether `started` holds a promise. `attempts` are the calls of `attemptStart` that
-- have not ended, by their number, `workers` the workers that were started and `retry_timer` the
-- attempt after which a retry waits, with its delay.
pub record Process : Type 0 where
  pub memo : Bool
  pub attempts : List ℕ
  pub workers : ℕ
  pub retry_timer : Option (ℕ × ℕ)
  pub shutting_down : Bool
  pub signals_bound : Bool

abbrev pub new_process : Process
new_process = record {
  memo = false;
  attempts = [];
  workers = 0;
  retry_timer = none;
  shutting_down = false;
  signals_bound = false;
}

abbrev pub retry_base_ms : ℕ
retry_base_ms = 5000

abbrev pub retry_max_ms : ℕ
retry_max_ms = 60000

unfoldable pub start_retry_delay : ℕ → ℕ
start_retry_delay attempt = min (retry_base_ms * 2 ^ (attempt - 1)) retry_max_ms

abbrev pub begin_attempt : ℕ → Process → Process
begin_attempt attempt p = record p { memo = true; attempts = p.attempts ++ attempt ∷ [] }

-- `startInProcessWorker`, told whether this is a production build.
unfoldable pub start_in_process_worker : Bool → Process → Process
start_in_process_worker building p =
    if building || p.memo then p else begin_attempt 1 (record p { signals_bound = true })

unfoldable pub schedule_retry : ℕ → Process → Process
unfolding start_retry_delay
schedule_retry attempt p = elim p.shutting_down [
  | true ↦ p
  | false ↦ elim p.retry_timer [
    | some t ↦ p
    | none ↦ record p { retry_timer = some (attempt, start_retry_delay attempt) }
  ]
]

-- An attempt by its place, and the others.
unfoldable pub take_attempt : ℕ → List ℕ → Option (ℕ × List ℕ)
take_attempt n [] = none
take_attempt zero (a ∷ as') = some (a, as')
take_attempt (suc n) (a ∷ as') = elim (take_attempt n as') [
  | none ↦ none
  | some (b, rest) ↦ some (b, a ∷ rest)
]

-- The end of `doStart` in `attemptStart`.
unfoldable pub settle_attempt : Bool → ℕ → List ℕ → Process → Process
unfolding schedule_retry
settle_attempt true attempt rest p = record p { attempts = rest; workers = suc p.workers }
settle_attempt false attempt rest p =
    schedule_retry attempt (record p { attempts = rest; memo = false })

unfoldable pub end_attempt : Bool → ℕ → Process → Process
unfolding take_attempt settle_attempt
end_attempt went n p = elim (take_attempt n p.attempts) [
  | none ↦ p
  | some (attempt, rest) ↦ settle_attempt went attempt rest p
]

-- The callback of the timer.
unfoldable pub fire_retry : Process → Process
fire_retry p = elim p.retry_timer [
  | none ↦ p
  | some (attempt, delay) ↦
      if p.shutting_down
      then record p { retry_timer = none }
      else begin_attempt (suc attempt) (record p { retry_timer = none })
]

-- `stopRetrying`, at SIGTERM or SIGINT, which is heard once a start has bound it.
unfoldable pub stop_retrying : Process → Process
stop_retrying p =
    if p.signals_bound then record p { shutting_down = true; retry_timer = none } else p

-- `resetInProcessWorker`; what it forgets goes on.
abbrev pub reset : Process → Process
reset p = record p {
  memo = false;
  retry_timer = none;
  shutting_down = false;
  signals_bound = false;
}

pub data ProcessEvent : Type 0 where
  host_calls : (building : Bool) → ProcessEvent
  attempt_ends : (went : Bool) → (place : ℕ) → ProcessEvent
  timer_fires : ProcessEvent
  signal : ProcessEvent

unfoldable pub react : ProcessEvent → Process → Process
unfolding start_in_process_worker end_attempt fire_retry stop_retrying
react (host_calls building) p = start_in_process_worker building p
react (attempt_ends went n) p = end_attempt went n p
react timer_fires p = fire_retry p
react signal p = stop_retrying p

unfoldable pub react_all : List ProcessEvent → Process → Process
unfolding react
react_all [] p = p
react_all (e ∷ es) p = react_all es (react e p)

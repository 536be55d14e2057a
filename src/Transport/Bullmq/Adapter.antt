-- ===== src/Transport/Bullmq/Adapter.antt =====
-- The BullMQ adapter (packages/durable-work/src/transport/bullmq.ts). BullMQ is code of another
-- package: what the adapter calls is a list, and the state that BullMQ answers with is an argument.
use open_mercato_durable.Common.{
  ℕ, suc, ◌+◌, Bool, true, false, ◌||◌, Option, none, some, List, [], ◌∷◌, ◌==◌, ltb, coalesce,
  if◌then◌else◌,
}
use open_mercato_durable.Types.{Delivery, RetrySettings, BackoffType}
use open_mercato_durable.Worker.Bindings.{QueueBinding}
use open_mercato_durable.Transport.Memory.Entries.{DeliveryState}
use open_mercato_durable.Transport.Memory.Events.{HandlerEnd}

pub record BullBackoff : Type 0 where
  pub type : BackoffType
  pub delay : ℕ

-- The identity of the delivery stands for its text; how long a job is kept is left out.
pub record BullJobOptions : Type 0 where
  pub job_id : Delivery
  pub delay : Option ℕ
  pub attempts : ℕ
  pub backoff : BullBackoff

pub data BullCall : Type 0 where
  open_queue : (name : ℕ) → BullCall
  add_job : (name : ℕ) → Delivery → BullJobOptions → BullCall
  remove_job : (name : ℕ) → Delivery → BullCall
  upsert_job_scheduler : (name id every : ℕ) → Delivery → BullCall
  open_worker : (name concurrency lock_duration : ℕ) → BullCall
  update_data : Delivery → BullCall
  move_to_delayed : (timestamp : ℕ) → BullCall
  close_workers : BullCall
  close_queues : BullCall

pub data BullState : Type 0 where
  waiting waiting_children prioritized delayed active completed failed : BullState
  other : ℕ → BullState

-- `calls` has the latest call first.
pub record BullTransport : Type 0 where
  pub open_queues : List ℕ
  pub is_shut_down : Bool
  pub calls : List BullCall

unfoldable pub backoff_of : RetrySettings → BullBackoff
backoff_of r = record { type = r.backoff.type; delay = r.backoff.delay_ms }

unfoldable pub has_queue : ℕ → List ℕ → Bool
has_queue name [] = false
has_queue name (q ∷ qs) = q == name || has_queue name qs

unfoldable pub queue : ℕ → BullTransport → BullTransport
unfolding has_queue
queue name s =
    if has_queue name s.open_queues
    then s
    else record s { open_queues = name ∷ s.open_queues; calls = open_queue name ∷ s.calls }

abbrev pub tell : BullCall → BullTransport → BullTransport
tell c s = record s { calls = c ∷ s.calls }

-- `delayMs && delayMs > 0 ? delayMs : undefined`.
abbrev pub positive_delay : Option ℕ → Option ℕ
positive_delay none = none
positive_delay (some ms) = if ltb 0 ms then some ms else none

unfoldable pub add_options : Delivery → RetrySettings → Option ℕ → BullJobOptions
unfolding backoff_of
add_options delivery r delay_ms = record {
  job_id = delivery;
  delay = positive_delay delay_ms;
  attempts = r.attempts;
  backoff = backoff_of r;
}

unfoldable pub add_delivery :
    ℕ → Delivery → RetrySettings → Option ℕ → BullTransport → BullTransport
unfolding queue add_options
add_delivery name delivery r delay_ms s =
    tell (add_job name delivery (add_options delivery r delay_ms)) (queue name s)

unfoldable pub remove_delivery : ℕ → Delivery → BullTransport → BullTransport
unfolding queue
remove_delivery name id s = tell (remove_job name id) (queue name s)

-- `getState`, of what `getJob` and the job answer.
abbrev pub delivery_state : Option BullState → DeliveryState
delivery_state none = DeliveryState.unknown
delivery_state (some waiting) = DeliveryState.waiting
delivery_state (some waiting_children) = DeliveryState.waiting
delivery_state (some prioritized) = DeliveryState.waiting
delivery_state (some delayed) = DeliveryState.delayed
delivery_state (some active) = DeliveryState.active
delivery_state (some completed) = DeliveryState.completed
delivery_state (some failed) = DeliveryState.failed
delivery_state (some (other n)) = DeliveryState.unknown

unfoldable pub schedule_tick : ℕ → ℕ → ℕ → BullTransport → BullTransport
unfolding queue
schedule_tick id name every_ms s =
    tell (upsert_job_scheduler name id every_ms (record { job_id = id; seq = 0; redrives = 0 }))
      (queue name s)

abbrev pub bind_worker : QueueBinding → BullTransport → BullTransport
bind_worker b s = tell (open_worker b.queue b.concurrency b.active_timeout_ms) s

abbrev pub close_transport : BullTransport → BullTransport
close_transport s = tell close_queues (tell close_workers (record s { is_shut_down = true }))

-- How the processor of a job ends: BullMQ retries on a throw, but not on these two of its own.
pub data ProcessorEnd : Type 0 where
  resolves throws_delayed throws_unrecoverable rethrows : ProcessorEnd

-- What the handler is told.
abbrev pub attempt_of : ℕ → ℕ
attempt_of attempts_made = suc attempts_made

abbrev pub max_attempts_of : Option ℕ → ℕ
max_attempts_of attempts = coalesce attempts 1

-- Native hand-back: the job keeps its id and its attempts, and its payload moves on.
unfoldable pub move_on : ℕ → List (Delivery × Option ℕ) → BullTransport → BullTransport
move_on now [] s = s
move_on now ((next, delay_ms) ∷ rest) s =
    move_on now rest
      (tell (move_to_delayed (now + coalesce delay_ms 0)) (tell (update_data next) s))

abbrev is_handed_back : List (Delivery × Option ℕ) → Bool
is_handed_back [] = false
is_handed_back (d ∷ ds) = true

unfoldable pub processor :
    ℕ → List (Delivery × Option ℕ) → HandlerEnd → BullTransport → ProcessorEnd × BullTransport
unfolding move_on
processor now hand_backs HandlerEnd.returns s =
    (if is_handed_back hand_backs then throws_delayed else resolves, move_on now hand_backs s)
processor now hand_backs HandlerEnd.throws_no_further_attempts s =
    (throws_unrecoverable, move_on now hand_backs s)
processor now hand_backs HandlerEnd.throws s = (rethrows, move_on now hand_backs s)

-- ===== src/Transport/PgBoss/Adapter.antt =====
-- The pg-boss adapter (packages/durable-work/src/transport/pgboss.ts). pg-boss is code of another
-- package: what the adapter calls is a list, and what pg-boss answers is the parameter `Boss`. The
-- start of the instance, and calls of it that fail, are left out.
use open_mercato_durable.Common.{
  ℕ, ◌+◌, ◌/◌, max, Bool, true, false, ◌||◌, Option, none, some, List, [], ◌∷◌, ◌==◌, ltb, length,
  if◌then◌else◌,
}
use open_mercato_durable.Types.{Delivery, RetrySettings, BackoffType}
use open_mercato_durable.Worker.Bindings.{QueueBinding}
use open_mercato_durable.Transport.Memory.Entries.{DeliveryState}
use open_mercato_durable.Transport.Memory.Events.{HandlerEnd}

-- The key of a singleton is the identity of its delivery, which stands for its text here.
pub record SendOptions : Type 0 where
  pub singleton_key : Delivery
  pub start_after : Option ℕ
  pub retry_limit : ℕ
  pub retry_delay : ℕ
  pub retry_backoff : Bool
  pub retry_delay_max : Option ℕ
  pub in_transaction : Bool

pub data BossCall : Type 0 where
  create_queue : (name : ℕ) → (expire_in_seconds : Option ℕ) → BossCall
  send_job : (name : ℕ) → Delivery → SendOptions → BossCall
  send_tick : (name : ℕ) → Delivery → (singleton_seconds : ℕ) → BossCall
  delete_job : (name id : ℕ) → BossCall
  work : (name batch_size : ℕ) → BossCall
  off_work : (name : ℕ) → BossCall
  stop : (timeout : ℕ) → BossCall

pub data JobState : Type 0 where
  created retry active completed cancelled failed : JobState
  other : ℕ → JobState

-- By the number of calls before: the id that a `send` answers with, which is null where the key
-- collapsed the delivery into another one, and the state of a job that is there.
pub record Boss : Type 0 where
  pub sent_id : ℕ → Option ℕ
  pub job_state : ℕ → ℕ → ℕ → Option JobState

-- `calls` has the latest call first.
pub record PgBossTransport : Type 0 where
  pub ensured_queues : List ℕ
  pub ticks : List (ℕ × ℕ)
  pub is_shut_down : Bool
  pub owns_instance : Bool
  pub calls : List BossCall

abbrev pub call : BossCall → PgBossTransport → PgBossTransport
call c s = record s { calls = c ∷ s.calls }

unfoldable pub is_ensured : ℕ → List ℕ → Bool
is_ensured name [] = false
is_ensured name (q ∷ qs) = q == name || is_ensured name qs

-- An expiry of 0 is falsy.
abbrev pub expiry_option : Option ℕ → Option ℕ
expiry_option none = none
expiry_option (some n) = if n == 0 then none else some n

unfoldable pub ensure_queue : ℕ → Option ℕ → PgBossTransport → PgBossTransport
unfolding is_ensured
ensure_queue name expire_in_seconds s = if is_ensured name s.ensured_queues then s else record s {
  ensured_queues = name ∷ s.ensured_queues;
  calls = create_queue name (expiry_option expire_in_seconds) ∷ s.calls;
}

-- `Math.ceil(ms / 1000)` and `Math.round(ms / 1000)`.
unfoldable pub ceil_seconds : ℕ → ℕ
ceil_seconds ms = (ms + 999) / 1000

unfoldable pub round_seconds : ℕ → ℕ
round_seconds ms = (ms + 500) / 1000

abbrev pub is_exponential : BackoffType → Bool
is_exponential BackoffType.exponential = true
is_exponential BackoffType.fixed = false

abbrev pub start_after_of : Option ℕ → Option ℕ
start_after_of none = none
start_after_of (some ms) = if ltb 0 ms then some (ceil_seconds ms) else none

unfoldable pub send_options : Delivery → RetrySettings → Option ℕ → Bool → SendOptions
unfolding ceil_seconds round_seconds
send_options delivery r delay_ms tx = record {
  singleton_key = delivery;
  start_after = start_after_of delay_ms;
  retry_limit = r.attempts;
  retry_delay = max 1 (round_seconds r.backoff.delay_ms);
  retry_backoff = is_exponential r.backoff.type;
  retry_delay_max =
      if is_exponential r.backoff.type
      then some (max 1 (round_seconds r.backoff.max_delay_ms))
      else none;
  in_transaction = tx;
}

-- The key stands in for an id.
pub data TransportJobId : Type 0 where
  boss_id : ℕ → TransportJobId
  key : Delivery → TransportJobId

abbrev pub id_or_key : Delivery → Option ℕ → TransportJobId
id_or_key delivery none = key delivery
id_or_key delivery (some id) = boss_id id

unfoldable pub enqueue :
    Boss
    → ℕ
    → Delivery
    → RetrySettings
    → Option ℕ
    → Bool
    → PgBossTransport
    → TransportJobId × PgBossTransport
unfolding ensure_queue
enqueue boss queue delivery r delay_ms tx s =
    let u = ensure_queue queue none s in
    (
      id_or_key delivery (boss.sent_id (length u.calls)),
      call (send_job queue delivery (send_options delivery r delay_ms tx)) u,
    )

abbrev pub remove : ℕ → ℕ → PgBossTransport → PgBossTransport
remove queue id s = call (delete_job queue id) s

abbrev pub state_of : Option JobState → DeliveryState
state_of none = DeliveryState.unknown
state_of (some created) = DeliveryState.waiting
state_of (some retry) = DeliveryState.waiting
state_of (some active) = DeliveryState.active
state_of (some completed) = DeliveryState.completed
state_of (some cancelled) = DeliveryState.failed
state_of (some failed) = DeliveryState.failed
state_of (some (other n)) = DeliveryState.unknown

abbrev pub get_state : Boss → ℕ → ℕ → PgBossTransport → DeliveryState
get_state boss queue id s = state_of (boss.job_state queue id (length s.calls))

abbrev pub tick_delivery : ℕ → Delivery
tick_delivery id = record { job_id = id; seq = 0; redrives = 0 }

-- The timer of a tick, and its first call.
unfoldable pub fire : ℕ → ℕ → ℕ → PgBossTransport → PgBossTransport
unfolding round_seconds
fire id queue every_ms s =
    if s.is_shut_down
    then s
    else call (send_tick queue (tick_delivery id) (max 1 (round_seconds every_ms))) s

unfoldable pub upsert_tick : ℕ → ℕ → ℕ → PgBossTransport → PgBossTransport
unfolding ensure_queue fire
upsert_tick id queue every_ms s =
    let u = fire id queue every_ms (ensure_queue queue none s) in
    record u { ticks = (id, queue) ∷ u.ticks }

unfoldable pub bind : QueueBinding → PgBossTransport → PgBossTransport
unfolding ensure_queue ceil_seconds
bind b s =
    call (work b.queue b.concurrency)
      (ensure_queue b.queue (some (ceil_seconds b.active_timeout_ms)) s)

abbrev pub unbind : ℕ → PgBossTransport → PgBossTransport
unbind queue s = call (off_work queue) s

abbrev pub close : ℕ → PgBossTransport → PgBossTransport
close timeout_ms s =
    let u : PgBossTransport = record s { is_shut_down = true; ticks = [] } in
    if s.owns_instance then call (stop timeout_ms) u else u

-- What a handler does with one job of a batch: the deliveries that it hands back, and its end.
pub record Handling : Type 0 where
  pub hand_backs : List (Delivery × Option ℕ)
  pub end : HandlerEnd

abbrev pub hand_back_retry : RetrySettings
hand_back_retry = record {
  attempts = 1;
  backoff = record { type = BackoffType.fixed; delay_ms = 0; max_delay_ms = 0 };
}

-- No native hand-back: the next delivery is sent, and this one completes.
unfoldable pub hand_back : Boss → ℕ → List (Delivery × Option ℕ) → PgBossTransport → PgBossTransport
unfolding enqueue
hand_back boss queue [] s = s
hand_back boss queue ((next, delay_ms) ∷ rest) s =
    hand_back boss queue rest (enqueue boss queue next hand_back_retry delay_ms false s).1

-- The callback of `work`: whether the batch completes, or throws.
unfoldable pub run_batch : Boss → ℕ → List Handling → PgBossTransport → Bool × PgBossTransport
unfolding hand_back
run_batch boss queue [] s = (true, s)
run_batch boss queue (h ∷ hs) s = elim h.end [
  | HandlerEnd.returns ↦ run_batch boss queue hs (hand_back boss queue h.hand_backs s)
  | HandlerEnd.throws_no_further_attempts ↦
      run_batch boss queue hs (hand_back boss queue h.hand_backs s)
  | HandlerEnd.throws ↦ (false, hand_back boss queue h.hand_backs s)
]

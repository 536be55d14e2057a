-- ===== src/Tests/Data.antt =====
-- The jobs, the kind and the surroundings of the examples.
use open_mercato_durable.Common.{ℕ, ◌+◌, false, none, some, []}
use open_mercato_durable.Types.{
  DurableJob, DurableJobStatus, Scope, Delivery, StartJobInput, SliceOutcome, RetrySettings,
  BackoffType, OrphanPolicy,
}
use open_mercato_durable.Store.Table.{Table}
use open_mercato_durable.Store.Create.{new_job}
use open_mercato_durable.Store.Lease.{no_patch}
use open_mercato_durable.Protocol.Steps.{Database, Reach}
use open_mercato_durable.Registry.Script.{commits, Script}
use open_mercato_durable.Registry.Kinds.{Handlers, ResolvedKind, default_budget}
use open_mercato_durable.World.{World, Environment}
use open_mercato_durable.Slice.Lawful.{IsLawful}

abbrev pub tenant : Scope
tenant = record { tenant_id = 7; organization_id = none }

abbrev pub input : StartJobInput
input = record {
  kind = 3;
  input = none;
  idempotency_key = none;
  lock_key = some 99;
  subject = none;
  progress_job_id = none;
  created_by = none;
  meta = none;
  total_count = none;
}

-- Job `id` as it is created at time 10.
unfoldable pub fresh_job : ℕ → DurableJob
unfolding new_job
fresh_job id = new_job 10 id tenant input 4

-- The same job, held by the worker 5 at epoch 1 until time 110.
unfoldable pub held_job : ℕ → DurableJob
unfolding fresh_job
held_job id = record (fresh_job id) {
  status = DurableJobStatus.running;
  lease_owner = some 5;
  lease_epoch = 1;
  lease_expires_at = some 110;
  heartbeat_at = some 10;
  pending_since = none;
  started_at = some 10;
}

abbrev pub retry : RetrySettings
retry = record {
  attempts = 5;
  backoff = record { type = BackoffType.exponential; delay_ms = 1000; max_delay_ms = 5000 };
}

-- A step that heartbeats once and then has nothing left; a mirror that counts the terminal
-- transitions in the domain state, and matches one row.
abbrev pub counting : Handlers ℕ
counting = record {
  step_id = 1;
  step = λ c. Script.beat no_patch (Script.returns SliceOutcome.drained) (λ e. Script.throws e);
  on_transition = some (λ job scope d. commits 1 (d + 1));
  on_redrive = some (λ job scope d. commits 1 d);
  on_cancel = none;
  on_after_transition = none;
  on_after_redrive = none;
  classify = none;
}

abbrev pub counting_kind : ResolvedKind ℕ
counting_kind = record {
  kind = 3;
  queue = 4;
  concurrency = 1;
  lease = record { ttl_ms = 100; slice_budget_ms = 50; pending_ttl_ms = 1000 };
  budget = default_budget;
  retry = retry;
  orphan_policy = OrphanPolicy.redrive;
  handlers = counting;
}

-- Nobody else acts, and every statement takes a millisecond.
abbrev pub quiet : Environment ℕ
quiet = record {
  others = λ turn now s. s;
  elapsed = λ turn. 1;
  worker_clock = λ turn. turn;
  timer_fires = λ turn. false;
  shutting_down = λ turn. false;
  broker_refuses = λ turn. false;
  locked = λ turn id. false;
  transport_job_id = λ x. x.job_id;
}

pub quiet-IsLawful : IsLawful quiet
quiet-IsLawful turn now t d = Reach.here

abbrev pub world_of : ℕ → Table → World ℕ
world_of now jobs = record { now = now; jobs = jobs; domain = 0; turn = 0; sent = []; removed = [] }

abbrev pub first_delivery : ℕ → Delivery
first_delivery id = record { job_id = id; seq = 0; redrives = 0 }

abbrev pub database_of : ℕ → Table → Database
database_of now jobs = record { now = now; jobs = jobs }

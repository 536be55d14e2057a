-- ===== src/Tests/DataSync.antt =====
-- A sync run and its job, on a host whose services do nothing.
use open_mercato_durable.Common.{ℕ, ◌≡◌, refl, false, Option, none, some, [], ◌∷◌}
use open_mercato_durable.Types.{DurableJob, Scope, Message, OrphanPolicy}
use open_mercato_durable.Store.Table.{Table, find}
use open_mercato_durable.Protocol.Steps.{Reach}
use open_mercato_durable.Registry.Script.{commits, SliceContext}
use open_mercato_durable.Registry.Kinds.{ResolvedKind, default_lease, default_budget, default_retry}
use open_mercato_durable.World.{World, Environment, pause}
use open_mercato_durable.Terminal.Transition.{
  Transition, TerminalOutcome, committed, run_terminal_transition,
}
use open_mercato_durable.Slice.Lawful.{IsLawful}
use open_mercato_durable.DataSync.Runs.{RunStatus, SyncRun, SyncDomain, find_run}
use open_mercato_durable.DataSync.Engine.{replies, Engine, Core}
use open_mercato_durable.DataSync.Kind.{Direction, SyncRunInput, to_json, data_sync_kind}
use open_mercato_durable.Errors.{Failure}
use open_mercato_durable.Tests.Data.{tenant, held_job}

abbrev pub run : SyncRun
run = record {
  id = 20;
  status = RunStatus.running;
  last_error = none;
  is_deleted = false;
  integration_id = 1;
  entity_type = 2;
  direction = 1;
  progress_job_id = none;
  created_count = none;
  updated_count = none;
  skipped_count = none;
  failed_count = none;
  batches_completed = none;
}

abbrev pub still : Core ℕ
still = record {
  get_run = λ id scope d. replies (find_run id d.runs);
  mark_status = λ id status scope error d. d;
  mark_reply = λ id status scope d. replies none;
  commit_batch_progress = λ batch scope d. commits 1 d;
  is_cancellation_requested = λ job scope d. replies false;
  update_progress = λ job patch d. d;
  update_reply = λ job patch d. none;
  run_import =
      λ id size scope. Engine.mark_status id RunStatus.completed none (λ r. Engine.resolves);
  run_export = λ id size scope. Engine.resolves;
  has_telemetry = λ integration. false;
  has_state_service = false;
  perform = λ call scope d. commits 1 d;
}

abbrev import_input : SyncRunInput
import_input = record { run_id = 20; batch_size = 100; direction = Direction.import }

unfoldable pub import_job : DurableJob
unfolding held_job
import_job = record (held_job 1) {
  origin = record (held_job 1).origin { input = some (to_json import_input) };
}

unfoldable pub import_kind : ResolvedKind (SyncDomain ℕ)
unfolding data_sync_kind
import_kind = record {
  kind = 3;
  queue = 4;
  concurrency = 1;
  lease = default_lease;
  budget = default_budget;
  retry = default_retry;
  orphan_policy = OrphanPolicy.redrive;
  handlers = (data_sync_kind still 3 4).handlers;
}

abbrev pub alone : Environment (SyncDomain ℕ)
alone = record {
  others = λ turn now s. s;
  elapsed = λ turn. 1;
  worker_clock = λ turn. turn;
  timer_fires = λ turn. false;
  shutting_down = λ turn. false;
  broker_refuses = λ turn. false;
  locked = λ turn id. false;
  transport_job_id = λ x. x.job_id;
}

pub alone-IsLawful : IsLawful alone
alone-IsLawful turn now t d = Reach.here

unfoldable pub host : World (SyncDomain ℕ)
unfolding import_job
host = record {
  now = 20;
  jobs = import_job ∷ [];
  domain = record { runs = run ∷ []; rest = 0 };
  turn = 0;
  sent = [];
  removed = [];
}

unfoldable ended : TerminalOutcome × World (SyncDomain ℕ)
unfolding run_terminal_transition import_kind host
ended =
    run_terminal_transition alone import_kind
      (record { job_id = 1; owner = 5; epoch = 1; ttl_ms = 100 }) tenant
      (Transition.complete none none) host

abbrev row_of : TerminalOutcome → DurableJob
row_of (committed job) = job
row_of _ = import_job

ended_committed : ended.0 ≡ committed (row_of ended.0)
unfolding ended open_mercato_durable.Store.Table.update pause
    open_mercato_durable.Terminal.Transition.cas_row
    open_mercato_durable.Store.Settle.complete_cas_row
ended_committed = refl

-- A `markStatus` that would count the terminal writes.
abbrev count_ends : ℕ → RunStatus → Scope → Option Message → SyncDomain ℕ → SyncDomain ℕ
count_ends id RunStatus.completed scope error d = record d { rest = 1 }
count_ends id RunStatus.failed scope error d = record d { rest = 1 }
count_ends id RunStatus.cancelled scope error d = record d { rest = 1 }
count_ends id _ scope error d = d

unfoldable import_context : SliceContext
unfolding import_job
import_context = record {
  job = import_job;
  scope = tenant;
  lease = record { job_id = 1; owner = 5; epoch = 1; ttl_ms = 100 };
  input = import_job.input;
  checkpoint = none;
  budget_ms = 300000;
  idempotency_key = (1, 0);
}

-- A host whose imports end as failed, and whose exports reject.
abbrev broken : Core ℕ
broken = record still {
  run_import = λ id size scope. Engine.mark_status id RunStatus.failed none (λ r. Engine.resolves);
  run_export = λ id size scope. Engine.rejects (Failure.text 7);
}

unfoldable broken_kind : ResolvedKind (SyncDomain ℕ)
unfolding import_kind data_sync_kind
broken_kind = record import_kind { handlers = (data_sync_kind broken 3 4).handlers }

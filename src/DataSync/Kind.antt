-- ===== src/DataSync/Kind.antt =====
-- The two kinds of job that a run becomes (kinds/data-sync-run.ts: `runSlice`, `dataSyncKinds`).
use open_mercato_durable.Common.{ℕ, Option, none, some, ◌==◌, if◌then◌else◌}
use open_mercato_durable.Types.{DurableJob, DurableJobStatus, Scope, Json, Fields, OrphanPolicy}
use open_mercato_durable.Registry.Script.{Attempt, commits, Script, SliceContext}
use open_mercato_durable.Registry.Kinds.{KindDefinition}
use open_mercato_durable.DataSync.Runs.{
  RunStatus, SyncTerminalStatus, SyncRun, SyncDomain, mirror_run_status, reopen_run,
}
use open_mercato_durable.DataSync.Outcome.{
  Recorder, new_recorder, Ending, returns, throws, outcome_of,
}
use open_mercato_durable.DataSync.Engine.{replies, rejected, Engine, Core, decorate}
use open_mercato_durable.DataSync.Finalize.{replay_finalize, run_calls}

pub data Direction : Type 0 where
  import export : Direction

pub record SyncRunInput : Type 0 where
  pub run_id : ℕ
  pub batch_size : ℕ
  pub direction : Direction

-- The names of the fields, and the texts of the directions.
abbrev pub run_id_key : ℕ
run_id_key = 1

abbrev pub batch_size_key : ℕ
batch_size_key = 2

abbrev pub direction_key : ℕ
direction_key = 3

abbrev pub direction_text : Direction → ℕ
direction_text Direction.import = 1
direction_text Direction.export = 2

abbrev pub to_json : SyncRunInput → Json
to_json i = Json.obj (
    Fields.field run_id_key (Json.text i.run_id) (
      Fields.field batch_size_key (Json.num i.batch_size)
        (Fields.field direction_key (Json.text (direction_text i.direction)) Fields.end)))

unfoldable pub field_of : ℕ → Fields → Option Json
field_of key Fields.end = none
field_of key (Fields.field k j rest) = if k == key then some j else field_of key rest

abbrev text_of : Option Json → ℕ
text_of (some (Json.text t)) = t
text_of _ = 0

abbrev num_of : Option Json → ℕ
num_of (some (Json.num n)) = n
num_of _ = 0

-- `job.input as SyncRunInput`: a field of another shape, which the cast hides, reads as 0.
unfoldable pub input_of : Option Json → SyncRunInput
unfolding field_of
input_of (some (Json.obj fields)) = record {
  run_id = text_of (field_of run_id_key fields);
  batch_size = num_of (field_of batch_size_key fields);
  direction =
      if text_of (field_of direction_key fields) == direction_text Direction.export
      then Direction.export
      else Direction.import;
}
input_of _ = record { run_id = 0; batch_size = 0; direction = Direction.import }

abbrev pub terminal_status : DurableJobStatus → SyncTerminalStatus
terminal_status DurableJobStatus.completed = SyncTerminalStatus.completed
terminal_status DurableJobStatus.cancelled = SyncTerminalStatus.cancelled
terminal_status _ = SyncTerminalStatus.failed

abbrev pub status_of_run : Option SyncRun → Option RunStatus
status_of_run none = none
status_of_run (some r) = some r.status

module _ {C : Type 0} where
  abbrev pub conclude_with : Ending → Script (SyncDomain C)
  conclude_with (returns o) = Script.returns o
  conclude_with (throws e) = Script.throws e

  -- After the engine: the run's status is read, and the outcome told; a lookup that rejects is thrown.
  abbrev pub finish : Core C → ℕ → Scope → Recorder → Script (SyncDomain C)
  finish core run_id scope r =
      Script.act (λ d. d)
        (λ d. elim (core.get_run run_id scope d) [
          | rejected e ↦ Script.throws e
          | replies run ↦ conclude_with (outcome_of r run_id (status_of_run run))
        ])

  abbrev pub engine_for : Core C → SyncRunInput → Scope → Engine C
  engine_for core i scope = elim i.direction [
    | Direction.export ↦ core.run_export i.run_id i.batch_size scope
    | Direction.import ↦ core.run_import i.run_id i.batch_size scope
  ]

  unfoldable pub sync_step : Core C → SliceContext → Script (SyncDomain C)
  unfolding decorate outcome_of input_of
  sync_step core c =
      let i = input_of c.job.input in
      decorate core c.scope (finish core i.run_id c.scope) (engine_for core i c.scope) new_recorder

  unfoldable pub on_sync_transition : DurableJob → Scope → SyncDomain C → Attempt (SyncDomain C)
  unfolding mirror_run_status input_of
  on_sync_transition job scope d =
      let (n, runs) =
        mirror_run_status (input_of job.input).run_id (terminal_status job.status) job.error_message
          d.runs in
      commits n (record d { runs = runs })

  unfoldable pub on_sync_redrive : DurableJob → Scope → SyncDomain C → Attempt (SyncDomain C)
  unfolding reopen_run input_of
  on_sync_redrive job scope d =
      let (n, runs) = reopen_run (input_of job.input).run_id d.runs in
      commits n (record d { runs = runs })

  unfoldable pub after_sync_transition : Core C → DurableJob → Scope → SyncDomain C → SyncDomain C
  unfolding replay_finalize run_calls input_of
  after_sync_transition core job scope d = elim (core.get_run (input_of job.input).run_id scope d) [
    | rejected e ↦ d
    | replies found ↦ elim found [
      | none ↦ d
      | some run ↦
          run_calls core scope
            (replay_finalize core run (terminal_status job.status) job.error_message) d
    ]
  ]

  -- The names of the kinds and of their queue are the texts `import_kind`, `export_kind` and
  -- `queue`; each kind has a step of its own.
  unfoldable pub data_sync_kind : Core C → ℕ → ℕ → KindDefinition (SyncDomain C)
  unfolding sync_step on_sync_transition on_sync_redrive after_sync_transition
  data_sync_kind core kind queue = record {
    kind = kind;
    queue = queue;
    concurrency = none;
    ttl_ms = some 60000;
    slice_budget_ms = some 300000;
    pending_ttl_ms = some 900000;
    max_redrives = none;
    max_consecutive_failures = none;
    poison_redrives_without_commit = none;
    attempts = none;
    backoff_type = none;
    delay_ms = none;
    max_delay_ms = none;
    orphan_policy = some OrphanPolicy.redrive;
    handlers = record {
      step_id = kind;
      step = sync_step core;
      on_transition = some on_sync_transition;
      on_redrive = some on_sync_redrive;
      on_cancel = none;
      on_after_transition = some (after_sync_transition core);
      on_after_redrive = none;
      classify = none;
    };
  }

-- ===== src/DataSync/Runs.antt =====
-- The table `sync_runs` as this package writes it (engine/durable-run.ts: `mirrorRunStatus`,
-- `reopenRun`). The column `updated_at` is left out.
use open_mercato_durable.Common.{
  ℕ, Bool, true, false, ◌&&◌, ◌||◌, not, Option, none, some, List, [], ◌∷◌, ◌==◌, if◌then◌else◌,
}
use open_mercato_durable.Types.{Message}

pub data RunStatus : Type 0 where
  pending running completed failed cancelled : RunStatus
  other : ℕ → RunStatus

pub data SyncTerminalStatus : Type 0 where
  completed failed cancelled : SyncTerminalStatus

-- The columns that are read here; `progress_job_id` and the counters may be null.
pub record SyncRun : Type 0 where
  pub id : ℕ
  pub status : RunStatus
  pub last_error : Option Message
  pub is_deleted : Bool
  pub integration_id : ℕ
  pub entity_type : ℕ
  pub direction : ℕ
  pub progress_job_id : Option ℕ
  pub created_count : Option ℕ
  pub updated_count : Option ℕ
  pub skipped_count : Option ℕ
  pub failed_count : Option ℕ
  pub batches_completed : Option ℕ

-- The rows, and the rest of the host's state.
pub record SyncDomain (C : Type 0) : Type 0 where
  pub runs : List SyncRun
  pub rest : C

abbrev pub status_text : SyncTerminalStatus → RunStatus
status_text SyncTerminalStatus.completed = RunStatus.completed
status_text SyncTerminalStatus.failed = RunStatus.failed
status_text SyncTerminalStatus.cancelled = RunStatus.cancelled

abbrev pub is_open : RunStatus → Bool
is_open RunStatus.pending = true
is_open RunStatus.running = true
is_open _ = false

abbrev pub is_status : SyncTerminalStatus → RunStatus → Bool
is_status SyncTerminalStatus.completed RunStatus.completed = true
is_status SyncTerminalStatus.failed RunStatus.failed = true
is_status SyncTerminalStatus.cancelled RunStatus.cancelled = true
is_status _ _ = false

abbrev pub is_reopenable : RunStatus → Bool
is_reopenable RunStatus.failed = true
is_reopenable s = is_open s

unfoldable pub find_run : ℕ → List SyncRun → Option SyncRun
find_run id [] = none
find_run id (r ∷ rs) = if r.id == id then some r else find_run id rs

-- `update … where id = $1 and …`, with the count of the rows that it matched.
unfoldable pub update_run :
    ℕ → (SyncRun → Bool) → (SyncRun → SyncRun) → List SyncRun → ℕ × List SyncRun
update_run id matches set [] = (0, [])
update_run id matches set (r ∷ rs) =
    let (n, rest) = update_run id matches set rs in
    if r.id == id then (if matches r then (1, set r ∷ rs) else (0, r ∷ rs)) else (n, r ∷ rest)

abbrev pub is_mirrorable : SyncTerminalStatus → SyncRun → Bool
is_mirrorable status r = not r.is_deleted && (is_open r.status || is_status status r.status)

abbrev pub finish_run : SyncTerminalStatus → Option Message → SyncRun → SyncRun
finish_run status error r = record r { status = status_text status; last_error = error }

abbrev pub reopens : SyncRun → Bool
reopens r = not r.is_deleted && is_reopenable r.status

abbrev pub open_run : SyncRun → SyncRun
open_run r = record r { status = RunStatus.running; last_error = none }

unfoldable pub mirror_run_status :
    ℕ → SyncTerminalStatus → Option Message → List SyncRun → ℕ × List SyncRun
unfolding update_run
mirror_run_status run_id status error runs =
    update_run run_id (is_mirrorable status) (finish_run status error) runs

unfoldable pub reopen_run : ℕ → List SyncRun → ℕ × List SyncRun
unfolding update_run
reopen_run run_id runs = update_run run_id reopens open_run runs

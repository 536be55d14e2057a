-- ===== src/DataSync/Outcome.antt =====
-- What a slice recorded, and the outcome that it stands for (engine/durable-run.ts: `SliceRecorder`,
-- `outcomeOf`; lib/version-guard.ts).
use open_mercato_durable.Common.{
  ℕ, zero, Bool, true, false, ◌&&◌, not, Option, none, some, coalesce, if◌then◌else◌, ltb,
}
use open_mercato_durable.Types.{Message, SliceOutcome, ErrorClass}
use open_mercato_durable.Errors.{Failure, ClassText}
use open_mercato_durable.DataSync.Runs.{RunStatus, SyncTerminalStatus, is_open}

pub data StopReason : Type 0 where
  budget cancelled : StopReason

-- The variables that `recordSlice` closes over.
pub record Recorder : Type 0 where
  pub captured : Option (SyncTerminalStatus × Option Message)
  pub stop_reason : Option StopReason
  pub committed : ℕ

abbrev pub new_recorder : Recorder
new_recorder = record { captured = none; stop_reason = none; committed = 0 }

-- `SyncRunFailedError` and `SeamBrokenError`.
abbrev pub run_failed : Message → Failure
run_failed message = Failure.error (some (ClassText.known ErrorClass.transient)) none message

abbrev pub seam_error : ℕ → Failure
seam_error run_id =
    Failure.error (some (ClassText.known ErrorClass.terminal)) none (Message.seam_broken run_id)

pub data Ending : Type 0 where
  returns : SliceOutcome → Ending
  throws : Failure → Ending

-- `runStatus && runStatus !== 'running' && runStatus !== 'pending'`; the empty text is `other 0`.
abbrev pub is_over : Option RunStatus → Bool
is_over none = false
is_over (some (RunStatus.other zero)) = false
is_over (some s) = not (is_open s)

abbrev pub is_cancelled_run : Option RunStatus → Bool
is_cancelled_run (some RunStatus.cancelled) = true
is_cancelled_run _ = false

abbrev pub of_captured : SyncTerminalStatus × Option Message → Ending
of_captured (SyncTerminalStatus.failed, error) =
    throws (run_failed (coalesce error Message.sync_run_failed))
of_captured (SyncTerminalStatus.cancelled, error) = returns SliceOutcome.cancelled
of_captured (SyncTerminalStatus.completed, error) = returns SliceOutcome.drained

abbrev pub of_silence : ℕ → ℕ → Option RunStatus → Ending
of_silence run_id committed status =
    if is_cancelled_run status
    then returns SliceOutcome.cancelled
    else if ltb 0 committed && is_over status
    then throws (seam_error run_id)
    else returns SliceOutcome.drained

unfoldable pub outcome_of : Recorder → ℕ → Option RunStatus → Ending
outcome_of r run_id status = elim r.stop_reason [
  | some StopReason.budget ↦ returns SliceOutcome.budget
  | some StopReason.cancelled ↦ returns SliceOutcome.cancelled
  | none ↦ elim r.captured [ none ↦ of_silence run_id r.committed status | some c ↦ of_captured c ]
]

-- ===== src/DataSync/Finalize.antt =====
-- What the host does once a run has ended, done after the commit (engine/durable-run.ts,
-- `replayFinalize`).
use open_mercato_durable.Common.{
  ℕ, Bool, true, false, ◌&&◌, Option, none, some, List, [], ◌∷◌, ◌++◌, coalesce, if◌then◌else◌,
}
use open_mercato_durable.Types.{Scope, Message}
use open_mercato_durable.Store.Create.{is_truthy}
use open_mercato_durable.Registry.Script.{Attempt, commits, throws}
use open_mercato_durable.DataSync.Runs.{SyncTerminalStatus, SyncRun, SyncDomain}
use open_mercato_durable.DataSync.Engine.{FinalizeCall, Core}

abbrev pub is_failure : SyncTerminalStatus → Bool
is_failure SyncTerminalStatus.failed = true
is_failure _ = false

abbrev pub progress_call : ℕ → SyncRun → SyncTerminalStatus → Option Message → FinalizeCall
progress_call job run SyncTerminalStatus.completed error = FinalizeCall.complete_job job run
progress_call job run SyncTerminalStatus.failed error =
    FinalizeCall.fail_job job (coalesce error Message.sync_run_failed)
progress_call job run SyncTerminalStatus.cancelled error = FinalizeCall.mark_cancelled job

abbrev pub when : Bool → FinalizeCall → List FinalizeCall
when b call = if b then call ∷ [] else []

-- The calls, in their order.
unfoldable pub replay_finalize :
    {C : Type 0} → Core C → SyncRun → SyncTerminalStatus → Option Message → List FinalizeCall
replay_finalize core run status error =
    let enabled = core.has_telemetry run.integration_id in
    when (is_truthy run.progress_job_id)
      (progress_call (coalesce run.progress_job_id 0) run status error)
    ++ (when (enabled && core.has_state_service) (FinalizeCall.set_health run.integration_id status)
        ++ (when enabled (FinalizeCall.write_log run status error)
            ++ FinalizeCall.emit_event run status (if is_failure status then some error else none)
              ∷ []))

module _ {C : Type 0} where
  abbrev pub effect_of : SyncDomain C → Attempt (SyncDomain C) → Bool × SyncDomain C
  effect_of d (commits n d') = (true, d')
  effect_of d (throws e) = (false, d)

  -- A throw ends the replay; what came before it stays.
  unfoldable pub run_calls : Core C → Scope → List FinalizeCall → SyncDomain C → SyncDomain C
  run_calls core scope [] d = d
  run_calls core scope (call ∷ calls) d =
      let (went, d') = effect_of d (core.perform call scope d) in
      elim went [ true ↦ run_calls core scope calls d' | false ↦ d' ]

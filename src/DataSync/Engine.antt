-- ===== src/DataSync/Engine.antt =====
-- The host's engine under the decorated services (engine/durable-run.ts, `recordSlice`).
use open_mercato_durable.Common.{ℕ, suc, Bool, true, false, Option, none, some, coalesce}
use open_mercato_durable.Types.{Scope, Json, Message}
use open_mercato_durable.Errors.{Failure}
use open_mercato_durable.Store.Lease.{HeartbeatPatch}
use open_mercato_durable.Registry.Script.{Attempt, Script}
use open_mercato_durable.DataSync.Runs.{RunStatus, SyncTerminalStatus, SyncRun, SyncDomain}
use open_mercato_durable.DataSync.Outcome.{StopReason, Recorder}

pub record Batch : Type 0 where
  pub run_id : ℕ
  pub delta : Json
  pub cursor : Json

-- `undefined` is `none`.
pub record ProgressPatch : Type 0 where
  pub processed_count : Option ℕ
  pub total_count : Option (Option ℕ)

-- What a call of a service comes to.
pub data Reply (A : Type 0) : Type 0 where
  replies : A → Reply A
  rejected : Failure → Reply A

-- The engine as a tree of the calls that it makes on the two services: the decorated ones, and
-- `pass`, any other effect on the host's state. After a call the engine goes on by its reply, or by
-- both ways on; `rejects` is the rejection of the engine's own promise.
pub data Engine (C : Type 0) : Type 0 where
  resolves : Engine C
  rejects : Failure → Engine C
  mark_status : ℕ → RunStatus → Option Message → (Reply (Option SyncRun) → Engine C) → Engine C
  commit_batch : Batch → (ℕ → Engine C) → (Failure → Engine C) → Engine C
  ask_cancelled : ℕ → (Reply Bool → Engine C) → Engine C
  report : ℕ → ProgressPatch → (Option Failure → Engine C) → Engine C
  pass : (SyncDomain C → SyncDomain C) → (SyncDomain C → Engine C) → Engine C

-- The calls on the host's services once a run has ended.
pub data FinalizeCall : Type 0 where
  complete_job : (progress_job_id : ℕ) → SyncRun → FinalizeCall
  fail_job : (progress_job_id : ℕ) → Message → FinalizeCall
  mark_cancelled : (progress_job_id : ℕ) → FinalizeCall
  set_health : (integration_id : ℕ) → SyncTerminalStatus → FinalizeCall
  write_log : SyncRun → SyncTerminalStatus → Option Message → FinalizeCall
  emit_event : SyncRun → SyncTerminalStatus → Option (Option Message) → FinalizeCall

-- The host's services and engine, over the rest `C` of its state. `mark_reply` is what a call of
-- `markStatus` that is passed through comes to after its effect, and `update_reply` whether a call of
-- `updateProgress` rejects.
pub record Core (C : Type 0) : Type 0 where
  pub get_run : ℕ → Scope → SyncDomain C → Reply (Option SyncRun)
  pub mark_status : ℕ → RunStatus → Scope → Option Message → SyncDomain C → SyncDomain C
  pub mark_reply : ℕ → RunStatus → Scope → SyncDomain C → Reply (Option SyncRun)
  pub commit_batch_progress : Batch → Scope → SyncDomain C → Attempt (SyncDomain C)
  pub is_cancellation_requested : ℕ → Scope → SyncDomain C → Reply Bool
  pub update_progress : ℕ → ProgressPatch → SyncDomain C → SyncDomain C
  pub update_reply : ℕ → ProgressPatch → SyncDomain C → Option Failure
  pub run_import : ℕ → ℕ → Scope → Engine C
  pub run_export : ℕ → ℕ → Scope → Engine C
  pub has_telemetry : ℕ → Bool
  pub has_state_service : Bool
  pub perform : FinalizeCall → Scope → SyncDomain C → Attempt (SyncDomain C)

-- `committed: true`, and the counters that the host reports; a missing total becomes null.
abbrev pub committed_patch : HeartbeatPatch
committed_patch = record { processed_count = none; total_count = none; committed = true }

abbrev pub progress_patch : ProgressPatch → HeartbeatPatch
progress_patch p = record {
  processed_count = p.processed_count;
  total_count = some (coalesce p.total_count none);
  committed = false;
}

abbrev pub terminal_of : RunStatus → Option SyncTerminalStatus
terminal_of RunStatus.completed = some SyncTerminalStatus.completed
terminal_of RunStatus.failed = some SyncTerminalStatus.failed
terminal_of RunStatus.cancelled = some SyncTerminalStatus.cancelled
terminal_of _ = none

module _ {C : Type 0} where
  -- The engine's calls as calls of the slice's context; `finish` is what comes after the engine.
  unfoldable pub decorate :
      Core C
      → Scope
      → (Recorder → Script (SyncDomain C))
      → Engine C
      → Recorder
      → Script (SyncDomain C)
  decorate core scope finish Engine.resolves r = finish r
  decorate core scope finish (Engine.rejects e) r = Script.throws e
  decorate core scope finish (Engine.mark_status run status error go) r =
      elim (terminal_of status) [
        | some s ↦
            Script.act (λ d. d)
              (λ d.
                decorate core scope finish (go (core.get_run run scope d))
                  (record r { captured = some (s, error) }))
        | none ↦
            Script.act (core.mark_status run status scope error)
              (λ d. decorate core scope finish (go (core.mark_reply run status scope d)) r)
      ]
  decorate core scope finish (Engine.commit_batch batch ok lost) r =
      let r' = record r { committed = suc r.committed } in
      Script.write (core.commit_batch_progress batch scope)
        (λ n.
          Script.beat committed_patch (decorate core scope finish (ok n) r')
            (λ e. decorate core scope finish (lost e) r'))
        (λ e. decorate core scope finish (lost e) r)
  decorate core scope finish (Engine.ask_cancelled job go) r =
      Script.act (λ d. d)
        (λ d. elim (core.is_cancellation_requested job scope d) [
          | rejected e ↦ decorate core scope finish (go (rejected e)) r
          | replies asked ↦ elim asked [
            | true ↦
                decorate core scope finish (go (replies true))
                  (record r { stop_reason = some StopReason.cancelled })
            | false ↦ Script.ask (λ yields. elim yields [
              | true ↦
                  decorate core scope finish (go (replies true))
                    (record r { stop_reason = some StopReason.budget })
              | false ↦ decorate core scope finish (go (replies false)) r
            ])
          ]
        ])
  decorate core scope finish (Engine.report job patch go) r =
      let after =
        Script.act (core.update_progress job patch)
          (λ d. decorate core scope finish (go (core.update_reply job patch d)) r) in
      Script.beat (progress_patch patch) after (λ e. after)
  decorate core scope finish (Engine.pass f go) r =
      Script.act f (λ d. decorate core scope finish (go d) r)

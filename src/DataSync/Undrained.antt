-- ===== src/DataSync/Undrained.antt =====
-- Engines under the decorated services whose slices never drain (engine/durable-run.ts:
-- `recordSlice`, `outcomeOf`).
use open_mercato_durable.Common.{ℕ, ◌≡◌, refl, ap, ◌∙◌, Bool, true, false, Option, none, some}
use open_mercato_durable.Types.{Scope, Message}
use open_mercato_durable.Errors.{Failure}
use open_mercato_durable.Registry.Script.{Script}
use open_mercato_durable.Slice.Drains.{NeverDrains}
use open_mercato_durable.DataSync.Runs.{RunStatus, SyncTerminalStatus, SyncRun, SyncDomain}
use open_mercato_durable.DataSync.Outcome.{StopReason, Recorder, outcome_of}
use open_mercato_durable.DataSync.Engine.{Reply, replies, rejected, Engine, Core, decorate}
use open_mercato_durable.DataSync.Kind.{conclude_with, finish}

-- Whether the run is written off once the engine has asked for a status: failed or cancelled.
abbrev pub written_off : RunStatus → Bool → Bool
written_off RunStatus.completed off = false
written_off RunStatus.failed off = true
written_off RunStatus.cancelled off = true
written_off _ off = off

-- An engine that, on every way that does not tell it to stop, rejects, or resolves after the last
-- status that it asked for, of those that end a run, was failed or cancelled.
abbrev pub NeverSucceeds : {C : Type 0} → Bool → Engine C → Type 0
NeverSucceeds off Engine.resolves = off ≡ true
NeverSucceeds off (Engine.rejects e) = Unit
NeverSucceeds off (Engine.mark_status run status error go) =
    (x : Reply (Option SyncRun)) → NeverSucceeds (written_off status off) (go x)
NeverSucceeds off (Engine.commit_batch batch ok lost) =
    ((n : ℕ) → NeverSucceeds off (ok n)) × ((e : Failure) → NeverSucceeds off (lost e))
NeverSucceeds off (Engine.ask_cancelled job go) =
    ((e : Failure) → NeverSucceeds off (go (rejected e))) × NeverSucceeds off (go (replies false))
NeverSucceeds off (Engine.report job patch go) = (o : Option Failure) → NeverSucceeds off (go o)
NeverSucceeds {C} off (Engine.pass f go) = (d : SyncDomain C) → NeverSucceeds off (go d)

-- What is recorded stands against the outcome `drained`.
abbrev is_bad : Option StopReason → Option (SyncTerminalStatus × Option Message) → Bool
is_bad (some reason) captured = true
is_bad none none = false
is_bad none (some (SyncTerminalStatus.completed, error)) = false
is_bad none (some (SyncTerminalStatus.failed, error)) = true
is_bad none (some (SyncTerminalStatus.cancelled, error)) = true

module _ {C : Type 0} (core : Core C) (id : ℕ) (scope : Scope) where
  outcome_of-NeverDrains :
      (stop : Option StopReason) (captured : Option (SyncTerminalStatus × Option Message)) (n : ℕ)
      (status : Option RunStatus)
      → is_bad stop captured ≡ true
      → NeverDrains (
          conclude_with {C = C} (
            outcome_of
              (record { captured = captured; stop_reason = stop; committed = n })
              id
              status))
  unfolding outcome_of
  outcome_of-NeverDrains (some StopReason.budget) captured n status h = tt
  outcome_of-NeverDrains (some StopReason.cancelled) captured n status h = tt
  outcome_of-NeverDrains none none n status h = cc
  outcome_of-NeverDrains none (some (SyncTerminalStatus.completed, error)) n status h = cc
  outcome_of-NeverDrains none (some (SyncTerminalStatus.failed, error)) n status h = tt
  outcome_of-NeverDrains none (some (SyncTerminalStatus.cancelled, error)) n status h = tt

  reply-NeverDrains :
      (reply : Reply (Option SyncRun)) (g : Option SyncRun → Script (SyncDomain C))
      → ((run : Option SyncRun) → NeverDrains (g run))
      → NeverDrains (elim reply [ rejected e ↦ Script.throws e | replies run ↦ g run ])
  reply-NeverDrains (rejected e) g h = tt
  reply-NeverDrains (replies run) g h = h run

  finish-NeverDrains :
      (r : Recorder) → is_bad r.stop_reason r.captured ≡ true → NeverDrains (finish core id scope r)
  finish-NeverDrains r h d =
      reply-NeverDrains (core.get_run id scope d) _
        (λ run. outcome_of-NeverDrains r.stop_reason r.captured r.committed _ h)

  asked-NeverDrains :
      (reply : Reply Bool) (x : Failure → Script (SyncDomain C)) (y z : Script (SyncDomain C))
      → ((e : Failure) → NeverDrains (x e))
      → NeverDrains y
      → NeverDrains z
      → NeverDrains
          (elim reply [ rejected e ↦ x e | replies asked ↦ elim asked [ true ↦ y | false ↦ z ] ])
  asked-NeverDrains (rejected e) x y z p q s = p e
  asked-NeverDrains (replies true) x y z p q s = q
  asked-NeverDrains (replies false) x y z p q s = s

  yields-NeverDrains :
      (yields : Bool) (y z : Script (SyncDomain C))
      → NeverDrains y
      → NeverDrains z
      → NeverDrains (elim yields [ true ↦ y | false ↦ z ])
  yields-NeverDrains true y z p q = p
  yields-NeverDrains false y z p q = q

  -- Once the engine was told to stop, the slice does not drain, whatever the engine goes on to do.
  stopped-NeverDrains :
      (e : Engine C) (r : Recorder) (reason : StopReason)
      → r.stop_reason ≡ some reason
      → NeverDrains (decorate core scope (finish core id scope) e r)
  unfolding decorate
  stopped-NeverDrains Engine.resolves r reason h =
      finish-NeverDrains r (ap (λ s. is_bad s r.captured) h)
  stopped-NeverDrains (Engine.rejects e) r reason h = tt
  stopped-NeverDrains (Engine.mark_status run RunStatus.completed error go) r reason h =
      λ d. stopped-NeverDrains (go (core.get_run run scope d)) _ reason h
  stopped-NeverDrains (Engine.mark_status run RunStatus.failed error go) r reason h =
      λ d. stopped-NeverDrains (go (core.get_run run scope d)) _ reason h
  stopped-NeverDrains (Engine.mark_status run RunStatus.cancelled error go) r reason h =
      λ d. stopped-NeverDrains (go (core.get_run run scope d)) _ reason h
  stopped-NeverDrains (Engine.mark_status run RunStatus.pending error go) r reason h =
      λ d. stopped-NeverDrains (go (core.mark_reply run RunStatus.pending scope d)) r reason h
  stopped-NeverDrains (Engine.mark_status run RunStatus.running error go) r reason h =
      λ d. stopped-NeverDrains (go (core.mark_reply run RunStatus.running scope d)) r reason h
  stopped-NeverDrains (Engine.mark_status run (RunStatus.other n) error go) r reason h =
      λ d. stopped-NeverDrains (go (core.mark_reply run (RunStatus.other n) scope d)) r reason h
  stopped-NeverDrains (Engine.commit_batch batch ok lost) r reason h = (
    λ n. (stopped-NeverDrains (ok n) _ reason h, λ e. stopped-NeverDrains (lost e) _ reason h),
    λ e. stopped-NeverDrains (lost e) r reason h,
  )
  stopped-NeverDrains (Engine.ask_cancelled job go) r reason h = λ d.
      asked-NeverDrains (core.is_cancellation_requested job scope d) _ _ _
        (λ e. stopped-NeverDrains (go (rejected e)) r reason h)
        (stopped-NeverDrains (go (replies true)) _ StopReason.cancelled refl)
        (λ yields.
          yields-NeverDrains yields _ _
            (stopped-NeverDrains (go (replies true)) _ StopReason.budget refl)
            (stopped-NeverDrains (go (replies false)) r reason h))
  stopped-NeverDrains (Engine.report job patch go) r reason h = (
    λ d. stopped-NeverDrains (go (core.update_reply job patch d)) r reason h,
    λ e d. stopped-NeverDrains (go (core.update_reply job patch d)) r reason h,
  )
  stopped-NeverDrains (Engine.pass f go) r reason h = λ d. stopped-NeverDrains (go d) r reason h

  pub decorate-NeverDrains :
      (e : Engine C) (r : Recorder)
      → r.stop_reason ≡ none
      → NeverSucceeds (is_bad none r.captured) e
      → NeverDrains (decorate core scope (finish core id scope) e r)
  unfolding decorate
  decorate-NeverDrains Engine.resolves r h off =
      finish-NeverDrains r (ap (λ s. is_bad s r.captured) h ∙ off)
  decorate-NeverDrains (Engine.rejects e) r h off = tt
  decorate-NeverDrains (Engine.mark_status run RunStatus.completed error go) r h off =
      λ d. decorate-NeverDrains (go (core.get_run run scope d)) _ h (off _)
  decorate-NeverDrains (Engine.mark_status run RunStatus.failed error go) r h off =
      λ d. decorate-NeverDrains (go (core.get_run run scope d)) _ h (off _)
  decorate-NeverDrains (Engine.mark_status run RunStatus.cancelled error go) r h off =
      λ d. decorate-NeverDrains (go (core.get_run run scope d)) _ h (off _)
  decorate-NeverDrains (Engine.mark_status run RunStatus.pending error go) r h off =
      λ d. decorate-NeverDrains (go (core.mark_reply run RunStatus.pending scope d)) r h (off _)
  decorate-NeverDrains (Engine.mark_status run RunStatus.running error go) r h off =
      λ d. decorate-NeverDrains (go (core.mark_reply run RunStatus.running scope d)) r h (off _)
  decorate-NeverDrains (Engine.mark_status run (RunStatus.other n) error go) r h off =
      λ d. decorate-NeverDrains (go (core.mark_reply run (RunStatus.other n) scope d)) r h (off _)
  decorate-NeverDrains (Engine.commit_batch batch ok lost) r h (on_ok, on_lost) = (
    λ n. (
      decorate-NeverDrains (ok n) _ h (on_ok n),
      λ e. decorate-NeverDrains (lost e) _ h (on_lost e),
    ),
    λ e. decorate-NeverDrains (lost e) r h (on_lost e),
  )
  decorate-NeverDrains (Engine.ask_cancelled job go) r h (on_rejected, on_no) = λ d.
      asked-NeverDrains (core.is_cancellation_requested job scope d) _ _ _
        (λ e. decorate-NeverDrains (go (rejected e)) r h (on_rejected e))
        (stopped-NeverDrains (go (replies true)) _ StopReason.cancelled refl)
        (λ yields.
          yields-NeverDrains yields _ _
            (stopped-NeverDrains (go (replies true)) _ StopReason.budget refl)
            (decorate-NeverDrains (go (replies false)) r h on_no))
  decorate-NeverDrains (Engine.report job patch go) r h off = (
    λ d. decorate-NeverDrains (go (core.update_reply job patch d)) r h (off _),
    λ e d. decorate-NeverDrains (go (core.update_reply job patch d)) r h (off _),
  )
  decorate-NeverDrains (Engine.pass f go) r h off = λ d. decorate-NeverDrains (go d) r h (off d)

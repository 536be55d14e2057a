-- ===== src/DataSync/Untouched.antt =====
-- The engine's own terminal writes under the decorated services (engine/durable-run.ts,
-- `recordSlice`: `markStatus`).
use open_mercato_durable.Common.{ℕ, ◌≡◌, ◌≢◌, Option}
use open_mercato_durable.Types.{Scope, Message}
use open_mercato_durable.Registry.Script.{Script}
use open_mercato_durable.DataSync.Runs.{RunStatus, SyncDomain}
use open_mercato_durable.DataSync.Engine.{Engine, Core}

-- The two do the same with a status other than completed, failed and cancelled.
abbrev pub AgreesOnOpen : {C : Type 0} → Core C → Core C → Type 0
AgreesOnOpen core core' =
    (run : ℕ) (status : RunStatus) (scope : Scope) (error : Option Message)
    → status ≢ RunStatus.completed
    → status ≢ RunStatus.failed
    → status ≢ RunStatus.cancelled
    → core.mark_status run status scope error ≡ core'.mark_status run status scope error

-- The services with another `markStatus`.
abbrev pub with_mark_status :
    {C : Type 0}
    → (ℕ → RunStatus → Scope → Option Message → SyncDomain C → SyncDomain C)
    → Core C
    → Core C
with_mark_status f core = record core { mark_status = f }

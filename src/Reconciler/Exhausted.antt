-- ===== src/Reconciler/Exhausted.antt =====
-- That a job which never commits is re-driven only so often (core/reconciler.ts, `repairOrphan`).
use open_mercato_durable.Common.{ℕ, suc, ◌≡◌, some}
use open_mercato_durable.Types.{DurableJob}
use open_mercato_durable.Store.Table.{Table, find}
use open_mercato_durable.Protocol.Idle.{Idle}
use open_mercato_durable.Registry.Register.{KindRegistry}
use open_mercato_durable.World.{World, Environment}
use open_mercato_durable.Slice.Lawful.{db}
use open_mercato_durable.Reconciler.Repair.{redriven, repair_orphan}
use open_mercato_durable.Reconciler.Ahead.{Ahead}

module _ {D : Type 0} (env : Environment D) (kinds : KindRegistry D) (grace id : ℕ) where
  -- `n` re-drives of the job by the reconciler, and in between whatever the protocol allows, other
  -- repairs, claims and crashes among it, but for commits of the job's work and an operator's
  -- re-drive of the job.
  pub data Redrives (w : World D) : ℕ → World D → Type 0 where
    begin : Redrives w 0 w
    meanwhile : {n : ℕ} {u v : World D} → Redrives w n u → Idle id (db u) (db v) → Redrives w n v
    again :
        {n : ℕ} {u : World D} (job : DurableJob)
        → Redrives w n u
        → find id u.jobs ≡ some job
        → (repair_orphan env kinds grace job u).0 ≡ redriven
        → Redrives w (suc n) (repair_orphan env kinds grace job u).1

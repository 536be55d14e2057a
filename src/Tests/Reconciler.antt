-- ===== src/Tests/Reconciler.antt =====
-- An orphan that the reconciler re-drives.
use open_mercato_durable.Reconciler.Pass.{ReconcilerOptions, reconcile_once}
use open_mercato_durable.Reconciler.Report.{reconcile_once-report}
use open_mercato_durable.Common.{
  length, ◌*◌, ℕ, ◌+◌, ◌≤◌, ◌<◌, ◌≡◌, refl, none, some, [], ◌∷◌, ◌++◌,
}
use open_mercato_durable.Types.{DurableJob, DurableJobStatus, OrphanPolicy}
use open_mercato_durable.Store.Table.{Table, find, update}
use open_mercato_durable.Store.Lease.{verdict_of, claim_row}
use open_mercato_durable.Registry.Kinds.{ResolvedKind}
use open_mercato_durable.Registry.Register.{get}
use open_mercato_durable.World.{World, pause}
use open_mercato_durable.Reconciler.Repair.{redriven, repair_orphan}
use open_mercato_durable.Reconciler.Orphan.{repair_orphan-redriven}
use open_mercato_durable.Protocol.Idle.{Idle, rest, on}
use open_mercato_durable.Protocol.Steps.{Step}
use open_mercato_durable.Store.Writes.Write.{claims}
use open_mercato_durable.Slice.Lawful.{at}
use open_mercato_durable.Tests.Data.{
  tenant, first_delivery, held_job, counting_kind, quiet, world_of,
}

abbrev orphaned : World ℕ
orphaned = world_of 40000 (held_job 1 ∷ [])

orphan_test : (repair_orphan quiet (counting_kind ∷ []) 20000 (held_job 1) orphaned).0 ≡ redriven
unfolding repair_orphan held_job open_mercato_durable.Store.Table.update
    open_mercato_durable.Store.Redrive.take_orphan_row
orphan_test = refl

repair_orphan-redriven_example :
    (k : ResolvedKind ℕ) × (r : DurableJob) × (get (held_job 1).kind (counting_kind ∷ []) ≡ some k)
    × (verdict_of (held_job 1).error_code ≡ none)
    × (k.orphan_policy ≡ OrphanPolicy.redrive)
    × ((held_job 1).redrives_since_commit < k.budget.poison_redrives_without_commit)
    × (find (held_job 1).id (pause quiet orphaned).jobs ≡ some r)
    × (r.status ≡ DurableJobStatus.running)
    × (r.cancel_requested_at ≡ none)
    × ((repair_orphan quiet (counting_kind ∷ []) 20000 (held_job 1) orphaned).1.sent
        ≡ [] ++ record { job_id = r.id; seq = r.continuation_seq; redrives = r.redrives + 1 } ∷ [])
repair_orphan-redriven_example =
    repair_orphan-redriven quiet (counting_kind ∷ []) 20000 (held_job 1) orphaned orphan_test

-- A claim between two re-drives is no commit.
claimed_between :
    Idle 1
      (at 50000 (held_job 1 ∷ []))
      (at 50000 (update 1 (claim_row 50000 tenant (first_delivery 1) 6 100) (held_job 1 ∷ [])).1)
claimed_between =
    on {e = at 50000 (held_job 1 ∷ [])} rest (Step.write 1 (claims tenant (first_delivery 1) 6 100))
      refl

abbrev plain : ReconcilerOptions
plain = record { grace_ms = none; batch_size = some 5; tenant_id = none; name = 9 }

reconcile_once-report_example :
    (length (reconcile_once quiet (counting_kind ∷ []) plain orphaned).1.sent
      ≡ 0 + (reconcile_once quiet (counting_kind ∷ []) plain orphaned).0.redriven)
    × ((reconcile_once quiet (counting_kind ∷ []) plain orphaned).0.scanned ≤ 3 * 5)
    × ((reconcile_once quiet (counting_kind ∷ []) plain orphaned).0.cancelled
          + (reconcile_once quiet (counting_kind ∷ []) plain orphaned).0.redriven
          + (reconcile_once quiet (counting_kind ∷ []) plain orphaned).0.parked
          + (reconcile_once quiet (counting_kind ∷ []) plain orphaned).0.errors
        ≤ (reconcile_once quiet (counting_kind ∷ []) plain orphaned).0.scanned)
reconcile_once-report_example = reconcile_once-report quiet (counting_kind ∷ []) plain orphaned

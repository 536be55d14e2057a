-- ===== src/Reconciler/Pass.antt =====
-- One pass of the reconciler (core/reconciler.ts, `reconcileOnce`): the cancellations, then the
-- orphans, then the pending jobs whose delivery never arrived.
use open_mercato_durable.Common.{ℕ, ◌+◌, Bool, Option, [], ◌∷◌, coalesce}
use open_mercato_durable.Types.{DurableJob}
use open_mercato_durable.Store.Table.{Table}
use open_mercato_durable.Store.Select.{select_cancelling, select_orphans, select_stale_pending}
use open_mercato_durable.Registry.Register.{KindRegistry, widest}
use open_mercato_durable.World.{World, Environment, execute}
use open_mercato_durable.Reconciler.Repair.{Repair, end_cancelled, repair_orphan, repair_pending}

pub record ReconcileReport : Type 0 where
  pub scanned : ℕ
  pub cancelled : ℕ
  pub redriven : ℕ
  pub parked : ℕ
  pub errors : ℕ

abbrev pub empty_report : ReconcileReport
empty_report = record { scanned = 0; cancelled = 0; redriven = 0; parked = 0; errors = 0 }

abbrev pub count : Repair → ReconcileReport → ReconcileReport
count Repair.ended c = record c { scanned = c.scanned + 1; cancelled = c.cancelled + 1 }
count Repair.redriven c = record c { scanned = c.scanned + 1; redriven = c.redriven + 1 }
count Repair.parked c = record c { scanned = c.scanned + 1; parked = c.parked + 1 }
count Repair.skipped c = record c { scanned = c.scanned + 1 }
count (Repair.raised e) c = record c { scanned = c.scanned + 1; errors = c.errors + 1 }

pub record ReconcilerOptions : Type 0 where
  pub grace_ms : Option ℕ
  pub batch_size : Option ℕ
  pub tenant_id : Option ℕ
  pub name : ℕ

module _ {D : Type 0} where
  -- 900_000 if no kind is registered.
  unfoldable pub widest_pending_ttl : KindRegistry D → ℕ
  unfolding widest
  widest_pending_ttl [] = 900000
  widest_pending_ttl kinds = widest kinds

  -- A selection commits before any row of it is repaired.
  unfoldable pub select :
      Environment D → ((ℕ → Bool) → ℕ → Table → Table) → World D → Table × World D
  unfolding execute
  select env query w = execute env (λ now t. (query (env.locked w.turn) now t, t)) w

  unfoldable pub repair_all :
      (DurableJob → World D → Repair × World D)
      → Table
      → ReconcileReport × World D
      → ReconcileReport × World D
  repair_all repair [] s = s
  repair_all repair (job ∷ jobs) (report, w) =
      let (r, u) = repair job w in repair_all repair jobs (count r report, u)

  unfoldable pub reconcile_once :
      Environment D → KindRegistry D → ReconcilerOptions → World D → ReconcileReport × World D
  unfolding widest_pending_ttl select repair_all select_cancelling select_orphans
      select_stale_pending end_cancelled repair_orphan repair_pending
  reconcile_once env kinds o w =
      let limit = coalesce o.batch_size 100 in
      let grace = coalesce o.grace_ms 20000 in
      let ttl = widest_pending_ttl kinds in
      let (asked, w1) =
        select env (λ locked now t. select_cancelling locked limit o.tenant_id t) w in
      let (report1, w2) = repair_all (end_cancelled env kinds o.name) asked (empty_report, w1) in
      let (orphans, w3) =
        select env (λ locked now t. select_orphans locked now grace ttl limit o.tenant_id t) w2 in
      let (report2, w4) = repair_all (repair_orphan env kinds grace) orphans (report1, w3) in
      let (stale, w5) =
        select env (λ locked now t. select_stale_pending locked now ttl limit o.tenant_id t) w4 in
      repair_all (repair_pending env kinds) stale (report2, w5)

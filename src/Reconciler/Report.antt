-- ===== src/Reconciler/Report.antt =====
-- What a pass reports (core/reconciler.ts, `reconcileOnce`).
use open_mercato_durable.Common.{
  ℕ, zero, suc, ◌+◌, ◌*◌, ◌≤◌, ◌≡◌, Bool, [], ◌∷◌, length, coalesce, arith,
}
use open_mercato_durable.Types.{DurableJob}
use open_mercato_durable.Store.Table.{Table}
use open_mercato_durable.Registry.Register.{KindRegistry}
use open_mercato_durable.World.{World, Environment, pause, execute}
use open_mercato_durable.Store.Select.{
  take, select_cancelling, select_orphans, select_stale_pending,
}
use open_mercato_durable.Reconciler.Pass.{
  ReconcileReport, empty_report, count, ReconcilerOptions, widest_pending_ttl, select, repair_all,
  reconcile_once,
}
use open_mercato_durable.Reconciler.Repair.{
  Repair, ended, redriven, parked, skipped, raised, end_cancelled, repair_orphan, repair_pending,
}
use open_mercato_durable.Reconciler.Published.{
  sent_by, Tells, end_cancelled-Tells, repair_orphan-Tells, repair_pending-Tells,
}

-- What the report counts, beside what a pass scanned.
abbrev pub accounted : ReconcileReport → ℕ
accounted c = c.cancelled + c.redriven + c.parked + c.errors

pub record IsTrue {D : Type 0} (w : World D) (most : ℕ) (o : ReconcileReport × World D)
    : Type 0 where
  pub published : length o.1.sent ≡ length w.sent + o.0.redriven
  pub few : o.0.scanned ≤ most
  pub once_each : accounted o.0 ≤ o.0.scanned

-- One repair in a report.
count_lem :
    (r : Repair) (c : ReconcileReport)
    → ((count r c).redriven ≡ c.redriven + sent_by r)
      × ((count r c).scanned ≡ c.scanned + 1)
      × (accounted (count r c) ≤ accounted c + 1)
count_lem ended c = omega arith
count_lem redriven c = omega arith
count_lem parked c = omega arith
count_lem skipped c = omega arith
count_lem (raised e) c = omega arith

repair_all-IsTrue :
    {D : Type 0} (w : World D) (n : ℕ) (repair : DurableJob → World D → Repair × World D)
    (jobs : Table) (c : ReconcileReport) (v : World D)
    → ((job : DurableJob) (u : World D) → Tells u (repair job u))
    → IsTrue w n (c, v)
    → IsTrue w (n + length jobs) (repair_all repair jobs (c, v))
unfolding repair_all
repair_all-IsTrue w n repair [] c v tells h = record {
  published = h.published;
  few = omega (arith, h.few);
  once_each = h.once_each;
}
repair_all-IsTrue w n repair (job ∷ jobs) c v tells h =
    let (r, u) = repair job v in
    let (published, scanned, accounts) = count_lem r c in
    let first : IsTrue w (n + 1) (count r c, u) = record {
      published = omega (arith, h.published, tells job v, published);
      few = omega (arith, h.few, scanned);
      once_each = omega (arith, h.once_each, scanned, accounts);
    } in
    let all = repair_all-IsTrue w (n + 1) repair jobs (count r c) u tells first in
    record { published = all.published; few = omega (arith, all.few); once_each = all.once_each }

length-take : (n : ℕ) (t : Table) → length (take n t) ≤ n
unfolding take
length-take zero t = omega arith
length-take (suc n) [] = omega arith
length-take (suc n) (r ∷ t) = omega (arith, length-take n t)

module _ {D : Type 0} (env : Environment D) where
  -- A selection, and the repair of what it found.
  abbrev repair_selected :
      (DurableJob → World D → Repair × World D)
      → ((ℕ → Bool) → ℕ → Table → Table)
      → ReconcileReport × World D
      → ReconcileReport × World D
  repair_selected repair query (c, v) =
      let (jobs, u) = select env query v in repair_all repair jobs (c, u)

  repair_selected-IsTrue :
      (w : World D) (n limit : ℕ) (repair : DurableJob → World D → Repair × World D)
      (query : (ℕ → Bool) → ℕ → Table → Table) (o : ReconcileReport × World D)
      → ((job : DurableJob) (u : World D) → Tells u (repair job u))
      → ((locked : ℕ → Bool) (now : ℕ) (t : Table) → length (query locked now t) ≤ limit)
      → IsTrue w n o
      → IsTrue w (n + limit) (repair_selected repair query o)
  unfolding select execute pause
  repair_selected-IsTrue w n limit repair query (c, v) tells small h =
      let (jobs, u) = select env query v in
      let after : IsTrue w n (c, u) = record {
        published = h.published;
        few = h.few;
        once_each = h.once_each;
      } in
      let all = repair_all-IsTrue w n repair jobs c u tells after in
      record {
        published = all.published;
        few =
            omega (arith, all.few, small (env.locked v.turn) (pause env v).now (pause env v).jobs);
        once_each = all.once_each;
      }

  -- A pass publishes exactly as many deliveries as its report says were re-driven; it scans at most
  -- three batches, and counts a job that it scanned under one heading at most.
  pub reconcile_once-report :
      (kinds : KindRegistry D) (o : ReconcilerOptions) (w : World D)
      → let r = reconcile_once env kinds o w in
        (length r.1.sent ≡ length w.sent + r.0.redriven)
        × (r.0.scanned ≤ 3 * coalesce o.batch_size 100)
        × (r.0.cancelled + r.0.redriven + r.0.parked + r.0.errors ≤ r.0.scanned)
  unfolding reconcile_once select_cancelling select_orphans select_stale_pending
  reconcile_once-report kinds o w =
      let limit = coalesce o.batch_size 100 in
      let grace = coalesce o.grace_ms 20000 in
      let ttl = widest_pending_ttl kinds in
      let begin : IsTrue w 0 (empty_report, w) = record {
        published = omega arith;
        few = omega arith;
        once_each = omega arith;
      } in
      let first =
        repair_selected-IsTrue w 0 limit (end_cancelled env kinds o.name)
          (λ locked now t. select_cancelling locked limit o.tenant_id t) (empty_report, w)
          (end_cancelled-Tells env kinds o.name) (λ locked now t. length-take limit _) begin in
      let second =
        repair_selected-IsTrue w _ limit (repair_orphan env kinds grace)
          (λ locked now t. select_orphans locked now grace ttl limit o.tenant_id t) _
          (repair_orphan-Tells env kinds grace) (λ locked now t. length-take limit _) first in
      let third =
        repair_selected-IsTrue w _ limit (repair_pending env kinds)
          (λ locked now t. select_stale_pending locked now ttl limit o.tenant_id t) _
          (repair_pending-Tells env kinds) (λ locked now t. length-take limit _) second in
      (third.published, omega (arith, third.few), third.once_each)

-- ===== src/Reconciler/Ahead.antt =====
-- How a re-drive counts in the row (core/reconciler.ts, `repairOrphan`; core/store.ts, `takeOrphan`).
use mathlib.Core.Option.{some-injective}
use open_mercato_durable.Common.{
  ℕ, suc, ◌+◌, ◌≤◌, ◌≡◌, refl, sym, ap, ◌∙◌, subst, inl, inr, Option, none, some, arith, Bool-cases,
}
use open_mercato_durable.Types.{DurableJob}
use open_mercato_durable.Store.Table.{Table, row_after, find, update}
use open_mercato_durable.Store.Redrive.{take_orphan_row, record_enqueue_row, record_enqueue}
use open_mercato_durable.Store.Writes.{Write-origin}
use open_mercato_durable.Store.Writes.Write.{takes}
use open_mercato_durable.Store.Rows.{find-id, find-update_self, update-some}
use open_mercato_durable.Protocol.Reachable.{Reach-Kept}
use open_mercato_durable.Registry.Kinds.{ResolvedKind}
use open_mercato_durable.World.{World, Environment, pause, execute}
use open_mercato_durable.Slice.Lawful.{IsLawful, pause-Reach}
use open_mercato_durable.Queue.{enqueue_job}
use open_mercato_durable.Reconciler.Repair.{redriven, publish, redrive_backoff_ms, take_and_publish}
use open_mercato_durable.Reconciler.Orphan.{take_orphan}

-- From one table to the other the count of the job's re-drives since its last commit does not fall.
abbrev pub KeepsCount : ℕ → Table → Table → Type 0
KeepsCount id t u =
    (r q : DurableJob)
    → find id t ≡ some r
    → find id u ≡ some q
    → r.redrives_since_commit ≤ q.redrives_since_commit

-- The job's row, later: of the same origin, and with `n` re-drives since the last commit, or more.
pub record Ahead (id n : ℕ) (r : DurableJob) (t : Table) : Type 0 where
  pub row : DurableJob
  pub found : find id t ≡ some row
  pub counted : n ≤ row.redrives_since_commit
  pub same_origin : row.origin ≡ r.origin

Ahead-record_enqueue :
    (id n : ℕ) (r : DurableJob) (job_id queue : ℕ) (t : Table)
    → Ahead id n r t
    → Ahead id n r (record_enqueue id job_id queue t)
unfolding record_enqueue record_enqueue_row
Ahead-record_enqueue id n r job_id queue t a =
    let s = record_enqueue_row job_id queue in
    record {
      row = row_after s a.row;
      found = find-update_self id s t a.row (λ q. refl) a.found;
      counted = a.counted;
      same_origin = a.same_origin;
    }

module _ {D : Type 0} (env : Environment D) (lawful : IsLawful env) (id : ℕ)
    (idle : (turn now : ℕ) (t : Table) (d : D)
      → KeepsCount id t (env.others turn now (t, d)).0) where
  Ahead-pause :
      (n : ℕ) (r : DurableJob) (w : World D) → Ahead id n r w.jobs → Ahead id n r (pause env w).jobs
  unfolding pause
  Ahead-pause n r w a =
      let (q, found, kept) = Reach-Kept id a.row a.found (pause-Reach env lawful w) in
      let counted : a.row.redrives_since_commit ≤ q.redrives_since_commit =
        idle w.turn (w.now + env.elapsed w.turn) w.jobs w.domain a.row q a.found found in
      record {
        row = q;
        found = found;
        counted = omega (arith, a.counted);
        same_origin = kept.same_origin ∙ a.same_origin;
      }

  Ahead-publish :
      (n : ℕ) (r : DurableJob) (k : ResolvedKind D) (row : Option DurableJob) (u : World D)
      → (publish env k (row, u)).0 ≡ redriven
      → ((c : DurableJob) → row ≡ some c → (c.id ≡ id) × Ahead id n r u.jobs)
      → Ahead id n r (publish env k (row, u)).1.jobs
  unfolding publish enqueue_job execute
  Ahead-publish n r k none u h taken = cc
  Ahead-publish n r k (some c) u h taken = elim (Bool-cases (env.broker_refuses u.turn)) [
    | inl refuses ↦ cc (rw (refuses, publish) at h)
    | inr accepts ↦
        let (own, a) = taken c refl in
        rw (accepts, own) (Ahead-record_enqueue id n r _ _ (pause env u).jobs (Ahead-pause n r u a))
  ]

  redrive_counts :
      (k : ResolvedKind D) (grace : ℕ) (job : DurableJob) (now : ℕ) (q : DurableJob)
      → ((take_orphan env k grace job now).set q).redrives_since_commit
        ≡ q.redrives_since_commit + 1
  unfolding take_orphan_row
  redrive_counts k grace job now q = refl

  -- A re-drive counts: it takes the row as it is then.
  pub Ahead-take_and_publish :
      (n : ℕ) (r job : DurableJob) (k : ResolvedKind D) (grace : ℕ) (w : World D)
      → job.id ≡ id
      → (take_and_publish env k grace job w).0 ≡ redriven
      → Ahead id n r w.jobs
      → Ahead id (suc n) r (take_and_publish env k grace job w).1.jobs
  unfolding take_and_publish execute
  Ahead-take_and_publish n r job k grace w own h a =
      let p = pause env w in
      let s = take_orphan env k grace job p.now in
      let u : World D = record p { jobs = (update job.id s p.jobs).1 } in
      let b = Ahead-pause n r w a in
      Ahead-publish (suc n) r k (update job.id s p.jobs).0 u h λ c taken.
        let (q, found, matched, set_q, after) =
          update-some job.id s p.jobs c
            (Write-origin
              (takes grace k.lease.pending_ttl_ms (redrive_backoff_ms job.redrives_since_commit)))
            taken in
        let is : q ≡ b.row =
          some-injective q b.row (sym found ∙ ap (λ i. find i p.jobs) own ∙ b.found) in
        (
          find-id job.id u.jobs c after ∙ own,
          record {
            row = c;
            found = subst (λ i. find i u.jobs ≡ some c) own after;
            counted = omega (
              arith,
              b.counted,
              ap (λ x. x.redrives_since_commit) is,
              redrive_counts k grace job p.now q,
              ap (λ x. x.redrives_since_commit) set_q,
            );
            same_origin =
                ap (λ x. x.origin) (sym set_q)
                ∙ Write-origin
                    (takes grace k.lease.pending_ttl_ms
                      (redrive_backoff_ms job.redrives_since_commit))
                    q
                ∙ ap (λ x. x.origin) is
                ∙ b.same_origin;
          },
        )

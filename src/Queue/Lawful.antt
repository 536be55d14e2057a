-- ===== src/Queue/Lawful.antt =====
-- The publication of a delivery and the transactions without a lease, as steps of the protocol
-- (core/worker.ts, `enqueueJob`; core/service.ts; core/reconciler.ts).
use open_mercato_durable.Common.{
  ℕ, ◌≡◌, refl, inl, inr, Option, none, some, Bool-cases, Option-cases, coalesce,
}
use open_mercato_durable.Types.{DurableJob, Scope}
use open_mercato_durable.Store.Table.{Table, Statement, update}
use open_mercato_durable.Store.Settle.{mark_mirrored, cancel_pending_row}
use open_mercato_durable.Store.Redrive.{record_enqueue}
use open_mercato_durable.Store.Writes.{Write}
use open_mercato_durable.Store.Writes.Write.{mirrors, drops, enqueues}
use open_mercato_durable.Protocol.Steps.{Reach}
use open_mercato_durable.Protocol.Steps.Reach.{here}
use open_mercato_durable.Registry.Script.{Attempt, commits, throws}
use open_mercato_durable.Registry.Kinds.{ResolvedKind}
use open_mercato_durable.World.{World, Environment, pause, send}
use open_mercato_durable.Slice.Lawful.{
  Reach-trans, at, update-Reach, db, IsLawful, run_after_transition-db, pause-Reach, execute-Reach,
}
use open_mercato_durable.Queue.{
  enqueue_job, delivery_of, cancel_callbacks, commit, transact, end_pending, after_transition,
}

module _ {D : Type 0} where
  pub after_transition-db :
      (kind : Option (ResolvedKind D)) (job : DurableJob) (scope : Scope) (w : World D)
      → db (after_transition kind job scope w) ≡ db w
  after_transition-db none job scope w = refl
  after_transition-db (some k) job scope w = run_after_transition-db k job scope w

  commit-Reach :
      (jobs : Table) (row : DurableJob) (a : Attempt D) (w p : World D)
      → Reach (db w) (db p)
      → Reach (db w) (at p.now jobs)
      → Reach (db w) (db (commit jobs row a p).1)
  unfolding mark_mirrored
  commit-Reach jobs row (commits n d) w p before done =
      Reach-trans done (update-Reach p.now row.id jobs mirrors)
  commit-Reach jobs row (throws e) w p before done = before

module _ {D : Type 0} (env : Environment D) (lawful : IsLawful env) where
  pub enqueue_job-Reach :
      (k : ResolvedKind D) (job : DurableJob) (w : World D)
      → Reach (db w) (db (enqueue_job env k job w).1)
  unfolding enqueue_job record_enqueue
  enqueue_job-Reach k job w = elim (Bool-cases (env.broker_refuses w.turn)) [
    | inl refuses ↦ rw refuses here
    | inr accepts ↦
        let queue = coalesce job.queue_name k.queue in
        let id = env.transport_job_id (delivery_of job) in
        let f : ℕ → Table → ℕ × Table = λ now t. (job.id, record_enqueue job.id id queue t) in
        rw (accepts, enqueue_job)
          (execute-Reach env lawful f (send (delivery_of job) w)
            (λ now t. update-Reach now job.id t (enqueues id queue)))
  ]

  pub transact-Reach :
      (id : ℕ) (statement : ℕ → Statement) (calls : DurableJob → D → Attempt D) (w : World D)
      → ((now : ℕ) → Write now (statement now))
      → Reach (db w) (db (transact env id statement calls w).1)
  unfolding transact
  transact-Reach id statement calls w lawful_statement =
      let p = pause env w in
      let t = (update id (statement p.now) p.jobs).1 in
      elim (Option-cases (update id (statement p.now) p.jobs).0) [
        | inl nothing ↦ rw (nothing, transact) (pause-Reach env lawful w)
        | inr (r, matched) ↦
            rw (matched, transact)
              (commit-Reach t r (calls r p.domain) w p (pause-Reach env lawful w) (
                Reach-trans (pause-Reach env lawful w)
                  (update-Reach p.now id p.jobs (lawful_statement p.now))))
      ]

  pub end_pending-Reach :
      (kind : Option (ResolvedKind D)) (id : ℕ) (scope : DurableJob → Scope) (w : World D)
      → Reach (db w) (db (end_pending env kind id scope w).1)
  unfolding end_pending
  end_pending-Reach kind id scope w =
      transact-Reach id cancel_pending_row (λ r d. cancel_callbacks kind r (scope r) d) w
        (λ now. drops)

-- ===== src/Service/Creates.antt =====
-- `start` and `startAndEnqueue` (core/service.ts) as steps of the protocol.
use open_mercato_durable.Common.{
  ℕ, inl, inr, Bool, true, false, Option, Bool-cases, Option-cases, coalesce,
}
use open_mercato_durable.Types.{DurableJob, Scope, StartJobInput}
use open_mercato_durable.Store.Table.{Table}
use open_mercato_durable.Store.Redrive.{record_enqueue}
use open_mercato_durable.Store.Create.{InsertResult, created, existing, new_job, try_insert}
use open_mercato_durable.Store.Writes.Write.{enqueues}
use open_mercato_durable.Protocol.Steps.{Step, Reach}
use open_mercato_durable.Registry.Kinds.{ResolvedKind}
use open_mercato_durable.Registry.Register.{KindRegistry, get}
use open_mercato_durable.World.{World, Environment, pause, execute}
use open_mercato_durable.Slice.Lawful.{
  Reach-trans, at, update-Reach, db, IsLawful, execute-Reach, pause-Reach,
}
use open_mercato_durable.Queue.{delivery_of}
use open_mercato_durable.Queue.Lawful.{enqueue_job-Reach}
use open_mercato_durable.Service.Start.{
  StartResult, started, queue_for, insert_job_in, start, publish_started, publish_within,
  start_within, start_and_enqueue,
}

module _ {D : Type 0} (env : Environment D) (lawful : IsLawful env) where
  insert_job_in-Reach :
      (id : ℕ) (scope : Scope) (i : StartJobInput) (queue : ℕ) (w : World D)
      → Reach (db w) (db (insert_job_in env id scope i queue w).1)
  unfolding insert_job_in
  insert_job_in-Reach id scope i queue w =
      let f : ℕ → Table → Option DurableJob × Table =
        λ now t. try_insert (new_job now id scope i queue) t in
      let u = (execute env f w).1 in
      let reach : Reach (db w) (db u) =
        execute-Reach env lawful f w
          (λ now t. Reach.next Reach.here (Step.create id scope i queue)) in
      elim (Option-cases (execute env f w).0) [
        | inl clash ↦ rw (clash, insert_job_in) (Reach-trans reach (pause-Reach env lawful u))
        | inr (r, fresh) ↦ rw (fresh, insert_job_in) reach
      ]

  start-Reach :
      (kinds : KindRegistry D) (default_queue id : ℕ) (i : StartJobInput) (scope : Scope)
      (w : World D)
      → Reach (db w) (db (start env kinds default_queue id i scope w).1)
  unfolding start
  start-Reach kinds default_queue id i scope w = elim (Option-cases (get i.kind kinds)) [
    | inl unknown ↦ rw (unknown, start) Reach.here
    | inr (k, known) ↦
        rw (known, start) (insert_job_in-Reach id scope i (queue_for k default_queue) w)
  ]

  publish_started-Reach :
      (kinds : KindRegistry D) (r : StartResult) (w u : World D)
      → Reach (db w) (db u)
      → Reach (db w) (db (publish_started env kinds (r, u)).1)
  unfolding publish_started
  publish_started-Reach kinds (started (created job)) w u reach =
      elim (Option-cases (get job.kind kinds)) [
        | inl unknown ↦ rw (unknown, publish_started) reach
        | inr (k, known) ↦
            rw (known, publish_started) (Reach-trans reach (enqueue_job-Reach env lawful k job u))
      ]
  publish_started-Reach kinds (started (existing job)) w u reach = reach
  publish_started-Reach kinds (started _) w u reach = reach
  publish_started-Reach kinds _ w u reach = reach

  publish_within-Reach :
      (k : ResolvedKind D) (before : World D) (r : InsertResult) (w u : World D)
      → Reach (db w) (db u)
      → Reach (db w) (at u.now before.jobs)
      → Reach (db w) (db (publish_within env k before (r, u)).1)
  unfolding publish_within record_enqueue
  publish_within-Reach k before (created job) w u reach back =
      elim (Bool-cases (env.broker_refuses u.turn)) [
        | inl refuses ↦ rw refuses back
        | inr accepts ↦ rw accepts (
            Reach-trans reach (
              update-Reach u.now job.id u.jobs (
                enqueues (env.transport_job_id (delivery_of job))
                  (coalesce job.queue_name k.queue))))
      ]
  publish_within-Reach k before (existing job) w u reach back = reach
  publish_within-Reach k before _ w u reach back = reach

  start_within-Reach :
      (k : ResolvedKind D) (default_queue id : ℕ) (i : StartJobInput) (scope : Scope) (w : World D)
      → Reach (db w) (db (start_within env k default_queue id i scope w).1)
  unfolding start_within
  start_within-Reach k default_queue id i scope w =
      let p = pause env w in
      let q = pause env p in
      let queue = queue_for k default_queue in
      let row = new_job p.now id scope i queue in
      let paused : Reach (db w) (db p) = pause-Reach env lawful w in
      let inserted : Reach (db w) (at p.now (try_insert row p.jobs).1) =
        Reach.next paused (Step.create id scope i queue) in
      elim (Option-cases (try_insert row p.jobs).0) [
        | inr (r, fresh) ↦
            rw (fresh, start_within)
              (publish_within-Reach k p (created r) w
                (record p { jobs = (try_insert row p.jobs).1 }) inserted paused)
        | inl clash ↦ rw (clash, start_within) (Reach-trans paused (pause-Reach env lawful p))
      ]

  -- Every operation that starts a job is a run of the protocol.
  pub start_and_enqueue-Reach :
      (transactional : Bool) (kinds : KindRegistry D) (default_queue id : ℕ) (i : StartJobInput)
      (scope : Scope) (w : World D)
      → Reach (db w) (db (start_and_enqueue transactional env kinds default_queue id i scope w).1)
  unfolding start_and_enqueue
  start_and_enqueue-Reach true kinds default_queue id i scope w =
      elim (Option-cases (get i.kind kinds)) [
        | inl unknown ↦ rw (unknown, start_and_enqueue) Reach.here
        | inr (k, known) ↦
            rw (known, start_and_enqueue) (start_within-Reach k default_queue id i scope w)
      ]
  start_and_enqueue-Reach false kinds default_queue id i scope w =
      let s = start env kinds default_queue id i scope w in
      publish_started-Reach kinds s.0 w s.1 (start-Reach kinds default_queue id i scope w)

-- ===== src/Service/Kept.antt =====
-- That a start leaves a job with its key (core/service.ts, `startAndEnqueue`).
use open_mercato_durable.Common.{
  ℕ, ◌≡◌, refl, inl, inr, Bool, true, false, some, coalesce, Bool-cases, Option-cases,
}
use open_mercato_durable.Types.{DurableJob, Scope, StartJobInput}
use open_mercato_durable.Store.Create.{
  created, existing, job_exists, lock_key_held, conflict_gone, new_job, try_insert,
}
use open_mercato_durable.Store.Redrive.{record_enqueue}
use open_mercato_durable.Store.Writes.Write.{enqueues}
use open_mercato_durable.Protocol.Steps.{is_unique, Reach, Step}
use open_mercato_durable.Protocol.SingleRunner.{Reach-is_unique}
use open_mercato_durable.Registry.Kinds.{ResolvedKind}
use open_mercato_durable.Registry.Register.{KindRegistry, get}
use open_mercato_durable.World.{World, Environment, pause, execute}
use open_mercato_durable.Slice.Lawful.{Reach-trans, db, IsLawful, pause-Reach, update-Reach}
use open_mercato_durable.Queue.{delivery_of}
use open_mercato_durable.Queue.Lawful.{enqueue_job-Reach}
use open_mercato_durable.Service.Start.{
  StartResult, started, no_such_kind, not_published, queue_for, insert_job_in, start,
  publish_started, publish_within, start_within, start_and_enqueue,
}
use open_mercato_durable.Service.Idempotent.{Holds, Reach-Holds}
use open_mercato_durable.Service.Inserted.{has_job, explained-Holds, inserted-Holds}

module _ {D : Type 0} (env : Environment D) (lawful : IsLawful env) (scope : Scope)
    (i : StartJobInput) (key : ℕ) (keyed : i.idempotency_key ≡ some key) where
  pause-is_unique : (w : World D) → is_unique w.jobs ≡ true → is_unique (pause env w).jobs ≡ true
  pause-is_unique w unique = Reach-is_unique unique (pause-Reach env lawful w)

  -- What a start leaves: if it was answered with a job, one with the key is there.
  abbrev Leaves : StartResult × World D → Type 0
  Leaves o = has_job o.0 ≡ true → Holds scope.tenant_id key o.1.jobs

  insert_job_in-Leaves :
      (id queue : ℕ) (w : World D)
      → is_unique w.jobs ≡ true
      → Leaves (
        started (insert_job_in env id scope i queue w).0,
        (insert_job_in env id scope i queue w).1,
      )
  unfolding insert_job_in execute
  insert_job_in-Leaves id queue w unique h =
      let p = pause env w in
      let t = try_insert (new_job p.now id scope i queue) p.jobs in
      elim (Option-cases t.0) [
        | inl refused ↦
            let u = (execute env (λ now t. try_insert (new_job now id scope i queue) t) w).1 in
            let created_at : Reach (db w) (db u) =
              Reach.next (pause-Reach env lawful w) (Step.create id scope i queue) in
            let unique' =
              Reach-is_unique unique (Reach-trans created_at (pause-Reach env lawful u)) in
            rw (refused, insert_job_in)
              (explained-Holds id scope i key (pause env u).jobs keyed unique'
                (rw (refused, insert_job_in) at h))
        | inr (r, done) ↦
            rw (done, insert_job_in) (inserted-Holds p.now id scope i queue key p.jobs r keyed done)
      ]

  publish_started-Leaves :
      (kinds : KindRegistry D) (r : StartResult) (u : World D)
      → Leaves (r, u)
      → Leaves (publish_started env kinds (r, u))
  unfolding publish_started
  publish_started-Leaves kinds (started (created job)) u before h =
      elim (Option-cases (get job.kind kinds)) [
        | inl unknown ↦ rw (unknown, publish_started) (before refl)
        | inr (k, known) ↦
            rw (known, publish_started)
              (Reach-Holds scope.tenant_id key (enqueue_job-Reach env lawful k job u) (before refl))
      ]
  publish_started-Leaves kinds (started (existing job)) u before h = before h
  publish_started-Leaves kinds (started job_exists) u before h = cc
  publish_started-Leaves kinds (started (lock_key_held a b)) u before h = cc
  publish_started-Leaves kinds (started conflict_gone) u before h = cc
  publish_started-Leaves kinds no_such_kind u before h = cc
  publish_started-Leaves kinds (not_published job) u before h = cc

  start-Leaves :
      (kinds : KindRegistry D) (default_queue id : ℕ) (w : World D)
      → is_unique w.jobs ≡ true
      → Leaves (start env kinds default_queue id i scope w)
  unfolding start
  start-Leaves kinds default_queue id w unique h = elim (Option-cases (get i.kind kinds)) [
    | inl unknown ↦ cc (rw (unknown, start) at h)
    | inr (k, known) ↦
        rw (known, start)
          (insert_job_in-Leaves id (queue_for k default_queue) w unique (rw (known, start) at h))
  ]

  publish_within-Leaves :
      (k : ResolvedKind D) (before : World D) (r : DurableJob) (u : World D)
      → Holds scope.tenant_id key u.jobs
      → Leaves (publish_within env k before (created r, u))
  unfolding publish_within record_enqueue
  publish_within-Leaves k before r u holds h = elim (Bool-cases (env.broker_refuses u.turn)) [
    | inl refuses ↦ cc (rw (refuses, publish_within) at h)
    | inr accepts ↦
        rw (accepts, publish_within)
          (Reach-Holds scope.tenant_id key
            (update-Reach u.now r.id u.jobs
              (enqueues (env.transport_job_id (delivery_of r)) (coalesce r.queue_name k.queue)))
            holds)
  ]

  start_within-Leaves :
      (k : ResolvedKind D) (default_queue id : ℕ) (w : World D)
      → is_unique w.jobs ≡ true
      → Leaves (start_within env k default_queue id i scope w)
  unfolding start_within publish_within
  start_within-Leaves k default_queue id w unique h =
      let p = pause env w in
      let queue = queue_for k default_queue in
      let t = try_insert (new_job p.now id scope i queue) p.jobs in
      elim (Option-cases t.0) [
        | inl refused ↦
            let reach = Reach-trans (pause-Reach env lawful w) (pause-Reach env lawful p) in
            rw (refused, start_within)
              (explained-Holds id scope i key (pause env p).jobs keyed
                (Reach-is_unique unique reach) (rw (refused, start_within) at h))
        | inr (r, done) ↦
            let holds = inserted-Holds p.now id scope i queue key p.jobs r keyed done in
            rw (done, start_within)
              (publish_within-Leaves k p r (record p { jobs = t.1 }) holds
                (rw (done, start_within) at h))
      ]

  -- If a start with a key was answered with a job, then a job of the tenant carries the key, whatever
  -- statements of the protocol the others run in between.
  pub start_and_enqueue-Holds :
      (transactional : Bool) (kinds : KindRegistry D) (default_queue id : ℕ) (w : World D)
      → is_unique w.jobs ≡ true
      → Leaves (start_and_enqueue transactional env kinds default_queue id i scope w)
  unfolding start_and_enqueue start
  start_and_enqueue-Holds true kinds default_queue id w unique h =
      elim (Option-cases (get i.kind kinds)) [
        | inl unknown ↦ cc (rw (unknown, start_and_enqueue) at h)
        | inr (k, known) ↦
            rw (known, start_and_enqueue)
              (start_within-Leaves k default_queue id w unique (rw (known, start_and_enqueue) at h))
      ]
  start_and_enqueue-Holds false kinds default_queue id w unique h =
      let s = start env kinds default_queue id i scope w in
      publish_started-Leaves kinds s.0 s.1 (start-Leaves kinds default_queue id w unique) h

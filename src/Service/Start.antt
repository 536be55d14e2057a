-- ===== src/Service/Start.antt =====
-- `start` and `startAndEnqueue` (core/service.ts).
use open_mercato_durable.Common.{ℕ, Bool, none, some, ◌==◌, if◌then◌else◌, coalesce}
use open_mercato_durable.Types.{DurableJob, Scope, StartJobInput}
use open_mercato_durable.Store.Redrive.{record_enqueue}
use open_mercato_durable.Store.Create.{InsertResult, created, new_job, try_insert, explain_conflict}
use open_mercato_durable.Registry.Kinds.{ResolvedKind}
use open_mercato_durable.Registry.Register.{KindRegistry, get}
use open_mercato_durable.World.{World, Environment, pause, execute, send}
use open_mercato_durable.Queue.{delivery_of, enqueue_job}

-- `no_such_kind` and `not_published` are throws.
pub data StartResult : Type 0 where
  no_such_kind : StartResult
  started : InsertResult → StartResult
  not_published : DurableJob → StartResult

module _ {D : Type 0} where
  -- `kind.queue || queueNameFor('default')`, whose text is `default_queue`.
  abbrev pub queue_for : ResolvedKind D → ℕ → ℕ
  queue_for k default_queue = if k.queue == 0 then default_queue else k.queue

  -- The insert is one statement. The lookups that explain a conflict come after it, and read one
  -- state of the table here.
  unfoldable pub insert_job_in :
      Environment D → ℕ → Scope → StartJobInput → ℕ → World D → InsertResult × World D
  unfolding execute
  insert_job_in env id scope i queue w =
      let (row, u) = execute env (λ now t. try_insert (new_job now id scope i queue) t) w in
      elim row [
        | some r ↦ (created r, u)
        | none ↦ (let p = pause env u in (explain_conflict id scope i p.jobs, p))
      ]

  unfoldable pub start :
      Environment D
      → KindRegistry D
      → ℕ
      → ℕ
      → StartJobInput
      → Scope
      → World D
      → StartResult × World D
  unfolding get insert_job_in
  start env kinds default_queue id i scope w = elim (get i.kind kinds) [
    | none ↦ (no_such_kind, w)
    | some k ↦
        let (r, u) = insert_job_in env id scope i (queue_for k default_queue) w in (started r, u)
  ]

  -- `StartResult.enqueue`: an existing job already has, or will get, a delivery.
  unfoldable pub publish_started :
      Environment D → KindRegistry D → StartResult × World D → StartResult × World D
  unfolding get enqueue_job
  publish_started env kinds (started (created job), w) = elim (get job.kind kinds) [
    | none ↦ (started (created job), w)
    | some k ↦
        let (sent, u) = enqueue_job env k job w in
        (if sent then started (created job) else not_published job, u)
  ]
  publish_started env kinds (r, w) = (r, w)

  -- In one transaction with the insert: a refusal of the broker undoes the job.
  unfoldable pub publish_within :
      Environment D → ResolvedKind D → World D → InsertResult × World D → StartResult × World D
  publish_within env k before (created job, w) =
      if env.broker_refuses w.turn then (not_published job, record w { jobs = before.jobs }) else (
        started (created job),
        record w {
          jobs =
              record_enqueue job.id (env.transport_job_id (delivery_of job))
                (coalesce job.queue_name k.queue) w.jobs;
          sent = (send (delivery_of job) w).sent;
        },
      )
  publish_within env k before (r, w) = (started r, w)

  unfoldable pub start_within :
      Environment D
      → ResolvedKind D
      → ℕ
      → ℕ
      → StartJobInput
      → Scope
      → World D
      → StartResult × World D
  unfolding publish_within
  start_within env k default_queue id i scope w =
      let p = pause env w in
      let (row, jobs) = try_insert (new_job p.now id scope i (queue_for k default_queue)) p.jobs in
      elim row [
        | some r ↦ publish_within env k p (created r, record p { jobs = jobs })
        | none ↦ (let q = pause env p in (started (explain_conflict id scope i q.jobs), q))
      ]

  unfoldable pub start_and_enqueue :
      Bool
      → Environment D
      → KindRegistry D
      → ℕ
      → ℕ
      → StartJobInput
      → Scope
      → World D
      → StartResult × World D
  unfolding get start publish_started start_within
  start_and_enqueue transactional env kinds default_queue id i scope w =
      if transactional
      then elim (get i.kind kinds) [
        | none ↦ (no_such_kind, w)
        | some k ↦ start_within env k default_queue id i scope w
      ]
      else publish_started env kinds (start env kinds default_queue id i scope w)

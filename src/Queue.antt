-- ===== src/Queue.antt =====
-- The publication of a delivery (core/worker.ts, `enqueueJob`), and the transactions that end a
-- job which nobody drives (core/service.ts, `cancel`; core/reconciler.ts, `endCancelled`, `parkJob`).
pub mod Lawful
use open_mercato_durable.Common.{ℕ, Bool, true, false, Option, none, some, coalesce, if◌then◌else◌}
use open_mercato_durable.Types.{DurableJob, Delivery, Scope, Lease}
use open_mercato_durable.Errors.{Failure}
use open_mercato_durable.Store.Table.{Table, Statement, update}
use open_mercato_durable.Store.Settle.{cancel_pending_row, mark_mirrored}
use open_mercato_durable.Store.Redrive.{record_enqueue}
use open_mercato_durable.Registry.Script.{Attempt, commits, throws}
use open_mercato_durable.Registry.Kinds.{ResolvedKind}
use open_mercato_durable.World.{World, Environment, pause, execute, send}
use open_mercato_durable.Terminal.Transition.{
  Transition, TerminalOutcome, fenced_out, committed, threw, callbacks, run_after_transition,
}

abbrev pub delivery_of : DurableJob → Delivery
delivery_of job = record { job_id = job.id; seq = job.continuation_seq; redrives = job.redrives }

abbrev pub scope_of : DurableJob → Scope
scope_of job = record { tenant_id = job.tenant_id; organization_id = job.organization_id }

module _ {D : Type 0} where
  -- Whether the delivery was published: the transport's refusal is a throw. The delay and the retry
  -- settings, which are the transport's business, are left out.
  unfoldable pub enqueue_job :
      Environment D → ResolvedKind D → DurableJob → World D → Bool × World D
  unfolding execute
  enqueue_job env k job w =
      let queue = coalesce job.queue_name k.queue in
      let id = env.transport_job_id (delivery_of job) in
      if env.broker_refuses w.turn then (false, w) else (
        true,
        (execute env (λ now t. (job.id, record_enqueue job.id id queue t))
            (send (delivery_of job) w)).1,
      )

  -- Both calls to `onCancel` and `onTransition` are those of a cancellation; a kind that this
  -- process does not know has neither.
  abbrev pub cancel_callbacks : Option (ResolvedKind D) → DurableJob → Scope → D → Attempt D
  cancel_callbacks none job scope d = commits 0 d
  cancel_callbacks (some k) job scope d = callbacks k Transition.cancel job scope d

  -- The end of a transaction: the row, the domain state and the mark commit together, or, when a
  -- callback throws, nothing does.
  abbrev pub commit : Table → DurableJob → Attempt D → World D → TerminalOutcome × World D
  commit jobs row (commits n d) p =
      (committed row, record p { jobs = mark_mirrored p.now row.id jobs; domain = d })
  commit jobs row (throws e) p = (threw e, p)

  -- A transaction of one statement, the callbacks on the row that it matched, and the mark.
  unfoldable pub transact :
      Environment D
      → ℕ
      → (ℕ → Statement)
      → (DurableJob → D → Attempt D)
      → World D
      → TerminalOutcome × World D
  transact env id statement calls w =
      let p = pause env w in
      let (row, jobs) = update id (statement p.now) p.jobs in
      elim row [ none ↦ (fenced_out, p) | some r ↦ commit jobs r (calls r p.domain) p ]

  -- A pending job has no lease to fence on: that it is pending is the fence.
  unfoldable pub end_pending :
      Environment D
      → Option (ResolvedKind D)
      → ℕ
      → (DurableJob → Scope)
      → World D
      → TerminalOutcome × World D
  unfolding transact
  end_pending env kind id scope w =
      transact env id cancel_pending_row (λ r d. cancel_callbacks kind r (scope r) d) w

  abbrev pub after_transition : Option (ResolvedKind D) → DurableJob → Scope → World D → World D
  after_transition none job scope w = w
  after_transition (some k) job scope w = run_after_transition k job scope w

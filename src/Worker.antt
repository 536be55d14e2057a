-- ===== src/Worker.antt =====
-- packages/durable-work/src/core/worker.ts: what a bound worker does with a delivery.
pub mod Bindings
pub mod Covers
use open_mercato_durable.Common.{ℕ, Bool, true, false, Option, none, some, if◌then◌else◌}
use open_mercato_durable.Types.{DurableJob, Delivery}
use open_mercato_durable.Store.Table.{find, is_pending}
use open_mercato_durable.Store.Create.{get_job}
use open_mercato_durable.Registry.Kinds.{ResolvedKind}
use open_mercato_durable.Registry.Register.{KindRegistry, get}
use open_mercato_durable.World.{World, Environment, execute}
use open_mercato_durable.Queue.{enqueue_job, scope_of}
use open_mercato_durable.Slice.Finish.{RunSliceResult}
use open_mercato_durable.Slice.Run.{run_slice}

abbrev pub is_yielded : RunSliceResult → Bool
is_yielded (RunSliceResult.yielded seq redrives) = true
is_yielded _ = false

module _ {D : Type 0} where
  unfoldable pub load_job : Environment D → ℕ → World D → Option DurableJob × World D
  unfolding execute
  load_job env id w =
      let (row, u) = execute env (λ now t. (find id t, t)) w in
      elim row [
        | none ↦ (none, u)
        | some r ↦ execute env (λ now t. (get_job id (scope_of r) t, t)) u
      ]

  abbrev pub enqueue_pending :
      Environment D → ResolvedKind D → Option DurableJob × World D → World D
  enqueue_pending env k (none, w) = w
  enqueue_pending env k (some job, w) =
      if is_pending job.status then (enqueue_job env k job w).1 else w

  -- After a hand-back that no shutdown caused, the row's next delivery is published once more; a
  -- refusal is only logged.
  unfoldable pub requeue :
      Environment D → ResolvedKind D → DurableJob → RunSliceResult × World D → World D
  unfolding enqueue_job execute
  requeue env k job (result, w) =
      if is_yielded result
      then if env.shutting_down w.turn
        then w
        else enqueue_pending env k (execute env (λ now t. (get_job job.id (scope_of job) t, t)) w)
      else w

  -- The result of the slice, if one ran.
  unfoldable pub handle :
      Environment D → KindRegistry D → ℕ → ℕ → Delivery → World D → Option RunSliceResult × World D
  unfolding load_job get run_slice requeue
  handle env kinds owner attempt delivery w =
      let (row, u) = load_job env delivery.job_id w in
      elim row [
        | none ↦ (none, u)
        | some job ↦ elim (get job.kind kinds) [
          | none ↦ (none, u)
          | some k ↦
              let r = run_slice env k owner delivery (scope_of job) attempt u in
              (some r.0, requeue env k job r)
        ]
      ]

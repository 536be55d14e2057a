-- ===== src/Tests/System.antt =====
-- A process that starts a job, cancels it, and starts another under the same lock key.
use open_mercato_durable.Common.{ℕ, ◌≡◌, refl, false, none, some, [], ◌∷◌, arith}
use open_mercato_durable.Types.{DurableJob, DurableJobStatus}
use open_mercato_durable.Store.Table.{Table, find, is_live}
use open_mercato_durable.Store.Create.{new_job}
use open_mercato_durable.Store.Writes.{Advances}
use open_mercato_durable.Registry.Register.{KindRegistry}
use open_mercato_durable.World.{World}
use open_mercato_durable.System.Actions.{Action, act, Runs, stop, more}
use open_mercato_durable.System.Safe.{Runs-one_live_job_per_lock_key, Runs-Kept}
use open_mercato_durable.Tests.Data.{
  tenant, input, fresh_job, counting_kind, quiet, quiet-IsLawful, world_of,
}

abbrev kinds : KindRegistry ℕ
kinds = counting_kind ∷ []

abbrev start_job : ℕ → Action
start_job id = Action.start false 4 id input tenant

abbrev cancel_job : ℕ → Action
cancel_job id = Action.ask_cancel id tenant none

abbrev empty_world : World ℕ
empty_world = world_of 9 []

abbrev first_world : World ℕ
first_world = act quiet kinds (start_job 1) empty_world

abbrev second_world : World ℕ
second_world = act quiet kinds (cancel_job 1) first_world

abbrev last_world : World ℕ
last_world = act quiet kinds (start_job 2) second_world

abbrev run : Runs quiet kinds empty_world last_world
run =
    more {u = second_world} (start_job 2)
      (more {u = first_world} (cancel_job 1) (more {u = empty_world} (start_job 1) stop))

-- The two jobs in the end.
unfoldable cancelled_job : DurableJob
unfolding fresh_job
cancelled_job = record (fresh_job 1) {
  status = DurableJobStatus.cancelled;
  updated_at = 13;
  lease_expires_at = some 13;
  queue_name = some 4;
  queue_job_id = some 1;
  pending_since = none;
  finished_at = some 13;
  cancel_requested_at = some 12;
  domain_mirrored_at = some 13;
}

unfoldable second_job : DurableJob
second_job = record (new_job 14 2 tenant input 4) { queue_name = some 4; queue_job_id = some 2 }

second_job_found : find 2 last_world.jobs ≡ some second_job
unfolding act second_job find open_mercato_durable.Store.Create.try_insert
    open_mercato_durable.Store.Table.update new_job
    open_mercato_durable.Store.Redrive.record_enqueue
    open_mercato_durable.Store.Redrive.record_enqueue_row
    open_mercato_durable.Store.Settle.request_cancel_row
    open_mercato_durable.Store.Settle.cancel_pending_row
    open_mercato_durable.Terminal.Transition.run_after_transition
    open_mercato_durable.Store.Settle.mark_mirrored
    open_mercato_durable.Store.Settle.mark_mirrored_row
second_job_found = refl

cancelled_job_found : find 1 last_world.jobs ≡ some cancelled_job
unfolding act cancelled_job find open_mercato_durable.Store.Create.try_insert
    open_mercato_durable.Store.Table.update open_mercato_durable.Store.Redrive.record_enqueue
    open_mercato_durable.Store.Redrive.record_enqueue_row
    open_mercato_durable.Store.Settle.request_cancel_row
    open_mercato_durable.Store.Settle.cancel_pending_row
    open_mercato_durable.Terminal.Transition.run_after_transition
    open_mercato_durable.Store.Settle.mark_mirrored
    open_mercato_durable.Store.Settle.mark_mirrored_row
cancelled_job_found = refl

Runs-one_live_job_per_lock_key_example : is_live cancelled_job.status ≡ false
unfolding cancelled_job second_job
Runs-one_live_job_per_lock_key_example =
    Runs-one_live_job_per_lock_key quiet quiet-IsLawful kinds {w = empty_world} {v = last_world} 2 1
      99 second_job cancelled_job refl run (omega arith) second_job_found cancelled_job_found refl
      refl refl refl refl

Runs-Kept_example :
    (q : DurableJob) × (find 1
        (act quiet kinds (cancel_job 1) (world_of 10 (fresh_job 1 ∷ []))).jobs
      ≡ some q)
    × Advances (fresh_job 1) q
unfolding fresh_job find
Runs-Kept_example =
    Runs-Kept quiet quiet-IsLawful kinds {w = world_of 10 (fresh_job 1 ∷ [])}
      {v = act quiet kinds (cancel_job 1) (world_of 10 (fresh_job 1 ∷ []))} 1 (fresh_job 1) refl
      (more {u = world_of 10 (fresh_job 1 ∷ [])} (cancel_job 1) stop)

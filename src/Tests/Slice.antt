-- ===== src/Tests/Slice.antt =====
-- One slice of a job that is drained at once.
use open_mercato_durable.Common.{◌≡◌, refl, ◌⊎◌, none, some, [], ◌∷◌}
use open_mercato_durable.World.{World, pause}
use open_mercato_durable.Terminal.Transition.{Transition, callbacks, run_terminal_transition}
use open_mercato_durable.Terminal.Atomic.{TerminalSpec, run_terminal_transition-atomic}
use open_mercato_durable.Slice.Finish.{RunSliceResult, refused, completed}
use open_mercato_durable.Slice.Run.{lease_for, run_slice}
use open_mercato_durable.Slice.Ends.{IsHonest, Ends}
use open_mercato_durable.Slice.Deliver.{run_slice-leaves_no_lease}
use open_mercato_durable.Types.{DurableJob, SliceVerdict, ErrorCode, ErrorClass, SliceOutcome}
use open_mercato_durable.Store.Lease.{claim}
use open_mercato_durable.Registry.Script.{Script}
use open_mercato_durable.Slice.Verdict.{with_step, run_slice-verdict}
use open_mercato_durable.Tests.Data.{
  tenant, fresh_job, held_job, counting_kind, quiet, quiet-IsLawful, world_of, first_delivery,
}

counting_kind-IsHonest : IsHonest counting_kind
unfolding callbacks
counting_kind-IsHonest (Transition.complete processed total) job scope d v e = cc
counting_kind-IsHonest (Transition.fail code class message) job scope d v e = cc
counting_kind-IsHonest Transition.cancel job scope d v e = cc

run_slice_test :
    (run_slice quiet counting_kind 5 (first_delivery 1) tenant 1 (world_of 10 (fresh_job 1 ∷ []))).0
    ≡ completed
unfolding run_slice fresh_job open_mercato_durable.World.execute
    open_mercato_durable.Store.Lease.claim open_mercato_durable.Store.Table.update
    open_mercato_durable.Store.Lease.claim_row open_mercato_durable.Slice.Run.run_claimed
    open_mercato_durable.Slice.Run.run_step open_mercato_durable.Slice.Run.conclude
    open_mercato_durable.Slice.Context.run_script open_mercato_durable.Slice.Context.beat
    open_mercato_durable.Store.Lease.heartbeat open_mercato_durable.Slice.Context.timer
    open_mercato_durable.Store.Lease.heartbeat_row open_mercato_durable.Slice.Finish.complete
    run_terminal_transition open_mercato_durable.Terminal.Transition.cas_row
    open_mercato_durable.Store.Settle.complete_cas_row
run_slice_test = refl

run_slice-leaves_no_lease_example :
    (run_slice quiet counting_kind 5 (first_delivery 1) tenant 1 (world_of 10 (fresh_job 1 ∷ []))
      ≡ (refused, pause quiet (world_of 10 (fresh_job 1 ∷ []))))
    ⊎ ((c : DurableJob) × ((claim
            (pause quiet (world_of 10 (fresh_job 1 ∷ []))).now
            1
            tenant
            (first_delivery 1)
            5
            100
            (pause quiet (world_of 10 (fresh_job 1 ∷ []))).jobs).0
          ≡ some c)
        × Ends (lease_for counting_kind 5 c) (world_of 10 (fresh_job 1 ∷ [])) (
            run_slice quiet counting_kind 5
              (first_delivery 1)
              tenant
              1
              (world_of 10 (fresh_job 1 ∷ []))))
run_slice-leaves_no_lease_example =
    run_slice-leaves_no_lease quiet quiet-IsLawful counting_kind tenant counting_kind-IsHonest 5 1
      (first_delivery 1) (world_of 10 (fresh_job 1 ∷ []))

run_terminal_transition-atomic_example :
    TerminalSpec quiet counting_kind
      (record { job_id = 1; owner = 5; epoch = 1; ttl_ms = 100 })
      tenant
      (Transition.complete none none)
      (pause quiet (world_of 20 (held_job 1 ∷ [])))
      (run_terminal_transition quiet counting_kind
        (record { job_id = 1; owner = 5; epoch = 1; ttl_ms = 100 })
        tenant
        (Transition.complete none none)
        (world_of 20 (held_job 1 ∷ [])))
run_terminal_transition-atomic_example =
    run_terminal_transition-atomic quiet counting_kind
      (record { job_id = 1; owner = 5; epoch = 1; ttl_ms = 100 }) tenant
      (Transition.complete none none) (world_of 20 (held_job 1 ∷ []))

-- A released job that has used up its attempts.
unfoldable decided_job : DurableJob
unfolding held_job
decided_job = record (held_job 1) {
  lease_owner = none;
  lease_expires_at = some 20;
  error_code = some (ErrorCode.verdict SliceVerdict.retry_exhausted);
  error_class = some ErrorClass.transient;
}

-- The same job under the claim of worker 6 at time 31.
unfoldable claimed_job : DurableJob
unfolding decided_job
claimed_job = record decided_job {
  lease_owner = some 6;
  lease_epoch = 2;
  lease_expires_at = some 131;
  heartbeat_at = some 31;
  updated_at = 31;
}

claimed_job_claimed :
    (claim 31 1 tenant (first_delivery 1) 6 100 (decided_job ∷ [])).0 ≡ some claimed_job
unfolding claim claimed_job open_mercato_durable.Store.Table.update
    open_mercato_durable.Store.Lease.claim_row
claimed_job_claimed = refl

run_slice-verdict_example :
    run_slice quiet counting_kind 6 (first_delivery 1) tenant 2 (world_of 30 (decided_job ∷ []))
    ≡ run_slice quiet
        (with_step counting_kind (λ c. Script.returns SliceOutcome.budget))
        6
        (first_delivery 1)
        tenant
        2
        (world_of 30 (decided_job ∷ []))
unfolding pause claimed_job
run_slice-verdict_example =
    run_slice-verdict quiet counting_kind (λ c. Script.returns SliceOutcome.budget) 6 2
      (first_delivery 1) tenant (world_of 30 (decided_job ∷ [])) claimed_job
      SliceVerdict.retry_exhausted claimed_job_claimed refl

-- ===== src/Tests/Protocol.antt =====
-- The protocol's theorems on a table of one job or two.
use open_mercato_durable.Common.{
  ℕ, ◌≤◌, ◌<◌, ◌≡◌, refl, ◌⊎◌, inr, true, false, Option, none, some, [], ◌∷◌, All, arith,
}
use open_mercato_durable.Types.{DurableJob, Lease}
use open_mercato_durable.Store.Table.{Table, update, find}
use open_mercato_durable.Store.Lease.{claim, yield_slice, yield_slice_row, release_lease_row}
use open_mercato_durable.Store.Redrive.{take_orphan_row}
use open_mercato_durable.Store.Settle.{complete_cas_row, request_cancel_row}
use open_mercato_durable.Store.WellFormed.{WellFormed, new_job-WellFormed}
use open_mercato_durable.Store.Writes.{Write}
use open_mercato_durable.Store.Writes.Fenced.{completes}
use open_mercato_durable.Store.Writes.Write.{asks, takes}
use open_mercato_durable.Protocol.Steps.{Step, Reach, is_unique}
use open_mercato_durable.Protocol.Fence.{
  lease_of, later_claim_shuts_out_earlier, stale_delivery_refused,
}
use open_mercato_durable.Protocol.Unexpired.{StaysHeld, unexpired_lease_kept}
use open_mercato_durable.Protocol.Cancelling.{IsAsked, IsAsked-Reach}
use open_mercato_durable.Protocol.Release.{IsFree, Released, Released-Reach}
use open_mercato_durable.Protocol.SingleRunner.{Reach-is_unique}
use open_mercato_durable.Protocol.Reachable.{Reach-WellFormed}
use open_mercato_durable.Registry.Delays.{next_attempt_delay_ms, next_attempt_delay_ms-bounds}
use open_mercato_durable.Tests.Data.{
  tenant, fresh_job, held_job, input, retry, first_delivery, database_of,
}

-- The row after the claim of worker 5 at time 10, and after a second claim at time 200.
abbrev first_claim : Option DurableJob × Table
first_claim = claim 10 1 tenant (first_delivery 1) 5 100 (fresh_job 1 ∷ [])

abbrev second_claim : Option DurableJob × Table
second_claim = claim 200 1 tenant (first_delivery 1) 6 100 first_claim.1

unfoldable held_again : DurableJob
unfolding held_job fresh_job
held_again = record (held_job 1) {
  lease_owner = some 6;
  lease_epoch = 2;
  lease_expires_at = some 300;
  heartbeat_at = some 200;
  updated_at = 200;
}

abbrev later : Reach (database_of 10 first_claim.1) (database_of 200 first_claim.1)
later = Reach.next Reach.here (Step.elapse 200 (omega arith))

later_claim_shuts_out_earlier_example :
    update 1 (complete_cas_row 200 (lease_of (held_job 1) 5 100) none none) second_claim.1
    ≡ (none, second_claim.1)
unfolding claim update fresh_job open_mercato_durable.Store.Lease.claim_row held_job held_again
later_claim_shuts_out_earlier_example =
    later_claim_shuts_out_earlier (database_of 10 (fresh_job 1 ∷ []))
      (database_of 200 first_claim.1) 1 tenant (first_delivery 1) (first_delivery 1) 5 6 100 100
      (held_job 1) held_again refl later refl Reach.here (completes none none)

-- A job re-driven once leaves its first delivery behind.
abbrev redriven_job : DurableJob
redriven_job = record (fresh_job 1) { redrives = 1; lease_epoch = 1 }

stale_delivery_refused_example :
    claim 50 1 tenant (first_delivery 1) 5 100 (redriven_job ∷ []) ≡ (none, redriven_job ∷ [])
unfolding find fresh_job
stale_delivery_refused_example =
    stale_delivery_refused {d = database_of 10 (redriven_job ∷ [])} 1 (first_delivery 1)
      redriven_job tenant 5 100 refl (inr (omega arith))
      (Reach.next Reach.here (Step.elapse 50 (omega arith)))

abbrev lease : Lease
lease = record { job_id = 1; owner = 5; epoch = 1; ttl_ms = 100 }

abbrev handed_back : Table
handed_back = (yield_slice 20 lease false (held_job 1 ∷ [])).1

unexpired_lease_kept_example :
    (q : DurableJob) × (find 1 (update 1 (request_cancel_row 50 tenant none) (held_job 1 ∷ [])).1
      ≡ some q)
    × StaysHeld 50 lease (held_job 1) q
unfolding find held_job
unexpired_lease_kept_example =
    unexpired_lease_kept {d = database_of 50 (held_job 1 ∷ [])} 1 lease (held_job 1) 110 refl refl
      refl (omega arith) (Step.write 1 (asks tenant none))

abbrev free_job : DurableJob
free_job = (yield_slice_row 20 lease false).set (held_job 1)

free_job-IsFree : IsFree lease free_job
unfolding yield_slice_row held_job
free_job-IsFree = record { reached = omega arith; not_held = refl }

Released-Reach_example : Released lease (
    database_of 30
      (claim 30 1 tenant (record { job_id = 1; seq = 1; redrives = 0 }) 6 100 (free_job ∷ [])).1)
unfolding find yield_slice_row held_job claim update
Released-Reach_example =
    Released-Reach {d = database_of 30 (free_job ∷ [])} lease (free_job, refl, free_job-IsFree)
      (Reach.next Reach.here
        (Step.write 1 (Write.claims tenant (record { job_id = 1; seq = 1; redrives = 0 }) 6 100)))

Reach-is_unique_example : is_unique (database_of 50 (fresh_job 1 ∷ [])).jobs ≡ true
unfolding is_unique
Reach-is_unique_example =
    Reach-is_unique {d = database_of 10 (fresh_job 1 ∷ [])} refl
      (Reach.next Reach.here (Step.elapse 50 (omega arith)))

Reach-WellFormed_example : All WellFormed first_claim.1
unfolding fresh_job open_mercato_durable.Store.Create.new_job update claim
Reach-WellFormed_example =
    Reach-WellFormed {d = database_of 10 (fresh_job 1 ∷ [])} {e = database_of 10 first_claim.1}
      (new_job-WellFormed 10 1 tenant input 4, tt)
      (Reach.next Reach.here (Step.write 1 (Write.claims tenant (first_delivery 1) 5 100)))

next_attempt_delay_ms-bounds_example :
    ((4 < retry.attempts)
      × (d : ℕ) × (e : ℕ) × (next_attempt_delay_ms retry 1 ≡ some d)
      × (next_attempt_delay_ms retry 4 ≡ some e)
      × (d ≤ e)
      × (e ≤ 5000))
    ⊎ ((retry.attempts ≤ 4) × (next_attempt_delay_ms retry 4 ≡ none))
next_attempt_delay_ms-bounds_example = next_attempt_delay_ms-bounds retry 1 4 (omega arith)

-- A running job, its lease gone, that an operator asked to stop.
abbrev asked_job : DurableJob
asked_job = record (held_job 1) { cancel_requested_at = some 10 }

abbrev swept : Table
swept = (update 1 (take_orphan_row 5000 100 100 0) (asked_job ∷ [])).1

IsAsked-Reach_example : (q : DurableJob) × (find 1 swept ≡ some q) × IsAsked q × (q.redrives ≡ 0)
unfolding find fresh_job held_job
IsAsked-Reach_example =
    IsAsked-Reach {d = database_of 10 (asked_job ∷ [])} 1 asked_job
      (Reach.next (Reach.next Reach.here (Step.elapse 5000 (omega arith)))
        (Step.write 1 (takes 100 100 0)))
      refl refl tt

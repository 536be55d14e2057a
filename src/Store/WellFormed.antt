-- ===== src/Store/WellFormed.antt =====
-- The agreement between the columns of a row (core/store.ts), statement by statement.
use open_mercato_durable.Common.{
  ℕ, ◌≡◌, ◌≢◌, Bool, true, none, [], ◌∷◌, All, arith, ◌==◌, Bool-cases, inl, inr,
}
use open_mercato_durable.Types.{DurableJob, DurableJobStatus, Lease, Scope, StartJobInput}
use open_mercato_durable.Store.Table.{Table, Statement, row_after, update, is_live}
use open_mercato_durable.Store.Lease.{
  claim_row, heartbeat_row, write_checkpoint_row, yield_slice_row, fail_slice_row,
  release_lease_row,
}
use open_mercato_durable.Store.Settle.{
  complete_cas_row, fail_terminal_cas_row, cancel_cas_row, mark_mirrored_row,
  bump_mirror_attempts_row, request_cancel_row, cancel_pending_row,
}
use open_mercato_durable.Store.Redrive.{
  take_orphan_row, redrive_pending_row, park_row, operator_redrive_row, record_enqueue_row,
}
use open_mercato_durable.Store.Create.{new_job}
use open_mercato_durable.Store.Writes.{Fenced, Write}
use open_mercato_durable.Store.Writes.Fenced.{beats}
use open_mercato_durable.Store.Writes.Write.{fenced, claims}

-- A job has an owner only while it runs; it waits since some time exactly while it is pending; it
-- has a finishing time exactly when it has ended; a running job's lease has an expiry, and one
-- that was never started holds no owner; parked and failed jobs say so and why.
pub record WellFormed (r : DurableJob) : Type 0 where
  pub owned : r.lease_owner ≢ none → r.status ≡ DurableJobStatus.running
  pub waiting : r.status ≡ DurableJobStatus.pending → r.pending_since ≢ none
  pub not_waiting : r.status ≢ DurableJobStatus.pending → r.pending_since ≡ none
  pub unfinished : is_live r.status ≡ true → r.finished_at ≡ none
  pub finished : r.finished_at ≡ none → is_live r.status ≡ true
  pub leased : r.status ≡ DurableJobStatus.running → r.lease_expires_at ≢ none
  pub started : r.status ≡ DurableJobStatus.running → r.started_at ≢ none
  pub parked : r.parked_at ≢ none → r.status ≡ DurableJobStatus.failed
  pub explained : r.status ≡ DurableJobStatus.failed → r.error_code ≢ none
  pub clean : r.status ≡ DurableJobStatus.completed → r.error_code ≡ none

Fenced-WellFormed :
    {now : ℕ} {l : Lease} {s : Statement}
    → Fenced now l s
    → (r : DurableJob) → s.matches r ≡ true
    → WellFormed r
    → WellFormed (s.set r)
unfolding heartbeat_row write_checkpoint_row yield_slice_row fail_slice_row release_lease_row
    complete_cas_row fail_terminal_cas_row cancel_cas_row
Fenced-WellFormed (beats patch) r h w = ground arith
Fenced-WellFormed _ r h w = ground arith

-- Every statement but the operator's re-drive keeps the row well formed.
pub Write-WellFormed :
    {now : ℕ} {s : Statement}
    → Write now s
    → (r : DurableJob) → s.matches r ≡ true
    → WellFormed r
    → WellFormed (s.set r)
unfolding claim_row mark_mirrored_row bump_mirror_attempts_row request_cancel_row cancel_pending_row
    take_orphan_row redrive_pending_row park_row record_enqueue_row
Write-WellFormed (fenced l f) r h w = Fenced-WellFormed f r h w
Write-WellFormed (claims scope d owner ttl) r h w = ground arith
Write-WellFormed _ r h w = ground arith

pub operator_redrive-WellFormed :
    (now : ℕ) (scope : Scope) (grace ttl : ℕ) (force : Bool) (r : DurableJob)
    → (operator_redrive_row now scope grace ttl force).matches r ≡ true
    → WellFormed r
    → WellFormed ((operator_redrive_row now scope grace ttl force).set r)
unfolding operator_redrive_row
operator_redrive-WellFormed now scope grace ttl force r h w = ground arith

pub new_job-WellFormed :
    (now id : ℕ) (scope : Scope) (i : StartJobInput) (queue : ℕ)
    → WellFormed (new_job now id scope i queue)
unfolding new_job
new_job-WellFormed now id scope i queue = ground arith

-- What a statement makes of a row keeps a predicate that its `set` clause keeps.
row_after-keeps :
    (P : DurableJob → Type 0) (s : Statement) (r : DurableJob)
    → (s.matches r ≡ true → P r → P (s.set r))
    → P r
    → P (row_after s r)
row_after-keeps P s r keep h = elim (Bool-cases (s.matches r)) [
  | inl hit ↦ rw hit (keep hit h)
  | inr miss ↦ rw miss h
]

-- A predicate that a statement keeps of each row it matches, it keeps of the table.
pub update-All :
    (P : DurableJob → Type 0) (id : ℕ) (s : Statement) (t : Table)
    → ((r : DurableJob) → s.matches r ≡ true → P r → P (s.set r))
    → All P t
    → All P (update id s t).1
unfolding update
update-All P id s [] keep h = tt
update-All P id s (q ∷ t) keep h = elim (Bool-cases (q.id == id)) [
  | inl hit ↦ rw hit (row_after-keeps P s q (keep q) h.0, h.1)
  | inr miss ↦ rw miss (h.0, update-All P id s t keep h.1)
]

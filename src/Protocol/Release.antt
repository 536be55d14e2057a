-- ===== src/Protocol/Release.antt =====
-- Leases that a row no longer holds (core/store.ts), over every sequence of statements.
use open_mercato_durable.Common.{ℕ, ◌≤◌, ◌≡◌, Bool, true, false, some, arith}
use open_mercato_durable.Types.{DurableJob, Scope, Lease}
use open_mercato_durable.Store.Table.{Statement, find, is_held}
use open_mercato_durable.Store.Lease.{
  claim_row, heartbeat_row, write_checkpoint_row, yield_slice_row, fail_slice_row,
  release_lease_row,
}
use open_mercato_durable.Store.Settle.{
  complete_cas_row, fail_terminal_cas_row, cancel_cas_row, mark_mirrored_row,
  bump_mirror_attempts_row, request_cancel_row, cancel_pending_row,
}
use open_mercato_durable.Store.Redrive.{
  take_orphan_row, redrive_pending_row, park_row, operator_redrive_row, record_enqueue_row,
}
use open_mercato_durable.Store.Writes.{Fenced, Write}
use open_mercato_durable.Store.Writes.Fenced.{beats}
use open_mercato_durable.Store.Writes.Write.{claims, fenced}
use open_mercato_durable.Protocol.Steps.{Database, Reach}
use open_mercato_durable.Protocol.Reachable.{IsFollowed, Reach-Follows}

-- The row has reached the lease's epoch, and does not hold the lease.
pub record IsFree (l : Lease) (r : DurableJob) : Type 0 where
  pub reached : l.epoch ≤ r.lease_epoch
  pub not_held : is_held l r ≡ false

abbrev pub StaysFree : Lease → DurableJob → DurableJob → Type 0
StaysFree l r q = (r.lease_epoch ≤ q.lease_epoch) × (IsFree l r → IsFree l q)

Fenced-IsFree :
    {now : ℕ} {l' : Lease} {s : Statement} (l : Lease)
    → Fenced now l' s
    → (r : DurableJob) → s.matches r ≡ true
    → StaysFree l r (s.set r)
unfolding heartbeat_row write_checkpoint_row yield_slice_row fail_slice_row release_lease_row
    complete_cas_row fail_terminal_cas_row cancel_cas_row
Fenced-IsFree l (beats patch) r hit = (omega arith, λ free. ground arith)
Fenced-IsFree l _ r hit = (omega arith, λ free. ground arith)

Write-IsFree :
    (l : Lease) (now : ℕ) (s : Statement)
    → Write now s
    → (r : DurableJob) → s.matches r ≡ true
    → StaysFree l r (s.set r)
unfolding claim_row mark_mirrored_row bump_mirror_attempts_row request_cancel_row cancel_pending_row
    take_orphan_row redrive_pending_row park_row record_enqueue_row
Write-IsFree l now s (fenced l' f) r hit = Fenced-IsFree l f r hit
Write-IsFree l now s (claims scope d owner ttl) r hit = (omega arith, λ free. ground arith)
Write-IsFree l now s _ r hit = (omega arith, λ free. ground arith)

operator_redrive-IsFree :
    (l : Lease) (now : ℕ) (scope : Scope) (grace ttl : ℕ) (force : Bool) (r : DurableJob)
    → (operator_redrive_row now scope grace ttl force).matches r ≡ true
    → StaysFree l r ((operator_redrive_row now scope grace ttl force).set r)
unfolding operator_redrive_row
operator_redrive-IsFree l now scope grace ttl force r hit = (omega arith, λ free. ground arith)

StaysFree-IsFollowed : (l : Lease) → IsFollowed (StaysFree l)
StaysFree-IsFollowed l = record {
  same = λ r. (omega arith, λ free. free);
  chain = λ r q p a b. (omega arith, λ free. b.1 (a.1 free));
  by_write = λ now s w r hit. Write-IsFree l now s w r hit;
  by_operator = operator_redrive-IsFree l;
}

-- The job of the lease is in the table, at the lease's epoch or a later one.
abbrev pub Known : Lease → Database → Type 0
Known l d = (r : DurableJob) × (find l.job_id d.jobs ≡ some r) × (l.epoch ≤ r.lease_epoch)

-- And it does not hold the lease.
abbrev pub Released : Lease → Database → Type 0
Released l d = (r : DurableJob) × (find l.job_id d.jobs ≡ some r) × IsFree l r

pub Known-Reach : {d e : Database} (l : Lease) → Known l d → Reach d e → Known l e
Known-Reach l (r, found, reached) reach =
    let (q, at_q, a) = Reach-Follows (StaysFree-IsFollowed l) l.job_id r found reach in
    (q, at_q, omega (arith, a.0))

-- A lease that was handed back, released or overtaken is never held again.
pub Released-Reach : {d e : Database} (l : Lease) → Released l d → Reach d e → Released l e
Released-Reach l (r, found, free) reach =
    let (q, at_q, a) = Reach-Follows (StaysFree-IsFollowed l) l.job_id r found reach in
    (q, at_q, a.1 free)

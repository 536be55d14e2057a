-- ===== src/Store/Writes.antt =====
-- The statements of store.ts as one family, and what each of them keeps of the row that it writes.
use open_mercato_durable.Common.{ℕ, ◌≤◌, ◌≡◌, refl, ◌∙◌, Bool, true, Option, arith}
use open_mercato_durable.Types.{
  Message, DurableJob, DurableJobStatus, Scope, Lease, Delivery, Json, ErrorClass, ErrorCode,
}
use open_mercato_durable.Store.Table.{Statement, is_live, is_epoch}
use open_mercato_durable.Store.Lease.{
  HeartbeatPatch, SliceError, claim_row, heartbeat_row, write_checkpoint_row, yield_slice_row,
  fail_slice_row, release_lease_row,
}
use open_mercato_durable.Store.Settle.{
  complete_cas_row, fail_terminal_cas_row, cancel_cas_row, mark_mirrored_row,
  bump_mirror_attempts_row, request_cancel_row, cancel_pending_row,
}
use open_mercato_durable.Store.Redrive.{
  take_orphan_row, redrive_pending_row, park_row, operator_redrive_row, record_enqueue_row,
}

-- The statements that carry a lease: they match only a running row of the lease's epoch.
pub data Fenced (now : ℕ) (l : Lease) : Statement → Type 0 where
  beats : (patch : HeartbeatPatch) → Fenced now l (heartbeat_row now l patch)
  saves :
      (c : Option Json) (patch : HeartbeatPatch) → Fenced now l (write_checkpoint_row now l c patch)
  yields : (interrupted : Bool) → Fenced now l (yield_slice_row now l interrupted)
  fails :
      (e : SliceError) (delay : Option ℕ) (limit : ℕ)
      → Fenced now l (fail_slice_row now l e delay limit)
  releases : (delay : Option ℕ) → Fenced now l (release_lease_row now l delay)
  completes : (processed total : Option ℕ) → Fenced now l (complete_cas_row now l processed total)
  ends :
      (code : ErrorCode) (class : ErrorClass) (message : Option Message)
      → Fenced now l (fail_terminal_cas_row now l code class message)
  cancels : Fenced now l (cancel_cas_row now l)

-- Every statement but the operator's re-drive.
pub data Write (now : ℕ) : Statement → Type 0 where
  claims :
      (scope : Scope) (d : Delivery) (owner ttl : ℕ) → Write now (claim_row now scope d owner ttl)
  fenced : (l : Lease) {s : Statement} → Fenced now l s → Write now s
  mirrors : Write now (mark_mirrored_row now)
  bumps : Write now (bump_mirror_attempts_row now)
  asks : (scope : Scope) (by : Option ℕ) → Write now (request_cancel_row now scope by)
  drops : Write now (cancel_pending_row now)
  takes : (grace ttl backoff : ℕ) → Write now (take_orphan_row now grace ttl backoff)
  redrives : (ttl : ℕ) → Write now (redrive_pending_row now ttl)
  parks : (reason : ErrorCode) (message : Option Message) → Write now (park_row now reason message)
  enqueues : (job_id queue : ℕ) → Write now (record_enqueue_row job_id queue)

-- What a statement never takes back from a row: its origin, its epoch, the two counters of its
-- delivery's identity, and the end of a job that is completed or cancelled.
pub record Advances (r q : DurableJob) : Type 0 where
  pub same_origin : q.origin ≡ r.origin
  pub epoch : r.lease_epoch ≤ q.lease_epoch
  pub seq : r.continuation_seq ≤ q.continuation_seq
  pub redrives : r.redrives ≤ q.redrives
  pub completed : r.status ≡ DurableJobStatus.completed → q.status ≡ DurableJobStatus.completed
  pub cancelled : r.status ≡ DurableJobStatus.cancelled → q.status ≡ DurableJobStatus.cancelled

pub Advances-refl : (r : DurableJob) → Advances r r
Advances-refl r = ground arith

pub Advances-trans : {r q p : DurableJob} → Advances r q → Advances q p → Advances r p
Advances-trans a b = record {
  same_origin = b.same_origin ∙ a.same_origin;
  epoch = omega arith;
  seq = omega arith;
  redrives = omega arith;
  completed = λ e. b.completed (a.completed e);
  cancelled = λ e. b.cancelled (a.cancelled e);
}

pub Fenced-origin :
    {now : ℕ} {l : Lease} {s : Statement}
    → Fenced now l s
    → (r : DurableJob) → (s.set r).origin ≡ r.origin
unfolding heartbeat_row write_checkpoint_row yield_slice_row fail_slice_row release_lease_row
    complete_cas_row fail_terminal_cas_row cancel_cas_row
Fenced-origin (beats patch) r = refl
Fenced-origin _ r = refl

pub Write-origin :
    {now : ℕ} {s : Statement} → Write now s → (r : DurableJob) → (s.set r).origin ≡ r.origin
unfolding claim_row mark_mirrored_row bump_mirror_attempts_row request_cancel_row cancel_pending_row
    take_orphan_row redrive_pending_row park_row record_enqueue_row
Write-origin (fenced l f) r = Fenced-origin f r
Write-origin (claims scope d owner ttl) r = refl
Write-origin _ r = refl

Fenced-Advances :
    {now : ℕ} {l : Lease} {s : Statement}
    → Fenced now l s
    → (r : DurableJob) → s.matches r ≡ true
    → Advances r (s.set r)
unfolding heartbeat_row write_checkpoint_row yield_slice_row fail_slice_row release_lease_row
    complete_cas_row fail_terminal_cas_row cancel_cas_row
Fenced-Advances (beats patch) r h = ground arith
Fenced-Advances _ r h = ground arith

pub Write-Advances :
    {now : ℕ} {s : Statement}
    → Write now s
    → (r : DurableJob) → s.matches r ≡ true
    → Advances r (s.set r)
unfolding claim_row mark_mirrored_row bump_mirror_attempts_row request_cancel_row cancel_pending_row
    take_orphan_row redrive_pending_row park_row record_enqueue_row
Write-Advances (fenced l f) r h = Fenced-Advances f r h
Write-Advances (claims scope d owner ttl) r h = ground arith
Write-Advances _ r h = ground arith

-- A statement with a lease reaches no row of another epoch, and none that is not running.
pub Fenced-epoch :
    {now : ℕ} {l : Lease} {s : Statement}
    → Fenced now l s
    → (r : DurableJob) → s.matches r ≡ true
    → is_epoch l r ≡ true
unfolding heartbeat_row write_checkpoint_row yield_slice_row fail_slice_row release_lease_row
    complete_cas_row fail_terminal_cas_row cancel_cas_row
Fenced-epoch (beats patch) r h = ground arith
Fenced-epoch _ r h = ground arith

Fenced-live :
    {now : ℕ} {l : Lease} {s : Statement}
    → Fenced now l s
    → (r : DurableJob) → s.matches r ≡ true
    → is_live r.status ≡ true
unfolding heartbeat_row write_checkpoint_row yield_slice_row fail_slice_row release_lease_row
    complete_cas_row fail_terminal_cas_row cancel_cas_row
Fenced-live (beats patch) r h = ground arith
Fenced-live _ r h = ground arith

-- No statement of the family turns a row that has ended into a live one.
pub Write-live :
    {now : ℕ} {s : Statement}
    → Write now s
    → (r : DurableJob) → s.matches r ≡ true
    → is_live (s.set r).status ≡ true
    → is_live r.status ≡ true
unfolding claim_row mark_mirrored_row bump_mirror_attempts_row request_cancel_row cancel_pending_row
    take_orphan_row redrive_pending_row park_row record_enqueue_row
Write-live (fenced l f) r h live = Fenced-live f r h
Write-live (claims scope d owner ttl) r h live = ground arith
Write-live _ r h live = ground arith

pub operator_redrive-origin :
    (now : ℕ) (scope : Scope) (grace ttl : ℕ) (force : Bool) (r : DurableJob)
    → ((operator_redrive_row now scope grace ttl force).set r).origin ≡ r.origin
unfolding operator_redrive_row
operator_redrive-origin now scope grace ttl force r = refl

pub operator_redrive-Advances :
    (now : ℕ) (scope : Scope) (grace ttl : ℕ) (force : Bool) (r : DurableJob)
    → (operator_redrive_row now scope grace ttl force).matches r ≡ true
    → Advances r ((operator_redrive_row now scope grace ttl force).set r)
unfolding operator_redrive_row
operator_redrive-Advances now scope grace ttl force r h = ground arith

-- ===== src/Protocol/Cancelling.antt =====
-- A cancellation that was asked for, over every sequence of statements (core/store.ts,
-- `requestCancel`, `takeOrphan`, `redrivePending`).
use open_mercato_durable.Common.{
  ℕ, ◌≡◌, ◌≢◌, refl, ◌∙◌, inl, inr, true, false, some, arith, ◌==◌, is_null, Bool-cases, sym,
}
use open_mercato_durable.Types.{DurableJob, Lease}
use open_mercato_durable.Store.Table.{Table, Statement, row_after, update, find}
use open_mercato_durable.Store.Lease.{
  claim_row, heartbeat_row, write_checkpoint_row, yield_slice_row, fail_slice_row,
  release_lease_row,
}
use open_mercato_durable.Store.Settle.{
  complete_cas_row, fail_terminal_cas_row, cancel_cas_row, mark_mirrored_row,
  bump_mirror_attempts_row, request_cancel_row, cancel_pending_row,
}
use open_mercato_durable.Store.Redrive.{
  take_orphan_row, redrive_pending_row, park_row, record_enqueue_row,
}
use open_mercato_durable.Store.Rows.{find-update_self, find-update_ne}
use open_mercato_durable.Store.Writes.{Fenced, Write, Write-origin, operator_redrive-origin}
use open_mercato_durable.Store.Writes.Fenced.{beats}
use open_mercato_durable.Store.Writes.Write.{claims, fenced}
use open_mercato_durable.Protocol.Steps.{Database, Reach}
use open_mercato_durable.Protocol.Steps.Step.{elapse, write, reopen, create}
use open_mercato_durable.Protocol.Steps.Reach.{here, next}
use open_mercato_durable.Protocol.Reachable.{find-try_insert}

abbrev pub IsAsked : DurableJob → Type 0
IsAsked r = is_null r.cancel_requested_at ≡ false

-- No operator re-drives the job on the way.
abbrev pub NotReopened : ℕ → {d e : Database} → Reach d e → Type 0
NotReopened id here = Unit {0}
NotReopened id (next reach (reopen j scope grace ttl force h)) = (j ≢ id) × NotReopened id reach
NotReopened id (next reach (elapse later h)) = NotReopened id reach
NotReopened id (next reach (write j w)) = NotReopened id reach
NotReopened id (next reach (create j scope i queue)) = NotReopened id reach

abbrev StaysAsked : DurableJob → DurableJob → Type 0
StaysAsked r q = IsAsked r → IsAsked q × (q.redrives ≡ r.redrives)

Fenced-StaysAsked :
    {now : ℕ} {l : Lease} {s : Statement}
    → Fenced now l s
    → (r : DurableJob) → s.matches r ≡ true
    → StaysAsked r (s.set r)
unfolding heartbeat_row write_checkpoint_row yield_slice_row fail_slice_row release_lease_row
    complete_cas_row fail_terminal_cas_row cancel_cas_row
Fenced-StaysAsked (beats patch) r hit asked = (asked, refl)
Fenced-StaysAsked _ r hit asked = (asked, refl)

-- The statements of a re-drive by the reconciler match no row that is asked to stop.
Write-StaysAsked :
    {now : ℕ} {s : Statement}
    → Write now s
    → (r : DurableJob) → s.matches r ≡ true
    → StaysAsked r (s.set r)
unfolding claim_row mark_mirrored_row bump_mirror_attempts_row request_cancel_row cancel_pending_row
    take_orphan_row redrive_pending_row park_row record_enqueue_row
Write-StaysAsked (fenced l f) r hit asked = Fenced-StaysAsked f r hit asked
Write-StaysAsked (claims scope d owner ttl) r hit asked = (asked, refl)
Write-StaysAsked _ r hit asked = ground arith

-- The job's row, asked to stop and at one count of re-drives.
abbrev AskedAt : ℕ → ℕ → Table → Type 0
AskedAt id n t = (q : DurableJob) × (find id t ≡ some q) × IsAsked q × (q.redrives ≡ n)

row_after-AskedAt :
    {now : ℕ} {s : Statement}
    → Write now s
    → (q : DurableJob) → IsAsked q
    → IsAsked (row_after s q) × ((row_after s q).redrives ≡ q.redrives)
row_after-AskedAt {s = s} w q asked = elim (Bool-cases (s.matches q)) [
  | inl hit ↦ rw hit (Write-StaysAsked w q hit asked)
  | inr miss ↦ rw miss (asked, refl)
]

update-AskedAt :
    (id j n : ℕ) {now : ℕ} {s : Statement} (t : Table)
    → Write now s
    → AskedAt id n t
    → AskedAt id n (update j s t).1
update-AskedAt id j n {s = s} t w (q, found, asked, count) = elim (Bool-cases (id == j)) [
  | inr other ↦ (q, find-update_ne j id s t (Write-origin w) (ground arith) ∙ found, asked, count)
  | inl own ↦ at_own (ground arith)
]
  where
    at_own : id ≡ j → AskedAt id n (update j s t).1
    at_own is =
        let (still, kept) = row_after-AskedAt w q asked in
        rw (← is)
          (row_after s q, find-update_self id s t q (Write-origin w) found, still, kept ∙ count)

-- Once a job is asked to stop, it stays so and its count of re-drives stands, whatever statements
-- run, in whatever order, unless an operator re-drives it.
pub IsAsked-Reach :
    {d e : Database} (id : ℕ) (r : DurableJob) (reach : Reach d e)
    → find id d.jobs ≡ some r
    → IsAsked r
    → NotReopened id reach
    → (q : DurableJob) × (find id e.jobs ≡ some q) × IsAsked q × (q.redrives ≡ r.redrives)
IsAsked-Reach id r here found asked n = (r, found, asked, refl)
IsAsked-Reach id r (next reach (elapse later h)) found asked n =
    IsAsked-Reach id r reach found asked n
IsAsked-Reach id r (next reach (write j w)) found asked n =
    update-AskedAt id j r.redrives _ w (IsAsked-Reach id r reach found asked n)
IsAsked-Reach id r (next reach (reopen j scope grace ttl force h)) found asked n =
    let (q, at_q, still, count) = IsAsked-Reach id r reach found asked n.1 in
    (
      q,
      find-update_ne j id _ _ (operator_redrive-origin _ scope grace ttl force) (λ e. n.0 (sym e))
          ∙ at_q,
      still,
      count,
    )
IsAsked-Reach id r (next reach (create j scope i queue)) found asked n =
    let (q, at_q, still, count) = IsAsked-Reach id r reach found asked n in
    (q, find-try_insert _ id _ q at_q, still, count)

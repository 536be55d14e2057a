-- ===== src/Protocol/Idle.antt =====
-- Runs of the protocol in which a job commits nothing (core/store.ts: the statements that reset
-- `redrives_since_commit`).
use open_mercato_durable.Common.{
  ℕ, ◌≤◌, ◌≡◌, sym, subst, ◌∙◌, inl, inr, Bool, true, false, ◌&&◌, not, some, arith, ◌==◌,
  Bool-cases,
}
use mathlib.Core.Option.{some-injective}
use open_mercato_durable.Types.{DurableJob, Lease}
use open_mercato_durable.Store.Table.{Table, Statement, row_after, update, find}
use open_mercato_durable.Store.Lease.{
  claim_row, heartbeat_row, write_checkpoint_row, yield_slice_row, fail_slice_row,
  release_lease_row,
}
use open_mercato_durable.Store.Settle.{
  complete_cas_row, fail_terminal_cas_row, cancel_cas_row, mark_mirrored_row,
  bump_mirror_attempts_row, request_cancel_row, cancel_pending_row,
}
use open_mercato_durable.Store.Redrive.{
  take_orphan_row, redrive_pending_row, park_row, record_enqueue_row,
}
use open_mercato_durable.Store.Rows.{KeepsOrigin, find-update_self, find-update_ne}
use open_mercato_durable.Store.Writes.{Fenced, Write, Write-origin, operator_redrive-origin}
use open_mercato_durable.Store.Writes.Fenced.{beats, saves}
use open_mercato_durable.Store.Writes.Write.{claims, fenced}
use open_mercato_durable.Protocol.Steps.{Database, Step, Reach}
use open_mercato_durable.Protocol.Steps.Step.{elapse, write, reopen, create}
use open_mercato_durable.Protocol.Reachable.{find-try_insert}

-- A step's unit of work is committed: a checkpoint, or a heartbeat that says so.
abbrev pub is_fenced_commit : {now : ℕ} {l : Lease} {s : Statement} → Fenced now l s → Bool
is_fenced_commit (saves checkpoint patch) = true
is_fenced_commit (beats patch) = patch.committed
is_fenced_commit _ = false

abbrev pub is_commit : {now : ℕ} {s : Statement} → Write now s → Bool
is_commit (fenced l f) = is_fenced_commit f
is_commit (claims scope x owner ttl) = false
is_commit _ = false

-- A step that neither commits work of the job nor is an operator's re-drive of it.
abbrev pub is_idle : {d e : Database} → ℕ → Step d e → Bool
is_idle id (write j w) = not (j == id && is_commit w)
is_idle id (reopen j scope grace ttl force h) = not (j == id)
is_idle id (elapse later h) = true
is_idle id (create j scope i queue) = true

-- Runs of such steps.
pub data Idle (id : ℕ) (d : Database) : Database → Type 0 where
  rest : Idle id d d
  on : {e f : Database} → Idle id d e → (s : Step e f) → is_idle id s ≡ true → Idle id d f

pub Idle-Reach : (id : ℕ) {d e : Database} → Idle id d e → Reach d e
Idle-Reach id rest = Reach.here
Idle-Reach id (on run s h) = Reach.next (Idle-Reach id run) s

Fenced-counted :
    {now : ℕ} {l : Lease} {s : Statement} (f : Fenced now l s) (r : DurableJob)
    → is_fenced_commit f ≡ false
    → (s.set r).redrives_since_commit ≡ r.redrives_since_commit
unfolding heartbeat_row write_checkpoint_row yield_slice_row fail_slice_row release_lease_row
    complete_cas_row fail_terminal_cas_row cancel_cas_row
Fenced-counted (saves checkpoint patch) r h = cc
Fenced-counted (beats patch) r h = ground arith
Fenced-counted _ r h = ground arith

-- No other statement takes the count of re-drives back.
Write-counted :
    {now : ℕ} {s : Statement} (w : Write now s) (r : DurableJob)
    → is_commit w ≡ false
    → r.redrives_since_commit ≤ (s.set r).redrives_since_commit
unfolding claim_row mark_mirrored_row bump_mirror_attempts_row request_cancel_row cancel_pending_row
    take_orphan_row redrive_pending_row park_row record_enqueue_row
Write-counted (fenced l f) r h = omega (arith, Fenced-counted f r h)
Write-counted (claims scope x owner ttl) r h = omega arith
Write-counted _ r h = omega arith

-- The job's row is there, with no fewer re-drives counted.
abbrev pub Counts : ℕ → DurableJob → Table → Type 0
Counts id r t =
    (q : DurableJob) × (find id t ≡ some q) × (r.redrives_since_commit ≤ q.redrives_since_commit)

update-Counts :
    (id j : ℕ) (s : Statement) (t : Table) (r : DurableJob)
    → KeepsOrigin s
    → ((j == id) ≡ true → r.redrives_since_commit ≤ (s.set r).redrives_since_commit)
    → find id t ≡ some r
    → Counts id r (update j s t).1
update-Counts id j s t r keeps counted found = elim (Bool-cases (j == id)) [
  | inr other ↦ (r, find-update_ne j id s t keeps (ground arith) ∙ found, omega arith)
  | inl same_id ↦
      let own : j ≡ id = ground arith in
      let up = counted same_id in
      rw own (
        row_after s r,
        find-update_self id s t r keeps found,
        elim (Bool-cases (s.matches r)) [ inl hit ↦ rw hit up | inr miss ↦ rw miss (omega arith) ],
      )
]

Step-Counts :
    {d e : Database} (id : ℕ) (r : DurableJob) (s : Step d e)
    → is_idle id s ≡ true
    → find id d.jobs ≡ some r
    → Counts id r e.jobs
Step-Counts id r (elapse later h) idle found = (r, found, omega arith)
Step-Counts {d} id r (create j scope i queue) idle found =
    (r, find-try_insert _ id d.jobs r found, omega arith)
Step-Counts {d} id r (write j {s} w) idle found =
    update-Counts id j s d.jobs r (Write-origin w) (λ own. Write-counted w r (ground arith)) found
Step-Counts {d} id r (reopen j scope grace ttl force h) idle found = (
  r,
  find-update_ne j id _ d.jobs (operator_redrive-origin d.now scope grace ttl force) (ground arith)
      ∙ found,
  omega arith,
)

Idle-Counts :
    (id : ℕ) {d e : Database} (r : DurableJob)
    → find id d.jobs ≡ some r
    → Idle id d e
    → Counts id r e.jobs
Idle-Counts id r found rest = (r, found, omega arith)
Idle-Counts id r found (on run s h) =
    let (q, at_q, le) = Idle-Counts id r found run in
    let (p, at_p, le') = Step-Counts id q s h at_q in (p, at_p, omega arith)

-- In a run in which the job commits nothing the count of its re-drives does not fall.
pub Idle-counted :
    {d e : Database} (id : ℕ)
    → Idle id d e
    → (r q : DurableJob) → find id d.jobs ≡ some r
    → find id e.jobs ≡ some q
    → r.redrives_since_commit ≤ q.redrives_since_commit
Idle-counted id run r q at_r at_q =
    let (p, at_p, le) = Idle-Counts id r at_r run in
    let same : p ≡ q = some-injective p q (sym at_p ∙ at_q) in
    subst (λ x. r.redrives_since_commit ≤ x.redrives_since_commit) same le

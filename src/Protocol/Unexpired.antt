-- ===== src/Protocol/Unexpired.antt =====
-- That a lease is safe until it expires (core/store.ts, `claim` and the re-drive family).
use open_mercato_durable.Common.{
  ℕ, ◌≤◌, ◌≡◌, refl, ◌∙◌, ◌⊎◌, inl, inr, Bool, true, some, arith, ◌==◌, Bool-cases,
}
use open_mercato_durable.Types.{DurableJob, DurableJobStatus, Scope, Lease}
use open_mercato_durable.Store.Table.{Table, Statement, row_after, update, find, is_held, is_epoch}
use open_mercato_durable.Store.Lease.{claim_row}
use open_mercato_durable.Store.Settle.{
  mark_mirrored_row, bump_mirror_attempts_row, request_cancel_row, cancel_pending_row,
}
use open_mercato_durable.Store.Redrive.{
  take_orphan_row, redrive_pending_row, park_row, operator_redrive_row, record_enqueue_row,
}
use open_mercato_durable.Store.Rows.{KeepsOrigin, find-update_self, find-update_ne}
use open_mercato_durable.Store.Writes.{
  Fenced, Write, Fenced-epoch, Write-origin, operator_redrive-origin,
}
use open_mercato_durable.Store.Writes.Write.{
  claims, fenced, mirrors, bumps, asks, drops, takes, redrives, parks, enqueues,
}
use open_mercato_durable.Protocol.Steps.{Database, Step}
use open_mercato_durable.Protocol.Steps.Step.{elapse, write, reopen, create}
use open_mercato_durable.Protocol.Reachable.{find-try_insert}

epochs-eq :
    (l' l : Lease) (r : DurableJob) → is_epoch l' r ≡ true → is_held l r ≡ true → l'.epoch ≡ l.epoch
epochs-eq l' l r h held = ground arith

-- What becomes of the row of a lease that has not expired: the lease is still held, or a statement
-- under a lease of its own epoch wrote the row, or the job was parked.
abbrev pub StaysHeld : ℕ → Lease → DurableJob → DurableJob → Type 0
StaysHeld now l r q =
    (is_held l q ≡ true)
    ⊎ (((l' : Lease) × (s : Statement) × Fenced now l' s × (l'.epoch ≡ l.epoch) × (q ≡ s.set r))
        ⊎ ((q.status ≡ DurableJobStatus.failed) × (q.parked_at ≡ some now)))

module _ (l : Lease) (r : DurableJob) (expiry : ℕ) (held : is_held l r ≡ true)
    (expires : r.lease_expires_at ≡ some expiry) where
  Write-StaysHeld :
      {now : ℕ} {s : Statement}
      → Write now s
      → s.matches r ≡ true
      → now ≤ expiry
      → StaysHeld now l r (s.set r)
  unfolding claim_row mark_mirrored_row bump_mirror_attempts_row request_cancel_row
      cancel_pending_row take_orphan_row redrive_pending_row park_row record_enqueue_row
  Write-StaysHeld (fenced l' {s} f) hit early =
      inr (inl (l', s, f, epochs-eq l' l r (Fenced-epoch f r hit) held, refl))
  Write-StaysHeld (parks reason message) hit early = inr (inr (refl, refl))
  Write-StaysHeld (claims scope x owner ttl) hit early = absurd (ground arith)
  Write-StaysHeld (takes grace ttl backoff) hit early = absurd (ground arith)
  Write-StaysHeld (redrives ttl) hit early = absurd (ground arith)
  Write-StaysHeld drops hit early = absurd (ground arith)
  Write-StaysHeld (enqueues a b) hit early = inl held
  Write-StaysHeld (asks scope by) hit early = inl held
  Write-StaysHeld mirrors hit early = inl held
  Write-StaysHeld bumps hit early = inl held

  -- The operator's re-drive passes the row by.
  operator_redrive-held :
      (now : ℕ) (scope : Scope) (grace ttl : ℕ) (force : Bool)
      → now ≤ expiry
      → (operator_redrive_row now scope grace ttl force).matches r ≡ true
      → StaysHeld now l r ((operator_redrive_row now scope grace ttl force).set r)
  unfolding operator_redrive_row
  operator_redrive-held now scope grace ttl force early hit = absurd (ground arith)

  update-StaysHeld :
      (now id j : ℕ) (s : Statement) (t : Table)
      → KeepsOrigin s
      → (s.matches r ≡ true → StaysHeld now l r (s.set r))
      → find id t ≡ some r
      → (q : DurableJob) × (find id (update j s t).1 ≡ some q) × StaysHeld now l r q
  update-StaysHeld now id j s t keeps stays found = elim (Bool-cases (j == id)) [
    | inr other ↦ (r, find-update_ne j id s t keeps (ground arith) ∙ found, inl held)
    | inl same_id ↦
        let own : j ≡ id = ground arith in
        rw own (
          row_after s r,
          find-update_self id s t r keeps found,
          elim (Bool-cases (s.matches r)) [
            | inl hit ↦ rw hit (stays hit)
            | inr miss ↦ rw miss (inl held)
          ],
        )
  ]

-- While a lease has not expired, a step of the protocol leaves its row in the table and the lease
-- held, or was a statement under a lease of the same epoch, or parked the job: no claim, no
-- reconciler and no operator takes the job.
pub unexpired_lease_kept :
    {d e : Database} (id : ℕ) (l : Lease) (r : DurableJob) (expiry : ℕ)
    → find id d.jobs ≡ some r
    → is_held l r ≡ true
    → r.lease_expires_at ≡ some expiry
    → d.now ≤ expiry
    → Step d e
    → (q : DurableJob) × (find id e.jobs ≡ some q) × StaysHeld d.now l r q
unexpired_lease_kept id l r expiry found held expires early (elapse later h) = (r, found, inl held)
unexpired_lease_kept {d} id l r expiry found held expires early (write j {s} w) =
    update-StaysHeld l r expiry held expires d.now id j s d.jobs (Write-origin w)
      (λ hit. Write-StaysHeld l r expiry held expires w hit early) found
unexpired_lease_kept {d} id l r expiry found held expires early (reopen j scope grace ttl force h) =
    update-StaysHeld l r expiry held expires d.now id j _ d.jobs
      (operator_redrive-origin d.now scope grace ttl force)
      (operator_redrive-held l r expiry held expires d.now scope grace ttl force early) found
unexpired_lease_kept {d} id l r expiry found held expires early (create j scope i queue) =
    (r, find-try_insert _ id d.jobs r found, inl held)

-- ===== src/Reconciler/Repair.antt =====
-- The repair of one job (core/reconciler.ts: `endCancelled`, `repairOrphan`, `repairPending`,
-- `parkJob`).
use open_mercato_durable.Common.{
  ℕ, ◌*◌, ◌^◌, min, Bool, true, false, Option, none, some, or_else, is_null, coalesce, not, ltb,
  leb, if◌then◌else◌,
}
use open_mercato_durable.Types.{DurableJob, Lease, OrphanPolicy, ErrorCode, ParkReason, Message}
use open_mercato_durable.Errors.{Failure}
use open_mercato_durable.Store.Table.{Statement, update, is_pending}
use open_mercato_durable.Store.Lease.{verdict_of}
use open_mercato_durable.Store.Settle.{mark_mirrored}
use open_mercato_durable.Store.Redrive.{take_orphan_row, redrive_pending_row, park_row}
use open_mercato_durable.Registry.Kinds.{ResolvedKind}
use open_mercato_durable.Registry.Register.{KindRegistry, get}
use open_mercato_durable.World.{World, Environment, execute}
use open_mercato_durable.Terminal.Transition.{
  Transition, TerminalOutcome, fenced_out, committed, threw, run_mirror, run_terminal_transition,
}
use open_mercato_durable.Queue.{enqueue_job, end_pending, transact, scope_of, after_transition}

-- What became of a job: `raised` is a throw, which the pass counts.
pub data Repair : Type 0 where
  ended : Repair
  redriven : Repair
  parked : Repair
  skipped : Repair
  raised : Option Failure → Repair

-- `Math.min(REDRIVE_BASE_MS * 2 ** n, REDRIVE_CAP_MS)`
unfoldable pub redrive_backoff_ms : ℕ → ℕ
redrive_backoff_ms n = min (15000 * 2 ^ n) 600000

-- `job.leaseOwner ?? 'reconciler'`, whose text is `name`.
abbrev pub lease_of_row : ℕ → DurableJob → Lease
lease_of_row name job = record {
  job_id = job.id;
  owner = coalesce job.lease_owner name;
  epoch = job.lease_epoch;
  ttl_ms = 0;
}

-- `job.leaseExpiresAt && job.leaseExpiresAt.getTime() > Date.now()`
abbrev pub is_leased : Option ℕ → ℕ → Bool
is_leased none clock = false
is_leased (some t) clock = ltb clock t

abbrev pub is_redrive : OrphanPolicy → Bool
is_redrive OrphanPolicy.redrive = true
is_redrive _ = false

module _ {D : Type 0} where
  -- One autocommitted statement on the row of an id.
  abbrev pub run_row : Environment D → ℕ → (ℕ → Statement) → World D → Option DurableJob × World D
  run_row env id statement w = execute env (λ now t. update id (statement now) t) w

  abbrev pub mark : Environment D → ℕ → World D → World D
  mark env id w = (execute env (λ now t. (id, mark_mirrored now id t)) w).1

  -- The plain statement, and then the mark.
  unfoldable pub park_plain :
      Environment D → DurableJob → ErrorCode → Option Message → World D → Repair × World D
  unfolding execute
  park_plain env job reason message w =
      let (row, u) = run_row env job.id (λ now. park_row now reason message) w in
      elim row [ none ↦ (skipped, u) | some r ↦ (parked, mark env job.id u) ]

  abbrev pub after_end :
      Repair → Option (ResolvedKind D) → TerminalOutcome × World D → Repair × World D
  after_end done kind (fenced_out, w) = (skipped, w)
  after_end done kind (committed row, w) = (done, after_transition kind row (scope_of row) w)
  after_end done kind (threw e, w) = (raised (some e), w)

  -- With the mirror in the transaction when the kind has one.
  unfoldable pub park_job :
      Environment D
      → DurableJob
      → Option (ResolvedKind D)
      → ErrorCode
      → Option Message
      → World D
      → Repair × World D
  unfolding park_plain transact
  park_job env job none reason message w = park_plain env job reason message w
  park_job env job (some k) reason message w =
      if is_null k.on_transition
      then park_plain env job reason message w
      else after_end parked (some k) (
          transact env job.id (λ now. park_row now reason message)
            (λ r d. run_mirror k r (scope_of r) d) w)

  -- The delivery of a job that was just re-driven.
  unfoldable pub publish :
      Environment D → ResolvedKind D → Option DurableJob × World D → Repair × World D
  unfolding enqueue_job
  publish env k (none, w) = (skipped, w)
  publish env k (some row, w) =
      let (sent, u) = enqueue_job env k row w in (if sent then redriven else raised none, u)

  unfoldable pub end_cancelled :
      Environment D → KindRegistry D → ℕ → DurableJob → World D → Repair × World D
  unfolding get end_pending park_plain run_terminal_transition
  end_cancelled env kinds name job w =
      if is_pending job.status
      then after_end ended (get job.kind kinds)
          (end_pending env (get job.kind kinds) job.id scope_of w)
      else if is_leased job.lease_expires_at (env.worker_clock w.turn)
      then (skipped, w)
      else elim (get job.kind kinds) [
        | none ↦
            (let (row, u) =
                run_row env job.id
                  (λ now.
                    park_row now (ErrorCode.parked ParkReason.no_handler)
                      (some Message.no_handler_registered))
                  w in
              (if is_null row then skipped else ended, u))
        | some k ↦ after_end ended (some k) (
            run_terminal_transition env k (lease_of_row name job) (scope_of job) Transition.cancel
              w)
      ]

  unfoldable pub take_and_publish :
      Environment D → ResolvedKind D → ℕ → DurableJob → World D → Repair × World D
  unfolding publish execute redrive_backoff_ms
  take_and_publish env k grace_ms job w = publish env k (
      run_row env job.id
        (λ now.
          take_orphan_row now grace_ms k.lease.pending_ttl_ms
            (redrive_backoff_ms job.redrives_since_commit))
        w)

  unfoldable pub repair_orphan_of :
      Environment D → ResolvedKind D → ℕ → DurableJob → World D → Repair × World D
  unfolding park_job take_and_publish
  repair_orphan_of env k grace_ms job w = elim (verdict_of job.error_code) [
    | some v ↦ park_job env job (some k) (ErrorCode.verdict v) job.error_message w
    | none ↦
        if not (is_redrive k.orphan_policy)
        then park_job env job (some k) (ErrorCode.parked ParkReason.orphaned)
            (or_else job.error_message (some Message.worker_stopped)) w
        else if leb k.budget.poison_redrives_without_commit job.redrives_since_commit
        then park_job env job (some k) (ErrorCode.parked ParkReason.poison)
            (some Message.no_progress) w
        else take_and_publish env k grace_ms job w
  ]

  unfoldable pub repair_orphan :
      Environment D → KindRegistry D → ℕ → DurableJob → World D → Repair × World D
  unfolding get park_job repair_orphan_of
  repair_orphan env kinds grace_ms job w = elim (get job.kind kinds) [
    | none ↦
        park_job env job none (ErrorCode.parked ParkReason.no_handler)
          (some Message.no_handler_registered) w
    | some k ↦ repair_orphan_of env k grace_ms job w
  ]

  unfoldable pub repair_pending :
      Environment D → KindRegistry D → DurableJob → World D → Repair × World D
  unfolding get park_job publish execute
  repair_pending env kinds job w = elim (get job.kind kinds) [
    | none ↦
        park_job env job none (ErrorCode.parked ParkReason.no_handler)
          (some Message.no_handler_registered) w
    | some k ↦
        if leb k.budget.max_redrives job.redrives_since_commit
        then park_job env job (some k) (ErrorCode.parked ParkReason.never_started)
            (some Message.never_delivered) w
        else publish env k
            (run_row env job.id (λ now. redrive_pending_row now k.lease.pending_ttl_ms) w)
  ]

-- ===== src/Reconciler/Orphan.antt =====
-- When the reconciler re-drives a job (core/reconciler.ts, `repairOrphan`, `repairPending`).
use open_mercato_durable.Common.{
  ℕ, ◌+◌, ◌<◌, ◌≡◌, refl, sym, ap, ◌∙◌, inl, inr, true, Option, none, some, Bool-cases,
  Option-cases, [], ◌∷◌, ◌++◌, is_null, leb, or_else, arith,
}
use open_mercato_durable.Types.{
  DurableJob, DurableJobStatus, ErrorCode, ParkReason, Message, OrphanPolicy,
}
use open_mercato_durable.Store.Table.{Statement, find}
use open_mercato_durable.Store.Lease.{verdict_of}
use open_mercato_durable.Store.Redrive.{take_orphan_row, park_row}
use open_mercato_durable.Store.Writes.{Write, Write-origin}
use open_mercato_durable.Store.Writes.Write.{takes}
use open_mercato_durable.Store.Rows.{update-some}
use open_mercato_durable.Registry.Kinds.{ResolvedKind}
use open_mercato_durable.Registry.Register.{KindRegistry, get}
use open_mercato_durable.World.{World, Environment, pause, execute}
use open_mercato_durable.Terminal.Transition.{
  TerminalOutcome, fenced_out, committed, threw, run_mirror,
}
use open_mercato_durable.Queue.{delivery_of, enqueue_job, scope_of, transact}
use open_mercato_durable.Reconciler.Repair.{
  redriven, parked, is_redrive, run_row, park_plain, after_end, park_job, publish,
  redrive_backoff_ms, take_and_publish, repair_orphan_of, repair_orphan,
}

policy : (p : OrphanPolicy) → is_redrive p ≡ true → p ≡ OrphanPolicy.redrive
policy OrphanPolicy.redrive h = refl
policy OrphanPolicy.park h = cc

module _ {D : Type 0} (env : Environment D) where
  park_plain-parks :
      (job : DurableJob) (reason : ErrorCode) (message : Option Message) (w : World D)
      → ¬ ((park_plain env job reason message w).0 ≡ redriven)
  unfolding park_plain
  park_plain-parks job reason message w h =
      elim (Option-cases (run_row env job.id (λ now. park_row now reason message) w).0) [
        | inl gone ↦ cc (rw (gone, park_plain) at h)
        | inr (r, hit) ↦ cc (rw (hit, park_plain) at h)
      ]

  after_end-parks :
      (kind : Option (ResolvedKind D)) (o : TerminalOutcome) (w : World D)
      → ¬ ((after_end parked kind (o, w)).0 ≡ redriven)
  after_end-parks kind fenced_out w h = cc
  after_end-parks kind (committed row) w h = cc
  after_end-parks kind (threw e) w h = cc

  park_job-parks :
      (job : DurableJob) (kind : Option (ResolvedKind D)) (reason : ErrorCode)
      (message : Option Message) (w : World D)
      → ¬ ((park_job env job kind reason message w).0 ≡ redriven)
  unfolding park_job
  park_job-parks job none reason message w h = park_plain-parks job reason message w h
  park_job-parks job (some k) reason message w h = elim (Bool-cases (is_null k.on_transition)) [
    | inl absent ↦ park_plain-parks job reason message w (rw absent at h)
    | inr present ↦
        let o =
          transact env job.id (λ now. park_row now reason message)
            (λ r d. run_mirror k r (scope_of r) d) w in
        after_end-parks (some k) o.0 o.1 (rw present at h)
  ]

  publish-redriven :
      (k : ResolvedKind D) (row : Option DurableJob) (u : World D)
      → (publish env k (row, u)).0 ≡ redriven
      → (c : DurableJob) × (row ≡ some c)
        × ((publish env k (row, u)).1.sent ≡ u.sent ++ delivery_of c ∷ [])
  unfolding publish enqueue_job execute
  publish-redriven k none u h = cc
  publish-redriven k (some c) u h = elim (Bool-cases (env.broker_refuses u.turn)) [
    | inl refuses ↦ cc (rw (refuses, publish) at h)
    | inr accepts ↦ (c, refl, rw accepts refl)
  ]

  -- What a re-drive by the statement `s` has done since the world `w`: the row matched, and the
  -- delivery of the row that the statement wrote was published, and no other.
  abbrev pub IsRedriven : (ℕ → Statement) → DurableJob → World D → World D → Type 0
  IsRedriven s job w u =
      let p = pause env w in
      (r : DurableJob) × (find job.id p.jobs ≡ some r)
      × ((s p.now).matches r ≡ true)
      × (u.sent ≡ w.sent ++ delivery_of ((s p.now).set r) ∷ [])

  run_row-redriven :
      (k : ResolvedKind D) (job : DurableJob) (s : ℕ → Statement) (w : World D)
      → ((now : ℕ) → Write now (s now))
      → (publish env k (run_row env job.id s w)).0 ≡ redriven
      → IsRedriven s job w (publish env k (run_row env job.id s w)).1
  unfolding execute
  run_row-redriven k job s w writes h =
      let p = pause env w in
      let (c, hit, sent) =
        publish-redriven k (run_row env job.id s w).0 (run_row env job.id s w).1 h in
      let (r, found, matched, set_r, after) =
        update-some job.id (s p.now) p.jobs c (Write-origin (writes p.now)) hit in
      (r, found, matched, sent ∙ ap (λ x. w.sent ++ delivery_of x ∷ []) (sym set_r))

  -- The statement that takes an orphan of the kind.
  abbrev pub take_orphan : ResolvedKind D → ℕ → DurableJob → ℕ → Statement
  take_orphan k grace job now =
      take_orphan_row now grace k.lease.pending_ttl_ms
        (redrive_backoff_ms job.redrives_since_commit)

  repair_orphan_of-redriven :
      (k : ResolvedKind D) (grace : ℕ) (job : DurableJob) (w : World D)
      → (repair_orphan_of env k grace job w).0 ≡ redriven
      → (verdict_of job.error_code ≡ none)
        × (k.orphan_policy ≡ OrphanPolicy.redrive)
        × (job.redrives_since_commit < k.budget.poison_redrives_without_commit)
        × IsRedriven (take_orphan k grace job) job w (repair_orphan_of env k grace job w).1
  unfolding repair_orphan_of take_and_publish
  repair_orphan_of-redriven k grace job w h =
      let n = job.redrives_since_commit in
      let limit = k.budget.poison_redrives_without_commit in
      elim (Option-cases (verdict_of job.error_code)) [
        | inr (v, decided) ↦ absurd (
            park_job-parks job (some k) (ErrorCode.verdict v) job.error_message w
              (rw (decided, repair_orphan_of) at h))
        | inl undecided ↦ elim (Bool-cases (is_redrive k.orphan_policy)) [
          | inr keeps ↦ absurd (
              park_job-parks job (some k) (ErrorCode.parked ParkReason.orphaned)
                (or_else job.error_message (some Message.worker_stopped)) w
                (rw (undecided, keeps, repair_orphan_of) at h))
          | inl again ↦ elim (Bool-cases (leb limit n)) [
            | inl poison ↦ absurd (
                park_job-parks job (some k) (ErrorCode.parked ParkReason.poison)
                  (some Message.no_progress) w
                  (rw (undecided, again, poison, repair_orphan_of) at h))
            | inr sound ↦ (
              undecided,
              policy k.orphan_policy again,
              ground arith,
              rw (undecided, again, sound, repair_orphan_of)
                  (run_row-redriven k job (take_orphan k grace job) w
                    (λ now. takes grace k.lease.pending_ttl_ms (redrive_backoff_ms n))
                    (rw (undecided, again, sound, repair_orphan_of) at h)),
            )
          ]
        ]
      ]

  taken_lem :
      (now grace ttl backoff : ℕ) (r : DurableJob)
      → (take_orphan_row now grace ttl backoff).matches r ≡ true
      → (r.status ≡ DurableJobStatus.running)
        × (r.cancel_requested_at ≡ none)
        × (delivery_of ((take_orphan_row now grace ttl backoff).set r)
            ≡ record { job_id = r.id; seq = r.continuation_seq; redrives = r.redrives + 1 })
  unfolding take_orphan_row
  taken_lem now grace ttl backoff r h = (ground arith, ground arith, refl)

  -- The reconciler re-drives an orphan only if its kind is known, asks for it and has re-drives
  -- left since the last commit, and no verdict was reached; then the row was running and nobody had
  -- asked to cancel it, and exactly one delivery was published, under an identity that is new.
  pub repair_orphan-redriven :
      (kinds : KindRegistry D) (grace : ℕ) (job : DurableJob) (w : World D)
      → (repair_orphan env kinds grace job w).0 ≡ redriven
      → (k : ResolvedKind D) × (r : DurableJob) × (get job.kind kinds ≡ some k)
        × (verdict_of job.error_code ≡ none)
        × (k.orphan_policy ≡ OrphanPolicy.redrive)
        × (job.redrives_since_commit < k.budget.poison_redrives_without_commit)
        × (find job.id (pause env w).jobs ≡ some r)
        × (r.status ≡ DurableJobStatus.running)
        × (r.cancel_requested_at ≡ none)
        × ((repair_orphan env kinds grace job w).1.sent
            ≡ w.sent
              ++ record { job_id = r.id; seq = r.continuation_seq; redrives = r.redrives + 1 } ∷ [])
  unfolding repair_orphan
  repair_orphan-redriven kinds grace job w h = elim (Option-cases (get job.kind kinds)) [
    | inl unknown ↦ absurd (
        park_job-parks job none (ErrorCode.parked ParkReason.no_handler)
          (some Message.no_handler_registered) w (rw (unknown, repair_orphan) at h))
    | inr (k, known) ↦
        let (undecided, asks, left, again) =
          repair_orphan_of-redriven k grace job w (rw (known, repair_orphan) at h) in
        let (r, found, hit, sent) = again in
        let (running, unasked, fresh) =
          taken_lem (pause env w).now grace k.lease.pending_ttl_ms
            (redrive_backoff_ms job.redrives_since_commit) r hit in
        (
          k,
          r,
          known,
          undecided,
          asks,
          left,
          found,
          running,
          unasked,
          rw (known, repair_orphan) (sent ∙ ap (λ x. w.sent ++ x ∷ []) fresh),
        )
  ]

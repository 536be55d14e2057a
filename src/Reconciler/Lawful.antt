-- ===== src/Reconciler/Lawful.antt =====
-- A pass of the reconciler (core/reconciler.ts) as steps of the protocol.
use open_mercato_durable.Common.{
  ℕ, sym, subst, inl, inr, Bool, Option, none, some, Bool-cases, Option-cases, [], ◌∷◌, is_null,
  leb, coalesce,
}
use open_mercato_durable.Types.{DurableJob, ErrorCode, ParkReason, Message}
use open_mercato_durable.Store.Table.{Table, Statement, update, is_pending}
use open_mercato_durable.Store.Lease.{verdict_of}
use open_mercato_durable.Store.Settle.{mark_mirrored}
use open_mercato_durable.Store.Redrive.{take_orphan_row, redrive_pending_row, park_row}
use open_mercato_durable.Store.Select.{select_cancelling, select_orphans, select_stale_pending}
use open_mercato_durable.Store.Writes.{Write}
use open_mercato_durable.Store.Writes.Write.{mirrors, takes, redrives, parks}
use open_mercato_durable.Protocol.Steps.{Reach}
use open_mercato_durable.Protocol.Steps.Reach.{here}
use open_mercato_durable.Registry.Kinds.{ResolvedKind}
use open_mercato_durable.Registry.Register.{KindRegistry, get}
use open_mercato_durable.World.{World, Environment}
use open_mercato_durable.Terminal.Transition.{
  Transition, TerminalOutcome, fenced_out, committed, threw, run_mirror, run_terminal_transition,
}
use open_mercato_durable.Slice.Lawful.{
  Reach-trans, update-Reach, db, IsLawful, execute-Reach, run_terminal_transition-Reach,
}
use open_mercato_durable.Queue.{end_pending, transact, scope_of}
use open_mercato_durable.Queue.Lawful.{
  after_transition-db, enqueue_job-Reach, transact-Reach, end_pending-Reach,
}
use open_mercato_durable.Reconciler.Repair.{
  Repair, ended, parked, lease_of_row, is_leased, is_redrive, run_row, mark, park_plain, after_end,
  park_job, publish, end_cancelled, take_and_publish, redrive_backoff_ms, repair_orphan_of,
  repair_orphan, repair_pending,
}
use open_mercato_durable.Reconciler.Pass.{
  ReconcileReport, ReconcilerOptions, empty_report, count, widest_pending_ttl, select, repair_all,
  reconcile_once,
}

module _ {D : Type 0} where
  after_end-Reach :
      (done : Repair) (kind : Option (ResolvedKind D)) (o : TerminalOutcome) (w u : World D)
      → Reach (db w) (db u)
      → Reach (db w) (db (after_end done kind (o, u)).1)
  after_end-Reach done kind fenced_out w u reach = reach
  after_end-Reach done kind (committed row) w u reach =
      subst (λ x. Reach (db w) x) (sym (after_transition-db kind row (scope_of row) u)) reach
  after_end-Reach done kind (threw e) w u reach = reach

module _ {D : Type 0} (env : Environment D) (lawful : IsLawful env) where
  run_row-Reach :
      (id : ℕ) (statement : ℕ → Statement) (w : World D)
      → ((now : ℕ) → Write now (statement now))
      → Reach (db w) (db (run_row env id statement w).1)
  run_row-Reach id statement w writes =
      execute-Reach env lawful (λ now t. update id (statement now) t) w
        (λ now t. update-Reach now id t (writes now))

  mark-Reach : (id : ℕ) (w : World D) → Reach (db w) (db (mark env id w))
  unfolding mark_mirrored
  mark-Reach id w =
      execute-Reach env lawful (λ now t. (id, mark_mirrored now id t)) w
        (λ now t. update-Reach now id t mirrors)

  park_plain-Reach :
      (job : DurableJob) (reason : ErrorCode) (message : Option Message) (w : World D)
      → Reach (db w) (db (park_plain env job reason message w).1)
  unfolding park_plain
  park_plain-Reach job reason message w =
      let s = λ (now : ℕ). park_row now reason message in
      let u = (run_row env job.id s w).1 in
      let reach = run_row-Reach job.id s w (λ now. parks reason message) in
      elim (Option-cases (run_row env job.id s w).0) [
        | inl gone ↦ rw (gone, park_plain) reach
        | inr (r, hit) ↦ rw (hit, park_plain) (Reach-trans reach (mark-Reach job.id u))
      ]

  park_job-Reach :
      (job : DurableJob) (kind : Option (ResolvedKind D)) (reason : ErrorCode)
      (message : Option Message) (w : World D)
      → Reach (db w) (db (park_job env job kind reason message w).1)
  unfolding park_job
  park_job-Reach job none reason message w = park_plain-Reach job reason message w
  park_job-Reach job (some k) reason message w = elim (Bool-cases (is_null k.on_transition)) [
    | inl absent ↦ rw absent (park_plain-Reach job reason message w)
    | inr present ↦
        let s = λ (now : ℕ). park_row now reason message in
        let calls = λ (r : DurableJob) (d : D). run_mirror k r (scope_of r) d in
        rw present (
          after_end-Reach parked (some k) (transact env job.id s calls w).0 w
            (transact env job.id s calls w).1
            (transact-Reach env lawful job.id s calls w (λ now. parks reason message)))
  ]

  publish-Reach :
      (k : ResolvedKind D) (row : Option DurableJob) (w u : World D)
      → Reach (db w) (db u)
      → Reach (db w) (db (publish env k (row, u)).1)
  unfolding publish
  publish-Reach k none w u reach = reach
  publish-Reach k (some row) w u reach = Reach-trans reach (enqueue_job-Reach env lawful k row u)

  end_cancelled-Reach :
      (kinds : KindRegistry D) (name : ℕ) (job : DurableJob) (w : World D)
      → Reach (db w) (db (end_cancelled env kinds name job w).1)
  unfolding end_cancelled
  end_cancelled-Reach kinds name job w = elim (Bool-cases (is_pending job.status)) [
    | inl pending ↦
        let kind = get job.kind kinds in
        rw pending (
          after_end-Reach ended kind (end_pending env kind job.id scope_of w).0 w
            (end_pending env kind job.id scope_of w).1
            (end_pending-Reach env lawful kind job.id scope_of w))
    | inr driven ↦ elim (Bool-cases (is_leased job.lease_expires_at (env.worker_clock w.turn))) [
      | inl leased ↦ rw (driven, leased) here
      | inr expired ↦ elim (Option-cases (get job.kind kinds)) [
        | inl unknown ↦
            rw (driven, expired, unknown, end_cancelled)
              (run_row-Reach job.id _ w (λ now.
                parks (ErrorCode.parked ParkReason.no_handler)
                  (some Message.no_handler_registered)))
        | inr (k, known) ↦
            let o =
              run_terminal_transition env k (lease_of_row name job) (scope_of job) Transition.cancel
                w in
            rw (driven, expired, known, end_cancelled)
              (after_end-Reach ended (some k) o.0 w o.1 (
                run_terminal_transition-Reach env lawful k (lease_of_row name job) (scope_of job)
                  Transition.cancel w))
      ]
    ]
  ]

  take_and_publish-Reach :
      (k : ResolvedKind D) (grace : ℕ) (job : DurableJob) (w : World D)
      → Reach (db w) (db (take_and_publish env k grace job w).1)
  unfolding take_and_publish
  take_and_publish-Reach k grace job w =
      let s = λ (now : ℕ).
        take_orphan_row now grace k.lease.pending_ttl_ms
          (redrive_backoff_ms job.redrives_since_commit) in
      publish-Reach k (run_row env job.id s w).0 w (run_row env job.id s w).1
        (run_row-Reach job.id s w (λ now. takes grace _ _))

  repair_orphan_of-Reach :
      (k : ResolvedKind D) (grace : ℕ) (job : DurableJob) (w : World D)
      → Reach (db w) (db (repair_orphan_of env k grace job w).1)
  unfolding repair_orphan_of
  repair_orphan_of-Reach k grace job w = elim (Option-cases (verdict_of job.error_code)) [
    | inr (v, decided) ↦ rw (decided, repair_orphan_of) (park_job-Reach job (some k) _ _ w)
    | inl undecided ↦ elim (Bool-cases (is_redrive k.orphan_policy)) [
      | inr keeps ↦ rw (undecided, keeps, repair_orphan_of) (park_job-Reach job (some k) _ _ w)
      | inl again ↦
          elim (Bool-cases
            (leb k.budget.poison_redrives_without_commit job.redrives_since_commit)) [
              | inl poison ↦
                  rw (undecided, again, poison, repair_orphan_of)
                    (park_job-Reach job (some k) _ _ w)
              | inr sound ↦
                  rw (undecided, again, sound, repair_orphan_of)
                    (take_and_publish-Reach k grace job w)
            ]
    ]
  ]

  repair_orphan-Reach :
      (kinds : KindRegistry D) (grace : ℕ) (job : DurableJob) (w : World D)
      → Reach (db w) (db (repair_orphan env kinds grace job w).1)
  unfolding repair_orphan
  repair_orphan-Reach kinds grace job w = elim (Option-cases (get job.kind kinds)) [
    | inl unknown ↦ rw (unknown, repair_orphan) (park_job-Reach job none _ _ w)
    | inr (k, known) ↦ rw (known, repair_orphan) (repair_orphan_of-Reach k grace job w)
  ]

  repair_pending-Reach :
      (kinds : KindRegistry D) (job : DurableJob) (w : World D)
      → Reach (db w) (db (repair_pending env kinds job w).1)
  unfolding repair_pending
  repair_pending-Reach kinds job w = elim (Option-cases (get job.kind kinds)) [
    | inl unknown ↦ rw (unknown, repair_pending) (park_job-Reach job none _ _ w)
    | inr (k, known) ↦ elim (Bool-cases (leb k.budget.max_redrives job.redrives_since_commit)) [
      | inl over ↦ rw (known, over, repair_pending) (park_job-Reach job (some k) _ _ w)
      | inr under ↦
          let s = λ (now : ℕ). redrive_pending_row now k.lease.pending_ttl_ms in
          rw (known, under, repair_pending)
            (publish-Reach k (run_row env job.id s w).0 w (run_row env job.id s w).1
              (run_row-Reach job.id s w (λ now. redrives _)))
    ]
  ]

  repair_all-Reach :
      (repair : DurableJob → World D → Repair × World D)
      → ((job : DurableJob) (w : World D) → Reach (db w) (db (repair job w).1))
      → (jobs : Table) (report : ReconcileReport) (w : World D)
      → Reach (db w) (db (repair_all repair jobs (report, w)).1)
  unfolding repair_all
  repair_all-Reach repair lawfully [] report w = here
  repair_all-Reach repair lawfully (job ∷ jobs) report w =
      Reach-trans (lawfully job w)
        (repair_all-Reach repair lawfully jobs (count (repair job w).0 report) (repair job w).1)

  select-Reach :
      (query : (ℕ → Bool) → ℕ → Table → Table) (w : World D)
      → Reach (db w) (db (select env query w).1)
  unfolding select
  select-Reach query w =
      execute-Reach env lawful (λ now t. (query (env.locked w.turn) now t, t)) w (λ now t. here)

  -- A pass of the reconciler over any registry, whatever the others do meanwhile, is a run of the
  -- protocol: it keeps every property of the reachable tables. The others run statements of the
  -- protocol.
  pub reconcile_once-Reach :
      (kinds : KindRegistry D) (o : ReconcilerOptions) (w : World D)
      → Reach (db w) (db (reconcile_once env kinds o w).1)
  unfolding reconcile_once
  reconcile_once-Reach kinds o w =
      let limit = coalesce o.batch_size 100 in
      let grace = coalesce o.grace_ms 20000 in
      let ttl = widest_pending_ttl kinds in
      let q3 =
        λ (locked : ℕ → Bool) (now : ℕ) (t : Table). select_cancelling locked limit o.tenant_id t in
      let q1 = λ (locked : ℕ → Bool) (now : ℕ) (t : Table).
        select_orphans locked now grace ttl limit o.tenant_id t in
      let q2 = λ (locked : ℕ → Bool) (now : ℕ) (t : Table).
        select_stale_pending locked now ttl limit o.tenant_id t in
      let (asked, w1) = select env q3 w in
      let (report1, w2) = repair_all (end_cancelled env kinds o.name) asked (empty_report, w1) in
      let (orphans, w3) = select env q1 w2 in
      let (report2, w4) = repair_all (repair_orphan env kinds grace) orphans (report1, w3) in
      let (stale, w5) = select env q2 w4 in
      let a = select-Reach q3 w in
      let b =
        repair_all-Reach (end_cancelled env kinds o.name) (end_cancelled-Reach kinds o.name) asked
          empty_report w1 in
      let c = select-Reach q1 w2 in
      let d =
        repair_all-Reach (repair_orphan env kinds grace) (repair_orphan-Reach kinds grace) orphans
          report1 w3 in
      let e = select-Reach q2 w4 in
      let f =
        repair_all-Reach (repair_pending env kinds) (repair_pending-Reach kinds) stale report2 w5 in
      Reach-trans a (Reach-trans b (Reach-trans c (Reach-trans d (Reach-trans e f))))

-- ===== src/Reconciler/Published.antt =====
-- What a repair publishes (core/reconciler.ts, `endCancelled`, `repairOrphan`, `repairPending`).
use open_mercato_durable.Common.{
  if◌then◌else◌, ℕ, ◌+◌, ◌≡◌, refl, ap, ◌∙◌, inl, inr, Option, none, some, List, [], ◌∷◌, ◌++◌,
  length, leb, is_null, Bool-cases, Option-cases, arith,
}
use open_mercato_durable.Types.{DurableJob, Delivery, Scope, Lease, ErrorCode, ParkReason, Message}
use open_mercato_durable.Store.Table.{Table, Statement, update, is_pending}
use open_mercato_durable.Store.Lease.{verdict_of}
use open_mercato_durable.Store.Settle.{cancel_pending_row}
use open_mercato_durable.Store.Redrive.{park_row}
use open_mercato_durable.Registry.Script.{Attempt, commits, throws}
use open_mercato_durable.Registry.Kinds.{ResolvedKind}
use open_mercato_durable.Registry.Register.{KindRegistry, get}
use open_mercato_durable.World.{World, Environment, pause, execute}
use open_mercato_durable.Terminal.Transition.{
  Transition, TerminalOutcome, fenced_out, committed, threw, cas_row, settle, callbacks, run_mirror,
  run_terminal_transition, run_after_transition,
}
use open_mercato_durable.Queue.{
  cancel_callbacks, enqueue_job, scope_of, commit, transact, end_pending, after_transition,
}
use open_mercato_durable.Reconciler.Repair.{
  Repair, ended, redriven, parked, skipped, is_redrive, is_leased, lease_of_row, run_row,
  park_plain, after_end, park_job, publish, end_cancelled, take_and_publish, repair_orphan_of,
  repair_orphan, repair_pending,
}

-- How many deliveries a repair says that it has published.
abbrev pub sent_by : Repair → ℕ
sent_by redriven = 1
sent_by _ = 0

length-snoc : (ds : List Delivery) (d : Delivery) → length (ds ++ d ∷ []) ≡ length ds + 1
length-snoc [] d = refl
length-snoc (x ∷ ds) d = omega (arith, length-snoc ds d)

module _ {D : Type 0} where
  -- Since the world `w` as many deliveries were published as the repair says.
  abbrev pub Tells : World D → Repair × World D → Type 0
  Tells w o = length o.1.sent ≡ length w.sent + sent_by o.0

  after_transition-sent :
      (kind : Option (ResolvedKind D)) (row : DurableJob) (scope : Scope) (w : World D)
      → (after_transition kind row scope w).sent ≡ w.sent
  unfolding run_after_transition
  after_transition-sent none row scope w = refl
  after_transition-sent (some k) row scope w = elim (Option-cases k.on_after_transition) [
    | inl absent ↦ rw (absent, run_after_transition)
    | inr (hook, present) ↦ rw (present, run_after_transition)
  ]

  after_end-Tells :
      (done : Repair) (kind : Option (ResolvedKind D)) (o : TerminalOutcome) (w u : World D)
      → sent_by done ≡ 0
      → u.sent ≡ w.sent
      → Tells w (after_end done kind (o, u))
  after_end-Tells done kind fenced_out w u unsent same = omega (arith, ap length same)
  after_end-Tells done kind (committed row) w u unsent same =
      omega
        (arith, ap length same, ap length (after_transition-sent kind row (scope_of row) u), unsent)
  after_end-Tells done kind (threw e) w u unsent same = omega (arith, ap length same)

  commit-sent :
      (jobs : Table) (row : DurableJob) (a : Attempt D) (p : World D)
      → (commit jobs row a p).1.sent ≡ p.sent
  commit-sent jobs row (commits n d) p = refl
  commit-sent jobs row (throws e) p = refl

module _ {D : Type 0} (env : Environment D) where
  transact-sent :
      (id : ℕ) (statement : ℕ → Statement) (calls : DurableJob → D → Attempt D) (w : World D)
      → (transact env id statement calls w).1.sent ≡ w.sent
  unfolding transact pause
  transact-sent id statement calls w =
      let p = pause env w in
      elim (Option-cases (update id (statement p.now) p.jobs).0) [
        | inl gone ↦ rw (gone, transact)
        | inr (r, hit) ↦
            rw (hit, transact)
              (commit-sent (update id (statement p.now) p.jobs).1 r (calls r p.domain) p)
      ]

  run_row-sent :
      (id : ℕ) (statement : ℕ → Statement) (w : World D)
      → (run_row env id statement w).1.sent ≡ w.sent
  unfolding execute pause
  run_row-sent id statement w = refl

  park_plain-Tells :
      (job : DurableJob) (reason : ErrorCode) (message : Option Message) (w : World D)
      → Tells w (park_plain env job reason message w)
  unfolding park_plain execute pause
  park_plain-Tells job reason message w =
      elim (Option-cases (run_row env job.id (λ now. park_row now reason message) w).0) [
        | inl gone ↦ rw (gone, park_plain) (omega arith)
        | inr (r, hit) ↦ rw (hit, park_plain) (omega arith)
      ]

  park_job-Tells :
      (job : DurableJob) (kind : Option (ResolvedKind D)) (reason : ErrorCode)
      (message : Option Message) (w : World D)
      → Tells w (park_job env job kind reason message w)
  unfolding park_job
  park_job-Tells job none reason message w = park_plain-Tells job reason message w
  park_job-Tells job (some k) reason message w = elim (Bool-cases (is_null k.on_transition)) [
    | inl absent ↦ rw absent (park_plain-Tells job reason message w)
    | inr present ↦
        let statement = λ (now : ℕ). park_row now reason message in
        let calls = λ (r : DurableJob) (d : D). run_mirror k r (scope_of r) d in
        let o = transact env job.id statement calls w in
        rw present
          (after_end-Tells parked (some k) o.0 w o.1 refl (transact-sent job.id statement calls w))
  ]

  publish-Tells :
      (k : ResolvedKind D) (row : Option DurableJob) (w u : World D)
      → u.sent ≡ w.sent
      → Tells w (publish env k (row, u))
  unfolding publish enqueue_job execute pause
  publish-Tells k none w u same = omega (arith, ap length same)
  publish-Tells k (some row) w u same = elim (Bool-cases (env.broker_refuses u.turn)) [
    | inl refuses ↦ rw (refuses, publish) (omega (arith, ap length same))
    | inr accepts ↦ rw (accepts, publish) (length-snoc u.sent _ ∙ ap (λ l. length l + 1) same)
  ]

  settle-sent :
      (id : ℕ) (jobs : Table) (job : DurableJob) (a : Attempt D) (p : World D)
      → (settle env id jobs job a p).1.sent ≡ p.sent
  unfolding settle pause
  settle-sent id jobs job (commits n d) p = refl
  settle-sent id jobs job (throws e) p = refl

  run_terminal_transition-sent :
      (k : ResolvedKind D) (lease : Lease) (scope : Scope) (t : Transition) (w : World D)
      → (run_terminal_transition env k lease scope t w).1.sent ≡ w.sent
  unfolding run_terminal_transition pause
  run_terminal_transition-sent k lease scope t w =
      let p = pause env w in
      let o = update lease.job_id (cas_row p.now lease t) p.jobs in
      elim (Option-cases o.0) [
        | inl gone ↦ rw (gone, run_terminal_transition)
        | inr (r, hit) ↦
            rw (hit, run_terminal_transition)
              (settle-sent lease.job_id o.1 r (callbacks k t r scope p.domain) p)
      ]

  unknown-Tells :
      (job : DurableJob) (w : World D)
      → let o =
          run_row env job.id
            (λ now.
              park_row now
                (ErrorCode.parked ParkReason.no_handler)
                (some Message.no_handler_registered))
            w in
        Tells w (if is_null o.0 then skipped else ended, o.1)
  unfolding execute pause
  unknown-Tells job w = ground arith

  pub end_cancelled-Tells :
      (kinds : KindRegistry D) (name : ℕ) (job : DurableJob) (w : World D)
      → Tells w (end_cancelled env kinds name job w)
  unfolding end_cancelled end_pending
  end_cancelled-Tells kinds name job w = elim (Bool-cases (is_pending job.status)) [
    | inl waits ↦
        let o = end_pending env (get job.kind kinds) job.id scope_of w in
        rw waits (
          after_end-Tells ended (get job.kind kinds) o.0 w o.1 refl (
            transact-sent job.id cancel_pending_row
              (λ r d. cancel_callbacks (get job.kind kinds) r (scope_of r) d) w))
    | inr runs ↦ elim (Bool-cases (is_leased job.lease_expires_at (env.worker_clock w.turn))) [
      | inl driven ↦ rw (runs, driven) (omega arith)
      | inr dead ↦ elim (Option-cases (get job.kind kinds)) [
        | inl unknown ↦ rw (runs, dead, unknown, end_cancelled) (unknown-Tells job w)
        | inr (k, known) ↦
            let o =
              run_terminal_transition env k (lease_of_row name job) (scope_of job) Transition.cancel
                w in
            rw (runs, dead, known, end_cancelled)
              (after_end-Tells ended (some k) o.0 w o.1 refl (
                run_terminal_transition-sent k (lease_of_row name job) (scope_of job)
                  Transition.cancel w))
      ]
    ]
  ]

  take_and_publish-Tells :
      (k : ResolvedKind D) (grace : ℕ) (job : DurableJob) (w : World D)
      → Tells w (take_and_publish env k grace job w)
  unfolding take_and_publish execute pause
  take_and_publish-Tells k grace job w = publish-Tells k _ w _ refl

  pub repair_orphan-Tells :
      (kinds : KindRegistry D) (grace : ℕ) (job : DurableJob) (w : World D)
      → Tells w (repair_orphan env kinds grace job w)
  unfolding repair_orphan repair_orphan_of
  repair_orphan-Tells kinds grace job w = elim (Option-cases (get job.kind kinds)) [
    | inl unknown ↦ rw (unknown, repair_orphan) (park_job-Tells job none _ _ w)
    | inr (k, known) ↦
        rw (known, repair_orphan)
          (elim (Option-cases (verdict_of job.error_code)) [
            | inr (v, decided) ↦ rw (decided, repair_orphan_of) (park_job-Tells job (some k) _ _ w)
            | inl undecided ↦ elim (Bool-cases (is_redrive k.orphan_policy)) [
              | inr keeps ↦
                  rw (undecided, keeps, repair_orphan_of) (park_job-Tells job (some k) _ _ w)
              | inl again ↦
                  elim (Bool-cases
                    (leb k.budget.poison_redrives_without_commit job.redrives_since_commit)) [
                      | inl poison ↦
                          rw (undecided, again, poison, repair_orphan_of)
                            (park_job-Tells job (some k) _ _ w)
                      | inr sound ↦
                          rw (undecided, again, sound, repair_orphan_of)
                            (take_and_publish-Tells k grace job w)
                    ]
            ]
          ])
  ]

  pub repair_pending-Tells :
      (kinds : KindRegistry D) (job : DurableJob) (w : World D)
      → Tells w (repair_pending env kinds job w)
  unfolding repair_pending execute pause
  repair_pending-Tells kinds job w = elim (Option-cases (get job.kind kinds)) [
    | inl unknown ↦ rw (unknown, repair_pending) (park_job-Tells job none _ _ w)
    | inr (k, known) ↦ elim (Bool-cases (leb k.budget.max_redrives job.redrives_since_commit)) [
      | inl spent ↦ rw (known, spent, repair_pending) (park_job-Tells job (some k) _ _ w)
      | inr left ↦ rw (known, left, repair_pending) (publish-Tells k _ w _ refl)
    ]
  ]

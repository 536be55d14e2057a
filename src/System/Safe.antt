-- ===== src/System/Safe.antt =====
-- The system over the protocol (core/worker.ts, core/reconciler.ts, core/service.ts).
use open_mercato_durable.Common.{
  ℕ, ◌≡◌, ◌≢◌, subst, inl, inr, true, false, Option, none, some, [], Bool-cases, Option-cases,
}
use open_mercato_durable.Types.{DurableJob, Delivery}
use open_mercato_durable.Store.Table.{Table, find, is_pending, is_live}
use open_mercato_durable.Store.Create.{get_job}
use open_mercato_durable.Store.Writes.{Advances}
use open_mercato_durable.Protocol.Steps.{Reach}
use open_mercato_durable.Protocol.Reachable.{Reach-Kept}
use open_mercato_durable.Protocol.SingleRunner.{one_live_job_per_lock_key}
use open_mercato_durable.Registry.Kinds.{ResolvedKind}
use open_mercato_durable.Registry.Register.{KindRegistry, get}
use open_mercato_durable.World.{World, Environment, execute}
use open_mercato_durable.Slice.Finish.{RunSliceResult}
use open_mercato_durable.Slice.Run.{run_slice}
use open_mercato_durable.Slice.Lawful.{Reach-trans, db, IsLawful, execute-Reach}
use open_mercato_durable.Slice.Any.{run_slice-Reach}
use open_mercato_durable.Queue.{scope_of}
use open_mercato_durable.Queue.Lawful.{enqueue_job-Reach}
use open_mercato_durable.Reconciler.Lawful.{reconcile_once-Reach}
use open_mercato_durable.Service.Lawful.{cancel-Reach, redrive-Reach}
use open_mercato_durable.Service.Creates.{start_and_enqueue-Reach}
use open_mercato_durable.Worker.{is_yielded, load_job, enqueue_pending, requeue, handle}
use open_mercato_durable.System.Actions.{Action, act, Runs, stop, more}

module _ {D : Type 0} (env : Environment D) (lawful : IsLawful env) (kinds : KindRegistry D) where
  load_job-Reach : (id : ℕ) (w : World D) → Reach (db w) (db (load_job env id w).1)
  unfolding load_job
  load_job-Reach id w =
      let f : ℕ → Table → Option DurableJob × Table = λ now t. (find id t, t) in
      let u = (execute env f w).1 in
      let reach : Reach (db w) (db u) = execute-Reach env lawful f w (λ now t. Reach.here) in
      elim (Option-cases (execute env f w).0) [
        | inl gone ↦ rw (gone, load_job) reach
        | inr (r, found) ↦
            rw (found, load_job)
              (Reach-trans reach (
                execute-Reach env lawful (λ now t. (get_job id (scope_of r) t, t)) u
                  (λ now t. Reach.here)))
      ]

  enqueue_pending-Reach :
      (k : ResolvedKind D) (row : Option DurableJob) (w u : World D)
      → Reach (db w) (db u)
      → Reach (db w) (db (enqueue_pending env k (row, u)))
  enqueue_pending-Reach k none w u reach = reach
  enqueue_pending-Reach k (some job) w u reach = elim (Bool-cases (is_pending job.status)) [
    | inl pending ↦ rw pending (Reach-trans reach (enqueue_job-Reach env lawful k job u))
    | inr moved ↦ rw moved reach
  ]

  requeue-Reach :
      (k : ResolvedKind D) (job : DurableJob) (r : RunSliceResult) (w u : World D)
      → Reach (db w) (db u)
      → Reach (db w) (db (requeue env k job (r, u)))
  unfolding requeue
  requeue-Reach k job r w u reach = elim (Bool-cases (is_yielded r)) [
    | inr ended ↦ rw ended reach
    | inl handed ↦ elim (Bool-cases (env.shutting_down u.turn)) [
      | inl down ↦ rw (handed, down) reach
      | inr up ↦
          let f : ℕ → Table → Option DurableJob × Table =
            λ now t. (get_job job.id (scope_of job) t, t) in
          rw (handed, up)
            (enqueue_pending-Reach k (execute env f u).0 w (execute env f u).1
              (Reach-trans reach (execute-Reach env lawful f u (λ now t. Reach.here))))
    ]
  ]

  handle-Reach :
      (owner attempt : ℕ) (x : Delivery) (w : World D)
      → Reach (db w) (db (handle env kinds owner attempt x w).1)
  unfolding handle
  handle-Reach owner attempt x w =
      let u = (load_job env x.job_id w).1 in
      let loaded = load_job-Reach x.job_id w in
      elim (Option-cases (load_job env x.job_id w).0) [
        | inl gone ↦ rw (gone, handle) loaded
        | inr (job, found) ↦ elim (Option-cases (get job.kind kinds)) [
          | inl unknown ↦ rw (found, unknown, handle) loaded
          | inr (k, known) ↦
              let r = run_slice env k owner x (scope_of job) attempt u in
              rw (found, known, handle)
                (requeue-Reach k job r.0 w r.1 (
                  Reach-trans loaded
                    (run_slice-Reach env lawful k (scope_of job) owner attempt x u)))
        ]
      ]

  act-Reach : (a : Action) (w : World D) → Reach (db w) (db (act env kinds a w))
  unfolding act
  act-Reach (Action.deliver owner attempt x) w = handle-Reach owner attempt x w
  act-Reach (Action.reconcile o) w = reconcile_once-Reach env lawful kinds o w
  act-Reach (Action.start transactional default_queue id i scope) w =
      start_and_enqueue-Reach env lawful transactional kinds default_queue id i scope w
  act-Reach (Action.ask_cancel id scope by) w = cancel-Reach env lawful kinds id scope by w
  act-Reach (Action.ask_redrive grace id scope force) w =
      redrive-Reach env lawful kinds grace id scope force w

  -- Refinement: whatever a process does, delivery by delivery, pass by pass and call by call, with
  -- any step and any callbacks, is a run of the protocol of statements. The others run statements
  -- of the protocol too.
  pub Runs-Reach : {w v : World D} → Runs env kinds w v → Reach (db w) (db v)
  Runs-Reach stop = Reach.here
  Runs-Reach (more {u} a runs) = Reach-trans (Runs-Reach runs) (act-Reach a u)

  -- The single-runner guarantee of the system: when the table was empty at first, no run of a
  -- process ends with two different jobs of one tenant and organization that hold one lock key and
  -- are both pending or running. The others run statements of the protocol.
  pub Runs-one_live_job_per_lock_key :
      {w v : World D} (i j key : ℕ) (r q : DurableJob)
      → w.jobs ≡ []
      → Runs env kinds w v
      → i ≢ j
      → find i v.jobs ≡ some r
      → find j v.jobs ≡ some q
      → r.lock_key ≡ some key
      → q.lock_key ≡ some key
      → r.tenant_id ≡ q.tenant_id
      → r.organization_id ≡ q.organization_id
      → is_live r.status ≡ true
      → is_live q.status ≡ false
  Runs-one_live_job_per_lock_key {w} {v} i j key r q empty runs ne at_r at_q kr kq tenant org live =
      one_live_job_per_lock_key w.now i j key r q
        (subst (λ t. Reach (record { now = w.now; jobs = t }) (db v)) empty (Runs-Reach runs)) ne
        at_r at_q kr kq tenant org live

  -- A job that is completed or cancelled stays so, its row stays in the table with what its
  -- creation wrote, and its lease epoch and the counters of its delivery identity never fall,
  -- whatever a process does. The others run statements of the protocol.
  pub Runs-Kept :
      {w v : World D} (id : ℕ) (r : DurableJob)
      → find id w.jobs ≡ some r
      → Runs env kinds w v
      → (q : DurableJob) × (find id v.jobs ≡ some q) × Advances r q
  Runs-Kept id r found runs = Reach-Kept id r found (Runs-Reach runs)

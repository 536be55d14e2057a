-- ===== src/Service/Lawful.antt =====
-- `cancel` and `redrive` (core/service.ts) as steps of the protocol.
use open_mercato_durable.Common.{
  ℕ, ◌≡◌, refl, sym, subst, inl, inr, Bool, ◌&&◌, not, Option, none, some, Bool-cases, Option-cases,
  coalesce,
}
use open_mercato_durable.Types.{DurableJob, Scope}
use open_mercato_durable.Store.Table.{Table, update, is_pending}
use open_mercato_durable.Store.Settle.{request_cancel_row}
use open_mercato_durable.Store.Redrive.{operator_redrive_row, is_unrecoverable_code}
use open_mercato_durable.Store.Create.{get_job, is_truthy, find_live_by_lock_key}
use open_mercato_durable.Store.Writes.Write.{asks}
use open_mercato_durable.Protocol.Steps.{Step, Reach, is_unique}
use open_mercato_durable.Registry.Script.{Attempt, commits, throws}
use open_mercato_durable.Registry.Kinds.{ResolvedKind}
use open_mercato_durable.Registry.Register.{KindRegistry, get}
use open_mercato_durable.World.{World, Environment, pause, execute}
use open_mercato_durable.Terminal.Transition.{TerminalOutcome, fenced_out, committed, threw}
use open_mercato_durable.Slice.Lawful.{
  Reach-trans, at, update-Reach, db, IsLawful, execute-Reach, pause-Reach,
}
use open_mercato_durable.Queue.{enqueue_job, end_pending}
use open_mercato_durable.Queue.Lawful.{after_transition-db, enqueue_job-Reach, end_pending-Reach}
use open_mercato_durable.Service.Operate.{
  Reopening, not_open, open_again, unique_violation, undone, holder_of, remove, cancelled_now,
  cancel, run_reopen, commit_reopen, reopen, after_redrive, look_up_holder, publish_reopened,
  answer, pending_ttl_of, redrive,
}

module _ {D : Type 0} where
  remove-db : (r : DurableJob) (w : World D) → db (remove r w) ≡ db w
  remove-db r w = elim (Bool-cases (is_truthy r.queue_job_id && is_truthy r.queue_name)) [
    | inl known ↦ rw known refl
    | inr unknown ↦ rw unknown refl
  ]

  cancelled_now-Reach :
      (kind : Option (ResolvedKind D)) (scope : Scope) (requested : DurableJob)
      (o : TerminalOutcome) (w u : World D)
      → Reach (db w) (db u)
      → Reach (db w) (db (cancelled_now kind scope requested (o, u)).1)
  cancelled_now-Reach kind scope requested fenced_out w u reach = reach
  cancelled_now-Reach kind scope requested (threw e) w u reach = reach
  cancelled_now-Reach kind scope requested (committed row) w u reach =
      let v = remove requested u in
      subst (λ x. Reach (db w) x) (sym (after_transition-db kind row scope v))
        (subst (λ x. Reach (db w) x) (sym (remove-db requested u)) reach)

  after_redrive-db :
      (k : ResolvedKind D) (row : DurableJob) (scope : Scope) (w : World D)
      → db (after_redrive k row scope w) ≡ db w
  after_redrive-db k row scope w = elim (Option-cases k.on_after_redrive) [
    | inl absent ↦ rw absent refl
    | inr (hook, present) ↦ rw present refl
  ]

module _ {D : Type 0} (env : Environment D) (lawful : IsLawful env) where
  pub cancel-Reach :
      (kinds : KindRegistry D) (id : ℕ) (scope : Scope) (by : Option ℕ) (w : World D)
      → Reach (db w) (db (cancel env kinds id scope by w).1)
  unfolding cancel
  cancel-Reach kinds id scope by w =
      let f : ℕ → Table → Option DurableJob × Table =
        λ now t. update id (request_cancel_row now scope by) t in
      let u = (execute env f w).1 in
      let reach = execute-Reach env lawful f w (λ now t. update-Reach now id t (asks scope by)) in
      elim (Option-cases (execute env f w).0) [
        | inl gone ↦ rw (gone, cancel) reach
        | inr (r, asked) ↦ elim (Bool-cases (is_pending r.status)) [
          | inr driven ↦ rw (asked, driven, cancel) reach
          | inl pending ↦
              let kind = get r.kind kinds in
              let o = end_pending env kind id (λ q. scope) u in
              rw (asked, pending, cancel)
                (cancelled_now-Reach kind scope r o.0 w o.1
                  (Reach-trans reach (end_pending-Reach env lawful kind id (λ q. scope) u)))
        ]
      ]

  commit_reopen-Reach :
      (jobs : Table) (row : DurableJob) (a : Attempt D) (w p : World D)
      → Reach (db w) (db p)
      → Reach (db w) (at p.now jobs)
      → Reach (db w) (db (commit_reopen jobs row a p).1)
  commit_reopen-Reach jobs row (commits n d) w p before done = done
  commit_reopen-Reach jobs row (throws e) w p before done = before

  reopen-Reach :
      (kind : Option (ResolvedKind D)) (id grace ttl : ℕ) (force : Bool) (scope : Scope)
      (w : World D)
      → Reach (db w) (db (reopen env kind id grace ttl force scope w).1)
  unfolding reopen
  reopen-Reach kind id grace ttl force scope w =
      let p = pause env w in
      let before = pause-Reach env lawful w in
      let s = operator_redrive_row p.now scope grace ttl force in
      let jobs = (update id s p.jobs).1 in
      elim (Option-cases (update id s p.jobs).0) [
        | inl refused ↦ rw (refused, reopen) before
        | inr (r, matched) ↦ elim (Bool-cases (is_unique jobs)) [
          | inl sole ↦
              rw (matched, sole, reopen)
                (commit_reopen-Reach jobs r (run_reopen kind r scope p.domain) w p before
                  (Reach.next before (Step.reopen id scope grace ttl force sole)))
          | inr clash ↦ rw (matched, clash, reopen) before
        ]
      ]

  look_up_holder-Reach :
      (scope : Scope) (key : Option ℕ) (w : World D)
      → Reach (db w) (db (look_up_holder env scope key w).1)
  look_up_holder-Reach scope key w = elim (Bool-cases (is_truthy key)) [
    | inl has ↦ rw has (
        execute-Reach env lawful (λ now t. (find_live_by_lock_key scope (coalesce key 0) t, t)) w
          (λ now t. Reach.here))
    | inr none' ↦ rw none' Reach.here
  ]

  publish_reopened-Reach :
      (kind : Option (ResolvedKind D)) (scope : Scope) (row : DurableJob) (w u : World D)
      → Reach (db w) (db u)
      → Reach (db w) (db (publish_reopened env kind scope row u).1)
  publish_reopened-Reach none scope row w u reach = reach
  publish_reopened-Reach (some k) scope row w u reach =
      let (sent, v) = enqueue_job env k row u in
      let after = Reach-trans reach (enqueue_job-Reach env lawful k row u) in
      elim (Bool-cases sent) [
        | inl went ↦
            rw went (subst (λ x. Reach (db w) x) (sym (after_redrive-db k row scope v)) after)
        | inr stuck ↦ rw stuck after
      ]

  answer-Reach :
      (kind : Option (ResolvedKind D)) (scope : Scope) (job : DurableJob) (o : Reopening)
      (w u : World D)
      → Reach (db w) (db u)
      → Reach (db w) (db (answer env kind scope job (o, u)).1)
  answer-Reach kind scope job not_open w u reach = reach
  answer-Reach kind scope job (undone e) w u reach = reach
  answer-Reach kind scope job unique_violation w u reach =
      Reach-trans reach (look_up_holder-Reach scope job.lock_key u)
  answer-Reach kind scope job (open_again row) w u reach =
      publish_reopened-Reach kind scope row w u reach

  pub redrive-Reach :
      (kinds : KindRegistry D) (grace : Option ℕ) (id : ℕ) (scope : Scope) (force : Bool)
      (w : World D)
      → Reach (db w) (db (redrive env kinds grace id scope force w).1)
  unfolding redrive
  redrive-Reach kinds grace id scope force w =
      let f : ℕ → Table → Option DurableJob × Table = λ now t. (get_job id scope t, t) in
      let u = (execute env f w).1 in
      let reach : Reach (db w) (db u) = execute-Reach env lawful f w (λ now t. Reach.here) in
      elim (Option-cases (execute env f w).0) [
        | inl gone ↦ rw (gone, redrive) reach
        | inr (job, found) ↦
            let v = (look_up_holder env scope job.lock_key u).1 in
            let looked = Reach-trans reach (look_up_holder-Reach scope job.lock_key u) in
            elim (Bool-cases (not force && is_unrecoverable_code job.error_code)) [
              | inl barred ↦ rw (found, barred, redrive) reach
              | inr allowed ↦
                  elim (Option-cases (holder_of id (look_up_holder env scope job.lock_key u).0)) [
                    | inr (other, held) ↦ rw (found, allowed, held, redrive) looked
                    | inl free ↦
                        let kind = get job.kind kinds in
                        let o =
                          reopen env kind id (coalesce grace 20000) (pending_ttl_of kind) force
                            scope v in
                        rw (found, allowed, free, redrive)
                          (answer-Reach kind scope job o.0 w o.1 (
                            Reach-trans looked (
                              reopen-Reach kind id (coalesce grace 20000) (pending_ttl_of kind)
                                force scope v)))
                  ]
            ]
      ]

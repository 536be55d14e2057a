-- ===== src/Service/Refused.antt =====
-- What a refused re-drive leaves (core/service.ts, `redrive`): what the others made of the world.
use open_mercato_durable.Common.{
  ℕ, zero, suc, ◌≡◌, refl, inl, inr, Bool, Option, none, some, Bool-cases, ap, not, ◌&&◌, coalesce,
  Option-cases,
}
use open_mercato_durable.Types.{DurableJob, Scope}
use open_mercato_durable.Store.Table.{Table, update}
use open_mercato_durable.Store.Redrive.{operator_redrive_row, is_unrecoverable_code}
use open_mercato_durable.Store.Create.{get_job, is_truthy}
use open_mercato_durable.Protocol.Steps.{is_unique}
use open_mercato_durable.Queue.{enqueue_job}
use open_mercato_durable.Service.Operate.{publish_reopened, run_reopen, commit_reopen}
use open_mercato_durable.Registry.Script.{Attempt, commits}
use open_mercato_durable.Registry.Kinds.{ResolvedKind}
use open_mercato_durable.Registry.Register.{KindRegistry, get}
use open_mercato_durable.World.{World, Environment, pause, execute}
use open_mercato_durable.Service.Operate.{
  RedriveResult, redriven, lock_key_held, not_redrivable, unrecoverable_requires_force, failed,
  Reopening, not_open, open_again, unique_violation, undone, reopen, holder_of, pending_ttl_of,
  look_up_holder, answer, redrive,
}

module _ {D : Type 0} (env : Environment D) where
  -- What the others do before so many statements, and nothing else.
  abbrev pub pauses : ℕ → World D → World D
  pauses zero w = w
  pauses (suc n) w = pause env (pauses n w)

  abbrev pub Untouched : World D → World D → Type 0
  Untouched w v = (n : ℕ) × (v ≡ pauses n w)

  -- A refused re-drive leaves nothing of its own.
  abbrev pub RefusedUntouched : World D → RedriveResult × World D → Type 0
  RefusedUntouched w (redriven r, v) = Unit {0}
  RefusedUntouched w (failed e, v) = Unit {0}
  RefusedUntouched w (lock_key_held o, v) = Untouched w v
  RefusedUntouched w (not_redrivable, v) = Untouched w v
  RefusedUntouched w (unrecoverable_requires_force, v) = Untouched w v

  abbrev ReopeningUntouched : World D → Reopening × World D → Type 0
  ReopeningUntouched w (open_again r, v) = Unit {0}
  ReopeningUntouched w (undone e, v) = Unit {0}
  ReopeningUntouched w (not_open, v) = Untouched w v
  ReopeningUntouched w (unique_violation, v) = Untouched w v

  pause-Untouched : (w v : World D) → Untouched w v → Untouched w (pause env v)
  pause-Untouched w v (n, e) = (suc n, ap (pause env) e)

  look_up-Untouched :
      (scope : Scope) (key : Option ℕ) (w v : World D)
      → Untouched w v
      → Untouched w (look_up_holder env scope key v).1
  unfolding execute
  look_up-Untouched scope key w v u = elim (Bool-cases (is_truthy key)) [
    | inl has ↦ rw has (pause-Untouched w v u)
    | inr none' ↦ rw none' u
  ]

  commit_reopen-Untouched :
      (jobs : Table) (r : DurableJob) (a : Attempt D) (w p : World D)
      → ReopeningUntouched w (commit_reopen jobs r a p)
  commit_reopen-Untouched jobs r (commits n d) w p = tt
  commit_reopen-Untouched jobs r (Attempt.throws e) w p = tt

  reopen-Untouched :
      (kind : Option (ResolvedKind D)) (id grace ttl : ℕ) (force : Bool) (scope : Scope)
      (w v : World D)
      → Untouched w v
      → ReopeningUntouched w (reopen env kind id grace ttl force scope v)
  unfolding reopen
  reopen-Untouched kind id grace ttl force scope w v u =
      let p = pause env v in
      let s = operator_redrive_row p.now scope grace ttl force in
      let jobs = (update id s p.jobs).1 in
      elim (Option-cases (update id s p.jobs).0) [
        | inl refused ↦ rw (refused, reopen) (pause-Untouched w v u)
        | inr (r, matched) ↦ elim (Bool-cases (is_unique jobs)) [
          | inl sole ↦
              rw (matched, sole, reopen)
                (commit_reopen-Untouched jobs r (run_reopen kind r scope p.domain) w p)
          | inr clash ↦ rw (matched, clash, reopen) (pause-Untouched w v u)
        ]
      ]

  publish_reopened-Untouched :
      (kind : Option (ResolvedKind D)) (scope : Scope) (r : DurableJob) (w v : World D)
      → RefusedUntouched w (publish_reopened env kind scope r v)
  publish_reopened-Untouched none scope r w v = tt
  publish_reopened-Untouched (some k) scope r w v = elim (Bool-cases (enqueue_job env k r v).0) [
    | inl went ↦ rw went tt
    | inr stuck ↦ rw stuck tt
  ]

  answer-Untouched :
      (kind : Option (ResolvedKind D)) (scope : Scope) (job : DurableJob) (w : World D)
      (o : Reopening) (v : World D)
      → ReopeningUntouched w (o, v)
      → RefusedUntouched w (answer env kind scope job (o, v))
  answer-Untouched kind scope job w not_open v u = u
  answer-Untouched kind scope job w (undone e) v u = tt
  answer-Untouched kind scope job w unique_violation v u =
      look_up-Untouched scope job.lock_key w v u
  answer-Untouched kind scope job w (open_again r) v u = publish_reopened-Untouched kind scope r w v

  pub redrive-Untouched :
      (kinds : KindRegistry D) (grace : Option ℕ) (id : ℕ) (scope : Scope) (force : Bool)
      (w : World D)
      → RefusedUntouched w (redrive env kinds grace id scope force w)
  unfolding redrive execute
  redrive-Untouched kinds grace id scope force w =
      let u = pause env w in
      let first : Untouched w u = (1, refl) in
      elim (Option-cases (get_job id scope u.jobs)) [
        | inl gone ↦ rw (gone, redrive) first
        | inr (job, found) ↦
            let v = (look_up_holder env scope job.lock_key u).1 in
            let looked = look_up-Untouched scope job.lock_key w u first in
            elim (Bool-cases (not force && is_unrecoverable_code job.error_code)) [
              | inl barred ↦ rw (found, barred, redrive) first
              | inr allowed ↦
                  elim (Option-cases (holder_of id (look_up_holder env scope job.lock_key u).0)) [
                    | inr (other, held) ↦ rw (found, allowed, held, redrive) looked
                    | inl free ↦
                        let kind = get job.kind kinds in
                        let o =
                          reopen env kind id (coalesce grace 20000) (pending_ttl_of kind) force
                            scope v in
                        rw (found, allowed, free, redrive)
                          (answer-Untouched kind scope job w o.0 o.1 (
                            reopen-Untouched kind id (coalesce grace 20000) (pending_ttl_of kind)
                              force scope w v looked))
                  ]
            ]
      ]

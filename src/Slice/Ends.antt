-- ===== src/Slice/Ends.antt =====
-- The lease on the row after a slice failed or handed its work back (core/run-slice.ts).
use open_mercato_durable.Common.{
  ℕ, ◌≤◌, ◌≡◌, refl, sym, subst, ap, ◌∙◌, ◌⊎◌, inl, inr, Bool, true, false, Option, some, arith,
  Bool-cases, Option-cases,
}
use open_mercato_durable.Types.{DurableJob, Scope, Lease, SliceVerdict, ErrorCode}
use open_mercato_durable.Errors.{Failure, error_message_of}
use open_mercato_durable.Store.Table.{Table, Statement, update, is_held, is_epoch, is_live}
use open_mercato_durable.Store.Rows.{KeepsOrigin, find-update_self}
use open_mercato_durable.Store.Lease.{
  SliceError, yield_slice_row, yield_slice, fail_slice_row, fail_slice, release_lease_row,
  release_lease,
}
use open_mercato_durable.Store.Writes.Fenced.{yields, fails, releases}
use open_mercato_durable.Store.Writes.Write.{fenced}
use open_mercato_durable.Protocol.Steps.{Reach}
use open_mercato_durable.Protocol.Release.{IsFree, Known, Released, Known-Reach, Released-Reach}
use open_mercato_durable.Registry.Script.{Attempt}
use open_mercato_durable.Registry.Kinds.{ResolvedKind}
use open_mercato_durable.World.{World, Environment, pause, execute}
use open_mercato_durable.Terminal.Transition.{
  callbacks, Transition, TerminalOutcome, fenced_out, committed, threw, run_terminal_transition,
  run_after_transition,
}
use open_mercato_durable.Terminal.Atomic.{TerminalSpec, cas_row-ends, cas_row-epoch}
use open_mercato_durable.Slice.Finish.{
  RunSliceResult, lease_lost, fail, failed, class_of, slice_error, retry_delay, or_verdict,
}
use open_mercato_durable.Slice.Lawful.{
  Reach-trans, at, update-Reach, db, IsLawful, run_after_transition-db, pause-Reach, execute-Reach,
  run_terminal_transition-Reach,
}

-- A statement that gives its lease up leaves the row free of it, whether it matched or not.
update-Released :
    (l : Lease) (now : ℕ) (s : Statement) (t : Table)
    → KeepsOrigin s
    → ((r : DurableJob) → s.matches r ≡ is_held l r)
    → ((r : DurableJob) → l.epoch ≤ r.lease_epoch → IsFree l (s.set r))
    → Known l (at now t)
    → Released l (at now (update l.job_id s t).1)
update-Released l now s t keeps matches frees (r, found, reached) =
    elim (Bool-cases (s.matches r)) [
      | inl hit ↦
          (s.set r, find-update_self l.job_id s t r keeps found ∙ ap some (rw hit), frees r reached)
      | inr miss ↦ (
        r,
        find-update_self l.job_id s t r keeps found ∙ ap some (rw miss),
        record { reached = reached; not_held = sym (matches r) ∙ miss },
      )
    ]

pub yield_slice-Released :
    (now : ℕ) (l : Lease) (interrupted : Bool) (t : Table)
    → Known l (at now t)
    → Released l (at now (yield_slice now l interrupted t).1)
unfolding yield_slice yield_slice_row
yield_slice-Released now l interrupted t =
    update-Released l now (yield_slice_row now l interrupted) t (λ r. refl) (λ r. refl)
      (λ r reached. record { reached = reached; not_held = refl })

fail_slice-Released :
    (now : ℕ) (l : Lease) (e : SliceError) (delay : Option ℕ) (limit : ℕ) (t : Table)
    → Known l (at now t)
    → Released l (at now (fail_slice now l e delay limit t).1)
unfolding fail_slice fail_slice_row
fail_slice-Released now l e delay limit t =
    update-Released l now (fail_slice_row now l e delay limit) t (λ r. refl) (λ r. refl)
      (λ r reached. record { reached = reached; not_held = ground arith })

pub release_lease-Released :
    (now : ℕ) (l : Lease) (delay : Option ℕ) (t : Table)
    → Known l (at now t)
    → Released l (at now (release_lease now l delay t).1)
unfolding release_lease release_lease_row
release_lease-Released now l delay t =
    update-Released l now (release_lease_row now l delay) t (λ r. refl) (λ r. refl)
      (λ r reached. record { reached = reached; not_held = ground arith })

fail_slice-Reach :
    (now : ℕ) (l : Lease) (e : SliceError) (delay : Option ℕ) (limit : ℕ) (t : Table)
    → Reach (at now t) (at now (fail_slice now l e delay limit t).1)
unfolding fail_slice
fail_slice-Reach now l e delay limit t =
    update-Reach now l.job_id t (fenced l (fails e delay limit))

pub yield_slice-Reach :
    (now : ℕ) (l : Lease) (interrupted : Bool) (t : Table)
    → Reach (at now t) (at now (yield_slice now l interrupted t).1)
unfolding yield_slice
yield_slice-Reach now l interrupted t = update-Reach now l.job_id t (fenced l (yields interrupted))

pub release_lease-Reach :
    (now : ℕ) (l : Lease) (delay : Option ℕ) (t : Table)
    → Reach (at now t) (at now (release_lease now l delay t).1)
unfolding release_lease
release_lease-Reach now l delay t = update-Reach now l.job_id t (fenced l (releases delay))

not_live-IsFree :
    (l : Lease) (r : DurableJob)
    → is_epoch l r ≡ true
    → (q : DurableJob) → is_live q.status ≡ false
    → q.lease_epoch ≡ r.lease_epoch
    → IsFree l q
not_live-IsFree l r epoch q ended same = ground arith

module _ {D : Type 0} where
  -- No callback of the kind throws the mechanism's own `NoFurtherAttempts`.
  abbrev pub IsHonest : ResolvedKind D → Type 0
  IsHonest k =
      (t : Transition) (job : DurableJob) (scope : Scope) (d : D) (v : SliceVerdict)
      → ¬ (callbacks k t job scope d ≡ Attempt.throws (Failure.no_further_attempts v))

  -- What an end of a slice has done since the world `w`.
  abbrev pub Ends : Lease → World D → RunSliceResult × World D → Type 0
  Ends l w (r, w') = Reach (db w) (db w') × ((r ≡ lease_lost) ⊎ Released l (db w'))

  pub committed-Released :
      (env : Environment D) (k : ResolvedKind D) (l : Lease) (scope : Scope) (t : Transition)
      (p w : World D) (job : DurableJob)
      → TerminalSpec env k l scope t p (committed job, w)
      → Released l (db (run_after_transition k job scope w))
  committed-Released env k l scope t p w job (r, n, found, epoch, set_r, called, at_job) =
      subst (λ x. Released l x) (sym (run_after_transition-db k job scope w))
        (
          record job { domain_mirrored_at = some p.now },
          at_job,
          not_live-IsFree l r epoch _
              (subst (λ x. is_live x.status ≡ false) set_r (cas_row-ends p.now l t r))
              (subst (λ x. x.lease_epoch ≡ r.lease_epoch) set_r (cas_row-epoch p.now l t r)),
        )

module _ {D : Type 0} (env : Environment D) (lawful : IsLawful env) (k : ResolvedKind D) (l : Lease)
    (scope : Scope) where
  pub after-Reach :
      (job : DurableJob) (w v : World D)
      → Reach (db v) (db w)
      → Reach (db v) (db (run_after_transition k job scope w))
  after-Reach job w v reach =
      subst (λ x. Reach (db v) x) (sym (run_after_transition-db k job scope w)) reach

  failed-Ends :
      (v : SliceVerdict) (e : Failure) (w u : World D) (o : TerminalOutcome)
      → Reach (db w) (db u)
      → Released l (db u)
      → Ends l w (failed env k l scope v e (o, u))
  failed-Ends v e w u fenced_out reach free = (reach, inl refl)
  failed-Ends v e w u (committed job) reach free = (
    after-Reach job u w reach,
    inr (subst (λ x. Released l x) (sym (run_after_transition-db k job scope u)) free),
  )
  failed-Ends v e w u (threw e') reach free = (reach, inr free)

  pub execute-Released {ℓ} :
      {A : Type ℓ} (f : ℕ → Table → A × Table) (w : World D)
      → ((now : ℕ) (t : Table) → Known l (at now t) → Released l (at now (f now t).1))
      → Known l (db w)
      → Released l (db (execute env f w).1)
  unfolding execute
  execute-Released f w frees known =
      let p = pause env w in frees p.now p.jobs (Known-Reach l known (pause-Reach env lawful w))

  -- The failure of a slice: the statement of its first step has freed the lease.
  pub fail-Ends :
      (attempt : ℕ) (e : Failure) (w : World D)
      → Known l (db w)
      → Ends l w (fail env k l scope attempt e w)
  unfolding fail
  fail-Ends attempt e w known =
      let limit = k.budget.max_consecutive_failures in
      let delay : Option ℕ = retry_delay k e attempt in
      let f = λ (now : ℕ) (t : Table). fail_slice now l (slice_error k e) delay limit t in
      let u = (execute env f w).1 in
      let reach : Reach (db w) (db u) =
        execute-Reach env lawful f w
          (λ now t. fail_slice-Reach now l (slice_error k e) delay limit t) in
      let free : Released l (db u) =
        execute-Released f w (λ now t. fail_slice-Released now l (slice_error k e) delay limit t)
          known in
      elim (Option-cases (execute env f w).0) [
        | inl lost ↦ rw (lost, fail) (reach, inl refl)
        | inr ((failures, minted), counted) ↦
            elim (Option-cases (or_verdict minted (class_of k e))) [
              | inl again ↦ rw (counted, again, fail) (reach, inr free)
              | inr (v, over) ↦
                  let t =
                    Transition.fail (ErrorCode.verdict v) (class_of k e)
                      (some (error_message_of e)) in
                  let moved = run_terminal_transition-Reach env lawful k l scope t u in
                  rw (counted, over, fail)
                    (failed-Ends v e w (run_terminal_transition env k l scope t u).1
                      (run_terminal_transition env k l scope t u).0 (Reach-trans reach moved)
                      (Released-Reach l free moved))
            ]
      ]

-- ===== src/Slice/Deliver.antt =====
-- A whole delivery (core/run-slice.ts, `runSlice`), from the claim to the end.
use open_mercato_durable.Common.{
  ℕ, ◌≡◌, refl, sym, subst, ap, ◌⊎◌, inl, inr, true, false, none, some, arith, Bool-cases,
  Option-cases, ◌+◌, coalesce, ◌||◌,
}
use open_mercato_durable.Types.{
  DurableJob, Scope, Lease, Delivery, SliceOutcome, SliceVerdict, ErrorClass, ErrorCode,
}
use open_mercato_durable.Store.Table.{update, find}
use open_mercato_durable.Store.Lease.{claim_row, claim, verdict_of}
use open_mercato_durable.Store.Writes.{Write-origin}
use open_mercato_durable.Store.Writes.Write.{claims}
use open_mercato_durable.Protocol.Steps.{Reach}
use open_mercato_durable.Store.Rows.{update-some, update-none_same}
use open_mercato_durable.Store.Rows.{find-id}
use open_mercato_durable.Protocol.Release.{Known, Known-Reach}
use open_mercato_durable.Registry.Kinds.{ResolvedKind}
use open_mercato_durable.World.{World, Environment, pause, execute}
use open_mercato_durable.Terminal.Transition.{Transition, run_terminal_transition}
use open_mercato_durable.Terminal.Atomic.{run_terminal_transition-atomic}
use open_mercato_durable.Slice.Context.{Flags, no_flags, StepResult, outcome, thrown, run_script}
use open_mercato_durable.Slice.Finish.{refused, retry_terminal_fail}
use open_mercato_durable.Slice.Run.{
  is_lease_lost, conclude, lease_for, context_for, run_step, run_claimed, run_slice,
}
use open_mercato_durable.Slice.Lawful.{
  Reach-trans, db, IsLawful, run_terminal_transition-Reach, run_script-Reach, update-Reach,
  pause-Reach,
}
use open_mercato_durable.Slice.Ends.{IsHonest, Ends, fail-Ends}
use open_mercato_durable.Slice.Outcome.{
  Ends-after, complete-Ends, cancel-Ends, retries-Ends, hand_back-Ends,
}

module _ {D : Type 0} (env : Environment D) (lawful : IsLawful env) (k : ResolvedKind D)
    (scope : Scope) where
  retry_terminal_fail-Ends :
      IsHonest k
      → (l : Lease) (attempt : ℕ) (v : SliceVerdict) (c : DurableJob) (w : World D) → Known l (db w)
      → Ends l w (retry_terminal_fail env k c l scope attempt v w)
  unfolding retry_terminal_fail
  retry_terminal_fail-Ends honest l attempt v c w known =
      let t =
        Transition.fail (ErrorCode.verdict v) (coalesce c.error_class ErrorClass.terminal)
          c.error_message in
      let reach = run_terminal_transition-Reach env lawful k l scope t w in
      retries-Ends env lawful k l scope honest attempt v t (pause env w) w
        (run_terminal_transition env k l scope t w).1 (run_terminal_transition env k l scope t w).0
        (run_terminal_transition-atomic env k l scope t w) reach (Known-Reach l known reach)

  unasked-Ends :
      (l : Lease) (attempt : ℕ) (o : SliceOutcome) (fl : Flags) (w : World D)
      → Known l (db w)
      → fl.cancel_observed ≡ false
      → Ends l w (conclude env k l scope attempt (outcome o) fl w)
  unfolding conclude
  unasked-Ends l attempt SliceOutcome.drained fl w known unasked =
      rw (unasked, conclude) (complete-Ends env lawful k l scope attempt w known)
  unasked-Ends l attempt SliceOutcome.cancelled fl w known unasked =
      rw (unasked, conclude) (cancel-Ends env lawful k l scope attempt w known)
  unasked-Ends l attempt SliceOutcome.budget fl w known unasked =
      rw (unasked, conclude)
        (hand_back-Ends env lawful k l scope (env.shutting_down w.turn) w known)

  conclude-Ends :
      (l : Lease) (attempt : ℕ) (r : StepResult) (fl : Flags) (w : World D)
      → Known l (db w)
      → Ends l w (conclude env k l scope attempt r fl w)
  unfolding conclude
  conclude-Ends l attempt (thrown e) fl w known =
      elim (Bool-cases (fl.lease_lost || is_lease_lost e)) [
        | inl lost ↦ rw (lost, conclude) (Reach.here, inl refl)
        | inr held ↦ elim (Bool-cases fl.cancel_observed) [
          | inl asked ↦
              rw (held, asked, conclude) (cancel-Ends env lawful k l scope attempt w known)
          | inr unasked ↦ elim (Bool-cases (env.shutting_down w.turn)) [
            | inl down ↦
                rw (held, unasked, down, conclude)
                  (hand_back-Ends env lawful k l scope true w known)
            | inr up ↦
                rw (held, unasked, up, conclude) (fail-Ends env lawful k l scope attempt e w known)
          ]
        ]
      ]
  conclude-Ends l attempt (outcome o) fl w known = elim (Bool-cases fl.cancel_observed) [
    | inl asked ↦ rw (asked, conclude) (cancel-Ends env lawful k l scope attempt w known)
    | inr unasked ↦ unasked-Ends l attempt o fl w known unasked
  ]

  pub run_step-Ends :
      (owner attempt : ℕ) (c : DurableJob) (w : World D)
      → Known (lease_for k owner c) (db w)
      → Ends (lease_for k owner c) w (run_step env k scope owner attempt c w)
  unfolding run_step
  run_step-Ends owner attempt c w known =
      let l = lease_for k owner c in
      let deadline = env.worker_clock w.turn + k.lease.slice_budget_ms in
      let script = k.step (context_for k scope owner c) in
      let (r, u, fl) = run_script env l deadline script (w, no_flags) in
      let reach : Reach (db w) (db u) = run_script-Reach env lawful l deadline script w no_flags in
      Ends-after env lawful k l scope w u (conclude env k l scope attempt r fl u) reach
        (conclude-Ends l attempt r fl u (Known-Reach l known reach))

  -- A slice that has claimed its row runs only statements of the protocol and, unless it reports a
  -- lost lease, does not keep its lease.
  pub run_claimed-Ends :
      IsHonest k
      → (owner attempt : ℕ) (c : DurableJob) (w : World D) → Known (lease_for k owner c) (db w)
      → Ends (lease_for k owner c) w (run_claimed env k scope owner attempt c w)
  unfolding run_claimed
  run_claimed-Ends honest owner attempt c w known = elim (Option-cases (verdict_of c.error_code)) [
    | inl undecided ↦ rw (undecided, run_claimed) (run_step-Ends owner attempt c w known)
    | inr (v, decided) ↦
        rw (decided, run_claimed)
          (retry_terminal_fail-Ends honest (lease_for k owner c) attempt v c w known)
  ]

  refused_claim :
      (owner attempt : ℕ) (x : Delivery) (w : World D)
      → let p = pause env w in
        (update x.job_id (claim_row p.now scope x owner k.lease.ttl_ms) p.jobs).0 ≡ none
        → run_slice env k owner x scope attempt w ≡ (refused, pause env w)
  unfolding run_slice execute claim
  refused_claim owner attempt x w nobody =
      let p = pause env w in
      let s = claim_row p.now scope x owner k.lease.ttl_ms in
      rw (nobody, run_slice)
        (ap (λ t. (refused, record p { jobs = t })) (update-none_same x.job_id s p.jobs nobody))

  -- A delivery is either refused, and then the slice has written nothing; or it has claimed a row.
  -- Then the slice runs only statements of the protocol, whatever the step and the others do, and
  -- unless it reports a lost lease the job does not hold the lease of that claim in the end. The
  -- others run statements of the protocol, and no callback of the kind throws `NoFurtherAttempts`.
  pub run_slice-leaves_no_lease :
      IsHonest k
      → (owner attempt : ℕ) (x : Delivery) (w : World D)
      → (run_slice env k owner x scope attempt w ≡ (refused, pause env w))
        ⊎ ((c : DurableJob) × ((claim
                (pause env w).now
                x.job_id
                scope
                x
                owner
                k.lease.ttl_ms
                (pause env w).jobs).0
              ≡ some c)
            × Ends (lease_for k owner c) w (run_slice env k owner x scope attempt w))
  unfolding run_slice execute claim
  run_slice-leaves_no_lease honest owner attempt x w =
      let p = pause env w in
      let s = claim_row p.now scope x owner k.lease.ttl_ms in
      let t = (update x.job_id s p.jobs).1 in
      let u = record p { jobs = t } in
      elim (Option-cases (update x.job_id s p.jobs).0) [
        | inl nobody ↦ inl (refused_claim owner attempt x w nobody)
        | inr (c, granted) ↦
            let (r, found, hit, set_r, at_c) =
              update-some x.job_id s p.jobs c (Write-origin (claims scope x owner k.lease.ttl_ms))
                granted in
            let own = find-id x.job_id t c at_c in
            let reach : Reach (db w) (db u) =
              Reach-trans (pause-Reach env lawful w)
                (update-Reach p.now x.job_id p.jobs (claims scope x owner k.lease.ttl_ms)) in
            let l = lease_for k owner c in
            let ends =
              run_claimed-Ends honest owner attempt c u
                (c, subst (λ i. find i t ≡ some c) (sym own) at_c, omega arith) in
            inr (
              c,
              granted,
              rw (granted, run_slice)
                  (Ends-after env lawful k l scope w u (run_claimed env k scope owner attempt c u)
                    reach ends),
            )
      ]

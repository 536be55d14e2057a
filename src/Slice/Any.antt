-- ===== src/Slice/Any.antt =====
-- A slice of any kind (core/run-slice.ts) as steps of the protocol.
use open_mercato_durable.Common.{ℕ, ◌≡◌, sym, subst, inl, inr, some, arith, Option-cases, coalesce}
use open_mercato_durable.Types.{
  DurableJob, Scope, Lease, Delivery, SliceVerdict, ErrorClass, ErrorCode,
}
use open_mercato_durable.Errors.{Failure}
use open_mercato_durable.Store.Table.{update, find}
use open_mercato_durable.Store.Rows.{find-id}
use open_mercato_durable.Store.Lease.{claim_row, claim, release_lease, verdict_of}
use open_mercato_durable.Store.Writes.{Write-origin}
use open_mercato_durable.Store.Writes.Write.{claims}
use open_mercato_durable.Protocol.Steps.{Reach}
use open_mercato_durable.Store.Rows.{update-some}
use open_mercato_durable.Protocol.Release.{Known}
use open_mercato_durable.Registry.Kinds.{ResolvedKind}
use open_mercato_durable.Registry.Delays.{next_attempt_delay_ms}
use open_mercato_durable.World.{World, Environment, pause, execute}
use open_mercato_durable.Terminal.Transition.{
  Transition, TerminalOutcome, fenced_out, committed, threw, run_terminal_transition,
}
use open_mercato_durable.Slice.Finish.{release, retries, retry_terminal_fail}
use open_mercato_durable.Slice.Run.{lease_for, run_claimed, run_slice}
use open_mercato_durable.Slice.Lawful.{
  Reach-trans, db, IsLawful, execute-Reach, run_terminal_transition-Reach, update-Reach,
  pause-Reach,
}
use open_mercato_durable.Slice.Ends.{after-Reach, release_lease-Reach}
use open_mercato_durable.Slice.Deliver.{run_step-Ends}

module _ {D : Type 0} (env : Environment D) (lawful : IsLawful env) (k : ResolvedKind D)
    (scope : Scope) where
  release-Reach :
      (l : Lease) (attempt : ℕ) (w : World D) → Reach (db w) (db (release env k l attempt w))
  release-Reach l attempt w =
      let delay = next_attempt_delay_ms k.retry attempt in
      execute-Reach env lawful (λ now t. release_lease now l delay t) w
        (λ now t. release_lease-Reach now l delay t)

  retries-Reach :
      (l : Lease) (attempt : ℕ) (v : SliceVerdict) (o : TerminalOutcome) (w u : World D)
      → Reach (db w) (db u)
      → Reach (db w) (db (retries env k l scope attempt v (o, u)).1)
  retries-Reach l attempt v fenced_out w u reach = reach
  retries-Reach l attempt v (committed job) w u reach =
      after-Reach env lawful k l scope job u w reach
  retries-Reach l attempt v (threw (Failure.no_further_attempts x)) w u reach = reach
  retries-Reach l attempt v (threw e) w u reach = Reach-trans reach (release-Reach l attempt u)

  run_claimed-Reach :
      (owner attempt : ℕ) (c : DurableJob) (w : World D)
      → Known (lease_for k owner c) (db w)
      → Reach (db w) (db (run_claimed env k scope owner attempt c w).1)
  unfolding run_claimed retry_terminal_fail
  run_claimed-Reach owner attempt c w known = elim (Option-cases (verdict_of c.error_code)) [
    | inl undecided ↦
        rw (undecided, run_claimed) (run_step-Ends env lawful k scope owner attempt c w known).0
    | inr (v, decided) ↦
        let l = lease_for k owner c in
        let t =
          Transition.fail (ErrorCode.verdict v) (coalesce c.error_class ErrorClass.terminal)
            c.error_message in
        let o = run_terminal_transition env k l scope t w in
        rw (decided, run_claimed)
          (retries-Reach l attempt v o.0 w o.1
            (run_terminal_transition-Reach env lawful k l scope t w))
  ]

  pub run_slice-Reach :
      (owner attempt : ℕ) (x : Delivery) (w : World D)
      → Reach (db w) (db (run_slice env k owner x scope attempt w).1)
  unfolding run_slice execute claim
  run_slice-Reach owner attempt x w =
      let p = pause env w in
      let s = claim_row p.now scope x owner k.lease.ttl_ms in
      let t = (update x.job_id s p.jobs).1 in
      let u = record p { jobs = t } in
      let reach : Reach (db w) (db u) =
        Reach-trans (pause-Reach env lawful w)
          (update-Reach p.now x.job_id p.jobs (claims scope x owner k.lease.ttl_ms)) in
      elim (Option-cases (update x.job_id s p.jobs).0) [
        | inl nobody ↦ rw (nobody, run_slice) reach
        | inr (c, granted) ↦
            let (r, found, hit, set_r, at_c) =
              update-some x.job_id s p.jobs c (Write-origin (claims scope x owner k.lease.ttl_ms))
                granted in
            let own = find-id x.job_id t c at_c in
            rw (granted, run_slice)
              (Reach-trans reach (
                run_claimed-Reach owner attempt c u
                  (c, subst (λ i. find i t ≡ some c) (sym own) at_c, omega arith)))
      ]

-- ===== src/Slice/Drains.antt =====
-- A step that does not drain its work whatever its calls come to, and the slice that runs it
-- (core/run-slice.ts, `runSlice`: what the step's end leads to).
use open_mercato_durable.Common.{
  ℕ, ◌+◌, ◌≡◌, refl, inl, inr, Bool, true, false, ◌||◌, Bool-cases, Option-cases,
}
use open_mercato_durable.Types.{DurableJob, Scope, Lease, SliceVerdict, SliceOutcome, Delivery}
use open_mercato_durable.Errors.{Failure}
use open_mercato_durable.Store.Lease.{verdict_of, yield_slice, fail_slice, claim}
use open_mercato_durable.Registry.Script.{Script}
use open_mercato_durable.Registry.Kinds.{ResolvedKind}
use open_mercato_durable.World.{World, Environment, pause, execute}
use open_mercato_durable.Terminal.Transition.{TerminalOutcome, fenced_out, committed, threw}
use open_mercato_durable.Slice.Context.{
  Flags, no_flags, StepResult, outcome, thrown, beat, timer, save, should_yield, fenced_write,
  run_script,
}
use open_mercato_durable.Slice.Finish.{
  RunSliceResult, completed, failed, slice_error, retry_delay, or_verdict, class_of, fail, cancels,
  cancel, hand_back, retries, retry_terminal_fail,
}
use open_mercato_durable.Slice.Run.{
  is_lease_lost, conclude, lease_for, context_for, run_step, run_claimed, run_slice,
}

-- A step's end other than the outcome `drained`.
abbrev pub IsUndrained : StepResult → Type 0
IsUndrained (outcome SliceOutcome.drained) = ⊥
IsUndrained (outcome SliceOutcome.budget) = Unit
IsUndrained (outcome SliceOutcome.cancelled) = Unit
IsUndrained (thrown e) = Unit

-- Every way through the script has such an end.
abbrev pub NeverDrains : {D : Type 0} → Script D → Type 0
NeverDrains (Script.returns o) = IsUndrained (outcome o)
NeverDrains (Script.throws e) = Unit
NeverDrains (Script.beat patch ok lost) = NeverDrains ok × ((e : Failure) → NeverDrains (lost e))
NeverDrains (Script.save state patch ok lost) =
    NeverDrains ok × ((e : Failure) → NeverDrains (lost e))
NeverDrains (Script.write f ok lost) =
    ((n : ℕ) → NeverDrains (ok n)) × ((e : Failure) → NeverDrains (lost e))
NeverDrains (Script.ask go) = (yields : Bool) → NeverDrains (go yields)
NeverDrains {D} (Script.act f go) = (d : D) → NeverDrains (go d)

abbrev pub is_completed : RunSliceResult → Bool
is_completed completed = true
is_completed _ = false

module _ {D : Type 0} (env : Environment D) where
  run_script-NeverDrains :
      (l : Lease) (deadline : ℕ) (script : Script D) (w : World D) (fl : Flags)
      → NeverDrains script
      → IsUndrained (run_script env l deadline script (w, fl)).0
  unfolding run_script
  run_script-NeverDrains l deadline (Script.returns o) w fl h = h
  run_script-NeverDrains l deadline (Script.throws e) w fl h = tt
  run_script-NeverDrains l deadline (Script.beat patch ok lost) w fl (go, gone) =
      let (b, u, ul) = beat env l patch (timer env l (w, fl)) in
      elim (Bool-cases b) [
        | inl lose ↦
            rw (lose, run_script)
              (run_script-NeverDrains l deadline (lost (Failure.lease_lost l)) u ul
                (gone (Failure.lease_lost l)))
        | inr held ↦ rw (held, run_script) (run_script-NeverDrains l deadline ok u ul go)
      ]
  run_script-NeverDrains l deadline (Script.save state patch ok lost) w fl (go, gone) =
      let (b, u, ul) = save env l state patch (timer env l (w, fl)) in
      elim (Bool-cases b) [
        | inl lose ↦
            rw (lose, run_script)
              (run_script-NeverDrains l deadline (lost (Failure.lease_lost l)) u ul
                (gone (Failure.lease_lost l)))
        | inr held ↦ rw (held, run_script) (run_script-NeverDrains l deadline ok u ul go)
      ]
  run_script-NeverDrains l deadline (Script.write f ok lost) w fl (go, gone) =
      let (r, u, ul) = fenced_write env l f (timer env l (w, fl)) in
      elim (Option-cases r.0) [
        | inl wrote ↦
            rw (wrote, run_script) (run_script-NeverDrains l deadline (ok r.1) u ul (go r.1))
        | inr (e, failure) ↦
            rw (failure, run_script) (run_script-NeverDrains l deadline (lost e) u ul (gone e))
      ]
  run_script-NeverDrains l deadline (Script.ask go) w fl h =
      let (v, vl) = timer env l (w, fl) in
      let yields = should_yield env deadline (v, vl) in
      run_script-NeverDrains l deadline (go yields) v vl (h yields)
  run_script-NeverDrains l deadline (Script.act f go) w fl h =
      let (v, vl) = timer env l (w, fl) in
      let p = pause env v in
      let d = f p.domain in
      run_script-NeverDrains l deadline (go d) (record p { domain = d }) vl (h d)

  module _ (k : ResolvedKind D) (l : Lease) (scope : Scope) (attempt : ℕ) where
    failed-is_completed :
        (v : SliceVerdict) (e : Failure) (o : TerminalOutcome × World D)
        → is_completed (failed env k l scope v e o).0 ≡ false
    failed-is_completed v e (fenced_out, w) = refl
    failed-is_completed v e (committed job, w) = refl
    failed-is_completed v e (threw e', w) = refl

    cancels-is_completed :
        (o : TerminalOutcome × World D) → is_completed (cancels env k l scope attempt o).0 ≡ false
    cancels-is_completed (fenced_out, w) = refl
    cancels-is_completed (committed job, w) = refl
    cancels-is_completed (threw e, w) = refl

    retries-is_completed :
        (v : SliceVerdict) (o : TerminalOutcome × World D)
        → is_completed (retries env k l scope attempt v o).0 ≡ false
    retries-is_completed v (fenced_out, w) = refl
    retries-is_completed v (committed job, w) = refl
    retries-is_completed v (threw (Failure.no_further_attempts u), w) = refl
    retries-is_completed v (threw (Failure.error a b c), w) = refl
    retries-is_completed v (threw (Failure.lease_lost m), w) = refl
    retries-is_completed v (threw (Failure.mirror_mismatch id), w) = refl
    retries-is_completed v (threw (Failure.text n), w) = refl
    retries-is_completed v (threw (Failure.value a b), w) = refl

    fail-is_completed :
        (e : Failure) (w : World D) → is_completed (fail env k l scope attempt e w).0 ≡ false
    unfolding fail
    fail-is_completed e w =
        let counted =
          execute env
            (λ now t.
              fail_slice now l (slice_error k e) (retry_delay k e attempt)
                k.budget.max_consecutive_failures t)
            w in
        elim (Option-cases counted.0) [
          | inl lost ↦ rw (lost, fail) refl
          | inr ((failures, minted), went) ↦
              elim (Option-cases (or_verdict minted (class_of k e))) [
                | inl again ↦ rw (went, again, fail) refl
                | inr (v, over) ↦ rw (went, over, fail) (failed-is_completed v e _)
              ]
        ]

    hand_back-is_completed :
        (interrupted : Bool) (w : World D) → is_completed (hand_back env l interrupted w).0 ≡ false
    unfolding hand_back
    hand_back-is_completed interrupted w =
        elim (Option-cases (execute env (λ now t. yield_slice now l interrupted t) w).0) [
          | inl lost ↦ rw (lost, hand_back) refl
          | inr ((seq, redrives), went) ↦ rw (went, hand_back) refl
        ]

    conclude-is_completed :
        (r : StepResult) (fl : Flags) (w : World D)
        → IsUndrained r
        → is_completed (conclude env k l scope attempt r fl w).0 ≡ false
    unfolding conclude cancel
    conclude-is_completed (thrown e) fl w h = elim (Bool-cases (fl.lease_lost || is_lease_lost e)) [
      | inl lost ↦ rw (lost, conclude) refl
      | inr kept ↦ elim (Bool-cases fl.cancel_observed) [
        | inl asked ↦ rw (kept, asked, conclude) (cancels-is_completed _)
        | inr calm ↦ elim (Bool-cases (env.shutting_down w.turn)) [
          | inl down ↦ rw (kept, calm, down, conclude) (hand_back-is_completed true w)
          | inr up ↦ rw (kept, calm, up, conclude) (fail-is_completed e w)
        ]
      ]
    ]
    conclude-is_completed (outcome SliceOutcome.drained) fl w h = absurd h
    conclude-is_completed (outcome SliceOutcome.budget) fl w h =
        elim (Bool-cases fl.cancel_observed) [
          | inl asked ↦ rw (asked, conclude) (cancels-is_completed _)
          | inr calm ↦ rw (calm, conclude) (hand_back-is_completed _ w)
        ]
    conclude-is_completed (outcome SliceOutcome.cancelled) fl w h =
        elim (Bool-cases fl.cancel_observed) [
          | inl asked ↦ rw (asked, conclude) (cancels-is_completed _)
          | inr calm ↦ rw (calm, conclude) (cancels-is_completed _)
        ]

  -- A slice whose step never drains its work, whatever its calls come to, does not complete its job.
  pub run_slice-NeverDrains :
      (k : ResolvedKind D) (scope : Scope) (owner attempt : ℕ) (x : Delivery) (w : World D)
      → ((c : DurableJob) → NeverDrains (k.step (context_for k scope owner c)))
      → is_completed (run_slice env k owner x scope attempt w).0 ≡ false
  unfolding run_slice run_claimed run_step retry_terminal_fail
  run_slice-NeverDrains k scope owner attempt x w never =
      let claimed = execute env (λ now t. claim now x.job_id scope x owner k.lease.ttl_ms t) w in
      elim (Option-cases claimed.0) [
        | inl nothing ↦ rw (nothing, run_slice) refl
        | inr (c, won) ↦ elim (Option-cases (verdict_of c.error_code)) [
          | inr (v, reached) ↦
              rw (won, run_slice)
                (rw (reached, run_claimed)
                  (retries-is_completed k (lease_for k owner c) scope attempt v _))
          | inl open_still ↦
              let u = claimed.1 in
              let l = lease_for k owner c in
              let script = k.step (context_for k scope owner c) in
              let deadline = env.worker_clock u.turn + k.lease.slice_budget_ms in
              let step = run_script env l deadline script (u, no_flags) in
              rw (won, run_slice)
                (rw (open_still, run_claimed)
                  (conclude-is_completed k l scope attempt step.0 step.2 step.1
                    (run_script-NeverDrains l deadline script u no_flags (never c))))
        ]
      ]

-- ===== src/Slice/Outcome.antt =====
-- The lease on the row after each of the ends of a slice (core/run-slice.ts).
use open_mercato_durable.Common.{ℕ, refl, inl, inr, Bool, none, Bool-cases, Option-cases}
use open_mercato_durable.Types.{Scope, Lease, SliceVerdict}
use open_mercato_durable.Errors.{Failure}
use open_mercato_durable.Store.Table.{Table}
use open_mercato_durable.Store.Lease.{yield_slice, release_lease}
use open_mercato_durable.Protocol.Steps.{Reach}
use open_mercato_durable.Protocol.Release.{Known, Released, Known-Reach}
use open_mercato_durable.Registry.Kinds.{ResolvedKind}
use open_mercato_durable.Registry.Delays.{next_attempt_delay_ms}
use open_mercato_durable.World.{World, Environment, pause, execute}
use open_mercato_durable.Terminal.Transition.{
  cas_row, Transition, TerminalOutcome, fenced_out, committed, threw, run_terminal_transition,
}
use open_mercato_durable.Terminal.Atomic.{TerminalSpec, run_terminal_transition-atomic}
use open_mercato_durable.Slice.Finish.{
  RunSliceResult, raised, release, fail, completes, cancels, retries, complete, cancel, hand_back,
}
use open_mercato_durable.Slice.Lawful.{
  Reach-trans, db, IsLawful, execute-Reach, run_terminal_transition-Reach,
}
use open_mercato_durable.Slice.Ends.{
  IsHonest, Ends, committed-Released, after-Reach, execute-Released, fail-Ends,
  release_lease-Released, release_lease-Reach, yield_slice-Released, yield_slice-Reach,
}

module _ {D : Type 0} (env : Environment D) (lawful : IsLawful env) (k : ResolvedKind D) (l : Lease)
    (scope : Scope) where
  -- An end of a slice from a later world is one from an earlier world.
  pub Ends-after :
      (w v : World D) (r : RunSliceResult × World D) → Reach (db w) (db v) → Ends l v r → Ends l w r
  Ends-after w v (r, u) before (reach, free) = (Reach-trans before reach, free)

  release-Ends :
      (attempt : ℕ) (e : Failure) (w u : World D)
      → Reach (db w) (db u)
      → Known l (db u)
      → Ends l w (raised e, release env k l attempt u)
  release-Ends attempt e w u before known =
      let delay = next_attempt_delay_ms k.retry attempt in
      let f = λ (now : ℕ) (t : _). release_lease now l delay t in
      (
        Reach-trans before
            (execute-Reach env lawful f u (λ now t. release_lease-Reach now l delay t)),
        inr (
            execute-Released env lawful k l scope f u
              (λ now t. release_lease-Released now l delay t) known),
      )

  completes-Ends :
      (attempt : ℕ) (p w u : World D) (o : TerminalOutcome)
      → TerminalSpec env k l scope (Transition.complete none none) p (o, u)
      → Reach (db w) (db u)
      → Known l (db u)
      → Ends l w (completes env k l scope attempt (o, u))
  completes-Ends attempt p w u fenced_out done reach known = (reach, inl refl)
  completes-Ends attempt p w u (committed job) done reach known = (
    after-Reach env lawful k l scope job u w reach,
    inr (committed-Released env k l scope (Transition.complete none none) p u job done),
  )
  completes-Ends attempt p w u (threw e) done reach known =
      Ends-after w u (fail env k l scope attempt e u) reach
        (fail-Ends env lawful k l scope attempt e u known)

  pub complete-Ends :
      (attempt : ℕ) (w : World D) → Known l (db w) → Ends l w (complete env k l scope attempt w)
  unfolding complete
  complete-Ends attempt w known =
      let t = Transition.complete none none in
      let reach = run_terminal_transition-Reach env lawful k l scope t w in
      completes-Ends attempt (pause env w) w (run_terminal_transition env k l scope t w).1
        (run_terminal_transition env k l scope t w).0
        (run_terminal_transition-atomic env k l scope t w) reach (Known-Reach l known reach)

  cancels-Ends :
      (attempt : ℕ) (p w u : World D) (o : TerminalOutcome)
      → TerminalSpec env k l scope Transition.cancel p (o, u)
      → Reach (db w) (db u)
      → Known l (db u)
      → Ends l w (cancels env k l scope attempt (o, u))
  cancels-Ends attempt p w u fenced_out done reach known = (reach, inl refl)
  cancels-Ends attempt p w u (committed job) done reach known = (
    after-Reach env lawful k l scope job u w reach,
    inr (committed-Released env k l scope Transition.cancel p u job done),
  )
  cancels-Ends attempt p w u (threw e) done reach known = release-Ends attempt e w u reach known

  pub cancel-Ends :
      (attempt : ℕ) (w : World D) → Known l (db w) → Ends l w (cancel env k l scope attempt w)
  unfolding cancel
  cancel-Ends attempt w known =
      let reach = run_terminal_transition-Reach env lawful k l scope Transition.cancel w in
      cancels-Ends attempt (pause env w) w
        (run_terminal_transition env k l scope Transition.cancel w).1
        (run_terminal_transition env k l scope Transition.cancel w).0
        (run_terminal_transition-atomic env k l scope Transition.cancel w) reach
        (Known-Reach l known reach)

  pub retries-Ends :
      IsHonest k
      → (attempt : ℕ) (v : SliceVerdict) (t : Transition) (p w u : World D) (o : TerminalOutcome)
      → TerminalSpec env k l scope t p (o, u)
      → Reach (db w) (db u)
      → Known l (db u)
      → Ends l w (retries env k l scope attempt v (o, u))
  retries-Ends honest attempt v t p w u fenced_out done reach known = (reach, inl refl)
  retries-Ends honest attempt v t p w u (committed job) done reach known = (
    after-Reach env lawful k l scope job u w reach,
    inr (committed-Released env k l scope t p u job done),
  )
  retries-Ends honest attempt v t p w u (threw (Failure.no_further_attempts x)) done reach known =
      let (r, found, epoch, called, e) = done in
      absurd (honest t ((cas_row p.now l t).set r) scope p.domain x called)
  retries-Ends honest attempt v t p w u (threw e) done reach known =
      release-Ends attempt e w u reach known

  pub hand_back-Ends :
      (interrupted : Bool) (w : World D) → Known l (db w) → Ends l w (hand_back env l interrupted w)
  unfolding hand_back
  hand_back-Ends interrupted w known =
      let f = λ (now : ℕ) (t : Table). yield_slice now l interrupted t in
      let u = (execute env f w).1 in
      let reach : Reach (db w) (db u) =
        execute-Reach env lawful f w (λ now t. yield_slice-Reach now l interrupted t) in
      let free : Released l (db u) =
        execute-Released env lawful k l scope f w
          (λ now t. yield_slice-Released now l interrupted t) known in
      elim (Option-cases (execute env f w).0) [
        | inl lost ↦ rw (lost, hand_back) (reach, inl refl)
        | inr ((seq, redrives), yields) ↦ elim (Bool-cases (env.broker_refuses u.turn)) [
          | inl refuses ↦ rw (yields, refuses, hand_back) (reach, inr free)
          | inr accepts ↦ rw (yields, accepts, hand_back) (reach, inr free)
        ]
      ]

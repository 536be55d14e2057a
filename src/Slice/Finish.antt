-- ===== src/Slice/Finish.antt =====
-- The ends of a slice (core/run-slice.ts: `complete`, `cancel`, `handBack`, `fail`,
-- `retryTerminalFail`).
use open_mercato_durable.Common.{ℕ, Bool, true, false, Option, none, some, coalesce, if◌then◌else◌}
use open_mercato_durable.Types.{DurableJob, Scope, Lease, SliceVerdict, ErrorClass, ErrorCode}
use open_mercato_durable.Errors.{Failure, classify_error, error_code_of, error_message_of}
use open_mercato_durable.Store.Lease.{SliceError, yield_slice, fail_slice, release_lease}
use open_mercato_durable.Registry.Kinds.{ResolvedKind}
use open_mercato_durable.Registry.Delays.{next_attempt_delay_ms}
use open_mercato_durable.Terminal.Transition.{
  Transition, TerminalOutcome, fenced_out, committed, threw, run_terminal_transition,
  run_after_transition,
}
use open_mercato_durable.World.{World, Environment, execute, send}

-- `raised` is the throw that the transport sees.
pub data RunSliceResult : Type 0 where
  refused : RunSliceResult
  lease_lost : RunSliceResult
  completed : RunSliceResult
  cancelled : RunSliceResult
  yielded : (seq redrives : ℕ) → RunSliceResult
  raised : Failure → RunSliceResult

abbrev pub is_transient : ErrorClass → Bool
is_transient ErrorClass.transient = true
is_transient _ = false

abbrev pub is_terminal : ErrorClass → Bool
is_terminal ErrorClass.terminal = true
is_terminal _ = false

abbrev pub or_verdict : Option SliceVerdict → ErrorClass → Option SliceVerdict
or_verdict (some v) class = some v
or_verdict none class = if is_terminal class then some SliceVerdict.retry_exhausted else none

-- What a failed terminal transaction raises on the failure path: its own
-- `NoFurtherAttempts`, and otherwise the error of the step.
abbrev pub terminal_error : Failure → Failure → Failure
terminal_error (Failure.no_further_attempts v) e = Failure.no_further_attempts v
terminal_error _ e = e

module _ {D : Type 0} where
  -- `kind.classify?.(error) ?? classifyError(error)`
  unfoldable pub class_of : ResolvedKind D → Failure → ErrorClass
  class_of k e = elim k.classify [
    | none ↦ classify_error e
    | some f ↦ coalesce (f e) (classify_error e)
  ]

  abbrev pub release : Environment D → ResolvedKind D → Lease → ℕ → World D → World D
  release env k lease attempt w =
      (execute env (λ now t. release_lease now lease (next_attempt_delay_ms k.retry attempt) t) w).1

  abbrev pub failed :
      Environment D
      → ResolvedKind D
      → Lease
      → Scope
      → SliceVerdict
      → Failure
      → TerminalOutcome × World D
      → RunSliceResult × World D
  failed env k lease scope v e (fenced_out, w) = (lease_lost, w)
  failed env k lease scope v e (committed job, w) =
      (raised (Failure.no_further_attempts v), run_after_transition k job scope w)
  failed env k lease scope v e (threw e', w) = (raised (terminal_error e' e), w)

  abbrev pub slice_error : ResolvedKind D → Failure → SliceError
  slice_error k e = record {
    message = error_message_of e;
    code = error_code_of e;
    class = class_of k e;
  }

  -- The delay before the transport's retry, which only a transient error has.
  abbrev pub retry_delay : ResolvedKind D → Failure → ℕ → Option ℕ
  retry_delay k e attempt =
      if is_transient (class_of k e) then next_attempt_delay_ms k.retry attempt else none

  unfoldable pub fail :
      Environment D
      → ResolvedKind D
      → Lease
      → Scope
      → ℕ
      → Failure
      → World D
      → RunSliceResult × World D
  unfolding class_of
  fail env k lease scope attempt e w =
      let class = class_of k e in
      let delay = retry_delay k e attempt in
      let (counted, w') =
        execute env
          (λ now t.
            fail_slice now lease (slice_error k e) delay k.budget.max_consecutive_failures t)
          w in
      elim counted [
        | none ↦ (lease_lost, w')
        | some (failures, minted) ↦ elim (or_verdict minted class) [
          | none ↦ (raised e, w')
          | some v ↦ failed env k lease scope v e (
              run_terminal_transition env k lease scope
                (Transition.fail (ErrorCode.verdict v) class (some (error_message_of e))) w')
        ]
      ]

  abbrev pub completes :
      Environment D
      → ResolvedKind D
      → Lease
      → Scope
      → ℕ
      → TerminalOutcome × World D
      → RunSliceResult × World D
  completes env k lease scope attempt (fenced_out, w) = (lease_lost, w)
  completes env k lease scope attempt (committed job, w) =
      (completed, run_after_transition k job scope w)
  completes env k lease scope attempt (threw e, w) = fail env k lease scope attempt e w

  -- `complete` with the catch around its call: a mirror that fails here is a failure of the slice.
  unfoldable pub complete :
      Environment D → ResolvedKind D → Lease → Scope → ℕ → World D → RunSliceResult × World D
  unfolding fail
  complete env k lease scope attempt w =
      completes env k lease scope attempt
        (run_terminal_transition env k lease scope (Transition.complete none none) w)

  abbrev pub cancels :
      Environment D
      → ResolvedKind D
      → Lease
      → Scope
      → ℕ
      → TerminalOutcome × World D
      → RunSliceResult × World D
  cancels env k lease scope attempt (fenced_out, w) = (lease_lost, w)
  cancels env k lease scope attempt (committed job, w) =
      (cancelled, run_after_transition k job scope w)
  cancels env k lease scope attempt (threw e, w) = (raised e, release env k lease attempt w)

  unfoldable pub cancel :
      Environment D → ResolvedKind D → Lease → Scope → ℕ → World D → RunSliceResult × World D
  cancel env k lease scope attempt w =
      cancels env k lease scope attempt
        (run_terminal_transition env k lease scope Transition.cancel w)

  -- The transport's hand-back may be refused, which is only logged.
  unfoldable pub hand_back : Environment D → Lease → Bool → World D → RunSliceResult × World D
  hand_back env lease interrupted w =
      let (next, w') = execute env (λ now t. yield_slice now lease interrupted t) w in
      elim next [
        | none ↦ (lease_lost, w')
        | some (seq, redrives) ↦ (
          yielded seq redrives,
          if env.broker_refuses w'.turn
              then w'
              else send (record { job_id = lease.job_id; seq = seq; redrives = redrives }) w',
        )
      ]

  abbrev pub retries :
      Environment D
      → ResolvedKind D
      → Lease
      → Scope
      → ℕ
      → SliceVerdict
      → TerminalOutcome × World D
      → RunSliceResult × World D
  retries env k lease scope attempt v (fenced_out, w) = (lease_lost, w)
  retries env k lease scope attempt v (committed job, w) =
      (raised (Failure.no_further_attempts v), run_after_transition k job scope w)
  retries env k lease scope attempt v (threw (Failure.no_further_attempts u), w) =
      (raised (Failure.no_further_attempts u), w)
  retries env k lease scope attempt v (threw e, w) = (raised e, release env k lease attempt w)

  unfoldable pub retry_terminal_fail :
      Environment D
      → ResolvedKind D
      → DurableJob
      → Lease
      → Scope
      → ℕ
      → SliceVerdict
      → World D
      → RunSliceResult × World D
  retry_terminal_fail env k job lease scope attempt v w = retries env k lease scope attempt v (
      run_terminal_transition env k lease scope
        (Transition.fail (ErrorCode.verdict v) (coalesce job.error_class ErrorClass.terminal)
          job.error_message)
        w)

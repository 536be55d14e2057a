-- ===== src/Slice/Run.antt =====
-- `runSlice` (core/run-slice.ts), from the claim to one of the ends of Slice/Finish.
use open_mercato_durable.Common.{ℕ, ◌+◌, Bool, true, false, ◌||◌, none, some, if◌then◌else◌}
use open_mercato_durable.Types.{DurableJob, Scope, Lease, Delivery, SliceOutcome}
use open_mercato_durable.Errors.{Failure}
use open_mercato_durable.Store.Lease.{claim, verdict_of}
use open_mercato_durable.Registry.Script.{SliceContext}
use open_mercato_durable.Registry.Kinds.{ResolvedKind}
use open_mercato_durable.World.{World, Environment, execute}
use open_mercato_durable.Slice.Context.{Flags, no_flags, StepResult, outcome, thrown, run_script}
use open_mercato_durable.Slice.Finish.{
  RunSliceResult, refused, lease_lost, complete, cancel, hand_back, fail, retry_terminal_fail,
}

abbrev pub is_lease_lost : Failure → Bool
is_lease_lost (Failure.lease_lost l) = true
is_lease_lost _ = false

module _ {D : Type 0} where
  -- What the step's end leads to. A slice that observed a cancellation ends cancelled.
  unfoldable pub conclude :
      Environment D
      → ResolvedKind D
      → Lease
      → Scope
      → ℕ
      → StepResult
      → Flags
      → World D
      → RunSliceResult × World D
  conclude env k lease scope attempt (thrown e) fl w =
      if fl.lease_lost || is_lease_lost e
      then (lease_lost, w)
      else if fl.cancel_observed
      then cancel env k lease scope attempt w
      else if env.shutting_down w.turn
      then hand_back env lease true w
      else fail env k lease scope attempt e w
  conclude env k lease scope attempt (outcome o) fl w =
      if fl.cancel_observed then cancel env k lease scope attempt w else elim o [
        | SliceOutcome.drained ↦ complete env k lease scope attempt w
        | SliceOutcome.cancelled ↦ cancel env k lease scope attempt w
        | SliceOutcome.budget ↦ hand_back env lease (env.shutting_down w.turn) w
      ]

  abbrev pub lease_for : ResolvedKind D → ℕ → DurableJob → Lease
  lease_for k owner c = record {
    job_id = c.id;
    owner = owner;
    epoch = c.lease_epoch;
    ttl_ms = k.lease.ttl_ms;
  }

  abbrev pub context_for : ResolvedKind D → Scope → ℕ → DurableJob → SliceContext
  context_for k scope owner c = record {
    job = c;
    scope = scope;
    lease = lease_for k owner c;
    input = c.input;
    checkpoint = c.checkpoint;
    budget_ms = k.lease.slice_budget_ms;
    idempotency_key = (c.id, c.continuation_seq);
  }

  unfoldable pub run_step :
      Environment D
      → ResolvedKind D
      → Scope
      → ℕ
      → ℕ
      → DurableJob
      → World D
      → RunSliceResult × World D
  run_step env k scope owner attempt c w =
      let lease = lease_for k owner c in
      let deadline = env.worker_clock w.turn + k.lease.slice_budget_ms in
      let (r, w', fl) =
        run_script env lease deadline (k.step (context_for k scope owner c)) (w, no_flags) in
      conclude env k lease scope attempt r fl w'

  -- With a claimed row: a verdict that is on it already is retried, and the step is not run.
  unfoldable pub run_claimed :
      Environment D
      → ResolvedKind D
      → Scope
      → ℕ
      → ℕ
      → DurableJob
      → World D
      → RunSliceResult × World D
  run_claimed env k scope owner attempt c w = elim (verdict_of c.error_code) [
    | some v ↦ retry_terminal_fail env k c (lease_for k owner c) scope attempt v w
    | none ↦ run_step env k scope owner attempt c w
  ]

  unfoldable pub run_slice :
      Environment D → ResolvedKind D → ℕ → Delivery → Scope → ℕ → World D → RunSliceResult × World D
  run_slice env k owner delivery scope attempt w =
      let (row, w') =
        execute env (λ now t. claim now delivery.job_id scope delivery owner k.lease.ttl_ms t) w in
      elim row [ none ↦ (refused, w') | some c ↦ run_claimed env k scope owner attempt c w' ]

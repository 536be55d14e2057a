-- ===== src/Slice/Verdict.antt =====
-- A slice whose row carries a verdict (core/run-slice.ts, `retryTerminalFail`).
use open_mercato_durable.Common.{ℕ, ◌≡◌, refl, some}
use open_mercato_durable.Types.{DurableJob, Scope, Delivery, SliceVerdict}
use open_mercato_durable.Store.Lease.{claim, verdict_of}
use open_mercato_durable.Registry.Script.{Script, SliceContext}
use open_mercato_durable.Registry.Kinds.{ResolvedKind}
use open_mercato_durable.Terminal.Transition.{
  run_cancel, run_mirror, callbacks, run_terminal_transition, run_after_transition,
}
use open_mercato_durable.World.{World, Environment, pause, execute}
use open_mercato_durable.Slice.Finish.{retry_terminal_fail}
use open_mercato_durable.Slice.Run.{run_claimed, run_slice}

module _ {D : Type 0} where
  -- The kind with another step.
  abbrev pub with_step : ResolvedKind D → (SliceContext → Script D) → ResolvedKind D
  with_step k step = let h = k.handlers in record k { handlers = record h { step = step } }

  -- A delivery that claims a row which carries a verdict never runs the step: whatever step the
  -- kind has, the slice ends the same way and leaves the same world.
  pub run_slice-verdict :
      (env : Environment D) (k : ResolvedKind D) (step : SliceContext → Script D)
      (owner attempt : ℕ) (x : Delivery) (scope : Scope) (w : World D) (c : DurableJob)
      (v : SliceVerdict)
      → (claim (pause env w).now x.job_id scope x owner k.lease.ttl_ms (pause env w).jobs).0
        ≡ some c
      → verdict_of c.error_code ≡ some v
      → run_slice env k owner x scope attempt w
        ≡ run_slice env (with_step k step) owner x scope attempt w
  unfolding run_slice execute run_claimed retry_terminal_fail run_terminal_transition callbacks
      run_cancel run_mirror run_after_transition
  run_slice-verdict env k step owner attempt x scope w c v claimed decided =
      rw (claimed, decided, run_slice, run_claimed) refl

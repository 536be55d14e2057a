-- ===== src/Slice/Context.antt =====
-- How a step's calls run (core/run-slice.ts, `beat` and `makeContext`).
use open_mercato_durable.Common.{
  ℕ, Bool, true, false, ◌||◌, not, Option, none, some, leb, if◌then◌else◌,
}
use open_mercato_durable.Types.{Lease, SliceOutcome, Json}
use open_mercato_durable.Errors.{Failure}
use open_mercato_durable.Store.Lease.{
  HeartbeatPatch, no_patch, heartbeat, assert_lease, write_checkpoint,
}
use open_mercato_durable.Registry.Script.{Attempt, commits, Script}
use open_mercato_durable.World.{World, Environment, pause, execute}

-- The variables that `runSlice` closes over; `aborted` is the slice's own abort signal.
pub record Flags : Type 0 where
  pub aborted : Bool
  pub cancel_observed : Bool
  pub lease_lost : Bool

abbrev pub no_flags : Flags
no_flags = record { aborted = false; cancel_observed = false; lease_lost = false }

pub data StepResult : Type 0 where
  outcome : SliceOutcome → StepResult
  thrown : Failure → StepResult

-- The flags after a heartbeat, and whether it threw.
abbrev pub beat_flags : Option Bool → Flags → Flags
beat_flags none fl = record fl { aborted = true; lease_lost = true }
beat_flags (some true) fl = record fl { aborted = true; cancel_observed = true }
beat_flags (some false) fl = fl

abbrev pub was_lost : Option Bool → Bool
was_lost none = true
was_lost (some _) = false

module _ {D : Type 0} where
  unfoldable pub beat :
      Environment D → Lease → HeartbeatPatch → World D × Flags → Bool × World D × Flags
  unfolding execute
  beat env lease patch (w, fl) =
      let (r, w') = execute env (λ now t. heartbeat now lease patch t) w in
      (was_lost r, w', beat_flags r fl)

  -- The heartbeat timer, whose throw is dropped.
  unfoldable pub timer : Environment D → Lease → World D × Flags → World D × Flags
  unfolding beat
  timer env lease (w, fl) =
      if env.timer_fires w.turn
      then (let (_, w', fl') = beat env lease no_patch (w, fl) in (w', fl'))
      else (w, fl)

  unfoldable pub save :
      Environment D
      → Lease
      → Option Json
      → HeartbeatPatch
      → World D × Flags
      → Bool × World D × Flags
  unfolding execute
  save env lease state patch (w, fl) =
      let (kept, w') = execute env (λ now t. write_checkpoint now lease state patch t) w in
      (not kept, w', if kept then fl else record fl { aborted = true })

  -- The transaction's write: its domain state is the callback's if that commits.
  abbrev pub attempt_world : Attempt D → World D → (Option Failure × ℕ) × World D
  attempt_world (commits n d) p = ((none, n), record p { domain = d })
  attempt_world (Attempt.throws e) p = ((some e, 0), p)

  -- `fencedWrite`: the lease is asserted in the transaction of the write. The first component is
  -- what it throws, the second what it returns.
  unfoldable pub fenced_write :
      Environment D
      → Lease
      → (D → Attempt D)
      → World D × Flags
      → (Option Failure × ℕ) × World D × Flags
  fenced_write env lease f (w, fl) =
      let p = pause env w in
      if assert_lease lease p.jobs
      then (let (r, w') = attempt_world (f p.domain) p in (r, w', fl))
      else ((some (Failure.lease_lost lease), 0), p, record fl { aborted = true })

  abbrev pub is_aborted : Environment D → World D × Flags → Bool
  is_aborted env (w, fl) = fl.aborted || env.shutting_down w.turn

  unfoldable pub should_yield : Environment D → ℕ → World D × Flags → Bool
  should_yield env deadline (w, fl) =
      is_aborted env (w, fl) || leb deadline (env.worker_clock w.turn)

  -- A step runs its calls one by one; before each the timer may fire.
  unfoldable pub run_script :
      Environment D → Lease → ℕ → Script D → World D × Flags → StepResult × World D × Flags
  run_script env lease deadline (Script.returns o) s = (outcome o, s.0, s.1)
  run_script env lease deadline (Script.throws e) s = (thrown e, s.0, s.1)
  run_script env lease deadline (Script.beat patch ok lost) s =
      let (l, w, fl) = beat env lease patch (timer env lease s) in
      elim l [
        | true ↦ run_script env lease deadline (lost (Failure.lease_lost lease)) (w, fl)
        | false ↦ run_script env lease deadline ok (w, fl)
      ]
  run_script env lease deadline (Script.save state patch ok lost) s =
      let (l, w, fl) = save env lease state patch (timer env lease s) in
      elim l [
        | true ↦ run_script env lease deadline (lost (Failure.lease_lost lease)) (w, fl)
        | false ↦ run_script env lease deadline ok (w, fl)
      ]
  run_script env lease deadline (Script.write f ok lost) s =
      let (r, w, fl) = fenced_write env lease f (timer env lease s) in
      elim r.0 [
        | none ↦ run_script env lease deadline (ok r.1) (w, fl)
        | some e ↦ run_script env lease deadline (lost e) (w, fl)
      ]
  run_script env lease deadline (Script.ask next) s =
      let (w, fl) = timer env lease s in
      run_script env lease deadline (next (should_yield env deadline (w, fl))) (w, fl)
  run_script env lease deadline (Script.act f next) s =
      let (w, fl) = timer env lease s in
      let p = pause env w in
      let d = f p.domain in run_script env lease deadline (next d) (record p { domain = d }, fl)

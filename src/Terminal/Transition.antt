-- ===== src/Terminal/Transition.antt =====
-- The terminal transaction (core/terminal.ts): the compare-and-set, the kind's mirror and the mark.
-- Its first statement locks the row, so nobody acts on the row in between.
use open_mercato_durable.Common.{ℕ, zero, suc, Bool, true, false, Option, none, some, if◌then◌else◌}
use open_mercato_durable.Types.{DurableJob, Scope, Lease, ErrorClass, ErrorCode, Message}
use open_mercato_durable.Errors.{Failure}
use open_mercato_durable.Store.Table.{Table, Statement, update}
use open_mercato_durable.Store.Settle.{
  complete_cas_row, fail_terminal_cas_row, cancel_cas_row, mark_mirrored, bump_mirror_attempts,
}
use open_mercato_durable.Registry.Script.{Attempt, commits, throws}
use open_mercato_durable.Registry.Kinds.{ResolvedKind}
use open_mercato_durable.World.{World, Environment, pause}

pub data Transition : Type 0 where
  complete : (processed_count total_count : Option ℕ) → Transition
  fail : ErrorCode → ErrorClass → Option Message → Transition
  cancel : Transition

abbrev pub is_cancel : Transition → Bool
is_cancel Transition.cancel = true
is_cancel _ = false

-- The statement that `applyCas` runs.
unfoldable pub cas_row : ℕ → Lease → Transition → Statement
cas_row now lease (Transition.complete processed total) = complete_cas_row now lease processed total
cas_row now lease (Transition.fail code class message) =
    fail_terminal_cas_row now lease code class message
cas_row now lease Transition.cancel = cancel_cas_row now lease

-- The three outcomes that the caller tells apart: the fence refused, the transaction committed,
-- or a callback failed and everything rolled back.
pub data TerminalOutcome : Type 0 where
  fenced_out : TerminalOutcome
  committed : DurableJob → TerminalOutcome
  threw : Failure → TerminalOutcome

module _ {D : Type 0} where
  -- `kind.onCancel?.(…)`: what it commits is ignored.
  unfoldable pub run_cancel : ResolvedKind D → DurableJob → Scope → D → Attempt D
  run_cancel k job scope d = elim k.on_cancel [ none ↦ commits 0 d | some f ↦ f job scope d ]

  -- `matched < 1` is thrown.
  abbrev pub mirrored : ℕ → Attempt D → Attempt D
  mirrored id (commits zero d) = throws (Failure.mirror_mismatch id)
  mirrored id (commits (suc n) d) = commits (suc n) d
  mirrored id (throws e) = throws e

  unfoldable pub run_mirror : ResolvedKind D → DurableJob → Scope → D → Attempt D
  run_mirror k job scope d = elim k.on_transition [
    | none ↦ commits 1 d
    | some f ↦ mirrored job.id (f job scope d)
  ]

  abbrev pub then_mirror : ResolvedKind D → DurableJob → Scope → Attempt D → Attempt D
  then_mirror k job scope (commits n d) = run_mirror k job scope d
  then_mirror k job scope (throws e) = throws e

  -- The callbacks of the transaction, in their order.
  unfoldable pub callbacks : ResolvedKind D → Transition → DurableJob → Scope → D → Attempt D
  unfolding run_cancel run_mirror
  callbacks k t job scope d =
      if is_cancel t
      then then_mirror k job scope (run_cancel k job scope d)
      else run_mirror k job scope d

  -- The counter of a failed mirror is a statement of its own, after the rollback.
  unfoldable pub roll_back : Environment D → ℕ → Failure → World D → TerminalOutcome × World D
  roll_back env id e p =
      let q = pause env p in (threw e, record q { jobs = bump_mirror_attempts q.now id q.jobs })

  unfoldable pub settle :
      Environment D → ℕ → Table → DurableJob → Attempt D → World D → TerminalOutcome × World D
  unfolding roll_back
  settle env id jobs job (commits n d) p =
      (committed job, record p { jobs = mark_mirrored p.now job.id jobs; domain = d })
  settle env id jobs job (throws e) p = roll_back env id e p

  unfoldable pub run_terminal_transition :
      Environment D
      → ResolvedKind D
      → Lease
      → Scope
      → Transition
      → World D
      → TerminalOutcome × World D
  unfolding settle callbacks
  run_terminal_transition env k lease scope t w =
      let p = pause env w in
      let (row, jobs) = update lease.job_id (cas_row p.now lease t) p.jobs in
      elim row [
        | none ↦ (fenced_out, p)
        | some job ↦ settle env lease.job_id jobs job (callbacks k t job scope p.domain) p
      ]

  -- The after-commit hook. What it throws is dropped.
  unfoldable pub run_after_transition : ResolvedKind D → DurableJob → Scope → World D → World D
  run_after_transition k job scope w = elim k.on_after_transition [
    | none ↦ w
    | some hook ↦ record w { domain = hook job scope w.domain }
  ]

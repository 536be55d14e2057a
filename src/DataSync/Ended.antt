-- ===== src/DataSync/Ended.antt =====
-- What a terminal transaction leaves of a job and its run (kinds/data-sync-run.ts, `onTransition`).
use open_mercato_durable.Common.{
  ℕ, subst, true, false, ◌≡◌, ◌≢◌, ◌⊎◌, ◌||◌, &&-split, or_else, arith, refl, none, some, not, inl,
  inr,
}
use open_mercato_durable.Types.{DurableJob, DurableJobStatus, Lease}
use open_mercato_durable.Store.Table.{find}
use open_mercato_durable.Store.Settle.{complete_cas_row, fail_terminal_cas_row, cancel_cas_row}
use open_mercato_durable.World.{World}
use open_mercato_durable.Terminal.Transition.{Transition, cas_row}
use open_mercato_durable.DataSync.Runs.{
  RunStatus, SyncTerminalStatus, status_text, is_open, is_status, SyncRun, SyncDomain, find_run,
  finish_run, is_mirrorable,
}
use open_mercato_durable.DataSync.Kind.{input_of, terminal_status}

-- What the job and its run say once the job has ended, in each of the three ways.
abbrev pub EndsAs : Transition → DurableJob → DurableJob → SyncRun → Type 0
EndsAs (Transition.complete processed total) old job run =
    (job.status ≡ DurableJobStatus.completed)
    × (run.status ≡ RunStatus.completed)
    × (run.last_error ≡ none)
EndsAs (Transition.fail code class message) old job run =
    (job.status ≡ DurableJobStatus.failed)
    × (run.status ≡ RunStatus.failed)
    × (run.last_error ≡ or_else message old.error_message)
EndsAs Transition.cancel old job run =
    (job.status ≡ DurableJobStatus.cancelled)
    × (run.status ≡ RunStatus.cancelled)
    × (run.last_error ≡ old.error_message)

-- A run that a mirror may end with a status: not deleted, and open or of that status already.
abbrev pub MayEnd : RunStatus → SyncRun → Type 0
MayEnd status run =
    (run.is_deleted ≡ false)
    × ((run.status ≡ RunStatus.pending)
        ⊎ ((run.status ≡ RunStatus.running) ⊎ (run.status ≡ status)))

-- A terminal transaction of a job on its run: from the world `p` to `w`, with the row `job`.
pub record SyncEnd {C : Type 0} (l : Lease) (t : Transition) (p w : World (SyncDomain C))
    (job : DurableJob) : Type 0 where
  pub old : DurableJob
  pub was : find l.job_id p.jobs ≡ some old
  pub marked : find l.job_id w.jobs ≡ some (record job { domain_mirrored_at = some p.now })
  pub run : SyncRun
  pub found : find_run (input_of job.input).run_id p.domain.runs ≡ some run
  pub ended : SyncRun
  pub written : find_run (input_of job.input).run_id w.domain.runs ≡ some ended
  pub may_end : MayEnd ended.status run
  pub says : EndsAs t old job ended
  pub same_rest : ended ≡ record run { status = ended.status; last_error = ended.last_error }
  pub others :
      (j : ℕ)
      → j ≢ (input_of job.input).run_id
      → find_run j w.domain.runs ≡ find_run j p.domain.runs
  pub host : w.domain.rest ≡ p.domain.rest

is_open-cases :
    (s : SyncTerminalStatus) (status : RunStatus)
    → (is_open status || is_status s status) ≡ true
    → (status ≡ RunStatus.pending) ⊎ ((status ≡ RunStatus.running) ⊎ (status ≡ status_text s))
is_open-cases s RunStatus.pending h = inl refl
is_open-cases s RunStatus.running h = inr (inl refl)
is_open-cases SyncTerminalStatus.completed RunStatus.completed h = inr (inr refl)
is_open-cases SyncTerminalStatus.completed RunStatus.failed h = cc
is_open-cases SyncTerminalStatus.completed RunStatus.cancelled h = cc
is_open-cases SyncTerminalStatus.completed (RunStatus.other n) h = cc
is_open-cases SyncTerminalStatus.failed RunStatus.completed h = cc
is_open-cases SyncTerminalStatus.failed RunStatus.failed h = inr (inr refl)
is_open-cases SyncTerminalStatus.failed RunStatus.cancelled h = cc
is_open-cases SyncTerminalStatus.failed (RunStatus.other n) h = cc
is_open-cases SyncTerminalStatus.cancelled RunStatus.completed h = cc
is_open-cases SyncTerminalStatus.cancelled RunStatus.failed h = cc
is_open-cases SyncTerminalStatus.cancelled RunStatus.cancelled h = inr (inr refl)
is_open-cases SyncTerminalStatus.cancelled (RunStatus.other n) h = cc

pub is_mirrorable-MayEnd :
    (s : SyncTerminalStatus) (run : SyncRun)
    → is_mirrorable s run ≡ true
    → MayEnd (status_text s) run
is_mirrorable-MayEnd s run h =
    let (alive, open_still) = &&-split (not run.is_deleted) _ h in
    (ground arith, is_open-cases s run.status open_still)

pub finish_run-EndsAs :
    (now : ℕ) (l : Lease) (t : Transition) (old job : DurableJob) (run : SyncRun)
    → (cas_row now l t).set old ≡ job
    → EndsAs t old job (finish_run (terminal_status job.status) job.error_message run)
unfolding cas_row complete_cas_row fail_terminal_cas_row cancel_cas_row
finish_run-EndsAs now l (Transition.complete processed total) old job run set_r =
    subst
      (λ x.
        EndsAs (Transition.complete processed total) old x
          (finish_run (terminal_status x.status) x.error_message run))
      set_r (refl, refl, refl)
finish_run-EndsAs now l (Transition.fail code class message) old job run set_r =
    subst
      (λ x.
        EndsAs (Transition.fail code class message) old x
          (finish_run (terminal_status x.status) x.error_message run))
      set_r (refl, refl, refl)
finish_run-EndsAs now l Transition.cancel old job run set_r =
    subst
      (λ x.
        EndsAs Transition.cancel old x (finish_run (terminal_status x.status) x.error_message run))
      set_r (refl, refl, refl)

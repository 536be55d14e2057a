-- ===== src/Slice/Lawful.antt =====
-- The calls of a slice (core/run-slice.ts, core/terminal.ts) as steps of the protocol.
use open_mercato_durable.Common.{
  ℕ, ◌+◌, ◌≡◌, refl, sym, subst, inl, inr, Option, arith, Bool-cases, Option-cases,
}
use open_mercato_durable.Types.{DurableJob, Scope, Lease, Json}
use open_mercato_durable.Errors.{Failure}
use open_mercato_durable.Store.Table.{Table, Statement, update}
use open_mercato_durable.Store.Lease.{HeartbeatPatch, heartbeat, write_checkpoint, assert_lease}
use open_mercato_durable.Store.Settle.{mark_mirrored, bump_mirror_attempts}
use open_mercato_durable.Store.Writes.{Write}
use open_mercato_durable.Store.Writes.Fenced.{beats, saves}
use open_mercato_durable.Store.Writes.Write.{fenced, mirrors, bumps}
use open_mercato_durable.Protocol.Steps.{Database, Reach}
use open_mercato_durable.Protocol.Steps.Step.{elapse, write}
use open_mercato_durable.Protocol.Steps.Reach.{here, next}
use open_mercato_durable.Registry.Script.{Attempt, commits, Script}
use open_mercato_durable.Registry.Kinds.{ResolvedKind}
use open_mercato_durable.World.{World, Environment, pause, execute}
use open_mercato_durable.Terminal.Transition.{
  Transition, cas_row, roll_back, settle, callbacks, run_terminal_transition, run_after_transition,
}
use open_mercato_durable.Terminal.Atomic.{cas_row-Fenced}
use open_mercato_durable.Slice.Context.{
  Flags, beat, timer, save, should_yield, attempt_world, fenced_write, run_script,
}

pub Reach-trans : {d e f : Database} → Reach d e → Reach e f → Reach d f
Reach-trans a here = a
Reach-trans a (next b s) = next (Reach-trans a b) s

abbrev pub at : ℕ → Table → Database
at now t = record { now = now; jobs = t }

-- A statement, or several, as a protocol run at one time.
abbrev pub IsRun {ℓ} : {A : Type ℓ} → (ℕ → Table → A × Table) → Type 0
IsRun f = (now : ℕ) (t : Table) → Reach (at now t) (at now (f now t).1)

pub update-Reach :
    (now id : ℕ) {s : Statement} (t : Table)
    → Write now s
    → Reach (at now t) (at now (update id s t).1)
update-Reach now id t w = next here (write id w)

module _ {D : Type 0} where
  abbrev pub db : World D → Database
  db w = at w.now w.jobs

  -- The others act through the statements of store.ts.
  abbrev pub IsLawful : Environment D → Type 0
  IsLawful env =
      (turn now : ℕ) (t : Table) (d : D) → Reach (at now t) (at now (env.others turn now (t, d)).0)

  pub run_after_transition-db :
      (k : ResolvedKind D) (job : DurableJob) (scope : Scope) (w : World D)
      → db (run_after_transition k job scope w) ≡ db w
  unfolding run_after_transition
  run_after_transition-db k job scope w = elim (Option-cases k.on_after_transition) [
    | inl absent ↦ rw (absent, run_after_transition)
    | inr (hook, present) ↦ rw (present, run_after_transition)
  ]

  attempt_world-db : (a : Attempt D) (p : World D) → db (attempt_world a p).1 ≡ db p
  attempt_world-db (commits n d) p = refl
  attempt_world-db (Attempt.throws e) p = refl

module _ {D : Type 0} (env : Environment D) (lawful : IsLawful env) where
  pub pause-Reach : (w : World D) → Reach (db w) (db (pause env w))
  unfolding pause
  pause-Reach w =
      let now = w.now + env.elapsed w.turn in
      Reach-trans (next here (elapse now (omega arith))) (lawful w.turn now w.jobs w.domain)

  pub execute-Reach {ℓ} :
      {A : Type ℓ} (f : ℕ → Table → A × Table) (w : World D)
      → IsRun f
      → Reach (db w) (db (execute env f w).1)
  unfolding execute
  execute-Reach f w run = Reach-trans (pause-Reach w) (run (pause env w).now (pause env w).jobs)

  settle-Reach :
      (l : Lease) (t : Table) (job : DurableJob) (a : Attempt D) (w p : World D)
      → Reach (db w) (at p.now t)
      → Reach (db w) (db p)
      → Reach (db w) (db (settle env l.job_id t job a p).1)
  unfolding settle roll_back mark_mirrored bump_mirror_attempts
  settle-Reach l t job (commits n d) w p cas before =
      Reach-trans cas (update-Reach p.now job.id t mirrors)
  settle-Reach l t job (Attempt.throws e) w p cas before =
      let q = pause env p in
      Reach-trans before (Reach-trans (pause-Reach p) (update-Reach q.now l.job_id q.jobs bumps))

  pub run_terminal_transition-Reach :
      (k : ResolvedKind D) (l : Lease) (scope : Scope) (t : Transition) (w : World D)
      → Reach (db w) (db (run_terminal_transition env k l scope t w).1)
  unfolding run_terminal_transition
  run_terminal_transition-Reach k l scope t w =
      let p = pause env w in
      let s = cas_row p.now l t in
      elim (Option-cases (update l.job_id s p.jobs).0) [
        | inl refused ↦ rw (refused, run_terminal_transition) (pause-Reach w)
        | inr (job, matched) ↦
            rw (matched, run_terminal_transition)
              (settle-Reach l (update l.job_id s p.jobs).1 job (callbacks k t job scope p.domain) w
                p
                (Reach-trans (pause-Reach w)
                  (update-Reach p.now l.job_id p.jobs (fenced l (cas_row-Fenced p.now l t))))
                (pause-Reach w))
      ]

  heartbeat-IsRun : (l : Lease) (patch : HeartbeatPatch) → IsRun (λ now t. heartbeat now l patch t)
  unfolding heartbeat
  heartbeat-IsRun l patch now t = update-Reach now l.job_id t (fenced l (beats patch))

  write_checkpoint-IsRun :
      (l : Lease) (state : Option Json) (patch : HeartbeatPatch)
      → IsRun (λ now t. write_checkpoint now l state patch t)
  unfolding write_checkpoint
  write_checkpoint-IsRun l state patch now t =
      update-Reach now l.job_id t (fenced l (saves state patch))

  pub beat-Reach :
      (l : Lease) (patch : HeartbeatPatch) (w : World D) (fl : Flags)
      → Reach (db w) (db (beat env l patch (w, fl)).1)
  unfolding beat
  beat-Reach l patch w fl =
      execute-Reach (λ now t. heartbeat now l patch t) w (heartbeat-IsRun l patch)

  pub timer-Reach :
      (l : Lease) (w : World D) (fl : Flags) → Reach (db w) (db (timer env l (w, fl)).0)
  unfolding timer
  timer-Reach l w fl = elim (Bool-cases (env.timer_fires w.turn)) [
    | inl fires ↦ rw fires (beat-Reach l _ w fl)
    | inr quiet ↦ rw quiet here
  ]

  pub save-Reach :
      (l : Lease) (state : Option Json) (patch : HeartbeatPatch) (w : World D) (fl : Flags)
      → Reach (db w) (db (save env l state patch (w, fl)).1)
  unfolding save
  save-Reach l state patch w fl =
      execute-Reach (λ now t. write_checkpoint now l state patch t) w
        (write_checkpoint-IsRun l state patch)

  pub fenced_write-Reach :
      (l : Lease) (f : D → Attempt D) (w : World D) (fl : Flags)
      → Reach (db w) (db (fenced_write env l f (w, fl)).1)
  unfolding fenced_write
  fenced_write-Reach l f w fl =
      let p = pause env w in
      elim (Bool-cases (assert_lease l p.jobs)) [
        | inl holds ↦
            rw holds
              (subst (λ x. Reach (db w) x) (sym (attempt_world-db (f p.domain) p)) (pause-Reach w))
        | inr lost ↦ rw lost (pause-Reach w)
      ]

  -- A step's calls, whatever it is, are a run of the protocol.
  pub run_script-Reach :
      (l : Lease) (deadline : ℕ) (script : Script D) (w : World D) (fl : Flags)
      → Reach (db w) (db (run_script env l deadline script (w, fl)).1)
  unfolding run_script
  run_script-Reach l deadline (Script.returns o) w fl = here
  run_script-Reach l deadline (Script.throws e) w fl = here
  run_script-Reach l deadline (Script.beat patch ok lost) w fl =
      let (v, vl) = timer env l (w, fl) in
      let (b, u, ul) = beat env l patch (v, vl) in
      let before = Reach-trans (timer-Reach l w fl) (beat-Reach l patch v vl) in
      elim (Bool-cases b) [
        | inl gone ↦
            rw (gone, run_script)
              (Reach-trans before (run_script-Reach l deadline (lost (Failure.lease_lost l)) u ul))
        | inr held ↦
            rw (held, run_script) (Reach-trans before (run_script-Reach l deadline ok u ul))
      ]
  run_script-Reach l deadline (Script.save state patch ok lost) w fl =
      let (v, vl) = timer env l (w, fl) in
      let (b, u, ul) = save env l state patch (v, vl) in
      let before = Reach-trans (timer-Reach l w fl) (save-Reach l state patch v vl) in
      elim (Bool-cases b) [
        | inl gone ↦
            rw (gone, run_script)
              (Reach-trans before (run_script-Reach l deadline (lost (Failure.lease_lost l)) u ul))
        | inr held ↦
            rw (held, run_script) (Reach-trans before (run_script-Reach l deadline ok u ul))
      ]
  run_script-Reach l deadline (Script.write f ok lost) w fl =
      let (v, vl) = timer env l (w, fl) in
      let (r, u, ul) = fenced_write env l f (v, vl) in
      let before = Reach-trans (timer-Reach l w fl) (fenced_write-Reach l f v vl) in
      elim (Option-cases r.0) [
        | inl wrote ↦
            rw (wrote, run_script) (Reach-trans before (run_script-Reach l deadline (ok r.1) u ul))
        | inr (e, failed) ↦
            rw (failed, run_script) (Reach-trans before (run_script-Reach l deadline (lost e) u ul))
      ]
  run_script-Reach l deadline (Script.ask go) w fl =
      let (v, vl) = timer env l (w, fl) in
      Reach-trans (timer-Reach l w fl)
        (run_script-Reach l deadline (go (should_yield env deadline (v, vl))) v vl)
  run_script-Reach l deadline (Script.act f go) w fl =
      let (v, vl) = timer env l (w, fl) in
      let p = pause env v in
      let d = f p.domain in
      Reach-trans (timer-Reach l w fl) (
        Reach-trans (pause-Reach v)
          (run_script-Reach l deadline (go d) (record p { domain = d }) vl))

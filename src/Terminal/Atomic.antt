-- ===== src/Terminal/Atomic.antt =====
-- The outcomes of the terminal transaction (core/terminal.ts, `runTerminalTransition`).
use open_mercato_durable.Common.{
  ℕ, suc, zero, ◌≡◌, refl, sym, ap, subst, ◌∙◌, inl, inr, true, false, some, Option-cases,
}
use open_mercato_durable.Types.{DurableJob, Scope, Lease}
use open_mercato_durable.Store.Table.{Table, update, find, is_epoch, is_live}
use open_mercato_durable.Store.Rows.{find-id, find-update_self}
use open_mercato_durable.Store.Settle.{
  complete_cas_row, fail_terminal_cas_row, cancel_cas_row, mark_mirrored_row, mark_mirrored,
  bump_mirror_attempts,
}
use open_mercato_durable.Store.Writes.{Fenced, Fenced-origin}
use open_mercato_durable.Store.Writes.Fenced.{completes, ends, cancels}
use open_mercato_durable.Registry.Script.{Attempt, commits, throws}
use open_mercato_durable.Registry.Kinds.{ResolvedKind}
use open_mercato_durable.World.{World, Environment, pause}
use open_mercato_durable.Terminal.Transition.{
  Transition, cas_row, TerminalOutcome, fenced_out, committed, threw, run_cancel, mirrored,
  run_mirror, then_mirror, callbacks, roll_back, settle, run_terminal_transition,
}
use open_mercato_durable.Store.Rows.{update-none, update-some}

pub cas_row-Fenced : (now : ℕ) (l : Lease) (t : Transition) → Fenced now l (cas_row now l t)
unfolding cas_row
cas_row-Fenced now l (Transition.complete processed total) = completes processed total
cas_row-Fenced now l (Transition.fail code class message) = ends code class message
cas_row-Fenced now l Transition.cancel = cancels

cas_row-matches :
    (now : ℕ) (l : Lease) (t : Transition) (r : DurableJob)
    → (cas_row now l t).matches r ≡ is_epoch l r
unfolding cas_row complete_cas_row fail_terminal_cas_row cancel_cas_row
cas_row-matches now l (Transition.complete processed total) r = refl
cas_row-matches now l _ r = refl

pub cas_row-epoch :
    (now : ℕ) (l : Lease) (t : Transition) (r : DurableJob)
    → ((cas_row now l t).set r).lease_epoch ≡ r.lease_epoch
unfolding cas_row complete_cas_row fail_terminal_cas_row cancel_cas_row
cas_row-epoch now l (Transition.complete processed total) r = refl
cas_row-epoch now l _ r = refl

-- Every terminal statement ends the job.
pub cas_row-ends :
    (now : ℕ) (l : Lease) (t : Transition) (r : DurableJob)
    → is_live ((cas_row now l t).set r).status ≡ false
unfolding cas_row complete_cas_row fail_terminal_cas_row cancel_cas_row
cas_row-ends now l (Transition.complete processed total) r = refl
cas_row-ends now l _ r = refl

mark_mirrored-find :
    (now id : ℕ) (t : Table) (job : DurableJob)
    → find id t ≡ some job
    → find id (mark_mirrored now job.id t) ≡ some (record job { domain_mirrored_at = some now })
unfolding mark_mirrored mark_mirrored_row
mark_mirrored-find now id t job found =
    subst
      (λ i. find id (mark_mirrored now i t) ≡ some (record job { domain_mirrored_at = some now }))
      (sym (find-id id t job found))
      (find-update_self id (mark_mirrored_row now) t job (λ r. refl) found)

module _ {D : Type 0} where
  mirrored-matched :
      (id : ℕ) (a : Attempt D) (d : D) (n : ℕ) → mirrored id a ≡ commits n d → (m : ℕ) × (n ≡ suc m)
  mirrored-matched id (commits zero d') d n h = cc
  mirrored-matched id (commits (suc m) d') d n h = (m, cc)
  mirrored-matched id (throws e) d n h = cc

  run_mirror-matched :
      (k : ResolvedKind D) (job : DurableJob) (scope : Scope) (d d' : D) (n : ℕ)
      → run_mirror k job scope d ≡ commits n d'
      → (m : ℕ) × (n ≡ suc m)
  unfolding run_mirror
  run_mirror-matched k job scope d d' n h = elim (Option-cases k.on_transition) [
    | inl absent ↦ (0, cc (rw (absent, run_mirror) at h))
    | inr (f, present) ↦
        mirrored-matched job.id (f job scope d) d' n (rw (present, run_mirror) at h)
  ]

  then_mirror-matched :
      (k : ResolvedKind D) (job : DurableJob) (scope : Scope) (a : Attempt D) (d' : D) (n : ℕ)
      → then_mirror k job scope a ≡ commits n d'
      → (m : ℕ) × (n ≡ suc m)
  then_mirror-matched k job scope (commits m d) d' n h = run_mirror-matched k job scope d d' n h
  then_mirror-matched k job scope (throws e) d' n h = cc

  callbacks-matched :
      (k : ResolvedKind D) (t : Transition) (job : DurableJob) (scope : Scope) (d d' : D) (n : ℕ)
      → callbacks k t job scope d ≡ commits n d'
      → (m : ℕ) × (n ≡ suc m)
  unfolding callbacks
  callbacks-matched k Transition.cancel job scope d d' n h =
      then_mirror-matched k job scope (run_cancel k job scope d) d' n h
  callbacks-matched k (Transition.complete processed total) job scope d d' n h =
      run_mirror-matched k job scope d d' n h
  callbacks-matched k (Transition.fail code class message) job scope d d' n h =
      run_mirror-matched k job scope d d' n h

  -- What the transaction has done, by its outcome, at the world `p` in which it began.
  abbrev pub TerminalSpec :
      Environment D
      → ResolvedKind D
      → Lease
      → Scope
      → Transition
      → World D
      → TerminalOutcome × World D
      → Type 0
  TerminalSpec env k l scope t p (fenced_out, w) =
      (w ≡ p) × ((r : DurableJob) → find l.job_id p.jobs ≡ some r → is_epoch l r ≡ false)
  TerminalSpec env k l scope t p (committed job, w) =
      (r : DurableJob) × (n : ℕ) × (find l.job_id p.jobs ≡ some r)
      × (is_epoch l r ≡ true)
      × ((cas_row p.now l t).set r ≡ job)
      × (callbacks k t job scope p.domain ≡ commits (suc n) w.domain)
      × (find l.job_id w.jobs ≡ some (record job { domain_mirrored_at = some p.now }))
  TerminalSpec env k l scope t p (threw e, w) =
      let q = pause env p in
      (r : DurableJob) × (find l.job_id p.jobs ≡ some r)
      × (is_epoch l r ≡ true)
      × (callbacks k t ((cas_row p.now l t).set r) scope p.domain ≡ throws e)
      × (w ≡ record q { jobs = bump_mirror_attempts q.now l.job_id q.jobs })

  settle_lem :
      (env : Environment D) (k : ResolvedKind D) (l : Lease) (scope : Scope) (t : Transition)
      (p : World D) (jobs : Table) (r job : DurableJob) (a : Attempt D)
      → callbacks k t job scope p.domain ≡ a
      → find l.job_id p.jobs ≡ some r
      → is_epoch l r ≡ true
      → (cas_row p.now l t).set r ≡ job
      → find l.job_id jobs ≡ some job
      → TerminalSpec env k l scope t p (settle env l.job_id jobs job a p)
  unfolding settle roll_back
  settle_lem env k l scope t p jobs r job (commits n d) called found epoch set_r after =
      let (m, e) = callbacks-matched k t job scope p.domain d n called in
      (
        r,
        m,
        found,
        epoch,
        set_r,
        called ∙ ap (λ x. commits x d) e,
        mark_mirrored-find p.now l.job_id jobs job after,
      )
  settle_lem env k l scope t p jobs r job (throws e) called found epoch set_r after =
      (r, found, epoch, ap (λ x. callbacks k t x scope p.domain) set_r ∙ called, refl)

  -- A terminal transition either leaves the world to others, because the row is not running at the
  -- lease's epoch; or commits the job's end, the domain state of a mirror that matched a row, and
  -- the mark that says so, all three; or none of them, and then counts the failed mirror.
  pub run_terminal_transition-atomic :
      (env : Environment D) (k : ResolvedKind D) (l : Lease) (scope : Scope) (t : Transition)
      (w : World D)
      → TerminalSpec env k l scope t (pause env w) (run_terminal_transition env k l scope t w)
  unfolding run_terminal_transition
  run_terminal_transition-atomic env k l scope t w =
      let p = pause env w in
      let s = cas_row p.now l t in
      elim (Option-cases (update l.job_id s p.jobs).0) [
        | inl refused ↦
            rw (refused, run_terminal_transition)
              (
                refl,
                λ r found.
                    sym (cas_row-matches p.now l t r)
                    ∙ update-none l.job_id s p.jobs r refused found,
              )
        | inr (job, matched) ↦
            let (r, found, hit, set_r, after) =
              update-some l.job_id s p.jobs job (Fenced-origin (cas_row-Fenced p.now l t))
                matched in
            rw (matched, run_terminal_transition)
              (settle_lem env k l scope t p _ r job _ refl found
                (sym (cas_row-matches p.now l t r) ∙ hit) set_r after)
      ]

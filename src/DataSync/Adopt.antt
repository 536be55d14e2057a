-- ===== src/DataSync/Adopt.antt =====
-- One job for each run (lib/adopt-on-delivery.ts, `cancelDurableJobForRun`, `syncLockKey`).
use open_mercato_durable.Common.{
  ℕ, ◌≡◌, refl, ◌∙◌, ◌⊎◌, inl, inr, Bool, true, false, Option, none, some, ◌==◌, Bool-cases,
}
use open_mercato_durable.Types.{DurableJob, Scope}
use open_mercato_durable.Errors.{Failure}
use open_mercato_durable.Registry.Kinds.{ResolvedKind}
use open_mercato_durable.Registry.Register.{KindRegistry, get}
use open_mercato_durable.World.{World, Environment, pause}
use open_mercato_durable.Slice.Lawful.{IsLawful}
use open_mercato_durable.Service.Idempotent.{
  carries, Holds, AnsweredBy, holder_found, pause-Holds, pause-sent, start_and_enqueue-existing,
}
use open_mercato_durable.Service.Operate
use open_mercato_durable.DataSync.Runs.{RunStatus, SyncRun, SyncDomain}
use open_mercato_durable.DataSync.Engine.{Reply, replies, rejected, Core}
use open_mercato_durable.DataSync.Kind.{Direction}
use open_mercato_durable.DataSync.Start.{
  Names, run_key, kind_for, SyncJobPayload, Adoption, run_gone, already_finished, adopted,
  lookup_failed, is_finished, adoption_input, adopt_on_delivery, cancelled,
  cancel_durable_job_for_run,
}

-- The run has ended.
abbrev pub HasEnded : RunStatus → Type 0
HasEnded s = (s ≡ RunStatus.completed) ⊎ ((s ≡ RunStatus.failed) ⊎ (s ≡ RunStatus.cancelled))

-- What a delivery comes to for a run that has its job, by what the lookup of the run comes to: it
-- fails as the lookup does, the run is gone if there is none, it is over if the run has ended, and
-- otherwise the job is found.
abbrev pub AdoptsExisting : ℕ → ℕ → Reply (Option SyncRun) → Adoption → Type 0
AdoptsExisting tenant key found (lookup_failed e) = found ≡ rejected e
AdoptsExisting tenant key found run_gone = found ≡ replies none
AdoptsExisting tenant key found already_finished =
    (run : SyncRun) × (found ≡ replies (some run)) × HasEnded run.status
AdoptsExisting tenant key found (adopted r) =
    (run : SyncRun) × (found ≡ replies (some run))
    × (¬ (HasEnded run.status))
    × AnsweredBy tenant key r

-- A reply, by cases that keep the equation.
Reply-cases :
    (x : Reply (Option SyncRun))
    → ((e : Failure) × (x ≡ rejected e))
      ⊎ ((x ≡ replies none) ⊎ ((run : SyncRun) × (x ≡ replies (some run))))
Reply-cases (rejected e) = inl (e, refl)
Reply-cases (replies none) = inr (inl refl)
Reply-cases (replies (some run)) = inr (inr (run, refl))

is_finished-HasEnded : (s : RunStatus) → is_finished s ≡ true → HasEnded s
is_finished-HasEnded RunStatus.completed h = inl refl
is_finished-HasEnded RunStatus.failed h = inr (inl refl)
is_finished-HasEnded RunStatus.cancelled h = inr (inr refl)
is_finished-HasEnded RunStatus.pending h = cc
is_finished-HasEnded RunStatus.running h = cc
is_finished-HasEnded (RunStatus.other n) h = cc

HasEnded-is_finished : (s : RunStatus) → HasEnded s → is_finished s ≡ true
HasEnded-is_finished s (inl e) = rw e refl
HasEnded-is_finished s (inr (inl e)) = rw e refl
HasEnded-is_finished s (inr (inr e)) = rw e refl

not-HasEnded : (s : RunStatus) → is_finished s ≡ false → ¬ (HasEnded s)
not-HasEnded s h e = let over = HasEnded-is_finished s e in cc

module _ {C : Type 0} (env : Environment (SyncDomain C)) (lawful : IsLawful env) (n : Names) where
  -- A delivery on the host's queue for a run whose job is there, under a key that is not empty and
  -- of a kind that is known, publishes nothing; it fails only as the lookup of the run does,
  -- reports the run as gone only if the lookup finds none, as finished only if the run that it
  -- finds is completed, failed or cancelled, and for any other run it is answered with a job that
  -- carries the run's key, whatever the others do in between that is a run of statements of the
  -- protocol.
  pub adopt_on_delivery-existing :
      (transactional : Bool) (core : Core C) (kinds : KindRegistry (SyncDomain C))
      (direction : Direction) (k : ResolvedKind (SyncDomain C)) (id : ℕ) (p : SyncJobPayload)
      (w : World (SyncDomain C))
      → get (kind_for n direction) kinds ≡ some k
      → (run_key n p.run_id == 0) ≡ false
      → Holds p.scope.tenant_id (run_key n p.run_id) w.jobs
      → let o = adopt_on_delivery transactional env core kinds n direction id p w in
        AdoptsExisting p.scope.tenant_id
          (run_key n p.run_id)
          (core.get_run p.run_id p.scope (pause env w).domain)
          o.0
        × (o.1.sent ≡ w.sent)
  unfolding adopt_on_delivery
  adopt_on_delivery-existing transactional core kinds direction k id p w known truthy h =
      let u = pause env w in
      let key = run_key n p.run_id in
      elim (Reply-cases (core.get_run p.run_id p.scope u.domain)) [
        | inl (e, failed) ↦ rw (failed, adopt_on_delivery) (refl, pause-sent env lawful w)
        | inr (inl gone) ↦ rw (gone, adopt_on_delivery) (refl, pause-sent env lawful w)
        | inr (inr (run, found)) ↦
            rw (found, adopt_on_delivery)
              (elim (Bool-cases (is_finished run.status)) [
                | inl over ↦
                    rw over
                      ((run, refl, is_finished-HasEnded run.status over), pause-sent env lawful w)
                | inr open_still ↦
                    let f =
                      start_and_enqueue-existing env lawful p.scope
                        (adoption_input n direction p run) key refl truthy transactional kinds
                        n.default_queue id k u known
                        (pause-Holds env lawful p.scope.tenant_id key w h) in
                    rw open_still (
                      (run, refl, not-HasEnded run.status open_still, f.answered),
                      f.unsent ∙ pause-sent env lawful w,
                    )
              ])
      ]

  -- The cancellation of a run whose job is there is a cancellation of a job that carries the run's
  -- key, whatever the others do in between that is a run of statements of the protocol.
  pub cancel_durable_job_for_run-cancel :
      (kinds : KindRegistry (SyncDomain C)) (run_id : ℕ) (scope : Scope) (by : Option ℕ)
      (w : World (SyncDomain C))
      → Holds scope.tenant_id (run_key n run_id) w.jobs
      → (q : DurableJob) × (carries scope.tenant_id (run_key n run_id) q ≡ true)
        × (cancel_durable_job_for_run env kinds n run_id scope by w
            ≡ (cancelled, (Operate.cancel env kinds q.id scope by (pause env w)).1))
  unfolding cancel_durable_job_for_run
  cancel_durable_job_for_run-cancel kinds run_id scope by w h =
      let (q, found, hit) =
        holder_found scope (run_key n run_id) (pause env w).jobs
          (pause-Holds env lawful scope.tenant_id (run_key n run_id) w h) in
      (q, hit, rw (found, cancel_durable_job_for_run) refl)

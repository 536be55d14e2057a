-- ===== src/DataSync/Agree.antt =====
-- The job and its run after a terminal transaction of the two kinds (kinds/data-sync-run.ts).
use open_mercato_durable.Common.{
  ℕ, zero, suc, ◌≡◌, sym, ap, ◌∙◌, none, some, ◌&&◌, not, inl, inr, Bool-cases, is_null,
}
use open_mercato_durable.Errors.{Failure}
use open_mercato_durable.Types.{DurableJob, Scope}
use open_mercato_durable.Registry.Script.{Attempt, commits}
use open_mercato_durable.Registry.Kinds.{KindDefinition, ResolvedKind, resolve_kind}
use open_mercato_durable.World.{World}
use open_mercato_durable.Terminal.Transition.{
  Transition, run_cancel, mirrored, run_mirror, callbacks,
}
use open_mercato_durable.Slice.Ends.{IsHonest}
use open_mercato_durable.DataSync.Runs.{SyncDomain}
use open_mercato_durable.DataSync.Engine.{Core}
use open_mercato_durable.DataSync.Kind.{input_of, on_sync_transition, data_sync_kind}

pub resolve_kind-handlers :
    {D : Type 0} (d : KindDefinition D) (k : ResolvedKind D)
    → resolve_kind d ≡ some k
    → k.handlers ≡ d.handlers
unfolding resolve_kind
resolve_kind-handlers d k h =
    elim (Bool-cases (not (is_null d.handlers.on_transition) && is_null d.handlers.on_redrive)) [
      | inl refused ↦ cc (rw refused at h)
      | inr fine ↦ sym (ap (λ o. elim o [ some x ↦ x.handlers | none ↦ d.handlers ]) (rw fine at h))
    ]

module _ {C : Type 0} (core : Core C) (kind queue : ℕ) (k : ResolvedKind (SyncDomain C)) where
  -- The kind as the registry resolves it.
  abbrev pub IsSyncKind : Type 0
  IsSyncKind = resolve_kind (data_sync_kind core kind queue) ≡ some k

  pub sync_kind-on_transition : IsSyncKind → k.on_transition ≡ some on_sync_transition
  unfolding data_sync_kind
  sync_kind-on_transition is = ap (λ h. h.on_transition) (resolve_kind-handlers _ k is)

  pub sync_kind-on_cancel : IsSyncKind → k.on_cancel ≡ none
  unfolding data_sync_kind
  sync_kind-on_cancel is = ap (λ h. h.on_cancel) (resolve_kind-handlers _ k is)

  callbacks-sync_kind :
      IsSyncKind
      → (t : Transition) (job : DurableJob) (scope : Scope) (d : SyncDomain C)
      → callbacks k t job scope d ≡ mirrored job.id (on_sync_transition job scope d)
  unfolding callbacks run_cancel run_mirror
  callbacks-sync_kind is Transition.cancel job scope d =
      rw (sync_kind-on_cancel is, run_cancel) (rw (sync_kind-on_transition is, run_mirror))
  callbacks-sync_kind is (Transition.complete processed total) job scope d =
      rw (sync_kind-on_transition is, run_mirror)
  callbacks-sync_kind is (Transition.fail code class message) job scope d =
      rw (sync_kind-on_transition is, run_mirror)

  -- The run of a job, by the identity in the job's input.
  abbrev run_id_of : DurableJob → ℕ
  run_id_of job = (input_of job.input).run_id

  mirrored-throws :
      (id n : ℕ) (d : SyncDomain C) (e : Failure)
      → mirrored id (commits n d) ≡ Attempt.throws e
      → e ≡ Failure.mirror_mismatch id
  mirrored-throws id zero d e h = cc
  mirrored-throws id (suc n) d e h = cc

  on_sync_transition-throws :
      (job : DurableJob) (scope : Scope) (d : SyncDomain C) (e : Failure)
      → mirrored job.id (on_sync_transition job scope d) ≡ Attempt.throws e
      → e ≡ Failure.mirror_mismatch job.id
  unfolding on_sync_transition
  on_sync_transition-throws job scope d e h = mirrored-throws job.id _ _ e h

  -- The kind's own callbacks fail only by a mirror that matched no run.
  pub sync_kind-IsHonest : IsSyncKind → IsHonest k
  sync_kind-IsHonest is t job scope d v h =
      let e =
        on_sync_transition-throws job scope d _ (sym (callbacks-sync_kind is t job scope d) ∙ h) in
      cc e

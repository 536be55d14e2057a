-- ===== src/DataSync/Stopped.antt =====
-- What the wrapped cancel route comes to
-- (packages/data-sync-durable/src/modules/data_sync/api/runs/[id]/cancel.ts).
use open_mercato_durable.Common.{ℕ, ◌≡◌, refl, true, false, some, ◌==◌}
use open_mercato_durable.Types.{DurableJob}
use open_mercato_durable.Registry.Register.{KindRegistry}
use open_mercato_durable.World.{World, Environment, pause}
use open_mercato_durable.Slice.Lawful.{IsLawful}
use open_mercato_durable.Service.Idempotent.{carries, Holds, pause-Holds}
use open_mercato_durable.Service.Operate
use open_mercato_durable.DataSync.Runs.{SyncDomain}
use open_mercato_durable.DataSync.Start.{Names, run_key, cancelled}
use open_mercato_durable.DataSync.Adopt.{cancel_durable_job_for_run-cancel}
use open_mercato_durable.DataSync.Routes.{
  RouteServices, told, tenant_of, sub_of, scope_in, post_cancel,
}

module _ {C : Type 0} (env : Environment (SyncDomain C)) (lawful : IsLawful env) (n : Names)
    (services : RouteServices C) (kinds : KindRegistry (SyncDomain C)) where
  -- The cancel route as it leaves the host's own route.
  abbrev after_core : World (SyncDomain C) → World (SyncDomain C)
  after_core w = let p = pause env w in record p { domain = (services.core_post p.domain).1 }

  -- Once the host's route has answered 200, in a session and for a run that has its job, the cancel
  -- route gives back the host's response, says that the job is cancelled, and leaves what the
  -- service's cancellation of a job with the run's key leaves, whatever the others do in between
  -- that is a run of statements of the protocol.
  post_cancel-cancel :
      (w : World (SyncDomain C)) (tenant run_id : ℕ)
      → ((services.core_post (pause env w).domain).0.status == 200) ≡ true
      → services.has_container ≡ true
      → tenant_of services.get_auth ≡ some tenant
      → (run_id == 0) ≡ false
      → Holds tenant (run_key n run_id) w.jobs
      → (q : DurableJob) × (carries tenant (run_key n run_id) q ≡ true)
        × (post_cancel env services kinds n (some run_id) w ≡ (
          record {
            core = (services.core_post (pause env w).domain).0;
            durable_work = some (told cancelled);
          },
          (Operate.cancel env kinds q.id
              (scope_in tenant services.get_auth)
              (sub_of services.get_auth)
              (pause env (after_core w))).1,
        ))
  unfolding post_cancel
  post_cancel-cancel w tenant run_id done there signed given h =
      let u = after_core w in
      let (q, hit, e) =
        cancel_durable_job_for_run-cancel env lawful n kinds run_id
          (scope_in tenant services.get_auth) (sub_of services.get_auth) u
          (pause-Holds env lawful tenant (run_key n run_id) w h) in
      (q, hit, rw (done, there, signed, given, e, post_cancel) refl)

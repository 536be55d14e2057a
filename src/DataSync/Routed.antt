-- ===== src/DataSync/Routed.antt =====
-- The wrapped run route and the delivery on the host's queue come to one job for a run
-- (packages/data-sync-durable/src/modules/data_sync/api/run.ts, lib/adopt-on-delivery.ts).
use mathlib.Core.Option.{some-injective}
use open_mercato_durable.Common.{
  ℕ, ◌≡◌, sym, ap, subst, inl, inr, Bool, true, false, some, ◌==◌, Bool-cases, Option-cases,
}
use open_mercato_durable.Types.{Scope}
use open_mercato_durable.Protocol.Steps.{is_unique}
use open_mercato_durable.Protocol.SingleRunner.{Reach-is_unique}
use open_mercato_durable.Registry.Kinds.{ResolvedKind}
use open_mercato_durable.Registry.Register.{KindRegistry, get}
use open_mercato_durable.World.{World, Environment, pause}
use open_mercato_durable.Slice.Lawful.{IsLawful, pause-Reach}
use open_mercato_durable.Service.Start.{StartResult, start_and_enqueue}
use open_mercato_durable.Service.Idempotent.{Holds}
use open_mercato_durable.Service.Kept.{start_and_enqueue-Holds}
use open_mercato_durable.Service.Inserted.{has_job}
use open_mercato_durable.DataSync.Runs.{SyncRun, SyncDomain}
use open_mercato_durable.DataSync.Engine.{Core}
use open_mercato_durable.DataSync.Kind.{Direction}
use open_mercato_durable.DataSync.Start.{
  Names, run_key, kind_for, SyncJobPayload, adopt_on_delivery,
}
use open_mercato_durable.DataSync.Adopt.{AdoptsExisting, adopt_on_delivery-existing}
use open_mercato_durable.DataSync.Routes.{
  CoreResponse, created, RouteServices, tenant_of, run_in, scope_in, route_input, header_of,
  make_durable, post_run,
}

created-has_job : (r : StartResult) → header_of r ≡ created → has_job r ≡ true
created-has_job r h = elim (Bool-cases (has_job r)) [
  | inl has ↦ has
  | inr none_there ↦ cc (rw none_there at h)
]

module _ {C : Type 0} (env : Environment (SyncDomain C)) (lawful : IsLawful env) (n : Names)
    (transactional : Bool) (services : RouteServices C) (kinds : KindRegistry (SyncDomain C))
    (id : ℕ)
    (named : (run_id : ℕ) (scope : Scope) (d : SyncDomain C) (r : SyncRun)
      → run_in (services.get_run run_id scope d) ≡ some r
      → r.id ≡ run_id) where
  make_durable-Holds :
      (response : CoreResponse) (tenant : ℕ) (u : World (SyncDomain C))
      → is_unique u.jobs ≡ true
      → (make_durable transactional env services kinds n id response tenant u).0 ≡ created
      → Holds tenant
          (run_key n response.id)
          (make_durable transactional env services kinds n id response tenant u).1.jobs
  unfolding make_durable
  make_durable-Holds response tenant u unique h =
      let q = pause env u in
      let scope = scope_in tenant services.get_auth in
      elim (Option-cases (run_in (services.get_run response.id scope q.domain))) [
        | inl gone ↦ cc (rw (gone, make_durable) at h)
        | inr (run, found) ↦
            let i = route_input n response services.get_auth run in
            let keyed : i.idempotency_key ≡ some (run_key n response.id) =
              ap (λ x. some (run_key n x)) (named response.id scope q.domain run found) in
            rw (found, make_durable)
              (start_and_enqueue-Holds env lawful scope i (run_key n response.id) keyed
                transactional kinds n.default_queue id q
                (Reach-is_unique unique (pause-Reach env lawful u))
                (created-has_job
                  (start_and_enqueue transactional env kinds n.default_queue id i scope q).0
                  (rw (found, make_durable) at h)))
      ]

  -- The header says that the job is there: a job of the session's tenant carries the run's key.
  post_run-Holds :
      (w : World (SyncDomain C)) (tenant : ℕ)
      → is_unique w.jobs ≡ true
      → tenant_of services.get_auth ≡ some tenant
      → let o = post_run transactional env services kinds n id w in
        o.0.durable_work ≡ some created → Holds tenant (run_key n o.0.core.id) o.1.jobs
  unfolding post_run
  post_run-Holds w tenant unique signed h =
      let p = pause env w in
      let o = services.core_post p.domain in
      let u : World (SyncDomain C) = record p { domain = o.1 } in
      elim (Bool-cases (o.0.status == 201)) [
        | inr other ↦ cc (rw (other, post_run) at h)
        | inl made ↦ elim (Bool-cases services.has_container) [
          | inr without ↦ cc (rw (made, without, post_run) at h)
          | inl there ↦
              rw (made, there, signed, post_run)
                (make_durable-Holds o.0 tenant u (Reach-is_unique unique (pause-Reach env lawful w))
                  (some-injective _ _ (rw (made, there, signed, post_run) at h)))
        ]
      ]

  -- If the wrapped run route says that the job is created, then a later delivery of that run on
  -- the host's queue publishes nothing, and fails with the lookup of the run, or finds no run, or
  -- a run that has ended, or is answered with a job that carries the run's key: one job comes of
  -- the two. That holds whatever the others do in between that is a run of statements of the
  -- protocol, if the ids and keys of the table are unique at first, the kind is known, the key is
  -- not empty, and the lookup of a run answers with the run of that id.
  pub post_run-adopted :
      (w : World (SyncDomain C)) (core : Core C) (direction : Direction)
      (k : ResolvedKind (SyncDomain C)) (next_id : ℕ) (p : SyncJobPayload)
      → is_unique w.jobs ≡ true
      → tenant_of services.get_auth ≡ some p.scope.tenant_id
      → (post_run transactional env services kinds n id w).0.durable_work ≡ some created
      → p.run_id ≡ (post_run transactional env services kinds n id w).0.core.id
      → get (kind_for n direction) kinds ≡ some k
      → (run_key n p.run_id == 0) ≡ false
      → let v = (post_run transactional env services kinds n id w).1 in
        let o = adopt_on_delivery transactional env core kinds n direction next_id p v in
        AdoptsExisting p.scope.tenant_id
          (run_key n p.run_id)
          (core.get_run p.run_id p.scope (pause env v).domain)
          o.0
        × (o.1.sent ≡ v.sent)
  post_run-adopted w core direction k next_id p unique signed made same known truthy =
      let o = post_run transactional env services kinds n id w in
      adopt_on_delivery-existing env lawful n transactional core kinds direction k next_id p o.1
        known truthy
        (subst (λ x. Holds p.scope.tenant_id (run_key n x) o.1.jobs) (sym same)
          (post_run-Holds w p.scope.tenant_id unique signed made))

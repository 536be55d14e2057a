-- ===== src/DataSync/Routes.antt =====
-- The two routes of the host that are wrapped (packages/data-sync-durable/src/modules/data_sync,
-- api/run.ts and api/runs/[id]/cancel.ts). The host's own routes are parameters; the header that
-- gives a reason, for people to read, is left out.
use open_mercato_durable.Common.{ℕ, Bool, Option, none, some, ◌==◌, or_else, if◌then◌else◌}
use open_mercato_durable.Types.{Scope, StartJobInput}
use open_mercato_durable.Registry.Register.{KindRegistry}
use open_mercato_durable.World.{World, Environment, pause}
use open_mercato_durable.Service.Start.{StartResult, start_and_enqueue}
use open_mercato_durable.Service.Inserted.{has_job}
use open_mercato_durable.DataSync.Runs.{SyncRun, SyncDomain}
use open_mercato_durable.DataSync.Kind.{Direction, direction_text}
use open_mercato_durable.DataSync.Start.{
  Names, stream_key, sync_start, CancelOutcome, cancel_durable_job_for_run,
}

-- A call that may throw.
pub data Call {ℓ} (A : Type ℓ) : Type ℓ where
  answers : A → Call A
  raises : Call A

-- The session; an empty tenant is 0.
pub record Auth : Type 0 where
  pub tenant_id : Option ℕ
  pub org_id : Option ℕ
  pub sub : Option ℕ

-- The host's response: its status and, of a started run, what its body says.
pub record CoreResponse : Type 0 where
  pub status : ℕ
  pub id : ℕ
  pub progress_job_id : Option ℕ

pub data DurableHeader : Type 0 where
  created deferred : DurableHeader
  told : CancelOutcome → DurableHeader

-- The host's response, and the header that is set on it.
pub record RouteResponse : Type 0 where
  pub core : CoreResponse
  pub durable_work : Option DurableHeader

-- What a route calls: `core_post` is the host's route, and `has_container` is whether the container
-- and the services in it can be had.
pub record RouteServices (C : Type 0) : Type 0 where
  pub core_post : SyncDomain C → CoreResponse × SyncDomain C
  pub get_auth : Call (Option Auth)
  pub has_container : Bool
  pub get_run : ℕ → Scope → SyncDomain C → Call (Option SyncRun)

-- `auth?.tenantId`, where it is truthy.
abbrev pub tenant_in : Option Auth → Option ℕ
tenant_in none = none
tenant_in (some a) = elim a.tenant_id [ none ↦ none | some t ↦ if t == 0 then none else some t ]

abbrev pub tenant_of : Call (Option Auth) → Option ℕ
tenant_of raises = none
tenant_of (answers auth) = tenant_in auth

-- The parameter of a path; an empty one is 0.
abbrev pub truthy_id : Option ℕ → Option ℕ
truthy_id none = none
truthy_id (some id) = if id == 0 then none else some id

abbrev pub sub_of : Call (Option Auth) → Option ℕ
sub_of (answers (some a)) = a.sub
sub_of _ = none

abbrev pub org_of : Call (Option Auth) → Option ℕ
org_of (answers (some a)) = a.org_id
org_of _ = none

abbrev pub run_in : Call (Option SyncRun) → Option SyncRun
run_in raises = none
run_in (answers run) = run

abbrev pub scope_in : ℕ → Call (Option Auth) → Scope
scope_in tenant auth = record { tenant_id = tenant; organization_id = org_of auth }

abbrev pub direction_of : ℕ → Direction
direction_of text =
    if text == direction_text Direction.export then Direction.export else Direction.import

abbrev pub route_input : Names → CoreResponse → Call (Option Auth) → SyncRun → StartJobInput
route_input n response auth run =
    sync_start n
      (record { run_id = run.id; batch_size = 100; direction = direction_of run.direction })
      (stream_key n run.integration_id run.entity_type run.direction)
      (or_else run.progress_job_id response.progress_job_id) (sub_of auth)

-- A throw of the start is caught, and the queue's delivery adopts the run.
abbrev pub header_of : StartResult → DurableHeader
header_of r = if has_job r then created else deferred

module _ {C : Type 0} where
  -- `POST` of api/run.ts once the host's route has answered 201 and there is a session.
  unfoldable pub make_durable :
      Bool
      → Environment (SyncDomain C)
      → RouteServices C
      → KindRegistry (SyncDomain C)
      → Names
      → ℕ
      → CoreResponse
      → ℕ
      → World (SyncDomain C)
      → DurableHeader × World (SyncDomain C)
  unfolding start_and_enqueue
  make_durable transactional env services kinds n id response tenant u =
      let q = pause env u in
      let scope = scope_in tenant services.get_auth in
      elim (run_in (services.get_run response.id scope q.domain)) [
        | none ↦ (deferred, q)
        | some run ↦
            (let (r, v) =
                start_and_enqueue transactional env kinds n.default_queue id
                  (route_input n response services.get_auth run) scope q in
              (header_of r, v))
      ]

  unfoldable pub post_run :
      Bool
      → Environment (SyncDomain C)
      → RouteServices C
      → KindRegistry (SyncDomain C)
      → Names
      → ℕ
      → World (SyncDomain C)
      → RouteResponse × World (SyncDomain C)
  unfolding make_durable
  post_run transactional env services kinds n id w =
      let p = pause env w in
      let (response, d) = services.core_post p.domain in
      let u : World (SyncDomain C) = record p { domain = d } in
      if response.status == 201
      then elim (if services.has_container then tenant_of services.get_auth else none) [
        | none ↦ (record { core = response; durable_work = some deferred }, u)
        | some tenant ↦
            (let (header, v) =
                make_durable transactional env services kinds n id response tenant u in
              (record { core = response; durable_work = some header }, v))
      ]
      else (record { core = response; durable_work = none }, u)

  -- `POST` of api/runs/[id]/cancel.ts; `run_id` is the parameter of its path.
  unfoldable pub post_cancel :
      Environment (SyncDomain C)
      → RouteServices C
      → KindRegistry (SyncDomain C)
      → Names
      → Option ℕ
      → World (SyncDomain C)
      → RouteResponse × World (SyncDomain C)
  unfolding cancel_durable_job_for_run
  post_cancel env services kinds n run_id w =
      let p = pause env w in
      let (response, d) = services.core_post p.domain in
      let u : World (SyncDomain C) = record p { domain = d } in
      if response.status == 200
      then elim (if services.has_container then tenant_of services.get_auth else none) [
        | none ↦ (record { core = response; durable_work = some deferred }, u)
        | some tenant ↦ elim (truthy_id run_id) [
          | none ↦ (record { core = response; durable_work = some deferred }, u)
          | some id ↦
              (let (outcome, v) =
                  cancel_durable_job_for_run env kinds n id (scope_in tenant services.get_auth)
                    (sub_of services.get_auth) u in
                (record { core = response; durable_work = some (told outcome) }, v))
        ]
      ]
      else (record { core = response; durable_work = none }, u)

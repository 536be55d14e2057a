-- ===== src/Host/Operator.antt =====
-- The operator's routes (packages/durable-work/src/modules/durable_work, lib/route-helpers.ts and
-- api/jobs/[id]). The session, the container and the request's body are parameters. A date stays a
-- number, and what a response says for people to read is left out.
use open_mercato_durable.Common.{ℕ, Bool, false, Option, none, some, ◌==◌, if◌then◌else◌}
use open_mercato_durable.Types.{
  DurableJob, DurableJobStatus, Scope, Json, ErrorClass, ErrorCode, Message,
}
use open_mercato_durable.Store.Table.{is_cancelled}
use open_mercato_durable.Store.Create.{get_job}
use open_mercato_durable.Registry.Register.{KindRegistry}
use open_mercato_durable.World.{World, Environment, execute}
use open_mercato_durable.Service.Operate.{RedriveResult, redriven, failed, cancel, redrive}
use open_mercato_durable.Host.Screens.{is_redrivable, is_stuck}

-- The session; an empty tenant is 0.
pub record Session : Type 0 where
  pub tenant_id : Option ℕ
  pub org_id : Option ℕ
  pub sub : Option ℕ

pub record RouteContext : Type 0 where
  pub scope : Scope
  pub user_id : Option ℕ

-- What `getAuthFromRequest` answers, and whether the container has the service.
pub record Caller : Type 0 where
  pub auth : Option Session
  pub has_service : Bool

-- The wire shape: columns of the row, and two things that only the server can decide.
pub record JobDto : Type 0 where
  pub id : ℕ
  pub kind : ℕ
  pub status : DurableJobStatus
  pub input : Option Json
  pub checkpoint : Option Json
  pub subject : Option (ℕ × Option ℕ)
  pub lock_key : Option ℕ
  pub idempotency_key : Option ℕ
  pub processed_count : ℕ
  pub total_count : Option ℕ
  pub redrives : ℕ
  pub interruptions : ℕ
  pub consecutive_failures : ℕ
  pub mirror_attempts : ℕ
  pub lease_owner : Option ℕ
  pub lease_epoch : ℕ
  pub lease_expires_at : Option ℕ
  pub heartbeat_at : Option ℕ
  pub next_run_at : Option ℕ
  pub started_at : Option ℕ
  pub finished_at : Option ℕ
  pub parked_at : Option ℕ
  pub cancel_requested_at : Option ℕ
  pub error_class : Option ErrorClass
  pub error_code : Option ErrorCode
  pub error_message : Option Message
  pub created_at : ℕ
  pub updated_at : ℕ
  pub redrivable : Bool
  pub stuck : Bool

pub data Body : Type 0 where
  error : Body
  refusal : RedriveResult → Body
  shown : JobDto → Body
  stopping : JobDto → (cancelled : Bool) → Body

-- A response of a status, or a throw.
pub data RouteAnswer : Type 0 where
  responds : (status : ℕ) → Body → RouteAnswer
  throws : RouteAnswer

-- The body of a request to re-drive: what cannot be read counts as an empty object, and of an
-- object's `force` only whether it is `true` counts. Of the text `null` nothing can be read.
pub data RequestBody : Type 0 where
  unreadable null : RequestBody
  object : (force : Bool) → RequestBody

abbrev pub unauthorized : RouteAnswer
unauthorized = responds 401 error

pub data Resolved : Type 0 where
  resolved : RouteContext → Resolved
  response : RouteAnswer → Resolved

abbrev pub context_of : Session → ℕ → RouteContext
context_of a t = record {
  scope = record { tenant_id = t; organization_id = a.org_id };
  user_id = a.sub;
}

abbrev pub context_in : Bool → Session → Resolved
context_in has_service a = elim a.tenant_id [
  | none ↦ response unauthorized
  | some t ↦
      if t == 0
      then response unauthorized
      else (if has_service then resolved (context_of a t) else response throws)
]

unfoldable pub route_context : Caller → Resolved
route_context c = elim c.auth [ none ↦ response unauthorized | some a ↦ context_in c.has_service a ]

abbrev pub subject_of : DurableJob → Option (ℕ × Option ℕ)
subject_of r = elim r.subject_type [
  | none ↦ none
  | some t ↦ if t == 0 then none else some (t, r.subject_id)
]

-- `clock` is the process's `Date.now()`.
unfoldable pub to_dto : ℕ → DurableJob → JobDto
to_dto clock r = record {
  id = r.id;
  kind = r.kind;
  status = r.status;
  input = r.input;
  checkpoint = r.checkpoint;
  subject = subject_of r;
  lock_key = r.lock_key;
  idempotency_key = r.idempotency_key;
  processed_count = r.processed_count;
  total_count = r.total_count;
  redrives = r.redrives;
  interruptions = r.interruptions;
  consecutive_failures = r.consecutive_failures;
  mirror_attempts = r.mirror_attempts;
  lease_owner = r.lease_owner;
  lease_epoch = r.lease_epoch;
  lease_expires_at = r.lease_expires_at;
  heartbeat_at = r.heartbeat_at;
  next_run_at = r.next_run_at;
  started_at = r.started_at;
  finished_at = r.finished_at;
  parked_at = r.parked_at;
  cancel_requested_at = r.cancel_requested_at;
  error_class = r.error_class;
  error_code = r.error_code;
  error_message = r.error_message;
  created_at = r.created_at;
  updated_at = r.updated_at;
  redrivable = is_redrivable clock r;
  stuck = is_stuck clock r;
}

abbrev pub force_of : RequestBody → Option Bool
force_of unreadable = some false
force_of null = none
force_of (object force) = some force

module _ {D : Type 0} where
  abbrev pub show_found : Environment D → Option DurableJob × World D → RouteAnswer × World D
  show_found env (none, w) = (responds 404 error, w)
  show_found env (some r, w) = (responds 200 (shown (to_dto (env.worker_clock w.turn) r)), w)

  abbrev pub get_in : Environment D → RouteContext → ℕ → World D → RouteAnswer × World D
  get_in env ctx id w = show_found env (execute env (λ now t. (get_job id ctx.scope t, t)) w)

  unfoldable pub get_one : Environment D → Caller → ℕ → World D → RouteAnswer × World D
  unfolding route_context
  get_one env caller id w = elim (route_context caller) [
    | response a ↦ (a, w)
    | resolved ctx ↦ get_in env ctx id w
  ]

  abbrev pub stop_asked : Environment D → Option DurableJob × World D → RouteAnswer × World D
  stop_asked env (none, w) = (responds 404 error, w)
  stop_asked env (some r, w) =
      (responds 200 (stopping (to_dto (env.worker_clock w.turn) r) (is_cancelled r.status)), w)

  abbrev pub delete_in :
      Environment D → KindRegistry D → RouteContext → ℕ → World D → RouteAnswer × World D
  delete_in env kinds ctx id w = stop_asked env (cancel env kinds id ctx.scope ctx.user_id w)

  unfoldable pub delete_one :
      Environment D → KindRegistry D → Caller → ℕ → World D → RouteAnswer × World D
  unfolding route_context
  delete_one env kinds caller id w = elim (route_context caller) [
    | response a ↦ (a, w)
    | resolved ctx ↦ delete_in env kinds ctx id w
  ]

  abbrev pub redrive_answer : Environment D → RedriveResult × World D → RouteAnswer × World D
  redrive_answer env (redriven r, w) =
      (responds 200 (shown (to_dto (env.worker_clock w.turn) r)), w)
  redrive_answer env (failed e, w) = (throws, w)
  redrive_answer env (refused, w) = (responds 409 (refusal refused), w)

  abbrev pub redrive_read :
      Environment D
      → KindRegistry D
      → Option ℕ
      → ℕ
      → Scope
      → Option Bool
      → World D
      → RouteAnswer × World D
  redrive_read env kinds grace id scope none w = (throws, w)
  redrive_read env kinds grace id scope (some force) w =
      redrive_answer env (redrive env kinds grace id scope force w)

  unfoldable pub post_redrive :
      Environment D
      → KindRegistry D
      → Option ℕ
      → Caller
      → ℕ
      → RequestBody
      → World D
      → RouteAnswer × World D
  unfolding route_context
  post_redrive env kinds grace caller id body w = elim (route_context caller) [
    | response a ↦ (a, w)
    | resolved ctx ↦ redrive_read env kinds grace id ctx.scope (force_of body) w
  ]

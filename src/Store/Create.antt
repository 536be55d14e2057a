-- ===== src/Store/Create.antt =====
-- Creation, and the lookups that explain a refused one (store.ts, "Creation"), with the unique
-- indexes of core/schema.ts.
use open_mercato_durable.Common.{
  ℕ, Bool, false, ◌&&◌, ◌||◌, Option, none, some, [], ◌∷◌, ◌==◌, coalesce, not, if◌then◌else◌,
}
use open_mercato_durable.Types.{DurableJob, DurableJobStatus, Scope, StartJobInput}
use open_mercato_durable.Store.Table.{Table, is_live, in_scope, find}

-- The zero uuid.
abbrev pub no_org : ℕ
no_org = 0

-- A key that is `undefined`, null or the empty text (which is 0) is falsy.
abbrev pub is_truthy : Option ℕ → Bool
is_truthy none = false
is_truthy (some k) = not (k == 0)

-- Equality of two index keys: SQL's index holds no null key.
abbrev pub same_key : Option ℕ → Option ℕ → Bool
same_key (some a) (some b) = a == b
same_key _ _ = false

-- Two rows that the index `durable_work_jobs_one_live_per_lock_key` does not hold together.
abbrev pub lock_conflict : DurableJob → DurableJob → Bool
lock_conflict r q =
    (is_live r.status && is_live q.status)
    && (same_key r.lock_key q.lock_key
        && (r.tenant_id == q.tenant_id
            && coalesce r.organization_id no_org == coalesce q.organization_id no_org))

-- Two rows that the index `durable_work_jobs_idempotency_uq` does not hold together.
abbrev pub idempotency_conflict : DurableJob → DurableJob → Bool
idempotency_conflict r q =
    same_key r.idempotency_key q.idempotency_key && r.tenant_id == q.tenant_id

abbrev pub conflicts : DurableJob → DurableJob → Bool
conflicts r q = r.id == q.id || (idempotency_conflict r q || lock_conflict r q)

unfoldable pub any : (DurableJob → Bool) → Table → Bool
any p [] = false
any p (r ∷ t) = p r || any p t

unfoldable pub first : (DurableJob → Bool) → Table → Option DurableJob
first p [] = none
first p (r ∷ t) = if p r then some r else first p t

-- The row that the `insert` writes.
unfoldable pub new_job : ℕ → ℕ → Scope → StartJobInput → ℕ → DurableJob
new_job now id scope i queue_name = record {
  origin = record {
    id = id;
    tenant_id = scope.tenant_id;
    organization_id = scope.organization_id;
    kind = i.kind;
    created_by = i.created_by;
    created_at = now;
    input = i.input;
    meta = i.meta;
    idempotency_key = i.idempotency_key;
    lock_key = i.lock_key;
    subject_type = elim i.subject [ none ↦ none | some (type, subject) ↦ some type ];
    subject_id = elim i.subject [ none ↦ none | some (type, subject) ↦ some subject ];
    progress_job_id = i.progress_job_id;
  };
  status = DurableJobStatus.pending;
  updated_at = now;
  checkpoint = none;
  lease_owner = none;
  lease_epoch = 0;
  lease_expires_at = none;
  heartbeat_at = none;
  queue_name = some queue_name;
  queue_job_id = none;
  continuation_seq = 0;
  redrives = 0;
  next_run_at = none;
  pending_since = some now;
  redrives_since_commit = 0;
  consecutive_failures = 0;
  interruptions = 0;
  mirror_attempts = 0;
  last_committed_at = none;
  started_at = none;
  finished_at = none;
  parked_at = none;
  cancel_requested_at = none;
  cancelled_by = none;
  error_class = none;
  error_code = none;
  error_message = none;
  domain_mirrored_at = none;
  processed_count = 0;
  total_count = i.total_count;
}

-- `insert … on conflict do nothing returning`.
unfoldable pub try_insert : DurableJob → Table → Option DurableJob × Table
unfolding any
try_insert q t = if any (conflicts q) t then (none, t) else (some q, q ∷ t)

unfoldable pub find_by_idempotency_key : Scope → ℕ → Table → Option DurableJob
unfolding first
find_by_idempotency_key scope key =
    first (λ r. r.tenant_id == scope.tenant_id && same_key r.idempotency_key (some key))

unfoldable pub find_live_by_lock_key : Scope → ℕ → Table → Option DurableJob
unfolding first
find_live_by_lock_key scope key = first (λ r.
    same_key r.lock_key (some key)
    && (r.tenant_id == scope.tenant_id
        && (coalesce r.organization_id no_org == coalesce scope.organization_id no_org
            && is_live r.status)))

-- A tenant's row is read only in its scope.
unfoldable pub get_job : ℕ → Scope → Table → Option DurableJob
unfolding find
get_job id scope t = elim (find id t) [
  | none ↦ none
  | some r ↦ if in_scope scope r then some r else none
]

pub data InsertResult : Type 0 where
  created : DurableJob → InsertResult
  existing : DurableJob → InsertResult
  job_exists : InsertResult
  lock_key_held : ℕ → Option ℕ → InsertResult
  conflict_gone : InsertResult

abbrev id_of : Option DurableJob → Option ℕ
id_of none = none
id_of (some r) = some r.id

unfoldable pub explain_lock : Scope → StartJobInput → Table → InsertResult
unfolding find_live_by_lock_key
explain_lock scope i t = elim i.lock_key [
  | none ↦ conflict_gone
  | some key ↦
      if key == 0
      then conflict_gone
      else lock_key_held key (id_of (find_live_by_lock_key scope key t))
]

unfoldable pub explain_id : ℕ → Scope → StartJobInput → Table → InsertResult
unfolding explain_lock find
explain_id id scope i t = elim (find id t) [ none ↦ explain_lock scope i t | some r ↦ job_exists ]

-- What the loser of a conflict is told, from the table as the lookups see it.
unfoldable pub explain_conflict : ℕ → Scope → StartJobInput → Table → InsertResult
unfolding explain_id find_by_idempotency_key
explain_conflict id scope i t =
    if is_truthy i.idempotency_key
    then elim (find_by_idempotency_key scope (coalesce i.idempotency_key 0) t) [
      | some r ↦ existing r
      | none ↦ explain_id id scope i t
    ]
    else explain_id id scope i t

-- Other transactions may commit between the insert and the lookups: `later` is what they do.
unfoldable pub insert_job :
    ℕ → ℕ → Scope → StartJobInput → ℕ → (Table → Table) → Table → InsertResult × Table
unfolding try_insert new_job explain_conflict
insert_job now id scope i queue_name later t =
    let (row, t') = try_insert (new_job now id scope i queue_name) t in
    elim row [
      | some r ↦ (created r, t')
      | none ↦ (explain_conflict id scope i (later t'), later t')
    ]

-- ===== src/DataSync/Start.antt =====
-- How a run gets its job and how its cancellation reaches it (modules/data_sync/lib/start-run.ts and
-- adopt-on-delivery.ts; kinds/data-sync-run.ts: the keys, `cancelDurableJobForRun`).
use open_mercato_durable.Common.{
  ℕ, Bool, true, false, Option, none, some, List, [], ◌∷◌, ◌++◌, coalesce, if◌then◌else◌,
}
use open_mercato_durable.Types.{Scope, StartJobInput}
use open_mercato_durable.Errors.{Failure}
use open_mercato_durable.Store.Create.{find_by_idempotency_key}
use open_mercato_durable.Registry.Script.{Attempt, commits, throws}
use open_mercato_durable.Registry.Register.{KindRegistry}
use open_mercato_durable.World.{World, Environment, pause, execute}
use open_mercato_durable.Service.Start.{StartResult, start_and_enqueue}
use open_mercato_durable.Service.Operate
use open_mercato_durable.DataSync.Runs.{RunStatus, SyncRun, SyncDomain}
use open_mercato_durable.DataSync.Engine.{replies, rejected, Core}
use open_mercato_durable.DataSync.Kind.{Direction, SyncRunInput, to_json, direction_text}

-- The texts that numbers stand for: `chars` reads one, `name` gives the number of a text. The others
-- are constants: the two kinds, the subject's type and the default queue.
pub record Names : Type 0 where
  pub name : List ℕ → ℕ
  pub chars : ℕ → List ℕ
  pub import_kind : ℕ
  pub export_kind : ℕ
  pub run_subject : ℕ
  pub default_queue : ℕ

abbrev pub lock_prefix : List ℕ
lock_prefix = b'd' ∷ b'a' ∷ b't' ∷ b'a' ∷ b'_' ∷ b's' ∷ b'y' ∷ b'n' ∷ b'c' ∷ b':' ∷ []

unfoldable pub sync_lock_key : List ℕ → List ℕ → List ℕ → List ℕ
sync_lock_key integration entity direction =
    lock_prefix ++ (integration ++ b':' ∷ (entity ++ b':' ∷ direction))

abbrev pub run_prefix : List ℕ
run_prefix =
    b'd' ∷ b'a' ∷ b't' ∷ b'a' ∷ b'_' ∷ b's' ∷ b'y' ∷ b'n' ∷ b'c' ∷ b'.' ∷ b'r' ∷ b'u' ∷ b'n' ∷ b':'
    ∷ []

unfoldable pub sync_idempotency_key : List ℕ → List ℕ
sync_idempotency_key run_id = run_prefix ++ run_id

abbrev pub run_key : Names → ℕ → ℕ
run_key n run_id = n.name (sync_idempotency_key (n.chars run_id))

abbrev pub stream_key : Names → ℕ → ℕ → ℕ → ℕ
stream_key n integration entity direction =
    n.name (sync_lock_key (n.chars integration) (n.chars entity) (n.chars direction))

abbrev pub kind_for : Names → Direction → ℕ
kind_for n Direction.import = n.import_kind
kind_for n Direction.export = n.export_kind

-- What the two ways to a job have in common.
abbrev pub sync_start : Names → SyncRunInput → ℕ → Option ℕ → Option ℕ → StartJobInput
sync_start n i lock_key progress_job_id created_by = record {
  kind = kind_for n i.direction;
  input = some (to_json i);
  idempotency_key = some (run_key n i.run_id);
  lock_key = some lock_key;
  subject = some (n.run_subject, i.run_id);
  progress_job_id = progress_job_id;
  created_by = created_by;
  meta = none;
  total_count = none;
}

-- What arrives on the host's queue.
pub record SyncJobPayload : Type 0 where
  pub run_id : ℕ
  pub batch_size : Option ℕ
  pub scope : Scope
  pub user_id : Option ℕ

pub data Adoption : Type 0 where
  run_gone : Adoption
  already_finished : Adoption
  adopted : StartResult → Adoption
  lookup_failed : Failure → Adoption

abbrev pub is_finished : RunStatus → Bool
is_finished RunStatus.completed = true
is_finished RunStatus.failed = true
is_finished RunStatus.cancelled = true
is_finished _ = false

abbrev pub adoption_input : Names → Direction → SyncJobPayload → SyncRun → StartJobInput
adoption_input n direction p run =
    sync_start n
      (record { run_id = p.run_id; batch_size = coalesce p.batch_size 100; direction = direction })
      (stream_key n run.integration_id run.entity_type run.direction) none p.user_id

-- The fields of a start that the job takes; the host's `createJob` and `createRun` read the rest.
pub record StartRunInput : Type 0 where
  pub integration_id : ℕ
  pub entity_type : ℕ
  pub direction : Direction
  pub batch_size : Option ℕ

-- The host's services: what each commits is the new row's id.
pub record StartServices (C : Type 0) : Type 0 where
  pub create_job : StartRunInput → Scope → Option ℕ → SyncDomain C → Attempt (SyncDomain C)
  pub create_run : StartRunInput → ℕ → Scope → SyncDomain C → Attempt (SyncDomain C)

pub data StartedRun : Type 0 where
  not_started : Failure → StartedRun
  run_started : (run_id progress_job_id : ℕ) → StartResult → StartedRun

abbrev pub run_input : Names → StartRunInput → ℕ → ℕ → Option ℕ → StartJobInput
run_input n i run_id progress_job_id user_id =
    sync_start n
      (record { run_id = run_id; batch_size = coalesce i.batch_size 100; direction = i.direction })
      (stream_key n i.integration_id i.entity_type (direction_text i.direction))
      (some progress_job_id) user_id

pub data CancelOutcome : Type 0 where
  cancelled no_job : CancelOutcome

module _ {C : Type 0} where
  unfoldable pub adopt_on_delivery :
      Bool
      → Environment (SyncDomain C)
      → Core C
      → KindRegistry (SyncDomain C)
      → Names
      → Direction
      → ℕ
      → SyncJobPayload
      → World (SyncDomain C)
      → Adoption × World (SyncDomain C)
  unfolding start_and_enqueue
  adopt_on_delivery transactional env core kinds n direction id p w =
      let u = pause env w in
      elim (core.get_run p.run_id p.scope u.domain) [
        | rejected e ↦ (lookup_failed e, u)
        | replies found ↦ elim found [
          | none ↦ (run_gone, u)
          | some run ↦
              if is_finished run.status
              then (already_finished, u)
              else (let (r, v) =
                    start_and_enqueue transactional env kinds n.default_queue id
                      (adoption_input n direction p run) p.scope u in
                  (adopted r, v))
        ]
      ]

  unfoldable pub start_data_sync_run :
      Bool
      → Environment (SyncDomain C)
      → StartServices C
      → KindRegistry (SyncDomain C)
      → Names
      → ℕ
      → StartRunInput
      → Scope
      → Option ℕ
      → World (SyncDomain C)
      → StartedRun × World (SyncDomain C)
  unfolding start_and_enqueue
  start_data_sync_run transactional env services kinds n id i scope user_id w =
      let p = pause env w in
      elim (services.create_job i scope user_id p.domain) [
        | throws e ↦ (not_started e, p)
        | commits progress d ↦
            (let q = pause env (record p { domain = d }) in
              elim (services.create_run i progress scope q.domain) [
                | throws e ↦ (not_started e, q)
                | commits run_id d' ↦
                    (let (r, v) =
                        start_and_enqueue transactional env kinds n.default_queue id
                          (run_input n i run_id progress user_id) scope
                          (record q { domain = d' }) in
                      (run_started run_id progress r, v))
              ])
      ]

  unfoldable pub cancel_durable_job_for_run :
      Environment (SyncDomain C)
      → KindRegistry (SyncDomain C)
      → Names
      → ℕ
      → Scope
      → Option ℕ
      → World (SyncDomain C)
      → CancelOutcome × World (SyncDomain C)
  unfolding execute find_by_idempotency_key Operate.cancel
  cancel_durable_job_for_run env kinds n run_id scope by w =
      let (job, u) =
        execute env (λ now t. (find_by_idempotency_key scope (run_key n run_id) t, t)) w in
      elim job [
        | none ↦ (no_job, u)
        | some r ↦ (cancelled, (Operate.cancel env kinds r.id scope by u).1)
      ]

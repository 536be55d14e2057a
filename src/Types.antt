-- ===== src/Types.antt =====
-- packages/durable-work/src/core/types.ts and the table of core/schema.ts.
-- Uuids and texts that the code only compares are numbers; instants and durations are
-- milliseconds; SQL `int` and `bigint` counters are natural numbers without an upper bound.
use open_mercato_durable.Common.{ℕ, Bool, Option}

pub data DurableJobStatus : Type 0 where
  pending running completed failed cancelled : DurableJobStatus

pub data SliceOutcome : Type 0 where
  drained budget cancelled : SliceOutcome

pub data OrphanPolicy : Type 0 where
  redrive park : OrphanPolicy

pub data ErrorClass : Type 0 where
  transient terminal unrecoverable : ErrorClass

pub data SliceVerdict : Type 0 where
  unrecoverable retry_exhausted : SliceVerdict

pub data ParkReason : Type 0 where
  orphaned poison never_started no_handler : ParkReason

-- The texts of `error_code`: a slice's verdict, a park reason, or a code that a step's error bore.
pub data ErrorCode : Type 0 where
  verdict : SliceVerdict → ErrorCode
  parked : ParkReason → ErrorCode
  other : ℕ → ErrorCode

-- The texts of `error_message`: those that the mechanism writes itself, and a given one.
pub data Message : Type 0 where
  unknown_error no_handler_registered worker_stopped no_progress never_delivered : Message
  lease_lost_for : (job_id owner epoch : ℕ) → Message
  mirror_matched_none : (job_id : ℕ) → Message
  reopen_matched_none : (job_id : ℕ) → Message
  no_attempts_left : SliceVerdict → Message
  sync_run_failed : Message
  seam_broken : (run_id : ℕ) → Message
  given : ℕ → Message

-- A `jsonb` value, which the mechanism stores and never reads.
mutual
  pub data Json : Type 0 where
    null : Json
    bool : Bool → Json
    num : ℕ → Json
    text : ℕ → Json
    arr : Items → Json
    obj : Fields → Json

  pub data Items : Type 0 where
    nil : Items
    cons : Json → Items → Items

  pub data Fields : Type 0 where
    end : Fields
    field : ℕ → Json → Fields → Fields

pub record Scope : Type 0 where
  pub tenant_id : ℕ
  pub organization_id : Option ℕ

pub record Lease : Type 0 where
  pub job_id : ℕ
  pub owner : ℕ
  pub epoch : ℕ
  pub ttl_ms : ℕ

pub record Delivery : Type 0 where
  pub job_id : ℕ
  pub seq : ℕ
  pub redrives : ℕ

-- The columns that creation writes and no later statement changes.
pub record JobOrigin : Type 0 where
  pub id : ℕ
  pub tenant_id : ℕ
  pub organization_id : Option ℕ
  pub kind : ℕ
  pub created_by : Option ℕ
  pub created_at : ℕ
  pub input : Option Json
  pub meta : Option Json
  pub idempotency_key : Option ℕ
  pub lock_key : Option ℕ
  pub subject_type : Option ℕ
  pub subject_id : Option ℕ
  pub progress_job_id : Option ℕ

pub record DurableJob : Type 0 where
  pub origin : JobOrigin
  pub open origin use *
  pub status : DurableJobStatus
  pub updated_at : ℕ
  pub checkpoint : Option Json
  pub lease_owner : Option ℕ
  pub lease_epoch : ℕ
  pub lease_expires_at : Option ℕ
  pub heartbeat_at : Option ℕ
  pub queue_name : Option ℕ
  pub queue_job_id : Option ℕ
  pub continuation_seq : ℕ
  pub redrives : ℕ
  pub next_run_at : Option ℕ
  pub pending_since : Option ℕ
  pub redrives_since_commit : ℕ
  pub consecutive_failures : ℕ
  pub interruptions : ℕ
  pub mirror_attempts : ℕ
  pub last_committed_at : Option ℕ
  pub started_at : Option ℕ
  pub finished_at : Option ℕ
  pub parked_at : Option ℕ
  pub cancel_requested_at : Option ℕ
  pub cancelled_by : Option ℕ
  pub error_class : Option ErrorClass
  pub error_code : Option ErrorCode
  pub error_message : Option Message
  pub domain_mirrored_at : Option ℕ
  pub processed_count : ℕ
  pub total_count : Option ℕ

pub record StartJobInput : Type 0 where
  pub kind : ℕ
  pub input : Option Json
  pub idempotency_key : Option ℕ
  pub lock_key : Option ℕ
  pub subject : Option (ℕ × ℕ)
  pub progress_job_id : Option ℕ
  pub created_by : Option ℕ
  pub meta : Option Json
  pub total_count : Option ℕ

pub record LeaseSettings : Type 0 where
  pub ttl_ms : ℕ
  pub slice_budget_ms : ℕ
  pub pending_ttl_ms : ℕ

pub record BudgetSettings : Type 0 where
  pub max_redrives : ℕ
  pub max_consecutive_failures : ℕ
  pub poison_redrives_without_commit : ℕ

pub data BackoffType : Type 0 where
  exponential fixed : BackoffType

pub record Backoff : Type 0 where
  pub type : BackoffType
  pub delay_ms : ℕ
  pub max_delay_ms : ℕ

pub record RetrySettings : Type 0 where
  pub attempts : ℕ
  pub backoff : Backoff

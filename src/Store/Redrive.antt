-- ===== src/Store/Redrive.antt =====
-- The re-drive family, parking, and the record of an enqueue (store.ts, "The re-drive family").
use open_mercato_durable.Common.{
  ℕ, ◌+◌, Bool, true, false, ◌&&◌, ◌||◌, Option, none, some, coalesce, or_else, is_null, not,
  is_past, is_null_or_past, greatest,
}
use open_mercato_durable.Types.{
  Message, DurableJob, DurableJobStatus, Scope, ErrorClass, ErrorCode, SliceVerdict,
}
use open_mercato_durable.Store.Table.{
  Table, Statement, update, is_pending, is_running, is_failed, is_live, in_scope,
}

-- `error_code in ('unrecoverable','retry_exhausted')`, not true of a null.
abbrev pub is_verdict : Option ErrorCode → Bool
is_verdict (some (ErrorCode.verdict v)) = true
is_verdict _ = false

-- `error_code = 'unrecoverable'`, not true of a null.
abbrev pub is_unrecoverable_code : Option ErrorCode → Bool
is_unrecoverable_code (some (ErrorCode.verdict SliceVerdict.unrecoverable)) = true
is_unrecoverable_code _ = false

abbrev pub redrive_core : ℕ → DurableJob → DurableJob
redrive_core now r = record r {
  status = DurableJobStatus.pending;
  lease_owner = none;
  lease_epoch = r.lease_epoch + 1;
  lease_expires_at = some now;
  redrives = r.redrives + 1;
  pending_since = some now;
  updated_at = now;
}

unfoldable pub take_orphan_row : ℕ → ℕ → ℕ → ℕ → Statement
take_orphan_row now grace_ms pending_ttl_ms backoff_ms = record {
  matches = λ r.
      is_running r.status
      && (is_past r.lease_expires_at grace_ms now
          && (is_null_or_past r.next_run_at pending_ttl_ms now
              && (is_null r.cancel_requested_at && not (is_verdict r.error_code))));
  set = λ r.
      let c = redrive_core now r in
      record c {
        redrives_since_commit = r.redrives_since_commit + 1;
        next_run_at = some (now + backoff_ms);
      };
}

-- `greatest(pending_since, coalesce(next_run_at, pending_since)) < now() - ttl`
abbrev pub is_stale_pending : DurableJob → ℕ → ℕ → Bool
is_stale_pending r pending_ttl_ms now =
    is_past (greatest r.pending_since (or_else r.next_run_at r.pending_since)) pending_ttl_ms now

unfoldable pub redrive_pending_row : ℕ → ℕ → Statement
redrive_pending_row now pending_ttl_ms = record {
  matches = λ r.
      is_pending r.status
      && (is_null r.cancel_requested_at && is_stale_pending r pending_ttl_ms now);
  set = λ r.
      let c = redrive_core now r in
      record c { redrives_since_commit = r.redrives_since_commit + 1; next_run_at = some now };
}

unfoldable pub park_row : ℕ → ErrorCode → Option Message → Statement
park_row now reason message = record {
  matches = λ r. is_live r.status;
  set = λ r. record r {
    status = DurableJobStatus.failed;
    parked_at = some now;
    finished_at = some now;
    lease_owner = none;
    lease_expires_at = some now;
    next_run_at = none;
    pending_since = none;
    error_code = some reason;
    error_class = some (coalesce r.error_class ErrorClass.terminal);
    error_message = or_else message r.error_message;
    updated_at = now;
  };
}

unfoldable pub operator_redrive_row : ℕ → Scope → ℕ → ℕ → Bool → Statement
operator_redrive_row now scope grace_ms pending_ttl_ms force = record {
  matches = λ r.
      in_scope scope r
      && ((force || not (is_unrecoverable_code r.error_code))
          && (is_failed r.status
              || (is_running r.status
                  && (is_past r.lease_expires_at grace_ms now
                      && is_null_or_past r.next_run_at pending_ttl_ms now))));
  set = λ r.
      let c = redrive_core now r in
      record c {
        redrives_since_commit = 0;
        consecutive_failures = 0;
        mirror_attempts = 0;
        parked_at = none;
        error_code = none;
        error_class = none;
        finished_at = none;
        domain_mirrored_at = none;
        cancel_requested_at = none;
        cancelled_by = none;
        next_run_at = some now;
      };
}

unfoldable pub record_enqueue_row : ℕ → ℕ → Statement
record_enqueue_row queue_job_id queue_name = record {
  matches = λ r. true;
  set = λ r. record r { queue_job_id = some queue_job_id; queue_name = some queue_name };
}

unfoldable pub record_enqueue : ℕ → ℕ → ℕ → Table → Table
record_enqueue id queue_job_id queue_name t =
    (update id (record_enqueue_row queue_job_id queue_name) t).1

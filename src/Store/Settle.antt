-- ===== src/Store/Settle.antt =====
-- The statements that end a job, mirror it, and record a cancellation (store.ts, "Terminal
-- transitions" and "Cancellation").
use open_mercato_durable.Common.{
  ℕ, ◌+◌, true, ◌&&◌, Option, none, some, coalesce, or_else, is_null, not,
}
use open_mercato_durable.Types.{Message, DurableJobStatus, Scope, Lease, ErrorClass, ErrorCode}
use open_mercato_durable.Store.Table.{
  Table, Statement, update, is_pending, is_live, in_scope, is_epoch,
}

unfoldable pub complete_cas_row : ℕ → Lease → Option ℕ → Option ℕ → Statement
complete_cas_row now lease processed_count total_count = record {
  matches = is_epoch lease;
  set = λ r. record r {
    status = DurableJobStatus.completed;
    finished_at = some now;
    lease_owner = none;
    lease_expires_at = some now;
    next_run_at = none;
    error_class = none;
    error_code = none;
    error_message = none;
    processed_count = coalesce processed_count r.processed_count;
    total_count = or_else total_count r.total_count;
    updated_at = now;
  };
}

unfoldable pub fail_terminal_cas_row :
    ℕ → Lease → ErrorCode → ErrorClass → Option Message → Statement
fail_terminal_cas_row now lease code class message = record {
  matches = is_epoch lease;
  set = λ r. record r {
    status = DurableJobStatus.failed;
    finished_at = some now;
    lease_owner = none;
    lease_expires_at = some now;
    next_run_at = none;
    error_code = some code;
    error_class = some class;
    error_message = or_else message r.error_message;
    updated_at = now;
  };
}

unfoldable pub cancel_cas_row : ℕ → Lease → Statement
cancel_cas_row now lease = record {
  matches = is_epoch lease;
  set = λ r. record r {
    status = DurableJobStatus.cancelled;
    finished_at = some now;
    lease_owner = none;
    lease_expires_at = some now;
    next_run_at = none;
    updated_at = now;
  };
}

unfoldable pub mark_mirrored_row : ℕ → Statement
mark_mirrored_row now = record {
  matches = λ r. true;
  set = λ r. record r { domain_mirrored_at = some now };
}

unfoldable pub bump_mirror_attempts_row : ℕ → Statement
bump_mirror_attempts_row now = record {
  matches = λ r. true;
  set = λ r. record r { mirror_attempts = r.mirror_attempts + 1; updated_at = now };
}

unfoldable pub request_cancel_row : ℕ → Scope → Option ℕ → Statement
request_cancel_row now scope by = record {
  matches = λ r. in_scope scope r && is_live r.status;
  set = λ r. record r {
    cancel_requested_at = some (coalesce r.cancel_requested_at now);
    cancelled_by = or_else r.cancelled_by by;
    updated_at = now;
  };
}

unfoldable pub cancel_pending_row : ℕ → Statement
cancel_pending_row now = record {
  matches = λ r. is_pending r.status && not (is_null r.cancel_requested_at);
  set = λ r. record r {
    status = DurableJobStatus.cancelled;
    finished_at = some now;
    lease_owner = none;
    lease_expires_at = some now;
    next_run_at = none;
    pending_since = none;
    updated_at = now;
  };
}

unfoldable pub mark_mirrored : ℕ → ℕ → Table → Table
mark_mirrored now id t = (update id (mark_mirrored_row now) t).1

unfoldable pub bump_mirror_attempts : ℕ → ℕ → Table → Table
bump_mirror_attempts now id t = (update id (bump_mirror_attempts_row now) t).1

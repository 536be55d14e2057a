-- ===== src/Store/Lease.antt =====
-- The statements that take, extend, hand back and release a lease (store.ts, "The lease").
use open_mercato_durable.Common.{
  ℕ, ◌+◌, Bool, true, false, ◌&&◌, Option, none, some, leb, ◌==◌, if◌then◌else◌, coalesce,
  after_delay, is_null_or_past, is_null, not,
}
use open_mercato_durable.Types.{
  Message, DurableJob, DurableJobStatus, Scope, Lease, Delivery, Json, ErrorClass, ErrorCode,
  SliceVerdict,
}
use open_mercato_durable.Store.Table.{Table, Statement, update, find, is_live, in_scope, is_held}

unfoldable pub claim_row : ℕ → Scope → Delivery → ℕ → ℕ → Statement
claim_row now scope delivery owner ttl_ms = record {
  matches = λ r.
      in_scope scope r
      && (is_live r.status
          && ((r.continuation_seq == delivery.seq && r.redrives == delivery.redrives)
              && is_null_or_past r.lease_expires_at 0 now));
  set = λ r. record r {
    status = DurableJobStatus.running;
    lease_owner = some owner;
    lease_epoch = r.lease_epoch + 1;
    lease_expires_at = some (now + ttl_ms);
    heartbeat_at = some now;
    pending_since = none;
    next_run_at = none;
    started_at = some (coalesce r.started_at now);
    updated_at = now;
  };
}

-- `undefined` is `none`; a total of `some none` is the meaningful null.
pub record HeartbeatPatch : Type 0 where
  pub processed_count : Option ℕ
  pub total_count : Option (Option ℕ)
  pub committed : Bool

abbrev pub no_patch : HeartbeatPatch
no_patch = record { processed_count = none; total_count = none; committed = false }

unfoldable pub heartbeat_row : ℕ → Lease → HeartbeatPatch → Statement
heartbeat_row now lease patch = record {
  matches = is_held lease;
  set = λ r. record r {
    lease_expires_at = some (now + lease.ttl_ms);
    heartbeat_at = some now;
    processed_count = coalesce patch.processed_count r.processed_count;
    total_count = coalesce patch.total_count r.total_count;
    consecutive_failures = if patch.committed then 0 else r.consecutive_failures;
    redrives_since_commit = if patch.committed then 0 else r.redrives_since_commit;
    last_committed_at = if patch.committed then some now else r.last_committed_at;
  };
}

unfoldable pub write_checkpoint_row : ℕ → Lease → Option Json → HeartbeatPatch → Statement
write_checkpoint_row now lease checkpoint patch = record {
  matches = is_held lease;
  set = λ r. record r {
    checkpoint = checkpoint;
    lease_expires_at = some (now + lease.ttl_ms);
    heartbeat_at = some now;
    processed_count = coalesce patch.processed_count r.processed_count;
    total_count = coalesce patch.total_count r.total_count;
    consecutive_failures = 0;
    redrives_since_commit = 0;
    last_committed_at = some now;
    updated_at = now;
  };
}

unfoldable pub yield_slice_row : ℕ → Lease → Bool → Statement
yield_slice_row now lease interrupted = record {
  matches = is_held lease;
  set = λ r. record r {
    status = DurableJobStatus.pending;
    continuation_seq = r.continuation_seq + 1;
    interruptions = r.interruptions + (if interrupted then 1 else 0);
    lease_owner = none;
    lease_expires_at = some now;
    pending_since = some now;
    next_run_at = some now;
    updated_at = now;
  };
}

pub record SliceError : Type 0 where
  pub message : Message
  pub code : Option ErrorCode
  pub class : ErrorClass

abbrev pub is_unrecoverable : ErrorClass → Bool
is_unrecoverable ErrorClass.unrecoverable = true
is_unrecoverable _ = false

-- The `case` that decides `error_code` from the counter of the row that is being written.
abbrev pub failure_code : SliceError → ℕ → ℕ → Option ErrorCode
failure_code error failures limit =
    if is_unrecoverable error.class
    then some (ErrorCode.verdict SliceVerdict.unrecoverable)
    else if leb limit (failures + 1)
    then some (ErrorCode.verdict SliceVerdict.retry_exhausted)
    else error.code

unfoldable pub fail_slice_row : ℕ → Lease → SliceError → Option ℕ → ℕ → Statement
fail_slice_row now lease error next_attempt_delay_ms max_consecutive_failures = record {
  matches = is_held lease;
  set = λ r. record r {
    lease_owner = none;
    lease_expires_at = some now;
    next_run_at = after_delay now next_attempt_delay_ms;
    consecutive_failures = r.consecutive_failures + 1;
    error_class = some error.class;
    error_message = some error.message;
    error_code = failure_code error r.consecutive_failures max_consecutive_failures;
    updated_at = now;
  };
}

unfoldable pub release_lease_row : ℕ → Lease → Option ℕ → Statement
release_lease_row now lease next_attempt_delay_ms = record {
  matches = is_held lease;
  set = λ r. record r {
    lease_owner = none;
    lease_expires_at = some now;
    next_run_at = after_delay now next_attempt_delay_ms;
    updated_at = now;
  };
}

unfoldable pub claim : ℕ → ℕ → Scope → Delivery → ℕ → ℕ → Table → Option DurableJob × Table
claim now id scope delivery owner ttl_ms = update id (claim_row now scope delivery owner ttl_ms)

-- The first component says whether a cancellation was requested, and is `none` when the lease is
-- gone.
unfoldable pub heartbeat : ℕ → Lease → HeartbeatPatch → Table → Option Bool × Table
heartbeat now lease patch t =
    let (row, t') = update lease.job_id (heartbeat_row now lease patch) t in
    (elim row [ none ↦ none | some r ↦ some (not (is_null r.cancel_requested_at)) ], t')

unfoldable pub assert_lease : Lease → Table → Bool
assert_lease lease t = elim (find lease.job_id t) [ none ↦ false | some r ↦ is_held lease r ]

unfoldable pub write_checkpoint : ℕ → Lease → Option Json → HeartbeatPatch → Table → Bool × Table
write_checkpoint now lease checkpoint patch t =
    let (row, t') = update lease.job_id (write_checkpoint_row now lease checkpoint patch) t in
    (not (is_null row), t')

-- The next delivery's `seq` and `redrives`.
unfoldable pub yield_slice : ℕ → Lease → Bool → Table → Option (ℕ × ℕ) × Table
yield_slice now lease interrupted t =
    let (row, t') = update lease.job_id (yield_slice_row now lease interrupted) t in
    (elim row [ none ↦ none | some r ↦ some (r.continuation_seq, r.redrives) ], t')

abbrev pub verdict_of : Option ErrorCode → Option SliceVerdict
verdict_of (some (ErrorCode.verdict v)) = some v
verdict_of _ = none

-- The failures counted so far, and the verdict that the statement minted.
unfoldable pub fail_slice :
    ℕ → Lease → SliceError → Option ℕ → ℕ → Table → Option (ℕ × Option SliceVerdict) × Table
fail_slice now lease error next_attempt_delay_ms max_consecutive_failures t =
    let (row, t') =
      update lease.job_id
        (fail_slice_row now lease error next_attempt_delay_ms max_consecutive_failures) t in
    (elim row [ none ↦ none | some r ↦ some (r.consecutive_failures, verdict_of r.error_code) ], t')

unfoldable pub release_lease : ℕ → Lease → Option ℕ → Table → Option DurableJob × Table
release_lease now lease next_attempt_delay_ms =
    update lease.job_id (release_lease_row now lease next_attempt_delay_ms)

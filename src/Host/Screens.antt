-- ===== src/Host/Screens.antt =====
-- What the operator's screen says of a job (packages/durable-work/src/modules/durable_work/lib,
-- route-helpers.ts), on the process's clock, beside the statement that a re-drive runs on the
-- database's.
use open_mercato_durable.Common.{
  ℕ, ◌+◌, ◌≤◌, ◌≡◌, sym, ◌∙◌, Bool, true, false, ◌&&◌, ◌||◌, not, is_past, is_null_or_past, arith,
  &&-split, refl, Option, none, some,
}
use mathlib.Core.Bool.{and_assoc}
use open_mercato_durable.Types.{DurableJob, DurableJobStatus, Scope}
use open_mercato_durable.Store.Table.{in_scope, is_running, is_failed, is_completed, is_cancelled}
use open_mercato_durable.Store.Redrive.{operator_redrive_row, is_unrecoverable_code}

unfoldable pub is_redrivable : ℕ → DurableJob → Bool
is_redrivable clock r =
    not (is_completed r.status || is_cancelled r.status)
    && (is_failed r.status || (is_running r.status && is_past r.lease_expires_at 0 clock))

unfoldable pub is_stuck : ℕ → DurableJob → Bool
is_stuck clock r =
    is_running r.status
    && (is_past r.lease_expires_at 20000 clock && is_null_or_past r.next_run_at 900000 clock)

-- A lease that has expired by the grace on the database's clock has expired on a clock that is behind
-- it by the grace at most.
past_expired :
    (t : Option ℕ) (grace now clock : ℕ)
    → now ≤ clock + grace
    → is_past t grace now ≡ true
    → is_past t 0 clock ≡ true
past_expired none grace now clock near h = cc
past_expired (some t) grace now clock near h = ground arith

is_past_mono : (t : Option ℕ) (d m n : ℕ) → m ≤ n → is_past t d m ≡ true → is_past t d n ≡ true
is_past_mono none d m n le h = cc
is_past_mono (some t) d m n le h = ground arith

is_null_or_past_mono :
    (t : Option ℕ) (d m n : ℕ) → m ≤ n → is_null_or_past t d m ≡ true → is_null_or_past t d n ≡ true
is_null_or_past_mono none d m n le h = refl
is_null_or_past_mono (some t) d m n le h = ground arith

is_stuck_mono : (m n : ℕ) (r : DurableJob) → m ≤ n → is_stuck m r ≡ true → is_stuck n r ≡ true
unfolding is_stuck
is_stuck_mono m n r le h =
    let (running, rest) = &&-split (is_running r.status) _ h in
    let (expired, due) = &&-split (is_past r.lease_expires_at 20000 m) _ rest in
    rw
      (
        running,
        is_past_mono r.lease_expires_at 20000 m n le expired,
        is_null_or_past_mono r.next_run_at 900000 m n le due,
      )
      refl

shown :
    (s : DurableJobStatus) (lease : Option ℕ) (due : Bool) (now clock grace : ℕ)
    → now ≤ clock + grace
    → (is_failed s || (is_running s && (is_past lease grace now && due))) ≡ true
    → (not (is_completed s || is_cancelled s)
        && (is_failed s || (is_running s && is_past lease 0 clock)))
      ≡ true
shown DurableJobStatus.pending lease due now clock grace near h = cc
shown DurableJobStatus.running lease due now clock grace near h =
    past_expired lease grace now clock near (&&-split (is_past lease grace now) due h).0
shown DurableJobStatus.completed lease due now clock grace near h = cc
shown DurableJobStatus.failed lease due now clock grace near h = refl
shown DurableJobStatus.cancelled lease due now clock grace near h = cc

-- What the re-drive asks beside the row's state: the scope, and that an unrecoverable job is forced.
abbrev pub is_allowed : Scope → Bool → DurableJob → Bool
is_allowed scope force r = in_scope scope r && (force || not (is_unrecoverable_code r.error_code))

default_redrive :
    (now : ℕ) (scope : Scope) (force : Bool) (r : DurableJob)
    → is_failed r.status ≡ false
    → (operator_redrive_row now scope 20000 900000 force).matches r
      ≡ (is_allowed scope force r && is_stuck now r)
unfolding operator_redrive_row is_stuck
default_redrive now scope force r h = rw h (
    sym (
      and_assoc (in_scope scope r) (force || not (is_unrecoverable_code r.error_code)) (
        is_running r.status
        && (is_past r.lease_expires_at 20000 now && is_null_or_past r.next_run_at 900000 now))))

-- The screen is on the process's clock and the re-drive on the database's. A job that a re-drive
-- takes, forced or not, is shown as redrivable, if the process's clock is not behind the database's
-- by more than the re-drive's grace. With the service's default grace and tolerance, and of the
-- jobs that have not failed, a job that is shown as stuck is taken if the re-drive is allowed and
-- the process's clock is not ahead; and a job that is taken is allowed and shown as stuck, if the
-- process's clock is not behind.
pub operator_redrive-screen :
    (now clock grace ttl : ℕ) (scope : Scope) (force : Bool) (r : DurableJob)
    → (now ≤ clock + grace
        → (operator_redrive_row now scope grace ttl force).matches r ≡ true
        → is_redrivable clock r ≡ true)
      × (is_failed r.status ≡ false
          → clock ≤ now
          → (is_allowed scope force r && is_stuck clock r) ≡ true
          → (operator_redrive_row now scope 20000 900000 force).matches r ≡ true)
      × (is_failed r.status ≡ false
          → now ≤ clock
          → (operator_redrive_row now scope 20000 900000 force).matches r ≡ true
          → (is_allowed scope force r && is_stuck clock r) ≡ true)
operator_redrive-screen now clock grace ttl scope force r = (
  λ near h.
      unfold operator_redrive_row is_redrivable in
      let (here, rest) = &&-split (in_scope scope r) _ h in
      let (allowed, taken) = &&-split (force || not (is_unrecoverable_code r.error_code)) _ rest in
      shown r.status r.lease_expires_at _ now clock grace near taken,
  λ unfailed le h.
      let (allowed, stuck) = &&-split (is_allowed scope force r) (is_stuck clock r) h in
      default_redrive now scope force r unfailed
      ∙ rw (allowed, is_stuck_mono clock now r le stuck) refl,
  λ unfailed le h.
      let (allowed, stuck) =
        &&-split (is_allowed scope force r) (is_stuck now r)
          (sym (default_redrive now scope force r unfailed) ∙ h) in
      rw (allowed, is_stuck_mono now clock r le stuck) refl,
)

-- ===== src/Registry/Kinds.antt =====
-- Kind definitions and their effective settings (core/registry.ts).
use open_mercato_durable.Common.{ℕ, ◌&&◌, not, Option, none, some, coalesce, is_null, if◌then◌else◌}
use open_mercato_durable.Types.{
  DurableJob, Scope, ErrorClass, OrphanPolicy, LeaseSettings, BudgetSettings, RetrySettings,
  BackoffType,
}
use open_mercato_durable.Errors.{Failure}
use open_mercato_durable.Registry.Script.{Script, SliceContext, Attempt}

-- The callbacks. `step_id` is the identity of the function `step`. A mirror commits the number of
-- domain rows that it matched. An after-commit hook may throw after it has had its effect, and
-- what it throws is dropped, so it is only an effect.
pub record Handlers (D : Type 0) : Type 0 where
  pub step_id : ℕ
  pub step : SliceContext → Script D
  pub on_transition : Option (DurableJob → Scope → D → Attempt D)
  pub on_redrive : Option (DurableJob → Scope → D → Attempt D)
  pub on_cancel : Option (DurableJob → Scope → D → Attempt D)
  pub on_after_transition : Option (DurableJob → Scope → D → D)
  pub on_after_redrive : Option (DurableJob → Scope → D → D)
  pub classify : Option (Failure → Option ErrorClass)

pub record KindDefinition (D : Type 0) : Type 0 where
  pub kind : ℕ
  pub queue : ℕ
  pub concurrency : Option ℕ
  pub ttl_ms : Option ℕ
  pub slice_budget_ms : Option ℕ
  pub pending_ttl_ms : Option ℕ
  pub max_redrives : Option ℕ
  pub max_consecutive_failures : Option ℕ
  pub poison_redrives_without_commit : Option ℕ
  pub attempts : Option ℕ
  pub backoff_type : Option BackoffType
  pub delay_ms : Option ℕ
  pub max_delay_ms : Option ℕ
  pub orphan_policy : Option OrphanPolicy
  pub handlers : Handlers D

pub record ResolvedKind (D : Type 0) : Type 0 where
  pub kind : ℕ
  pub queue : ℕ
  pub concurrency : ℕ
  pub lease : LeaseSettings
  pub budget : BudgetSettings
  pub retry : RetrySettings
  pub orphan_policy : OrphanPolicy
  pub handlers : Handlers D
  pub open handlers use *

abbrev pub default_lease : LeaseSettings
default_lease = record { ttl_ms = 60000; slice_budget_ms = 300000; pending_ttl_ms = 900000 }

abbrev pub default_budget : BudgetSettings
default_budget = record {
  max_redrives = 10;
  max_consecutive_failures = 5;
  poison_redrives_without_commit = 3;
}

abbrev pub default_retry : RetrySettings
default_retry = record {
  attempts = 5;
  backoff = record { type = BackoffType.exponential; delay_ms = 5000; max_delay_ms = 300000 };
}

-- `none` is the throw: a mirror that has no way back.
unfoldable pub resolve_kind : {D : Type 0} → KindDefinition D → Option (ResolvedKind D)
resolve_kind d =
    if not (is_null d.handlers.on_transition) && is_null d.handlers.on_redrive
    then none
    else some (record {
      kind = d.kind;
      queue = d.queue;
      concurrency = coalesce d.concurrency 1;
      lease = record {
        ttl_ms = coalesce d.ttl_ms default_lease.ttl_ms;
        slice_budget_ms = coalesce d.slice_budget_ms default_lease.slice_budget_ms;
        pending_ttl_ms = coalesce d.pending_ttl_ms default_lease.pending_ttl_ms;
      };
      budget = record {
        max_redrives = coalesce d.max_redrives default_budget.max_redrives;
        max_consecutive_failures =
            coalesce d.max_consecutive_failures default_budget.max_consecutive_failures;
        poison_redrives_without_commit =
            coalesce d.poison_redrives_without_commit default_budget.poison_redrives_without_commit;
      };
      retry = record {
        attempts = coalesce d.attempts default_retry.attempts;
        backoff = record {
          type = coalesce d.backoff_type default_retry.backoff.type;
          delay_ms = coalesce d.delay_ms default_retry.backoff.delay_ms;
          max_delay_ms = coalesce d.max_delay_ms default_retry.backoff.max_delay_ms;
        };
      };
      orphan_policy = coalesce d.orphan_policy OrphanPolicy.park;
      handlers = d.handlers;
    })

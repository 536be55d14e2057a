-- ===== src/Tests/Brokers.antt =====
-- The adapters of pg-boss and BullMQ at concrete inputs.
use open_mercato_durable.Common.{
  ℕ, ◌-◌, ◌*◌, ◌^◌, ◌≤◌, ◌≡◌, refl, inl, inr, ◌⊎◌, false, not, none, some, List, [], ◌∷◌, ◌++◌,
  arith,
}
use open_mercato_durable.Types.{RetrySettings, BackoffType}
use open_mercato_durable.Registry.Delays.{next_attempt_delay_ms}
use open_mercato_durable.Worker.Bindings.{bindings, select_kinds}
use open_mercato_durable.Transport.Memory.Events.{HandlerEnd}
use open_mercato_durable.Transport.PgBoss.Adapter.{Boss, Handling, hand_back, run_batch}
use open_mercato_durable.Transport.PgBoss.Created.{enqueues, binds, creations, use_adapter}
use open_mercato_durable.Transport.PgBoss.Started.{fresh_adapter, bind_each, bindings-creations}
use open_mercato_durable.Transport.PgBoss.Batch.{
  called, has_throw, all_hand_backs, run_batch-called,
}
use open_mercato_durable.Transport.Bullmq.Adapter.{add_options}
use open_mercato_durable.Transport.Bullmq.Waits.{Schedule, add_options-wait}
use open_mercato_durable.Tests.Data.{counting_kind, first_delivery}
use open_mercato_durable.Tests.Worker.{wider_kind, defaults}

abbrev boss : Boss
boss = record { sent_id = λ n. some n; job_state = λ queue id n. none }

abbrev retry_thrice : RetrySettings
retry_thrice = record {
  attempts = 3;
  backoff = record { type = BackoffType.exponential; delay_ms = 1500; max_delay_ms = 2000 };
}

-- A delivery that comes before the worker: the queue has no expiry of its own.
early_test :
    creations 4
      (use_adapter boss
        (enqueues 4 (first_delivery 1) retry_thrice none false
          ∷ binds (record { queue = 4; concurrency = 1; active_timeout_ms = 100 })
          ∷ [])
        fresh_adapter).calls
    ≡ none ∷ []
unfolding use_adapter creations
early_test = refl

bindings-creations_example :
    (e : ℕ) × (creations 4
        (use_adapter boss
          (bind_each (bindings defaults (counting_kind ∷ wider_kind ∷ []))
            ++ enqueues 4 (first_delivery 1) retry_thrice none false ∷ [])
          fresh_adapter).calls
      ≡ some e ∷ [])
    × (wider_kind.lease.slice_budget_ms * 2 ≤ e * 1000)
unfolding select_kinds
bindings-creations_example =
    bindings-creations boss defaults (counting_kind ∷ wider_kind ∷ []) wider_kind
      (enqueues 4 (first_delivery 1) retry_thrice none false ∷ []) (inr (inl refl)) (omega arith)

abbrev batch : List Handling
batch =
    record { hand_backs = (first_delivery 1, none) ∷ []; end = HandlerEnd.returns }
    ∷ record { hand_backs = []; end = HandlerEnd.throws }
    ∷ record { hand_backs = (first_delivery 2, none) ∷ []; end = HandlerEnd.returns }
    ∷ []

run_batch-called_example :
    run_batch boss 4 batch fresh_adapter
    ≡ (not (has_throw batch), hand_back boss 4 (all_hand_backs (called batch)) fresh_adapter)
run_batch-called_example = run_batch-called boss 4 batch fresh_adapter

abbrev doubling : Schedule
doubling = record {
  wait = λ b attempt. elim b.type [
    | BackoffType.exponential ↦ b.delay * 2 ^ (attempt - 1)
    | BackoffType.fixed ↦ b.delay
  ];
  wait_fixed = λ delay attempt. refl;
  wait_exponential = λ delay attempt. refl;
}

add_options-wait_example :
    (ms : ℕ) × (next_attempt_delay_ms retry_thrice 2 ≡ some ms)
    × (ms ≤ doubling.wait (add_options (first_delivery 1) retry_thrice none).backoff 2)
    × ((doubling.wait (add_options (first_delivery 1) retry_thrice none).backoff 2 ≡ ms)
        ⊎ (ms ≡ 2000))
add_options-wait_example =
    add_options-wait doubling (first_delivery 1) retry_thrice none 2 (omega arith)

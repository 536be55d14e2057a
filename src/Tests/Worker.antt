-- ===== src/Tests/Worker.antt =====
-- The queues that a worker binds for two kinds.
use open_mercato_durable.Common.{◌≡◌, refl, inl, inr, none, [], ◌∷◌}
use open_mercato_durable.Registry.Kinds.{ResolvedKind}
use open_mercato_durable.Worker.Bindings.{WorkerOptions, bindings, select_kinds}
use open_mercato_durable.Worker.Covers.{Serves, bindings-Serves}
use open_mercato_durable.Tests.Data.{counting_kind}
use open_mercato_durable.Common.{ℕ}

abbrev pub wider_kind : ResolvedKind ℕ
wider_kind = record counting_kind { kind = 6; concurrency = 3 }

abbrev pub defaults : WorkerOptions
defaults = record { kinds = none; concurrency = none; tick_ms = none; reconcile_queue = 9 }

bindings_test :
    bindings defaults (counting_kind ∷ wider_kind ∷ [])
    ≡ record { queue = 4; concurrency = 3; active_timeout_ms = 100 }
      ∷ record { queue = 9; concurrency = 1; active_timeout_ms = 120000 }
      ∷ []
unfolding bindings
bindings_test = refl

bindings-Serves_example :
    Serves none (bindings defaults (counting_kind ∷ wider_kind ∷ [])) wider_kind
unfolding select_kinds
bindings-Serves_example =
    bindings-Serves defaults (counting_kind ∷ wider_kind ∷ []) wider_kind (inr (inl refl))

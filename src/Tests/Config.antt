-- ===== src/Tests/Config.antt =====
-- A host in production that names its transport in its own spelling.
use open_mercato_durable.Common.{◌≡◌, refl, true, none, some, [], ◌∷◌}
use open_mercato_durable.Worker.Bindings.{tick_binding}
use open_mercato_durable.Host.Config.{
  ProcessEnv, DurableWorkConfig, whole, negative, read_config, pgboss_transport, configure,
}
use open_mercato_durable.Host.Configured.{IsUsable, configure-IsUsable}
use open_mercato_durable.Tests.Worker.{defaults}

abbrev production : ProcessEnv
production = record {
  durable_work_transport = some (b' ' ∷ b'P' ∷ b'g' ∷ b'B' ∷ b'o' ∷ b's' ∷ b's' ∷ 10 ∷ []);
  durable_work_redis_url = none;
  queue_redis_url = none;
  redis_url = none;
  database_url = some 7;
  durable_work_pgboss_schema = none;
  durable_work_pgboss_max = some (whole 12);
  durable_work_tick_ms = some (whole 0);
  durable_work_drain_timeout_ms = some negative;
  durable_work_grace_ms = none;
  is_production = true;
}

configure_test : configure 3 production none ≡ some (pgboss_transport 7 3 12)
unfolding configure
configure_test = refl

configure-IsUsable_example :
    IsUsable true (pgboss_transport 7 3 12)
    × ((c : DurableWorkConfig) × (read_config 3 production ≡ some c)
        × (tick_binding (record defaults { tick_ms = some c.tick_ms })
            ≡ record { queue = 9; concurrency = 1; active_timeout_ms = 120000 } ∷ []))
configure-IsUsable_example =
    configure-IsUsable 3 production none (pgboss_transport 7 3 12) defaults configure_test

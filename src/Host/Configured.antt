-- ===== src/Host/Configured.antt =====
-- What a configured transport can be relied on for (packages/durable-work/src/om/config.ts).
use mathlib.Core.Option.{some-injective}
use open_mercato_durable.Common.{
  ℕ, ◌<◌, ◌≡◌, refl, subst, inl, inr, ◌⊎◌, Bool, false, Option, none, some, [], ◌∷◌, ◌==◌, coalesce,
  Bool-cases, Option-cases, arith,
}
use open_mercato_durable.Worker.Bindings.{WorkerOptions, tick_binding}
use open_mercato_durable.Host.Config.{
  TransportName, memory, bullmq, pgboss, NumberValue, not_finite, negative, whole, ProcessEnv,
  DurableWorkConfig, num, normalise, transport_named, pgboss_text, read_config, supplied,
  options_from_url, BuiltTransport, memory_transport, bullmq_transport, pgboss_transport, truthy,
  create_transport, configure,
}

-- Jobs outlive a production process, and there is something to connect to.
abbrev pub IsUsable : Bool → BuiltTransport → Type 0
IsUsable is_production memory_transport = is_production ≡ false
IsUsable is_production (bullmq_transport (supplied c)) = Unit {0}
IsUsable is_production (bullmq_transport (options_from_url url)) = (url == 0) ≡ false
IsUsable is_production (pgboss_transport url schema max) = ((url == 0) ≡ false) × (0 < max)

num-positive : (v : Option NumberValue) (fallback : ℕ) → 0 < fallback → 0 < num v fallback
unfolding num
num-positive none fallback h = h
num-positive (some not_finite) fallback h = h
num-positive (some negative) fallback h = h
num-positive (some (whole n)) fallback h = ground arith

truthy-some : (o : Option ℕ) (url : ℕ) → truthy o ≡ some url → (url == 0) ≡ false
truthy-some none url h = cc
truthy-some (some n) url h = ground arith

TransportName-cases : (t : TransportName) → (t ≡ memory) ⊎ ((t ≡ bullmq) ⊎ (t ≡ pgboss))
TransportName-cases memory = inl refl
TransportName-cases bullmq = inr (inl refl)
TransportName-cases pgboss = inr (inr refl)

create_transport-IsUsable :
    (is_production : Bool) (c : DurableWorkConfig) (connection : Option ℕ) (b : BuiltTransport)
    → 0 < c.pg_boss_max_connections
    → create_transport is_production c connection ≡ some b
    → IsUsable is_production b
unfolding create_transport
create_transport-IsUsable is_production c connection b some_connections h =
    elim (TransportName-cases c.transport) [
      | inl in_memory ↦ elim (Bool-cases is_production) [
        | inl live ↦ cc (rw (in_memory, live, create_transport) at h)
        | inr local ↦
            subst (IsUsable is_production)
              (some-injective memory_transport b (rw (in_memory, local, create_transport) at h))
              local
      ]
      | inr (inl redis) ↦ elim (Option-cases connection) [
        | inr (given, is) ↦
            subst (IsUsable is_production)
              (some-injective (bullmq_transport (supplied given)) b
                (rw (redis, is, create_transport) at h))
              tt
        | inl absent ↦ elim (Option-cases (truthy c.redis_url)) [
          | inl empty ↦ cc (rw (redis, absent, empty, create_transport) at h)
          | inr (url, is) ↦
              subst (IsUsable is_production)
                (some-injective (bullmq_transport (options_from_url url)) b
                  (rw (redis, absent, is, create_transport) at h))
                (truthy-some c.redis_url url is)
        ]
      ]
      | inr (inr postgres) ↦ elim (Option-cases (truthy c.database_url)) [
        | inl empty ↦ cc (rw (postgres, empty, create_transport) at h)
        | inr (url, is) ↦
            subst (IsUsable is_production)
              (some-injective (pgboss_transport url c.pg_boss_schema c.pg_boss_max_connections) b
                (rw (postgres, is, create_transport) at h))
              (truthy-some c.database_url url is, some_connections)
      ]
    ]

-- What a configuration reads: every number is positive.
read_config-positive :
    (default_schema : ℕ) (env : ProcessEnv) (c : DurableWorkConfig)
    → read_config default_schema env ≡ some c
    → (0 < c.pg_boss_max_connections) × (0 < c.tick_ms)
unfolding read_config
read_config-positive default_schema env c h =
    elim (Option-cases
      (transport_named (normalise (coalesce env.durable_work_transport pgboss_text)))) [
        | inl unknown ↦ cc (rw (unknown, read_config) at h)
        | inr (t, known) ↦
            let e = some-injective _ _ (rw (known, read_config) at h) in
            (
              subst (λ x. 0 < x.pg_boss_max_connections) e
                  (num-positive env.durable_work_pgboss_max 4 (omega arith)),
              subst (λ x. 0 < x.tick_ms) e
                  (num-positive env.durable_work_tick_ms 15000 (omega arith)),
            )
      ]

-- A transport that is configured in production keeps its jobs outside of the process, and has
-- somewhere to connect to: a connection that the host supplies, or a URL that is not empty, and then
-- pg-boss may open a connection at least; and a worker with the tick that was read for it always
-- runs the reconciler's tick.
pub configure-IsUsable :
    (default_schema : ℕ) (env : ProcessEnv) (connection : Option ℕ) (b : BuiltTransport)
    (o : WorkerOptions)
    → configure default_schema env connection ≡ some b
    → IsUsable env.is_production b
      × ((c : DurableWorkConfig) × (read_config default_schema env ≡ some c)
          × (tick_binding (record o { tick_ms = some c.tick_ms })
              ≡ record { queue = o.reconcile_queue; concurrency = 1; active_timeout_ms = 120000 }
                ∷ []))
unfolding configure
configure-IsUsable default_schema env connection b o h =
    elim (Option-cases (read_config default_schema env)) [
      | inl refused ↦ cc (rw (refused, configure) at h)
      | inr (c, reads) ↦
          let (some_connections, ticks) = read_config-positive default_schema env c reads in
          (
            create_transport-IsUsable env.is_production c connection b some_connections
                (rw (reads, configure) at h),
            (c, reads, ground arith),
          )
    ]

-- ===== src/Host/Config.antt =====
-- How a host configures the mechanism (packages/durable-work/src/om/config.ts). A URL is a number,
-- the empty one is 0; what a URL says, and fractions in a number, are left out.
use open_mercato_durable.Common.{
  ℕ, ◌+◌, Bool, true, false, ◌&&◌, ◌||◌, Option, none, some, List, [], ◌∷◌, ◌==◌, ltb, leb, map,
  coalesce, or_else, if◌then◌else◌,
}

pub data TransportName : Type 0 where
  memory bullmq pgboss : TransportName

-- What `Number` makes of a text.
pub data NumberValue : Type 0 where
  not_finite negative : NumberValue
  whole : ℕ → NumberValue

-- The environment variables; a text is its characters' codes.
pub record ProcessEnv : Type 0 where
  pub durable_work_transport : Option (List ℕ)
  pub durable_work_redis_url : Option ℕ
  pub queue_redis_url : Option ℕ
  pub redis_url : Option ℕ
  pub database_url : Option ℕ
  pub durable_work_pgboss_schema : Option ℕ
  pub durable_work_pgboss_max : Option NumberValue
  pub durable_work_tick_ms : Option NumberValue
  pub durable_work_drain_timeout_ms : Option NumberValue
  pub durable_work_grace_ms : Option NumberValue
  pub is_production : Bool

pub record DurableWorkConfig : Type 0 where
  pub transport : TransportName
  pub redis_url : Option ℕ
  pub database_url : Option ℕ
  pub pg_boss_schema : ℕ
  pub pg_boss_max_connections : ℕ
  pub tick_ms : ℕ
  pub drain_timeout_ms : ℕ
  pub reconciler_grace_ms : ℕ

unfoldable pub num : Option NumberValue → ℕ → ℕ
num (some (whole n)) fallback = if ltb 0 n then n else fallback
num _ fallback = fallback

-- `trim` and `toLowerCase`, as far as the three names can tell.
abbrev pub is_blank : ℕ → Bool
is_blank c = c == 32 || (leb 9 c && leb c 13) || c == 160 || c == 0xFEFF

unfoldable pub trim_start : List ℕ → List ℕ
trim_start [] = []
trim_start (c ∷ cs) = if is_blank c then trim_start cs else c ∷ cs

unfoldable pub trim_end : List ℕ → List ℕ
trim_end [] = []
trim_end (c ∷ cs) = elim (trim_end cs) [
  | [] ↦ if is_blank c then [] else c ∷ []
  | x ∷ xs ↦ c ∷ x ∷ xs
]

abbrev pub lower : ℕ → ℕ
lower c = if leb b'A' c && leb c b'Z' then c + 32 else c

unfoldable pub normalise : List ℕ → List ℕ
unfolding trim_start trim_end
normalise text = map lower (trim_end (trim_start text))

abbrev pub memory_text : List ℕ
memory_text = b'm' ∷ b'e' ∷ b'm' ∷ b'o' ∷ b'r' ∷ b'y' ∷ []

abbrev pub bullmq_text : List ℕ
bullmq_text = b'b' ∷ b'u' ∷ b'l' ∷ b'l' ∷ b'm' ∷ b'q' ∷ []

abbrev pub pgboss_text : List ℕ
pgboss_text = b'p' ∷ b'g' ∷ b'b' ∷ b'o' ∷ b's' ∷ b's' ∷ []

unfoldable pub is_same_text : List ℕ → List ℕ → Bool
is_same_text [] [] = true
is_same_text (c ∷ cs) (d ∷ ds) = c == d && is_same_text cs ds
is_same_text _ _ = false

unfoldable pub transport_named : List ℕ → Option TransportName
unfolding is_same_text
transport_named raw =
    if is_same_text raw memory_text
    then some memory
    else if is_same_text raw bullmq_text
    then some bullmq
    else if is_same_text raw pgboss_text
    then some pgboss
    else none

-- `default_schema` is the text of the default schema; an unknown transport is a throw.
unfoldable pub read_config : ℕ → ProcessEnv → Option DurableWorkConfig
unfolding normalise transport_named num
read_config default_schema env =
    elim (transport_named (normalise (coalesce env.durable_work_transport pgboss_text))) [
      | none ↦ none
      | some t ↦ some (record {
        transport = t;
        redis_url = or_else env.durable_work_redis_url (or_else env.queue_redis_url env.redis_url);
        database_url = env.database_url;
        pg_boss_schema = coalesce env.durable_work_pgboss_schema default_schema;
        pg_boss_max_connections = num env.durable_work_pgboss_max 4;
        tick_ms = num env.durable_work_tick_ms 15000;
        drain_timeout_ms = num env.durable_work_drain_timeout_ms 30000;
        reconciler_grace_ms = num env.durable_work_grace_ms 20000;
      })
    ]

-- Where BullMQ connects: the host's own connection, or the options that a URL becomes.
pub data RedisConnection : Type 0 where
  supplied : ℕ → RedisConnection
  options_from_url : ℕ → RedisConnection

pub data BuiltTransport : Type 0 where
  memory_transport : BuiltTransport
  bullmq_transport : RedisConnection → BuiltTransport
  pgboss_transport : (connection_string schema max : ℕ) → BuiltTransport

abbrev pub truthy : Option ℕ → Option ℕ
truthy none = none
truthy (some n) = if n == 0 then none else some n

-- A throw is `none`.
unfoldable pub create_transport : Bool → DurableWorkConfig → Option ℕ → Option BuiltTransport
create_transport is_production c redis_connection = elim c.transport [
  | memory ↦ if is_production then none else some memory_transport
  | bullmq ↦ elim redis_connection [
    | some connection ↦ some (bullmq_transport (supplied connection))
    | none ↦ elim (truthy c.redis_url) [
      | none ↦ none
      | some url ↦ some (bullmq_transport (options_from_url url))
    ]
  ]
  | pgboss ↦ elim (truthy c.database_url) [
    | none ↦ none
    | some url ↦ some (pgboss_transport url c.pg_boss_schema c.pg_boss_max_connections)
  ]
]

-- `createTransport(readConfig(env), deps)`, as the container does it.
unfoldable pub configure : ℕ → ProcessEnv → Option ℕ → Option BuiltTransport
unfolding read_config create_transport
configure default_schema env redis_connection = elim (read_config default_schema env) [
  | none ↦ none
  | some c ↦ create_transport env.is_production c redis_connection
]

-- ===== src/Registry/Script.antt =====
-- What a step does with its `SliceContext` (core/registry.ts): a tree of the calls that it makes.
use open_mercato_durable.Common.{ℕ, Bool, Option}
use open_mercato_durable.Types.{DurableJob, Scope, Lease, Json, SliceOutcome}
use open_mercato_durable.Errors.{Failure}
use open_mercato_durable.Store.Lease.{HeartbeatPatch}

-- A callback in a transaction: it commits a value and the new domain state, or throws.
pub data Attempt (D : Type 0) : Type 0 where
  commits : ℕ → D → Attempt D
  throws : Failure → Attempt D

-- `beat` is `heartbeat`, `save` is `checkpoint_`, `write` is `fencedWrite` and `ask` is
-- `shouldYield`; `act` is an effect of the step on the domain outside the fence. After a call that
-- may throw stand the step's two ways on.
pub data Script (D : Type 0) : Type 0 where
  returns : SliceOutcome → Script D
  throws : Failure → Script D
  beat : HeartbeatPatch → Script D → (Failure → Script D) → Script D
  save : Option Json → HeartbeatPatch → Script D → (Failure → Script D) → Script D
  write : (D → Attempt D) → (ℕ → Script D) → (Failure → Script D) → Script D
  ask : (Bool → Script D) → Script D
  act : (D → D) → (D → Script D) → Script D

-- The data of a `SliceContext`; `idempotency_key` is the job's id and its slice number.
pub record SliceContext : Type 0 where
  pub job : DurableJob
  pub scope : Scope
  pub lease : Lease
  pub input : Option Json
  pub checkpoint : Option Json
  pub budget_ms : ℕ
  pub idempotency_key : ℕ × ℕ

-- ===== src/System/Actions.antt =====
-- What a process does to the world, action by action.
use open_mercato_durable.Common.{ℕ, Bool, Option}
use open_mercato_durable.Types.{Delivery, Scope, StartJobInput}
use open_mercato_durable.Registry.Register.{KindRegistry}
use open_mercato_durable.World.{World, Environment}
use open_mercato_durable.Reconciler.Pass.{ReconcilerOptions, reconcile_once}
use open_mercato_durable.Service.Start.{start_and_enqueue}
use open_mercato_durable.Service.Operate.{cancel, redrive}
use open_mercato_durable.Worker.{handle}

pub data Action : Type 0 where
  deliver : (owner attempt : ℕ) (x : Delivery) → Action
  reconcile : ReconcilerOptions → Action
  start : (transactional : Bool) (default_queue id : ℕ) (i : StartJobInput) (scope : Scope) → Action
  ask_cancel : (id : ℕ) (scope : Scope) (by : Option ℕ) → Action
  ask_redrive : (grace : Option ℕ) (id : ℕ) (scope : Scope) (force : Bool) → Action

module _ {D : Type 0} where
  unfoldable pub act : Environment D → KindRegistry D → Action → World D → World D
  unfolding handle reconcile_once start_and_enqueue cancel redrive
  act env kinds (Action.deliver owner attempt x) w = (handle env kinds owner attempt x w).1
  act env kinds (Action.reconcile o) w = (reconcile_once env kinds o w).1
  act env kinds (Action.start transactional default_queue id i scope) w =
      (start_and_enqueue transactional env kinds default_queue id i scope w).1
  act env kinds (Action.ask_cancel id scope by) w = (cancel env kinds id scope by w).1
  act env kinds (Action.ask_redrive grace id scope force) w =
      (redrive env kinds grace id scope force w).1

  -- The runs of a process.
  pub data Runs (env : Environment D) (kinds : KindRegistry D) (w : World D)
      : World D → Type 0 where
    stop : Runs env kinds w w
    more : {u : World D} (a : Action) → Runs env kinds w u → Runs env kinds w (act env kinds a u)

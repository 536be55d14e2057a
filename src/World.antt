-- ===== src/World.antt =====
-- What a worker's asynchronous code runs in: the table, the host's domain state, the clocks, and
-- everybody else. Before each statement or transaction others may act and time may pass. `sent` and
-- `removed` are what the transport was asked to publish and to drop.
use open_mercato_durable.Common.{ℕ, suc, ◌+◌, Bool, List, ◌++◌, [], ◌∷◌}
use open_mercato_durable.Types.{Delivery}
use open_mercato_durable.Store.Table.{Table}

pub record World (D : Type 0) : Type 0 where
  pub now : ℕ
  pub jobs : Table
  pub domain : D
  pub turn : ℕ
  pub sent : List Delivery
  pub removed : List (ℕ × ℕ)

-- By turn: what the others make of the table and the domain, the milliseconds that pass on the
-- database's clock, the worker's own clock, whether the heartbeat timer fires before a call of the
-- step, whether the transport's signal is aborted (a shutdown), whether the broker refuses, which
-- rows other transactions have locked, and the id that the transport gives to a delivery.
pub record Environment (D : Type 0) : Type 0 where
  pub others : ℕ → ℕ → Table × D → Table × D
  pub elapsed : ℕ → ℕ
  pub worker_clock : ℕ → ℕ
  pub timer_fires : ℕ → Bool
  pub shutting_down : ℕ → Bool
  pub broker_refuses : ℕ → Bool
  pub locked : ℕ → ℕ → Bool
  pub transport_job_id : Delivery → ℕ

module _ {D : Type 0} where
  unfoldable pub pause : Environment D → World D → World D
  pause env w =
      let now = w.now + env.elapsed w.turn in
      let (jobs, domain) = env.others w.turn now (w.jobs, w.domain) in
      record w { now = now; jobs = jobs; domain = domain; turn = suc w.turn }

  -- One autocommitted statement.
  unfoldable pub execute {ℓ} :
      {A : Type ℓ} → Environment D → (ℕ → Table → A × Table) → World D → A × World D
  unfolding pause
  execute env statement w =
      let p = pause env w in let (a, jobs) = statement p.now p.jobs in (a, record p { jobs = jobs })

  abbrev pub send : Delivery → World D → World D
  send d w = record w { sent = w.sent ++ d ∷ [] }

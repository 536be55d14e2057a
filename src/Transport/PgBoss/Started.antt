-- ===== src/Transport/PgBoss/Started.antt =====
-- A worker that starts on a fresh pg-boss adapter (packages/durable-work/src/core/worker.ts,
-- `startWorker`; src/transport/pgboss.ts, `bind`).
use open_mercato_durable.Common.{
  ℕ, ◌*◌, ◌≤◌, ◌<◌, ◌≡◌, refl, ap, ◌∙◌, inl, inr, false, some, List, [], ◌∷◌, ◌++◌, ◌==◌,
  Bool-cases, arith,
}
use open_mercato_durable.Registry.Kinds.{ResolvedKind}
use open_mercato_durable.Worker.Bindings.{QueueBinding, WorkerOptions, select_kinds, bindings}
use open_mercato_durable.Worker.Covers.{In, find_queue, bindings-Serves}
use open_mercato_durable.Transport.PgBoss.Adapter.{
  Boss, PgBossTransport, is_ensured, expiry_option, ceil_seconds,
}
use open_mercato_durable.Transport.PgBoss.Created.{
  Use, binds, use_adapter, creations, first_asked, use_adapter-creations,
}

-- No queue is on record, and none was created.
abbrev pub fresh_adapter : PgBossTransport
fresh_adapter = record {
  ensured_queues = [];
  ticks = [];
  is_shut_down = false;
  owns_instance = false;
  calls = [];
}

abbrev pub bind_each : List QueueBinding → List Use
bind_each [] = []
bind_each (b ∷ bs) = binds b ∷ bind_each bs

first_asked-bind_each :
    (q : ℕ) (bs : List QueueBinding) (b : QueueBinding) (us : List Use)
    → find_queue q bs ≡ some b
    → first_asked q (bind_each bs ++ us)
      ≡ expiry_option (some (ceil_seconds b.active_timeout_ms)) ∷ []
unfolding find_queue first_asked
first_asked-bind_each q [] b us h = cc
first_asked-bind_each q (x ∷ bs) b us h = elim (Bool-cases (x.queue == q)) [
  | inl own ↦ let is : x ≡ b = cc (rw own at h) in rw (own, is) refl
  | inr other ↦ rw other (first_asked-bind_each q bs b us (rw other at h))
]

expiry : (ms : ℕ) → 0 < ms → (expiry_option (some (ceil_seconds ms)) ≡ some (ceil_seconds ms))
unfolding ceil_seconds
expiry ms h = ground arith

ceil_seconds-ge : (ms : ℕ) → ms ≤ ceil_seconds ms * 1000
unfolding ceil_seconds
ceil_seconds-ge ms = omega arith

module _ {D : Type 0} where
  -- Where a worker starts on an adapter that has not made sure of any queue, pg-boss is asked once
  -- to create the queue of each kind that the worker runs, whatever the adapter is used for later,
  -- and a delivery may then be active for two slices of the kind, if a slice has any time.
  pub bindings-creations :
      (boss : Boss) (o : WorkerOptions) (registered : List (ResolvedKind D)) (k : ResolvedKind D)
      (us : List Use)
      → In k (select_kinds o.kinds registered)
      → 0 < k.lease.slice_budget_ms
      → (e : ℕ) × (creations k.queue
            (use_adapter boss (bind_each (bindings o registered) ++ us) fresh_adapter).calls
          ≡ some e ∷ [])
        × (k.lease.slice_budget_ms * 2 ≤ e * 1000)
  unfolding is_ensured creations
  bindings-creations boss o registered k us chosen some_time =
      let served = bindings-Serves o registered k chosen in
      let b = served.binding in
      (
        ceil_seconds b.active_timeout_ms,
        use_adapter-creations boss k.queue (bind_each (bindings o registered) ++ us) fresh_adapter
              refl refl
            ∙ first_asked-bind_each k.queue (bindings o registered) b us served.bound
            ∙ ap (λ x. x ∷ []) (expiry b.active_timeout_ms (omega (arith, served.patient))),
        omega (arith, served.patient, ceil_seconds-ge b.active_timeout_ms),
      )

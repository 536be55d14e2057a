-- ===== src/Transport/PgBoss/Created.antt =====
-- What a queue is created with (packages/durable-work/src/transport/pgboss.ts, `ensureQueue`).
use open_mercato_durable.Common.{
  ℕ, ◌≡◌, refl, ap, ◌∙◌, inl, inr, Bool, true, false, Option, none, some, List, [], ◌∷◌, ◌==◌,
  if◌then◌else◌, Bool-cases, Option-cases, arith,
}
use open_mercato_durable.Types.{Delivery, RetrySettings}
use open_mercato_durable.Worker.Bindings.{QueueBinding}
use open_mercato_durable.Transport.PgBoss.Adapter.{
  BossCall, create_queue, send_job, send_tick, delete_job, work, off_work, stop, Boss,
  PgBossTransport, is_ensured, expiry_option, ensure_queue, ceil_seconds, enqueue, remove, fire,
  upsert_tick, bind, unbind, close,
}

-- The calls of the adapter by its clients.
pub data Use : Type 0 where
  enqueues : (queue : ℕ) → Delivery → RetrySettings → (delay_ms : Option ℕ) → (tx : Bool) → Use
  removes : (queue id : ℕ) → Use
  upserts_tick : (id queue every_ms : ℕ) → Use
  fires : (id queue every_ms : ℕ) → Use
  binds : QueueBinding → Use
  unbinds : (queue : ℕ) → Use
  closes : (timeout_ms : ℕ) → Use

unfoldable pub use_once : Boss → Use → PgBossTransport → PgBossTransport
unfolding enqueue upsert_tick fire bind
use_once boss (enqueues q d r delay tx) s = (enqueue boss q d r delay tx s).1
use_once boss (removes q id) s = remove q id s
use_once boss (upserts_tick id q ms) s = upsert_tick id q ms s
use_once boss (fires id q ms) s = fire id q ms s
use_once boss (binds b) s = bind b s
use_once boss (unbinds q) s = unbind q s
use_once boss (closes ms) s = close ms s

unfoldable pub use_adapter : Boss → List Use → PgBossTransport → PgBossTransport
unfolding use_once
use_adapter boss [] s = s
use_adapter boss (u ∷ us) s = use_adapter boss us (use_once boss u s)

-- The queue that a use makes sure of, with the expiry that it asks for.
abbrev pub ensured_by : Use → Option (ℕ × Option ℕ)
ensured_by (enqueues q d r delay tx) = some (q, none)
ensured_by (upserts_tick id q ms) = some (q, none)
ensured_by (binds b) = some (b.queue, some (ceil_seconds b.active_timeout_ms))
ensured_by _ = none

-- The creations of a queue among the calls of pg-boss.
unfoldable pub creations : ℕ → List BossCall → List (Option ℕ)
creations q [] = []
creations q (create_queue name e ∷ cs) = if name == q then e ∷ creations q cs else creations q cs
creations q (send_job name d o ∷ cs) = creations q cs
creations q (send_tick name d n ∷ cs) = creations q cs
creations q (delete_job name id ∷ cs) = creations q cs
creations q (work name n ∷ cs) = creations q cs
creations q (off_work name ∷ cs) = creations q cs
creations q (stop n ∷ cs) = creations q cs

-- What the first use of a queue asks for.
unfoldable pub first_asked : ℕ → List Use → List (Option ℕ)
first_asked q [] = []
first_asked q (u ∷ us) = elim (ensured_by u) [
  | none ↦ first_asked q us
  | some (name, e) ↦ if name == q then expiry_option e ∷ [] else first_asked q us
]

ensure_queue-known :
    (q name : ℕ) (e : Option ℕ) (s : PgBossTransport)
    → is_ensured q s.ensured_queues ≡ true
    → (is_ensured q (ensure_queue name e s).ensured_queues ≡ true)
      × (creations q (ensure_queue name e s).calls ≡ creations q s.calls)
unfolding ensure_queue creations
ensure_queue-known q name e s h = ground arith

ensure_queue-first :
    (q : ℕ) (e : Option ℕ) (s : PgBossTransport)
    → is_ensured q s.ensured_queues ≡ false
    → (is_ensured q (ensure_queue q e s).ensured_queues ≡ true)
      × (creations q (ensure_queue q e s).calls ≡ expiry_option e ∷ creations q s.calls)
unfolding ensure_queue creations
ensure_queue-first q e s h = ground arith

ensure_queue-other :
    (q name : ℕ) (e : Option ℕ) (s : PgBossTransport)
    → (name == q) ≡ false
    → is_ensured q s.ensured_queues ≡ false
    → (is_ensured q (ensure_queue name e s).ensured_queues ≡ false)
      × (creations q (ensure_queue name e s).calls ≡ creations q s.calls)
unfolding ensure_queue creations
ensure_queue-other q name e s other h = ground arith

-- What a use does to the record of queues and to the creations is what `ensureQueue` does.
abbrev ensured : Option (ℕ × Option ℕ) → PgBossTransport → PgBossTransport
ensured none s = s
ensured (some (name, e)) s = ensure_queue name e s

fire-ensured :
    (q n id ms : ℕ) (s : PgBossTransport)
    → ((fire id n ms s).ensured_queues ≡ s.ensured_queues)
      × (creations q (fire id n ms s).calls ≡ creations q s.calls)
unfolding fire creations
fire-ensured q n id ms s = ground arith

use_once-ensured :
    (boss : Boss) (q : ℕ) (u : Use) (s : PgBossTransport)
    → ((use_once boss u s).ensured_queues ≡ (ensured (ensured_by u) s).ensured_queues)
      × (creations q (use_once boss u s).calls ≡ creations q (ensured (ensured_by u) s).calls)
unfolding use_once creations upsert_tick
use_once-ensured boss q (enqueues n d r delay tx) s = (refl, refl)
use_once-ensured boss q (removes n id) s = (refl, refl)
use_once-ensured boss q (upserts_tick id n ms) s = fire-ensured q n id ms (ensure_queue n none s)
use_once-ensured boss q (fires id n ms) s = fire-ensured q n id ms s
use_once-ensured boss q (binds b) s = (refl, refl)
use_once-ensured boss q (unbinds n) s = (refl, refl)
use_once-ensured boss q (closes ms) s = ground arith

ensured-known :
    (q : ℕ) (o : Option (ℕ × Option ℕ)) (s : PgBossTransport)
    → is_ensured q s.ensured_queues ≡ true
    → (is_ensured q (ensured o s).ensured_queues ≡ true)
      × (creations q (ensured o s).calls ≡ creations q s.calls)
ensured-known q none s h = (h, refl)
ensured-known q (some (name, e)) s h = ensure_queue-known q name e s h

-- One step: a queue on record stays so and is not created again; any other is created by the use
-- that makes sure of it, and only by that.
use_once-known :
    (boss : Boss) (q : ℕ) (u : Use) (s : PgBossTransport)
    → is_ensured q s.ensured_queues ≡ true
    → (is_ensured q (use_once boss u s).ensured_queues ≡ true)
      × (creations q (use_once boss u s).calls ≡ creations q s.calls)
use_once-known boss q u s h =
    let (same, made) = use_once-ensured boss q u s in
    let (known, kept) = ensured-known q (ensured_by u) s h in
    (ap (is_ensured q) same ∙ known, made ∙ kept)

use_adapter-known :
    (boss : Boss) (q : ℕ) (us : List Use) (s : PgBossTransport)
    → is_ensured q s.ensured_queues ≡ true
    → creations q (use_adapter boss us s).calls ≡ creations q s.calls
unfolding use_adapter
use_adapter-known boss q [] s h = refl
use_adapter-known boss q (u ∷ us) s h =
    let (known, kept) = use_once-known boss q u s h in
    use_adapter-known boss q us (use_once boss u s) known ∙ kept

-- From a state that has not made sure of a queue, and never created it, the adapter creates it once,
-- with what the first use of it asks for, or not at all: a later use changes nothing.
pub use_adapter-creations :
    (boss : Boss) (q : ℕ) (us : List Use) (s : PgBossTransport)
    → is_ensured q s.ensured_queues ≡ false
    → creations q s.calls ≡ []
    → creations q (use_adapter boss us s).calls ≡ first_asked q us
unfolding use_adapter first_asked
use_adapter-creations boss q [] s h none_yet = none_yet
use_adapter-creations boss q (u ∷ us) s h none_yet =
    let (same, made) = use_once-ensured boss q u s in
    let s' = use_once boss u s in
    elim (Option-cases (ensured_by u)) [
      | inl idle ↦
          rw (idle, first_asked)
            (use_adapter-creations boss q us s'
              (ap (is_ensured q) (same ∙ ap (λ o. (ensured o s).ensured_queues) idle) ∙ h)
              (made ∙ ap (λ o. creations q (ensured o s).calls) idle ∙ none_yet))
      | inr ((name, e), asks) ↦
          let made' = made ∙ ap (λ o. creations q (ensured o s).calls) asks in
          let same' = ap (is_ensured q) (same ∙ ap (λ o. (ensured o s).ensured_queues) asks) in
          elim (Bool-cases (name == q)) [
            | inl own ↦
                let is : name ≡ q = ground arith in
                let (known, created) = ensure_queue-first q e s h in
                rw (asks, first_asked)
                  (rw own (
                    use_adapter-known boss q us s' (
                      same' ∙ ap (λ x. is_ensured q (ensure_queue x e s).ensured_queues) is ∙ known)
                    ∙ made'
                    ∙ ap (λ x. creations q (ensure_queue x e s).calls) is
                    ∙ created
                    ∙ ap (λ l. expiry_option e ∷ l) none_yet))
            | inr other ↦
                let (unknown, kept) = ensure_queue-other q name e s other h in
                rw (asks, first_asked)
                  (rw other (
                    use_adapter-creations boss q us s' (same' ∙ unknown) (made' ∙ kept ∙ none_yet)))
          ]
    ]

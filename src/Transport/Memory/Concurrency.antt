-- ===== src/Transport/Memory/Concurrency.antt =====
-- How many handlers the in-process transport calls at once (transport/memory.ts, `drain`, `close`).
use open_mercato_durable.Common.{
  ℕ, ◌+◌, ◌≤◌, ◌≡◌, refl, subst, sym, inl, inr, Bool, true, false, ◌||◌, some, List, [], ◌∷◌, ◌++◌,
  ◌==◌, map, if◌then◌else◌, leb, length, All, Bool-cases, Option-cases, arith,
}
use open_mercato_durable.Transport.Memory.Entries.{Entry, find_ref, ref_of}
use open_mercato_durable.Transport.Memory.Events.{
  MemoryFaults, Binding, Memory, find_binding, put_binding, delete_binding, start_run, is_ready,
  drain_over, drain, remove, bind, unbind, upsert_tick, Event, step, steps,
}
use open_mercato_durable.Transport.Memory.Calm.{
  IsCalm, enqueue-IsCalm, fire_tick-IsCalm, hand_back-IsCalm, end_run-IsCalm,
}

length-append {ℓ} : {A : Type ℓ} (xs ys : List A) → length (xs ++ ys) ≡ length xs + length ys
length-append [] ys = omega arith
length-append (x ∷ xs) ys = omega (arith, length-append xs ys)

-- Nothing is delivered twice, and at most `c` handlers of each queue are asked for.
pub record IsBounded (c : ℕ) (m : Memory) : Type 0 where
  pub handlers : All (λ b. b.concurrency ≤ c) m.handlers
  pub running : length m.in_flight ≤ c

-- An event that asks for at most `c` handlers.
abbrev pub AsksAtMost : ℕ → Event → Type 0
AsksAtMost c (Event.binds b) = b.concurrency ≤ c
AsksAtMost c _ = Unit {0}

module _ (c : ℕ) where
  IsCalm-IsBounded : (m n : Memory) → IsCalm m n → IsBounded c m → IsBounded c n
  IsCalm-IsBounded m n k h = record {
    handlers = subst (All (λ b. b.concurrency ≤ c)) (sym k.handlers) h.handlers;
    running = omega (arith, k.running, h.running);
  }

  find_binding-concurrency :
      (queue : ℕ) (bs : List Binding) (b : Binding)
      → All (λ x. x.concurrency ≤ c) bs
      → find_binding queue bs ≡ some b
      → b.concurrency ≤ c
  unfolding find_binding
  find_binding-concurrency queue [] b h found = cc
  find_binding-concurrency queue (x ∷ xs) b (p, h) found = elim (Bool-cases (x.queue == queue)) [
    | inl same ↦ let is : x ≡ b = cc (rw same at found) in subst (λ y. y.concurrency ≤ c) is p
    | inr other ↦ find_binding-concurrency queue xs b h (rw other at found)
  ]

  put_binding-concurrency :
      (b : Binding) (bs : List Binding)
      → b.concurrency ≤ c
      → All (λ x. x.concurrency ≤ c) bs
      → All (λ x. x.concurrency ≤ c) (put_binding b bs)
  unfolding put_binding
  put_binding-concurrency b [] p h = (p, tt)
  put_binding-concurrency b (x ∷ xs) p (q, h) = elim (Bool-cases (x.queue == b.queue)) [
    | inl same ↦ rw same (p, h)
    | inr other ↦ rw other (q, put_binding-concurrency b xs p h)
  ]

  delete_binding-concurrency :
      (queue : ℕ) (bs : List Binding)
      → All (λ x. x.concurrency ≤ c) bs
      → All (λ x. x.concurrency ≤ c) (delete_binding queue bs)
  unfolding delete_binding
  delete_binding-concurrency queue [] h = tt
  delete_binding-concurrency queue (x ∷ xs) (q, h) = elim (Bool-cases (x.queue == queue)) [
    | inl same ↦ rw same h
    | inr other ↦ rw other (q, delete_binding-concurrency queue xs h)
  ]

  module _ (faults : MemoryFaults) (once : faults.duplicate_deliveries ≡ false) where
    start_run-IsBounded :
        (e : Entry) (m : Memory)
        → length m.in_flight + 1 ≤ c
        → IsBounded c m
        → IsBounded c (start_run faults e m)
    unfolding start_run
    start_run-IsBounded e m room h = record {
      handlers = h.handlers;
      running = rw once (omega (arith, length-append {0} m.in_flight));
    }

    drain_over-IsBounded :
        (now : ℕ) (refs : List ℕ) (m : Memory)
        → IsBounded c m
        → IsBounded c (drain_over faults now refs m)
    unfolding drain_over
    drain_over-IsBounded now [] m h = h
    drain_over-IsBounded now (ref ∷ refs) m h =
        let rest = drain_over-IsBounded now refs in
        elim (Option-cases (find_ref ref m.entries)) [
          | inl absent ↦ rw (absent, drain_over) (rest m h)
          | inr (e, found) ↦
              rw (found, drain_over)
                (elim (Bool-cases (is_ready now e)) [
                  | inr busy ↦ rw busy (rest m h)
                  | inl ready ↦ rw ready (elim (Option-cases (find_binding e.queue m.handlers)) [
                    | inl unbound ↦ rw unbound (rest m h)
                    | inr (b, bound) ↦ rw bound (elim (Bool-cases (faults.stall e.delivery)) [
                      | inl stalled ↦ rw stalled (rest m h)
                      | inr moves ↦
                          rw moves (elim (Bool-cases (leb b.concurrency (length m.in_flight))) [
                            | inl full ↦ rw full h
                            | inr free ↦
                                let few =
                                  find_binding-concurrency e.queue m.handlers b h.handlers bound in
                                rw free (rest _ (start_run-IsBounded e m (ground (arith, few)) h))
                          ])
                    ])
                  ])
                ])
        ]

    branch-IsBounded :
        (b : Bool) (x y : Memory) → IsBounded c x → IsBounded c y → IsBounded c (if b then x else y)
    branch-IsBounded true x y h k = h
    branch-IsBounded false x y h k = k

    drain-IsBounded : (now : ℕ) (m : Memory) → IsBounded c m → IsBounded c (drain faults now m)
    unfolding drain
    drain-IsBounded now m h =
        branch-IsBounded m.is_closed m _ h (drain_over-IsBounded now (map ref_of m.entries) m h)

    step-IsBounded :
        (now : ℕ) (e : Event) (m : Memory)
        → AsksAtMost c e
        → IsBounded c m
        → IsBounded c (step faults now e m)
    unfolding step
    step-IsBounded now (Event.enqueues queue d retry delay) m a h =
        IsCalm-IsBounded m _ (enqueue-IsCalm faults now queue d retry delay m) h
    step-IsBounded now (Event.removes d) m a h =
        unfold remove in record { handlers = h.handlers; running = h.running }
    step-IsBounded now (Event.binds b) m a h =
        unfold bind in
        branch-IsBounded (m.is_pumping || m.is_closed) _ _
          (record {
            handlers = put_binding-concurrency b m.handlers a h.handlers;
            running = h.running;
          })
          (record {
            handlers = put_binding-concurrency b m.handlers a h.handlers;
            running = h.running;
          })
    step-IsBounded now (Event.unbinds queue) m a h =
        unfold unbind in
        record {
          handlers = delete_binding-concurrency queue m.handlers h.handlers;
          running = h.running;
        }
    step-IsBounded now (Event.upserts_tick t) m a h =
        unfold upsert_tick in record { handlers = h.handlers; running = h.running }
    step-IsBounded now (Event.tick_fires id) m a h =
        IsCalm-IsBounded m _ (fire_tick-IsCalm faults now id m) h
    step-IsBounded now Event.pumps m a h =
        branch-IsBounded m.is_pumping _ m (drain-IsBounded now m h) h
    step-IsBounded now (Event.hands_back n next delay) m a h =
        IsCalm-IsBounded m _ (hand_back-IsCalm faults now n next delay m) h
    step-IsBounded now (Event.ends n how) m a h =
        IsCalm-IsBounded m _ (end_run-IsCalm now n how m) h
    step-IsBounded now Event.closes m a h = record { handlers = h.handlers; running = h.running }

    -- Without the fault that duplicates deliveries, at most `c` handlers run at once, over all
    -- queues, if no queue is bound with a higher concurrency.
    pub steps-IsBounded :
        (events : List (ℕ × Event)) (m : Memory)
        → All (λ e. AsksAtMost c e.1) events
        → IsBounded c m
        → IsBounded c (steps faults events m)
    unfolding steps
    steps-IsBounded [] m a h = h
    steps-IsBounded ((now, e) ∷ es) m (a, asks) h =
        steps-IsBounded es (step faults now e m) asks (step-IsBounded now e m a h)

-- No more calls in flight, and closed for good.
abbrev Rests : Memory → Memory → Type 0
Rests m n = (length n.in_flight ≤ length m.in_flight) × (n.is_closed ≡ true)

IsCalm-Rests : (m n : Memory) → m.is_closed ≡ true → IsCalm m n → Rests m n
IsCalm-Rests m n closed k = (k.running, k.closed closed)

step_closed :
    (faults : MemoryFaults) (now : ℕ) (e : Event) (m : Memory)
    → m.is_closed ≡ true
    → Rests m (step faults now e m)
unfolding step
step_closed faults now (Event.enqueues queue d retry delay) m h =
    IsCalm-Rests m _ h (enqueue-IsCalm faults now queue d retry delay m)
step_closed faults now (Event.removes d) m h = unfold remove in (omega arith, h)
step_closed faults now (Event.binds b) m h = unfold bind in (ground arith, ground arith)
step_closed faults now (Event.unbinds queue) m h = unfold unbind in (omega arith, h)
step_closed faults now (Event.upserts_tick t) m h = unfold upsert_tick in (omega arith, h)
step_closed faults now (Event.tick_fires id) m h =
    IsCalm-Rests m _ h (fire_tick-IsCalm faults now id m)
step_closed faults now Event.pumps m h = unfold drain in (ground arith, ground arith)
step_closed faults now (Event.hands_back n next delay) m h =
    IsCalm-Rests m _ h (hand_back-IsCalm faults now n next delay m)
step_closed faults now (Event.ends n how) m h = IsCalm-Rests m _ h (end_run-IsCalm now n how m)
step_closed faults now Event.closes m h = (omega arith, refl)

-- After `close` no handler is called again, whatever is enqueued or bound, whatever the faults.
steps-close :
    (faults : MemoryFaults) (events : List (ℕ × Event)) (m : Memory)
    → m.is_closed ≡ true
    → (length (steps faults events m).in_flight ≤ length m.in_flight)
      × ((steps faults events m).is_closed ≡ true)
unfolding steps
steps-close faults [] m h = (omega arith, h)
steps-close faults ((now, e) ∷ es) m h =
    let (less, closed) = step_closed faults now e m h in
    let (fewer, shut) = steps-close faults es (step faults now e m) closed in (omega arith, shut)

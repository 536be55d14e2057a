-- ===== src/Transport/Memory/Fits.antt =====
-- The attempts of the entries and of the calls in flight (transport/memory.ts).
use open_mercato_durable.Common.{
  ℕ, suc, ◌+◌, ◌≤◌, max, ◌≡◌, subst, sym, ◌∙◌, inl, inr, Bool, true, false, Option, none, some,
  List, [], ◌∷◌, map, if◌then◌else◌, leb, length, All, Bool-cases, Option-cases, arith,
}
use open_mercato_durable.Types.{Delivery, RetrySettings}
use open_mercato_durable.Transport.Memory.Entries.{Entry, is_active, put_entry, find_ref, ref_of}
use open_mercato_durable.Transport.Memory.Events.{
  MemoryFaults, Run, Memory, start_pump, new_entry, enqueue, find_binding, find_tick, fire_tick,
  tick_retry, started, run_of, start_run, is_ready, drain_over, drain, take_run, hand_back,
  delay_entry, is_spent,
}
use open_mercato_durable.Transport.Memory.Lists.{
  All-append, find_ref_self, All-put_entry, All-delete_entry, All-find_ref, All-write_ref,
  All-mark_handed_back,
}

-- An entry that waits has an attempt left; one that runs is in one of its attempts.
abbrev pub Fits : Entry → Type 0
Fits e = e.attempt + (if is_active e.state then 0 else 1) ≤ max 1 e.retry.attempts

-- The handler is told of an attempt from 1 to the last.
abbrev pub FitsRun : Run → Type 0
FitsRun r = (1 ≤ r.entry.attempt) × (r.entry.attempt ≤ max 1 r.entry.retry.attempts)

pub record IsWithin (m : Memory) : Type 0 where
  pub entries : All Fits m.entries
  pub runs : All FitsRun m.in_flight

pub branch-IsWithin :
    (b : Bool) (x y : Memory) → IsWithin x → IsWithin y → IsWithin (if b then x else y)
branch-IsWithin true x y h k = h
branch-IsWithin false x y h k = k

pub start_pump-IsWithin : (m : Memory) → IsWithin m → IsWithin (start_pump m)
start_pump-IsWithin m h = ground arith

new_entry-Fits :
    (ref now queue : ℕ) (d : Delivery) (retry : RetrySettings) (delay : Option ℕ)
    → Fits (new_entry ref now queue d retry delay)
new_entry-Fits ref now queue d retry delay = ground arith

pub enqueue-IsWithin :
    (faults : MemoryFaults) (now queue : ℕ) (d : Delivery) (retry : RetrySettings)
    (delay : Option ℕ) (m : Memory)
    → IsWithin m
    → IsWithin (enqueue faults now queue d retry delay m)
unfolding enqueue
enqueue-IsWithin faults now queue d retry delay m h =
    let e = new_entry m.next_ref now queue d retry delay in
    let fits = new_entry-Fits m.next_ref now queue d retry delay in
    elim (Bool-cases (faults.drop_enqueue d)) [
      | inl dropped ↦ rw dropped h
      | inr kept ↦ rw kept (
          start_pump-IsWithin
            (record m { entries = put_entry e m.entries; next_ref = suc m.next_ref })
            (record { entries = All-put_entry Fits e m.entries fits h.entries; runs = h.runs }))
    ]

started-Fits :
    (e : Entry)
    → is_active e.state ≡ false
    → Fits e
    → Fits (started e) × FitsRun (run_of false (started e))
started-Fits e idle h = ground arith

start_run-IsWithin :
    (faults : MemoryFaults) (e : Entry) (m : Memory)
    → find_ref e.ref m.entries ≡ some e
    → is_active e.state ≡ false
    → IsWithin m
    → IsWithin (start_run faults e m)
unfolding start_run
start_run-IsWithin faults e m own idle h =
    let (on, run) = started-Fits e idle (All-find_ref Fits e.ref m.entries e h.entries own) in
    record {
      entries =
          All-write_ref Fits e.ref started m.entries
            (λ x found.
              let is : e ≡ x = cc (sym own ∙ found) in subst (λ y. Fits (started y)) is on)
            h.entries;
      runs = All-append FitsRun m.in_flight _ h.runs (
        run,
        elim faults.duplicate_deliveries
            as (λ b. All FitsRun (if b then run_of true (started e) ∷ [] else [])) [
              | true ↦ (run, tt)
              | false ↦ tt
            ],
      );
    }

is_ready-idle : (now : ℕ) (e : Entry) → is_ready now e ≡ true → is_active e.state ≡ false
is_ready-idle now e h = ground arith

drain_over-IsWithin :
    (faults : MemoryFaults) (now : ℕ) (refs : List ℕ) (m : Memory)
    → IsWithin m
    → IsWithin (drain_over faults now refs m)
unfolding drain_over
drain_over-IsWithin faults now [] m h = h
drain_over-IsWithin faults now (ref ∷ refs) m h =
    let rest = drain_over-IsWithin faults now refs in
    elim (Option-cases (find_ref ref m.entries)) [
      | inl absent ↦ rw (absent, drain_over) (rest m h)
      | inr (e, found) ↦
          rw (found, drain_over)
            (elim (Bool-cases (is_ready now e)) [
              | inr busy ↦ rw busy (rest m h)
              | inl ready ↦ rw ready (elim (Option-cases (find_binding e.queue m.handlers)) [
                | inl unbound ↦ rw unbound (rest m h)
                | inr (b, bound) ↦ rw bound (elim (Bool-cases (faults.stall e.delivery)) [
                  | inl stalled ↦ rw stalled (rest m h)
                  | inr moves ↦
                      rw moves (elim (Bool-cases (leb b.concurrency (length m.in_flight))) [
                        | inl full ↦ rw full h
                        | inr free ↦ rw free (
                            rest _ (
                              start_run-IsWithin faults e m (find_ref_self ref m.entries e found)
                                (is_ready-idle now e ready) h))
                      ])
                ])
              ])
            ])
    ]

pub drain-IsWithin :
    (faults : MemoryFaults) (now : ℕ) (m : Memory) → IsWithin m → IsWithin (drain faults now m)
unfolding drain
drain-IsWithin faults now m h =
    branch-IsWithin m.is_closed m _ h (drain_over-IsWithin faults now (map ref_of m.entries) m h)

pub fire_tick-IsWithin :
    (faults : MemoryFaults) (now id : ℕ) (m : Memory)
    → IsWithin m
    → IsWithin (fire_tick faults now id m)
unfolding fire_tick
fire_tick-IsWithin faults now id m h = elim (Option-cases (find_tick id m.ticks)) [
  | inl absent ↦ rw (absent, fire_tick) h
  | inr (t, found) ↦
      rw (found, fire_tick) (enqueue-IsWithin faults now t.queue _ tick_retry none m h)
]

pub hand_back-IsWithin :
    (faults : MemoryFaults) (now n : ℕ) (next : Delivery) (delay : Option ℕ) (m : Memory)
    → IsWithin m
    → IsWithin (hand_back faults now n next delay m)
unfolding hand_back
hand_back-IsWithin faults now n next delay m h = elim (Option-cases (take_run n m.in_flight)) [
  | inl absent ↦ rw (absent, hand_back) h
  | inr ((r, rest), taken) ↦
      rw (taken, hand_back)
        (enqueue-IsWithin faults now r.entry.queue next r.entry.retry delay _ (record {
          entries = All-delete_entry Fits r.entry.delivery m.entries h.entries;
          runs = All-mark_handed_back FitsRun n m.in_flight (λ x p. p) h.runs;
        }))
]

pub delay_entry-Fits : (now : ℕ) (e : Entry) → is_spent e ≡ false → Fits (delay_entry now e)
delay_entry-Fits now e left = ground arith

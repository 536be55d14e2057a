-- ===== src/Transport/Memory/Calm.antt =====
-- What an event that calls no handler leaves (transport/memory.ts).
use open_mercato_durable.Common.{
  ℕ, zero, suc, ◌≤◌, ◌≡◌, refl, ap, inl, inr, true, Option, none, some, List, [], ◌∷◌, length,
  Option-cases, arith,
}
use open_mercato_durable.Types.{Delivery, RetrySettings}
use open_mercato_durable.Transport.Memory.Entries.{delete_entry}
use open_mercato_durable.Transport.Memory.Events.{
  MemoryFaults, Run, Memory, enqueue, find_tick, fire_tick, tick_retry, take_run, mark_handed_back,
  hand_back, HandlerEnd, object_of, after_throw, end_taken, end_run,
}

length-take_run :
    (n : ℕ) (rs rest : List Run) (r : Run)
    → take_run n rs ≡ some (r, rest)
    → length rest ≤ length rs
unfolding take_run
length-take_run n [] rest r h = cc
length-take_run zero (x ∷ xs) rest r h = ground arith
length-take_run (suc n) (x ∷ xs) rest r h = elim (Option-cases (take_run n xs)) [
  | inl absent ↦ cc (rw (absent, take_run) at h)
  | inr ((s, others), taken) ↦
      let e : ◌≡◌ {A = Option (Run × List Run)} (some (s, x ∷ others)) (some (r, rest)) =
        rw (taken, take_run) at h in
      let whole : x ∷ others ≡ rest = cc e in
      omega (arith, length-take_run n xs others s taken, ap length whole)
]

length-mark_handed_back : (n : ℕ) (rs : List Run) → length (mark_handed_back n rs) ≡ length rs
unfolding mark_handed_back
length-mark_handed_back n [] = refl
length-mark_handed_back zero (r ∷ rs) = refl
length-mark_handed_back (suc n) (r ∷ rs) = ap suc (length-mark_handed_back n rs)

-- What an event that calls no handler leaves: no more calls in flight, and the same handlers.
pub record IsCalm (m n : Memory) : Type 0 where
  pub running : length n.in_flight ≤ length m.in_flight
  pub handlers : n.handlers ≡ m.handlers
  pub closed : m.is_closed ≡ true → n.is_closed ≡ true

pub enqueue-IsCalm :
    (faults : MemoryFaults) (now queue : ℕ) (d : Delivery) (retry : RetrySettings)
    (delay : Option ℕ) (m : Memory)
    → IsCalm m (enqueue faults now queue d retry delay m)
unfolding enqueue
enqueue-IsCalm faults now queue d retry delay m = record {
  running = ground arith;
  handlers = ground arith;
  closed = λ h. ground arith;
}

pub fire_tick-IsCalm :
    (faults : MemoryFaults) (now id : ℕ) (m : Memory) → IsCalm m (fire_tick faults now id m)
unfolding fire_tick
fire_tick-IsCalm faults now id m = elim (Option-cases (find_tick id m.ticks)) [
  | inl absent ↦
      rw (absent, fire_tick) (record { running = omega arith; handlers = refl; closed = λ h. h })
  | inr (t, found) ↦ rw (found, fire_tick) (enqueue-IsCalm faults now t.queue _ tick_retry none m)
]

pub hand_back-IsCalm :
    (faults : MemoryFaults) (now n : ℕ) (next : Delivery) (delay : Option ℕ) (m : Memory)
    → IsCalm m (hand_back faults now n next delay m)
unfolding hand_back
hand_back-IsCalm faults now n next delay m = elim (Option-cases (take_run n m.in_flight)) [
  | inl absent ↦
      rw (absent, hand_back) (record { running = omega arith; handlers = refl; closed = λ h. h })
  | inr ((r, rest), taken) ↦
      let u : Memory = record m {
        entries = delete_entry r.entry.delivery m.entries;
        in_flight = mark_handed_back n m.in_flight;
      } in
      let c = enqueue-IsCalm faults now r.entry.queue next r.entry.retry delay u in
      rw (taken, hand_back)
        (record {
          running = omega (arith, c.running, length-mark_handed_back n m.in_flight);
          handlers = c.handlers;
          closed = c.closed;
        })
]

after_throw-IsCalm : (now : ℕ) (r : Run) (m : Memory) → IsCalm m (after_throw now r m)
unfolding after_throw
after_throw-IsCalm now r m = elim (Option-cases (object_of r m.entries)) [
  | inl outside ↦
      rw (outside, after_throw)
        (record { running = ground arith; handlers = ground arith; closed = λ h. ground arith })
  | inr (e, there) ↦
      rw (there, after_throw)
        (record { running = ground arith; handlers = ground arith; closed = λ h. ground arith })
]

end_taken-IsCalm :
    (now : ℕ) (how : HandlerEnd) (r : Run) (rest : List Run) (m : Memory)
    → length rest ≤ length m.in_flight
    → IsCalm m (end_taken now how r rest m)
end_taken-IsCalm now HandlerEnd.returns r rest m h = record {
  running = ground arith;
  handlers = ground arith;
  closed = λ k. ground arith;
}
end_taken-IsCalm now HandlerEnd.throws_no_further_attempts r rest m h = record {
  running = h;
  handlers = refl;
  closed = λ k. k;
}
end_taken-IsCalm now HandlerEnd.throws r rest m h =
    let c = after_throw-IsCalm now r (record m { in_flight = rest }) in
    record { running = omega (arith, c.running); handlers = c.handlers; closed = c.closed }

pub end_run-IsCalm : (now n : ℕ) (how : HandlerEnd) (m : Memory) → IsCalm m (end_run now n how m)
unfolding end_run
end_run-IsCalm now n how m = elim (Option-cases (take_run n m.in_flight)) [
  | inl absent ↦
      rw (absent, end_run) (record { running = omega arith; handlers = refl; closed = λ h. h })
  | inr ((r, rest), taken) ↦
      rw (taken, end_run)
        (end_taken-IsCalm now how r rest m (length-take_run n m.in_flight rest r taken))
]

-- ===== src/Transport/Memory/Attempts.antt =====
-- The attempts that the in-process transport spends (transport/memory.ts).
use open_mercato_durable.Common.{
  ℕ, ◌≡◌, subst, sym, ◌∙◌, inl, inr, some, List, [], ◌∷◌, All, Bool-cases, Option-cases,
}
use open_mercato_durable.Transport.Memory.Entries.{Entry, find_ref}
use open_mercato_durable.Transport.Memory.Events.{
  MemoryFaults, Run, Memory, take_run, HandlerEnd, object_of, delay_entry, is_spent, after_throw,
  end_run, end_taken, put_binding, remove, bind, unbind, upsert_tick, Event, step, steps,
}
use open_mercato_durable.Transport.Memory.Lists.{
  find_ref_self, All-delete_entry, All-write_ref, All-take_run,
}
use open_mercato_durable.Transport.Memory.Fits.{
  Fits, FitsRun, IsWithin, branch-IsWithin, start_pump-IsWithin, enqueue-IsWithin, drain-IsWithin,
  fire_tick-IsWithin, hand_back-IsWithin, delay_entry-Fits,
}

object_of-find_ref :
    (r : Run) (xs : List Entry) (e : Entry)
    → object_of r xs ≡ some e
    → find_ref r.entry.ref xs ≡ some e
object_of-find_ref r xs e h = elim (Bool-cases r.is_twin) [
  | inl twin ↦ cc (rw twin at h)
  | inr own ↦ rw own at h
]

after_throw-IsWithin :
    (now : ℕ) (r : Run) (m : Memory) → IsWithin m → IsWithin (after_throw now r m)
unfolding after_throw
after_throw-IsWithin now r m h = elim (Option-cases (object_of r m.entries)) [
  | inl outside ↦
      rw (outside, after_throw)
        (elim (Bool-cases (is_spent r.entry)) [
          | inl spent ↦ rw spent (record {
            entries = All-delete_entry Fits r.entry.delivery m.entries h.entries;
            runs = h.runs;
          })
          | inr left ↦ rw left h
        ])
  | inr (e, there) ↦
      rw (there, after_throw)
        (elim (Bool-cases (is_spent e)) [
          | inl spent ↦ rw spent (record {
            entries = All-delete_entry Fits e.delivery m.entries h.entries;
            runs = h.runs;
          })
          | inr left ↦
              let own =
                find_ref_self r.entry.ref m.entries e (object_of-find_ref r m.entries e there) in
              rw left (record {
                entries =
                    All-write_ref Fits e.ref (delay_entry now) m.entries
                      (λ x found.
                        let is : e ≡ x = cc (sym own ∙ found) in
                        subst (λ y. Fits (delay_entry now y)) is (delay_entry-Fits now e left))
                      h.entries;
                runs = h.runs;
              })
        ])
]

end_taken-IsWithin :
    (now : ℕ) (how : HandlerEnd) (r : Run) (rest : List Run) (m : Memory)
    → IsWithin m
    → All FitsRun rest
    → IsWithin (end_taken now how r rest m)
end_taken-IsWithin now HandlerEnd.returns r rest m h k = elim (Bool-cases r.handed_back) [
  | inl handed ↦ rw handed (record { entries = h.entries; runs = k })
  | inr kept ↦
      rw kept
        (record { entries = All-delete_entry Fits r.entry.delivery m.entries h.entries; runs = k })
]
end_taken-IsWithin now HandlerEnd.throws_no_further_attempts r rest m h k = record {
  entries = All-delete_entry Fits r.entry.delivery m.entries h.entries;
  runs = k;
}
end_taken-IsWithin now HandlerEnd.throws r rest m h k =
    after_throw-IsWithin now r (record m { in_flight = rest })
      (record { entries = h.entries; runs = k })

end_run-IsWithin :
    (now n : ℕ) (how : HandlerEnd) (m : Memory) → IsWithin m → IsWithin (end_run now n how m)
unfolding end_run
end_run-IsWithin now n how m h = elim (Option-cases (take_run n m.in_flight)) [
  | inl absent ↦ rw (absent, end_run) h
  | inr ((r, rest), taken) ↦
      rw (taken, end_run)
        (end_taken-IsWithin now how r rest m h
          (All-take_run FitsRun n m.in_flight rest r h.runs taken).1)
]

step-IsWithin :
    (faults : MemoryFaults) (now : ℕ) (e : Event) (m : Memory)
    → IsWithin m
    → IsWithin (step faults now e m)
unfolding step
step-IsWithin faults now (Event.enqueues queue d retry delay) m h =
    enqueue-IsWithin faults now queue d retry delay m h
step-IsWithin faults now (Event.removes d) m h =
    unfold remove in record { entries = All-delete_entry Fits d m.entries h.entries; runs = h.runs }
step-IsWithin faults now (Event.binds b) m h =
    unfold bind in
    start_pump-IsWithin (record m { handlers = put_binding b m.handlers })
      (record { entries = h.entries; runs = h.runs })
step-IsWithin faults now (Event.unbinds queue) m h =
    unfold unbind in record { entries = h.entries; runs = h.runs }
step-IsWithin faults now (Event.upserts_tick t) m h =
    unfold upsert_tick in record { entries = h.entries; runs = h.runs }
step-IsWithin faults now (Event.tick_fires id) m h = fire_tick-IsWithin faults now id m h
step-IsWithin faults now Event.pumps m h =
    branch-IsWithin m.is_pumping _ m (drain-IsWithin faults now m h) h
step-IsWithin faults now (Event.hands_back n next delay) m h =
    hand_back-IsWithin faults now n next delay m h
step-IsWithin faults now (Event.ends n how) m h = end_run-IsWithin now n how m h
step-IsWithin faults now Event.closes m h = record { entries = h.entries; runs = h.runs }

-- Whatever happens and whatever faults are injected, no handler is ever given an attempt of a
-- delivery past the last one, and an entry that waits has an attempt left.
pub steps-IsWithin :
    (faults : MemoryFaults) (events : List (ℕ × Event)) (m : Memory)
    → IsWithin m
    → IsWithin (steps faults events m)
unfolding steps
steps-IsWithin faults [] m h = h
steps-IsWithin faults ((now, e) ∷ es) m h =
    steps-IsWithin faults es (step faults now e m) (step-IsWithin faults now e m h)

-- ===== src/Transport/Memory/Events.antt =====
-- What the transport does, event by event (transport/memory.ts, `MemoryTransport`).
use open_mercato_durable.Common.{
  ℕ, zero, suc, ◌+◌, Bool, true, false, ◌||◌, not, Option, none, some, List, [], ◌∷◌, ◌++◌, ◌==◌,
  ltb, leb, length, map, coalesce, if◌then◌else◌,
}
use open_mercato_durable.Types.{Delivery, RetrySettings, BackoffType}
use open_mercato_durable.Transport.Memory.Entries.{
  backoff_for, DeliveryState, Entry, is_active, find_entry, put_entry, delete_entry, find_ref,
  write_ref, ref_of,
}

pub record MemoryFaults : Type 0 where
  pub duplicate_deliveries : Bool
  pub drop_enqueue : Delivery → Bool
  pub stall : Delivery → Bool

pub record Binding : Type 0 where
  pub queue : ℕ
  pub concurrency : ℕ

pub record Tick : Type 0 where
  pub id : ℕ
  pub queue : ℕ
  pub every_ms : ℕ

-- A call of `run`: the entry as the handler was given it. The twin of a duplicated delivery is a
-- copy, which no other code reads.
pub record Run : Type 0 where
  pub entry : Entry
  pub is_twin : Bool
  pub handed_back : Bool

pub record Memory : Type 0 where
  pub entries : List Entry
  pub handlers : List Binding
  pub ticks : List Tick
  pub in_flight : List Run
  pub is_pumping : Bool
  pub is_closed : Bool
  pub next_ref : ℕ

abbrev pub new_memory : Memory
new_memory = record {
  entries = [];
  handlers = [];
  ticks = [];
  in_flight = [];
  is_pumping = false;
  is_closed = false;
  next_ref = 0;
}

-- `start`.
abbrev pub start_pump : Memory → Memory
start_pump m = if m.is_pumping || m.is_closed then m else record m { is_pumping = true }

abbrev pub new_entry : ℕ → ℕ → ℕ → Delivery → RetrySettings → Option ℕ → Entry
new_entry ref now queue delivery retry delay = record {
  ref = ref;
  queue = queue;
  delivery = delivery;
  available_at = now + coalesce delay 0;
  attempt = 0;
  retry = retry;
  state = if ltb 0 (coalesce delay 0) then DeliveryState.delayed else DeliveryState.waiting;
}

unfoldable pub enqueue :
    MemoryFaults → ℕ → ℕ → Delivery → RetrySettings → Option ℕ → Memory → Memory
unfolding put_entry
enqueue faults now queue delivery retry delay m =
    if faults.drop_enqueue delivery
    then m
    else start_pump (record m {
      entries = put_entry (new_entry m.next_ref now queue delivery retry delay) m.entries;
      next_ref = suc m.next_ref;
    })

unfoldable pub remove : Delivery → Memory → Memory
unfolding delete_entry
remove delivery m = record m { entries = delete_entry delivery m.entries }

abbrev pub state_of : Option Entry → DeliveryState
state_of none = DeliveryState.unknown
state_of (some e) = e.state

unfoldable pub get_state : Delivery → Memory → DeliveryState
unfolding find_entry
get_state delivery m = state_of (find_entry delivery m.entries)

unfoldable pub find_binding : ℕ → List Binding → Option Binding
find_binding queue [] = none
find_binding queue (b ∷ bs) = if b.queue == queue then some b else find_binding queue bs

unfoldable pub put_binding : Binding → List Binding → List Binding
put_binding b [] = b ∷ []
put_binding b (x ∷ xs) = if x.queue == b.queue then b ∷ xs else x ∷ put_binding b xs

unfoldable pub delete_binding : ℕ → List Binding → List Binding
delete_binding queue [] = []
delete_binding queue (b ∷ bs) = if b.queue == queue then bs else b ∷ delete_binding queue bs

unfoldable pub bind : Binding → Memory → Memory
unfolding put_binding
bind b m = start_pump (record m { handlers = put_binding b m.handlers })

unfoldable pub unbind : ℕ → Memory → Memory
unfolding delete_binding
unbind queue m = record m { handlers = delete_binding queue m.handlers }

unfoldable pub find_tick : ℕ → List Tick → Option Tick
find_tick id [] = none
find_tick id (t ∷ ts) = if t.id == id then some t else find_tick id ts

unfoldable pub put_tick : Tick → List Tick → List Tick
put_tick t [] = t ∷ []
put_tick t (x ∷ xs) = if x.id == t.id then t ∷ xs else x ∷ put_tick t xs

unfoldable pub upsert_tick : Tick → Memory → Memory
unfolding put_tick
upsert_tick t m = record m { ticks = put_tick t m.ticks }

abbrev pub tick_retry : RetrySettings
tick_retry = record {
  attempts = 1;
  backoff = record { type = BackoffType.fixed; delay_ms = 0; max_delay_ms = 0 };
}

-- The interval of a tick.
unfoldable pub fire_tick : MemoryFaults → ℕ → ℕ → Memory → Memory
unfolding find_tick enqueue
fire_tick faults now id m = elim (find_tick id m.ticks) [
  | none ↦ m
  | some t ↦
      enqueue faults now t.queue (record { job_id = id; seq = 0; redrives = 0 }) tick_retry none m
]

-- The wait for the runs in flight is bounded, and changes nothing here.
abbrev pub close : Memory → Memory
close m = record m { is_closed = true; is_pumping = false; ticks = [] }

abbrev pub started : Entry → Entry
started e = record e { state = DeliveryState.active; attempt = suc e.attempt }

abbrev pub run_of : Bool → Entry → Run
run_of twin e = record { entry = e; is_twin = twin; handed_back = false }

unfoldable pub start_run : MemoryFaults → Entry → Memory → Memory
unfolding write_ref
start_run faults e m = record m {
  entries = write_ref e.ref started m.entries;
  in_flight =
      m.in_flight
      ++ (run_of false (started e)
          ∷ (if faults.duplicate_deliveries then run_of true (started e) ∷ [] else []));
}

abbrev pub is_ready : ℕ → Entry → Bool
is_ready now e = not (is_active e.state || ltb now e.available_at)

-- The loop of `drain`, over the objects that the map held when it began.
unfoldable pub drain_over : MemoryFaults → ℕ → List ℕ → Memory → Memory
unfolding find_ref find_binding start_run
drain_over faults now [] m = m
drain_over faults now (ref ∷ refs) m = elim (find_ref ref m.entries) [
  | none ↦ drain_over faults now refs m
  | some e ↦ elim (is_ready now e) [
    | false ↦ drain_over faults now refs m
    | true ↦ elim (find_binding e.queue m.handlers) [
      | none ↦ drain_over faults now refs m
      | some b ↦ elim (faults.stall e.delivery) [
        | true ↦ drain_over faults now refs m
        | false ↦ elim (leb b.concurrency (length m.in_flight)) [
          | true ↦ m
          | false ↦ drain_over faults now refs (start_run faults e m)
        ]
      ]
    ]
  ]
]

unfoldable pub drain : MemoryFaults → ℕ → Memory → Memory
unfolding drain_over
drain faults now m = if m.is_closed then m else drain_over faults now (map ref_of m.entries) m

-- A call in flight, by its place, and the others.
unfoldable pub take_run : ℕ → List Run → Option (Run × List Run)
take_run n [] = none
take_run zero (r ∷ rs) = some (r, rs)
take_run (suc n) (r ∷ rs) = elim (take_run n rs) [
  | none ↦ none
  | some (s, rest) ↦ some (s, r ∷ rest)
]

unfoldable pub mark_handed_back : ℕ → List Run → List Run
mark_handed_back n [] = []
mark_handed_back zero (r ∷ rs) = record r { handed_back = true } ∷ rs
mark_handed_back (suc n) (r ∷ rs) = r ∷ mark_handed_back n rs

unfoldable pub hand_back : MemoryFaults → ℕ → ℕ → Delivery → Option ℕ → Memory → Memory
unfolding take_run mark_handed_back delete_entry enqueue
hand_back faults now n next delay m = elim (take_run n m.in_flight) [
  | none ↦ m
  | some (r, rest) ↦ enqueue faults now r.entry.queue next r.entry.retry delay (record m {
    entries = delete_entry r.entry.delivery m.entries;
    in_flight = mark_handed_back n m.in_flight;
  })
]

pub data HandlerEnd : Type 0 where
  returns throws_no_further_attempts throws : HandlerEnd

-- The entry that a call reads when it ends: the object of the map while it is there.
abbrev pub object_of : Run → List Entry → Option Entry
object_of r entries = if r.is_twin then none else find_ref r.entry.ref entries

abbrev pub delay_entry : ℕ → Entry → Entry
delay_entry now e = record e {
  state = DeliveryState.delayed;
  available_at = now + backoff_for e.retry e.attempt;
}

abbrev pub is_spent : Entry → Bool
is_spent e = leb e.retry.attempts e.attempt

-- What a throw makes of the entry: dropped, or delayed for its next attempt. A write to an object
-- outside the map shows nowhere.
unfoldable pub after_throw : ℕ → Run → Memory → Memory
unfolding find_ref write_ref delete_entry backoff_for
after_throw now r m = elim (object_of r m.entries) [
  | none ↦
      if is_spent r.entry then record m { entries = delete_entry r.entry.delivery m.entries } else m
  | some e ↦
      if is_spent e
      then record m { entries = delete_entry e.delivery m.entries }
      else record m { entries = write_ref e.ref (delay_entry now) m.entries }
]

abbrev pub end_taken : ℕ → HandlerEnd → Run → List Run → Memory → Memory
end_taken now HandlerEnd.returns r rest m =
    if r.handed_back
    then record m { in_flight = rest }
    else record m { in_flight = rest; entries = delete_entry r.entry.delivery m.entries }
end_taken now HandlerEnd.throws_no_further_attempts r rest m = record m {
  in_flight = rest;
  entries = delete_entry r.entry.delivery m.entries;
}
end_taken now HandlerEnd.throws r rest m = after_throw now r (record m { in_flight = rest })

unfoldable pub end_run : ℕ → ℕ → HandlerEnd → Memory → Memory
unfolding take_run after_throw delete_entry
end_run now n how m = elim (take_run n m.in_flight) [
  | none ↦ m
  | some (r, rest) ↦ end_taken now how r rest m
]

pub data Event : Type 0 where
  enqueues : (queue : ℕ) → Delivery → RetrySettings → (delay : Option ℕ) → Event
  removes : Delivery → Event
  binds : Binding → Event
  unbinds : (queue : ℕ) → Event
  upserts_tick : Tick → Event
  tick_fires : (id : ℕ) → Event
  pumps : Event
  hands_back : (run : ℕ) → Delivery → (delay : Option ℕ) → Event
  ends : (run : ℕ) → HandlerEnd → Event
  closes : Event

unfoldable pub step : MemoryFaults → ℕ → Event → Memory → Memory
unfolding enqueue remove bind unbind upsert_tick fire_tick drain hand_back end_run
step faults now (enqueues queue d retry delay) m = enqueue faults now queue d retry delay m
step faults now (removes d) m = remove d m
step faults now (binds b) m = bind b m
step faults now (unbinds queue) m = unbind queue m
step faults now (upserts_tick t) m = upsert_tick t m
step faults now (tick_fires id) m = fire_tick faults now id m
step faults now pumps m = if m.is_pumping then drain faults now m else m
step faults now (hands_back n next delay) m = hand_back faults now n next delay m
step faults now (ends n how) m = end_run now n how m
step faults now closes m = close m

unfoldable pub steps : MemoryFaults → List (ℕ × Event) → Memory → Memory
unfolding step
steps faults [] m = m
steps faults ((now, e) ∷ es) m = steps faults es (step faults now e m)

-- ===== src/Tests/Transport.antt =====
-- A run of the in-process transport: one delivery, whose handler throws once and then returns.
use open_mercato_durable.Common.{ℕ, ◌≡◌, refl, false, none, List, [], ◌∷◌, length, arith}
use open_mercato_durable.Transport.Memory.Entries.{DeliveryState, Entry}
use open_mercato_durable.Transport.Memory.Events.{
  MemoryFaults, Binding, Run, Memory, new_memory, close, run_of, HandlerEnd, end_run, Event, steps,
}
use open_mercato_durable.Registry.Delays.{next_attempt_delay_ms}
use open_mercato_durable.Transport.Memory.Attempts.{steps-IsWithin}
use open_mercato_durable.Transport.Memory.Fits.{IsWithin}
use open_mercato_durable.Transport.Memory.Concurrency.{IsBounded, steps-IsBounded}
use open_mercato_durable.Transport.Memory.Backoff.{AfterThrow, end_run-next_attempt_delay_ms}
use open_mercato_durable.Tests.Data.{retry, first_delivery}

abbrev no_faults : MemoryFaults
no_faults = record { duplicate_deliveries = false; drop_enqueue = λ d. false; stall = λ d. false }

abbrev two_attempts : List (ℕ × Event)
two_attempts =
    (0, Event.binds (record { queue = 4; concurrency = 1 }))
    ∷ (0, Event.enqueues 4 (first_delivery 1) retry none)
    ∷ (0, Event.enqueues 4 (first_delivery 2) retry none)
    ∷ (5, Event.pumps)
    ∷ (6, Event.ends 0 HandlerEnd.throws)
    ∷ (7, Event.pumps)
    ∷ []

steps_test : length (steps no_faults two_attempts new_memory).in_flight ≡ 1
unfolding steps
steps_test = refl

steps-IsWithin_example : IsWithin (steps no_faults two_attempts new_memory)
steps-IsWithin_example =
    steps-IsWithin no_faults two_attempts new_memory (record { entries = tt; runs = tt })

steps-IsBounded_example : IsBounded 1 (steps no_faults two_attempts new_memory)
steps-IsBounded_example =
    steps-IsBounded 1 no_faults refl two_attempts new_memory (omega arith)
      (record { handlers = tt; running = omega arith })

abbrev running_entry : Entry
running_entry = record {
  ref = 0;
  queue = 4;
  delivery = first_delivery 1;
  available_at = 0;
  attempt = 1;
  retry = retry;
  state = DeliveryState.active;
}

abbrev one_running : Memory
one_running = record new_memory {
  entries = running_entry ∷ [];
  in_flight = run_of false running_entry ∷ [];
  next_ref = 1;
}

end_run-next_attempt_delay_ms_example :
    AfterThrow 9 running_entry one_running
      (end_run 9 0 HandlerEnd.throws one_running)
      (next_attempt_delay_ms retry 1)
unfolding open_mercato_durable.Transport.Memory.Events.take_run
    open_mercato_durable.Transport.Memory.Entries.find_ref
end_run-next_attempt_delay_ms_example =
    end_run-next_attempt_delay_ms 9 0 one_running (run_of false running_entry) [] running_entry refl
      refl refl

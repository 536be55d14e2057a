-- ===== src/Transport/Memory/Backoff.antt =====
-- The delay of the in-process transport and the one that the worker writes on the row
-- (transport/memory.ts, `backoffFor` and `run`; core/registry.ts, `nextAttemptDelayMs`).
use open_mercato_durable.Common.{
  ℕ, ◌+◌, ◌≡◌, refl, ap, ◌∙◌, inl, inr, true, false, Option, none, some, List, [], ◌∷◌, ◌==◌,
  Bool-cases,
}
use open_mercato_durable.Types.{RetrySettings}
use open_mercato_durable.Registry.Delays.{BackoffType-cases, capped_delay, next_attempt_delay_ms}
use open_mercato_durable.Transport.Memory.Entries.{
  DeliveryState, Entry, backoff_for, find_ref, write_ref, delete_entry,
}
use open_mercato_durable.Transport.Memory.Events.{
  Run, Memory, delay_entry, is_spent, after_throw, take_run, HandlerEnd, end_run,
}
use open_mercato_durable.Transport.Memory.Lists.{find_ref_self}

find_ref-write_ref :
    (ref : ℕ) (f : Entry → Entry) (xs : List Entry) (e : Entry)
    → ((x : Entry) → (f x).ref ≡ x.ref)
    → find_ref ref xs ≡ some e
    → find_ref ref (write_ref ref f xs) ≡ some (f e)
unfolding find_ref write_ref
find_ref-write_ref ref f [] e keeps h = cc
find_ref-write_ref ref f (x ∷ xs) e keeps h = elim (Bool-cases (x.ref == ref)) [
  | inl same ↦
      let is : x ≡ e = cc (rw same at h) in
      let again : ((f x).ref == ref) ≡ true = ap (λ k. k == ref) (keeps x) ∙ same in
      rw same (rw again (ap (λ y. some (f y)) is))
  | inr other ↦ rw other (rw other (find_ref-write_ref ref f xs e keeps (rw other at h)))
]

abbrev pub waits_for : ℕ → ℕ → Entry → Entry
waits_for now delay e = record e { state = DeliveryState.delayed; available_at = now + delay }

-- What the throw of a handler leaves of its entry, by the delay that the settings give.
abbrev pub AfterThrow : ℕ → Entry → Memory → Memory → Option ℕ → Type 0
AfterThrow now e m n none = n.entries ≡ delete_entry e.delivery m.entries
AfterThrow now e m n (some delay) = find_ref e.ref n.entries ≡ some (waits_for now delay e)

-- The two formulas of the delay agree.
backoff_for-eq-capped_delay :
    (retry : RetrySettings) (attempt : ℕ)
    → backoff_for retry attempt ≡ capped_delay retry.backoff attempt
unfolding backoff_for capped_delay
backoff_for-eq-capped_delay retry attempt = elim (BackoffType-cases retry.backoff.type) [
  | inl exponential ↦ rw (exponential, backoff_for, capped_delay) refl
  | inr fixed ↦ rw (fixed, backoff_for, capped_delay) refl
]

after_throw-delay :
    (now : ℕ) (r : Run) (m : Memory) (e : Entry)
    → r.is_twin ≡ false
    → find_ref r.entry.ref m.entries ≡ some e
    → AfterThrow now e m (after_throw now r m) (next_attempt_delay_ms e.retry e.attempt)
unfolding after_throw next_attempt_delay_ms
after_throw-delay now r m e own found = rw own (
    rw (found, after_throw)
      (elim (Bool-cases (is_spent e)) [
        | inl spent ↦ rw spent refl
        | inr left ↦ rw left (
            find_ref-write_ref e.ref (delay_entry now) m.entries e (λ x. refl)
              (find_ref_self r.entry.ref m.entries e found)
            ∙ ap (λ d. some (waits_for now d e)) (backoff_for-eq-capped_delay e.retry e.attempt))
      ]))

-- When a handler throws, its entry is dropped exactly where the settings give no next attempt, and
-- otherwise it becomes available after exactly the delay that they give: the one that the worker
-- has written on the row.
pub end_run-next_attempt_delay_ms :
    (now n : ℕ) (m : Memory) (r : Run) (rest : List Run) (e : Entry)
    → take_run n m.in_flight ≡ some (r, rest)
    → r.is_twin ≡ false
    → find_ref r.entry.ref m.entries ≡ some e
    → AfterThrow now e m
        (end_run now n HandlerEnd.throws m)
        (next_attempt_delay_ms e.retry e.attempt)
unfolding end_run
end_run-next_attempt_delay_ms now n m r rest e taken own found =
    rw (taken, end_run) (after_throw-delay now r (record m { in_flight = rest }) e own found)

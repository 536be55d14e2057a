-- ===== src/Host/InProcess/Keeps.antt =====
-- A start is never given up, and never doubled (om/in-process-worker.ts).
use open_mercato_durable.Common.{
  ℕ, zero, suc, ◌+◌, ◌≤◌, ◌≡◌, refl, sym, ap, ◌∙◌, inl, inr, Bool, true, false, Option, none, some,
  List, [], ◌∷◌, ◌++◌, length, All, Option-cases, arith,
}
use open_mercato_durable.Host.InProcess.{
  Process, start_in_process_worker, schedule_retry, take_attempt, settle_attempt, end_attempt,
  fire_retry, stop_retrying, ProcessEvent, host_calls, attempt_ends, timer_fires, signal, react,
  react_all,
}

abbrev pub waiting : Option (ℕ × ℕ) → ℕ
waiting none = 0
waiting (some t) = 1

-- The workers, the attempts to start one and the retries to come.
abbrev pub efforts : Process → ℕ
efforts p = p.workers + length p.attempts + waiting p.retry_timer

length-snoc : (xs : List ℕ) (x : ℕ) → length (xs ++ x ∷ []) ≡ suc (length xs)
length-snoc [] x = refl
length-snoc (y ∷ xs) x = ap suc (length-snoc xs x)

take_attempt-length :
    (n : ℕ) (xs rest : List ℕ) (a : ℕ)
    → take_attempt n xs ≡ some (a, rest)
    → length xs ≡ suc (length rest)
unfolding take_attempt
take_attempt-length n [] rest a h = cc
take_attempt-length zero (x ∷ xs) rest a h = ground arith
take_attempt-length (suc n) (x ∷ xs) rest a h = elim (Option-cases (take_attempt n xs)) [
  | inl absent ↦ cc (rw (absent, take_attempt) at h)
  | inr ((b, others), taken) ↦
      let e : ◌≡◌ {A = Option (ℕ × List ℕ)} (some (b, x ∷ others)) (some (a, rest)) =
        rw (taken, take_attempt) at h in
      let whole : x ∷ others ≡ rest = cc e in
      omega (arith, take_attempt-length n xs others b taken, ap length whole)
]

schedule_retry-efforts :
    (attempt : ℕ) (p : Process) → p.shutting_down ≡ false → 1 ≤ efforts (schedule_retry attempt p)
unfolding schedule_retry
schedule_retry-efforts attempt p on = elim (Option-cases p.retry_timer) [
  | inl none' ↦ rw (on, schedule_retry) (rw none' (omega arith))
  | inr (t, waits) ↦ rw (on, schedule_retry) (rw waits (rw waits (omega arith)))
]

schedule_retry-efforts_le :
    (attempt : ℕ) (p : Process) → efforts (schedule_retry attempt p) ≤ efforts p + 1
unfolding schedule_retry
schedule_retry-efforts_le attempt p = ground arith

schedule_retry-shutting_down :
    (attempt : ℕ) (p : Process) → (schedule_retry attempt p).shutting_down ≡ p.shutting_down
unfolding schedule_retry
schedule_retry-shutting_down attempt p = ground arith

settle_attempt_kept :
    (went : Bool) (a : ℕ) (rest : List ℕ) (p : Process)
    → length p.attempts ≡ suc (length rest)
    → 1 ≤ efforts p
    → (settle_attempt went a rest p).shutting_down ≡ false
    → 1 ≤ efforts (settle_attempt went a rest p)
unfolding settle_attempt
settle_attempt_kept true a rest p e h on = omega (arith, e)
settle_attempt_kept false a rest p e h on =
    let q : Process = record p { attempts = rest; memo = false } in
    schedule_retry-efforts a q (sym (schedule_retry-shutting_down a q) ∙ on)

settle_attempt_less :
    (went : Bool) (a : ℕ) (rest : List ℕ) (p : Process)
    → length p.attempts ≡ suc (length rest)
    → efforts (settle_attempt went a rest p) ≤ efforts p
unfolding settle_attempt
settle_attempt_less true a rest p e = omega (arith, e)
settle_attempt_less false a rest p e =
    let q : Process = record p { attempts = rest; memo = false } in
    omega (arith, e, schedule_retry-efforts_le a q)

end_attempt_kept :
    (went : Bool) (n : ℕ) (p : Process)
    → 1 ≤ efforts p
    → (end_attempt went n p).shutting_down ≡ false
    → 1 ≤ efforts (end_attempt went n p)
unfolding end_attempt
end_attempt_kept went n p h on = elim (Option-cases (take_attempt n p.attempts)) [
  | inl absent ↦ rw (absent, end_attempt) h
  | inr ((a, rest), taken) ↦
      rw (taken, end_attempt)
        (settle_attempt_kept went a rest p (take_attempt-length n p.attempts rest a taken) h
          (rw (taken, end_attempt) at on))
]

end_attempt_less : (went : Bool) (n : ℕ) (p : Process) → efforts (end_attempt went n p) ≤ efforts p
unfolding end_attempt
end_attempt_less went n p = elim (Option-cases (take_attempt n p.attempts)) [
  | inl absent ↦ rw (absent, end_attempt) (omega arith)
  | inr ((a, rest), taken) ↦
      rw (taken, end_attempt)
        (settle_attempt_less went a rest p (take_attempt-length n p.attempts rest a taken))
]

fire_retry_kept :
    (p : Process)
    → 1 ≤ efforts p
    → (fire_retry p).shutting_down ≡ false
    → 1 ≤ efforts (fire_retry p)
unfolding fire_retry
fire_retry_kept p h on = elim (Option-cases p.retry_timer) [
  | inl idle ↦ rw (idle, fire_retry) h
  | inr ((a, delay), waits) ↦ ground (arith, length-snoc p.attempts (suc a))
]

fire_retry_less : (p : Process) → efforts (fire_retry p) ≤ efforts p
unfolding fire_retry
fire_retry_less p = elim (Option-cases p.retry_timer) [
  | inl idle ↦ rw (idle, fire_retry) (omega (arith, ap waiting idle))
  | inr ((a, delay), waits) ↦ ground (arith, length-snoc p.attempts (suc a))
]

-- While nobody shuts the process down, an event keeps an effort.
react_kept :
    (e : ProcessEvent) (p : Process)
    → 1 ≤ efforts p
    → (react e p).shutting_down ≡ false
    → 1 ≤ efforts (react e p)
unfolding react
react_kept (host_calls building) p h on =
    unfold start_in_process_worker in ground (arith, length-snoc p.attempts 1)
react_kept (attempt_ends went n) p h on = end_attempt_kept went n p h on
react_kept timer_fires p h on = fire_retry_kept p h on
react_kept signal p h on = unfold stop_retrying in ground arith

settle_attempt-shutting_down :
    (went : Bool) (a : ℕ) (rest : List ℕ) (p : Process)
    → (settle_attempt went a rest p).shutting_down ≡ p.shutting_down
unfolding settle_attempt
settle_attempt-shutting_down true a rest p = refl
settle_attempt-shutting_down false a rest p =
    schedule_retry-shutting_down a (record p { attempts = rest; memo = false })

end_attempt-shutting_down :
    (went : Bool) (n : ℕ) (p : Process) → (end_attempt went n p).shutting_down ≡ p.shutting_down
unfolding end_attempt
end_attempt-shutting_down went n p = elim (Option-cases (take_attempt n p.attempts)) [
  | inl absent ↦ rw (absent, end_attempt) refl
  | inr ((a, rest), taken) ↦ rw (taken, end_attempt) (settle_attempt-shutting_down went a rest p)
]

react-shutting_down :
    (e : ProcessEvent) (p : Process) → (react e p).shutting_down ≡ false → p.shutting_down ≡ false
unfolding react
react-shutting_down (host_calls building) p h = unfold start_in_process_worker in ground arith
react-shutting_down (attempt_ends went n) p h = sym (end_attempt-shutting_down went n p) ∙ h
react-shutting_down timer_fires p h = unfold fire_retry in ground arith
react-shutting_down signal p h = unfold stop_retrying in ground arith

react_all-shutting_down :
    (es : List ProcessEvent) (p : Process)
    → (react_all es p).shutting_down ≡ false
    → p.shutting_down ≡ false
unfolding react_all
react_all-shutting_down [] p h = h
react_all-shutting_down (e ∷ es) p h =
    react-shutting_down e p (react_all-shutting_down es (react e p) h)

-- Once the host has called, and until the process is told to shut down, there is always a worker,
-- an attempt to start one or a retry to come, however often and in which order attempts fail.
pub react_all_never_gives_up :
    (es : List ProcessEvent) (p : Process)
    → 1 ≤ efforts p
    → (react_all es p).shutting_down ≡ false
    → 1 ≤ efforts (react_all es p)
unfolding react_all
react_all_never_gives_up [] p h on = h
react_all_never_gives_up (e ∷ es) p h on =
    react_all_never_gives_up es (react e p)
      (react_kept e p h (react_all-shutting_down es (react e p) on)) on

abbrev pub IsNoCall : ProcessEvent → Type 0
IsNoCall (host_calls building) = ⊥
IsNoCall _ = Unit {0}

react_less : (e : ProcessEvent) (p : Process) → IsNoCall e → efforts (react e p) ≤ efforts p
unfolding react
react_less (host_calls building) p none' = absurd none'
react_less (attempt_ends went n) p none' = end_attempt_less went n p
react_less timer_fires p none' = fire_retry_less p
react_less signal p none' = unfold stop_retrying in ground arith

-- Without a further call of the host, the workers, the attempts and the retries to come only
-- become fewer: from one call at most one worker comes, and after a shutdown no retry starts one.
react_all-efforts_le :
    (es : List ProcessEvent) (p : Process) → All IsNoCall es → efforts (react_all es p) ≤ efforts p
unfolding react_all
react_all-efforts_le [] p h = omega arith
react_all-efforts_le (e ∷ es) p (h, hs) =
    omega (arith, react_less e p h, react_all-efforts_le es (react e p) hs)

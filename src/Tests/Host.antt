-- ===== src/Tests/Host.antt =====
-- A host whose first start fails.
use open_mercato_durable.Common.{
  ℕ, ◌+◌, ◌&&◌, some, ◌≡◌, ◌≤◌, refl, true, false, List, [], ◌∷◌, arith,
}
use open_mercato_durable.Store.Table.{is_failed}
use open_mercato_durable.Store.Redrive.{operator_redrive_row}
use open_mercato_durable.Host.Screens.{is_redrivable, is_stuck, is_allowed, operator_redrive-screen}
use open_mercato_durable.Host.Placeholders.{Piece, char, placeholder, to_positional}
use open_mercato_durable.Tests.Data.{tenant, held_job}
use open_mercato_durable.Host.InProcess.{
  Process, new_process, begin_attempt, ProcessEvent, host_calls, attempt_ends, timer_fires,
  react_all,
}
use open_mercato_durable.Host.InProcess.Keeps.{efforts, react_all_never_gives_up}

abbrev called : Process
called = begin_attempt 1 (record new_process { signals_bound = true })

abbrev second_try : List ProcessEvent
second_try = attempt_ends false 0 ∷ timer_fires ∷ attempt_ends true 0 ∷ []

react_all_test : react_all (host_calls false ∷ second_try) new_process ≡ react_all second_try called
unfolding react_all
react_all_test = refl

-- Two calls of the host with a failure in between start two workers.
react_all_twice :
    (react_all
      (host_calls false
        ∷ attempt_ends false 0
        ∷ host_calls false
        ∷ timer_fires
        ∷ attempt_ends true 0
        ∷ attempt_ends true 0
        ∷ [])
      new_process).workers
    ≡ 2
unfolding react_all
react_all_twice = refl

react_all_never_gives_up_example : 1 ≤ efforts (react_all second_try called)
unfolding react_all
react_all_never_gives_up_example = react_all_never_gives_up second_try called (omega arith) refl

operator_redrive-screen_example :
    (30000 ≤ 30000 + 20000
      → (operator_redrive_row 30000 tenant 20000 900000 true).matches (held_job 1) ≡ true
      → is_redrivable 30000 (held_job 1) ≡ true)
    × (is_failed (held_job 1).status ≡ false
        → 30000 ≤ 30000
        → (is_allowed tenant true (held_job 1) && is_stuck 30000 (held_job 1)) ≡ true
        → (operator_redrive_row 30000 tenant 20000 900000 true).matches (held_job 1) ≡ true)
    × (is_failed (held_job 1).status ≡ false
        → 30000 ≤ 30000
        → (operator_redrive_row 30000 tenant 20000 900000 true).matches (held_job 1) ≡ true
        → (is_allowed tenant true (held_job 1) && is_stuck 30000 (held_job 1)) ≡ true)
operator_redrive-screen_example =
    operator_redrive-screen 30000 30000 20000 900000 tenant true (held_job 1)

-- A lease that has expired, but not by the grace, is shown as redrivable and not re-driven.
shown_and_refused :
    (is_redrivable 10000 (held_job 1) ≡ true)
    × ((operator_redrive_row 10000 tenant 20000 900000 true).matches (held_job 1) ≡ false)
unfolding is_redrivable operator_redrive_row held_job
shown_and_refused = (refl, refl)

-- "a=$2-$1"
abbrev numbered : List ℕ
numbered = b'a' ∷ b'=' ∷ b'$' ∷ b'2' ∷ b'-' ∷ b'$' ∷ b'1' ∷ []

to_positional_test :
    to_positional {V = ℕ} numbered (7 ∷ 8 ∷ [])
    ≡ some (b'a' ∷ b'=' ∷ b'?' ∷ b'-' ∷ b'?' ∷ [], 8 ∷ 7 ∷ [])
unfolding to_positional
to_positional_test = refl

abbrev pieces : List Piece
pieces = char b'a' ∷ char b'=' ∷ placeholder 2 ∷ char b'-' ∷ placeholder 1 ∷ []

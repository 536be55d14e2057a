-- ===== src/Transport/PgBoss/Batch.antt =====
-- What becomes of a batch (packages/durable-work/src/transport/pgboss.ts, `bind`).
use open_mercato_durable.Common.{
  ℕ, ◌≡◌, refl, sym, ap, ◌∙◌, inl, inr, Bool, true, false, not, ◌⊎◌, Option, List, [], ◌∷◌, ◌++◌,
}
use open_mercato_durable.Types.{Delivery}
use open_mercato_durable.Transport.Memory.Events.{HandlerEnd}
use open_mercato_durable.Transport.PgBoss.Adapter.{
  Boss, PgBossTransport, Handling, hand_back, run_batch,
}

-- Only a throw that is not `NoFurtherAttempts` asks for a retry.
abbrev pub is_thrown : HandlerEnd → Bool
is_thrown HandlerEnd.throws = true
is_thrown _ = false

-- The jobs whose handler is called: all up to the first such throw.
unfoldable pub called : List Handling → List Handling
called [] = []
called (h ∷ hs) = elim (is_thrown h.end) [ true ↦ h ∷ [] | false ↦ h ∷ called hs ]

unfoldable pub has_throw : List Handling → Bool
has_throw [] = false
has_throw (h ∷ hs) = elim (is_thrown h.end) [ true ↦ true | false ↦ has_throw hs ]

unfoldable pub all_hand_backs : List Handling → List (Delivery × Option ℕ)
all_hand_backs [] = []
all_hand_backs (h ∷ hs) = h.hand_backs ++ all_hand_backs hs

hand_back-append :
    (boss : Boss) (queue : ℕ) (xs ys : List (Delivery × Option ℕ)) (s : PgBossTransport)
    → hand_back boss queue (xs ++ ys) s ≡ hand_back boss queue ys (hand_back boss queue xs s)
unfolding hand_back
hand_back-append boss queue [] ys s = refl
hand_back-append boss queue ((d, ms) ∷ xs) ys s = hand_back-append boss queue xs ys _

HandlerEnd-cases :
    (e : HandlerEnd)
    → (e ≡ HandlerEnd.throws)
      ⊎ ((e ≡ HandlerEnd.returns) ⊎ (e ≡ HandlerEnd.throws_no_further_attempts))
HandlerEnd-cases HandlerEnd.returns = inr (inl refl)
HandlerEnd-cases HandlerEnd.throws_no_further_attempts = inr (inr refl)
HandlerEnd-cases HandlerEnd.throws = inl refl

-- A batch completes if and only if no handler throws but for having no further attempts; the handlers
-- are called in order up to the first that does, none after it; and what those hand back is sent, in
-- that order, and nothing else changes.
pub run_batch-called :
    (boss : Boss) (queue : ℕ) (hs : List Handling) (s : PgBossTransport)
    → run_batch boss queue hs s
      ≡ (not (has_throw hs), hand_back boss queue (all_hand_backs (called hs)) s)
unfolding run_batch called has_throw all_hand_backs hand_back
run_batch-called boss queue [] s = refl
run_batch-called boss queue (h ∷ hs) s =
    let u = hand_back boss queue h.hand_backs s in
    let rest =
      run_batch-called boss queue hs u
      ∙ ap (λ x. (not (has_throw hs), x))
          (sym (hand_back-append boss queue h.hand_backs (all_hand_backs (called hs)) s)) in
    elim (HandlerEnd-cases h.end) [
      | inl thrown ↦
          rw (thrown, run_batch, has_throw, called)
            (ap (λ x. (false, x)) (sym (hand_back-append boss queue h.hand_backs [] s)))
      | inr (inl returned) ↦ rw (returned, run_batch, has_throw, called) rest
      | inr (inr settled) ↦ rw (settled, run_batch, has_throw, called) rest
    ]

-- ===== src/Store/Explained.antt =====
-- What the loser of a conflict on creation is told (store.ts, `insertJob`).
use open_mercato_durable.Common.{
  ℕ, ◌≡◌, refl, sym, subst, ◌⊎◌, ap, inl, inr, Bool, true, false, not, Option, none, some, [], ◌∷◌,
  ◌==◌, coalesce, Bool-cases, Option-cases, arith,
}
use open_mercato_durable.Types.{DurableJob, Scope, StartJobInput}
use open_mercato_durable.Store.Table.{Table, find}
use open_mercato_durable.Store.Create.{
  explain_lock, explain_id, is_truthy, lock_conflict, idempotency_conflict, conflicts, any, first,
  new_job, try_insert, find_by_idempotency_key, find_live_by_lock_key, InsertResult, created,
  lock_key_held, explain_conflict, insert_job,
}
use open_mercato_durable.Store.Holders.{Explains, find-some, idempotency_holder, lock_holder}

-- A key is absent or not the empty text.
abbrev pub is_key : Option ℕ → Bool
is_key none = true
is_key (some k) = not (k == 0)

-- No row of the table is found by the lookup of a key: the row that `insert` tried is in no
-- conflict on it.
abbrev IdempotencyFree : Scope → Option ℕ → Table → Type 0
IdempotencyFree scope none t = Unit
IdempotencyFree scope (some k) t = find_by_idempotency_key scope k t ≡ none

abbrev LockFree : Scope → Option ℕ → Table → Type 0
LockFree scope none t = Unit
LockFree scope (some k) t = find_live_by_lock_key scope k t ≡ none

first-none :
    (p : DurableJob → Bool) (r : DurableJob) (t : Table)
    → first p (r ∷ t) ≡ none
    → (p r ≡ false) × (first p t ≡ none)
unfolding first
first-none p r t h = elim (Bool-cases (p r)) [
  | inl hit ↦ cc (rw hit at h)
  | inr miss ↦ (miss, rw miss at h)
]

find-none :
    (id : ℕ) (r : DurableJob) (t : Table)
    → find id (r ∷ t) ≡ none
    → (r.id == id ≡ false) × (find id t ≡ none)
unfolding find
find-none id r t h = elim (Bool-cases (r.id == id)) [
  | inl hit ↦ cc (rw hit at h)
  | inr miss ↦ (miss, rw miss at h)
]

module _ (now id : ℕ) (scope : Scope) (i : StartJobInput) (queue : ℕ) where
  idempotency-free :
      (key : Option ℕ) (r : DurableJob) (t : Table)
      → i.idempotency_key ≡ key
      → IdempotencyFree scope key (r ∷ t)
      → (idempotency_conflict (new_job now id scope i queue) r ≡ false)
        × IdempotencyFree scope key t
  unfolding new_job find_by_idempotency_key
  idempotency-free none r t e h = (rw e refl, tt)
  idempotency-free (some k) r t e h =
      let (miss, rest) = first-none _ r t h in (rw e (ground arith), rest)

  lock-free :
      (key : Option ℕ) (r : DurableJob) (t : Table)
      → i.lock_key ≡ key
      → LockFree scope key (r ∷ t)
      → (lock_conflict (new_job now id scope i queue) r ≡ false) × LockFree scope key t
  unfolding new_job find_live_by_lock_key
  lock-free none r t e h = (rw e (ground arith), tt)
  lock-free (some k) r t e h = let (miss, rest) = first-none _ r t h in (rw e (ground arith), rest)

  no_conflict :
      (t : Table)
      → find id t ≡ none
      → IdempotencyFree scope i.idempotency_key t
      → LockFree scope i.lock_key t
      → any (conflicts (new_job now id scope i queue)) t ≡ false
  unfolding any new_job
  no_conflict [] absent idem lock = refl
  no_conflict (r ∷ t) absent idem lock =
      let (other, rest) = find-none id r t absent in
      let (a, idem') = idempotency-free i.idempotency_key r t refl idem in
      let (b, lock') = lock-free i.lock_key r t refl lock in
      let c = no_conflict t rest idem' lock' in ground arith

  abbrev Clashes : Table → Type 0
  Clashes t = any (conflicts (new_job now id scope i queue)) t ≡ true

  clash-absurd :
      (t : Table)
      → Clashes t
      → find id t ≡ none
      → IdempotencyFree scope i.idempotency_key t
      → ¬ (LockFree scope i.lock_key t)
  clash-absurd t clash absent idem lock = let free = no_conflict t absent idem lock in cc

  explain_lock-Explains :
      (t : Table)
      → Clashes t
      → find id t ≡ none
      → IdempotencyFree scope i.idempotency_key t
      → is_key i.lock_key ≡ true
      → Explains id scope i t (explain_lock scope i t)
  unfolding explain_lock
  explain_lock-Explains t clash absent idem key = elim (Option-cases i.lock_key) [
    | inl keyless ↦
        absurd (clash-absurd t clash absent idem (subst (λ k. LockFree scope k t) (sym keyless) tt))
    | inr (k, keyed) ↦
        let proper : not (k == 0) ≡ true = rw keyed at key in
        let nonzero : (k == 0) ≡ false = ground arith in
        elim (Option-cases (find_live_by_lock_key scope k t)) [
          | inl nobody ↦ absurd (
              clash-absurd t clash absent idem (subst (λ x. LockFree scope x t) (sym keyed) nobody))
          | inr (r, held) ↦
              let (there, same, own, org, live) = lock_holder scope k t r held in
              let told : explain_lock scope i t ≡ lock_key_held k (some r.id) =
                rw (keyed, nonzero, held, explain_lock) refl in
              subst (Explains id scope i t) (sym told) (r, there, refl, keyed, same, own, org, live)
        ]
  ]

  explain_id-Explains :
      (t : Table)
      → Clashes t
      → IdempotencyFree scope i.idempotency_key t
      → is_key i.lock_key ≡ true
      → Explains id scope i t (explain_id id scope i t)
  unfolding explain_id
  explain_id-Explains t clash idem key = elim (Option-cases (find id t)) [
    | inl absent ↦ rw (absent, explain_id) (explain_lock-Explains t clash absent idem key)
    | inr (r, there) ↦
        let (inside, own) = find-some id t r there in rw (there, explain_id) (r, inside, own)
  ]

  explain_conflict-Explains :
      (t : Table)
      → Clashes t
      → is_key i.idempotency_key ≡ true
      → is_key i.lock_key ≡ true
      → Explains id scope i t (explain_conflict id scope i t)
  unfolding explain_conflict
  explain_conflict-Explains t clash ikey key = elim (Option-cases i.idempotency_key) [
    | inl keyless ↦
        let falsy : is_truthy i.idempotency_key ≡ false = rw keyless refl in
        rw (falsy, explain_conflict)
          (explain_id-Explains t clash (subst (λ k. IdempotencyFree scope k t) (sym keyless) tt)
            key)
    | inr (k, keyed) ↦
        let truthy : is_truthy i.idempotency_key ≡ true = rw keyed (rw keyed at ikey) in
        elim (Option-cases (find_by_idempotency_key scope (coalesce i.idempotency_key 0) t)) [
          | inl nobody ↦
              rw (truthy, nobody, explain_conflict)
                (explain_id-Explains t clash
                  (subst (λ x. IdempotencyFree scope x t) (sym keyed) (rw keyed at nobody)) key)
          | inr (r, found) ↦
              let (inside, same, own) = idempotency_holder scope k t r (rw keyed at found) in
              rw (truthy, found, explain_conflict) (k, keyed, inside, same, own)
        ]
  ]

  refused : (t : Table) → Clashes t → try_insert (new_job now id scope i queue) t ≡ (none, t)
  unfolding try_insert
  refused t clash = rw clash refl

  inserted :
      (t : Table)
      → any (conflicts (new_job now id scope i queue)) t ≡ false
      → try_insert (new_job now id scope i queue) t
        ≡ (some (new_job now id scope i queue), new_job now id scope i queue ∷ t)
  unfolding try_insert
  inserted t free = rw free refl

  abbrev answer_of : Option DurableJob × Table → InsertResult × Table
  answer_of (some r, t) = (created r, t)
  answer_of (none, t) = (explain_conflict id scope i t, t)

  insert_job-answer :
      (t : Table) (row : Option DurableJob) (t' : Table)
      → try_insert (new_job now id scope i queue) t ≡ (row, t')
      → insert_job now id scope i queue (λ u. u) t ≡ answer_of (row, t')
  unfolding insert_job
  insert_job-answer t none t' e =
      rw (e, insert_job) (ap (λ x. (explain_conflict id scope i x.1, x.1)) e)
  insert_job-answer t (some r) t' e = rw (e, insert_job) (ap (λ x. (created r, x.1)) e)

  -- With nobody in between, a start creates the job at the head of the table, or writes nothing and
  -- is answered with a job of the table that is in its way: one of the tenant that carries the
  -- idempotency key, one of the id, or a pending or running one of the tenant and organization that
  -- holds the lock key. The keys are absent or not empty.
  pub insert_job-Explains :
      (t : Table)
      → is_key i.idempotency_key ≡ true
      → is_key i.lock_key ≡ true
      → (insert_job now id scope i queue (λ u. u) t
          ≡ (created (new_job now id scope i queue), new_job now id scope i queue ∷ t))
        ⊎ (Explains id scope i t (insert_job now id scope i queue (λ u. u) t).0
            × ((insert_job now id scope i queue (λ u. u) t).1 ≡ t))
  insert_job-Explains t ikey key =
      elim (Bool-cases (any (conflicts (new_job now id scope i queue)) t)) [
        | inl clash ↦
            let e = insert_job-answer t none t (refused t clash) in
            inr (
              subst (λ x. Explains id scope i t x.0) (sym e)
                  (explain_conflict-Explains t clash ikey key),
              ap (λ x. x.1) e,
            )
        | inr free ↦ inl (insert_job-answer t (some _) _ (inserted t free))
      ]

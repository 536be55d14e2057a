-- ===== src/Service/Inserted.antt =====
-- What an insert, or the explanation of a refused one, says of the table (core/store.ts, `insertJob`).
use open_mercato_durable.Common.{
  ℕ, ◌≡◌, ap, subst, inl, inr, Bool, true, false, some, [], ◌∷◌, ◌==◌, coalesce, Bool-cases,
  Option-cases, ||-split, arith,
}
use open_mercato_durable.Types.{DurableJob, Scope, StartJobInput}
use open_mercato_durable.Store.Table.{Table, find}
use open_mercato_durable.Store.Create.{
  created, existing, new_job, try_insert, is_truthy, conflicts, any, first, find_by_idempotency_key,
  explain_conflict, explain_id, explain_lock,
}
use open_mercato_durable.Protocol.Steps.{is_unique}
use open_mercato_durable.Service.Start.{StartResult, started}
use open_mercato_durable.Service.Idempotent.{carries, Holds}

-- A start that did not throw.
abbrev pub has_job : StartResult → Bool
has_job (started (created job)) = true
has_job (started (existing job)) = true
has_job _ = false

any-first :
    (c p : DurableJob → Bool) (t : Table) (q : DurableJob)
    → any c t ≡ false
    → first p t ≡ some q
    → c q ≡ false
unfolding any first
any-first c p [] q clear found = cc
any-first c p (r ∷ t) q clear found =
    let (a, b) = ||-split (c r) (any c t) clear in
    elim (Bool-cases (p r)) [
      | inl hit ↦ let is : r ≡ q = cc (rw hit at found) in subst (λ x. c x ≡ false) is a
      | inr miss ↦ any-first c p t q b (rw miss at found)
    ]

-- In a table with unique ids a row that a lookup finds is found by its id.
first-find :
    (p : DurableJob → Bool) (t : Table) (q : DurableJob)
    → is_unique t ≡ true
    → first p t ≡ some q
    → (find q.id t ≡ some q) × (p q ≡ true)
unfolding is_unique first find
first-find p [] q unique found = cc
first-find p (r ∷ t) q unique found = elim (Bool-cases (p r)) [
  | inl hit ↦
      let is : r ≡ q = cc (rw hit at found) in
      let own : (r.id == q.id) ≡ true = ground (arith, ap (λ x. x.id) is) in
      (rw own (ap some is), subst (λ x. p x ≡ true) is hit)
  | inr miss ↦
      let (alone, rest) : (any (conflicts r) t ≡ false) × (is_unique t ≡ true) = ground arith in
      let apart = any-first (conflicts r) p t q alone (rw miss at found) in
      let other : (r.id == q.id) ≡ false = ground arith in
      rw other (first-find p t q rest (rw miss at found))
]

clash_bool : {b : Bool} → b ≡ false → b ≡ true → ⊥
clash_bool h k = cc

explain_id-not_existing :
    (id : ℕ) (scope : Scope) (i : StartJobInput) (t : Table)
    → has_job (started (explain_id id scope i t)) ≡ false
unfolding explain_id explain_lock
explain_id-not_existing id scope i t = ground arith

pub explained-Holds :
    (id : ℕ) (scope : Scope) (i : StartJobInput) (key : ℕ) (t : Table)
    → i.idempotency_key ≡ some key
    → is_unique t ≡ true
    → has_job (started (explain_conflict id scope i t)) ≡ true
    → Holds scope.tenant_id key t
unfolding explain_conflict find_by_idempotency_key
explained-Holds id scope i key t keyed unique h = elim (Bool-cases (is_truthy i.idempotency_key)) [
  | inr blank ↦
      absurd (clash_bool (explain_id-not_existing id scope i t) (rw (blank, explain_conflict) at h))
  | inl given ↦
      elim (Option-cases (find_by_idempotency_key scope (coalesce i.idempotency_key 0) t)) [
        | inl missing ↦ absurd (
            clash_bool (explain_id-not_existing id scope i t)
              (rw (given, missing, explain_conflict) at h))
        | inr (q, hit) ↦
            let look : first (carries scope.tenant_id key) t ≡ some q = rw keyed at hit in
            let (found, holds) = first-find (carries scope.tenant_id key) t q unique look in
            record { id = q.id; row = q; found = found; keyed = holds }
      ]
]

-- A row that was inserted carries the key of the start.
pub inserted-Holds :
    (now id : ℕ) (scope : Scope) (i : StartJobInput) (queue key : ℕ) (t : Table) (r : DurableJob)
    → i.idempotency_key ≡ some key
    → (try_insert (new_job now id scope i queue) t).0 ≡ some r
    → Holds scope.tenant_id key (try_insert (new_job now id scope i queue) t).1
unfolding try_insert new_job find
inserted-Holds now id scope i queue key t r keyed done =
    let q = new_job now id scope i queue in
    elim (Bool-cases (any (conflicts q) t)) [
      | inl clash ↦ cc (rw clash at done)
      | inr free ↦
          rw free
            (record { id = id; row = q; found = ground arith; keyed = rw keyed (ground arith) })
    ]

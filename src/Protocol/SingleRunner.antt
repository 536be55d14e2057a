-- ===== src/Protocol/SingleRunner.antt =====
-- The unique indexes of core/schema.ts over every sequence of statements.
use mathlib.Core.Option.{some-injective}
use open_mercato_durable.Common.{
  ℕ, ◌≡◌, ◌≢◌, refl, ◌∙◌, subst, inl, inr, Bool, true, false, ◌&&◌, ◌||◌, not, some, [], ◌∷◌, arith,
  ◌==◌, Bool-cases, ||-split, ||-join,
}
use open_mercato_durable.Types.{DurableJob}
use open_mercato_durable.Store.Table.{Table, Statement, row_after, update, find, is_live}
use open_mercato_durable.Store.Create.{
  try_insert, new_job, conflicts, lock_conflict, idempotency_conflict, any,
}
use open_mercato_durable.Store.Rows.{KeepsOrigin}
use open_mercato_durable.Store.Writes.{Write-origin, Write-live}
use open_mercato_durable.Protocol.Steps.{Database, is_unique, Step, Reach, empty_at}
use open_mercato_durable.Protocol.Steps.Step.{elapse, write, reopen, create}
use open_mercato_durable.Protocol.Steps.Reach.{here, next}

not-split : (a b : Bool) → (not a && b) ≡ true → (a ≡ false) × (b ≡ true)
not-split a b h = ground arith

not-join : (a b : Bool) → a ≡ false → b ≡ true → (not a && b) ≡ true
not-join a b h k = ground arith

conflicts-lock : (r q : DurableJob) → conflicts r q ≡ false → lock_conflict r q ≡ false
conflicts-lock r q h =
    (||-split (idempotency_conflict r q) (lock_conflict r q)
      (||-split (r.id == q.id) (idempotency_conflict r q || lock_conflict r q) h).1).1

-- A statement that revives no row that has ended.
abbrev KeepsEnded : Statement → Type 0
KeepsEnded s =
    (r : DurableJob)
    → s.matches r ≡ true
    → is_live (s.set r).status ≡ true
    → is_live r.status ≡ true

row_after-conflicts :
    (s : Statement) (r q : DurableJob)
    → KeepsOrigin s
    → KeepsEnded s
    → conflicts r q ≡ false
    → (conflicts (row_after s r) q ≡ false) × (conflicts r (row_after s q) ≡ false)
row_after-conflicts s r q keeps ended h = (left, right)
  where
    left : conflicts (row_after s r) q ≡ false
    left = ground (arith, keeps r, ended r)

    right : conflicts r (row_after s q) ≡ false
    right = ground (arith, keeps q, ended q)

any_mono :
    (p q : DurableJob → Bool) (t : Table)
    → ((r : DurableJob) → p r ≡ false → q r ≡ false)
    → any p t ≡ false
    → any q t ≡ false
unfolding any
any_mono p q [] imp h = refl
any_mono p q (r ∷ t) imp h =
    let (a, b) = ||-split (p r) (any p t) h in
    ||-join (q r) (any q t) (imp r a) (any_mono p q t imp b)

any-update :
    (id : ℕ) (s : Statement) (r : DurableJob) (t : Table)
    → KeepsOrigin s
    → KeepsEnded s
    → any (conflicts r) t ≡ false
    → any (conflicts r) (update id s t).1 ≡ false
unfolding any update
any-update id s r [] keeps ended h = refl
any-update id s r (q ∷ t) keeps ended h =
    let (a, b) = ||-split (conflicts r q) (any (conflicts r) t) h in
    elim (Bool-cases (q.id == id)) [
      | inl hit ↦ rw hit (
          ||-join (conflicts r (row_after s q)) (any (conflicts r) t)
            (row_after-conflicts s r q keeps ended a).1 b)
      | inr miss ↦ rw miss (
          ||-join (conflicts r q) (any (conflicts r) (update id s t).1) a
            (any-update id s r t keeps ended b))
    ]

-- Of a statement that keeps the origins and revives nothing, the table stays unique.
update-is_unique :
    (id : ℕ) (s : Statement) (t : Table)
    → KeepsOrigin s
    → KeepsEnded s
    → is_unique t ≡ true
    → is_unique (update id s t).1 ≡ true
unfolding is_unique update
update-is_unique id s [] keeps ended h = refl
update-is_unique id s (q ∷ t) keeps ended h =
    let (a, b) = not-split (any (conflicts q) t) (is_unique t) h in
    elim (Bool-cases (q.id == id)) [
      | inl hit ↦ rw hit (
          not-join (any (conflicts (row_after s q)) t) (is_unique t)
            (any_mono (conflicts q) (conflicts (row_after s q)) t
              (λ p c. (row_after-conflicts s q p keeps ended c).0) a)
            b)
      | inr miss ↦ rw miss (
          not-join (any (conflicts q) (update id s t).1) (is_unique (update id s t).1)
            (any-update id s q t keeps ended a) (update-is_unique id s t keeps ended b))
    ]

try_insert-is_unique :
    (q : DurableJob) (t : Table) → is_unique t ≡ true → is_unique (try_insert q t).1 ≡ true
unfolding is_unique try_insert
try_insert-is_unique q t h = elim (Bool-cases (any (conflicts q) t)) [
  | inl clash ↦ rw clash h
  | inr free ↦ rw free (not-join (any (conflicts q) t) (is_unique t) free h)
]

Step-is_unique : {d e : Database} → Step d e → is_unique d.jobs ≡ true → is_unique e.jobs ≡ true
Step-is_unique (elapse later h) u = u
Step-is_unique {d} (write j {s} w) u = update-is_unique j s d.jobs (Write-origin w) (Write-live w) u
Step-is_unique (reopen j scope grace ttl force h) u = h
Step-is_unique {d} (create j scope i queue) u =
    try_insert-is_unique (new_job d.now j scope i queue) d.jobs u

-- No interleaving of statements breaks the unique indexes, although only the insert and the
-- operator's re-drive are checked against them.
pub Reach-is_unique :
    {d e : Database} → is_unique d.jobs ≡ true → Reach d e → is_unique e.jobs ≡ true
Reach-is_unique u here = u
Reach-is_unique u (next reach step) = Step-is_unique step (Reach-is_unique u reach)

find-any :
    (p : DurableJob → Bool) (id : ℕ) (t : Table) (r : DurableJob)
    → any p t ≡ false
    → find id t ≡ some r
    → p r ≡ false
unfolding any find
find-any p id [] r h found = cc
find-any p id (q ∷ t) r h found = ground (arith, find-any p id t r)

conflicts_comm : (r q : DurableJob) → conflicts r q ≡ conflicts q r
conflicts_comm r q = ground arith

find-tail :
    (p : DurableJob) (j : ℕ) (t : Table) {q : DurableJob}
    → p.id ≢ j
    → find j (p ∷ t) ≡ some q
    → find j t ≡ some q
unfolding find
find-tail p j t ne h = ground arith

is_unique-lookups :
    (t : Table) (i j : ℕ) (r q : DurableJob)
    → is_unique t ≡ true
    → i ≢ j
    → find i t ≡ some r
    → find j t ≡ some q
    → conflicts r q ≡ false
unfolding is_unique find
is_unique-lookups [] i j r q u ne at_r at_q = cc
is_unique-lookups (p ∷ t) i j r q u ne at_r at_q =
    let (a, b) = not-split (any (conflicts p) t) (is_unique t) u in
    elim (Bool-cases (p.id == i)) [
      | inl hit ↦
          subst (λ x. conflicts x q ≡ false) (some-injective p r (rw hit at at_r))
            (find-any (conflicts p) j t q a (find-tail p j t (λ e. ne (ground arith)) at_q))
      | inr miss ↦ elim (Bool-cases (p.id == j)) [
        | inl hit ↦
            conflicts_comm r q
            ∙ subst (λ x. conflicts x r ≡ false) (some-injective p q (rw hit at at_q))
                (find-any (conflicts p) i t r a (rw miss at at_r))
        | inr other ↦ is_unique-lookups t i j r q b ne (rw miss at at_r) (rw other at at_q)
      ]
    ]

-- The single-runner guarantee: however statements interleave from an empty table, two different
-- jobs that hold one lock key in one tenant and organization are never both pending or running.
pub one_live_job_per_lock_key :
    (start : ℕ) {d : Database} (i j key : ℕ) (r q : DurableJob)
    → Reach (empty_at start) d
    → i ≢ j
    → find i d.jobs ≡ some r
    → find j d.jobs ≡ some q
    → r.lock_key ≡ some key
    → q.lock_key ≡ some key
    → r.tenant_id ≡ q.tenant_id
    → r.organization_id ≡ q.organization_id
    → is_live r.status ≡ true
    → is_live q.status ≡ false
unfolding is_unique
one_live_job_per_lock_key start {d} i j key r q reach ne at_r at_q kr kq tenant org live =
    let apart = is_unique-lookups d.jobs i j r q (Reach-is_unique refl reach) ne at_r at_q in
    let lock : lock_conflict r q ≡ false = conflicts-lock r q apart in ground arith

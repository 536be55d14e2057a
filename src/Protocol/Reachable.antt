-- ===== src/Protocol/Reachable.antt =====
-- A row of core/store.ts over every sequence of statements.

use open_mercato_durable.Common.{
  ℕ, ◌≡◌, ◌∙◌, inl, inr, Bool, true, false, some, [], ◌∷◌, All, arith, ◌==◌, Bool-cases,
}
use open_mercato_durable.Types.{DurableJob, Scope}
use open_mercato_durable.Store.Table.{Table, Statement, row_after, update, find}
use open_mercato_durable.Store.Create.{try_insert, new_job, conflicts, any}
use open_mercato_durable.Store.Rows.{KeepsOrigin, find-id, find-update_self, find-update_ne}
use open_mercato_durable.Store.Redrive.{operator_redrive_row}
use open_mercato_durable.Store.Writes.{
  Write, Advances, Advances-refl, Advances-trans, Write-origin, Write-Advances,
  operator_redrive-origin, operator_redrive-Advances,
}
use open_mercato_durable.Store.WellFormed.{
  WellFormed, Write-WellFormed, operator_redrive-WellFormed, new_job-WellFormed, update-All,
}
use open_mercato_durable.Protocol.Steps.{Database, Step, Reach}
use open_mercato_durable.Protocol.Steps.Step.{elapse, write, reopen, create}
use open_mercato_durable.Protocol.Steps.Reach.{here, next}

any-find :
    (p : DurableJob → Bool) (id : ℕ) (t : Table) (r : DurableJob)
    → any p t ≡ false
    → find id t ≡ some r
    → p r ≡ false
unfolding any find
any-find p id [] r h found = cc
any-find p id (q ∷ t) r h found = ground (arith, any-find p id t r)

-- An insert leaves every other row in its place.
pub find-try_insert :
    (q : DurableJob) (id : ℕ) (t : Table) (r : DurableJob)
    → find id t ≡ some r
    → find id (try_insert q t).1 ≡ some r
unfolding try_insert find
find-try_insert q id t r found = elim (Bool-cases (any (conflicts q) t)) [
  | inl clash ↦ rw clash found
  | inr free ↦
      rw free (ground (arith, any-find (conflicts q) id t r free found, find-id id t r found))
]

-- A relation that every statement has between a row that it matches and what it writes.
pub record IsFollowed (R : DurableJob → DurableJob → Type 0) : Type 0 where
  pub same : (r : DurableJob) → R r r
  pub chain : (r q p : DurableJob) → R r q → R q p → R r p
  pub by_write :
      (now : ℕ) (s : Statement)
      → Write now s
      → (r : DurableJob) → s.matches r ≡ true
      → R r (s.set r)
  pub by_operator :
      (now : ℕ) (scope : Scope) (grace ttl : ℕ) (force : Bool) (r : DurableJob)
      → (operator_redrive_row now scope grace ttl force).matches r ≡ true
      → R r ((operator_redrive_row now scope grace ttl force).set r)

-- The row of `id` is still there, and `R` leads from `r` to it.
abbrev pub Follows : (DurableJob → DurableJob → Type 0) → ℕ → DurableJob → Table → Type 0
Follows R id r t = (q : DurableJob) × (find id t ≡ some q) × R r q

module _ {R : DurableJob → DurableJob → Type 0} (followed : IsFollowed R) where
  update-Follows :
      (id j : ℕ) (s : Statement) (t : Table) (r : DurableJob)
      → KeepsOrigin s
      → ((q : DurableJob) → s.matches q ≡ true → R q (s.set q))
      → find id t ≡ some r
      → Follows R id r (update j s t).1
  update-Follows id j s t r keeps follow found = elim (Bool-cases (id == j)) [
    | inl same_id ↦ at_own (ground arith)
    | inr other ↦ (r, find-update_ne j id s t keeps (ground arith) ∙ found, followed.same r)
  ]
    where
      after : R r (row_after s r)
      after = elim (Bool-cases (s.matches r)) [
        | inl hit ↦ rw hit (follow r hit)
        | inr miss ↦ rw miss (followed.same r)
      ]

      at_own : id ≡ j → Follows R id r (update j s t).1
      at_own e = rw (← e) (row_after s r, find-update_self id s t r keeps found, after)

  Step-Follows :
      {d e : Database} (id : ℕ) (r : DurableJob)
      → Step d e
      → find id d.jobs ≡ some r
      → Follows R id r e.jobs
  Step-Follows id r (elapse later h) found = (r, found, followed.same r)
  Step-Follows {d} id r (write j {s} w) found =
      update-Follows id j s d.jobs r (Write-origin w) (followed.by_write d.now s w) found
  Step-Follows {d} id r (reopen j scope grace ttl force h) found =
      update-Follows id j _ d.jobs r (operator_redrive-origin d.now scope grace ttl force)
        (followed.by_operator d.now scope grace ttl force) found
  Step-Follows {d} id r (create j scope i queue) found =
      (r, find-try_insert _ id d.jobs r found, followed.same r)

  pub Reach-Follows :
      {d e : Database} (id : ℕ) (r : DurableJob)
      → find id d.jobs ≡ some r
      → Reach d e
      → Follows R id r e.jobs
  Reach-Follows id r found here = (r, found, followed.same r)
  Reach-Follows id r found (next reach step) =
      let (q, at_q, a) = Reach-Follows id r found reach in
      let (p, at_p, b) = Step-Follows id q step at_q in (p, at_p, followed.chain r q p a b)

Advances-IsFollowed : IsFollowed Advances
Advances-IsFollowed = record {
  same = Advances-refl;
  chain = λ r q p a b. Advances-trans a b;
  by_write = λ now s w r hit. Write-Advances w r hit;
  by_operator = operator_redrive-Advances;
}

-- Whatever statements run, in whatever order, a job's row stays in the table with what creation
-- wrote, its lease epoch and the counters of its delivery identity never fall, and a job that is
-- completed or cancelled stays so.
pub Reach-Kept :
    {d e : Database} (id : ℕ) (r : DurableJob)
    → find id d.jobs ≡ some r
    → Reach d e
    → (q : DurableJob) × (find id e.jobs ≡ some q) × Advances r q
Reach-Kept id r found reach = Reach-Follows Advances-IsFollowed id r found reach

Step-WellFormed : {d e : Database} → Step d e → All WellFormed d.jobs → All WellFormed e.jobs
unfolding try_insert
Step-WellFormed (elapse later h) w = w
Step-WellFormed {d} (write j {s} x) w = update-All WellFormed j s d.jobs (Write-WellFormed x) w
Step-WellFormed {d} (reopen j scope grace ttl force h) w =
    update-All WellFormed j _ d.jobs (operator_redrive-WellFormed d.now scope grace ttl force) w
Step-WellFormed {d} (create j scope i queue) w =
    elim (Bool-cases (any (conflicts (new_job d.now j scope i queue)) d.jobs)) [
      | inl clash ↦ rw clash w
      | inr free ↦ rw free (new_job-WellFormed d.now j scope i queue, w)
    ]

-- Every row of every reachable table is well formed, if those of the first table are: the owner,
-- the waiting time, the finishing time, the lease's expiry and the error code agree with the status.
pub Reach-WellFormed : {d e : Database} → All WellFormed d.jobs → Reach d e → All WellFormed e.jobs
Reach-WellFormed w here = w
Reach-WellFormed w (next reach step) = Step-WellFormed step (Reach-WellFormed w reach)

-- ===== src/Protocol/Fence.antt =====
-- The fences of core/store.ts, the epoch of a lease and the identity of a delivery, over every
-- sequence of statements.
use mathlib.Core.Option.{some-injective, none-ne-some}
use open_mercato_durable.Common.{
  ℕ, ◌+◌, ◌≤◌, ◌<◌, ◌≡◌, refl, sym, ap, ◌∙◌, subst, ◌⊎◌, inl, inr, Bool, true, false, none, some,
  arith, Bool-cases, Option-cases,
}
use open_mercato_durable.Types.{DurableJob, Scope, Lease, Delivery}
use open_mercato_durable.Store.Table.{Statement, update, find, is_epoch}
use open_mercato_durable.Store.Lease.{claim_row, claim, yield_slice_row, yield_slice}
use open_mercato_durable.Store.Rows.{find-id}
use open_mercato_durable.Store.Rows.{update-refused, update-some}
use open_mercato_durable.Store.Writes.{Fenced, Advances, Fenced-epoch, Write-origin}
use open_mercato_durable.Store.Writes.Fenced.{yields}
use open_mercato_durable.Store.Writes.Write.{claims, fenced}
use open_mercato_durable.Protocol.Steps.{Database, Reach}
use open_mercato_durable.Protocol.Reachable.{Reach-Kept}

epoch-not-lt : (l : Lease) (q : DurableJob) → is_epoch l q ≡ true → ¬ (l.epoch < q.lease_epoch)
epoch-not-lt l q h lt = ground arith

yield_slice_row-seq :
    (now : ℕ) (l : Lease) (interrupted : Bool) (r : DurableJob)
    → ((yield_slice_row now l interrupted).set r).continuation_seq ≡ r.continuation_seq + 1
unfolding yield_slice_row
yield_slice_row-seq now l interrupted r = refl

-- A delivery is behind a row that has moved on to a later slice or a later re-drive.
abbrev pub IsBehind : Delivery → DurableJob → Type 0
IsBehind x r = (x.seq < r.continuation_seq) ⊎ (x.redrives < r.redrives)

IsBehind-Advances : (x : Delivery) (r q : DurableJob) → Advances r q → IsBehind x r → IsBehind x q
IsBehind-Advances x r q a (inl behind) = inl (omega (arith, a.seq))
IsBehind-Advances x r q a (inr behind) = inr (omega (arith, a.redrives))

-- Once a job's epoch has passed a lease's, every statement under that lease is refused, at any
-- later time and whatever ran in between.
pub stale_lease_refused :
    {d e : Database} (l : Lease) (r : DurableJob) {s : Statement}
    → find l.job_id d.jobs ≡ some r
    → l.epoch < r.lease_epoch
    → Reach d e
    → Fenced e.now l s
    → update l.job_id s e.jobs ≡ (none, e.jobs)
stale_lease_refused {e = e} l r {s} found stale reach f =
    let (q, at_q, a) = Reach-Kept l.job_id r found reach in
    update-refused l.job_id s e.jobs q at_q (elim (Bool-cases (s.matches q)) [
      | inl hit ↦ absurd (epoch-not-lt l q (Fenced-epoch f q hit) (omega (arith, a.epoch)))
      | inr miss ↦ miss
    ])

-- The lease that a claim hands to a slice.
abbrev pub lease_of : DurableJob → ℕ → ℕ → Lease
lease_of c owner ttl = record { job_id = c.id; owner = owner; epoch = c.lease_epoch; ttl_ms = ttl }

pub claim_row-epoch :
    (now : ℕ) (scope : Scope) (d : Delivery) (owner ttl : ℕ) (r : DurableJob)
    → ((claim_row now scope d owner ttl).set r).lease_epoch ≡ r.lease_epoch + 1
unfolding claim_row
claim_row-epoch now scope d owner ttl r = refl

-- Mutual exclusion by generations: when a job is claimed again, every statement under the lease of
-- the earlier claim is refused from then on, whoever runs what in between and afterwards.
pub later_claim_shuts_out_earlier :
    (d e : Database) {f : Database} (id : ℕ) (scope : Scope) (first second : Delivery)
    (owner other ttl ttl' : ℕ) (c c' : DurableJob) {s : Statement}
    → (claim d.now id scope first owner ttl d.jobs).0 ≡ some c
    → Reach (record d { jobs = (claim d.now id scope first owner ttl d.jobs).1 }) e
    → (claim e.now id scope second other ttl' e.jobs).0 ≡ some c'
    → Reach (record e { jobs = (claim e.now id scope second other ttl' e.jobs).1 }) f
    → Fenced f.now (lease_of c owner ttl) s
    → update id s f.jobs ≡ (none, f.jobs)
unfolding claim
later_claim_shuts_out_earlier d e {f} id scope first second owner other ttl ttl' c c' {s} won
      between again after fence =
    let (r, _, _, set_r, at_c) =
      update-some id (claim_row d.now scope first owner ttl) d.jobs c
        (Write-origin (claims scope first owner ttl)) won in
    let (q, at_q, a) = Reach-Kept id c at_c between in
    let (q', at_q', _, set_q, at_c') =
      update-some id (claim_row e.now scope second other ttl') e.jobs c'
        (Write-origin (claims scope second other ttl')) again in
    let same : q ≡ q' = some-injective q q' (sym at_q ∙ at_q') in
    let newer : c'.lease_epoch ≡ q'.lease_epoch + 1 =
      ap (λ x. x.lease_epoch) (sym set_q) ∙ claim_row-epoch e.now scope second other ttl' q' in
    let older : c.lease_epoch ≤ q'.lease_epoch =
      subst (λ x. c.lease_epoch ≤ x.lease_epoch) same a.epoch in
    let own : c.id ≡ id = find-id id _ c at_c in
    subst (λ i. update i s f.jobs ≡ (none, f.jobs)) own
      (stale_lease_refused {d = record e { jobs = _ }} (lease_of c owner ttl) c' (rw own at_c')
        (omega arith) after fence)

claim_row-IsBehind :
    (now : ℕ) (scope : Scope) (x : Delivery) (owner ttl : ℕ) (r : DurableJob)
    → IsBehind x r
    → (claim_row now scope x owner ttl).matches r ≡ false
unfolding claim_row
claim_row-IsBehind now scope x owner ttl r behind = ground arith

-- A delivery that its job has left behind is refused for good.
pub stale_delivery_refused :
    {d e : Database} (id : ℕ) (x : Delivery) (r : DurableJob) (scope : Scope) (owner ttl : ℕ)
    → find id d.jobs ≡ some r
    → IsBehind x r
    → Reach d e
    → claim e.now id scope x owner ttl e.jobs ≡ (none, e.jobs)
unfolding claim
stale_delivery_refused {e = e} id x r scope owner ttl found behind reach =
    let (q, at_q, a) = Reach-Kept id r found reach in
    update-refused id _ e.jobs q at_q
      (claim_row-IsBehind e.now scope x owner ttl q (IsBehind-Advances x r q a behind))

-- The slice that handed its work back cannot be delivered again: after the hand-back the delivery
-- that it consumed is refused for good.
yielded_delivery_refused :
    (d : Database) {e : Database} (l : Lease) (interrupted : Bool) (r : DurableJob) (x : Delivery)
    (next : ℕ × ℕ) (scope : Scope) (owner ttl : ℕ)
    → find l.job_id d.jobs ≡ some r
    → x.seq ≡ r.continuation_seq
    → (yield_slice d.now l interrupted d.jobs).0 ≡ some next
    → Reach (record d { jobs = (yield_slice d.now l interrupted d.jobs).1 }) e
    → claim e.now l.job_id scope x owner ttl e.jobs ≡ (none, e.jobs)
unfolding yield_slice
yielded_delivery_refused d {e} l interrupted r x next scope owner ttl found current handed reach =
    elim (Option-cases (update l.job_id (yield_slice_row d.now l interrupted) d.jobs).0) [
      | inl refused ↦ absurd (none-ne-some next (rw (refused, yield_slice) at handed))
      | inr (c, granted) ↦
          let (q, at_q, _, set_q, at_c) =
            update-some l.job_id (yield_slice_row d.now l interrupted) d.jobs c
              (Write-origin (fenced l (yields interrupted))) granted in
          let same : r ≡ q = some-injective r q (sym found ∙ at_q) in
          let bumped : c.continuation_seq ≡ q.continuation_seq + 1 =
            ap (λ y. y.continuation_seq) (sym set_q) ∙ yield_slice_row-seq d.now l interrupted q in
          let at_r : r.continuation_seq ≡ q.continuation_seq = ap (λ y. y.continuation_seq) same in
          stale_delivery_refused {d = record d { jobs = _ }} l.job_id x c scope owner ttl at_c
            (inl (omega arith)) reach
    ]

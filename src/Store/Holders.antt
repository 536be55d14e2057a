-- ===== src/Store/Holders.antt =====
-- What stands in the way of a start in the table, and that the lookups find it (store.ts,
-- `findByIdempotencyKey`, `findLiveByLockKey`).
use open_mercato_durable.Common.{
  ℕ, ◌≡◌, sym, ◌⊎◌, ap, ◌∙◌, inl, inr, &&-split, Bool, true, Option, none, some, [], ◌∷◌, ◌==◌,
  coalesce, Bool-cases, arith,
}
use open_mercato_durable.Types.{DurableJob, Scope, StartJobInput}
use open_mercato_durable.Store.Table.{Table, is_live, find}
use open_mercato_durable.Store.Create.{
  no_org, same_key, first, find_by_idempotency_key, find_live_by_lock_key, InsertResult, existing,
  job_exists, lock_key_held,
}

-- A row of the table.
abbrev pub IsIn : DurableJob → Table → Type 0
IsIn r [] = ⊥
IsIn r (q ∷ t) = (q ≡ r) ⊎ IsIn r t

-- An answer that is not `created`, and names what is in the way of the start in the table: a job of
-- the tenant that carries the idempotency key, a job of the id, or a live job of the tenant and
-- organization that holds the lock key.
abbrev pub Explains : ℕ → Scope → StartJobInput → Table → InsertResult → Type 0
Explains id scope i t (existing r) =
    (k : ℕ) × (i.idempotency_key ≡ some k)
    × IsIn r t
    × (r.idempotency_key ≡ some k)
    × (r.tenant_id ≡ scope.tenant_id)
Explains id scope i t job_exists = (r : DurableJob) × IsIn r t × (r.id ≡ id)
Explains id scope i t (lock_key_held key (some holder)) =
    (r : DurableJob) × IsIn r t
    × (r.id ≡ holder)
    × (i.lock_key ≡ some key)
    × (r.lock_key ≡ some key)
    × (r.tenant_id ≡ scope.tenant_id)
    × (coalesce r.organization_id no_org ≡ coalesce scope.organization_id no_org)
    × (is_live r.status ≡ true)
Explains id scope i t _ = ⊥

first-some :
    (p : DurableJob → Bool) (t : Table) (r : DurableJob)
    → first p t ≡ some r
    → IsIn r t × (p r ≡ true)
unfolding first
first-some p [] r h = cc
first-some p (q ∷ t) r h = elim (Bool-cases (p q)) [
  | inl hit ↦ let e : q ≡ r = cc (rw hit at h) in (inl e, ap p (sym e) ∙ hit)
  | inr miss ↦ let (there, hit) = first-some p t r (rw miss at h) in (inr there, hit)
]

pub find-some : (id : ℕ) (t : Table) (r : DurableJob) → find id t ≡ some r → IsIn r t × (r.id ≡ id)
unfolding find
find-some id [] r h = cc
find-some id (q ∷ t) r h = elim (Bool-cases (q.id == id)) [
  | inl hit ↦
      let e : q ≡ r = cc (rw hit at h) in
      let own : q.id ≡ id = ground arith in (inl e, ap (λ x. x.id) (sym e) ∙ own)
  | inr miss ↦ let (there, own) = find-some id t r (rw miss at h) in (inr there, own)
]

keyed_by : (o : Option ℕ) (k : ℕ) → same_key o (some k) ≡ true → o ≡ some k
keyed_by none k h = cc
keyed_by (some a) k h = let e : a ≡ k = ground arith in ap some e

pub idempotency_holder :
    (scope : Scope) (k : ℕ) (t : Table) (r : DurableJob)
    → find_by_idempotency_key scope k t ≡ some r
    → IsIn r t × (r.idempotency_key ≡ some k) × (r.tenant_id ≡ scope.tenant_id)
unfolding find_by_idempotency_key
idempotency_holder scope k t r h =
    let (there, hit) = first-some _ t r h in
    let (own, same) = &&-split (r.tenant_id == scope.tenant_id) _ hit in
    (there, keyed_by r.idempotency_key k same, ground arith)

pub lock_holder :
    (scope : Scope) (k : ℕ) (t : Table) (r : DurableJob)
    → find_live_by_lock_key scope k t ≡ some r
    → IsIn r t
      × (r.lock_key ≡ some k)
      × (r.tenant_id ≡ scope.tenant_id)
      × (coalesce r.organization_id no_org ≡ coalesce scope.organization_id no_org)
      × (is_live r.status ≡ true)
unfolding find_live_by_lock_key
lock_holder scope k t r h =
    let (there, hit) = first-some _ t r h in
    let (same, rest) = &&-split (same_key r.lock_key (some k)) _ hit in
    let (own, rest') = &&-split (r.tenant_id == scope.tenant_id) _ rest in
    let (org, live) =
      &&-split (coalesce r.organization_id no_org == coalesce scope.organization_id no_org) _
        rest' in
    (there, keyed_by r.lock_key k same, ground arith, ground arith, live)

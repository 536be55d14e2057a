-- ===== src/Store/Table.antt =====
-- The table of jobs, and what an `update … where id = $1 and … returning` statement does to it.
-- `id` is the primary key, so such a statement reaches one row at most.
use open_mercato_durable.Common.{
  ℕ, Bool, true, false, ◌&&◌, Option, none, some, List, [], ◌∷◌, ◌==◌, if◌then◌else◌, equals,
  same_or_both_null,
}
use open_mercato_durable.Types.{DurableJob, DurableJobStatus, Scope, Lease}

abbrev pub Table : Type 0
Table = List DurableJob

-- The rest of the `where` clause, and the `set` clause.
pub record Statement : Type 0 where
  pub matches : DurableJob → Bool
  pub set : DurableJob → DurableJob

-- What a statement makes of the row that its id names.
abbrev pub row_result : Statement → DurableJob → Option DurableJob
row_result s r = if s.matches r then some (s.set r) else none

abbrev pub row_after : Statement → DurableJob → DurableJob
row_after s r = if s.matches r then s.set r else r

-- The returned row, as `one` reads it, and the table after the statement.
unfoldable pub update : ℕ → Statement → Table → Option DurableJob × Table
update id s [] = (none, [])
update id s (r ∷ t) =
    let rest = update id s t in
    if r.id == id then (row_result s r, row_after s r ∷ t) else (rest.0, r ∷ rest.1)

unfoldable pub find : ℕ → Table → Option DurableJob
find id [] = none
find id (r ∷ t) = if r.id == id then some r else find id t

abbrev pub is_pending : DurableJobStatus → Bool
is_pending DurableJobStatus.pending = true
is_pending _ = false

abbrev pub is_running : DurableJobStatus → Bool
is_running DurableJobStatus.running = true
is_running _ = false

abbrev pub is_failed : DurableJobStatus → Bool
is_failed DurableJobStatus.failed = true
is_failed _ = false

abbrev pub is_completed : DurableJobStatus → Bool
is_completed DurableJobStatus.completed = true
is_completed _ = false

abbrev pub is_cancelled : DurableJobStatus → Bool
is_cancelled DurableJobStatus.cancelled = true
is_cancelled _ = false

-- `status in ('pending','running')`
abbrev pub is_live : DurableJobStatus → Bool
is_live DurableJobStatus.pending = true
is_live DurableJobStatus.running = true
is_live _ = false

-- The scope predicate: a null organization matches only a null organization.
abbrev pub in_scope : Scope → DurableJob → Bool
in_scope scope r =
    r.tenant_id == scope.tenant_id && same_or_both_null r.organization_id scope.organization_id

-- `status = 'running' and lease_owner = $2 and lease_epoch = $3`
abbrev pub is_held : Lease → DurableJob → Bool
is_held l r = is_running r.status && (equals r.lease_owner l.owner && r.lease_epoch == l.epoch)

-- `status = 'running' and lease_epoch = $2`
abbrev pub is_epoch : Lease → DurableJob → Bool
is_epoch l r = is_running r.status && r.lease_epoch == l.epoch

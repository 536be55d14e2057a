-- ===== src/Store/Select.antt =====
-- The reconciler's candidate selection and the read side (store.ts, "Reconciler candidate
-- selection" and "Read side").
use open_mercato_durable.Common.{
  ℕ, zero, suc, ◌*◌, ◌-◌, min, max, Bool, true, false, ◌&&◌, Option, none, some, [], ◌∷◌, ◌==◌,
  if◌then◌else◌, leb, coalesce, is_null, not, is_past, is_null_or_past, length, equals,
}
use open_mercato_durable.Types.{DurableJob, DurableJobStatus, Scope}
use open_mercato_durable.Store.Table.{
  Table, is_pending, is_running, is_completed, is_failed, is_cancelled, is_live, in_scope,
}
use open_mercato_durable.Store.Redrive.{is_stale_pending}

unfoldable pub take : ℕ → Table → Table
take zero t = []
take (suc n) [] = []
take (suc n) (r ∷ t) = r ∷ take n t

unfoldable pub filter : (DurableJob → Bool) → Table → Table
filter p [] = []
filter p (r ∷ t) = if p r then r ∷ filter p t else filter p t

-- `a` does not come after `b` in ascending order: nulls are last.
abbrev pub not_after : Option ℕ → Option ℕ → Bool
not_after (some a) (some b) = leb a b
not_after (some a) none = true
not_after none (some b) = false
not_after none none = true

-- `order by key asc`: a stable insertion sort.
unfoldable pub insert : (DurableJob → Option ℕ) → DurableJob → Table → Table
insert key r [] = r ∷ []
insert key r (q ∷ t) = if not_after (key r) (key q) then r ∷ (q ∷ t) else q ∷ insert key r t

unfoldable pub order_by : (DurableJob → Option ℕ) → Table → Table
unfolding insert
order_by key [] = []
order_by key (r ∷ t) = insert key r (order_by key t)

-- `$n::uuid is null or tenant_id = $n`
abbrev pub of_tenant : Option ℕ → DurableJob → Bool
of_tenant none r = true
of_tenant (some tenant) r = r.tenant_id == tenant

abbrev pub is_cancelling : DurableJob → Bool
is_cancelling r = not (is_null r.cancel_requested_at) && is_live r.status

abbrev pub is_orphan : ℕ → ℕ → ℕ → DurableJob → Bool
is_orphan now grace_ms pending_ttl_ms r =
    is_running r.status
    && (is_past r.lease_expires_at grace_ms now
        && (is_null_or_past r.next_run_at pending_ttl_ms now && is_null r.cancel_requested_at))

abbrev pub is_stale : ℕ → ℕ → DurableJob → Bool
is_stale now pending_ttl_ms r =
    is_pending r.status && (is_null r.cancel_requested_at && is_stale_pending r pending_ttl_ms now)

-- `locked` holds the ids that other transactions have locked, which `skip locked` passes over.
unfoldable pub select_cancelling : (ℕ → Bool) → ℕ → Option ℕ → Table → Table
unfolding take filter order_by
select_cancelling locked limit tenant t = take limit (
    order_by (λ r. r.cancel_requested_at)
      (filter (λ r. (is_cancelling r && of_tenant tenant r) && not (locked r.id)) t))

unfoldable pub select_orphans : (ℕ → Bool) → ℕ → ℕ → ℕ → ℕ → Option ℕ → Table → Table
unfolding take filter order_by
select_orphans locked now grace_ms pending_ttl_ms limit tenant t = take limit (
    order_by (λ r. r.lease_expires_at)
      (filter
        (λ r. (is_orphan now grace_ms pending_ttl_ms r && of_tenant tenant r) && not (locked r.id))
        t))

unfoldable pub select_stale_pending : (ℕ → Bool) → ℕ → ℕ → ℕ → Option ℕ → Table → Table
unfolding take filter order_by
select_stale_pending locked now pending_ttl_ms limit tenant t = take limit (
    order_by (λ r. r.pending_since)
      (filter (λ r. (is_stale now pending_ttl_ms r && of_tenant tenant r) && not (locked r.id)) t))

pub record ListFilter : Type 0 where
  pub kind : Option ℕ
  pub status : Option DurableJobStatus
  pub subject : Option (ℕ × ℕ)
  pub page : Option ℕ
  pub page_size : Option ℕ

-- The empty text is 0, and a falsy filter is no filter.
abbrev pub kind_matches : Option ℕ → DurableJob → Bool
kind_matches none r = true
kind_matches (some k) r = if k == 0 then true else r.kind == k

abbrev pub subject_matches : Option (ℕ × ℕ) → DurableJob → Bool
subject_matches none r = true
subject_matches (some (type, id)) r = equals r.subject_type type && equals r.subject_id id

abbrev pub status_matches : Option DurableJobStatus → DurableJob → Bool
status_matches none r = true
status_matches (some DurableJobStatus.pending) r = is_pending r.status
status_matches (some DurableJobStatus.running) r = is_running r.status
status_matches (some DurableJobStatus.completed) r = is_completed r.status
status_matches (some DurableJobStatus.failed) r = is_failed r.status
status_matches (some DurableJobStatus.cancelled) r = is_cancelled r.status

abbrev pub list_where : Scope → ListFilter → DurableJob → Bool
list_where scope f r =
    in_scope scope r
    && (kind_matches f.kind r && (status_matches f.status r && subject_matches f.subject r))

unfoldable pub drop : ℕ → Table → Table
drop zero t = t
drop (suc n) [] = []
drop (suc n) (r ∷ t) = drop n t

-- `order by created_at desc`
unfoldable pub insert_newest : DurableJob → Table → Table
insert_newest r [] = r ∷ []
insert_newest r (q ∷ t) =
    if leb q.created_at r.created_at then r ∷ (q ∷ t) else q ∷ insert_newest r t

unfoldable pub newest_first : Table → Table
unfolding insert_newest
newest_first [] = []
newest_first (r ∷ t) = insert_newest r (newest_first t)

abbrev pub page_of : ListFilter → ℕ
page_of f = max 1 (coalesce f.page 1)

abbrev pub page_size_of : ListFilter → ℕ
page_size_of f = min 200 (max 1 (coalesce f.page_size 20))

-- The items of the page, and the count of all that match.
unfoldable pub list_jobs : Scope → ListFilter → Table → Table × ℕ
unfolding take drop filter newest_first
list_jobs scope f t =
    let found = filter (list_where scope f) t in
    (
      take (page_size_of f) (drop ((page_of f - 1) * page_size_of f) (newest_first found)),
      length found,
    )

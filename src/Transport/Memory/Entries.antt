-- ===== src/Transport/Memory/Entries.antt =====
-- The map of entries (transport/memory.ts).
use open_mercato_durable.Common.{
  ℕ, ◌*◌, ◌^◌, ◌-◌, min, Bool, true, false, ◌&&◌, Option, none, some, List, [], ◌∷◌, ◌==◌,
  if◌then◌else◌,
}
use open_mercato_durable.Types.{Delivery, RetrySettings, BackoffType}

pub data DeliveryState : Type 0 where
  waiting delayed active completed failed unknown : DeliveryState

pub record Entry : Type 0 where
  pub ref : ℕ
  pub queue : ℕ
  pub delivery : Delivery
  pub available_at : ℕ
  pub attempt : ℕ
  pub retry : RetrySettings
  pub state : DeliveryState

abbrev pub is_active : DeliveryState → Bool
is_active DeliveryState.active = true
is_active _ = false

-- Two identities are equal when the three parts of the deliveries are.
abbrev pub same_id : Delivery → Delivery → Bool
same_id d e = d.job_id == e.job_id && (d.seq == e.seq && d.redrives == e.redrives)

unfoldable pub find_entry : Delivery → List Entry → Option Entry
find_entry d [] = none
find_entry d (e ∷ es) = if same_id e.delivery d then some e else find_entry d es

-- `Map.set`: a key that is there keeps its place.
unfoldable pub put_entry : Entry → List Entry → List Entry
put_entry e [] = e ∷ []
put_entry e (x ∷ xs) = if same_id x.delivery e.delivery then e ∷ xs else x ∷ put_entry e xs

unfoldable pub delete_entry : Delivery → List Entry → List Entry
delete_entry d [] = []
delete_entry d (e ∷ es) = if same_id e.delivery d then es else e ∷ delete_entry d es

-- An object of the map, read and written through a reference to it.
unfoldable pub find_ref : ℕ → List Entry → Option Entry
find_ref ref [] = none
find_ref ref (e ∷ es) = if e.ref == ref then some e else find_ref ref es

unfoldable pub write_ref : ℕ → (Entry → Entry) → List Entry → List Entry
write_ref ref f [] = []
write_ref ref f (e ∷ es) = if e.ref == ref then f e ∷ es else e ∷ write_ref ref f es

abbrev pub ref_of : Entry → ℕ
ref_of e = e.ref

-- `backoffFor`: the truncated subtraction is `Math.max(0, attempt - 1)`.
unfoldable pub backoff_for : RetrySettings → ℕ → ℕ
backoff_for retry attempt =
    let b = retry.backoff in
    let raw : ℕ = elim b.type [
      | BackoffType.fixed ↦ b.delay_ms
      | BackoffType.exponential ↦ b.delay_ms * 2 ^ (attempt - 1)
    ] in
    min raw b.max_delay_ms

-- ===== src/DataSync/Keys.antt =====
-- The single-runner key of a stream (kinds/data-sync-run.ts, `syncLockKey`).
use open_mercato_durable.Common.{ℕ, ◌≡◌, sym, ap, ◌∙◌, false, List, ◌∷◌, ◌++◌}
use open_mercato_durable.Ids.Split.{occurs}
use open_mercato_durable.Ids.Texts.{drop_prefix}
use open_mercato_durable.Ids.RoundTrip.{append_regroup, split_unique}
use open_mercato_durable.DataSync.Start.{lock_prefix, sync_lock_key}

prefix_cancel : (a b : List ℕ) → (lock_prefix ++ a) ≡ (lock_prefix ++ b) → a ≡ b
unfolding drop_prefix
prefix_cancel a b h = cc (ap (drop_prefix lock_prefix) h)

-- Two streams share a key only if they are the same integration, entity and direction, if no entity
-- or direction has a colon in it, whatever the texts of the integrations.
sync_lock_key-injective :
    (integration integration' entity entity' direction direction' : List ℕ)
    → occurs b':' entity ≡ false
    → occurs b':' entity' ≡ false
    → occurs b':' direction ≡ false
    → occurs b':' direction' ≡ false
    → sync_lock_key integration entity direction ≡ sync_lock_key integration' entity' direction'
    → (integration ≡ integration') × (entity ≡ entity') × (direction ≡ direction')
unfolding sync_lock_key
sync_lock_key-injective i i' e e' d d' he he' hd hd' h =
    let cut = append_regroup (lock_prefix ++ i) e d b':' b':' in
    let cut' = append_regroup (lock_prefix ++ i') e' d' b':' b':' in
    let (front, same_direction) =
      split_unique b':' ((lock_prefix ++ i) ++ b':' ∷ e) d ((lock_prefix ++ i') ++ b':' ∷ e') d' hd
        hd' (sym cut ∙ h ∙ cut') in
    let (prefixed, same_entity) =
      split_unique b':' (lock_prefix ++ i) e (lock_prefix ++ i') e' he he' front in
    (prefix_cancel i i' prefixed, same_entity, same_direction)

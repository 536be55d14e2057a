-- ===== src/DataSync/Slices.antt =====
-- When a slice of a run may complete its job (kinds/data-sync-run.ts, `runSlice`).
use open_mercato_durable.World.{World}

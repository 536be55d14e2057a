-- ===== src/Tests/Operator.antt =====
-- An operator's re-drive of a job that somebody drives.
use open_mercato_durable.Common.{ℕ, ◌≡◌, refl, true, none, some, [], ◌∷◌}
use open_mercato_durable.Store.Create.{get_job, find_live_by_lock_key}
use open_mercato_durable.Store.Redrive.{operator_redrive_row}
use open_mercato_durable.World.{World}
use open_mercato_durable.Service.Operate.{not_redrivable, redrive}
use open_mercato_durable.Service.Refused.{pauses}
use open_mercato_durable.Host.Operator.{Caller, RequestBody, responds, refusal, post_redrive}
use open_mercato_durable.Host.Refusals.{run_again, serve, serve-refused}
use open_mercato_durable.Tests.Data.{held_job, quiet, world_of}

abbrev driven : World ℕ
driven = world_of 20 (held_job 1 ∷ [])

abbrev operator : Caller
operator = record {
  auth = some (record { tenant_id = some 7; org_id = none; sub = some 3 });
  has_service = true;
}

abbrev refused : World ℕ
refused = (serve quiet [] none operator 1 (run_again (RequestBody.object true)) driven).1

serve_test :
    serve quiet [] none operator 1 (run_again (RequestBody.object true)) driven
    ≡ (responds 409 (refusal not_redrivable), refused)
unfolding post_redrive held_job open_mercato_durable.Store.Table.find
    open_mercato_durable.Store.Table.update redrive get_job find_live_by_lock_key
    operator_redrive_row
serve_test = refl

serve-refused_example : (n : ℕ) × (refused ≡ pauses quiet n driven)
serve-refused_example =
    serve-refused quiet [] none operator 1 (run_again (RequestBody.object true)) driven refused 409
      (refusal not_redrivable) serve_test refl

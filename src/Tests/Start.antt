-- ===== src/Tests/Start.antt =====
-- A delivery on the host's queue for a run that has its job.
use open_mercato_durable.Common.{
  ℕ, ◌+◌, ◌*◌, ◌≡◌, refl, ◌==◌, true, false, none, some, List, [], ◌∷◌,
}
use open_mercato_durable.Types.{DurableJob}
use open_mercato_durable.Registry.Register.{KindRegistry, get}
use open_mercato_durable.World.{World, pause}
use open_mercato_durable.Service.Start.{start_and_enqueue}
use open_mercato_durable.Service.Idempotent.{Holds, FindsExisting, start_and_enqueue-existing}
use open_mercato_durable.DataSync.Runs.{SyncDomain}
use open_mercato_durable.DataSync.Kind.{Direction}
use open_mercato_durable.DataSync.Start.{
  Names, run_key, SyncJobPayload, adoption_input, adopt_on_delivery, cancelled,
  cancel_durable_job_for_run, sync_lock_key,
}
use open_mercato_durable.DataSync.Adopt.{AdoptsExisting, adopt_on_delivery-existing}
use open_mercato_durable.Tests.Data.{tenant}
use open_mercato_durable.Tests.DataSync.{
  run, still, import_job, import_kind, alone, alone-IsLawful, host,
}

abbrev code_of : List ℕ → ℕ
code_of [] = 0
code_of (c ∷ cs) = c + 256 * code_of cs

abbrev pub names : Names
names = record {
  name = code_of;
  chars = λ n. (n + b'0') ∷ [];
  import_kind = 3;
  export_kind = 8;
  run_subject = 1;
  default_queue = 4;
}

unfoldable pub keyed_job : DurableJob
unfolding import_job open_mercato_durable.DataSync.Start.sync_idempotency_key
keyed_job = record import_job {
  origin = record import_job.origin { idempotency_key = some (run_key names 20) };
}

unfoldable pub keyed_host : World (SyncDomain ℕ)
unfolding host keyed_job
keyed_host = record host { jobs = keyed_job ∷ [] }

pub keyed_host-Holds : Holds 7 (run_key names 20) keyed_host.jobs
unfolding keyed_host open_mercato_durable.Store.Table.find
keyed_host-Holds = record { id = 1; row = keyed_job; found = refl; keyed = refl }

unfoldable pub kinds : KindRegistry (SyncDomain ℕ)
unfolding import_kind
kinds = import_kind ∷ []

abbrev pub payload : SyncJobPayload
payload = record { run_id = 20; batch_size = none; scope = tenant; user_id = none }

pub kinds-get : get 3 kinds ≡ some import_kind
unfolding get kinds import_kind
kinds-get = refl

pub run_key_nonzero : (let key : ℕ = run_key names 20 in key == 0) ≡ false
unfolding open_mercato_durable.DataSync.Start.sync_idempotency_key
run_key_nonzero = refl

start_and_enqueue-existing_example : FindsExisting 7 (run_key names 20) keyed_host (
    start_and_enqueue false alone kinds 4 2
      (adoption_input names Direction.import payload run)
      tenant
      keyed_host)
start_and_enqueue-existing_example =
    start_and_enqueue-existing alone alone-IsLawful tenant
      (adoption_input names Direction.import payload run) (run_key names 20) refl run_key_nonzero
      false kinds 4 2 import_kind keyed_host kinds-get keyed_host-Holds

adopt_on_delivery-existing_example :
    AdoptsExisting 7
      (run_key names 20)
      (still.get_run 20 tenant (pause alone keyed_host).domain)
      (adopt_on_delivery true alone still kinds names Direction.import 2 payload keyed_host).0
    × ((adopt_on_delivery true alone still kinds names Direction.import 2 payload keyed_host).1.sent
        ≡ keyed_host.sent)
adopt_on_delivery-existing_example =
    adopt_on_delivery-existing alone alone-IsLawful names true still kinds Direction.import
      import_kind 2 payload keyed_host kinds-get run_key_nonzero keyed_host-Holds

abbrev shop : List ℕ
shop = b'a' ∷ b':' ∷ b'1' ∷ []

abbrev orders : List ℕ
orders = b'o' ∷ []

abbrev inward : List ℕ
inward = b'i' ∷ []

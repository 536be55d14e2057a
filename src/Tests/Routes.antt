-- ===== src/Tests/Routes.antt =====
-- A run that is started through the wrapped route, and then delivered on the host's queue.
use open_mercato_durable.Common.{ℕ, ◌≡◌, refl, true, none, some, List, [], ◌∷◌, arith}
use open_mercato_durable.World.{World, pause}
use open_mercato_durable.DataSync.Runs.{SyncRun, SyncDomain, find_run}
use open_mercato_durable.DataSync.Kind.{Direction}
use open_mercato_durable.DataSync.Start.{run_key, adopt_on_delivery}
use open_mercato_durable.DataSync.Adopt.{AdoptsExisting}
use open_mercato_durable.DataSync.Routes.{answers, created, RouteServices, post_run}
use open_mercato_durable.DataSync.Routed.{post_run-adopted}
use open_mercato_durable.Tests.Data.{tenant}
use open_mercato_durable.Tests.DataSync.{run, still, import_kind, alone, alone-IsLawful}
use open_mercato_durable.Tests.Start.{names, kinds, kinds-get, payload, run_key_nonzero}

abbrev services : RouteServices ℕ
services = record {
  core_post = λ d. (record { status = 201; id = 20; progress_job_id = some 9 }, d);
  get_auth = answers (some (record { tenant_id = some 7; org_id = none; sub = none }));
  has_container = true;
  get_run = λ id scope d. answers (find_run id d.runs);
}

abbrev fresh : World (SyncDomain ℕ)
fresh = record {
  now = 20;
  jobs = [];
  domain = record { runs = run ∷ []; rest = 0 };
  turn = 0;
  sent = [];
  removed = [];
}

find_run-id : (id : ℕ) (rs : List SyncRun) (r : SyncRun) → find_run id rs ≡ some r → r.id ≡ id
unfolding find_run
find_run-id id [] r h = cc
find_run-id id (q ∷ rs) r h = ground (arith, find_run-id id rs r)

post_run-same : 20 ≡ (post_run true alone services kinds names 2 fresh).0.core.id
unfolding post_run find_run kinds open_mercato_durable.Store.Create.try_insert
post_run-same = refl

unfoldable posted : World (SyncDomain ℕ)
unfolding post_run
posted = (post_run true alone services kinds names 2 fresh).1

post_run-created : (post_run true alone services kinds names 2 fresh).0.durable_work ≡ some created
unfolding post_run find_run kinds open_mercato_durable.Store.Create.try_insert
post_run-created = refl

post_run-adopted_example :
    AdoptsExisting 7
      (run_key names 20)
      (still.get_run 20 tenant (pause alone posted).domain)
      (adopt_on_delivery true alone still kinds names Direction.import 3 payload posted).0
    × ((adopt_on_delivery true alone still kinds names Direction.import 3 payload posted).1.sent
        ≡ posted.sent)
unfolding posted open_mercato_durable.Protocol.Steps.is_unique
post_run-adopted_example =
    post_run-adopted alone alone-IsLawful names true services kinds 2
      (λ id scope d r h. find_run-id id d.runs r h) fresh still Direction.import import_kind 3
      payload refl refl post_run-created post_run-same kinds-get run_key_nonzero

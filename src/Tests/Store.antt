-- ===== src/Tests/Store.antt =====
-- A second job under a lock key that is held.
use open_mercato_durable.Common.{◌≡◌, refl, ◌⊎◌, some, [], ◌∷◌}
use open_mercato_durable.Store.Create.{created, lock_key_held, new_job, insert_job}
use open_mercato_durable.Store.Holders.{Explains}
use open_mercato_durable.Store.Explained.{insert_job-Explains}
use open_mercato_durable.Tests.Data.{tenant, input, fresh_job}

insert_job_test :
    (insert_job 20 2 tenant input 4 (λ u. u) (fresh_job 1 ∷ [])).0 ≡ lock_key_held 99 (some 1)
unfolding insert_job fresh_job
insert_job_test = refl

insert_job-Explains_example :
    (insert_job 20 2 tenant input 4 (λ u. u) (fresh_job 1 ∷ [])
      ≡ (created (new_job 20 2 tenant input 4), new_job 20 2 tenant input 4 ∷ fresh_job 1 ∷ []))
    ⊎ (Explains 2 tenant input
          (fresh_job 1 ∷ [])
          (insert_job 20 2 tenant input 4 (λ u. u) (fresh_job 1 ∷ [])).0
        × ((insert_job 20 2 tenant input 4 (λ u. u) (fresh_job 1 ∷ [])).1 ≡ fresh_job 1 ∷ []))
insert_job-Explains_example = insert_job-Explains 20 2 tenant input 4 (fresh_job 1 ∷ []) refl refl

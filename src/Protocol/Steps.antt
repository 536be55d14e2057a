-- ===== src/Protocol/Steps.antt =====
-- The database as a transition system over the statements of core/store.ts. Postgres runs a
-- statement on a locked row and refuses one that breaks a unique index (core/schema.ts).
use open_mercato_durable.Common.{ℕ, ◌≤◌, ◌≡◌, Bool, true, ◌&&◌, not, [], ◌∷◌}
use open_mercato_durable.Types.{Scope, StartJobInput}
use open_mercato_durable.Store.Table.{Table, Statement, update}
use open_mercato_durable.Store.Redrive.{operator_redrive_row}
use open_mercato_durable.Store.Create.{new_job, try_insert, conflicts, any}
use open_mercato_durable.Store.Writes.{Write}

pub record Database : Type 0 where
  pub now : ℕ
  pub jobs : Table

-- No two rows share a primary key or a key of a unique index.
unfoldable pub is_unique : Table → Bool
unfolding any
is_unique [] = true
is_unique (r ∷ t) = not (any (conflicts r) t) && is_unique t

-- Only the operator's re-drive may bring an ended row back under the index on live rows; it runs
-- in the step `reopen`, which Postgres lets pass only if the indexes still hold.
pub data Step (d : Database) : Database → Type 0 where
  elapse : (later : ℕ) → d.now ≤ later → Step d (record d { now = later })
  write :
      (id : ℕ) {s : Statement} → Write d.now s → Step d (record d { jobs = (update id s d.jobs).1 })
  reopen :
      (id : ℕ) (scope : Scope) (grace ttl : ℕ) (force : Bool)
      → is_unique (update id (operator_redrive_row d.now scope grace ttl force) d.jobs).1 ≡ true
      → Step d (record d {
        jobs = (update id (operator_redrive_row d.now scope grace ttl force) d.jobs).1;
      })
  create :
      (id : ℕ) (scope : Scope) (i : StartJobInput) (queue : ℕ)
      → Step d (record d { jobs = (try_insert (new_job d.now id scope i queue) d.jobs).1 })

pub data Reach (d : Database) : Database → Type 0 where
  here : Reach d d
  next : {e f : Database} → Reach d e → Step e f → Reach d f

abbrev pub empty_at : ℕ → Database
empty_at now = record { now = now; jobs = [] }

-- ===== src/Service/Operate.antt =====
-- `cancel` and `redrive` (core/service.ts).
use open_mercato_durable.Common.{
  ℕ, zero, suc, Bool, ◌&&◌, Option, none, some, ◌==◌, not, if◌then◌else◌, coalesce, ◌++◌, [], ◌∷◌,
}
use open_mercato_durable.Types.{DurableJob, Scope, Message}
use open_mercato_durable.Errors.{Failure}
use open_mercato_durable.Store.Table.{Table, update, is_pending}
use open_mercato_durable.Store.Settle.{request_cancel_row}
use open_mercato_durable.Store.Redrive.{operator_redrive_row, is_unrecoverable_code}
use open_mercato_durable.Store.Create.{is_truthy, get_job, find_live_by_lock_key}
use open_mercato_durable.Registry.Script.{Attempt, commits, throws}
use open_mercato_durable.Registry.Kinds.{ResolvedKind}
use open_mercato_durable.Registry.Register.{KindRegistry, get}
use open_mercato_durable.World.{World, Environment, pause, execute}
use open_mercato_durable.Terminal.Transition.{TerminalOutcome, fenced_out, committed, threw}
use open_mercato_durable.Queue.{end_pending, after_transition, enqueue_job}
use open_mercato_durable.Protocol.Steps.{is_unique}

-- `failed` is a throw, of a callback or of the broker.
pub data RedriveResult : Type 0 where
  redriven : DurableJob → RedriveResult
  lock_key_held : Option ℕ → RedriveResult
  not_redrivable : RedriveResult
  unrecoverable_requires_force : RedriveResult
  failed : Option Failure → RedriveResult

-- The end of the transaction of a re-drive: `unique_violation` is the error 23505.
pub data Reopening : Type 0 where
  not_open : Reopening
  open_again : DurableJob → Reopening
  unique_violation : Reopening
  undone : Failure → Reopening

abbrev pub id_of_row : Option DurableJob → Option ℕ
id_of_row none = none
id_of_row (some r) = some r.id

-- Another live job that holds the key.
abbrev pub holder_of : ℕ → Option DurableJob → Option ℕ
holder_of id none = none
holder_of id (some r) = if r.id == id then none else some r.id

module _ {D : Type 0} where
  abbrev pub remove : DurableJob → World D → World D
  remove r w =
      if is_truthy r.queue_job_id && is_truthy r.queue_name
      then record w {
        removed = w.removed ++ (coalesce r.queue_name 0, coalesce r.queue_job_id 0) ∷ [];
      }
      else w

  -- A failed transaction loses nothing: the row keeps the request.
  abbrev pub cancelled_now :
      Option (ResolvedKind D)
      → Scope
      → DurableJob
      → TerminalOutcome × World D
      → Option DurableJob × World D
  cancelled_now kind scope requested (committed row, w) =
      (some row, after_transition kind row scope (remove requested w))
  cancelled_now kind scope requested (fenced_out, w) = (some requested, w)
  cancelled_now kind scope requested (threw e, w) = (some requested, w)

  unfoldable pub cancel :
      Environment D → KindRegistry D → ℕ → Scope → Option ℕ → World D → Option DurableJob × World D
  unfolding execute get end_pending
  cancel env kinds id scope by w =
      let (row, u) = execute env (λ now t. update id (request_cancel_row now scope by) t) w in
      elim row [
        | none ↦ (none, u)
        | some requested ↦
            if is_pending requested.status
            then cancelled_now (get requested.kind kinds) scope requested
                (end_pending env (get requested.kind kinds) id (λ r. scope) u)
            else (some requested, u)
      ]

  -- `kind.onRedrive`, whose `matched < 1` is thrown.
  abbrev pub reopened : ℕ → Attempt D → Attempt D
  reopened id (commits zero d) = throws (Failure.error none none (Message.reopen_matched_none id))
  reopened id (commits (suc n) d) = commits (suc n) d
  reopened id (throws e) = throws e

  unfoldable pub run_reopen : Option (ResolvedKind D) → DurableJob → Scope → D → Attempt D
  run_reopen none row scope d = commits 1 d
  run_reopen (some k) row scope d = elim k.on_redrive [
    | none ↦ commits 1 d
    | some f ↦ reopened row.id (f row scope d)
  ]

  abbrev pub commit_reopen : Table → DurableJob → Attempt D → World D → Reopening × World D
  commit_reopen jobs row (commits n d) p = (open_again row, record p { jobs = jobs; domain = d })
  commit_reopen jobs row (throws e) p = (undone e, p)

  unfoldable pub reopen :
      Environment D
      → Option (ResolvedKind D)
      → ℕ
      → ℕ
      → ℕ
      → Bool
      → Scope
      → World D
      → Reopening × World D
  unfolding run_reopen
  reopen env kind id grace ttl force scope w =
      let p = pause env w in
      let (row, jobs) = update id (operator_redrive_row p.now scope grace ttl force) p.jobs in
      elim row [
        | none ↦ (not_open, p)
        | some r ↦
            if is_unique jobs
            then commit_reopen jobs r (run_reopen kind r scope p.domain) p
            else (unique_violation, p)
      ]

  abbrev pub after_redrive : ResolvedKind D → DurableJob → Scope → World D → World D
  after_redrive k row scope w = elim k.on_after_redrive [
    | none ↦ w
    | some hook ↦ record w { domain = hook row scope w.domain }
  ]

  -- The holder of the key as a lookup of its own finds it.
  abbrev pub look_up_holder :
      Environment D → Scope → Option ℕ → World D → Option DurableJob × World D
  look_up_holder env scope key w =
      if is_truthy key
      then execute env (λ now t. (find_live_by_lock_key scope (coalesce key 0) t, t)) w
      else (none, w)

  abbrev pub publish_reopened :
      Environment D
      → Option (ResolvedKind D)
      → Scope
      → DurableJob
      → World D
      → RedriveResult × World D
  publish_reopened env none scope row w = (redriven row, w)
  publish_reopened env (some k) scope row w =
      let (sent, u) = enqueue_job env k row w in
      if sent then (redriven row, after_redrive k row scope u) else (failed none, u)

  abbrev pub answer :
      Environment D
      → Option (ResolvedKind D)
      → Scope
      → DurableJob
      → Reopening × World D
      → RedriveResult × World D
  answer env kind scope existing (not_open, w) = (not_redrivable, w)
  answer env kind scope existing (undone e, w) = (failed (some e), w)
  answer env kind scope existing (unique_violation, w) =
      let (holder, u) = look_up_holder env scope existing.lock_key w in
      (lock_key_held (id_of_row holder), u)
  answer env kind scope existing (open_again row, w) = publish_reopened env kind scope row w

  abbrev pub pending_ttl_of : Option (ResolvedKind D) → ℕ
  pending_ttl_of none = 900000
  pending_ttl_of (some k) = k.lease.pending_ttl_ms

  unfoldable pub redrive :
      Environment D
      → KindRegistry D
      → Option ℕ
      → ℕ
      → Scope
      → Bool
      → World D
      → RedriveResult × World D
  unfolding execute get reopen enqueue_job
  redrive env kinds grace id scope force w =
      let (row, u) = execute env (λ now t. (get_job id scope t, t)) w in
      elim row [
        | none ↦ (not_redrivable, u)
        | some job ↦
            if not force && is_unrecoverable_code job.error_code
            then (unrecoverable_requires_force, u)
            else (let (holder, v) = look_up_holder env scope job.lock_key u in
                elim (holder_of id holder) [
                  | some other ↦ (lock_key_held (some other), v)
                  | none ↦
                      (let kind = get job.kind kinds in
                        answer env kind scope job (
                          reopen env kind id (coalesce grace 20000) (pending_ttl_of kind) force
                            scope v))
                ])
      ]

-- ===== src/Host/Refusals.antt =====
-- What a refusal of an operator's route comes to
-- (packages/durable-work/src/modules/durable_work/api/jobs/[id]).
use open_mercato_durable.Common.{
  ℕ, ◌≡◌, refl, ◌∙◌, inl, inr, Bool, false, Option, none, some, ◌==◌, arith, Bool-cases, sym, subst,
  ap, ◌∷◌, [], Option-cases,
}
use open_mercato_durable.Types.{DurableJob, Scope}
use open_mercato_durable.Store.Table.{Table, Statement, update}
use open_mercato_durable.Store.Create.{get_job}
use open_mercato_durable.Registry.Kinds.{ResolvedKind}
use open_mercato_durable.Registry.Register.{KindRegistry, get}
use open_mercato_durable.World.{World, Environment, pause, execute}
use open_mercato_durable.Service.Operate.{
  RedriveResult, redriven, lock_key_held, not_redrivable, unrecoverable_requires_force, failed,
  redrive, cancel,
}
use open_mercato_durable.Store.Table.{is_pending}
use open_mercato_durable.Store.Settle.{request_cancel_row}
use open_mercato_durable.Terminal.Transition.{TerminalOutcome, committed, fenced_out, threw}
use open_mercato_durable.Queue.{end_pending}
use open_mercato_durable.Service.Operate.{cancelled_now}
use open_mercato_durable.Service.Refused.{pauses, Untouched, RefusedUntouched, redrive-Untouched}
use open_mercato_durable.Host.Operator.{
  get_in, delete_in, redrive_read, Caller, RequestBody, RouteAnswer, responds, throws, Resolved,
  resolved, response, delete_one, post_redrive, get_one, route_context, force_of, redrive_answer,
  stop_asked, show_found, Body,
}

update-kept :
    (id : ℕ) (s : Statement) (t : Table) → (update id s t).0 ≡ none → (update id s t).1 ≡ t
unfolding update
update-kept id s [] h = refl
update-kept id s (r ∷ t) h = elim (Bool-cases (r.id == id)) [
  | inl own ↦ elim (Bool-cases (s.matches r)) [
    | inl hit ↦ ground arith
    | inr miss ↦ rw (own, miss) refl
  ]
  | inr other ↦ rw other (ap (λ u. r ∷ u) (update-kept id s t (rw other at h)))
]

-- The three routes of a job.
pub data Request : Type 0 where
  show stop : Request
  run_again : RequestBody → Request

module _ {D : Type 0} (env : Environment D) where
  -- A response other than 200.
  abbrev AnswerUntouched : World D → RouteAnswer × World D → Type 0
  AnswerUntouched w (responds status body, v) = (status == 200) ≡ false → Untouched env w v
  AnswerUntouched w (throws, v) = Unit {0}

  redrive_answer-Untouched :
      (w : World D) (r : RedriveResult) (v : World D)
      → RefusedUntouched env w (r, v)
      → AnswerUntouched w (redrive_answer env (r, v))
  redrive_answer-Untouched w (redriven r) v u = λ h. cc
  redrive_answer-Untouched w (failed e) v u = tt
  redrive_answer-Untouched w (lock_key_held o) v u = λ h. u
  redrive_answer-Untouched w not_redrivable v u = λ h. u
  redrive_answer-Untouched w unrecoverable_requires_force v u = λ h. u

  cancelled_now-Untouched :
      (kind : Option (ResolvedKind D)) (scope : Scope) (r : DurableJob) (w : World D)
      (o : TerminalOutcome) (v : World D)
      → AnswerUntouched w (stop_asked env (cancelled_now kind scope r (o, v)))
  cancelled_now-Untouched kind scope r w (committed row) v = λ h. cc
  cancelled_now-Untouched kind scope r w fenced_out v = λ h. cc
  cancelled_now-Untouched kind scope r w (threw e) v = λ h. cc

  stop-Untouched :
      (kinds : KindRegistry D) (id : ℕ) (scope : Scope) (by : Option ℕ) (w : World D)
      → AnswerUntouched w (stop_asked env (cancel env kinds id scope by w))
  unfolding cancel execute
  stop-Untouched kinds id scope by w =
      let p = pause env w in
      let s = request_cancel_row p.now scope by in
      let u = record p { jobs = (update id s p.jobs).1 } in
      elim (Option-cases (update id s p.jobs).0) [
        | inl gone ↦
            rw (gone, cancel)
              (λ h. (1, ap (λ t. record p { jobs = t }) (update-kept id s p.jobs gone)))
        | inr (r, asked) ↦ elim (Bool-cases (is_pending r.status)) [
          | inl pending ↦
              let o = end_pending env (get r.kind kinds) id (λ r. scope) u in
              rw (asked, pending, cancel)
                (cancelled_now-Untouched (get r.kind kinds) scope r w o.0 o.1)
          | inr driven ↦ rw (asked, driven, cancel) (λ h. cc)
        ]
      ]

  at_once-Untouched : (w : World D) (a : RouteAnswer) → AnswerUntouched w (a, w)
  at_once-Untouched w (responds status body) = λ h. (0, refl)
  at_once-Untouched w throws = tt

  abbrev pub serve :
      KindRegistry D → Option ℕ → Caller → ℕ → Request → World D → RouteAnswer × World D
  serve kinds grace caller id show w = get_one env caller id w
  serve kinds grace caller id stop w = delete_one env kinds caller id w
  serve kinds grace caller id (run_again body) w = post_redrive env kinds grace caller id body w

  -- A route once the caller's context is resolved, or the response is.
  abbrev serve_in :
      KindRegistry D → Option ℕ → ℕ → Request → Resolved → World D → RouteAnswer × World D
  serve_in kinds grace id req (response a) w = (a, w)
  serve_in kinds grace id show (resolved ctx) w = get_in env ctx id w
  serve_in kinds grace id stop (resolved ctx) w = delete_in env kinds ctx id w
  serve_in kinds grace id (run_again body) (resolved ctx) w =
      redrive_read env kinds grace id ctx.scope (force_of body) w

  show-Untouched :
      (r : Option DurableJob) (w v : World D)
      → Untouched env w v
      → AnswerUntouched w (show_found env (r, v))
  show-Untouched none w v u = λ h. u
  show-Untouched (some r) w v u = λ h. u

  run_again-Untouched :
      (kinds : KindRegistry D) (grace : Option ℕ) (id : ℕ) (scope : Scope) (force : Option Bool)
      (w : World D)
      → AnswerUntouched w (redrive_read env kinds grace id scope force w)
  run_again-Untouched kinds grace id scope none w = tt
  run_again-Untouched kinds grace id scope (some force) w =
      let (r, v) = redrive env kinds grace id scope force w in
      redrive_answer-Untouched w r v (redrive-Untouched env kinds grace id scope force w)

  serve_in-Untouched :
      (kinds : KindRegistry D) (grace : Option ℕ) (id : ℕ) (req : Request) (w : World D)
      (c : Resolved)
      → AnswerUntouched w (serve_in kinds grace id req c w)
  unfolding execute
  serve_in-Untouched kinds grace id req w (response a) = at_once-Untouched w a
  serve_in-Untouched kinds grace id show w (resolved ctx) =
      show-Untouched (get_job id ctx.scope (pause env w).jobs) w (pause env w) (1, refl)
  serve_in-Untouched kinds grace id stop w (resolved ctx) =
      stop-Untouched kinds id ctx.scope ctx.user_id w
  serve_in-Untouched kinds grace id (run_again body) w (resolved ctx) =
      run_again-Untouched kinds grace id ctx.scope (force_of body) w

  serve-serve_in :
      (kinds : KindRegistry D) (grace : Option ℕ) (c : Caller) (id : ℕ) (req : Request)
      (w : World D) (x : Resolved)
      → route_context c ≡ x
      → serve kinds grace c id req w ≡ serve_in kinds grace id req x w
  unfolding get_one delete_one post_redrive
  serve-serve_in kinds grace c id show w (response a) e = rw (get_one, e) refl
  serve-serve_in kinds grace c id show w (resolved ctx) e = rw (get_one, e) refl
  serve-serve_in kinds grace c id stop w (response a) e = rw (delete_one, e) refl
  serve-serve_in kinds grace c id stop w (resolved ctx) e = rw (delete_one, e) refl
  serve-serve_in kinds grace c id (run_again body) w (response a) e = rw (post_redrive, e) refl
  serve-serve_in kinds grace c id (run_again body) w (resolved ctx) e = rw (post_redrive, e) refl

  -- A route of a job that responds with a status other than 200 does nothing itself: it leaves what
  -- the others made of the world before so many statements.
  pub serve-refused :
      (kinds : KindRegistry D) (grace : Option ℕ) (c : Caller) (id : ℕ) (req : Request)
      (w v : World D) (status : ℕ) (body : Body)
      → serve kinds grace c id req w ≡ (responds status body, v)
      → (status == 200) ≡ false
      → (n : ℕ) × (v ≡ pauses env n w)
  serve-refused kinds grace c id req w v status body e h =
      subst (AnswerUntouched w)
        (sym (serve-serve_in kinds grace c id req w (route_context c) refl) ∙ e)
        (serve_in-Untouched kinds grace id req w (route_context c)) h

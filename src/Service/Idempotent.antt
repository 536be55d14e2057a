-- ===== src/Service/Idempotent.antt =====
-- A start whose idempotency key a job carries already (core/service.ts, `startAndEnqueue`;
-- core/store.ts, `insertJob`).
use open_mercato_durable.Common.{
  ℕ, ◌≡◌, refl, ap, ◌∙◌, inl, inr, Bool, true, false, ◌&&◌, none, some, [], ◌∷◌, ◌==◌, not,
  coalesce, Bool-cases, Option-cases, arith,
}
use open_mercato_durable.Types.{DurableJob, Scope, StartJobInput}
use open_mercato_durable.Store.Table.{Table, find}
use open_mercato_durable.Store.Create.{
  created, existing, new_job, try_insert, is_truthy, same_key, conflicts, any, first,
  find_by_idempotency_key, explain_conflict,
}
use open_mercato_durable.Protocol.Steps.{Database, Reach}
use open_mercato_durable.Protocol.Reachable.{Reach-Kept}
use open_mercato_durable.Registry.Kinds.{ResolvedKind}
use open_mercato_durable.Registry.Register.{KindRegistry, get}
use open_mercato_durable.World.{World, Environment, pause, execute}
use open_mercato_durable.Slice.Lawful.{IsLawful, pause-Reach}
use open_mercato_durable.Service.Start.{
  StartResult, started, queue_for, insert_job_in, start, publish_started, start_within,
  start_and_enqueue,
}

-- A job of the tenant carries the key.
abbrev pub carries : ℕ → ℕ → DurableJob → Bool
carries tenant key r = r.tenant_id == tenant && same_key r.idempotency_key (some key)

pub record Holds (tenant key : ℕ) (t : Table) : Type 0 where
  pub id : ℕ
  pub row : DurableJob
  pub found : find id t ≡ some row
  pub keyed : carries tenant key row ≡ true

any-found :
    (p : DurableJob → Bool) (id : ℕ) (t : Table) (r : DurableJob)
    → find id t ≡ some r
    → p r ≡ true
    → any p t ≡ true
unfolding find any
any-found p id [] r found h = cc
any-found p id (q ∷ t) r found h = elim (Bool-cases (q.id == id)) [
  | inl own ↦ let is : q ≡ r = cc (rw own at found) in rw (ap p is ∙ h) refl
  | inr other ↦ ground (arith, any-found p id t r (rw other at found) h)
]

first-found :
    (p : DurableJob → Bool) (t : Table)
    → any p t ≡ true
    → (q : DurableJob) × (first p t ≡ some q) × (p q ≡ true)
unfolding any first
first-found p [] h = cc
first-found p (r ∷ t) h = elim (Bool-cases (p r)) [
  | inl hit ↦ (r, rw hit refl, hit)
  | inr miss ↦ let (q, found, hit) = first-found p t (rw miss at h) in (q, rw miss found, hit)
]

and_false : (b : Bool) → (b && false) ≡ true → ⊥
and_false b e = ground arith

carries-keys :
    (tenant key : ℕ) (r : DurableJob)
    → carries tenant key r ≡ true
    → (r.tenant_id ≡ tenant) × (r.idempotency_key ≡ some key)
carries-keys tenant key r h = elim (Option-cases r.idempotency_key) [
  | inl keyless ↦ absurd (and_false (r.tenant_id == tenant) (rw keyless at h))
  | inr (k, has) ↦
      let g : (r.tenant_id == tenant && k == key) ≡ true = rw has at h in
      let (own, same) : (r.tenant_id ≡ tenant) × (k ≡ key) = ground arith in
      (own, has ∙ ap some same)
]

carries-origin :
    (tenant key : ℕ) (r q : DurableJob)
    → q.origin ≡ r.origin
    → carries tenant key r ≡ true
    → carries tenant key q ≡ true
carries-origin tenant key r q same h =
    ap (λ o. o.tenant_id == tenant && same_key o.idempotency_key (some key)) same ∙ h

pub Reach-Holds :
    (tenant key : ℕ) {d e : Database}
    → Reach d e
    → Holds tenant key d.jobs
    → Holds tenant key e.jobs
Reach-Holds tenant key reach h =
    let (q, found, a) = Reach-Kept h.id h.row h.found reach in
    record {
      id = h.id;
      row = q;
      found = found;
      keyed = carries-origin tenant key h.row q a.same_origin h.keyed;
    }

-- The lookup of the key finds such a job.
pub holder_found :
    (scope : Scope) (key : ℕ) (t : Table)
    → Holds scope.tenant_id key t
    → (q : DurableJob) × (find_by_idempotency_key scope key t ≡ some q)
      × (carries scope.tenant_id key q ≡ true)
unfolding find_by_idempotency_key
holder_found scope key t h =
    first-found (carries scope.tenant_id key) t
      (any-found (carries scope.tenant_id key) h.id t h.row h.found h.keyed)

-- What a start is answered that finds the key taken.
pub record AnsweredBy (tenant key : ℕ) (r : StartResult) : Type 0 where
  pub job : DurableJob
  pub told : r ≡ started (existing job)
  pub keyed : carries tenant key job ≡ true

module _ (now id : ℕ) (scope : Scope) (i : StartJobInput) (queue key : ℕ)
    (keyed : i.idempotency_key ≡ some key) where
  carries-conflicts :
      (r : DurableJob)
      → carries scope.tenant_id key r ≡ true
      → conflicts (new_job now id scope i queue) r ≡ true
  unfolding new_job
  carries-conflicts r h =
      let (own, has) = carries-keys scope.tenant_id key r h in rw (keyed, has) (ground (arith, own))

  clash :
      (t : Table)
      → Holds scope.tenant_id key t
      → try_insert (new_job now id scope i queue) t ≡ (none, t)
  unfolding try_insert
  clash t h =
      rw
        (any-found (conflicts (new_job now id scope i queue)) h.id t h.row h.found
          (carries-conflicts h.row h.keyed))
        refl

  explained :
      (t : Table)
      → (key == 0) ≡ false
      → Holds scope.tenant_id key t
      → AnsweredBy scope.tenant_id key (started (explain_conflict id scope i t))
  unfolding explain_conflict find_by_idempotency_key
  explained t truthy h =
      let (q, found, hit) =
        first-found (carries scope.tenant_id key) t
          (any-found (carries scope.tenant_id key) h.id t h.row h.found h.keyed) in
      let given : is_truthy i.idempotency_key ≡ true = rw keyed (ap not truthy) in
      let look : find_by_idempotency_key scope (coalesce i.idempotency_key 0) t ≡ some q =
        rw keyed found in
      record { job = q; told = rw (given, look, explain_conflict) refl; keyed = hit }

-- The answer of a start, and that it has published nothing.
pub record FindsExisting {D : Type 0} (tenant key : ℕ) (w : World D) (o : StartResult × World D)
    : Type 0 where
  pub answered : AnsweredBy tenant key o.0
  pub unsent : o.1.sent ≡ w.sent

module _ {D : Type 0} (env : Environment D) (lawful : IsLawful env) where
  pub pause-Holds :
      (tenant key : ℕ) (w : World D) → Holds tenant key w.jobs → Holds tenant key (pause env w).jobs
  pause-Holds tenant key w h = Reach-Holds tenant key (pause-Reach env lawful w) h

  pub pause-sent : (w : World D) → (pause env w).sent ≡ w.sent
  unfolding pause
  pause-sent w = refl

  module _ (scope : Scope) (i : StartJobInput) (key : ℕ) (keyed : i.idempotency_key ≡ some key)
      (truthy : (key == 0) ≡ false) where
    executed :
        (id queue : ℕ) (w : World D)
        → Holds scope.tenant_id key w.jobs
        → execute env (λ now t. try_insert (new_job now id scope i queue) t) w ≡ (none, pause env w)
    unfolding execute
    executed id queue w h =
        let p = pause env w in
        ap (λ o. (o.0, record p { jobs = o.1 }))
          (clash p.now id scope i queue key keyed p.jobs (pause-Holds scope.tenant_id key w h))

    insert_job_in-refused :
        (id queue : ℕ) (w : World D)
        → Holds scope.tenant_id key w.jobs
        → let q = pause env (pause env w) in
          insert_job_in env id scope i queue w ≡ (explain_conflict id scope i q.jobs, q)
    unfolding insert_job_in
    insert_job_in-refused id queue w h =
        ap
          (λ o. elim o.0 [
            | some r ↦ (created r, o.1)
            | none ↦ (explain_conflict id scope i (pause env o.1).jobs, pause env o.1)
          ])
          (executed id queue w h)

    insert_job_in-existing :
        (id queue : ℕ) (w : World D)
        → Holds scope.tenant_id key w.jobs
        → FindsExisting scope.tenant_id key w (
          started (insert_job_in env id scope i queue w).0,
          (insert_job_in env id scope i queue w).1,
        )
    insert_job_in-existing id queue w h =
        let p = pause env w in
        let held = pause-Holds scope.tenant_id key w h in
        rw (insert_job_in-refused id queue w h) (record {
          answered =
              explained p.now id scope i queue key keyed (pause env p).jobs truthy
                (pause-Holds scope.tenant_id key p held);
          unsent = pause-sent p ∙ pause-sent w;
        })

    start_within-existing :
        (k : ResolvedKind D) (default_queue id : ℕ) (w : World D)
        → Holds scope.tenant_id key w.jobs
        → FindsExisting scope.tenant_id key w (start_within env k default_queue id i scope w)
    unfolding start_within
    start_within-existing k default_queue id w h =
        let p = pause env w in
        let queue = queue_for k default_queue in
        let held = pause-Holds scope.tenant_id key w h in
        rw (clash p.now id scope i queue key keyed p.jobs held, start_within)
          (record {
            answered =
                explained p.now id scope i queue key keyed (pause env p).jobs truthy
                  (pause-Holds scope.tenant_id key p held);
            unsent = pause-sent p ∙ pause-sent w;
          })

    publish_started-existing :
        (kinds : KindRegistry D) (w : World D) (r : StartResult) (u : World D)
        → FindsExisting scope.tenant_id key w (r, u)
        → FindsExisting scope.tenant_id key w (publish_started env kinds (r, u))
    unfolding publish_started
    publish_started-existing kinds w r u f = rw f.answered.told (record {
      answered = record { job = f.answered.job; told = refl; keyed = f.answered.keyed };
      unsent = f.unsent;
    })

    -- While a job of the tenant carries the key, which is not the empty text, a start with that key,
    -- of a kind that is known, publishes nothing and is answered with a job that carries the key,
    -- whatever statements of the protocol the others run in between.
    pub start_and_enqueue-existing :
        (transactional : Bool) (kinds : KindRegistry D) (default_queue id : ℕ) (k : ResolvedKind D)
        (w : World D)
        → get i.kind kinds ≡ some k
        → Holds scope.tenant_id key w.jobs
        → FindsExisting scope.tenant_id key w
            (start_and_enqueue transactional env kinds default_queue id i scope w)
    unfolding start_and_enqueue start
    start_and_enqueue-existing true kinds default_queue id k w known h =
        rw (known, start_and_enqueue) (start_within-existing k default_queue id w h)
    start_and_enqueue-existing false kinds default_queue id k w known h =
        let s = start env kinds default_queue id i scope w in
        publish_started-existing kinds w s.0 s.1
          (rw (known, start) (insert_job_in-existing id (queue_for k default_queue) w h))

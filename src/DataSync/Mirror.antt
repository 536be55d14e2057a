-- ===== src/DataSync/Mirror.antt =====
-- The writes of a run's status (engine/durable-run.ts: `mirrorRunStatus`, `reopenRun`).
use open_mercato_durable.Common.{
  ℕ, suc, ◌≡◌, ◌≢◌, refl, sym, ap, ◌∙◌, inl, inr, Bool, true, false, Option, some, List, [], ◌∷◌,
  ◌==◌, Bool-cases, if◌then◌else◌, arith,
}
use open_mercato_durable.Types.{Message}
use open_mercato_durable.DataSync.Runs.{
  SyncTerminalStatus, SyncRun, status_text, is_status, find_run, update_run, is_mirrorable,
  finish_run, mirror_run_status,
}

-- What an update that matched a row has read and written.
pub update_run-some :
    (id n : ℕ) (m : SyncRun → Bool) (set : SyncRun → SyncRun) (rs : List SyncRun)
    → ((r : SyncRun) → (set r).id ≡ r.id)
    → (update_run id m set rs).0 ≡ suc n
    → (r : SyncRun) × (find_run id rs ≡ some r)
      × (m r ≡ true)
      × (find_run id (update_run id m set rs).1 ≡ some (set r))
unfolding update_run find_run
update_run-some id n m set [] keeps h = cc
update_run-some id n m set (q ∷ rs) keeps h = elim (Bool-cases (q.id == id)) [
  | inl own ↦ elim (Bool-cases (m q)) [
    | inl hit ↦
        let own' : ((set q).id == id) ≡ true = ap (λ x. x == id) (keeps q) ∙ own in
        (q, rw own refl, hit, rw (own, hit) (rw own' refl))
    | inr miss ↦ cc (rw (own, miss) at h)
  ]
  | inr other ↦
      let (r, found, hit, after) = update_run-some id n m set rs keeps (rw other at h) in
      (r, rw other found, hit, rw other (rw other after))
]

-- An update leaves the other rows alone.
pub update_run-other :
    (id j : ℕ) (m : SyncRun → Bool) (set : SyncRun → SyncRun) (rs : List SyncRun)
    → ((r : SyncRun) → (set r).id ≡ r.id)
    → j ≢ id
    → find_run j (update_run id m set rs).1 ≡ find_run j rs
unfolding update_run find_run
update_run-other id j m set [] keeps ne = refl
update_run-other id j m set (q ∷ rs) keeps ne = elim (Bool-cases (q.id == id)) [
  | inl own ↦
      let apart : (q.id == j) ≡ false = ground arith in
      let apart' : ((set q).id == j) ≡ false = ap (λ x. x == j) (keeps q) ∙ apart in
      rw own (elim (Bool-cases (m q)) [
        | inl hit ↦ rw hit (rw (apart, apart') refl)
        | inr miss ↦ rw miss (rw apart refl)
      ])
  | inr other ↦
      let ih = update_run-other id j m set rs keeps ne in
      rw other (ap (λ o. if q.id == j then some q else o) ih)
]

-- An update on a row that is there.
pub update_run-found :
    (id : ℕ) (m : SyncRun → Bool) (set : SyncRun → SyncRun) (rs : List SyncRun) (r : SyncRun)
    → find_run id rs ≡ some r
    → (update_run id m set rs).0 ≡ (if m r then 1 else 0)
unfolding update_run find_run
update_run-found id m set [] r found = cc
update_run-found id m set (q ∷ rs) r found = elim (Bool-cases (q.id == id)) [
  | inl own ↦
      let e : q ≡ r = cc (rw own at found) in
      rw own (elim (Bool-cases (m q)) [
        | inl hit ↦ rw hit (sym (ap (λ b. if b then 1 else 0) (sym (ap m e) ∙ hit)))
        | inr miss ↦ rw miss (sym (ap (λ b. if b then 1 else 0) (sym (ap m e) ∙ miss)))
      ])
  | inr other ↦ rw other (update_run-found id m set rs r (rw other at found))
]

abbrev pub is_same : SyncTerminalStatus → SyncTerminalStatus → Bool
is_same s t = is_status s (status_text t)

finished-is_mirrorable :
    (s t : SyncTerminalStatus) (error : Option Message) (r : SyncRun)
    → r.is_deleted ≡ false
    → is_mirrorable t (finish_run s error r) ≡ is_same t s
finished-is_mirrorable SyncTerminalStatus.completed t error r h = rw h refl
finished-is_mirrorable SyncTerminalStatus.failed t error r h = rw h refl
finished-is_mirrorable SyncTerminalStatus.cancelled t error r h = rw h refl

is_mirrorable-is_deleted :
    (s : SyncTerminalStatus) (r : SyncRun) → is_mirrorable s r ≡ true → r.is_deleted ≡ false
is_mirrorable-is_deleted s r h = ground arith

-- A run that was mirrored has the status and the error of its job, and from then on only a mirror
-- of the same status matches it: the first terminal status stands.
mirror_run_status-stands :
    (id n : ℕ) (s t : SyncTerminalStatus) (error other : Option Message) (rs : List SyncRun)
    → (mirror_run_status id s error rs).0 ≡ suc n
    → (r : SyncRun) × (find_run id rs ≡ some r)
      × (find_run id (mirror_run_status id s error rs).1 ≡ some (finish_run s error r))
      × ((mirror_run_status id t other (mirror_run_status id s error rs).1).0
          ≡ (if is_same t s then 1 else 0))
unfolding mirror_run_status
mirror_run_status-stands id n s t error other rs h =
    let (r, found, hit, after) =
      update_run-some id n (is_mirrorable s) (finish_run s error) rs (λ q. refl) h in
    let alive = is_mirrorable-is_deleted s r hit in
    (
      r,
      found,
      after,
      update_run-found id (is_mirrorable t) (finish_run t other) _ (finish_run s error r) after
          ∙ ap (λ b. if b then 1 else 0) (finished-is_mirrorable s t error r alive),
    )

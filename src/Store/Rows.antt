-- ===== src/Store/Rows.antt =====
-- How a row is found again after a statement on its own id or on another one.
use mathlib.Core.Option.{some-injective, some-ne-none, none-ne-some}
use open_mercato_durable.Common.{
  ℕ, ◌≡◌, refl, sym, ap, ◌∙◌, ◌≢◌, inl, inr, true, false, none, some, [], ◌∷◌, arith, ◌==◌,
  Bool-cases, Option-cases,
}
use open_mercato_durable.Types.{DurableJob}
use open_mercato_durable.Store.Table.{Table, Statement, row_result, row_after, update, find}

-- No statement rewrites what creation wrote, the id among it.
abbrev pub KeepsOrigin : Statement → Type 0
KeepsOrigin s = (r : DurableJob) → (s.set r).origin ≡ r.origin

pub find-id : (id : ℕ) (t : Table) (r : DurableJob) → find id t ≡ some r → r.id ≡ id
unfolding find
find-id id [] r h = cc
find-id id (q ∷ t) r h = ground (arith, find-id id t r)

pub update-result_some :
    (id : ℕ) (s : Statement) (t : Table) (r : DurableJob)
    → find id t ≡ some r
    → (update id s t).0 ≡ row_result s r
unfolding update find
update-result_some id s [] r h = cc
update-result_some id s (q ∷ t) r h = elim (Bool-cases (q.id == id)) [
  | inl hit ↦ rw hit (let e : q ≡ r = some-injective q r (rw hit at h) in rw e)
  | inr miss ↦ rw miss (update-result_some id s t r (rw miss at h))
]

pub update-result_none :
    (id : ℕ) (s : Statement) (t : Table) → find id t ≡ none → update id s t ≡ (none, t)
unfolding update find
update-result_none id s [] h = refl
update-result_none id s (q ∷ t) h = elim (Bool-cases (q.id == id)) [
  | inl hit ↦ absurd (some-ne-none q (rw hit at h))
  | inr miss ↦ rw miss (let e = update-result_none id s t (rw miss at h) in rw e)
]

row_after-id : (s : Statement) → KeepsOrigin s → (r : DurableJob) → (row_after s r).id ≡ r.id
row_after-id s keeps r = ground (arith, keeps r)

pub find-update_self :
    (id : ℕ) (s : Statement) (t : Table) (r : DurableJob)
    → KeepsOrigin s
    → find id t ≡ some r
    → find id (update id s t).1 ≡ some (row_after s r)
unfolding update find
find-update_self id s [] r keeps h = cc
find-update_self id s (q ∷ t) r keeps h = elim (Bool-cases (q.id == id)) [
  | inl hit ↦ rw hit (
      rw (row_after-id s keeps q)
        (rw hit (ap (λ p. some (row_after s p)) (some-injective q r (rw hit at h)))))
  | inr miss ↦ rw miss (rw miss (find-update_self id s t r keeps (rw miss at h)))
]

pub find-update_ne :
    (id j : ℕ) (s : Statement) (t : Table)
    → KeepsOrigin s
    → j ≢ id
    → find j (update id s t).1 ≡ find j t
unfolding update find
find-update_ne id j s [] keeps h = refl
find-update_ne id j s (q ∷ t) keeps h = elim (Bool-cases (q.id == id)) [
  | inl hit ↦ ground (arith, row_after-id s keeps q)
  | inr miss ↦ rw miss (ground (arith, find-update_ne id j s t keeps h))
]

-- A statement that does not match the row of its id returns nothing and writes nothing.
pub update-refused :
    (id : ℕ) (s : Statement) (t : Table) (r : DurableJob)
    → find id t ≡ some r
    → s.matches r ≡ false
    → update id s t ≡ (none, t)
unfolding update find
update-refused id s [] r found miss = cc
update-refused id s (q ∷ t) r found miss = elim (Bool-cases (q.id == id)) [
  | inl hit ↦
      let e : q ≡ r = some-injective q r (rw hit at found) in
      let m : s.matches q ≡ false = ap s.matches e ∙ miss in rw hit (rw m)
  | inr other ↦ rw other (let e = update-refused id s t r (rw other at found) miss in rw e)
]

-- What a statement that returns a row has read and written.
pub update-some :
    (id : ℕ) (s : Statement) (t : Table) (c : DurableJob)
    → KeepsOrigin s
    → (update id s t).0 ≡ some c
    → (r : DurableJob) × (find id t ≡ some r)
      × (s.matches r ≡ true)
      × (s.set r ≡ c)
      × (find id (update id s t).1 ≡ some c)
update-some id s t c keeps granted = elim (Option-cases (find id t)) [
  | inl missing ↦
      absurd (none-ne-some c (ap (λ p. p.0) (sym (update-result_none id s t missing)) ∙ granted))
  | inr (r, found) ↦ elim (Bool-cases (s.matches r)) [
    | inl hit ↦
        let result : row_result s r ≡ some c = sym (update-result_some id s t r found) ∙ granted in
        let same : s.set r ≡ c = some-injective (s.set r) c (rw hit at result) in
        let after : row_after s r ≡ c = rw hit same in
        (r, found, hit, same, find-update_self id s t r keeps found ∙ ap some after)
    | inr miss ↦
        absurd (none-ne-some c (ap (λ p. p.0) (sym (update-refused id s t r found miss)) ∙ granted))
  ]
]

-- A statement that returns no row did not match the row of its id.
pub update-none :
    (id : ℕ) (s : Statement) (t : Table) (r : DurableJob)
    → (update id s t).0 ≡ none
    → find id t ≡ some r
    → s.matches r ≡ false
update-none id s t r refused found = elim (Bool-cases (s.matches r)) [
  | inl hit ↦
      let result : row_result s r ≡ none = sym (update-result_some id s t r found) ∙ refused in
      absurd (some-ne-none (s.set r) (rw hit at result))
  | inr miss ↦ miss
]

-- And it left the table as it was.
pub update-none_same :
    (id : ℕ) (s : Statement) (t : Table) → (update id s t).0 ≡ none → (update id s t).1 ≡ t
update-none_same id s t refused = elim (Option-cases (find id t)) [
  | inl missing ↦ ap (λ p. p.1) (update-result_none id s t missing)
  | inr (r, found) ↦
      ap (λ p. p.1) (update-refused id s t r found (update-none id s t r refused found))
]

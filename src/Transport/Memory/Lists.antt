-- ===== src/Transport/Memory/Lists.antt =====
-- A predicate on every entry, and on every call in flight, under the writes of the in-process
-- transport (transport/memory.ts).
use open_mercato_durable.Common.{
  ℕ, zero, suc, ◌≡◌, refl, subst, sym, ap, ◌∙◌, inl, inr, true, some, List, [], ◌∷◌, ◌++◌, ◌==◌,
  All, Bool-cases, Option-cases, arith,
}
use open_mercato_durable.Types.{Delivery}
use open_mercato_durable.Transport.Memory.Entries.{
  Entry, same_id, put_entry, delete_entry, find_ref, write_ref, ref_of,
}
use open_mercato_durable.Transport.Memory.Events.{Run, take_run, mark_handed_back}

pub All-append {ℓ κ} :
    {A : Type ℓ} (P : A → Type κ) (xs ys : List A) → All P xs → All P ys → All P (xs ++ ys)
All-append P [] ys h k = k
All-append P (x ∷ xs) ys (p, h) k = (p, All-append P xs ys h k)

find_ref-ref : (ref : ℕ) (xs : List Entry) (e : Entry) → find_ref ref xs ≡ some e → e.ref ≡ ref
unfolding find_ref
find_ref-ref ref [] e found = cc
find_ref-ref ref (x ∷ xs) e found = elim (Bool-cases (x.ref == ref)) [
  | inl same ↦
      let is : x ≡ e = cc (rw same at found) in
      let own : x.ref ≡ ref = ground arith in sym (ap ref_of is) ∙ own
  | inr other ↦ find_ref-ref ref xs e (rw other at found)
]

pub find_ref_self :
    (ref : ℕ) (xs : List Entry) (e : Entry) → find_ref ref xs ≡ some e → find_ref e.ref xs ≡ some e
find_ref_self ref xs e found =
    subst (λ k. find_ref k xs ≡ some e) (sym (find_ref-ref ref xs e found)) found

module _ (P : Entry → Type 0) where
  pub All-put_entry : (e : Entry) (xs : List Entry) → P e → All P xs → All P (put_entry e xs)
  unfolding put_entry
  All-put_entry e [] p h = (p, tt)
  All-put_entry e (x ∷ xs) p (q, h) = elim (Bool-cases (same_id x.delivery e.delivery)) [
    | inl same ↦ rw same (p, h)
    | inr other ↦ rw other (q, All-put_entry e xs p h)
  ]

  pub All-delete_entry : (d : Delivery) (xs : List Entry) → All P xs → All P (delete_entry d xs)
  unfolding delete_entry
  All-delete_entry d [] h = tt
  All-delete_entry d (x ∷ xs) (q, h) = elim (Bool-cases (same_id x.delivery d)) [
    | inl same ↦ rw same h
    | inr other ↦ rw other (q, All-delete_entry d xs h)
  ]

  pub All-find_ref :
      (ref : ℕ) (xs : List Entry) (e : Entry) → All P xs → find_ref ref xs ≡ some e → P e
  unfolding find_ref
  All-find_ref ref [] e h found = cc
  All-find_ref ref (x ∷ xs) e (q, h) found = elim (Bool-cases (x.ref == ref)) [
    | inl same ↦ let is : x ≡ e = cc (rw same at found) in subst P is q
    | inr other ↦ All-find_ref ref xs e h (rw other at found)
  ]

  pub All-write_ref :
      (ref : ℕ) (f : Entry → Entry) (xs : List Entry)
      → ((e : Entry) → find_ref ref xs ≡ some e → P (f e))
      → All P xs
      → All P (write_ref ref f xs)
  unfolding find_ref write_ref
  All-write_ref ref f [] k h = tt
  All-write_ref ref f (x ∷ xs) k (q, h) = elim (Bool-cases (x.ref == ref)) [
    | inl same ↦ rw same (k x (rw same refl), h)
    | inr other ↦ rw other (q, All-write_ref ref f xs (λ e found. k e (rw other found)) h)
  ]

module _ (P : Run → Type 0) where
  pub All-take_run :
      (n : ℕ) (rs rest : List Run) (r : Run)
      → All P rs
      → take_run n rs ≡ some (r, rest)
      → P r × All P rest
  unfolding take_run
  All-take_run n [] rest r h found = cc
  All-take_run zero (x ∷ xs) rest r h found =
      let is : x ≡ r = cc found in
      let others : xs ≡ rest = cc found in (subst P is h.0, subst (All P) others h.1)
  All-take_run (suc n) (x ∷ xs) rest r (q, h) found = elim (Option-cases (take_run n xs)) [
    | inl absent ↦ cc (rw (absent, take_run) at found)
    | inr ((s, others), taken) ↦
        let e : some (s, x ∷ others) ≡ some (r, rest) = rw (taken, take_run) at found in
        let is : s ≡ r = cc e in
        let whole : x ∷ others ≡ rest = cc e in
        let (p, k) = All-take_run n xs others s h taken in
        (subst P is p, subst (All P) whole (q, k))
  ]

  pub All-mark_handed_back :
      (n : ℕ) (rs : List Run)
      → ((r : Run) → P r → P (record r { handed_back = true }))
      → All P rs
      → All P (mark_handed_back n rs)
  unfolding mark_handed_back
  All-mark_handed_back n [] k h = tt
  All-mark_handed_back zero (r ∷ rs) k (q, h) = (k r q, h)
  All-mark_handed_back (suc n) (r ∷ rs) k (q, h) = (q, All-mark_handed_back n rs k h)

-- ===== src/Ids/RoundTrip.antt =====
-- The identities tell the things that they name apart (core/ids.ts).
use open_mercato_durable.Common.{
  ℕ, ◌≡◌, refl, sym, ap, ◌∙◌, Bool, true, false, if◌then◌else◌, inl, inr, Option-cases, Bool-cases,
  &&-split, ◌&&◌, none, some, List, [], ◌∷◌, ◌++◌, arith,
}
use open_mercato_durable.Ids.Decimal.{
  decimal, number, all_digits, is_digit, IsNumeral, decimal-IsNumeral,
}
use open_mercato_durable.Ids.Split.{split_last, occurs, split_last-append, split_last-some}
use open_mercato_durable.Ids.Texts.{
  NamedDelivery, id_prefix, delivery_id, is_some_line, is_numeral, drop_prefix, parse_front,
  parse_parts, parse_delivery_id, slice_idempotency_key,
}

not_occurs :
    (sep : ℕ) (s : List ℕ) → is_digit sep ≡ false → all_digits s ≡ true → occurs sep s ≡ false
unfolding occurs all_digits
not_occurs sep [] h k = refl
not_occurs sep (c ∷ cs) h k = ground (arith, not_occurs sep cs)

decimal-not_occurs : (sep n : ℕ) → is_digit sep ≡ false → occurs sep (decimal n) ≡ false
decimal-not_occurs sep n h = not_occurs sep (decimal n) h (decimal-IsNumeral n).digits

numeral_of : (n : ℕ) (s : List ℕ) → IsNumeral n s → is_numeral s ≡ true
numeral_of n [] h = cc h.some_digit.2
numeral_of n (c ∷ cs) h = h.digits

decimal-is_numeral : (n : ℕ) → is_numeral (decimal n) ≡ true
decimal-is_numeral n = numeral_of n (decimal n) (decimal-IsNumeral n)

pub append_regroup : (a b c : List ℕ) (x y : ℕ) → (a ++ x ∷ (b ++ y ∷ c)) ≡ ((a ++ x ∷ b) ++ y ∷ c)
append_regroup [] b c x y = refl
append_regroup (z ∷ a) b c x y = ap (λ s. z ∷ s) (append_regroup a b c x y)

named_eq :
    (d : NamedDelivery) {m n : ℕ}
    → m ≡ d.seq
    → n ≡ d.redrives
    → record { job_id = d.job_id; seq = m; redrives = n } ≡ d
named_eq d h k = ground arith

parse_parts-join :
    (d : NamedDelivery) (a b : List ℕ)
    → is_some_line d.job_id ≡ true
    → IsNumeral d.seq a
    → IsNumeral d.redrives b
    → parse_parts (d.job_id ++ b'-' ∷ (a ++ b'-' ∷ b)) ≡ some d
unfolding parse_parts parse_front
parse_parts-join d a b line p q = rw (append_regroup d.job_id a b b'-' b'-') (
    rw
      (
        split_last-append b'-' (d.job_id ++ b'-' ∷ a) b (not_occurs b'-' b refl q.digits),
        parse_parts,
      )
      (rw (split_last-append b'-' d.job_id a (not_occurs b'-' a refl p.digits), parse_front)
        (rw (line, numeral_of d.seq a p, numeral_of d.redrives b q)
          (ap some (named_eq d p.value q.value)))))

-- A delivery is read back from its identity, the job's text being a nonempty line.
pub parse_delivery_id-delivery_id :
    (d : NamedDelivery) → is_some_line d.job_id ≡ true → parse_delivery_id (delivery_id d) ≡ some d
unfolding parse_delivery_id delivery_id drop_prefix
parse_delivery_id-delivery_id d line =
    parse_parts-join d (decimal d.seq) (decimal d.redrives) line (decimal-IsNumeral d.seq)
      (decimal-IsNumeral d.redrives)

-- A text with one separator is taken apart in one way, if the last part has none.
pub split_unique :
    (sep : ℕ) (a b c d : List ℕ)
    → occurs sep b ≡ false
    → occurs sep d ≡ false
    → (a ++ sep ∷ b) ≡ (c ++ sep ∷ d)
    → (a ≡ c) × (b ≡ d)
split_unique sep a b c d hb hd h =
    let e =
      sym (split_last-append sep a b hb) ∙ ap (split_last sep) h ∙ split_last-append sep c d hd in
    (cc e, cc e)

-- Two slices have the same idempotency key only if they are the same slice of the same job,
-- whatever the text of the job's id.
slice_idempotency_key-injective :
    (job_id job_id' : List ℕ) (seq seq' : ℕ)
    → slice_idempotency_key job_id seq ≡ slice_idempotency_key job_id' seq'
    → (job_id ≡ job_id') × (seq ≡ seq')
unfolding slice_idempotency_key
slice_idempotency_key-injective job_id job_id' seq seq' h =
    let (same, numeral) =
      split_unique b':' job_id (decimal seq) job_id' (decimal seq')
        (decimal-not_occurs b':' seq refl) (decimal-not_occurs b':' seq' refl) h in
    (same, sym (decimal-IsNumeral seq).value ∙ ap number numeral ∙ (decimal-IsNumeral seq').value)

drop_prefix-some : (p s t : List ℕ) → drop_prefix p s ≡ some t → s ≡ p ++ t
unfolding drop_prefix
drop_prefix-some [] s t h = cc
drop_prefix-some (x ∷ p) [] t h = cc
drop_prefix-some (x ∷ p) (c ∷ s) t h = ground (arith, drop_prefix-some p s t)

-- What a text of parts is that is read as the delivery `d`.
pub record Reads (s : List ℕ) (d : NamedDelivery) : Type 0 where
  pub seq : List ℕ
  pub redrives : List ℕ
  pub parts : s ≡ d.job_id ++ b'-' ∷ (seq ++ b'-' ∷ redrives)
  pub line : is_some_line d.job_id ≡ true
  pub seq_numeral : is_numeral seq ≡ true
  pub seq_value : number seq ≡ d.seq
  pub redrives_numeral : is_numeral redrives ≡ true
  pub redrives_value : number redrives ≡ d.redrives

reads :
    (d : NamedDelivery) (s a b j : List ℕ) (c : Bool)
    → s ≡ j ++ b'-' ∷ (a ++ b'-' ∷ b)
    → c ≡ (is_some_line j && (is_numeral a && is_numeral b))
    → (if c then some (record { job_id = j; seq = number a; redrives = number b }) else none)
      ≡ some d
    → Reads s d
reads d s a b j c e k h = elim (Bool-cases c) [
  | inl fits ↦
      let ok : record { job_id = j; seq = number a; redrives = number b } ≡ d = cc (rw fits at h) in
      let (line, numerals) = &&-split (is_some_line j) _ (sym k ∙ fits) in
      let (first, second) = &&-split (is_numeral a) _ numerals in
      record {
        seq = a;
        redrives = b;
        parts = e ∙ ap (λ x. x.job_id ++ b'-' ∷ (a ++ b'-' ∷ b)) ok;
        line = sym (ap (λ x. is_some_line x.job_id) ok) ∙ line;
        seq_numeral = first;
        seq_value = ap (λ x. x.seq) ok;
        redrives_numeral = second;
        redrives_value = ap (λ x. x.redrives) ok;
      }
  | inr other ↦ cc (rw other at h)
]

parse_front-some :
    (s front b : List ℕ) (d : NamedDelivery)
    → s ≡ front ++ b'-' ∷ b
    → parse_front front b ≡ some d
    → Reads s d
unfolding parse_front
parse_front-some s front b d e h = elim (Option-cases (split_last b'-' front)) [
  | inl absent ↦ cc (rw (absent, parse_front) at h)
  | inr ((j, a), found) ↦
      let front_is = split_last-some b'-' front j a found in
      reads d s a b j _
        (e ∙ ap (λ x. x ++ b'-' ∷ b) front_is ∙ sym (append_regroup j a b b'-' b'-')) refl
        (rw (found, parse_front) at h)
]

parse_parts-some : (s : List ℕ) (d : NamedDelivery) → parse_parts s ≡ some d → Reads s d
unfolding parse_parts
parse_parts-some s d h = elim (Option-cases (split_last b'-' s)) [
  | inl absent ↦ cc (rw (absent, parse_parts) at h)
  | inr ((front, b), found) ↦
      parse_front-some s front b d (split_last-some b'-' s front b found)
        (rw (found, parse_parts) at h)
]

-- A text is read as a delivery only if it is the prefix, the job's text, and numerals of the slice
-- and of the re-drives, with hyphens between them.
pub parse_delivery_id-some :
    (id : List ℕ) (d : NamedDelivery)
    → parse_delivery_id id ≡ some d
    → (s : List ℕ) × (id ≡ id_prefix ++ s) × Reads s d
unfolding parse_delivery_id
parse_delivery_id-some id d h = elim (Option-cases (drop_prefix id_prefix id)) [
  | inl absent ↦ cc (rw (absent, parse_delivery_id) at h)
  | inr (s, found) ↦ (
    s,
    drop_prefix-some id_prefix id s found,
    parse_parts-some s d (rw (found, parse_delivery_id) at h),
  )
]

-- ===== src/Ids/Split.antt =====
-- The parts of an identity around the last separator (core/ids.ts, the regular expression of
-- `parseDeliveryId`).
use open_mercato_durable.Common.{
  ℕ, ◌≡◌, refl, Bool, false, ap, ◌∙◌, inl, inr, Option-cases, Bool-cases, ◌||◌, ◌==◌, Option, none,
  some, List, [], ◌∷◌, ◌++◌, if◌then◌else◌, arith,
}

unfoldable pub split_last : ℕ → List ℕ → Option (List ℕ × List ℕ)
split_last sep [] = none
split_last sep (c ∷ cs) = elim (split_last sep cs) [
  | none ↦ if c == sep then some ([], cs) else none
  | some (before, after) ↦ some (c ∷ before, after)
]

unfoldable pub occurs : ℕ → List ℕ → Bool
occurs sep [] = false
occurs sep (c ∷ cs) = c == sep || occurs sep cs

split_last-none : (sep : ℕ) (s : List ℕ) → occurs sep s ≡ false → split_last sep s ≡ none
unfolding split_last occurs
split_last-none sep [] h = refl
split_last-none sep (c ∷ cs) h = ground (arith, split_last-none sep cs)

pub split_last-append :
    (sep : ℕ) (a b : List ℕ) → occurs sep b ≡ false → split_last sep (a ++ sep ∷ b) ≡ some (a, b)
unfolding split_last
split_last-append sep [] b h = rw (split_last-none sep b h, split_last) (ground arith)
split_last-append sep (c ∷ a) b h = rw (split_last-append sep a b h)

-- A cut put together again.
abbrev joined : ℕ → Option (List ℕ × List ℕ) → List ℕ
joined sep none = []
joined sep (some (before, after)) = before ++ sep ∷ after

first_cut :
    (sep c : ℕ) (cs a b : List ℕ)
    → if◌then◌else◌ {A = Option (List ℕ × List ℕ)} (c == sep) (some ([], cs)) none ≡ some (a, b)
    → c ∷ cs ≡ a ++ sep ∷ b
first_cut sep c cs a b h = elim (Bool-cases (c == sep)) [
  | inl same ↦ let e : c ≡ sep = ground arith in ap (λ x. x ∷ cs) e ∙ ap (joined sep) (rw same at h)
  | inr other ↦ cc (rw other at h)
]

pub split_last-some : (sep : ℕ) (s a b : List ℕ) → split_last sep s ≡ some (a, b) → s ≡ a ++ sep ∷ b
unfolding split_last
split_last-some sep [] a b h = cc
split_last-some sep (c ∷ cs) a b h = elim (Option-cases (split_last sep cs)) [
  | inl absent ↦ first_cut sep c cs a b (rw (absent, split_last) at h)
  | inr ((x, y), found) ↦
      let e : some (c ∷ x, y) ≡ some (a, b) = rw (found, split_last) at h in
      ap (λ t. c ∷ t) (split_last-some sep cs x y found) ∙ ap (joined sep) e
]

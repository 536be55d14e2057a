-- ===== src/Host/Placeholders/Reads.antt =====
-- That the positional statement stands for what the numbered one does
-- (packages/durable-work/src/om/sql-executor-mikro.ts, `toPositional`).
use open_mercato_durable.Common.{
  ℕ, zero, suc, ◌&&◌, ◌≡◌, Bool, true, false, Option, none, some, List, [], ◌∷◌, ◌++◌, ◌==◌,
}
use mathlib.Core.Option
use open_mercato_durable.Ids.Decimal.{is_digit, decimal}
use open_mercato_durable.Host.Placeholders.{Piece, char, placeholder}

abbrev pub get_elem? : {V : Type 0} → List V → ℕ → Option V
get_elem? [] i = none
get_elem? (v ∷ vs) zero = some v
get_elem? (v ∷ vs) (suc i) = get_elem? vs i

-- `$n` is the n-th parameter, from 1 on.
abbrev pub nth : {V : Type 0} → ℕ → List V → Option V
nth zero vs = none
nth (suc i) vs = get_elem? vs i

-- A statement with its values in place of the placeholders.
pub data Bound (V : Type 0) : Type 0 where
  bound_char : ℕ → Bound V
  bound_value : V → Bound V

abbrev pub begins_with_digit : List ℕ → Bool
begins_with_digit [] = false
begins_with_digit (c ∷ cs) = is_digit c

-- A statement as it is written: a placeholder is a dollar and the decimal numeral of its position.
unfoldable pub print : List Piece → List ℕ
print [] = []
print (char c ∷ ps) = c ∷ print ps
print (placeholder n ∷ ps) = b'$' ∷ (decimal n ++ print ps)

-- A statement that has no question mark of its own, no digit after a placeholder's numeral and none
-- after a dollar that is not a placeholder's.
abbrev pub IsTemplate : List Piece → Type 0
IsTemplate [] = Unit
IsTemplate (char c ∷ ps) =
    (c == b'?' ≡ false) × ((c == b'$' && begins_with_digit (print ps)) ≡ false) × IsTemplate ps
IsTemplate (placeholder n ∷ ps) = (begins_with_digit (print ps) ≡ false) × IsTemplate ps

module _ {V : Type 0} where
  -- What the numbered statement stands for, if each of its positions has a parameter.
  abbrev bind_value : Option V → Option (List (Bound V)) → Option (List (Bound V))
  bind_value none r = none
  bind_value (some v) r = Option.map (λ bs. bound_value v ∷ bs) r

  unfoldable pub bind_numbered : List V → List Piece → Option (List (Bound V))
  bind_numbered params [] = some []
  bind_numbered params (char c ∷ ps) =
      Option.map (λ bs. bound_char c ∷ bs) (bind_numbered params ps)
  bind_numbered params (placeholder n ∷ ps) = bind_value (nth n params) (bind_numbered params ps)

  -- What the positional statement stands for: each `?` is the next parameter.
  unfoldable pub bind_positional : List ℕ → List V → Option (List (Bound V))
  bind_positional [] vs = some []
  bind_positional (c ∷ t) vs = elim (c == b'?') [
    | false ↦ Option.map (λ bs. bound_char c ∷ bs) (bind_positional t vs)
    | true ↦ elim vs [
      | [] ↦ none
      | v ∷ rest ↦ Option.map (λ bs. bound_value v ∷ bs) (bind_positional t rest)
    ]
  ]

  abbrev pub bind_rewritten : Option (List ℕ × List V) → Option (List (Bound V))
  bind_rewritten none = none
  bind_rewritten (some (t, vs)) = bind_positional t vs

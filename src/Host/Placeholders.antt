-- ===== src/Host/Placeholders.antt =====
-- The rewriting of `$n` placeholders (packages/durable-work/src/om/sql-executor-mikro.ts,
-- `toPositional`). A text is the list of its character codes.
pub mod Reads
use open_mercato_durable.Common.{
  ℕ, zero, suc, ◌+◌, ◌-◌, ◌*◌, true, false, Option, none, some, List, [], ◌∷◌, ◌==◌,
}
use open_mercato_durable.Ids.Decimal.{is_digit}

pub data Piece : Type 0 where
  char : ℕ → Piece
  placeholder : ℕ → Piece

-- Where the scan of `/\$(\d+)/g` stands: in plain text, after a dollar, or in the digits of a
-- placeholder.
pub data Scan : Type 0 where
  plain : Scan
  dollar : Scan
  digits : ℕ → Scan

unfoldable pub scan : Scan → List ℕ → List Piece
scan plain [] = []
scan dollar [] = char b'$' ∷ []
scan (digits n) [] = placeholder n ∷ []
scan plain (c ∷ cs) = elim (c == b'$') [ true ↦ scan dollar cs | false ↦ char c ∷ scan plain cs ]
scan dollar (c ∷ cs) = elim (is_digit c) [
  | true ↦ scan (digits (c - b'0')) cs
  | false ↦ elim (c == b'$') [
    | true ↦ char b'$' ∷ scan dollar cs
    | false ↦ char b'$' ∷ char c ∷ scan plain cs
  ]
]
scan (digits n) (c ∷ cs) = elim (is_digit c) [
  | true ↦ scan (digits (n * 10 + (c - b'0'))) cs
  | false ↦ elim (c == b'$') [
    | true ↦ placeholder n ∷ scan dollar cs
    | false ↦ placeholder n ∷ char c ∷ scan plain cs
  ]
]

module _ {V : Type 0} where
  -- `params[position - 1]`, if it is there.
  unfoldable pub param : ℕ → List V → Option V
  param n [] = none
  param zero (v ∷ vs) = none
  param (suc zero) (v ∷ vs) = some v
  param (suc (suc n)) (v ∷ vs) = param (suc n) vs

  abbrev with_char : ℕ → Option (List ℕ × List V) → Option (List ℕ × List V)
  with_char c none = none
  with_char c (some (t, vs)) = some (c ∷ t, vs)

  abbrev with_param : Option V → Option (List ℕ × List V) → Option (List ℕ × List V)
  with_param none r = none
  with_param (some v) none = none
  with_param (some v) (some (t, vs)) = some (b'?' ∷ t, v ∷ vs)

  unfoldable pub rewrite_pieces : List V → List Piece → Option (List ℕ × List V)
  unfolding param
  rewrite_pieces params [] = some ([], [])
  rewrite_pieces params (char c ∷ ps) = with_char c (rewrite_pieces params ps)
  rewrite_pieces params (placeholder n ∷ ps) =
      with_param (param n params) (rewrite_pieces params ps)

  -- `none` is the throw: a placeholder without a parameter.
  unfoldable pub to_positional : List ℕ → List V → Option (List ℕ × List V)
  unfolding scan rewrite_pieces
  to_positional text params = rewrite_pieces params (scan plain text)

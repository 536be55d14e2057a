-- ===== src/Ids/Texts.antt =====
-- The identities that a transport carries and their parts (core/ids.ts).
use open_mercato_durable.Common.{
  ℕ, Bool, true, false, ◌&&◌, ◌||◌, not, ◌==◌, leb, Option, none, some, List, [], ◌∷◌, ◌++◌,
  if◌then◌else◌,
}
use open_mercato_durable.Ids.Decimal.{decimal, number, all_digits, is_digit}
use open_mercato_durable.Ids.Split.{split_last}

-- A delivery whose job is named by a text.
pub record NamedDelivery : Type 0 where
  pub job_id : List ℕ
  pub seq : ℕ
  pub redrives : ℕ

abbrev pub id_prefix : List ℕ
id_prefix = b'd' ∷ b'w' ∷ b'-' ∷ []

unfoldable pub delivery_id : NamedDelivery → List ℕ
unfolding decimal
delivery_id d = id_prefix ++ (d.job_id ++ b'-' ∷ (decimal d.seq ++ b'-' ∷ decimal d.redrives))

-- What `.` does not match: the ends of a line.
abbrev pub is_line_end : ℕ → Bool
is_line_end c = c == 10 || c == 13 || c == 0x2028 || c == 0x2029

unfoldable pub all_in_line : List ℕ → Bool
all_in_line [] = true
all_in_line (c ∷ cs) = not (is_line_end c) && all_in_line cs

abbrev pub is_some_line : List ℕ → Bool
is_some_line [] = false
is_some_line s = all_in_line s

abbrev pub is_numeral : List ℕ → Bool
is_numeral [] = false
is_numeral s = all_digits s

-- `id` without the prefix.
unfoldable pub drop_prefix : List ℕ → List ℕ → Option (List ℕ)
drop_prefix [] s = some s
drop_prefix (p ∷ ps) [] = none
drop_prefix (p ∷ ps) (c ∷ cs) = if p == c then drop_prefix ps cs else none

-- The groups of `/^dw-(.+)-(\d+)-(\d+)$/` after the prefix: the numerals have no hyphen, so the
-- last two hyphens bound them.
unfoldable pub parse_front : List ℕ → List ℕ → Option NamedDelivery
unfolding split_last all_in_line all_digits number
parse_front front redrives = elim (split_last b'-' front) [
  | none ↦ none
  | some (job_id, seq) ↦
      if is_some_line job_id && (is_numeral seq && is_numeral redrives)
      then some (record { job_id = job_id; seq = number seq; redrives = number redrives })
      else none
]

unfoldable pub parse_parts : List ℕ → Option NamedDelivery
unfolding split_last parse_front
parse_parts s = elim (split_last b'-' s) [
  | none ↦ none
  | some (front, redrives) ↦ parse_front front redrives
]

unfoldable pub parse_delivery_id : List ℕ → Option NamedDelivery
unfolding drop_prefix parse_parts
parse_delivery_id id = elim (drop_prefix id_prefix id) [ none ↦ none | some s ↦ parse_parts s ]

abbrev pub queue_prefix : List ℕ
queue_prefix =
    b'd' ∷ b'u' ∷ b'r' ∷ b'a' ∷ b'b' ∷ b'l' ∷ b'e' ∷ b'-' ∷ b'w' ∷ b'o' ∷ b'r' ∷ b'k' ∷ b'.' ∷ []

unfoldable pub queue_name_for : List ℕ → List ℕ
queue_name_for group = queue_prefix ++ group

-- `PORTABLE_QUEUE_NAME`.
abbrev pub is_portable_char : ℕ → Bool
is_portable_char c =
    (leb b'A' c && leb c b'Z')
    || (leb b'a' c && leb c b'z')
    || is_digit c
    || c == b'_'
    || c == b'-'
    || c == b'.'
    || c == b'/'

unfoldable pub all_portable : List ℕ → Bool
all_portable [] = true
all_portable (c ∷ cs) = is_portable_char c && all_portable cs

abbrev pub is_portable : List ℕ → Bool
is_portable [] = false
is_portable s = all_portable s

unfoldable pub slice_idempotency_key : List ℕ → ℕ → List ℕ
unfolding decimal
slice_idempotency_key job_id seq = job_id ++ b':' ∷ decimal seq

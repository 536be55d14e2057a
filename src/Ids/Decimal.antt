-- ===== src/Ids/Decimal.antt =====
-- Numbers in a text: `${n}` and `Number(s)` on digits (core/ids.ts). A text is the list of its
-- character codes. The numbers are exact, as JavaScript's are below 2 ^ 53.
use open_mercato_durable.Common.{
  ℕ, zero, suc, ◌+◌, ◌-◌, ◌*◌, ◌/◌, ◌%◌, ◌<◌, ◌≡◌, refl, inl, inr, Bool, true, ◌&&◌, ltb, leb, List,
  [], ◌∷◌, ◌++◌, if◌then◌else◌, Bool-cases, arith,
}

abbrev pub digit : ℕ → ℕ
digit n = n + b'0'

abbrev pub is_digit : ℕ → Bool
is_digit c = leb b'0' c && leb c b'9'

unfoldable pub decimal_on : ℕ → ℕ → List ℕ
decimal_on zero n = []
decimal_on (suc fuel) n =
    let rest = decimal_on fuel (n / 10) in
    if ltb n 10 then digit n ∷ [] else rest ++ digit (n % 10) ∷ []

-- A number has fewer digits than its successor has units.
unfoldable pub decimal : ℕ → List ℕ
unfolding decimal_on
decimal n = decimal_on (suc n) n

unfoldable pub number_on : ℕ → List ℕ → ℕ
number_on value [] = value
number_on value (c ∷ cs) = number_on (value * 10 + (c - b'0')) cs

unfoldable pub number : List ℕ → ℕ
unfolding number_on
number = number_on 0

unfoldable pub all_digits : List ℕ → Bool
all_digits [] = true
all_digits (c ∷ cs) = is_digit c && all_digits cs

number_on-append :
    (v : ℕ) (xs : List ℕ) (c : ℕ) → number_on v (xs ++ c ∷ []) ≡ number_on v xs * 10 + (c - b'0')
unfolding number_on
number_on-append v [] c = refl
number_on-append v (x ∷ xs) c = number_on-append (v * 10 + (x - b'0')) xs c

all_digits-append :
    (xs : List ℕ) (c : ℕ)
    → all_digits xs ≡ true
    → is_digit c ≡ true
    → all_digits (xs ++ c ∷ []) ≡ true
unfolding all_digits
all_digits-append [] c h k = ground arith
all_digits-append (x ∷ xs) c h k = ground (arith, all_digits-append xs c)

-- What the numeral of a number is.
pub record IsNumeral (n : ℕ) (s : List ℕ) : Type 0 where
  pub value : number s ≡ n
  pub digits : all_digits s ≡ true
  pub some_digit : (c : ℕ) × (cs : List ℕ) × (s ≡ c ∷ cs)

append-nonempty : (xs : List ℕ) (c : ℕ) → (d : ℕ) × (ds : List ℕ) × ((xs ++ c ∷ []) ≡ d ∷ ds)
append-nonempty [] c = (c, [], refl)
append-nonempty (x ∷ xs) c = (x, xs ++ c ∷ [], refl)

number-append : (n : ℕ) (s : List ℕ) → number s ≡ n / 10 → number (s ++ digit (n % 10) ∷ []) ≡ n
unfolding number
number-append n s h = omega (arith, number_on-append 0 s (digit (n % 10)))

decimal_on-IsNumeral : (f n : ℕ) → n < f → IsNumeral n (decimal_on f n)
unfolding decimal_on
decimal_on-IsNumeral zero n h = elim h [ ]
decimal_on-IsNumeral (suc f) n h = elim (Bool-cases (ltb n 10)) [
  | inl small ↦ rw small (record {
    value = unfold number in unfold number_on in omega arith;
    digits = unfold all_digits in ground arith;
    some_digit = (digit n, [], refl);
  })
  | inr large ↦
      let ih = decimal_on-IsNumeral f (n / 10) (ground arith) in
      rw large (record {
        value = number-append n _ ih.value;
        digits = all_digits-append _ _ ih.digits (ground arith);
        some_digit = append-nonempty _ _;
      })
]

pub decimal-IsNumeral : (n : ℕ) → IsNumeral n (decimal n)
unfolding decimal
decimal-IsNumeral n = decimal_on-IsNumeral (suc n) n (omega arith)

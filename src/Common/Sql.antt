-- ===== src/Common/Sql.antt =====
-- SQL's three-valued reading of a nullable column: a comparison with null is not true.
use Prim.Native.Nat.{ℕ, ◌+◌, max}
use mathlib.Core.Bool.{Bool, true, false}
use mathlib.Core.Option.{Option, none, some}
use open_mercato_durable.Common.Tests.{ltb, ◌==◌}

-- `coalesce(a, b)` with `b` not null.
abbrev pub coalesce {ℓ} : {A : Type ℓ} → Option A → A → A
coalesce none b = b
coalesce (some a) b = a

-- `coalesce(a, b)` with both nullable.
abbrev pub or_else {ℓ} : {A : Type ℓ} → Option A → Option A → Option A
or_else none b = b
or_else (some a) b = some a

-- `greatest(a, b)`, which ignores nulls.
abbrev pub greatest : Option ℕ → Option ℕ → Option ℕ
greatest none b = b
greatest (some a) none = some a
greatest (some a) (some b) = some (max a b)

-- `t < now() - d`, written without the subtraction.
abbrev pub is_past : Option ℕ → ℕ → ℕ → Bool
is_past none d now = false
is_past (some t) d now = ltb (t + d) now

-- `t is null or t < now() - d`
abbrev pub is_null_or_past : Option ℕ → ℕ → ℕ → Bool
is_null_or_past none d now = true
is_null_or_past (some t) d now = ltb (t + d) now

abbrev pub is_null {ℓ} : {A : Type ℓ} → Option A → Bool
is_null none = true
is_null (some a) = false

-- `a = $n` for a nullable column and a parameter that is not null.
abbrev pub equals : Option ℕ → ℕ → Bool
equals none b = false
equals (some a) b = a == b

-- `a = $n or ($n is null and a is null)`
abbrev pub same_or_both_null : Option ℕ → Option ℕ → Bool
same_or_both_null none none = true
same_or_both_null none (some b) = false
same_or_both_null (some a) none = false
same_or_both_null (some a) (some b) = a == b

-- `now() + d` for a nullable duration, null when the duration is.
abbrev pub after_delay : ℕ → Option ℕ → Option ℕ
after_delay now none = none
after_delay now (some d) = some (now + d)

-- ===== src/Policy/Numbers.antt =====
-- The JavaScript conversions and comparisons that policy.service.ts applies to policy values, and
-- the rule for an optional maximum.
use liminalis.Common.{
  ℕ, zero, ◌+◌, ◌-◌, ◌*◌, Bool, true, false, not, ◌&&◌, ◌||◌, Option, none, some, List, [], ◌∷◌,
  leb, ◌==◌, if◌then◌else◌,
}
use liminalis.Common.Int.{ℤ, pos, negsuc, ltb_ℤ, leb_ℤ}
use liminalis.Schema.{Scalar, undefined, null, bool, num, str, Num, nan, int}

is_space : ℕ → Bool
is_space c = c == 32 || (leb 9 c && leb c 13)

unfoldable pub trim_start : List ℕ → List ℕ
unfolding is_space
trim_start [] = []
trim_start (c ∷ cs) = let rest = trim_start cs in if is_space c then rest else c ∷ cs

-- `trim`: a trailing run of white space is dropped, then a leading one.
trim_end : List ℕ → List ℕ
unfolding is_space
trim_end [] = []
trim_end (c ∷ cs) = elim (trim_end cs) [
  | [] ↦ if is_space c then [] else c ∷ []
  | d ∷ ds ↦ c ∷ d ∷ ds
]

unfoldable pub trim : List ℕ → List ℕ
unfolding trim_start trim_end
trim s = trim_start (trim_end s)

digits_value : ℕ → List ℕ → Option ℕ
digits_value acc [] = some acc
digits_value acc (c ∷ cs) =
    let rest = digits_value (acc * 10 + (c - 48)) cs in if leb 48 c && leb c 57 then rest else none

negated : ℕ → ℤ
negated zero = pos zero
negated n = negsuc (n - 1)

as_num : (ℕ → ℤ) → Option ℕ → Num
as_num f none = nan
as_num f (some n) = int (f n)

unsigned : List ℕ → Num
unsigned [] = nan
unsigned s = as_num pos (digits_value 0 s)

-- `Number` of a string: decimal integers with an optional sign; other spellings of numbers are not
-- modelled.
string_number : List ℕ → Num
unfolding digits_value negated as_num unsigned
string_number [] = int (pos 0)
string_number (c ∷ cs) = elim (c == 45) [
  | true ↦ elim cs [ [] ↦ nan | d ∷ ds ↦ as_num negated (digits_value 0 (d ∷ ds)) ]
  | false ↦ if c == 43 then unsigned cs else unsigned (c ∷ cs)
]

-- `Number(value)`
unfoldable pub to_number : Scalar → Num
unfolding string_number trim
to_number undefined = nan
to_number null = int (pos 0)
to_number (bool true) = int (pos 1)
to_number (bool false) = int (pos 0)
to_number (num n) = int n
to_number (str s) = string_number (trim s)

-- `toNullableNumber`
unfoldable pub to_nullable_number : Scalar → Option Num
to_nullable_number undefined = none
to_nullable_number null = none
to_nullable_number (bool b) = some (to_number (bool b))
to_nullable_number (num n) = some (to_number (num n))
to_nullable_number (str s) = some (to_number (str s))

abbrev is_zero_ℤ : ℤ → Bool
is_zero_ℤ (pos n) = n == 0
is_zero_ℤ (negsuc n) = false

abbrev is_empty : List ℕ → Bool
is_empty [] = true
is_empty (c ∷ cs) = false

-- `Boolean(value)`
abbrev pub truthy : Scalar → Bool
truthy undefined = false
truthy null = false
truthy (bool b) = b
truthy (num n) = not (is_zero_ℤ n)
truthy (str s) = not (is_empty s)

-- `value === true` and `value === false`
abbrev pub is_true : Scalar → Bool
is_true (bool b) = b
is_true _ = false

abbrev pub is_false : Scalar → Bool
is_false (bool b) = not b
is_false _ = false

-- `n === 0`, `n <= 0` and `a > b`; NaN makes each of them false.
abbrev pub is_zero : Num → Bool
is_zero nan = false
is_zero (int n) = is_zero_ℤ n

abbrev pub le_zero : Num → Bool
le_zero nan = false
le_zero (int n) = leb_ℤ n (pos 0)

abbrev pub gt : Num → Num → Bool
gt (int a) (int b) = ltb_ℤ b a
gt _ _ = false

-- `maximum !== null && value > maximum`
abbrev pub exceeds : Num → Option Num → Bool
exceeds value none = false
exceeds value (some maximum) = gt value maximum

-- The milliseconds of a truthy number of minutes, `none` for 0, NaN or null: the `?:` of the callers
-- that compute a date from a resolved validity. (A negative number has been refused before.)
abbrev pub lifetime_ms : Option Num → Option ℕ
lifetime_ms (some (int (pos n))) = if n == 0 then none else some (n * 60000)
lifetime_ms _ = none

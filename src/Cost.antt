-- ===== src/Cost.antt =====
-- internal/policies/counters.go: decimal amounts of money. A `*big.Rat` that the program makes
-- from such texts is a multiple of 10^-10 dollars, and is modelled by that multiple.
pub mod Digits
use virgil.Base.{
  ℕ, zero, suc, ◌+◌, ◌-◌, ◌*◌, ◌^◌, ◌%◌, ◌/◌, ◌<◌, ◌≤◌, leb, ltb, ◌==◌, if◌then◌else◌, String,
  is_empty, ◌≡◌, refl, Bool, true, false, ◌&&◌, ◌||◌, not, Option, none, some, List, [], ◌∷◌,
  length, all_of, arith,
}
use virgil.Base.Text.{codes, is_digit}

-- Ten decimals.
abbrev pub unit : ℕ
unit = 10000000000

-- `[0-9]*` after the first digit: the value, and what follows.
unfoldable pub digits_from : ℕ → List ℕ → ℕ × List ℕ
digits_from acc [] = (acc, [])
digits_from acc (c ∷ cs) =
    let rest = digits_from (10 * acc + (c - b'0')) cs in if is_digit c then rest else (acc, c ∷ cs)

-- `(0|[1-9][0-9]*)`.
unfoldable pub whole_part : List ℕ → Option (ℕ × List ℕ)
whole_part [] = none
whole_part (c ∷ cs) =
    if c == b'0'
    then some (0, cs)
    else if is_digit c
    then some (digits_from (c - b'0') cs)
    else none

-- `(\.[0-9]{1,10})?$`, in units of 10^-10.
unfoldable pub fraction : List ℕ → Option ℕ
unfolding digits_from
fraction [] = some 0
fraction (c ∷ ds) =
    if c == b'.' && leb 1 (length ds) && leb (length ds) 10 && all_of is_digit ds
    then some ((digits_from 0 ds).0 * 10 ^ (10 - length ds))
    else none

add_fraction : ℕ → Option ℕ → Option ℕ
add_fraction w none = none
add_fraction w (some f) = some (w * unit + f)

after_whole : Option (ℕ × List ℕ) → Option ℕ
unfolding add_fraction
after_whole none = none
after_whole (some (w, rest)) = add_fraction w (fraction rest)

-- `decimalPattern`, and the value that `SetString` reads from a text that it accepts.
unfoldable pub decimal_codes : List ℕ → Option ℕ
unfolding after_whole
decimal_codes cs = after_whole (whole_part cs)

-- `decimal`: the empty text is 0, and `none` is an error.
unfoldable pub decimal : String → Option ℕ
decimal value = if is_empty value then some 0 else decimal_codes (codes value)

-- `exceedsCost`: whether the sum of two amounts is over a limit.
unfoldable pub exceeds_cost : String → String → String → Option Bool
exceeds_cost current add limit = elim (decimal current) [
  | none ↦ none
  | some a ↦ elim (decimal add) [
    | none ↦ none
    | some b ↦ elim (decimal limit) [ none ↦ none | some c ↦ some (ltb c (a + b)) ]
  ]
]

-- The last `k` decimal digits of a number, before `acc`.
unfoldable pub last_digits : ℕ → ℕ → List ℕ → List ℕ
last_digits zero n acc = acc
last_digits (suc k) n acc = last_digits k (n / 10) ((b'0' + n % 10) ∷ acc)

-- All digits of a number with no leading zero, by fuel above the number.
unfoldable pub all_digits : ℕ → ℕ → List ℕ → List ℕ
all_digits zero n acc = acc
all_digits (suc f) n acc =
    let more = all_digits f (n / 10) ((b'0' + n % 10) ∷ acc) in
    if ltb n 10 then (b'0' + n % 10) ∷ acc else more

-- `FloatString(10)` of a non-negative amount: the whole dollars, a dot and ten digits.
unfoldable pub float_string : ℕ → List ℕ
unfolding last_digits all_digits
float_string n = all_digits (suc (n / unit)) (n / unit) (b'.' ∷ last_digits 10 (n % unit) [])

-- ===== src/Cost/Digits.antt =====
-- Decimal digits and the numbers they stand for: a printed amount reads back.
use virgil.Base.{
  ℕ, zero, suc, ◌+◌, ◌/◌, ◌%◌, ◌^◌, ◌<◌, ltb, ◌≡◌, refl, sym, ap, ◌∙◌, ◌≢◌, true, false, some, List,
  [], ◌∷◌, length, all_of, arith, Bool-cases, inl, inr,
}
use native.Mathlib.Nat.{pow-suc}
use virgil.Base.Text.{is_digit}
use virgil.Cost.{
  unit, digits_from, whole_part, fraction, add_fraction, after_whole, decimal_codes, last_digits,
  all_digits, float_string,
}

digit-is_digit : (n : ℕ) → is_digit (b'0' + n % 10) ≡ true
digit-is_digit n = ground arith

-- One digit of a number, read after the digits above it.
read_digit :
    (n : ℕ) (acc : List ℕ) → digits_from (n / 10) ((b'0' + n % 10) ∷ acc) ≡ digits_from n acc
unfolding digits_from
read_digit n acc = rw (digit-is_digit n) (ap (λ m. digits_from m acc) (omega arith))

read_last_digits :
    (k n : ℕ) (acc : List ℕ) → n < 10 ^ k → digits_from 0 (last_digits k n acc) ≡ digits_from n acc
unfolding last_digits
read_last_digits zero n acc h = ap (λ m. digits_from m acc) (omega arith)
read_last_digits (suc k) n acc h =
    read_last_digits k (n / 10) ((b'0' + n % 10) ∷ acc) (omega (arith, pow-suc 10 k))
    ∙ read_digit n acc

read_all_digits :
    (f n : ℕ) (acc : List ℕ) → n < f → digits_from 0 (all_digits f n acc) ≡ digits_from n acc
unfolding all_digits
read_all_digits zero n acc h = elim h [ ]
read_all_digits (suc f) n acc h = elim (Bool-cases (ltb n 10)) [
  | inl small ↦
      rw small (ap (λ m. digits_from m ((b'0' + n % 10) ∷ acc)) (ground arith) ∙ read_digit n acc)
  | inr large ↦
      rw large
        (read_all_digits f (n / 10) ((b'0' + n % 10) ∷ acc) (ground arith) ∙ read_digit n acc)
]

last_digits-all :
    (k n : ℕ) (acc : List ℕ)
    → all_of is_digit acc ≡ true
    → all_of is_digit (last_digits k n acc) ≡ true
unfolding last_digits
last_digits-all zero n acc h = h
last_digits-all (suc k) n acc h =
    last_digits-all k (n / 10) ((b'0' + n % 10) ∷ acc) (rw (digit-is_digit n, h))

length-last_digits : (k n : ℕ) (acc : List ℕ) → length (last_digits k n acc) ≡ k + length acc
unfolding last_digits
length-last_digits zero n acc = omega arith
length-last_digits (suc k) n acc =
    omega (arith, length-last_digits k (n / 10) ((b'0' + n % 10) ∷ acc))

-- The printed form of a number begins with a digit, which is not 0 if the number is not.
record Leads (n : ℕ) (cs : List ℕ) : Type 0 where
  first : ℕ
  others : List ℕ
  split : cs ≡ first ∷ others
  digit : is_digit first ≡ true
  nonzero : 0 < n → first ≢ b'0'

all_digits-Leads : (f n : ℕ) (acc : List ℕ) → n < f → Leads n (all_digits f n acc)
unfolding all_digits
all_digits-Leads zero n acc h = elim h [ ]
all_digits-Leads (suc f) n acc h = elim (Bool-cases (ltb n 10)) [
  | inl small ↦ record {
    first = b'0' + n % 10;
    others = acc;
    split = rw small;
    digit = digit-is_digit n;
    nonzero = ground arith;
  }
  | inr large ↦
      let r = all_digits-Leads f (n / 10) ((b'0' + n % 10) ∷ acc) (ground arith) in
      record {
        first = r.first;
        others = r.others;
        split = rw large r.split;
        digit = r.digit;
        nonzero = λ _. r.nonzero (ground arith);
      }
]

-- A text that starts with a digit other than 0 is read to its last digit.
whole_part_leading :
    (c : ℕ) (cs : List ℕ)
    → is_digit c ≡ true
    → c ≢ b'0'
    → whole_part (c ∷ cs) ≡ some (digits_from 0 (c ∷ cs))
unfolding whole_part digits_from
whole_part_leading c cs d h = ground arith

whole_part-all_digits :
    (n c : ℕ) (cs : List ℕ)
    → is_digit c ≡ false
    → whole_part (all_digits (suc n) n (c ∷ cs)) ≡ some (n, c ∷ cs)
whole_part-all_digits zero c cs h = unfold whole_part all_digits in refl
whole_part-all_digits (suc n) c cs h =
    let r = all_digits-Leads (suc (suc n)) (suc n) (c ∷ cs) (omega arith) in
    rw r.split (whole_part_leading r.first r.others r.digit (r.nonzero (omega arith)))
    ∙ ap some (
        ap (digits_from 0) (sym r.split)
        ∙ read_all_digits (suc (suc n)) (suc n) (c ∷ cs) (omega arith)
        ∙ (unfold digits_from in rw h))

fraction-last_digits : (n : ℕ) → n < unit → fraction (b'.' ∷ last_digits 10 n []) ≡ some n
unfolding fraction
fraction-last_digits n h =
    rw (length-last_digits 10 n [], last_digits-all 10 n [] refl, read_last_digits 10 n [] h)
      (ap some (omega arith))

-- The ten-decimal text of an amount is accepted as a decimal and reads back as that amount.
pub decimal_codes-float_string : (n : ℕ) → decimal_codes (float_string n) ≡ some n
unfolding decimal_codes float_string
decimal_codes-float_string n =
    rw
      (
        whole_part-all_digits (n / unit) b'.' (last_digits 10 (n % unit) []) refl,
        after_whole,
        fraction-last_digits (n % unit) (omega arith),
        add_fraction,
      )
      (ap some (omega arith))

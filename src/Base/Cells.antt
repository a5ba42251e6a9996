-- ===== src/Base/Cells.antt =====
-- Lists read and written by position: the memory cells that pointers name, and the threads of a
-- schedule.
use Prim.Native.Nat.{ℕ, zero, suc, ◌<◌}
use mathlib.Core.Path.{◌≡◌, refl, sym, subst}
use mathlib.Core.Logic.{◌≢◌, ◌⊎◌, inl, inr}
use mathlib.Core.Option.{Option, none, some}
use mathlib.Core.Option
use mathlib.Core.List.{List, [], ◌∷◌, ◌++◌}
use native.Mathlib.Omega.{arith}
use virgil.Base.Tests.{◌==◌, if◌then◌else◌, Bool-cases, eqb→eq}
use virgil.Base.Lists.{length, All}

module _ {ℓ} {A : Type ℓ} where
  unfoldable pub get_elem? : List A → ℕ → Option A
  get_elem? [] i = none
  get_elem? (x ∷ xs) zero = some x
  get_elem? (x ∷ xs) (suc i) = get_elem? xs i

  -- The value at a position replaced by its image; nothing changes out of range.
  unfoldable pub modify : List A → ℕ → (A → A) → List A
  modify [] i f = []
  modify (x ∷ xs) zero f = f x ∷ xs
  modify (x ∷ xs) (suc i) f = x ∷ modify xs i f

  pub get_elem?-modify :
      (xs : List A) (i j : ℕ) (f : A → A)
      → get_elem? (modify xs i f) j
        ≡ (if i == j then Option.map f (get_elem? xs j) else get_elem? xs j)
  unfolding get_elem? modify
  get_elem?-modify [] i j f = ground arith
  get_elem?-modify (x ∷ xs) zero zero f = ground arith
  get_elem?-modify (x ∷ xs) zero (suc j) f = ground arith
  get_elem?-modify (x ∷ xs) (suc i) zero f = ground arith
  get_elem?-modify (x ∷ xs) (suc i) (suc j) f = ground (arith, get_elem?-modify xs i j f)

  pub get_elem?-append :
      (xs : List A) (y : A) (j : ℕ)
      → get_elem? (xs ++ y ∷ []) j ≡ (if length xs == j then some y else get_elem? xs j)
  unfolding get_elem?
  get_elem?-append [] y zero = ground arith
  get_elem?-append [] y (suc j) = ground arith
  get_elem?-append (x ∷ xs) y zero = ground arith
  get_elem?-append (x ∷ xs) y (suc j) = ground (arith, get_elem?-append xs y j)

  pub get_elem?-lt : (xs : List A) (j : ℕ) (x : A) → get_elem? xs j ≡ some x → j < length xs
  unfolding get_elem?
  get_elem?-lt [] j x h = absurd (cc)
  get_elem?-lt (y ∷ ys) zero x h = omega arith
  get_elem?-lt (y ∷ ys) (suc j) x h = omega (arith, get_elem?-lt ys j x h)

  pub length-modify : (xs : List A) (i : ℕ) (f : A → A) → length (modify xs i f) ≡ length xs
  unfolding modify
  length-modify [] i f = refl
  length-modify (x ∷ xs) zero f = refl
  length-modify (x ∷ xs) (suc i) f = omega (arith, length-modify xs i f)

  pub All-get {κ} :
      (P : A → Type κ) (xs : List A) (i : ℕ) (x : A) → All P xs → get_elem? xs i ≡ some x → P x
  unfolding get_elem?
  All-get P [] i x all h = absurd (cc)
  All-get P (y ∷ ys) zero x all h = subst P (cc) all.0
  All-get P (y ∷ ys) (suc i) x all h = All-get P ys i x all.1 h

  pub All-modify {κ} :
      (P : A → Type κ) (xs : List A) (i : ℕ) (f : A → A)
      → ((x : A) → get_elem? xs i ≡ some x → P x → P (f x))
      → All P xs
      → All P (modify xs i f)
  unfolding modify get_elem?
  All-modify P [] i f keeps all = all
  All-modify P (y ∷ ys) zero f keeps all = (keeps y refl all.0, all.1)
  All-modify P (y ∷ ys) (suc i) f keeps all = (all.0, All-modify P ys i f keeps all.1)

  pub All-append {κ} :
      (P : A → Type κ) (xs : List A) (y : A) → All P xs → P y → All P (xs ++ y ∷ [])
  All-append P [] y all h = (h, tt)
  All-append P (x ∷ xs) y all h = (all.0, All-append P xs y all.1 h)

  -- Where an entry of a list with one entry replaced, or one appended, comes from.
  pub modify-cases :
      (xs : List A) (i j : ℕ) (x y z : A)
      → get_elem? xs i ≡ some x
      → get_elem? (modify xs i (λ _. y)) j ≡ some z
      → ((j ≡ i) × (z ≡ y)) ⊎ ((j ≢ i) × (get_elem? xs j ≡ some z))
  modify-cases xs i j x y z e h = elim (Bool-cases (i == j)) [
    | inl s ↦
        let same = eqb→eq i j s in inl (sym same, ground (arith, get_elem?-modify xs i j (λ _. y)))
    | inr n ↦ inr (ground arith, ground (arith, get_elem?-modify xs i j (λ _. y)))
  ]

  pub append-cases :
      (xs : List A) (j : ℕ) (y z : A)
      → get_elem? (xs ++ y ∷ []) j ≡ some z
      → ((j ≡ length xs) × (z ≡ y)) ⊎ (get_elem? xs j ≡ some z)
  append-cases xs j y z h = elim (Bool-cases (length xs == j)) [
    | inl s ↦ inl (sym (eqb→eq (length xs) j s), ground (arith, get_elem?-append xs y j))
    | inr n ↦ inr (ground (arith, get_elem?-append xs y j))
  ]

  pub get_elem?-length : (xs : List A) → get_elem? xs (length xs) ≡ none
  unfolding get_elem?
  get_elem?-length [] = refl
  get_elem?-length (x ∷ xs) = get_elem?-length xs

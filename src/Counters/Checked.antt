-- ===== src/Counters/Checked.antt =====
-- Checked sums of `int64`s, as equations between natural numbers.
use virgil.Base.{
  ℕ, ◌+◌, ◌≤◌, none, some, [], ◌∷◌, ◌≡◌, refl, arith, ◌⊎◌, inl, inr, Option-cases, ok, false,
}
use virgil.Base.Int.{ℤ, pos, negsuc, pos_part, ◌+ℤ◌, ◌-ℤ◌, eq_ℤ, max_int64}
use virgil.Counters.{checked_add, PolicyReserve, PolicyRun, Next, policy_decimal, next_counters}

-- A sum that is returned is the sum of two non-negative numbers, and fits.
pub record IsSum (a b c : ℤ) : Type 0 where
  pub left : ℕ
  pub right : ℕ
  pub left_eq : a ≡ pos left
  pub right_eq : b ≡ pos right
  pub sum_eq : c ≡ pos (left + right)
  pub fits : left + right ≤ max_int64

pub checked_add_two : (a b c : ℤ) → checked_add (a ∷ b ∷ []) ≡ some c → IsSum a b c
unfolding checked_add ◌+ℤ◌ ◌-ℤ◌
checked_add_two (negsuc x) b c h = absurd (ground arith)
checked_add_two (pos x) (negsuc y) c h = absurd (ground arith)
checked_add_two (pos x) (pos y) c h = record {
  left = x;
  right = y;
  left_eq = refl;
  right_eq = refl;
  sum_eq = ground arith;
  fits = ground arith;
}

-- The sum of two non-negative numbers that fits is returned.
pub checked_add-fits :
    (x y : ℕ) → x + y ≤ max_int64 → checked_add (pos x ∷ pos y ∷ []) ≡ some (pos (x + y))
unfolding checked_add ◌+ℤ◌ ◌-ℤ◌
checked_add-fits x y h = ground arith

pub checked_add_cases :
    (a b : ℤ)
    → (checked_add (a ∷ b ∷ []) ≡ none)
      ⊎ ((c : ℤ) × (checked_add (a ∷ b ∷ []) ≡ some c) × IsSum a b c)
checked_add_cases a b = elim (Option-cases (checked_add (a ∷ b ∷ []))) [
  | inl e ↦ inl e
  | inr (c, e) ↦ inr (c, e, checked_add_two a b c e)
]

-- The plan of a call: its request and the counters of its run are non-negative, and so are the
-- counters after it, which are their sums and fit into an `int64`.
pub record IsPlanned (r : PolicyReserve) (run : PolicyRun) (next : Next) (estimate : ℕ)
    : Type 0 where
  pub input : IsSum run.input_tokens r.input_tokens next.input
  pub output : IsSum run.output_tokens r.output_tokens next.output
  pub tools : IsSum run.tool_calls r.tool_calls next.tools
  pub total : IsSum next.input next.output next.total
  pub estimate_eq : policy_decimal r.cost_usd ≡ some estimate
  pub cap_eq : policy_decimal r.max_cost_usd ≡ some next.cap
  pub current : ℕ
  pub current_eq : run.cost_usd ≡ pos current
  pub cost_eq : next.cost ≡ current + estimate
  pub not_full : eq_ℤ run.calls (pos max_int64) ≡ false

pub next_counters-IsPlanned :
    (r : PolicyReserve) (run : PolicyRun) (next : Next) (estimate : ℕ)
    → next_counters r run ≡ ok (next, estimate)
    → IsPlanned r run next estimate
unfolding next_counters
next_counters-IsPlanned r run next estimate h = record {
  input = ground (arith, checked_add_two run.input_tokens r.input_tokens next.input);
  output = ground (arith, checked_add_two run.output_tokens r.output_tokens next.output);
  tools = ground (arith, checked_add_two run.tool_calls r.tool_calls next.tools);
  total = ground (arith, checked_add_two next.input next.output next.total);
  estimate_eq = ground arith;
  cap_eq = ground arith;
  current = pos_part run.cost_usd;
  current_eq = ground arith;
  cost_eq = ground arith;
  not_full = ground arith;
}

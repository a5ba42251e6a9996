-- ===== src/Counters/Ledger.antt =====
-- The counters of a run are the sums over its reservations, and `ReservePolicy` keeps them so.
use virgil.Base.{
  ℕ, ◌+◌, ◌≤◌, String, str_eq, false, none, some, [], ok, ◌≡◌, refl, ◌∙◌, arith, eq_iff, eq_refl,
  Bool-cases, Option-cases, inl, inr,
}
use mathlib.Core.Path.{subst, subst₂}
use virgil.Base.Dict.{Dict, get, put, get-put}
use virgil.Base.Int.{ℤ, pos, pos_part, ◌+ℤ◌, is_negative, max_int64, pos-+ℤ-pos}
use virgil.Counters.{
  PolicyReserve, PolicyReserveResult, PolicyRun, Reservation, Counters, Next, charged,
  reservation_of, charge, reserve_policy,
}
use virgil.Counters.Checked.{IsSum, IsPlanned}
use virgil.Counters.Reserve.{run_of, refusal, grant, reserve-Outcome}
use virgil.Counters.Totals.{share, total, total-put_new}

abbrev pub one : Reservation → ℤ
one r = pos 1

abbrev pub input_column : Reservation → ℤ
input_column r = r.input_tokens

abbrev pub output_column : Reservation → ℤ
output_column r = r.output_tokens

abbrev pub tools_column : Reservation → ℤ
tools_column r = r.tool_calls

abbrev pub cost_column : Reservation → ℤ
cost_column r = r.cost_usd

-- Each counter of the run `k` is the sum over its reservations, and fits into an `int64`.
pub record IsBalanced (d : Dict Reservation) (k : String) (row : PolicyRun) : Type 0 where
  pub calls : row.calls ≡ pos (total one k d)
  pub input : row.input_tokens ≡ pos (total input_column k d)
  pub output : row.output_tokens ≡ pos (total output_column k d)
  pub tools : row.tool_calls ≡ pos (total tools_column k d)
  pub cost : row.cost_usd ≡ pos (total cost_column k d)
  pub calls_fit : total one k d ≤ max_int64
  pub tokens_fit : total input_column k d + total output_column k d ≤ max_int64
  pub tools_fit : total tools_column k d ≤ max_int64

pub record IsNonneg (r : Reservation) : Type 0 where
  pub input : is_negative r.input_tokens ≡ false
  pub output : is_negative r.output_tokens ≡ false
  pub tools : is_negative r.tool_calls ≡ false
  pub cost : is_negative r.cost_usd ≡ false

pub record IsLedger (s : Counters) : Type 0 where
  pub rows :
      (k : String) (row : PolicyRun) → get s.runs k ≡ some row → IsBalanced s.reservations k row
  pub absent :
      (k : String)
      → get s.runs k ≡ none
      → (column : Reservation → ℤ) → total column k s.reservations ≡ 0
  pub reserved : (id : String) (r : Reservation) → get s.reservations id ≡ some r → IsNonneg r

pub empty-IsLedger : IsLedger (record { runs = []; reservations = []; daily = [] })
unfolding get total
empty-IsLedger = record {
  rows = λ k row e. absurd (cc);
  absent = λ k e column. refl;
  reserved = λ id r e. absurd (cc);
}

-- The row that a call reads is balanced, new or not.
run_of-IsBalanced :
    (s : Counters) (r : PolicyReserve)
    → IsLedger s
    → IsBalanced s.reservations r.run_id (run_of s r)
run_of-IsBalanced s r v = elim (Option-cases (get s.runs r.run_id)) [
  | inl free ↦
      let z = v.absent r.run_id free in
      rw free (record {
        calls = rw (z one);
        input = rw (z input_column);
        output = rw (z output_column);
        tools = rw (z tools_column);
        cost = rw (z cost_column);
        calls_fit = rw (z one) (omega arith);
        tokens_fit = rw (z input_column, z output_column) (omega arith);
        tools_fit = rw (z tools_column) (omega arith);
      })
  | inr (row, e) ↦ rw e (v.rows r.run_id row e)
]

-- A counter that grows by the new reservation's column.
grown : (a b c : ℤ) (t t' : ℕ) → IsSum a b c → a ≡ pos t → t' ≡ t + pos_part b → a +ℤ b ≡ pos t'
grown a b c t t' s e e' = ground (arith, pos-+ℤ-pos s.left s.right)

module _ (s : Counters) (r : PolicyReserve) (next : Next) (estimate : ℕ) (v : IsLedger s)
    (p : IsPlanned r (run_of s r) next estimate)
    (free : get s.reservations r.reservation_id ≡ none) where
  after : Dict Reservation
  after = put s.reservations r.reservation_id (reservation_of r estimate)

  added :
      (column : Reservation → ℤ) (k : String)
      → total column k after
        ≡ total column k s.reservations + share column k (reservation_of r estimate)
  unfolding after
  added column k = total-put_new column k s.reservations r.reservation_id _ free

  added_same :
      (column : Reservation → ℤ)
      → total column r.run_id after
        ≡ total column r.run_id s.reservations + pos_part (column (reservation_of r estimate))
  added_same column = ground (arith, added column r.run_id, eq_refl r.run_id)

  added_other :
      (column : Reservation → ℤ) (k : String)
      → str_eq r.run_id k ≡ false
      → total column k after ≡ total column k s.reservations
  added_other column k other = ground (arith, added column k)

  charged-IsBalanced : IsBalanced after r.run_id (charged r (run_of s r) next.cost)
  charged-IsBalanced =
      let b = run_of-IsBalanced s r v in
      record {
        calls = ground (arith, added_same one, pos-+ℤ-pos (total one r.run_id s.reservations) 1);
        input = grown _ _ _ _ _ p.input b.input (added_same input_column);
        output = grown _ _ _ _ _ p.output b.output (added_same output_column);
        tools = grown _ _ _ _ _ p.tools b.tools (added_same tools_column);
        cost = ground (arith, added_same cost_column);
        calls_fit = ground (arith, added_same one);
        tokens_fit = ground (arith, added_same input_column, added_same output_column);
        tools_fit = ground (arith, added_same tools_column);
      }

  kept-IsBalanced :
      (k : String) (row : PolicyRun)
      → str_eq r.run_id k ≡ false
      → IsBalanced s.reservations k row
      → IsBalanced after k row
  kept-IsBalanced k row other b = record {
    calls = rw (added_other one k other) b.calls;
    input = rw (added_other input_column k other) b.input;
    output = rw (added_other output_column k other) b.output;
    tools = rw (added_other tools_column k other) b.tools;
    cost = rw (added_other cost_column k other) b.cost;
    calls_fit = rw (added_other one k other) b.calls_fit;
    tokens_fit =
        rw (added_other input_column k other, added_other output_column k other) b.tokens_fit;
    tools_fit = rw (added_other tools_column k other) b.tools_fit;
  }

  charge-rows :
      (k : String) (row : PolicyRun)
      → get (put s.runs r.run_id (charged r (run_of s r) next.cost)) k ≡ some row
      → IsBalanced after k row
  charge-rows k row e = elim (Bool-cases (str_eq r.run_id k)) [
    | inl same ↦
        subst₂ (IsBalanced after) ((eq_iff r.run_id k).0 same)
          (ground (arith, get-put s.runs r.run_id k (charged r (run_of s r) next.cost)))
          charged-IsBalanced
    | inr other ↦ kept-IsBalanced k row other (
        v.rows k row (ground (arith, get-put s.runs r.run_id k (charged r (run_of s r) next.cost))))
  ]

  reservation_of-IsNonneg : IsNonneg (reservation_of r estimate)
  reservation_of-IsNonneg = record {
    input = ground (arith, p.input.right_eq);
    output = ground (arith, p.output.right_eq);
    tools = ground (arith, p.tools.right_eq);
    cost = refl;
  }

  charge-IsLedger : IsLedger (charge s r (run_of s r) next.cost estimate)
  unfolding after
  charge-IsLedger = record {
    rows = charge-rows;
    absent = λ k e column. elim (Bool-cases (str_eq r.run_id k)) [
      | inl same ↦
          absurd (ground (arith, get-put s.runs r.run_id k (charged r (run_of s r) next.cost)))
      | inr other ↦
          added_other column k other
          ∙ v.absent k
              (ground (arith, get-put s.runs r.run_id k (charged r (run_of s r) next.cost))) column
    ];
    reserved = λ id x e. elim (Bool-cases (str_eq r.reservation_id id)) [
      | inl same ↦
          subst IsNonneg
            (ground (arith, get-put s.reservations r.reservation_id id (reservation_of r estimate)))
            reservation_of-IsNonneg
      | inr other ↦
          v.reserved id x
            (ground (arith, get-put s.reservations r.reservation_id id (reservation_of r estimate)))
    ];
  }

-- Every call of `ReservePolicy` that returns no error keeps the ledger balanced: each run's counters
-- are the sums over its reservations, and none has overflowed.
pub reserve-IsLedger :
    (s : Counters) (r : PolicyReserve) (now : ℕ) (res : PolicyReserveResult) (s' : Counters)
    → IsLedger s
    → reserve_policy s r now ≡ ok (res, s')
    → IsLedger s'
reserve-IsLedger s r now res s' v h = elim (reserve-Outcome s r now res s' h) [
  | refusal next estimate p hit reason same ↦ rw same v
  | grant next estimate p u free e e' ↦ rw e' (charge-IsLedger s r next estimate v p free)
]

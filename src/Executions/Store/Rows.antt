-- ===== src/Executions/Store/Rows.antt =====
-- What holds of every row of the `executions` table.
use virgil.Base.{
  ℕ, String, ◌≡◌, sym, Bool, true, false, not, Option, none, some, List, [], ◌∷◌, arith, is_some,
  inl, inr, Option-cases,
}
use mathlib.Core.Path.{subst}
use virgil.Base.Dict.{get}
use virgil.Base.Int.{ℤ, is_negative}
use virgil.Executions.{State, TerminationStatus, valid_execution_state}
use virgil.Executions.Store.{Row, Table, is_active, is_blocked, new_row}
use virgil.Executions.Store.Changes.{
  Call, step, run, Change, same, marked, blocked_by, settled, unterminated, failed_early, ended,
  recovered, step-Evolves,
}

abbrev pub is_termination_failed : State → Bool
is_termination_failed State.termination_failed = true
is_termination_failed _ = false

abbrev pub status_failed : Option TerminationStatus → Bool
status_failed (some TerminationStatus.failed) = true
status_failed _ = false

abbrev pub nonneg : Option ℤ → Bool
nonneg none = true
nonneg (some a) = not (is_negative a)

-- The state is one of the nine; an end time stands exactly in rows that are settled; a failed
-- termination and its code stand exactly with the state for it; a blocked row names its policy.
pub record IsValid (row : Row) : Type 0 where
  pub known : valid_execution_state row.state ≡ true
  pub open_active :
      is_active row.state ≡ true → (row.ended_at ≡ none) × (row.termination_status ≡ none)
  pub closed :
      is_active row.state ≡ false → is_blocked row.state ≡ false → is_some row.ended_at ≡ true
  pub blocked_end :
      is_blocked row.state ≡ true → is_some row.ended_at ≡ is_some row.termination_status
  pub failed_iff : status_failed row.termination_status ≡ is_termination_failed row.state
  pub coded : is_some row.termination_error_code ≡ is_termination_failed row.state
  pub names_policy : is_blocked row.state ≡ true → is_some row.policy ≡ true
  pub attempt_nonneg : nonneg row.policy_attempt ≡ true
  pub threshold_nonneg : nonneg row.policy_threshold ≡ true

new_row-IsValid : (t : ℕ) → IsValid (new_row t)
new_row-IsValid t = ground arith

Change-IsValid : {row row' : Row} → IsValid row → Change row row' → IsValid row'
Change-IsValid v (same e) = ground arith
Change-IsValid v (marked g e) = ground arith
Change-IsValid v (blocked_by n a b g e) = ground arith
Change-IsValid v (settled r t g g' e) = ground arith
Change-IsValid v (unterminated r t g g' c e) = ground arith
Change-IsValid v (failed_early r t f p g e) = ground arith
Change-IsValid v (ended r t f p g e) = ground arith
Change-IsValid v (recovered t g e) = ground arith

pub record AllValid (rows : Table) : Type 0 where
  pub at : (k : String) (row : Row) → get rows k ≡ some row → IsValid row

subst-IsValid : {row row' : Row} → row' ≡ row → IsValid row → IsValid row'
subst-IsValid e v = subst IsValid (sym e) v

step-AllValid : (rows : Table) (c : Call) → AllValid rows → AllValid (step rows c)
step-AllValid rows c v = record {
  at = λ k row' e'. elim (Option-cases (get rows k)) [
    | inl free ↦
        let (t, e) = (step-Evolves rows c).new k row' free e' in subst-IsValid e (new_row-IsValid t)
    | inr (row, e) ↦
        let (row₂, e₂, ch) = (step-Evolves rows c).old k row e in
        subst-IsValid (cc) (Change-IsValid (v.at k row e) ch)
  ];
}

-- Every call keeps every row valid, so the table is valid after any history from a valid table.
pub run-AllValid : (rows : Table) (cs : List Call) → AllValid rows → AllValid (run rows cs)
unfolding run
run-AllValid rows [] v = v
run-AllValid rows (c ∷ cs) v = run-AllValid (step rows c) cs (step-AllValid rows c v)

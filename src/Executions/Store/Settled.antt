-- ===== src/Executions/Store/Settled.antt =====
-- What is decided about a run stays decided: settled rows and recorded policy blocks.
use virgil.Base.{
  ℕ, String, ◌≡◌, refl, Bool, true, false, ◌||◌, ◌&&◌, not, Option, none, some, List, [], ◌∷◌,
  arith, is_some, is_empty, ok, err, eq_refl,
}
use virgil.Base.Dict.{get, put, get-put}
use virgil.Base.Int.{ℤ}
use virgil.Executions.{State, TerminationStatus, ExecutionResult, invalid_transition}
use virgil.Executions.Store.{
  Row, Table, is_active, is_blocked, finish_execution, settled_row, update_where,
}
use virgil.Executions.Store.Changes.{
  Call, step, run, Change, same, marked, blocked_by, settled, unterminated, failed_early, ended,
  recovered, step-Evolves,
}

-- A run has ended, or was blocked and its process tree has been reported stopped.
abbrev pub is_settled : Row → Bool
is_settled row =
    not (is_active row.state) && (not (is_blocked row.state) || is_some row.termination_status)

Change-settled : {row row' : Row} → is_settled row ≡ true → Change row row' → row' ≡ row
Change-settled h (same e) = e
Change-settled h (marked g e) = absurd (ground arith)
Change-settled h (blocked_by n _ _ g e) = absurd (ground arith)
Change-settled h (settled r t g g' e) = absurd (ground arith)
Change-settled h (unterminated r t g g' _ e) = absurd (ground arith)
Change-settled h (failed_early r t _ _ g e) = absurd (ground arith)
Change-settled h (ended r t _ _ g e) = absurd (ground arith)
Change-settled h (recovered t g e) = absurd (ground arith)

-- A settled row is never changed again, whatever calls follow.
pub run-settled :
    (rows : Table) (cs : List Call) (k : String) (row : Row)
    → get rows k ≡ some row
    → is_settled row ≡ true
    → get (run rows cs) k ≡ some row
unfolding run
run-settled rows [] k row e h = e
run-settled rows (c ∷ cs) k row e h =
    let (row', e', ch) = (step-Evolves rows c).old k row e in
    run-settled (step rows c) cs k row (cc (Change-settled h ch)) h

-- The columns that a policy block writes.
abbrev pub Recorded : Type 0
Recorded = Option String × Option String × Option ℤ × Option ℤ × Option String

abbrev pub recorded_policy : Row → Recorded
recorded_policy row = (
  row.policy, row.policy_reason, row.policy_attempt, row.policy_threshold,
  row.blocked_call_estimate_usd,
)

-- A run that policy has stopped: blocked, or not terminated after that.
abbrev pub is_stopped : State → Bool
is_stopped State.blocked = true
is_stopped State.termination_failed = true
is_stopped _ = false

pub record Keeps (row row' : Row) : Type 0 where
  pub stopped : is_stopped row'.state ≡ true
  pub record_kept : recorded_policy row' ≡ recorded_policy row

Change-Keeps : {row row' : Row} → is_stopped row.state ≡ true → Change row row' → Keeps row row'
Change-Keeps h (same e) = ground arith
Change-Keeps h (marked g e) = absurd (ground arith)
Change-Keeps h (blocked_by n _ _ g e) = absurd (ground arith)
Change-Keeps h (settled r t g g' e) = ground arith
Change-Keeps h (unterminated r t g g' _ e) = ground arith
Change-Keeps h (failed_early r t _ _ g e) = absurd (ground arith)
Change-Keeps h (ended r t _ _ g e) = absurd (ground arith)
Change-Keeps h (recovered t g e) = absurd (ground arith)

-- The first policy decision that stops a run is never overwritten, and the run never leaves the two
-- stopped states, whatever calls follow.
pub run-Keeps :
    (rows : Table) (cs : List Call) (k : String) (row : Row)
    → get rows k ≡ some row
    → is_stopped row.state ≡ true
    → (row' : Row) × (get (run rows cs) k ≡ some row') × Keeps row row'
unfolding run
run-Keeps rows [] k row e h = (row, e, record { stopped = h; record_kept = refl })
run-Keeps rows (c ∷ cs) k row e h =
    let (row', e', ch) = (step-Evolves rows c).old k row e in
    let now = Change-Keeps h ch in
    let (row₂, e₂, later) = run-Keeps (step rows c) cs k row' e' now.stopped in
    (row₂, e₂, record { stopped = later.stopped; record_kept = cc })

-- A report for a blocked run: the process tree was stopped, and no error code.
pub record IsFollowUp (r : ExecutionResult) (t : ℕ) : Type 0 where
  pub names_run : is_empty r.run_id ≡ false
  pub is_blocked_state : r.state ≡ State.blocked
  pub at : r.ended_at ≡ some t
  pub succeeded : r.termination_status ≡ TerminationStatus.succeeded
  pub no_code : is_empty r.termination_error_code ≡ true

follow_up :
    (rows : Table) (r : ExecutionResult) (t : ℕ)
    → IsFollowUp r t
    → finish_execution rows r
      ≡ update_where
          (λ row. is_blocked row.state && not (is_some row.termination_status))
          (settled_row r t)
          rows
          r.run_id
unfolding finish_execution
follow_up rows r t f = ground arith

-- A blocked run accepts exactly one report that its process tree was stopped: the first is stored
-- with its time and exit code, and any later one is an invalid transition.
follow_up_once :
    (rows : Table) (r later : ExecutionResult) (t t' : ℕ) (row : Row)
    → IsFollowUp r t
    → IsFollowUp later t'
    → later.run_id ≡ r.run_id
    → get rows r.run_id ≡ some row
    → row.state ≡ State.blocked
    → row.termination_status ≡ none
    → (rows' : Table) × (finish_execution rows r ≡ ok rows')
      × (get rows' r.run_id ≡ some (settled_row r t row))
      × (finish_execution rows' later ≡ err invalid_transition)
unfolding update_where
follow_up_once rows r later t t' row f f' same_run e b unreported = (
  put rows r.run_id (settled_row r t row),
  ground (arith, follow_up rows r t f),
  ground (arith, get-put rows r.run_id r.run_id (settled_row r t row), eq_refl r.run_id),
  ground (
    arith,
    follow_up (put rows r.run_id (settled_row r t row)) later t' f',
    get-put rows r.run_id later.run_id (settled_row r t row),
    eq_refl r.run_id,
  ),
)

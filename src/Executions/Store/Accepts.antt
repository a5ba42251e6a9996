-- ===== src/Executions/Store/Accepts.antt =====
-- Which reports the table takes.
use virgil.Base.{ℕ, is_empty, ◌≡◌, Bool, true, false, ◌||◌, none, some, ok, arith}
use virgil.Base.Dict.{get, put}
use virgil.Executions.{State, TerminationStatus, ExecutionResult, valid_termination_status}
use virgil.Executions.Store.{
  Row, Table, is_active, is_running, is_blocked, is_failed, finish_execution, finish_at,
  finish_state, finish_plain, update_where, update_row, normalized_termination_code, finished_row,
  settled_row, unterminated_row,
}
use virgil.Executions.Store.Ended.{is_plain_end}

-- The plain ends that a run reaches from `running` only.
abbrev pub needs_running : State → Bool
needs_running State.failed = false
needs_running _ = true

pub plain_taken :
    (state : State) (rows : Table) (r : ExecutionResult) (t : ℕ) (row : Row)
    → get rows r.run_id ≡ some row
    → is_empty r.run_id ≡ false
    → r.ended_at ≡ some t
    → r.state ≡ state
    → is_plain_end state ≡ true
    → is_failed r.termination_status ≡ false
    → valid_termination_status r.termination_status ≡ true
    → is_empty r.termination_error_code ≡ true
    → is_active row.state ≡ true
    → (needs_running state ≡ true → is_running row.state ≡ true)
    → finish_execution rows r ≡ ok (put rows r.run_id (finished_row r t row))
unfolding finish_execution finish_at finish_state finish_plain update_where update_row
plain_taken State.completed rows r t row g n e s p f v c a k = ground (arith, k (cc))
plain_taken State.deadline rows r t row g n e s p f v c a k = ground (arith, k (cc))
plain_taken State.interrupted rows r t row g n e s p f v c a k = ground (arith, k (cc))
plain_taken State.gateway_failed rows r t row g n e s p f v c a k = ground (arith, k (cc))
plain_taken State.failed rows r t row g n e s p f v c a k = ground arith
plain_taken _ rows r t row g n e s p f v c a k = absurd (cc)

pub settled_taken :
    (rows : Table) (r : ExecutionResult) (t : ℕ) (row : Row)
    → get rows r.run_id ≡ some row
    → is_empty r.run_id ≡ false
    → r.ended_at ≡ some t
    → r.state ≡ State.blocked
    → r.termination_status ≡ TerminationStatus.succeeded
    → is_empty r.termination_error_code ≡ true
    → is_blocked row.state ≡ true
    → row.termination_status ≡ none
    → finish_execution rows r ≡ ok (put rows r.run_id (settled_row r t row))
unfolding finish_execution finish_at finish_state update_where update_row
settled_taken rows r t row g n e s f c b u = ground arith

pub unterminated_taken :
    (rows : Table) (r : ExecutionResult) (t : ℕ) (row : Row)
    → get rows r.run_id ≡ some row
    → is_empty r.run_id ≡ false
    → r.ended_at ≡ some t
    → r.state ≡ State.termination_failed
    → r.termination_status ≡ TerminationStatus.failed
    → normalized_termination_code r.termination_error_code ≡ true
    → (is_active row.state || is_blocked row.state) ≡ true
    → row.termination_status ≡ none
    → finish_execution rows r ≡ ok (put rows r.run_id (unterminated_row r t row))
unfolding finish_execution finish_at finish_state update_where update_row
unterminated_taken rows r t row g n e s f c b u = ground arith

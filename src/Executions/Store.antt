-- ===== src/Executions/Store.antt =====
-- internal/storage/executions.go: the `executions` table. A row is a record whose nullable columns
-- are options, the table a dictionary from run IDs to rows. An operation returns the new table, or
-- the error and no table where the statement changed no row.
pub mod Changes
pub mod Lifecycle
pub mod Settled
pub mod Ended
pub mod Accepts
pub mod Rows
use Prim.Native.Nat.{ℕ}
use virgil.Base.{
  zero, suc, ◌==◌, leb, ltb, String, is_empty, str_eq, if◌then◌else◌, ◌≡◌, refl, Bool, true, false,
  ◌&&◌, ◌||◌, not, Option, none, some, List, [], ◌∷◌, Result, ok, err, is_some, all_of, length,
}
use virgil.Base.Dict.{Dict, get, put, map_values}
use virgil.Base.Int.{ℤ, is_negative}
use virgil.Base.Text.{codes, is_lower, is_code_char}
use virgil.Executions.{
  Time, State, TerminationStatus, ExecutionResult, Execution, PolicyBlockNotice, Error,
  invalid_input, invalid_transition, policy_block_recorded, failure, run_exists, run_not_found,
  is_zero, valid_termination_status,
}

pub record Row : Type 0 where
  pub state : State
  pub started_at : ℕ
  pub ended_at : Option ℕ
  pub exit_code : Option ℤ
  pub stop_reason : Option String
  pub policy : Option String
  pub policy_reason : Option String
  pub policy_attempt : Option ℤ
  pub policy_threshold : Option ℤ
  pub blocked_call_estimate_usd : Option String
  pub termination_status : Option TerminationStatus
  pub termination_error_code : Option String

abbrev pub Table : Type 0
Table = Dict Row

-- `NULLIF(?, '')`.
abbrev pub nullif : String → Option String
nullif s = if is_empty s then none else some s

abbrev pub nullif_status : TerminationStatus → Option TerminationStatus
nullif_status TerminationStatus.absent = none
nullif_status s = some s

abbrev pub new_row : ℕ → Row
new_row t = record {
  state = State.starting;
  started_at = t;
  ended_at = none;
  exit_code = none;
  stop_reason = none;
  policy = none;
  policy_reason = none;
  policy_attempt = none;
  policy_threshold = none;
  blocked_call_estimate_usd = none;
  termination_status = none;
  termination_error_code = none;
}

-- `INSERT … ON CONFLICT(run_id) DO NOTHING`; no row inserted is `ErrRunExists`.
start_at : Table → String → Time → Result Error Table
start_at rows run_id none = err invalid_input
start_at rows run_id (some t) =
    if is_some (get rows run_id) then err run_exists else ok (put rows run_id (new_row t))

unfoldable pub start_execution : Table → String → Time → Result Error Table
unfolding start_at
start_execution rows run_id started_at =
    if is_empty run_id then err invalid_input else start_at rows run_id started_at

-- `UPDATE executions SET … WHERE run_id=? AND …`, then `executionUpdateResult`: anything but one
-- updated row is `ErrInvalidTransition`.
unfoldable pub update_row :
    (Row → Bool) → (Row → Row) → Table → String → Option Row → Result Error Table
update_row test change rows run_id none = err invalid_transition
update_row test change rows run_id (some row) =
    if test row then ok (put rows run_id (change row)) else err invalid_transition

unfoldable pub update_where : (Row → Bool) → (Row → Row) → Table → String → Result Error Table
unfolding update_row
update_where test change rows run_id = update_row test change rows run_id (get rows run_id)

abbrev pub is_starting : State → Bool
is_starting State.starting = true
is_starting _ = false

abbrev pub is_running : State → Bool
is_running State.running = true
is_running _ = false

abbrev pub is_blocked : State → Bool
is_blocked State.blocked = true
is_blocked _ = false

-- `state IN ('starting', 'running')`.
abbrev pub is_active : State → Bool
is_active s = is_starting s || is_running s

unfoldable pub mark_execution_running : Table → String → Result Error Table
mark_execution_running rows run_id =
    update_where (λ row. is_starting row.state) (λ row. record row { state = State.running }) rows
      run_id

-- The `SET` list shared by `BlockExecution` and `RecordPolicyBlock`.
abbrev pub blocked_row : PolicyBlockNotice → Row → Row
blocked_row notice row = record row {
  state = State.blocked;
  policy = some notice.policy;
  policy_reason = some notice.reason;
  policy_attempt = some notice.attempt;
  policy_threshold = some notice.threshold;
  blocked_call_estimate_usd = nullif notice.blocked_call_estimate_usd;
}

abbrev pub invalid_notice : PolicyBlockNotice → Bool
invalid_notice notice =
    is_empty notice.run_id
    || is_empty notice.policy
    || is_empty notice.reason
    || is_negative notice.attempt
    || is_negative notice.threshold
    || is_zero notice.occurred_at

unfoldable pub block_execution : Table → PolicyBlockNotice → Result Error Table
block_execution rows notice =
    if invalid_notice notice
    then err invalid_input
    else update_where (λ row. is_running row.state) (blocked_row notice) rows notice.run_id

-- `CHECK (policy_attempt >= 0)` and `CHECK (policy_threshold >= 0)` of the table.
abbrev pub violates_check : PolicyBlockNotice → Bool
violates_check notice = is_negative notice.attempt || is_negative notice.threshold

-- The update of `RecordPolicyBlock` in internal/storage/sqlite.go. Where no row is updated, the run
-- is blocked already, or was not running.
unfoldable pub blocked_found : Table → PolicyBlockNotice → Option Row → Result Error Table
blocked_found rows notice none = err invalid_transition
blocked_found rows notice (some row) =
    if is_running row.state
    then if violates_check notice
      then err failure
      else ok (put rows notice.run_id (blocked_row notice row))
    else if is_blocked row.state
    then err policy_block_recorded
    else err invalid_transition

unfoldable pub record_block : Table → PolicyBlockNotice → Result Error Table
unfolding blocked_found
record_block rows notice = blocked_found rows notice (get rows notice.run_id)

-- `normalizedTerminationCode`: `[a-z][a-z0-9_]{0,63}`.
normalized : List ℕ → Bool
unfolding is_code_char
normalized [] = false
normalized (c ∷ cs) = leb (length (c ∷ cs)) 64 && is_lower c && all_of is_code_char cs

unfoldable pub normalized_termination_code : String → Bool
unfolding normalized
normalized_termination_code code = normalized (codes code)

abbrev pub is_succeeded : TerminationStatus → Bool
is_succeeded TerminationStatus.succeeded = true
is_succeeded _ = false

abbrev pub is_failed : TerminationStatus → Bool
is_failed TerminationStatus.failed = true
is_failed _ = false

abbrev pub finished_row : ExecutionResult → ℕ → Row → Row
finished_row r t row = record row {
  state = r.state;
  ended_at = some t;
  exit_code = some r.exit_code;
  stop_reason = nullif r.stop_reason;
  termination_status = nullif_status r.termination_status;
  termination_error_code = nullif r.termination_error_code;
}

-- The row of a blocked run keeps its state and its empty termination code.
abbrev pub settled_row : ExecutionResult → ℕ → Row → Row
settled_row r t row = record row {
  ended_at = some t;
  exit_code = some r.exit_code;
  stop_reason = nullif r.stop_reason;
  termination_status = some TerminationStatus.succeeded;
}

abbrev pub unterminated_row : ExecutionResult → ℕ → Row → Row
unterminated_row r t row = record row {
  state = State.termination_failed;
  ended_at = some t;
  exit_code = some r.exit_code;
  stop_reason = nullif r.stop_reason;
  termination_status = some TerminationStatus.failed;
  termination_error_code = some r.termination_error_code;
}

abbrev pub invalid_plain : ExecutionResult → Bool
invalid_plain r = is_failed r.termination_status || not (is_empty r.termination_error_code)

abbrev pub invalid_settled : ExecutionResult → Bool
invalid_settled r =
    not (is_succeeded r.termination_status) || not (is_empty r.termination_error_code)

abbrev pub invalid_unterminated : ExecutionResult → Bool
invalid_unterminated r =
    not (is_failed r.termination_status)
    || not (normalized_termination_code r.termination_error_code)

finish_plain : (State → Bool) → Table → ExecutionResult → ℕ → Result Error Table
finish_plain from rows r t =
    if invalid_plain r
    then err invalid_input
    else update_where (λ row. from row.state) (finished_row r t) rows r.run_id

-- The `switch` on the reported state.
finish_state : State → Table → ExecutionResult → ℕ → Result Error Table
unfolding finish_plain
finish_state State.blocked rows r t =
    if invalid_settled r
    then err invalid_input
    else update_where (λ row. is_blocked row.state && not (is_some row.termination_status))
        (settled_row r t) rows r.run_id
finish_state State.termination_failed rows r t =
    if invalid_unterminated r
    then err invalid_input
    else update_where
        (λ row.
          (is_active row.state || is_blocked row.state) && not (is_some row.termination_status))
        (unterminated_row r t) rows r.run_id
finish_state State.failed rows r t = finish_plain is_active rows r t
finish_state State.completed rows r t = finish_plain is_running rows r t
finish_state State.deadline rows r t = finish_plain is_running rows r t
finish_state State.interrupted rows r t = finish_plain is_running rows r t
finish_state State.gateway_failed rows r t = finish_plain is_running rows r t
finish_state _ rows r t = err invalid_transition

abbrev pub invalid_result : ExecutionResult → Bool
invalid_result r = is_empty r.run_id || not (valid_termination_status r.termination_status)

finish_at : Table → ExecutionResult → Time → Result Error Table
unfolding finish_state
finish_at rows r none = err invalid_input
finish_at rows r (some t) =
    if invalid_result r then err invalid_input else finish_state r.state rows r t

unfoldable pub finish_execution : Table → ExecutionResult → Result Error Table
unfolding finish_at
finish_execution rows r = finish_at rows r r.ended_at

-- The row of a run that a previous core process left active.
abbrev pub recovered_row : ℕ → Row → Row
recovered_row t row =
    if is_active row.state
    then record row {
      state = State.interrupted;
      ended_at = some t;
      stop_reason = some "virgil_restart";
    }
    else row

unfoldable pub recover_executions : Table → Time → Result Error Table
recover_executions rows none = err invalid_input
recover_executions rows (some t) = ok (map_values (recovered_row t) rows)

abbrev pub text_or_empty : Option String → String
text_or_empty none = ""
text_or_empty (some s) = s

abbrev pub status_or_absent : Option TerminationStatus → TerminationStatus
status_or_absent none = TerminationStatus.absent
status_or_absent (some s) = s

unfoldable pub scan_execution : String → Row → Execution
scan_execution run_id row = record {
  run_id = run_id;
  state = row.state;
  started_at = row.started_at;
  ended_at = row.ended_at;
  exit_code = row.exit_code;
  stop_reason = text_or_empty row.stop_reason;
  policy = text_or_empty row.policy;
  policy_reason = text_or_empty row.policy_reason;
  policy_attempt = row.policy_attempt;
  policy_threshold = row.policy_threshold;
  blocked_call_estimate_usd = text_or_empty row.blocked_call_estimate_usd;
  termination_status = status_or_absent row.termination_status;
  termination_error_code = text_or_empty row.termination_error_code;
}

-- `Execution`: a missing row is `ErrRunNotFound`.
unfoldable pub execution : Table → String → Result Error Execution
execution rows run_id = elim (get rows run_id) [
  | none ↦ err run_not_found
  | some row ↦ ok (scan_execution run_id row)
]

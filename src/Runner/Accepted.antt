-- ===== src/Runner/Accepted.antt =====
-- The report of a supervision meets the finish handler and the table.
use virgil.Base.{
  String, is_empty, ◌≡◌, refl, sym, ap, ◌∙◌, Bool, true, false, ◌&&◌, ◌||◌, not, none, some, List,
  ok, err, arith, any_of, Bool-cases, inl, inr, ◌⊎◌,
}
use mathlib.Core.Path.{subst}
use virgil.Base.Dict.{get, put}
use virgil.Executions.{
  State, TerminationStatus, ExecutionResult, runner_terminal_state, valid_termination_status,
}
use virgil.Executions.Store.{
  Row, Table, is_active, is_running, is_blocked, is_failed, finish_execution,
  normalized_termination_code, finished_row, settled_row, unterminated_row,
}
use virgil.Executions.Store.Ended.{is_plain_end}
use virgil.Executions.Store.Accepts.{needs_running, plain_taken, settled_taken, unterminated_taken}
use virgil.Executions.Control.{
  FinishRequest, Environment, refused, first_result, blocked_finish_result, result_of,
}
use virgil.Runner.{
  ProcessResult, Event, Supervision, new_supervision, supervise, report, retried, plain_report,
}
use virgil.Runner.Loop.{supervise-Outcome, is_granted}

-- The finish handler lets the request through, and the table takes the result.
pub record IsAccepted (env : Environment) (rows : Table) (run_id : String) (row : Row)
    (input : FinishRequest) : Type 0 where
  pub terminal : runner_terminal_state input.state ≡ true
  pub valid : valid_termination_status input.termination_status ≡ true
  pub result : ExecutionResult
  pub passed : first_result row.state input (result_of env run_id input) ≡ ok result
  pub rows_after : Table
  pub taken : finish_execution rows result ≡ ok rows_after

-- A report of a plain end, of a run that is running, or of a failure.
plain_end :
    (env : Environment) (rows : Table) (run_id : String) (row : Row) (state : State)
    (input : FinishRequest)
    → get rows run_id ≡ some row
    → is_empty run_id ≡ false
    → input.state ≡ state
    → is_plain_end state ≡ true
    → is_active row.state ≡ true
    → (needs_running state ≡ true → is_running row.state ≡ true)
    → is_failed input.termination_status ≡ false
    → valid_termination_status input.termination_status ≡ true
    → is_empty input.termination_code ≡ true
    → IsAccepted env rows run_id row input
unfolding first_result
plain_end env rows run_id row state input at n e end active first f v c = record {
  terminal = ground arith;
  valid = v;
  result = result_of env run_id input;
  passed = ground arith;
  rows_after = put rows run_id (finished_row (result_of env run_id input) env.now row);
  taken =
      plain_taken state rows (result_of env run_id input) env.now row at n refl e end f v c active
        first;
}

-- A report that the child of a blocked run has been stopped.
settled_end :
    (env : Environment) (rows : Table) (run_id : String) (row : Row) (input : FinishRequest)
    → get rows run_id ≡ some row
    → is_empty run_id ≡ false
    → is_plain_end input.state ≡ true
    → is_blocked row.state ≡ true
    → row.termination_status ≡ none
    → input.termination_status ≡ TerminationStatus.succeeded
    → is_empty input.termination_code ≡ true
    → IsAccepted env rows run_id row input
unfolding first_result blocked_finish_result
settled_end env rows run_id row input at n end blocked unreported s c =
    let r = record (result_of env run_id input) { state = State.blocked } in
    record {
      terminal = ground arith;
      valid = ground arith;
      result = r;
      passed = ground arith;
      rows_after = put rows run_id (settled_row r env.now row);
      taken = settled_taken rows r env.now row at n refl refl s c blocked unreported;
    }

-- A report that the child could not be stopped.
unterminated_end :
    (env : Environment) (rows : Table) (run_id : String) (row : Row) (input : FinishRequest)
    → get rows run_id ≡ some row
    → is_empty run_id ≡ false
    → input.state ≡ State.termination_failed
    → (is_active row.state || is_blocked row.state) ≡ true
    → row.termination_status ≡ none
    → input.termination_status ≡ TerminationStatus.failed
    → is_empty input.termination_code ≡ false
    → normalized_termination_code input.termination_code ≡ true
    → IsAccepted env rows run_id row input
unfolding first_result blocked_finish_result
unterminated_end env rows run_id row input at n e live unreported s ne c =
    let r = record (result_of env run_id input) { state = State.termination_failed } in
    record {
      terminal = ground arith;
      valid = ground arith;
      result = r;
      passed = ground arith;
      rows_after = put rows run_id (unterminated_row r env.now row);
      taken = unterminated_taken rows r env.now row at n refl refl s c live unreported;
    }

-- The run of a supervision as the table has it when the report arrives: nothing is reported yet.
pub record IsOpen (rows : Table) (run_id : String) (row : Row) : Type 0 where
  pub stored : get rows run_id ≡ some row
  pub named : is_empty run_id ≡ false
  pub unreported : row.termination_status ≡ none

report-plain :
    (s : Supervision) (state : State) (terminated : Bool) (waited : ProcessResult)
    → (not (is_empty s.stop_reason) && not s.process_already_done && not terminated) ≡ false
    → let input = report s state terminated waited in
      (input.state ≡ state)
      × (is_failed input.termination_status ≡ false)
      × (valid_termination_status input.termination_status ≡ true)
      × (input.termination_code ≡ "")
unfolding report
report-plain s state terminated waited h = (ground arith, ground arith, ground arith, ground arith)

unterminated_code : normalized_termination_code "process_termination_failed" ≡ true
unfolding normalized_termination_code
unterminated_code = refl

report-unterminated :
    (s : Supervision) (state : State) (terminated : Bool) (waited : ProcessResult)
    → (not (is_empty s.stop_reason) && not s.process_already_done && not terminated) ≡ true
    → let input = report s state terminated waited in
      (input.state ≡ State.termination_failed)
      × (input.termination_status ≡ TerminationStatus.failed)
      × (input.termination_code ≡ "process_termination_failed")
unfolding report
report-unterminated s state terminated waited h = (ground arith, ground arith, ground arith)

-- The report that ends a supervision is one that the finish handler lets through and the table
-- takes, for a run that no policy block has reached: its row is active, and running if the running
-- transition was granted. This holds for every order of events and however the child is stopped.
pub supervise-IsAccepted :
    (env : Environment) (rows : Table) (run_id : String) (row : Row) (es : List Event)
    (state : State) (terminated : Bool) (waited : ProcessResult)
    → IsOpen rows run_id row
    → (supervise es new_supervision).state ≡ some state
    → is_active row.state ≡ true
    → (any_of is_granted es ≡ true → is_running row.state ≡ true)
    → IsAccepted env rows run_id row (report (supervise es new_supervision) state terminated waited)
supervise-IsAccepted env rows run_id row es state terminated waited o h active running =
    let s = supervise es new_supervision in
    let k = supervise-Outcome es state h in
    let input = report s state terminated waited in
    elim (Bool-cases
      (not (is_empty s.stop_reason) && not s.process_already_done && not terminated)) [
        | inl y ↦
            let (e, f, c) = report-unterminated s state terminated waited y in
            unterminated_end env rows run_id row input o.stored o.named e (ground arith)
              o.unreported f (ap (λ x. is_empty x) c)
              (ap normalized_termination_code c ∙ unterminated_code)
        | inr n ↦
            let (e, f, v, c) = report-plain s state terminated waited n in
            plain_end env rows run_id row state input o.stored o.named e k.ends active
              (λ j. running (k.granted_first j)) f v (ap (λ x. is_empty x) c)
      ]

report-told :
    (s : Supervision) (state : State) (terminated : Bool) (waited : ProcessResult)
    → (not (is_empty s.stop_reason) && not s.process_already_done && not terminated) ≡ false
    → is_empty s.stop_reason ≡ false
    → (report s state terminated waited).termination_status ≡ TerminationStatus.succeeded
unfolding report
report-told s state terminated waited h told = ground arith

report-silent :
    (s : Supervision) (state : State) (terminated : Bool) (waited : ProcessResult)
    → is_empty s.stop_reason ≡ true
    → report s state terminated waited ≡ plain_report s state
unfolding report
report-silent s state terminated waited h = ground arith

-- What the second report says.
abbrev second : Supervision → State → FinishRequest
second s state = record (plain_report s state) {
  termination_status = TerminationStatus.succeeded;
  stop_reason = "policy_block";
}

plain_refused :
    (before : State) (s : Supervision) (state : State) (result : ExecutionResult)
    → is_blocked before ≡ true
    → first_result before (plain_report s state) result
      ≡ err (refused 400 "invalid termination result")
unfolding first_result blocked_finish_result
plain_refused before s state result h = ground arith

plain_retried :
    (s : Supervision) (state : State)
    → s.process_already_done ≡ true
    → retried s (plain_report s state) ≡ some (second s state)
unfolding retried
plain_retried s state h = ground arith

-- The two reports of a run that is blocked.
pub record Answers (env : Environment) (rows : Table) (run_id : String) (row : Row)
    (s : Supervision) (input : FinishRequest) : Type 0 where
  pub again : FinishRequest
  pub message : String
  pub first_refused :
      first_result row.state input (result_of env run_id input) ≡ err (refused 400 message)
  pub retry : retried s input ≡ some again
  pub accepted : IsAccepted env rows run_id row again

abbrev pub Settles : Environment → Table → String → Row → Supervision → FinishRequest → Type 0
Settles env rows run_id row s input =
    IsAccepted env rows run_id row input ⊎ Answers env rows run_id row s input

blocked_end :
    (env : Environment) (rows : Table) (run_id : String) (row : Row) (s : Supervision)
    (state : State) (terminated : Bool) (waited : ProcessResult)
    → IsOpen rows run_id row
    → is_plain_end state ≡ true
    → (is_empty s.stop_reason ≡ true → s.process_already_done ≡ true)
    → is_blocked row.state ≡ true
    → Settles env rows run_id row s (report s state terminated waited)
blocked_end env rows run_id row s state terminated waited o ends exited blocked =
    let input = report s state terminated waited in
    elim (Bool-cases
      (not (is_empty s.stop_reason) && not s.process_already_done && not terminated)) [
        | inl y ↦
            let (e, f, c) = report-unterminated s state terminated waited y in
            inl (
              unterminated_end env rows run_id row input o.stored o.named e (ground arith)
                o.unreported f (ap (λ x. is_empty x) c)
                (ap normalized_termination_code c ∙ unterminated_code))
        | inr n ↦ elim (Bool-cases (is_empty s.stop_reason)) [
          | inl silent ↦
              subst (Settles env rows run_id row s)
                (sym (report-silent s state terminated waited silent))
                (inr (record {
                  again = second s state;
                  message = "invalid termination result";
                  first_refused =
                      plain_refused row.state s state (result_of env run_id (plain_report s state))
                        blocked;
                  retry = plain_retried s state (exited silent);
                  accepted =
                      settled_end env rows run_id row (second s state) o.stored o.named ends blocked
                        o.unreported refl refl;
                }))
          | inr told ↦
              let (e, f, v, c) = report-plain s state terminated waited n in
              inl (
                settled_end env rows run_id row input o.stored o.named (ap is_plain_end e ∙ ends)
                  blocked o.unreported (report-told s state terminated waited n told)
                  (ap (λ x. is_empty x) c))
        ]
      ]

-- A run that a policy block has reached before the report: the handler lets the report through and
-- the table takes it, or the handler refuses it with the status 400 and the second report, with the
-- reason `policy_block`, passes both. So the end of the child is stored either way.
pub supervise-Settles :
    (env : Environment) (rows : Table) (run_id : String) (row : Row) (es : List Event)
    (state : State) (terminated : Bool) (waited : ProcessResult)
    → IsOpen rows run_id row
    → (supervise es new_supervision).state ≡ some state
    → is_blocked row.state ≡ true
    → Settles env rows run_id row
        (supervise es new_supervision)
        (report (supervise es new_supervision) state terminated waited)
supervise-Settles env rows run_id row es state terminated waited o h blocked =
    let k = supervise-Outcome es state h in
    blocked_end env rows run_id row (supervise es new_supervision) state terminated waited o k.ends
      k.exited_first blocked

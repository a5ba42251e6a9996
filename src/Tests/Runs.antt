-- ===== src/Tests/Runs.antt =====
-- The table of supervised runs on concrete data: internal/storage/executions.go.
use virgil.Base.{false, some, List, [], ◌∷◌, ◌≡◌, refl}
use virgil.Base.Dict.{get}
use virgil.Base.Int.{pos}
use virgil.Executions.{State, TerminationStatus, ExecutionResult, PolicyBlockNotice}
use virgil.Executions.Store.{Row, Table, new_row}
use virgil.Executions.Store.Changes.{Call, run}
use virgil.Executions.Store.Lifecycle.{PathTo, lifecycle}
use virgil.Executions.Store.Settled.{run-settled, run-Keeps, Keeps}
use virgil.Executions.Store.Rows.{AllValid, run-AllValid}

abbrev one_run : Table
one_run = ("run", new_row 3) ∷ []

abbrev notice : PolicyBlockNotice
notice = record {
  run_id = "run";
  reason = "call_limit";
  policy = "max_requests_per_run";
  attempt = pos 2;
  threshold = pos 1;
  blocked_call_estimate_usd = "";
  occurred_at = some 8;
  persistence_failed = false;
}

abbrev stop : ExecutionResult
stop = record {
  run_id = "run";
  state = State.blocked;
  ended_at = some 9;
  exit_code = pos 1;
  stop_reason = "policy";
  termination_status = TerminationStatus.succeeded;
  termination_error_code = "";
}

abbrev history : List Call
history = Call.marks "run" ∷ Call.blocks notice ∷ Call.finishes stop ∷ Call.recovers (some 10) ∷ []

found_run : get one_run "run" ≡ some (new_row 3)
unfolding get
found_run = refl

lifecycle_example :
    (row' : Row) × (get (run one_run history) "run" ≡ some row') × PathTo State.starting row'.state
lifecycle_example = lifecycle one_run history "run" (new_row 3) found_run

abbrev ended : Row
ended = record (new_row 3) { state = State.completed; ended_at = some 5; exit_code = some (pos 0) }

abbrev ended_run : Table
ended_run = ("run", ended) ∷ []

found_ended : get ended_run "run" ≡ some ended
unfolding get
found_ended = refl

run-settled_example : get (run ended_run history) "run" ≡ some ended
run-settled_example = run-settled ended_run history "run" ended found_ended refl

abbrev stopped : Row
stopped = record (new_row 3) {
  state = State.blocked;
  policy = some "max_requests_per_run";
  policy_reason = some "call_limit";
}

abbrev stopped_run : Table
stopped_run = ("run", stopped) ∷ []

found_stopped : get stopped_run "run" ≡ some stopped
unfolding get
found_stopped = refl

run-Keeps_example :
    (row' : Row) × (get (run stopped_run history) "run" ≡ some row') × Keeps stopped row'
run-Keeps_example = run-Keeps stopped_run history "run" stopped found_stopped refl

nothing-AllValid : AllValid []
unfolding get
nothing-AllValid = record { at = λ k row e. absurd (cc) }

run-AllValid_example : AllValid (run [] (Call.starts "run" (some 3) ∷ history))
run-AllValid_example = run-AllValid [] (Call.starts "run" (some 3) ∷ history) nothing-AllValid

-- ===== src/Executions.antt =====
-- internal/executions/types.go: the identities and the lifecycle of supervised runs.
-- A Go string type with named constants is a data type with a constructor for each constant and
-- one for every other text. A `time.Time` is its Unix nanoseconds, and `none` is the zero time.
pub mod Control
pub mod Registry
pub mod Store
use virgil.Base.{ℕ, String, Bool, true, false, Option, none, some}
use virgil.Base.Int.{ℤ}

abbrev pub Time : Type 0
Time = Option ℕ

pub data State : Type 0 where
  starting running completed failed blocked deadline interrupted gateway_failed : State
  termination_failed : State
  unknown : String → State

-- `absent` is the empty text.
pub data TerminationStatus : Type 0 where
  absent not_required succeeded failed : TerminationStatus
  unknown : String → TerminationStatus

pub record ExecutionResult : Type 0 where
  pub run_id : String
  pub state : State
  pub ended_at : Time
  pub exit_code : ℤ
  pub stop_reason : String
  pub termination_status : TerminationStatus
  pub termination_error_code : String

pub record Execution : Type 0 where
  pub run_id : String
  pub state : State
  pub started_at : ℕ
  pub ended_at : Option ℕ
  pub exit_code : Option ℤ
  pub stop_reason : String
  pub policy : String
  pub policy_reason : String
  pub policy_attempt : Option ℤ
  pub policy_threshold : Option ℤ
  pub blocked_call_estimate_usd : String
  pub termination_status : TerminationStatus
  pub termination_error_code : String

pub record PolicyBlockNotice : Type 0 where
  pub run_id : String
  pub reason : String
  pub policy : String
  pub attempt : ℤ
  pub threshold : ℤ
  pub blocked_call_estimate_usd : String
  pub occurred_at : Time
  pub persistence_failed : Bool

-- The sentinel errors; `invalid_input` and `failure` are the errors that have no sentinel.
pub data Error : Type 0 where
  invalid_run_id run_active run_exists run_not_found run_token_invalid : Error
  signal_token_invalid signal_already_claimed invalid_transition policy_block_recorded : Error
  invalid_input failure : Error

abbrev pub is_zero : Time → Bool
is_zero none = true
is_zero (some t) = false

-- `validTerminationStatus` of storage/executions.go and of executions/http.go.
abbrev pub valid_termination_status : TerminationStatus → Bool
valid_termination_status (TerminationStatus.unknown s) = false
valid_termination_status _ = true

abbrev pub valid_execution_state : State → Bool
valid_execution_state (State.unknown s) = false
valid_execution_state _ = true

-- `runnerTerminalState` of executions/http.go.
abbrev pub runner_terminal_state : State → Bool
runner_terminal_state State.completed = true
runner_terminal_state State.failed = true
runner_terminal_state State.deadline = true
runner_terminal_state State.interrupted = true
runner_terminal_state State.gateway_failed = true
runner_terminal_state State.termination_failed = true
runner_terminal_state _ = false

-- ===== src/Runner.antt =====
-- internal/runner/supervisor.go: the supervision of a child process. An event is what a channel of
-- the `select` gives; the order of events is the schedule. The children prove that the report which
-- the supervisor sends is one that the finish handler and the table accept.
pub mod Loop
pub mod Accepted
use virgil.Base.{
  String, is_empty, if◌then◌else◌, Bool, true, false, ◌&&◌, not, Option, none, some, List, [], ◌∷◌,
  is_some,
}
use virgil.Base.Int.{ℤ, negsuc, eq_ℤ}
use virgil.Executions.{State, TerminationStatus}
use virgil.Executions.Control.{FinishRequest}

-- `failed` is whether `Err` is set.
pub record ProcessResult : Type 0 where
  pub exit_code : ℤ
  pub failed : Bool

-- `marked failed done late`: the answer to the running transition, and whether the context is
-- done and the deadline has passed when it arrives.
pub data Event : Type 0 where
  exited : ProcessResult → Event
  circuit_break stream_closed stream_failed deadline cancelled : Event
  marked : Bool → Bool → Bool → Event

-- `state` is `none` while the loop runs; `has_error` is whether `supervisorErr` is set.
pub record Supervision : Type 0 where
  pub state : Option State
  pub stop_reason : String
  pub exit_code : ℤ
  pub process_result : ProcessResult
  pub process_already_done : Bool
  pub mark_pending : Bool
  pub has_error : Bool

abbrev pub no_result : ProcessResult
no_result = record { exit_code = ℤ.pos 0; failed = false }

abbrev pub new_supervision : Supervision
new_supervision = record {
  state = none;
  stop_reason = "";
  exit_code = negsuc 0;
  process_result = no_result;
  process_already_done = false;
  mark_pending = true;
  has_error = false;
}

abbrev pub control_loss_state : Bool → State
control_loss_state mark_pending = if mark_pending then State.failed else State.gateway_failed

abbrev pub exit_state : ProcessResult → State
exit_state r = if eq_ℤ r.exit_code (ℤ.pos 0) && not r.failed then State.completed else State.failed

-- The child's exit decides once the running transition is answered.
abbrev pub with_exit : ProcessResult → Supervision → Supervision
with_exit r s = record s { exit_code = r.exit_code; state = some (exit_state r) }

abbrev pub stop : State → String → Supervision → Supervision
stop state reason s = record s { state = some state; stop_reason = reason }

abbrev pub unless_pending : Bool → State → State
unless_pending mark_pending state = if mark_pending then State.failed else state

-- Cancellation and deadlines take precedence over the request error.
abbrev pub mark_failed : Bool → Bool → Supervision → Supervision
mark_failed done late s = record s {
  state = some State.failed;
  stop_reason = if late then "deadline" else if done then "interrupted" else "control_unavailable";
  has_error = not late && not done;
}

-- One round of the `select`; a channel that was set to nil gives nothing.
unfoldable pub select : Supervision → Event → Supervision
select s (exited r) =
    if s.process_already_done
    then s
    else (let s' = record s { process_result = r; process_already_done = true } in
        if s.mark_pending then s' else with_exit r s')
select s circuit_break = stop State.failed "policy_block" s
select s stream_closed = stop (control_loss_state s.mark_pending) "signal_lost" s
select s stream_failed = stop (control_loss_state s.mark_pending) "signal_lost" s
select s deadline = stop (unless_pending s.mark_pending State.deadline) "deadline" s
select s cancelled = stop (unless_pending s.mark_pending State.interrupted) "interrupted" s
select s (marked failed done late) =
    if not s.mark_pending
    then s
    else (let s' = record s { mark_pending = false } in
        if failed
        then mark_failed done late s'
        else if s.process_already_done
        then with_exit s.process_result s'
        else s')

-- `for result.State == ""`.
unfoldable pub supervise : List Event → Supervision → Supervision
unfolding select
supervise [] s = s
supervise (e ∷ es) s = if is_some s.state then s else supervise es (select s e)

-- The request before the child is stopped.
abbrev pub plain_report : Supervision → State → FinishRequest
plain_report s state = record {
  state = state;
  exit_code = s.exit_code;
  stop_reason = s.stop_reason;
  termination_status = TerminationStatus.not_required;
  termination_code = "";
}

-- The report of a run whose child had to be stopped: `terminated` is whether `Terminate` returned no
-- error, `waited` what the child's exit then gave.
unfoldable pub report : Supervision → State → Bool → ProcessResult → FinishRequest
report s state terminated waited =
    if is_empty s.stop_reason
    then plain_report s state
    else if not s.process_already_done && not terminated
    then record (plain_report s state) {
      state = State.termination_failed;
      termination_status = TerminationStatus.failed;
      termination_code = "process_termination_failed";
    }
    else record (plain_report s state) {
      termination_status = TerminationStatus.succeeded;
      exit_code = (if s.process_already_done then s.process_result else waited).exit_code;
    }

abbrev pub is_not_required : TerminationStatus → Bool
is_not_required TerminationStatus.not_required = true
is_not_required _ = false

-- The second report, after the first was answered with the status 400: the durable block can
-- precede the signal and the child's exit.
unfoldable pub retried : Supervision → FinishRequest → Option FinishRequest
retried s request =
    if is_not_required request.termination_status && s.process_already_done
    then some (record request {
      termination_status = TerminationStatus.succeeded;
      stop_reason = "policy_block";
    })
    else none

-- The report of a run whose stream did not open or whose child did not start.
abbrev pub early_report : String → FinishRequest
early_report reason = record {
  state = State.failed;
  exit_code = negsuc 0;
  stop_reason = reason;
  termination_status = TerminationStatus.not_required;
  termination_code = "";
}

-- ===== src/Tests/Supervised.antt =====
-- The supervisor and the finish handler on concrete runs: internal/runner/supervisor.go and
-- internal/executions/http.go.
use virgil.Base.{
  ℕ, true, false, Bool, Option, none, some, List, [], ◌∷◌, ◌≡◌, refl, is_some, if◌then◌else◌, ◌==◌,
}
use virgil.Base.Dict.{get, put}
use virgil.Base.Int.{pos}
use virgil.Executions.{State, TerminationStatus, PolicyBlockNotice}
use virgil.Executions.Store.{
  Row, Table, new_row, scan_execution, blocked_row, execution, finish_execution, update_where,
  block_execution,
}
use virgil.Executions.Store.Changes.{Call, run, apply}
use virgil.Base.Cells.{get_elem?, modify}
use virgil.Executions.Registry.{ActiveRun, new_channel, begin_finish, end_finish, abort_finish}
use virgil.Executions.Control.{
  execution_summary, Response, summarised, FinishRequest, Body, World, Environment, finish,
  authenticate, finish_request, registry_finish, first_finished, reread, respond,
  blocked_finish_result, first_result, known,
}
use virgil.Executions.Control.Finished.{Relies, Reported, finish-Reported}
use virgil.Runner.{ProcessResult, Event, new_supervision, supervise, report}
use virgil.Runner.Loop.{supervise-ends}
use virgil.Runner.Accepted.{IsAccepted, IsOpen, Settles, supervise-IsAccepted, supervise-Settles}

abbrev active : ActiveRun
active = record {
  run_token_hash = "token";
  signal_token_hash = "signal";
  signals = new_channel;
  notified = false;
  ready = true;
  claimed = false;
  closed = false;
  finishing = false;
}

abbrev running_row : Row
running_row = record (new_row 3) { state = State.running }

abbrev running_table : Table
running_table = ("run", running_row) ∷ []

abbrev world : World
world = record {
  registry = record { heap = active ∷ []; runs = ("run", 0) ∷ [] };
  table = running_table;
}

-- No other request.
abbrev alone : Environment
alone = record { others = λ i w. w; io = λ i. true; now = 9 }

abbrev notice : PolicyBlockNotice
notice = record {
  run_id = "run";
  reason = "call_limit";
  policy = "max_requests_per_run";
  attempt = pos 2;
  threshold = pos 1;
  blocked_call_estimate_usd = "";
  occurred_at = some 8;
  persistence_failed = false;
}

-- A policy block is recorded between the first read and the first `Finish`.
abbrev meanwhile : ℕ → List Call
meanwhile i = if i == 8 then Call.blocks notice ∷ [] else []

abbrev racing : Environment
racing = record {
  others = λ i w. record w { table = run w.table (meanwhile i) };
  io = λ i. true;
  now = 9;
}

racing-Relies : Relies racing
racing-Relies i w = (meanwhile i, refl)

abbrev request : FinishRequest
request = record {
  state = State.failed;
  exit_code = pos 0;
  stop_reason = "policy_block";
  termination_status = TerminationStatus.succeeded;
  termination_code = "";
}

abbrev verify : List ℕ → Bool
verify token = true

abbrev answer : Option (Response × World)
answer = finish verify racing world "Bearer secret" "run" (Body.complete request)

abbrev world_of : Option (Response × World) → World
world_of none = world
world_of (some (r, w)) = w

abbrev stopped_row : Row
stopped_row = record (blocked_row notice running_row) {
  ended_at = some 9;
  exit_code = some (pos 0);
  stop_reason = some "policy_block";
  termination_status = some TerminationStatus.succeeded;
}

answered :
    answer
    ≡ some (summarised (execution_summary (scan_execution "run" stopped_row)), world_of answer)
unfolding finish authenticate finish_request execution get scan_execution registry_finish
    begin_finish get_elem? finish_execution update_where end_finish modify put block_execution
    first_finished reread respond blocked_finish_result first_result known abort_finish run apply
answered = refl

finish-Reported_example :
    Reported "run" (world_of answer) (execution_summary (scan_execution "run" stopped_row))
    × (authenticate verify "Bearer secret" ≡ true)
finish-Reported_example =
    finish-Reported verify racing world (world_of answer) "Bearer secret" "run"
      (Body.complete request) (execution_summary (scan_execution "run" stopped_row)) racing-Relies
      answered

abbrev exit : ProcessResult
exit = record { exit_code = pos 0; failed = false }

-- The child exits before the running transition is answered.
abbrev events : List Event
events = Event.exited exit ∷ Event.marked false false false ∷ []

supervise-ends_example : is_some (supervise events new_supervision).state ≡ true
supervise-ends_example = supervise-ends events refl

completes : (supervise events new_supervision).state ≡ some State.completed
unfolding supervise
completes = refl

running_facts : IsOpen running_table "run" running_row
unfolding get
running_facts = record { stored = refl; named = refl; unreported = refl }

supervise-IsAccepted_example :
    IsAccepted alone running_table "run" running_row
      (report (supervise events new_supervision) State.completed true exit)
supervise-IsAccepted_example =
    supervise-IsAccepted alone running_table "run" running_row events State.completed true exit
      running_facts completes refl (λ h. refl)

abbrev stopped_run : Row
stopped_run = record (new_row 3) { state = State.blocked }

abbrev blocked_table : Table
blocked_table = ("run", stopped_run) ∷ []

blocked_facts : IsOpen blocked_table "run" stopped_run
unfolding get
blocked_facts = record { stored = refl; named = refl; unreported = refl }

supervise-Settles_example :
    Settles alone blocked_table "run" stopped_run
      (supervise events new_supervision)
      (report (supervise events new_supervision) State.completed true exit)
supervise-Settles_example =
    supervise-Settles alone blocked_table "run" stopped_run events State.completed true exit
      blocked_facts completes refl

-- ===== src/Tests/Schedules.antt =====
-- The registry of active runs on concrete schedules: internal/executions/registry.go.
use virgil.Base.{String, true, false, Option, none, some, List, [], ◌∷◌, ◌≡◌, refl}
use virgil.Base.Cells.{get_elem?, modify}
use virgil.Base.Dict.{get, keys, put}
use virgil.Base.Int.{pos}
use virgil.Executions.{State, TerminationStatus, ExecutionResult, PolicyBlockNotice}
use virgil.Executions.Store.{start_execution}
use virgil.Executions.Registry.{
  requested_run_id, insert_run, resolve_run_token, first_run, begin_finish, set_ready, find_run,
}
use virgil.Executions.Registry.Schedules.{System, Event, run_events, started}
use virgil.Executions.Registry.Panics.{Sound, schedules-IsSound}
use virgil.Executions.Registry.Owners.{IsOwned}
use virgil.Executions.Registry.Exclusive.{schedules-IsOwned}
use virgil.Executions.Registry.Tokens.{Resolves, resolve-Resolves}

abbrev digest : String → String
digest s = s

abbrev notice : PolicyBlockNotice
notice = record {
  run_id = "run";
  reason = "call_limit";
  policy = "max_requests_per_run";
  attempt = pos 2;
  threshold = pos 1;
  blocked_call_estimate_usd = "";
  occurred_at = some 8;
  persistence_failed = false;
}

abbrev completed : ExecutionResult
completed = record {
  run_id = "run";
  state = State.completed;
  ended_at = some 9;
  exit_code = pos 0;
  stop_reason = "";
  termination_status = TerminationStatus.not_required;
  termination_error_code = "";
}

abbrev registered : List Event
registered =
    Event.register "run" "" "token" "signal" (some 3)
    ∷ Event.advance 0 true
    ∷ Event.advance 0 true
    ∷ []

-- A block, its signal, and a report of the run that loses the race with another one.
abbrev raced : List Event
raced =
    Event.register "run" "" "token" "signal" (some 3)
    ∷ Event.advance 0 true
    ∷ Event.advance 0 true
    ∷ Event.join "run" "signal"
    ∷ Event.mark_running "run"
    ∷ Event.notify notice
    ∷ Event.notify notice
    ∷ Event.finish_run completed
    ∷ Event.finish_run completed
    ∷ Event.advance 2 true
    ∷ Event.advance 1 true
    ∷ Event.advance 2 true
    ∷ Event.advance 1 true
    ∷ []

schedules-IsSound_example :
    (s : System) × (run_events digest raced (some (started [])) ≡ some s) × Sound s.registry
schedules-IsSound_example = schedules-IsSound digest [] raced

abbrev state_of : Option System → System
state_of none = started []
state_of (some s) = s

abbrev in_flight : System
in_flight = state_of (run_events digest registered (some (started [])))

-- A report is in flight.
abbrev reported : List Event
reported =
    Event.register "run" "" "token" "signal" (some 3)
    ∷ Event.advance 0 true
    ∷ Event.advance 0 true
    ∷ Event.finish_run completed
    ∷ []

abbrev in_finish : System
in_finish = state_of (run_events digest reported (some (started [])))

reached_finish : run_events digest reported (some (started [])) ≡ some in_finish
unfolding run_events get_elem? requested_run_id insert_run get modify start_execution begin_finish
reached_finish = refl

schedules-IsOwned_example : IsOwned in_finish
schedules-IsOwned_example = schedules-IsOwned digest [] reported in_finish reached_finish

resolved : resolve_run_token digest in_flight.registry "token" ≡ some "run"
unfolding run_events get_elem? requested_run_id insert_run get modify start_execution
    resolve_run_token first_run keys set_ready put find_run
resolved = refl

resolve-Resolves_example : Resolves digest in_flight.registry "token" "run"
resolve-Resolves_example = resolve-Resolves digest in_flight.registry "token" "run" resolved

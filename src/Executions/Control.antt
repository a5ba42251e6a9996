-- ===== src/Executions/Control.antt =====
-- internal/executions/http.go: the handlers of the local control protocol. What other requests and
-- the policy engine do between two calls of a handler is `others`, and a call of the store fails
-- where `io` is false. A response is a status with its message, or what the body holds.
pub mod Finished
use virgil.Base.{
  ℕ, suc, ◌+◌, ◌==◌, String, is_empty, if◌then◌else◌, Bool, true, false, ◌&&◌, ◌||◌, not, Option,
  none, some, List, [], ◌∷◌, Result, ok, err, ◌>>=◌,
}
use virgil.Base.Int.{ℤ}
use virgil.Base.Text.{codes}
use virgil.Executions.{
  State, TerminationStatus, ExecutionResult, Execution, Error, failure, run_not_found,
  invalid_transition, valid_termination_status, runner_terminal_state,
}
use virgil.Executions.Store.{
  Table, execution, finish_execution, mark_execution_running, is_blocked, is_failed,
}
use virgil.Executions.Registry.{Registry, begin_finish, abort_finish, end_finish}

pub record Summary : Type 0 where
  pub run_id : String
  pub state : State
  pub started_at : ℕ
  pub ended_at : Option ℕ
  pub exit_code : Option ℤ
  pub stop_reason : String
  pub policy : String
  pub policy_reason : String
  pub termination_status : TerminationStatus
  pub termination_error_code : String

-- `executionSummary`.
abbrev pub execution_summary : Execution → Summary
execution_summary e = record {
  run_id = e.run_id;
  state = e.state;
  started_at = e.started_at;
  ended_at = e.ended_at;
  exit_code = e.exit_code;
  stop_reason = e.stop_reason;
  policy = e.policy;
  policy_reason = e.policy_reason;
  termination_status = e.termination_status;
  termination_error_code = e.termination_error_code;
}

pub data Response : Type 0 where
  refused : ℕ → String → Response
  no_content : Response
  summarised : Summary → Response

pub record FinishRequest : Type 0 where
  pub state : State
  pub exit_code : ℤ
  pub stop_reason : String
  pub termination_status : TerminationStatus
  pub termination_code : String

-- What the JSON decoder reports: an error, something after the value, or one value.
pub data DecodeError : Type 0 where
  too_large malformed : DecodeError

pub data Body (A : Type 0) : Type 0 where
  unreadable : DecodeError → Body A
  followed : Option DecodeError → Body A
  complete : A → Body A

abbrev pub decode_error : DecodeError → Response
decode_error too_large = refused 413 "request body too large"
decode_error malformed = refused 400 "invalid request body"

-- A second value is no error of the decoder, and is refused as a malformed body.
abbrev pub decode_control_json : {A : Type 0} → Body A → Result Response A
decode_control_json (unreadable e) = err (decode_error e)
decode_control_json (followed none) = err (decode_error malformed)
decode_control_json (followed (some e)) = err (decode_error e)
decode_control_json (complete a) = ok a

-- `strings.Cut` at the first space.
abbrev pub cut_space : List ℕ → Option (List ℕ × List ℕ)
cut_space [] = none
cut_space (c ∷ cs) =
    let rest = cut_space cs in
    if c == b' '
    then some ([], cs)
    else elim rest [ none ↦ none | some (before, after) ↦ some (c ∷ before, after) ]

abbrev pub same_codes : List ℕ → List ℕ → Bool
same_codes [] [] = true
same_codes (c ∷ cs) (d ∷ ds) = c == d && same_codes cs ds
same_codes _ _ = false

-- `verify` is the credential's check of the token.
authorized : (List ℕ → Bool) → Option (List ℕ × List ℕ) → Bool
authorized verify none = false
authorized verify (some (scheme, token)) = same_codes scheme (codes "Bearer") && verify token

unfoldable pub authenticate : (List ℕ → Bool) → String → Bool
unfolding authorized
authenticate verify header = authorized verify (cut_space (codes header))

pub record World : Type 0 where
  pub registry : Registry
  pub table : Table

-- The interference before each call, whether the call's I/O succeeds, and the clock.
pub record Environment : Type 0 where
  pub others : ℕ → World → World
  pub io : ℕ → Bool
  pub now : ℕ

abbrev pub attempt : {A : Type 0} → Bool → Result Error A → Result Error A
attempt io m = if io then m else err failure

abbrev pub with_result :
    Result Error (Unit {0}) → World → Option Registry → Option (Result Error (Unit {0}) × World)
with_result m w none = none
with_result m w (some r) = some (m, record w { registry = r })

-- `Registry.Finish` after the call of the store.
close_out :
    Environment
    → ℕ
    → World
    → String
    → ℕ
    → Result Error Table
    → Option (Result Error (Unit {0}) × World)
close_out env k w run_id a (err e) =
    let w' = env.others k w in some (err e, record w' { registry = abort_finish w'.registry a })
close_out env k w run_id a (ok rows) =
    let w' = env.others k (record w { table = rows }) in
    with_result (ok tt) w' (end_finish w'.registry run_id a)

begun :
    Environment
    → ℕ
    → World
    → ExecutionResult
    → Result Error (ℕ × Registry)
    → Option (Result Error (Unit {0}) × World)
unfolding close_out
begun env k w result (err e) = some (err e, w)
begun env k w result (ok (a, r)) =
    let w' = env.others k (record w { registry = r }) in
    close_out env (suc k) w' result.run_id a (attempt (env.io k) (finish_execution w'.table result))

-- `Registry.Finish`, with other calls before the store's and before the last critical section;
-- `none` is a panic.
unfoldable pub registry_finish :
    Environment → ℕ → World → ExecutionResult → Option (Result Error (Unit {0}) × World)
unfolding begun
registry_finish env k w result = begun env k w result (begin_finish w.registry result.run_id)

abbrev pub with_state : State → ExecutionResult → Result Response ExecutionResult
with_state s result = ok (record result { state = s })

abbrev pub invalid_termination : Response
invalid_termination = refused 400 "invalid termination result"

-- `blockedFinishResult`: the report of a blocked run is stored as `blocked` or `termination_failed`.
unfoldable pub blocked_finish_result :
    FinishRequest → ExecutionResult → Result Response ExecutionResult
blocked_finish_result input result = elim input.termination_status [
  | TerminationStatus.succeeded ↦
      if not (is_empty input.termination_code)
      then err invalid_termination
      else with_state State.blocked result
  | TerminationStatus.failed ↦
      if is_empty input.termination_code
      then err invalid_termination
      else with_state State.termination_failed result
  | _ ↦ err invalid_termination
]

abbrev pub is_termination_failed : State → Bool
is_termination_failed State.termination_failed = true
is_termination_failed _ = false

abbrev pub result_of : Environment → String → FinishRequest → ExecutionResult
result_of env run_id input = record {
  run_id = run_id;
  state = input.state;
  ended_at = some env.now;
  exit_code = input.exit_code;
  stop_reason = input.stop_reason;
  termination_status = input.termination_status;
  termination_error_code = input.termination_code;
}

-- The result that is finished first, for the state that was read before.
unfoldable pub first_result :
    State → FinishRequest → ExecutionResult → Result Response ExecutionResult
unfolding blocked_finish_result
first_result before input result =
    if is_blocked before
    then blocked_finish_result input result
    else if is_termination_failed input.state
    then (if not (is_failed input.termination_status) || is_empty input.termination_code
        then err (refused 400 "invalid failed termination")
        else ok result)
    else if is_failed input.termination_status || not (is_empty input.termination_code)
    then err invalid_termination
    else ok result

abbrev pub is_invalid_transition : Result Error (Unit {0}) → Bool
is_invalid_transition (err Error.invalid_transition) = true
is_invalid_transition _ = false

abbrev pub is_not_found : Error → Bool
is_not_found Error.run_not_found = true
is_not_found _ = false

abbrev pub is_conflict : Error → Bool
is_conflict Error.invalid_transition = true
is_conflict Error.run_not_found = true
is_conflict _ = false

abbrev pub finish_error : Error → Response
finish_error e =
    if is_conflict e then refused 409 "invalid transition" else refused 500 "finish failed"

abbrev pub read_response : Result Error Execution → Response
read_response (ok e) = summarised (execution_summary e)
read_response (err e) = refused 500 "execution read failed"

-- From the last `Finish` on.
unfoldable pub respond :
    Environment → String → Option (Result Error (Unit {0}) × World) → Option (Response × World)
respond env run_id none = none
respond env run_id (some (err e, w)) = some (finish_error e, w)
respond env run_id (some (ok u, w)) =
    let w' = env.others 7 w in
    some (read_response (attempt (env.io 7) (execution w'.table run_id)), w')

-- The follow-up of a run that was blocked between the first read and the first `Finish`.
follow_up :
    Environment → World → String → Result Response ExecutionResult → Option (Response × World)
unfolding respond
follow_up env w run_id (err r) = some (r, w)
follow_up env w run_id (ok result) =
    respond env run_id (registry_finish env 5 (env.others 4 w) result)

-- The second read, after the first `Finish` returned `ErrInvalidTransition`.
unfoldable pub reread :
    Environment
    → World
    → FinishRequest
    → ExecutionResult
    → Result Error Execution
    → Option (Response × World)
unfolding follow_up
reread env w input result (err e) =
    if is_not_found e
    then respond env result.run_id (some (err invalid_transition, w))
    else some (refused 500 "execution read failed", w)
reread env w input result (ok current) =
    if is_blocked current.state
    then follow_up env w result.run_id (blocked_finish_result input result)
    else respond env result.run_id (some (err invalid_transition, w))

unfoldable pub first_finished :
    Environment
    → State
    → FinishRequest
    → ExecutionResult
    → Option (Result Error (Unit {0}) × World)
    → Option (Response × World)
unfolding reread
first_finished env before input result none = none
first_finished env before input result (some (m, w)) =
    if is_invalid_transition m && not (is_blocked before)
    then (let w' = env.others 3 w in
        reread env w' input result (attempt (env.io 3) (execution w'.table result.run_id)))
    else respond env result.run_id (some (m, w))

-- The body of `Finish` after authentication and decoding.
admitted :
    Environment
    → World
    → FinishRequest
    → State
    → Result Response ExecutionResult
    → Option (Response × World)
unfolding first_finished
admitted env w input before (err r) = some (r, w)
admitted env w input before (ok result) =
    first_finished env before input result (registry_finish env 1 (env.others 8 w) result)

unfoldable pub known :
    Environment
    → World
    → String
    → FinishRequest
    → Result Error Execution
    → Option (Response × World)
unfolding admitted first_result
known env w run_id input (err e) =
    some (
      if is_not_found e then refused 404 "run not found" else refused 500 "execution read failed",
      w,
    )
known env w run_id input (ok before) =
    admitted env w input before.state (first_result before.state input (result_of env run_id input))

unfoldable pub finish_request :
    Environment → World → String → FinishRequest → Option (Response × World)
unfolding known
finish_request env w run_id input =
    if not (runner_terminal_state input.state)
    then some (refused 400 "invalid terminal state", w)
    else if not (valid_termination_status input.termination_status)
    then some (refused 400 "invalid termination status", w)
    else (let w' = env.others 0 w in
        known env w' run_id input (attempt (env.io 0) (execution w'.table run_id)))

decoded_finish :
    Environment → World → String → Result Response FinishRequest → Option (Response × World)
decoded_finish env w run_id (err r) = some (r, w)
decoded_finish env w run_id (ok input) = finish_request env w run_id input

-- `HTTPHandler.Finish`.
unfoldable pub finish :
    (List ℕ → Bool)
    → Environment
    → World
    → String
    → String
    → Body FinishRequest
    → Option (Response × World)
unfolding decoded_finish
finish verify env w header run_id body =
    if not (authenticate verify header)
    then some (refused 401 "unauthorized", w)
    else decoded_finish env w run_id (decode_control_json body)

marked : World → Result Error Table → Response × World
marked w (ok rows) = (no_content, record w { table = rows })
marked w (err Error.invalid_transition) = (refused 409 "invalid transition", w)
marked w (err e) = (refused 500 "running transition failed", w)

running_request : Environment → World → String → Result Response (Unit {0}) → Response × World
unfolding marked
running_request env w run_id (err r) = (r, w)
running_request env w run_id (ok u) =
    marked w (attempt (env.io 0) (mark_execution_running w.table run_id))

-- `HTTPHandler.Running`.
unfoldable pub running :
    (List ℕ → Bool) → Environment → World → String → String → Body (Unit {0}) → Response × World
unfolding running_request
running verify env w header run_id body =
    if not (authenticate verify header)
    then (refused 401 "unauthorized", w)
    else running_request env w run_id (decode_control_json body)

-- The status of a failed `Register`.
abbrev pub register_error : Error → Response
register_error Error.invalid_run_id = refused 400 "invalid run id"
register_error Error.run_active = refused 409 "run already active"
register_error Error.run_exists = refused 409 "run id already exists"
register_error _ = refused 500 "registration failed"

-- The status of a failed `Subscribe`.
abbrev pub signal_error : Error → Response
signal_error Error.signal_token_invalid = refused 401 "unauthorized"
signal_error _ = refused 409 "signal unavailable"

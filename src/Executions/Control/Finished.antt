-- ===== src/Executions/Control/Finished.antt =====
-- What an accepted `Finish` request means, whatever other requests and the policy engine do
-- meanwhile.
use virgil.Base.{
  ℕ, suc, String, ◌≡◌, refl, ap, Bool, true, false, ◌&&◌, not, Option, none, some, List, Result, ok,
  err, arith, Bool-cases, inl, inr,
}
use mathlib.Core.Path.{subst}
use virgil.Base.Dict.{get}
use virgil.Executions.{
  runner_terminal_state, valid_termination_status, State, ExecutionResult, Execution, Error,
  invalid_transition,
}
use virgil.Executions.Store.{Table, Row, execution, scan_execution, finish_execution, is_blocked}
use virgil.Executions.Store.Changes.{Call, run}
use virgil.Executions.Store.Settled.{run-settled}
use virgil.Executions.Store.Ended.{Ended, finish-Ended}
use virgil.Executions.Registry.{Registry, begin_finish, end_finish}
use virgil.Executions.Control.{
  Summary, execution_summary, Response, refused, summarised, FinishRequest, Body, DecodeError,
  World, Environment, attempt, close_out, begun, with_result, registry_finish, respond, follow_up,
  reread, first_finished, admitted, known, finish_request, finish, read_response, finish_error,
  is_conflict, is_not_found, no_content, is_invalid_transition, blocked_finish_result, first_result,
  result_of, decode_control_json, decoded_finish, authenticate,
}

-- Other requests change the table by calls of the store only.
abbrev pub Relies : Environment → Type 0
Relies env = (i : ℕ) (w : World) → (cs : List Call) × ((env.others i w).table ≡ run w.table cs)

abbrev EndedIn : String → World → Type 0
EndedIn run_id w = Ended w.table run_id

others-Ended :
    (env : Environment) (i : ℕ) (w : World) (run_id : String)
    → Relies env
    → EndedIn run_id w
    → EndedIn run_id (env.others i w)
others-Ended env i w run_id relies e =
    let (cs, h) = relies i w in
    record {
      row = e.row;
      stored = rw h (run-settled w.table cs run_id e.row e.stored e.settled);
      settled = e.settled;
      dated = e.dated;
    }

-- What `Registry.Finish` returns: without an error, the run's row has ended.
abbrev Finishes : String → Option (Result Error Unit × World) → Type 0
Finishes run_id none = Unit
Finishes run_id (some (err e, w)) = Unit
Finishes run_id (some (ok u, w)) = EndedIn run_id w

with_result-Finishes :
    (run_id : String) (w : World) (r : Option Registry)
    → EndedIn run_id w
    → Finishes run_id (with_result (ok tt) w r)
with_result-Finishes run_id w none e = tt
with_result-Finishes run_id w (some r) e = record {
  row = e.row;
  stored = e.stored;
  settled = e.settled;
  dated = e.dated;
}

close_out-Finishes :
    (env : Environment) (k : ℕ) (w : World) (run_id : String) (a : ℕ) (m : Result Error Table)
    → Relies env
    → ((rows : Table) → m ≡ ok rows → Ended rows run_id)
    → Finishes run_id (close_out env k w run_id a m)
unfolding close_out
close_out-Finishes env k w run_id a (err e) relies h = tt
close_out-Finishes env k w run_id a (ok rows) relies h =
    let w' = env.others k (record w { table = rows }) in
    with_result-Finishes run_id w' (end_finish w'.registry run_id a)
      (others-Ended env k (record w { table = rows }) run_id relies (h rows refl))

attempted :
    (io : Bool) (m : Result Error Table) (rows : Table) → attempt io m ≡ ok rows → m ≡ ok rows
attempted io m rows h = ground arith

begun-Finishes :
    (env : Environment) (k : ℕ) (w : World) (result : ExecutionResult)
    (m : Result Error (ℕ × Registry))
    → Relies env
    → Finishes result.run_id (begun env k w result m)
unfolding begun
begun-Finishes env k w result (err e) relies = tt
begun-Finishes env k w result (ok (a, r)) relies =
    let w' = env.others k (record w { registry = r }) in
    close_out-Finishes env (suc k) w' result.run_id a
      (attempt (env.io k) (finish_execution w'.table result)) relies
      (λ rows h.
        finish-Ended w'.table rows result
          (attempted (env.io k) (finish_execution w'.table result) rows h))

registry_finish-Finishes :
    (env : Environment) (k : ℕ) (w : World) (result : ExecutionResult)
    → Relies env
    → Finishes result.run_id (registry_finish env k w result)
unfolding registry_finish
registry_finish-Finishes env k w result relies =
    begun-Finishes env k w result (begin_finish w.registry result.run_id) relies

-- A response with a summary describes the run as the table now has it, and the run has ended.
pub record Reported (run_id : String) (w : World) (e : Summary) : Type 0 where
  pub ended : Ended w.table run_id
  pub described : e ≡ execution_summary (scan_execution run_id ended.row)

abbrev Reports : String → Option (Response × World) → Type 0
Reports run_id (some (summarised e, w)) = Reported run_id w e
Reports run_id _ = Unit

read-Reports :
    (run_id : String) (w : World) (m : Result Error Execution) (e : EndedIn run_id w)
    → ((x : Execution) → m ≡ ok x → x ≡ scan_execution run_id e.row)
    → Reports run_id (some (read_response m, w))
read-Reports run_id w (err x) e h = tt
read-Reports run_id w (ok x) e h = record { ended = e; described = ap execution_summary (h x refl) }

error-Reports :
    (run_id : String) (w : World) (e : Error) → Reports run_id (some (finish_error e, w))
error-Reports run_id w e = elim (Bool-cases (is_conflict e)) [ inl c ↦ rw c tt | inr c ↦ rw c tt ]

read_execution :
    (io : Bool) (rows : Table) (run_id : String) (row : Row) (x : Execution)
    → get rows run_id ≡ some row
    → attempt io (execution rows run_id) ≡ ok x
    → x ≡ scan_execution run_id row
unfolding execution
read_execution io rows run_id row x e h = ground arith

respond-Reports :
    (env : Environment) (run_id : String) (m : Option (Result Error Unit × World))
    → Relies env
    → Finishes run_id m
    → Reports run_id (respond env run_id m)
unfolding respond
respond-Reports env run_id none relies f = tt
respond-Reports env run_id (some (err e, w)) relies f = error-Reports run_id w e
respond-Reports env run_id (some (ok u, w)) relies f =
    let w' = env.others 7 w in
    let ended = others-Ended env 7 w run_id relies f in
    read-Reports run_id w' (attempt (env.io 7) (execution w'.table run_id)) ended
      (λ x h. read_execution (env.io 7) w'.table run_id ended.row x ended.stored h)

abbrev is_refusal : Response → Bool
is_refusal (summarised e) = false
is_refusal _ = true

refusal-Reports :
    (run_id : String) (w : World) (r : Response)
    → is_refusal r ≡ true
    → Reports run_id (some (r, w))
refusal-Reports run_id w (summarised e) h = absurd (cc)
refusal-Reports run_id w (refused code message) h = tt
refusal-Reports run_id w no_content h = tt

follow_up-Reports :
    (env : Environment) (w : World) (run_id : String) (m : Result Response ExecutionResult)
    → Relies env
    → ((r : Response) → m ≡ err r → is_refusal r ≡ true)
    → ((result : ExecutionResult) → m ≡ ok result → result.run_id ≡ run_id)
    → Reports run_id (follow_up env w run_id m)
unfolding follow_up
follow_up-Reports env w run_id (err r) relies h k = refusal-Reports run_id w r (h r refl)
follow_up-Reports env w run_id (ok result) relies h k =
    respond-Reports env run_id (registry_finish env 5 (env.others 4 w) result) relies (
      subst (λ id. Finishes id (registry_finish env 5 (env.others 4 w) result)) (k result refl)
        (registry_finish-Finishes env 5 (env.others 4 w) result relies))

blocked-refusal :
    (input : FinishRequest) (result : ExecutionResult) (r : Response)
    → blocked_finish_result input result ≡ err r
    → is_refusal r ≡ true
unfolding blocked_finish_result
blocked-refusal input result r h = ground arith

blocked-run_id :
    (input : FinishRequest) (result result' : ExecutionResult)
    → blocked_finish_result input result ≡ ok result'
    → result'.run_id ≡ result.run_id
unfolding blocked_finish_result
blocked-run_id input result result' h = ground arith

reread-Reports :
    (env : Environment) (w : World) (input : FinishRequest) (result : ExecutionResult)
    (m : Result Error Execution)
    → Relies env
    → Reports result.run_id (reread env w input result m)
unfolding reread
reread-Reports env w input result (err e) relies = elim (Bool-cases (is_not_found e)) [
  | inl y ↦ rw y (respond-Reports env result.run_id (some (err invalid_transition, w)) relies tt)
  | inr n ↦ rw n tt
]
reread-Reports env w input result (ok current) relies =
    elim (Bool-cases (is_blocked current.state)) [
      | inl y ↦ rw y (
          follow_up-Reports env w result.run_id (blocked_finish_result input result) relies
            (blocked-refusal input result) (blocked-run_id input result))
      | inr n ↦
          rw n (respond-Reports env result.run_id (some (err invalid_transition, w)) relies tt)
    ]

first-Reports :
    (env : Environment) (before : State) (input : FinishRequest) (result : ExecutionResult)
    (m : Option (Result Error Unit × World))
    → Relies env
    → Finishes result.run_id m
    → Reports result.run_id (first_finished env before input result m)
unfolding first_finished
first-Reports env before input result none relies f = tt
first-Reports env before input result (some (m, w)) relies f =
    let w' = env.others 3 w in
    elim (Bool-cases (is_invalid_transition m && not (is_blocked before))) [
      | inl y ↦ rw y (
          reread-Reports env w' input result (attempt (env.io 3) (execution w'.table result.run_id))
            relies)
      | inr n ↦ rw n (respond-Reports env result.run_id (some (m, w)) relies f)
    ]

first-refusal :
    (before : State) (input : FinishRequest) (result : ExecutionResult) (r : Response)
    → first_result before input result ≡ err r
    → is_refusal r ≡ true
unfolding first_result
first-refusal before input result r h = ground (arith, blocked-refusal input result r)

first-run_id :
    (before : State) (input : FinishRequest) (result result' : ExecutionResult)
    → first_result before input result ≡ ok result'
    → result'.run_id ≡ result.run_id
unfolding first_result
first-run_id before input result result' h = ground (arith, blocked-run_id input result result')

admitted-Reports :
    (env : Environment) (w : World) (input : FinishRequest) (before : State) (run_id : String)
    (m : Result Response ExecutionResult)
    → Relies env
    → ((r : Response) → m ≡ err r → is_refusal r ≡ true)
    → ((result : ExecutionResult) → m ≡ ok result → result.run_id ≡ run_id)
    → Reports run_id (admitted env w input before m)
unfolding admitted
admitted-Reports env w input before run_id (err r) relies h k =
    refusal-Reports run_id w r (h r refl)
admitted-Reports env w input before run_id (ok result) relies h k =
    subst
      (λ id.
        Reports id
          (first_finished env before input result (registry_finish env 1 (env.others 8 w) result)))
      (k result refl)
      (first-Reports env before input result (registry_finish env 1 (env.others 8 w) result) relies
        (registry_finish-Finishes env 1 (env.others 8 w) result relies))

known-Reports :
    (env : Environment) (w : World) (run_id : String) (input : FinishRequest)
    (m : Result Error Execution)
    → Relies env
    → Reports run_id (known env w run_id input m)
unfolding known
known-Reports env w run_id input (err e) relies = elim (Bool-cases (is_not_found e)) [
  | inl y ↦ rw y tt
  | inr n ↦ rw n tt
]
known-Reports env w run_id input (ok before) relies =
    let result = result_of env run_id input in
    admitted-Reports env w input before.state run_id (first_result before.state input result) relies
      (first-refusal before.state input result) (first-run_id before.state input result)

request-Reports :
    (env : Environment) (w : World) (run_id : String) (input : FinishRequest)
    → Relies env
    → Reports run_id (finish_request env w run_id input)
unfolding finish_request
request-Reports env w run_id input relies = elim (Bool-cases (runner_terminal_state input.state)) [
  | inl y ↦ elim (Bool-cases (valid_termination_status input.termination_status)) [
    | inl y' ↦
        let w' = env.others 0 w in
        rw (y, y')
          (known-Reports env w' run_id input (attempt (env.io 0) (execution w'.table run_id))
            relies)
    | inr n' ↦ rw (y, n') tt
  ]
  | inr n ↦ rw n tt
]

decoded-Reports :
    (env : Environment) (w : World) (run_id : String) (body : Body FinishRequest)
    → Relies env
    → Reports run_id (decoded_finish env w run_id (decode_control_json body))
unfolding decoded_finish
decoded-Reports env w run_id (Body.unreadable DecodeError.too_large) relies = tt
decoded-Reports env w run_id (Body.unreadable DecodeError.malformed) relies = tt
decoded-Reports env w run_id (Body.followed none) relies = tt
decoded-Reports env w run_id (Body.followed (some DecodeError.too_large)) relies = tt
decoded-Reports env w run_id (Body.followed (some DecodeError.malformed)) relies = tt
decoded-Reports env w run_id (Body.complete input) relies =
    request-Reports env w run_id input relies

finish-Reports :
    (verify : List ℕ → Bool) (env : Environment) (w : World) (header run_id : String)
    (body : Body FinishRequest)
    → Relies env
    → Reports run_id (finish verify env w header run_id body)
unfolding finish
finish-Reports verify env w header run_id body relies =
    elim (Bool-cases (authenticate verify header)) [
      | inl y ↦ rw y (decoded-Reports env w run_id body relies)
      | inr n ↦ rw n tt
    ]

-- A `Finish` request that is answered with a summary was authenticated and has ended the run: the
-- table has a settled row for it with an end time, and the summary is that row. This holds whatever
-- other requests do to the registry between the handler's calls, and whatever calls of the store
-- they and the policy engine make, the block that races with the request among them.
pub finish-Reported :
    (verify : List ℕ → Bool) (env : Environment) (w w' : World) (header run_id : String)
    (body : Body FinishRequest) (e : Summary)
    → Relies env
    → finish verify env w header run_id body ≡ some (summarised e, w')
    → Reported run_id w' e × (authenticate verify header ≡ true)
unfolding finish
finish-Reported verify env w w' header run_id body e relies h =
    (subst (Reports run_id) h (finish-Reports verify env w header run_id body relies), ground arith)

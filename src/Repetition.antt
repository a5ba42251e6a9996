-- ===== src/Repetition.antt =====
-- internal/policies/repetition.go and internal/storage/repetition.go: repeated tool errors, provider
-- errors and tool calls of a run, in three bounded caches over a table that survives restarts.
-- Counts are unbounded numbers; `sha256` is a parameter where a digest is computed. `writes` and
-- `reads` say whether SQLite carries out the write or the read of a call, and `cancelled` is
-- `ctx.Err() != nil`.
pub mod Runs
pub mod Bounds
pub mod Calls
pub mod Streak
pub mod Errors
pub mod Sync
pub mod Restart
use virgil.Base.{
  ℕ, zero, suc, ◌+◌, ltb, leb, ◌==◌, String, is_empty, str_eq, if◌then◌else◌, Bool, true, false,
  ◌&&◌, ◌||◌, not, Option, none, some, List, [], ◌∷◌, ◌++◌, Result, ok, err, is_some, all_of,
  length, replicate,
}
use virgil.Base.Dict.{Dict, get, put, remove}
use virgil.Base.Text.{
  codes, is_digit, is_lower, is_upper, is_label_char, is_code_char, matches_up_to,
}
use Runs.{Cache, find, store, insert, find_or_insert, remove_first, rest}

-- `maxRepetitionRuns` and `maxFeedbackIDsPerRun`.
abbrev pub max_repetition_runs : ℕ
max_repetition_runs = 1024

abbrev pub max_feedback_ids_per_run : ℕ
max_feedback_ids_per_run = 256

abbrev pub Digest : Type 0
Digest = List ℕ

-- A [32]byte that has not been written.
abbrev pub no_digest : Digest
no_digest = replicate 32 0

unfoldable pub digest_eq : Digest → Digest → Bool
digest_eq [] [] = true
digest_eq (a ∷ as') (b ∷ bs) = a == b && digest_eq as' bs
digest_eq _ _ = false

pub record ToolResult : Type 0 where
  pub run_id : String
  pub tool_call_id : String
  pub tool_name : String
  pub status : String
  pub error_code : String

pub record RepetitionState : Type 0 where
  pub fingerprint : Digest
  pub count : ℕ
  pub seen : Dict (Unit {0})
  pub seen_order : List String

pub record CallRepetitionState : Type 0 where
  pub fingerprint : String
  pub count : ℕ

-- A row of `run_repetition_state`; `last_values` is a JSON list of texts.
pub record SavedRepetition : Type 0 where
  pub count : ℕ
  pub last_values : List String

-- The caches of the engine, and the rows of the table by their `kind`.
pub record Tracker : Type 0 where
  pub repetitions : Cache RepetitionState
  pub provider_repetitions : Cache CallRepetitionState
  pub call_repetitions : Cache CallRepetitionState
  pub saved_tool_error : Dict SavedRepetition
  pub saved_provider_error : Dict SavedRepetition
  pub saved_tool_call : Dict SavedRepetition

pub data FeedbackError : Type 0 where
  context_done invalid_run_id invalid_fingerprint invalid_result invalid_outcome : FeedbackError

-- `feedbackRunID`, `feedbackLabel`, `feedbackCode` and `toolFingerprint`.
unfoldable pub feedback_run_id : String → Bool
feedback_run_id s = matches_up_to is_label_char 64 (codes s)

is_label_tail : ℕ → Bool
unfolding is_label_char
is_label_tail c = is_label_char c || c == b':' || c == b'/'

label : List ℕ → Bool
unfolding is_label_tail
label [] = false
label (c ∷ cs) =
    (is_upper c || is_lower c || is_digit c) && leb (length cs) 127 && all_of is_label_tail cs

unfoldable pub feedback_label : String → Bool
unfolding label
feedback_label s = label (codes s)

unfoldable pub feedback_code : String → Bool
feedback_code s = matches_up_to is_code_char 64 (codes s)

is_hex : ℕ → Bool
is_hex c = is_digit c || (leb b'a' c && leb c b'f')

unfoldable pub tool_fingerprint : String → Bool
unfolding is_hex
tool_fingerprint s = length (codes s) == 64 && all_of is_hex (codes s)

-- `LoadRepetitionState`: 0 for a missing row, and `none` for a read that fails.
unfoldable pub load_repetition_state : Bool → Dict SavedRepetition → String → Option SavedRepetition
load_repetition_state false rows run_id = none
load_repetition_state true rows run_id = elim (get rows run_id) [
  | none ↦ some (record { count = 0; last_values = [] })
  | some row ↦ some row
]

-- `SaveRepetitionState`, whose error is dropped by the callers.
unfoldable pub save_repetition_state :
    Bool → Dict SavedRepetition → String → ℕ → List String → Dict SavedRepetition
save_repetition_state false rows run_id count last_values = rows
save_repetition_state true rows run_id count last_values =
    put rows run_id (record { count = count; last_values = last_values })

abbrev pub first_or_empty : List String → String
first_or_empty [] = ""
first_or_empty (v ∷ vs) = v

-- One fingerprint against the state of its run.
unfoldable pub count_call : CallRepetitionState → String → CallRepetitionState
count_call state fp =
    if str_eq state.fingerprint fp
    then record state { count = state.count + 1 }
    else record { fingerprint = fp; count = 1 }

abbrev pub new_call_state : CallRepetitionState
new_call_state = record { fingerprint = ""; count = 0 }

-- The body of the loop of `RecordToolCalls`.
unfoldable pub record_call : Cache CallRepetitionState → String → String → Cache CallRepetitionState
record_call cache run_id fp =
    let (state, cache') = find_or_insert max_repetition_runs cache run_id new_call_state in
    store cache' run_id (count_call state fp)

unfoldable pub record_calls :
    Cache CallRepetitionState → String → List String → Cache CallRepetitionState
unfolding record_call
record_calls cache run_id [] = cache
record_calls cache run_id (fp ∷ fps) = record_calls (record_call cache run_id fp) run_id fps

-- The write after the loop: nothing where the run has no state or an empty fingerprint.
unfoldable pub save_call :
    Bool → Dict SavedRepetition → String → Option CallRepetitionState → Dict SavedRepetition
unfolding save_repetition_state
save_call writes rows run_id none = rows
save_call writes rows run_id (some state) =
    if is_empty state.fingerprint
    then rows
    else save_repetition_state writes rows run_id state.count (state.fingerprint ∷ [])

-- The tracker after the calls of a run are counted and saved.
unfoldable pub after_calls : Bool → Tracker → String → List String → Tracker
unfolding record_calls save_call
after_calls writes t run_id fingerprints =
    let cache = record_calls t.call_repetitions run_id fingerprints in
    record t {
      call_repetitions = cache;
      saved_tool_call = save_call writes t.saved_tool_call run_id (find cache run_id);
    }

-- `RecordToolCalls`.
unfoldable pub record_tool_calls :
    Bool → Bool → Tracker → String → List String → Result FeedbackError Tracker
unfolding after_calls
record_tool_calls cancelled writes t run_id fingerprints =
    if cancelled
    then err context_done
    else if not (feedback_run_id run_id)
    then err invalid_run_id
    else if not (all_of tool_fingerprint fingerprints)
    then err invalid_fingerprint
    else ok (after_calls writes t run_id fingerprints)

-- `count >= 3`.
abbrev pub is_repeated : ℕ → Bool
is_repeated count = leb 3 count

-- What a cache miss loads: nothing on a failed read or a count of 0.
unfoldable pub loaded : Bool → Dict SavedRepetition → String → Option SavedRepetition
unfolding load_repetition_state
loaded reads rows run_id = elim (load_repetition_state reads rows run_id) [
  | none ↦ none
  | some row ↦ if row.count == 0 then none else some row
]

abbrev pub restored_call : SavedRepetition → CallRepetitionState
restored_call row = record { fingerprint = first_or_empty row.last_values; count = row.count }

-- The restored state of a tool error has the count alone.
abbrev pub restored_error : SavedRepetition → RepetitionState
restored_error row = record {
  fingerprint = no_digest;
  count = row.count;
  seen = [];
  seen_order = [];
}

-- The answer from the state of the cache, or else from the row that is loaded.
unfoldable pub answer_from :
    {V : Type 0}
    → (V → ℕ)
    → (SavedRepetition → V)
    → Option SavedRepetition
    → Cache V
    → String
    → Option V
    → Bool × Cache V
answer_from count restore row cache run_id (some state) = (is_repeated (count state), cache)
answer_from count restore none cache run_id none = (false, cache)
answer_from count restore (some row) cache run_id none =
    (is_repeated row.count, insert max_repetition_runs cache run_id (restore row))

-- The check that the three `repeated…` functions share: whether the run is repeated, and the cache.
unfoldable pub repeated :
    {V : Type 0}
    → (V → ℕ)
    → (SavedRepetition → V)
    → Bool
    → Dict SavedRepetition
    → Cache V
    → String
    → Bool × Cache V
unfolding loaded answer_from
repeated count restore reads rows cache run_id =
    answer_from count restore (loaded reads rows run_id) cache run_id (find cache run_id)

abbrev pub call_count : CallRepetitionState → ℕ
call_count state = state.count

abbrev pub error_count : RepetitionState → ℕ
error_count state = state.count

unfoldable pub repeated_tool_call : Bool → Tracker → String → Bool × Tracker
repeated_tool_call reads t run_id =
    let (answer, cache) =
      repeated call_count restored_call reads t.saved_tool_call t.call_repetitions run_id in
    (answer, record t { call_repetitions = cache })

unfoldable pub repeated_provider_error : Bool → Tracker → String → Bool × Tracker
repeated_provider_error reads t run_id =
    let (answer, cache) =
      repeated call_count restored_call reads t.saved_provider_error t.provider_repetitions
        run_id in
    (answer, record t { provider_repetitions = cache })

unfoldable pub repeated_tool_error : Bool → Tracker → String → Bool × Tracker
repeated_tool_error reads t run_id =
    let (answer, cache) =
      repeated error_count restored_error reads t.saved_tool_error t.repetitions run_id in
    (answer, record t { repetitions = cache })

-- `repeatedError`.
unfoldable pub repeated_error : Bool → Tracker → String → Bool × Tracker
repeated_error reads t run_id =
    let (tool, t') = repeated_tool_error reads t run_id in
    if tool then (true, t') else repeated_provider_error reads t' run_id

-- An outcome of the provider against the state of its run.
unfoldable pub count_outcome : CallRepetitionState → Bool → String → CallRepetitionState
count_outcome state success error_code =
    if success
    then record { fingerprint = ""; count = 0 }
    else if str_eq state.fingerprint error_code
    then record state { count = state.count + 1 }
    else record { fingerprint = error_code; count = 1 }

-- The tracker after an outcome of a run is counted and saved.
unfoldable pub after_outcome : Bool → Tracker → String → Bool → String → Tracker
after_outcome writes t run_id success error_code =
    let (state, cache) =
      find_or_insert max_repetition_runs t.provider_repetitions run_id new_call_state in
    let new = count_outcome state success error_code in
    record t {
      provider_repetitions = store cache run_id new;
      saved_provider_error =
          save_repetition_state writes t.saved_provider_error run_id new.count
            (new.fingerprint ∷ []);
    }

-- `RecordProviderOutcome`.
unfoldable pub record_provider_outcome :
    Bool → Bool → Tracker → String → String → String → Result FeedbackError Tracker
record_provider_outcome cancelled writes t run_id status error_code =
    if cancelled
    then err context_done
    else if not (feedback_run_id run_id)
        || (not (str_eq status "success") && not (feedback_code error_code))
    then err invalid_outcome
    else ok (after_outcome writes t run_id (str_eq status "success") error_code)

-- The validation of `RecordToolResult`.
abbrev pub invalid_tool_result : ToolResult → Bool
invalid_tool_result r =
    not (feedback_run_id r.run_id)
    || not (feedback_label r.tool_call_id)
    || not (feedback_label r.tool_name)
    || (not (str_eq r.status "error") && not (str_eq r.status "success"))
    || (str_eq r.status "error" && not (feedback_code r.error_code))
    || (str_eq r.status "success" && not (is_empty r.error_code))

-- `delete(seen, seenOrder[0]); seenOrder = seenOrder[1:]` where the run has seen enough IDs.
unfoldable pub forget : RepetitionState → RepetitionState
forget state =
    if leb max_feedback_ids_per_run (length state.seen)
    then record state {
      seen = remove_first state.seen state.seen_order;
      seen_order = rest state.seen_order;
    }
    else state

-- A tool result that has not been seen, against the state of its run.
unfoldable pub count_result : RepetitionState → Digest → Bool → String → RepetitionState
count_result state fingerprint success tool_call_id =
    let room = forget state in
    record {
      fingerprint = fingerprint;
      count =
          if success
          then 0
          else if digest_eq room.fingerprint fingerprint
          then room.count + 1
          else 1;
      seen = put room.seen tool_call_id tt;
      seen_order = room.seen_order ++ tool_call_id ∷ [];
    }

abbrev pub new_error_state : RepetitionState
new_error_state = record { fingerprint = no_digest; count = 0; seen = []; seen_order = [] }

module _ (sha256 : List ℕ → Digest) where
  -- `toolName \0 status \0 errorCode`, hashed.
  abbrev pub result_digest : ToolResult → Digest
  result_digest r = sha256 (codes r.tool_name ++ (0 ∷ (codes r.status ++ (0 ∷ codes r.error_code))))

  -- The tracker after a result of a run is counted and saved, unless its ID has been seen.
  unfoldable pub after_result : Bool → Tracker → ToolResult → Tracker
  after_result writes t r =
      let (state, cache) =
        find_or_insert max_repetition_runs t.repetitions r.run_id new_error_state in
      if is_some (get state.seen r.tool_call_id)
      then record t { repetitions = cache }
      else let new =
          count_result state (result_digest r) (str_eq r.status "success") r.tool_call_id in
        record t {
          repetitions = store cache r.run_id new;
          saved_tool_error =
              save_repetition_state writes t.saved_tool_error r.run_id new.count
                (r.tool_name ∷ r.error_code ∷ []);
        }

  -- `RecordToolResult`; its decision is always to allow.
  unfoldable pub record_tool_result :
      Bool → Bool → Tracker → ToolResult → Result FeedbackError Tracker
  record_tool_result cancelled writes t r =
      if cancelled
      then err context_done
      else if invalid_tool_result r
      then err invalid_result
      else ok (after_result writes t r)

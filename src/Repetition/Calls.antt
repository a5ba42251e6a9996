-- ===== src/Repetition/Calls.antt =====
-- The calls that a gateway makes of its tracker, in any order, restarts included.
use virgil.Base.{
  ℕ, String, str_eq, Bool, true, Option, none, some, List, [], ◌∷◌, Result, ok, err, is_some, ◌≡◌,
  refl, arith, sym, Bool-cases, inl, inr, all_of,
}
use virgil.Base.Dict.{get}
use virgil.Repetition.{
  Tracker, ToolResult, CallRepetitionState, SavedRepetition, Digest, FeedbackError,
  max_repetition_runs, record_tool_calls, record_calls, record_call, record_provider_outcome,
  record_tool_result, repeated, answer_from, loaded, after_calls, after_outcome, after_result,
  repeated_tool_call, repeated_provider_error, repeated_tool_error, new_call_state, new_error_state,
  tool_fingerprint, call_count, error_count, restored_call, restored_error,
}
use virgil.Repetition.Runs.{Cache, find, store, find_or_insert}
use virgil.Repetition.Bounds.{
  IsBounded, insert-IsBounded, store-IsBounded, find_or_insert-IsBounded,
}

-- A call with whether its context is done, and whether SQLite carries out its write or its read.
pub data Call : Type 0 where
  tool_calls : Bool → Bool → String → List String → Call
  outcome : Bool → Bool → String → String → String → Call
  result : Bool → Bool → ToolResult → Call
  check_calls check_provider check_errors : Bool → String → Call
  restart : Call

-- A process that starts has the table and no cache.
abbrev pub no_cache : {V : Type 0} → Cache V
no_cache = record { entries = []; order = [] }

abbrev pub restarted : Tracker → Tracker
restarted t = record t {
  repetitions = no_cache;
  provider_repetitions = no_cache;
  call_repetitions = no_cache;
}

abbrev pub new_tracker : Tracker
new_tracker = record {
  repetitions = no_cache;
  provider_repetitions = no_cache;
  call_repetitions = no_cache;
  saved_tool_error = [];
  saved_provider_error = [];
  saved_tool_call = [];
}

-- A call that fails leaves the tracker as it was.
abbrev pub or_same : Tracker → Result FeedbackError Tracker → Tracker
or_same t (ok t') = t'
or_same t (err e) = t

module _ (sha256 : List ℕ → Digest) where
  unfoldable pub apply : Tracker → Call → Tracker
  apply t (Call.tool_calls cancelled writes run_id fps) =
      or_same t (record_tool_calls cancelled writes t run_id fps)
  apply t (Call.outcome cancelled writes run_id status code) =
      or_same t (record_provider_outcome cancelled writes t run_id status code)
  apply t (Call.result cancelled writes r) =
      or_same t (record_tool_result sha256 cancelled writes t r)
  apply t (Call.check_calls reads run_id) = (repeated_tool_call reads t run_id).1
  apply t (Call.check_provider reads run_id) = (repeated_provider_error reads t run_id).1
  apply t (Call.check_errors reads run_id) = (repeated_tool_error reads t run_id).1
  apply t Call.restart = restarted t

  unfoldable pub run : Tracker → List Call → Tracker
  unfolding apply
  run t [] = t
  run t (c ∷ cs) = run (apply t c) cs

module _ {V : Type 0} where
  abbrev Fits : Cache V → Type 0
  Fits c = IsBounded max_repetition_runs c

  touched-Fits :
      (c : Cache V) (k : String) (fresh v : V)
      → Fits c
      → Fits (store (find_or_insert max_repetition_runs c k fresh).1 k v)
  touched-Fits c k fresh v b =
      let (b', h) = find_or_insert-IsBounded max_repetition_runs (omega arith) c k fresh b in
      store-IsBounded max_repetition_runs (omega arith) _ k v b' h

  found-Fits :
      (c : Cache V) (k : String) (fresh : V)
      → Fits c
      → Fits (find_or_insert max_repetition_runs c k fresh).1
  found-Fits c k fresh b =
      (find_or_insert-IsBounded max_repetition_runs (omega arith) c k fresh b).0

  answer_from-Fits :
      (count : V → ℕ) (restore : SavedRepetition → V) (row : Option SavedRepetition) (c : Cache V)
      (k : String) (state : Option V)
      → find c k ≡ state
      → Fits c
      → Fits (answer_from count restore row c k state).1
  unfolding answer_from
  answer_from-Fits count restore row c k (some v) e b = b
  answer_from-Fits count restore none c k none e b = b
  answer_from-Fits count restore (some row) c k none e b =
      insert-IsBounded max_repetition_runs (omega arith) c k (restore row) b e

no_cache-Fits : {V : Type 0} → Fits {V = V} no_cache
no_cache-Fits = record { size = omega arith; same = refl; distinct = tt }

record_calls-Fits :
    (c : Cache CallRepetitionState) (k : String) (fps : List String)
    → Fits c
    → Fits (record_calls c k fps)
unfolding record_calls record_call
record_calls-Fits c k [] b = b
record_calls-Fits c k (fp ∷ fps) b =
    record_calls-Fits (record_call c k fp) k fps (touched-Fits c k new_call_state _ b)

-- No cache holds more than 1024 runs, and its order lists exactly the runs that it holds, each once:
-- the run that is dropped from a full cache is always there.
pub record IsTracker (t : Tracker) : Type 0 where
  pub errors : IsBounded max_repetition_runs t.repetitions
  pub outcomes : IsBounded max_repetition_runs t.provider_repetitions
  pub calls : IsBounded max_repetition_runs t.call_repetitions

-- What the calls that are accepted do.
pub tool_calls-ok :
    (t t' : Tracker) (cancelled writes : Bool) (k : String) (fps : List String)
    → record_tool_calls cancelled writes t k fps ≡ ok t'
    → after_calls writes t k fps ≡ t'
unfolding record_tool_calls
tool_calls-ok t t' cancelled writes k fps h = ground arith

pub tool_calls-valid :
    (t t' : Tracker) (cancelled writes : Bool) (k : String) (fps : List String)
    → record_tool_calls cancelled writes t k fps ≡ ok t'
    → all_of tool_fingerprint fps ≡ true
unfolding record_tool_calls
tool_calls-valid t t' cancelled writes k fps h = ground arith

pub outcome-ok :
    (t t' : Tracker) (cancelled writes : Bool) (k status code : String)
    → record_provider_outcome cancelled writes t k status code ≡ ok t'
    → after_outcome writes t k (str_eq status "success") code ≡ t'
unfolding record_provider_outcome
outcome-ok t t' cancelled writes k status code h = ground arith

pub result-ok :
    (sha256 : List ℕ → Digest) (t t' : Tracker) (cancelled writes : Bool) (r : ToolResult)
    → record_tool_result sha256 cancelled writes t r ≡ ok t'
    → after_result sha256 writes t r ≡ t'
unfolding record_tool_result
result-ok sha256 t t' cancelled writes r h = ground arith

tool_calls-IsTracker :
    (t : Tracker) (writes : Bool) (k : String) (fps : List String)
    → IsTracker t
    → IsTracker (after_calls writes t k fps)
unfolding after_calls
tool_calls-IsTracker t writes k fps b = record {
  errors = b.errors;
  outcomes = b.outcomes;
  calls = record_calls-Fits t.call_repetitions k fps b.calls;
}

outcome-IsTracker :
    (t : Tracker) (writes success : Bool) (k code : String)
    → IsTracker t
    → IsTracker (after_outcome writes t k success code)
unfolding after_outcome
outcome-IsTracker t writes success k code b = record {
  errors = b.errors;
  outcomes = touched-Fits t.provider_repetitions k new_call_state _ b.outcomes;
  calls = b.calls;
}

module _ (sha256 : List ℕ → Digest) where
  result-IsTracker :
      (t : Tracker) (writes : Bool) (r : ToolResult)
      → IsTracker t
      → IsTracker (after_result sha256 writes t r)
  unfolding after_result
  result-IsTracker t writes r b =
      elim (Bool-cases (
        is_some (
          get (find_or_insert max_repetition_runs t.repetitions r.run_id new_error_state).0.seen
            r.tool_call_id))) [
              | inl h ↦ rw h (record {
                errors = found-Fits t.repetitions r.run_id new_error_state b.errors;
                outcomes = b.outcomes;
                calls = b.calls;
              })
              | inr h ↦ rw h (record {
                errors = touched-Fits t.repetitions r.run_id new_error_state _ b.errors;
                outcomes = b.outcomes;
                calls = b.calls;
              })
            ]

  or_same-IsTracker :
      (t : Tracker) (e : Result FeedbackError Tracker)
      → IsTracker t
      → ((t' : Tracker) → e ≡ ok t' → IsTracker t')
      → IsTracker (or_same t e)
  or_same-IsTracker t (ok t') b f = f t' refl
  or_same-IsTracker t (err x) b f = b

  apply-IsTracker : (t : Tracker) (c : Call) → IsTracker t → IsTracker (apply sha256 t c)
  unfolding apply repeated_tool_call repeated_provider_error repeated_tool_error repeated
  apply-IsTracker t (Call.tool_calls cancelled writes k fps) b =
      or_same-IsTracker t (record_tool_calls cancelled writes t k fps) b (λ t' h.
        rw (sym (tool_calls-ok t t' cancelled writes k fps h))
          (tool_calls-IsTracker t writes k fps b))
  apply-IsTracker t (Call.outcome cancelled writes k status code) b =
      or_same-IsTracker t (record_provider_outcome cancelled writes t k status code) b (λ t' h.
        rw (sym (outcome-ok t t' cancelled writes k status code h))
          (outcome-IsTracker t writes _ k code b))
  apply-IsTracker t (Call.result cancelled writes r) b =
      or_same-IsTracker t (record_tool_result sha256 cancelled writes t r) b (λ t' h.
        rw (sym (result-ok sha256 t t' cancelled writes r h)) (result-IsTracker t writes r b))
  apply-IsTracker t (Call.check_calls reads k) b = record {
    errors = b.errors;
    outcomes = b.outcomes;
    calls =
        answer_from-Fits call_count restored_call (loaded reads t.saved_tool_call k)
          t.call_repetitions k _ refl b.calls;
  }
  apply-IsTracker t (Call.check_provider reads k) b = record {
    errors = b.errors;
    calls = b.calls;
    outcomes =
        answer_from-Fits call_count restored_call (loaded reads t.saved_provider_error k)
          t.provider_repetitions k _ refl b.outcomes;
  }
  apply-IsTracker t (Call.check_errors reads k) b = record {
    outcomes = b.outcomes;
    calls = b.calls;
    errors =
        answer_from-Fits error_count restored_error (loaded reads t.saved_tool_error k)
          t.repetitions k _ refl b.errors;
  }
  apply-IsTracker t Call.restart b = record {
    errors = no_cache-Fits;
    outcomes = no_cache-Fits;
    calls = no_cache-Fits;
  }

  -- From the start, after any calls, in any order and with any failures, no cache holds more than 1024
  -- runs, and its order lists exactly the runs that it holds, each once, so that the run that a full
  -- cache drops is always there.
  pub run-IsTracker : (t : Tracker) (cs : List Call) → IsTracker t → IsTracker (run sha256 t cs)
  unfolding run
  run-IsTracker t [] b = b
  run-IsTracker t (c ∷ cs) b = run-IsTracker (apply sha256 t c) cs (apply-IsTracker t c b)

pub new_tracker-IsTracker : IsTracker new_tracker
new_tracker-IsTracker = record {
  errors = no_cache-Fits;
  outcomes = no_cache-Fits;
  calls = no_cache-Fits;
}

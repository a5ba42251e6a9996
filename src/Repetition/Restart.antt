-- ===== src/Repetition/Restart.antt =====
-- The caches agree with the table while SQLite carries out the writes, so that a restart changes no
-- verdict.
use virgil.Base.{
  ℕ, String, str_eq, Bool, true, List, [], ◌∷◌, Result, ok, err, is_some, ◌≡◌, refl, arith, sym,
  ◌∙◌, Bool-cases, inl, inr, all_of, All,
}
use virgil.Base.Dict.{Dict, get}
use virgil.Repetition.{
  Tracker, ToolResult, SavedRepetition, Digest, FeedbackError, record_tool_calls,
  record_provider_outcome, record_tool_result, repeated, loaded, after_calls, after_result,
  after_outcome, repeated_tool_call, repeated_provider_error, repeated_tool_error, new_call_state,
  new_error_state, call_count, error_count, restored_call, restored_error, tool_fingerprint,
}
use virgil.Repetition.Runs.{Cache, find}
use virgil.Repetition.Calls.{
  Call, apply, run, restarted, no_cache, new_tracker, or_same, tool_calls-ok, tool_calls-valid,
  outcome-ok, result-ok,
}
use virgil.Repetition.Errors.{seen_found, result_ignored, state_of}
use virgil.Repetition.Sync.{
  InSync, loaded-saved, verdict_kept, answered-InSync, touched-InSync, batch-InSync,
}

-- The three caches of a tracker against the table.
record IsInSync (t : Tracker) : Type 0 where
  errors : InSync error_count t.saved_tool_error t.repetitions
  outcomes : InSync call_count t.saved_provider_error t.provider_repetitions
  calls : InSync call_count t.saved_tool_call t.call_repetitions

no_cache-InSync :
    {V : Type 0} (count : V → ℕ) (rows : Dict SavedRepetition) → InSync count rows no_cache
unfolding InSync find get
no_cache-InSync count rows k v h = ground arith

new-IsInSync : IsInSync new_tracker
new-IsInSync = record {
  errors = no_cache-InSync error_count [];
  outcomes = no_cache-InSync call_count [];
  calls = no_cache-InSync call_count [];
}

same :
    {V : Type 0} (count : V → ℕ) (restore : SavedRepetition → V) (rows : Dict SavedRepetition)
    (c : Cache V) (k : String)
    → InSync count rows c
    → (repeated count restore true rows no_cache k).0 ≡ (repeated count restore true rows c k).0
same count restore rows c k b =
    verdict_kept count restore rows no_cache k (no_cache-InSync count rows)
    ∙ sym (verdict_kept count restore rows c k b)

-- A call whose write, if it has one, is carried out.
abbrev pub IsWritten : Call → Type 0
IsWritten (Call.tool_calls cancelled writes run_id fps) = writes ≡ true
IsWritten (Call.outcome cancelled writes run_id status code) = writes ≡ true
IsWritten (Call.result cancelled writes r) = writes ≡ true
IsWritten _ = Unit

module _ (sha256 : List ℕ → Digest) where
  or_same-IsInSync :
      (t : Tracker) (e : Result FeedbackError Tracker)
      → IsInSync t
      → ((t' : Tracker) → e ≡ ok t' → IsInSync t')
      → IsInSync (or_same t e)
  or_same-IsInSync t (ok t') b f = f t' refl
  or_same-IsInSync t (err x) b f = b

  calls-IsInSync :
      (t : Tracker) (k : String) (fps : List String)
      → all_of tool_fingerprint fps ≡ true
      → IsInSync t
      → IsInSync (after_calls true t k fps)
  unfolding after_calls
  calls-IsInSync t k fps valid b = record {
    errors = b.errors;
    outcomes = b.outcomes;
    calls = batch-InSync t.saved_tool_call t.call_repetitions k fps valid b.calls;
  }

  outcome-IsInSync :
      (t : Tracker) (k : String) (success : Bool) (code : String)
      → IsInSync t
      → IsInSync (after_outcome true t k success code)
  unfolding after_outcome
  outcome-IsInSync t k success code b = record {
    errors = b.errors;
    calls = b.calls;
    outcomes =
        touched-InSync call_count t.saved_provider_error t.provider_repetitions k new_call_state _ _
          b.outcomes;
  }

  result-IsInSync :
      (t : Tracker) (r : ToolResult) → IsInSync t → IsInSync (after_result sha256 true t r)
  unfolding after_result
  result-IsInSync t r b =
      elim (Bool-cases (is_some (get (state_of t r.run_id).seen r.tool_call_id))) [
        | inl h ↦
            let (s, e, seen) = seen_found t r.run_id r.tool_call_id h in
            rw (result_ignored sha256 t true r s e seen) b
        | inr h ↦ rw h (record {
          outcomes = b.outcomes;
          calls = b.calls;
          errors =
              touched-InSync error_count t.saved_tool_error t.repetitions r.run_id new_error_state _
                _ b.errors;
        })
      ]

  apply-IsInSync : (t : Tracker) (c : Call) → IsWritten c → IsInSync t → IsInSync (apply sha256 t c)
  unfolding apply repeated_tool_call repeated_provider_error repeated_tool_error repeated
  apply-IsInSync t (Call.tool_calls cancelled writes k fps) w b =
      or_same-IsInSync t (record_tool_calls cancelled writes t k fps) b (λ t' h.
        rw (sym (tool_calls-ok t t' cancelled writes k fps h), w)
          (calls-IsInSync t k fps (tool_calls-valid t t' cancelled writes k fps h) b))
  apply-IsInSync t (Call.outcome cancelled writes k status code) w b =
      or_same-IsInSync t (record_provider_outcome cancelled writes t k status code) b (λ t' h.
        rw (sym (outcome-ok t t' cancelled writes k status code h), w)
          (outcome-IsInSync t k (str_eq status "success") code b))
  apply-IsInSync t (Call.result cancelled writes r) w b =
      or_same-IsInSync t (record_tool_result sha256 cancelled writes t r) b
        (λ t' h. rw (sym (result-ok sha256 t t' cancelled writes r h), w) (result-IsInSync t r b))
  apply-IsInSync t (Call.check_calls reads k) w b = record {
    errors = b.errors;
    outcomes = b.outcomes;
    calls =
        answered-InSync call_count restored_call t.saved_tool_call t.call_repetitions k
          (loaded reads t.saved_tool_call k) _ (loaded-saved reads t.saved_tool_call k) b.calls;
  }
  apply-IsInSync t (Call.check_provider reads k) w b = record {
    errors = b.errors;
    calls = b.calls;
    outcomes =
        answered-InSync call_count restored_call t.saved_provider_error t.provider_repetitions k
          (loaded reads t.saved_provider_error k) _ (loaded-saved reads t.saved_provider_error k)
          b.outcomes;
  }
  apply-IsInSync t (Call.check_errors reads k) w b = record {
    outcomes = b.outcomes;
    calls = b.calls;
    errors =
        answered-InSync error_count restored_error t.saved_tool_error t.repetitions k
          (loaded reads t.saved_tool_error k) _ (loaded-saved reads t.saved_tool_error k) b.errors;
  }
  apply-IsInSync t Call.restart w b = record {
    errors = no_cache-InSync error_count t.saved_tool_error;
    outcomes = no_cache-InSync call_count t.saved_provider_error;
    calls = no_cache-InSync call_count t.saved_tool_call;
  }

  run-IsInSync :
      (t : Tracker) (cs : List Call) → All IsWritten cs → IsInSync t → IsInSync (run sha256 t cs)
  unfolding run
  run-IsInSync t [] w b = b
  run-IsInSync t (c ∷ cs) (w, ws) b = run-IsInSync (apply sha256 t c) cs ws (apply-IsInSync t c w b)

  -- A restart changes no verdict: after any calls whose writes SQLite carried out, a run is repeated for
  -- a process that starts with empty caches exactly when it is for the process that ran, for tool calls,
  -- provider errors and tool errors alike.
  pub restart-same_verdicts :
      (cs : List Call) (run_id : String)
      → All IsWritten cs
      → let t = run sha256 new_tracker cs in
        ((repeated_tool_call true (restarted t) run_id).0 ≡ (repeated_tool_call true t run_id).0)
        × ((repeated_provider_error true (restarted t) run_id).0
            ≡ (repeated_provider_error true t run_id).0)
        × ((repeated_tool_error true (restarted t) run_id).0
            ≡ (repeated_tool_error true t run_id).0)
  unfolding repeated_tool_call repeated_provider_error repeated_tool_error
  restart-same_verdicts cs k w =
      let t = run sha256 new_tracker cs in
      let b = run-IsInSync new_tracker cs w new-IsInSync in
      (
        same call_count restored_call t.saved_tool_call t.call_repetitions k b.calls,
        same call_count restored_call t.saved_provider_error t.provider_repetitions k b.outcomes,
        same error_count restored_error t.saved_tool_error t.repetitions k b.errors,
      )

-- ===== src/Tests/Repeats.antt =====
-- The repetition counters on concrete data: internal/policies/repetition.go.
use virgil.Base.{ℕ, String, str_eq, true, false, ◌&&◌, List, [], ◌∷◌, ◌++◌, ok, ◌≡◌, refl, length}
use virgil.Base.Text.{is_label_char, is_code_char}
use virgil.Base.Dict.{get}
use virgil.Repetition.{
  Tracker, ToolResult, Digest, record_tool_calls, record_tool_result, repeated_tool_call,
  repeated_tool_error, repeated_provider_error, feedback_run_id, tool_fingerprint, feedback_label,
  feedback_code, after_calls, after_result,
}
use virgil.Repetition.Runs.{find}
use virgil.Repetition.Calls.{
  Call, run, IsTracker, run-IsTracker, new_tracker, new_tracker-IsTracker, restarted,
}
use virgil.Repetition.Streak.{repeated_tool_call-last_three}
use virgil.Repetition.Errors.{is_seen, repeated_tool_error-three}
use virgil.Repetition.Restart.{restart-same_verdicts}

-- A digest that tells texts apart well enough here.
abbrev text_digest : List ℕ → Digest
text_digest cs = length cs ∷ cs

abbrev zeros : String
zeros = "0000000000000000000000000000000000000000000000000000000000000000"

abbrev ones : String
ones = "1111111111111111111111111111111111111111111111111111111111111111"

abbrev after_three : Tracker
after_three = after_calls true new_tracker "run" (ones ∷ zeros ∷ zeros ∷ zeros ∷ [])

three_recorded :
    record_tool_calls false true new_tracker "run" ((ones ∷ []) ++ zeros ∷ zeros ∷ zeros ∷ [])
    ≡ ok after_three
unfolding record_tool_calls feedback_run_id is_label_char tool_fingerprint
three_recorded = refl

repeated_tool_call-last_three_example :
    (repeated_tool_call true after_three "run").0 ≡ (str_eq zeros zeros && str_eq zeros zeros)
repeated_tool_call-last_three_example =
    repeated_tool_call-last_three new_tracker after_three false true true "run" (ones ∷ []) zeros
      zeros zeros three_recorded

abbrev failure : ToolResult
failure = record {
  run_id = "run";
  tool_call_id = "c1";
  tool_name = "search";
  status = "error";
  error_code = "timeout";
}

abbrev one_error : Tracker
one_error = after_result text_digest true new_tracker failure

abbrev two_errors : Tracker
two_errors = after_result text_digest true one_error (record failure { tool_call_id = "c2" })

abbrev three_errors : Tracker
three_errors = after_result text_digest true two_errors (record failure { tool_call_id = "c3" })

first_recorded : record_tool_result text_digest false true new_tracker failure ≡ ok one_error
unfolding record_tool_result feedback_run_id feedback_label feedback_code is_label_char is_code_char
first_recorded = refl

second_recorded :
    record_tool_result text_digest false true one_error (record failure { tool_call_id = "c2" })
    ≡ ok two_errors
unfolding record_tool_result feedback_run_id feedback_label feedback_code is_label_char is_code_char
second_recorded = refl

third_recorded :
    record_tool_result text_digest false true two_errors (record failure { tool_call_id = "c3" })
    ≡ ok three_errors
unfolding record_tool_result feedback_run_id feedback_label feedback_code is_label_char is_code_char
third_recorded = refl

not_seen :
    (is_seen new_tracker "run" "c1" ≡ false)
    × (is_seen new_tracker "run" "c2" ≡ false)
    × (is_seen new_tracker "run" "c3" ≡ false)
unfolding is_seen find get
not_seen = (refl, refl, refl)

repeated_tool_error-three_example : (repeated_tool_error true three_errors "run").0 ≡ true
repeated_tool_error-three_example =
    repeated_tool_error-three text_digest new_tracker one_error two_errors three_errors true true
      true true failure "c1" "c2" "c3" refl not_seen.0 not_seen.1 not_seen.2 refl refl refl
      first_recorded second_recorded third_recorded

abbrev history : List Call
history =
    Call.tool_calls false true "run" (zeros ∷ zeros ∷ zeros ∷ [])
    ∷ Call.result false true failure
    ∷ Call.restart
    ∷ Call.check_calls false "run"
    ∷ Call.outcome false true "other" "error" "timeout"
    ∷ []

restart-same_verdicts_example :
    let t = run text_digest new_tracker history in
    ((repeated_tool_call true (restarted t) "run").0 ≡ (repeated_tool_call true t "run").0)
    × ((repeated_provider_error true (restarted t) "run").0
        ≡ (repeated_provider_error true t "run").0)
    × ((repeated_tool_error true (restarted t) "run").0 ≡ (repeated_tool_error true t "run").0)
restart-same_verdicts_example =
    restart-same_verdicts text_digest history "run" (refl, (refl, (tt, (tt, (refl, tt)))))

run-IsTracker_example : IsTracker (run text_digest new_tracker history)
run-IsTracker_example = run-IsTracker text_digest new_tracker history new_tracker-IsTracker

-- ===== src/Tests/Policy.antt =====
-- The policy engine and its counters on concrete data: internal/policies and
-- internal/storage/policy_counters.go.
use virgil.Base.{
  List, ℕ, String, is_empty, str_eq, true, false, some, [], ◌∷◌, ok, err, ◌≡◌, ◌≢◌, ◌↔◌, refl,
  arith,
}
use virgil.Base.Dict.{get, put}
use virgil.Base.Int.{pos, negsuc, ◌+ℤ◌, ◌-ℤ◌, wrap_int64}
use virgil.Cost.{decimal_codes, float_string}
use virgil.Cost.Digits.{decimal_codes-float_string}
use virgil.Counters.Checked.{IsPlanned}
use virgil.Counters.Reserve.{run_of, IsUnder}
use virgil.Counters.Granted.{IsWithin, reserve-granted, reserve-refused, duration_wraps}
use virgil.Counters.Ledger.{IsLedger, empty-IsLedger, reserve-IsLedger}
use virgil.Counters.Settling.{reconcile-IsLedger}
use virgil.Counters.Once.{reconcile-no_underflow}
use virgil.Counters.Later.{Call, run, reconcile_once}
use virgil.Counters.{
  over_calls, exceeds, over_cost, policy_decimal, actual_cost, underflow, unknown_run,
  PolicyReserve, PolicyReserveResult, PolicyOutcome, PolicyRun, Reservation, Counters, amount,
  reserve_policy, reconcile_policy_tx, settle, checked_add, limit_hit, next_counters, decide,
  duration_ns, over_duration, reservation_of, Next,
}

abbrev request : PolicyReserve
request = record {
  run_id = "run";
  reservation_id = "r1";
  started_at = 5;
  input_tokens = pos 10;
  output_tokens = pos 20;
  tool_calls = pos 1;
  cost_usd = amount (pos 100);
  max_calls = pos 1;
  max_input_tokens = pos 50;
  max_output_tokens = pos 50;
  max_total_tokens = pos 60;
  max_tool_calls = pos 2;
  max_duration_seconds = pos 60;
  max_cost_usd = amount (pos 500);
}

abbrev no_counters : Counters
no_counters = record { runs = []; reservations = []; daily = [] }

abbrev first_run : PolicyRun
first_run = record {
  started_at_unix_ns = 5;
  calls = pos 1;
  input_tokens = pos 10;
  output_tokens = pos 20;
  tool_calls = pos 1;
  cost_usd = pos 100;
}

abbrev first_reservation : Reservation
first_reservation = record {
  run_id = "run";
  input_tokens = pos 10;
  output_tokens = pos 20;
  tool_calls = pos 1;
  cost_usd = pos 100;
  reconciled = false;
}

abbrev charged_counters : Counters
charged_counters = record {
  runs = ("run", first_run) ∷ [];
  reservations = ("r1", first_reservation) ∷ [];
  daily = [];
}

abbrev granted_first : PolicyReserveResult
granted_first = record { reason = ""; policy = ""; attempt = pos 1; threshold = pos 0 }

first_call : reserve_policy no_counters request 5 ≡ ok (granted_first, charged_counters)
unfolding reserve_policy checked_add next_counters limit_hit decide get put duration_ns
    over_duration wrap_int64 ◌+ℤ◌ ◌-ℤ◌ over_calls exceeds over_cost
first_call = refl

reserve-granted_example :
    ((row : PolicyRun) × (get charged_counters.runs "run" ≡ some row) × IsWithin request row 5)
    × ((estimate : ℕ) × (policy_decimal request.cost_usd ≡ some estimate)
        × (get charged_counters.reservations "r1" ≡ some (reservation_of request estimate)))
    × ((k : String) → str_eq "run" k ≡ false → get charged_counters.runs k ≡ get no_counters.runs k)
    × ((k : String)
        → str_eq "r1" k ≡ false
        → get charged_counters.reservations k ≡ get no_counters.reservations k)
reserve-granted_example =
    reserve-granted no_counters request 5 granted_first charged_counters first_call refl

-- The run may make one call, so that the second one is refused.
abbrev second_request : PolicyReserve
second_request = record request { reservation_id = "r2" }

abbrev call_limit : PolicyReserveResult
call_limit = record {
  reason = "call_limit";
  policy = "max_requests_per_run";
  attempt = pos 2;
  threshold = pos 1;
}

second_call : reserve_policy charged_counters second_request 6 ≡ ok (call_limit, charged_counters)
unfolding reserve_policy checked_add next_counters limit_hit decide get put duration_ns
    over_duration wrap_int64 ◌+ℤ◌ ◌-ℤ◌ over_calls exceeds over_cost
second_call = refl

reserve-refused_example :
    (next : Next) × (estimate : ℕ) × IsPlanned second_request
      (run_of charged_counters second_request)
      next
      estimate
    × ((is_empty call_limit.reason ≡ false)
        ↔ (¬ IsUnder second_request (run_of charged_counters second_request) next 6))
    × (is_empty call_limit.reason ≡ false → charged_counters ≡ charged_counters)
reserve-refused_example =
    reserve-refused charged_counters second_request 6 call_limit charged_counters second_call

reserve-IsLedger_example : IsLedger charged_counters
reserve-IsLedger_example =
    reserve-IsLedger no_counters request 5 granted_first charged_counters empty-IsLedger first_call

charged-IsLedger : IsLedger charged_counters
charged-IsLedger =
    reserve-IsLedger no_counters request 5 granted_first charged_counters empty-IsLedger first_call

-- The call used fewer tokens than were reserved.
abbrev outcome : PolicyOutcome
outcome = record {
  run_id = "run";
  reservation_id = "r1";
  input_tokens = pos 7;
  output_tokens = negsuc 0;
  tool_calls = pos 0;
  cost_usd = amount (pos 60);
}

abbrev settled_counters : Counters
settled_counters = record {
  runs =
      ("run", record first_run { input_tokens = pos 7; tool_calls = pos 0; cost_usd = pos 60 })
      ∷ [];
  reservations =
      (
        "r1",
        record first_reservation {
          input_tokens = pos 7;
          tool_calls = pos 0;
          cost_usd = pos 60;
          reconciled = true;
        },
      )
      ∷ [];
  daily = [];
}

first_outcome : reconcile_policy_tx charged_counters outcome ≡ ok settled_counters
unfolding reconcile_policy_tx settle checked_add get put ◌+ℤ◌ ◌-ℤ◌ actual_cost
first_outcome = refl

reconcile-IsLedger_example : IsLedger settled_counters
reconcile-IsLedger_example =
    reconcile-IsLedger charged_counters outcome settled_counters charged-IsLedger first_outcome

abbrev later_outcome : PolicyOutcome
later_outcome = record outcome { input_tokens = pos 9000 }

-- Another call of the run is reserved, and the first one is reported again.
abbrev in_between : List Call
in_between =
    Call.reserves (record request { reservation_id = "r2" }) 6
    ∷ Call.increments "today" (amount (pos 60))
    ∷ Call.reconciles later_outcome
    ∷ []

reconcile_once_example :
    reconcile_policy_tx (run settled_counters in_between) later_outcome
    ≡ ok (run settled_counters in_between)
reconcile_once_example =
    reconcile_once charged_counters settled_counters outcome later_outcome in_between first_outcome
      refl refl

reconcile-no_underflow_example :
    (reconcile_policy_tx charged_counters outcome ≢ err underflow)
    × (reconcile_policy_tx charged_counters outcome ≢ err unknown_run)
reconcile-no_underflow_example = reconcile-no_underflow charged_counters outcome charged-IsLedger

-- A day that has two calls already.
abbrev busy_counters : Counters
busy_counters = record no_counters {
  daily = ("today", record { calls = pos 2; cost_usd = pos 5 }) ∷ [];
}

abbrev busier_counters : Counters
busier_counters = record no_counters {
  daily = ("today", record { calls = pos 3; cost_usd = pos 12 }) ∷ [];
}

-- Ten billion seconds wrap to a negative duration.
duration_wraps_example :
    over_duration (record request { max_duration_seconds = pos 10000000000 }) first_run 6 ≡ true
duration_wraps_example =
    duration_wraps (record request { max_duration_seconds = pos 10000000000 }) first_run 10000000000
      6 refl (omega arith) (omega arith)

decimal_codes-float_string_example : decimal_codes (float_string 20000000005) ≡ some 20000000005
decimal_codes-float_string_example = decimal_codes-float_string 20000000005

-- ===== src/Counters.antt =====
-- internal/storage/policy_counters.go: the counters of each run, the reservations made against
-- them before a call and settled after it, and the daily counters of the installation.
-- A transaction that returns before `Commit` is rolled back, so an error leaves no new state. A
-- `cost_usd` column holds what `RatString` prints, and is modelled by the amount it stands for.
pub mod Checked
pub mod Reserve
pub mod Granted
pub mod Totals
pub mod Ledger
pub mod Reconcile
pub mod Settling
pub mod Once
pub mod Later
pub mod Daily
use virgil.Base.{
  ℕ, zero, suc, ◌+◌, ◌*◌, ◌%◌, ltb, leb, ◌==◌, String, is_empty, str_eq, if◌then◌else◌, Bool, true,
  false, ◌&&◌, ◌||◌, not, Option, none, some, List, [], ◌∷◌, Result, ok, err, ◌>>=◌, ◌>>◌, fail_if,
  or_fail, is_some,
}
use virgil.Base.Dict.{Dict, get, put}
use virgil.Base.Int.{
  ℤ, pos, negsuc, ◌+ℤ◌, ◌-ℤ◌, is_negative, is_positive, ltb_ℤ, leb_ℤ, eq_ℤ, max_int64, wrap_int64,
}

-- A cost as a text: empty, unreadable for `SetString`, or an amount in units of 10^-10 dollars.
pub data CostText : Type 0 where
  empty malformed : CostText
  amount : ℤ → CostText

pub record PolicyReserve : Type 0 where
  pub run_id : String
  pub reservation_id : String
  pub started_at : ℕ
  pub input_tokens : ℤ
  pub output_tokens : ℤ
  pub tool_calls : ℤ
  pub cost_usd : CostText
  pub max_calls : ℤ
  pub max_input_tokens : ℤ
  pub max_output_tokens : ℤ
  pub max_total_tokens : ℤ
  pub max_tool_calls : ℤ
  pub max_duration_seconds : ℤ
  pub max_cost_usd : CostText

pub record PolicyReserveResult : Type 0 where
  pub reason : String
  pub policy : String
  pub attempt : ℤ
  pub threshold : ℤ

-- -1 for a count that is unavailable, and the empty cost, keep the reserved estimate.
pub record PolicyOutcome : Type 0 where
  pub run_id : String
  pub reservation_id : String
  pub input_tokens : ℤ
  pub output_tokens : ℤ
  pub tool_calls : ℤ
  pub cost_usd : CostText

-- A row of `policy_runs`.
pub record PolicyRun : Type 0 where
  pub started_at_unix_ns : ℕ
  pub calls : ℤ
  pub input_tokens : ℤ
  pub output_tokens : ℤ
  pub tool_calls : ℤ
  pub cost_usd : ℤ

-- A row of `policy_reservations`.
pub record Reservation : Type 0 where
  pub run_id : String
  pub input_tokens : ℤ
  pub output_tokens : ℤ
  pub tool_calls : ℤ
  pub cost_usd : ℤ
  pub reconciled : Bool

-- A row of `installation_daily_counters`.
pub record DailyCounter : Type 0 where
  pub calls : ℤ
  pub cost_usd : ℤ

pub record Counters : Type 0 where
  pub runs : Dict PolicyRun
  pub reservations : Dict Reservation
  pub daily : Dict DailyCounter

pub data CounterError : Type 0 where
  ids_required overflow negative_tool_calls invalid_cost duplicate_reservation : CounterError
  unknown_reservation unknown_run underflow : CounterError

-- The loop of `checkedAdd`.
checked_from : ℤ → List ℤ → Option ℤ
checked_from total [] = some total
checked_from total (v ∷ vs) =
    let rest = checked_from (total +ℤ v) vs in
    if is_negative v || ltb_ℤ (pos max_int64 -ℤ v) total then none else rest

unfoldable pub checked_add : List ℤ → Option ℤ
unfolding checked_from
checked_add values = checked_from (pos 0) values

-- `policyDecimal`, of a text that is empty or a number of units: what `decimal` has accepted, or what
-- `FloatString(10)` has written.
abbrev pub policy_decimal : CostText → Option ℕ
policy_decimal empty = some 0
policy_decimal malformed = none
policy_decimal (amount (pos n)) = some n
policy_decimal (amount (negsuc n)) = none

abbrev pub is_no_cost : CostText → Bool
is_no_cost empty = true
is_no_cost _ = false

-- The row that `INSERT OR IGNORE` leaves for the run.
abbrev pub run_or_new : Option PolicyRun → ℕ → PolicyRun
run_or_new (some run) started = run
run_or_new none started = record {
  started_at_unix_ns = started;
  calls = pos 0;
  input_tokens = pos 0;
  output_tokens = pos 0;
  tool_calls = pos 0;
  cost_usd = pos 0;
}

-- `time.Duration(MaxDurationSeconds) * time.Second`, an `int64` of nanoseconds. It is read for a
-- positive limit only.
unfoldable pub duration_ns : ℤ → ℤ
duration_ns (pos n) = wrap_int64 (n * 1000000000)
duration_ns (negsuc n) = negsuc 0

abbrev pub refused : String → String → ℤ → ℤ → Option PolicyReserveResult
refused reason policy attempt threshold =
    some (record { reason = reason; policy = policy; attempt = attempt; threshold = threshold })

-- The counters that the call would lead to.
pub record Next : Type 0 where
  pub input : ℤ
  pub output : ℤ
  pub tools : ℤ
  pub total : ℤ
  pub cost : ℕ
  pub cap : ℕ

-- `limit > 0 && value > limit`.
unfoldable pub exceeds : ℤ → ℤ → Bool
exceeds limit value = is_positive limit && ltb_ℤ limit value

unfoldable pub over_duration : PolicyReserve → PolicyRun → ℕ → Bool
over_duration r run now =
    is_positive r.max_duration_seconds
    && ltb_ℤ (duration_ns r.max_duration_seconds) (pos now -ℤ pos run.started_at_unix_ns)

unfoldable pub over_calls : PolicyReserve → PolicyRun → Bool
over_calls r run = is_positive r.max_calls && leb_ℤ r.max_calls run.calls

unfoldable pub over_cost : PolicyReserve → Next → Bool
over_cost r next = not (is_no_cost r.max_cost_usd) && ltb next.cap next.cost

-- The first limit that the call would exceed, in the order of the code.
unfoldable pub limit_hit : PolicyReserve → PolicyRun → Next → ℕ → Option PolicyReserveResult
limit_hit r run next now =
    let attempt = run.calls +ℤ pos 1 in
    if over_duration r run now
    then refused "duration_limit" "max_duration_seconds" attempt r.max_duration_seconds
    else if over_calls r run
    then refused "call_limit" "max_requests_per_run" attempt r.max_calls
    else if exceeds r.max_input_tokens next.input
    then refused "input_token_limit" "max_input_tokens_per_run" attempt r.max_input_tokens
    else if exceeds r.max_output_tokens next.output
    then refused "output_token_limit" "max_output_tokens_per_run" attempt r.max_output_tokens
    else if exceeds r.max_total_tokens next.total
    then refused "total_token_limit" "max_total_tokens_per_run" attempt r.max_total_tokens
    else if exceeds r.max_tool_calls next.tools
    then refused "tool_call_limit" "max_tool_calls_per_run" attempt r.max_tool_calls
    else if over_cost r next
    then refused "cost_limit" "max_cost_per_run_usd" attempt (pos 0)
    else none

-- The two writes of an admitted call.
abbrev pub charged : PolicyReserve → PolicyRun → ℕ → PolicyRun
charged r run cost = record run {
  calls = run.calls +ℤ pos 1;
  input_tokens = run.input_tokens +ℤ r.input_tokens;
  output_tokens = run.output_tokens +ℤ r.output_tokens;
  tool_calls = run.tool_calls +ℤ r.tool_calls;
  cost_usd = pos cost;
}

abbrev pub reservation_of : PolicyReserve → ℕ → Reservation
reservation_of r estimate = record {
  run_id = r.run_id;
  input_tokens = r.input_tokens;
  output_tokens = r.output_tokens;
  tool_calls = r.tool_calls;
  cost_usd = pos estimate;
  reconciled = false;
}

abbrev pub charge : Counters → PolicyReserve → PolicyRun → ℕ → ℕ → Counters
charge s r run cost estimate = record s {
  runs = put s.runs r.run_id (charged r run cost);
  reservations = put s.reservations r.reservation_id (reservation_of r estimate);
}

-- The reads of `ReservePolicy`, up to its first limit.
unfoldable pub next_counters : PolicyReserve → PolicyRun → Result CounterError (Next × ℕ)
next_counters r run = do
  fail_if (is_empty r.run_id || is_empty r.reservation_id) ids_required
  _ ← or_fail (checked_add (r.input_tokens ∷ r.output_tokens ∷ [])) overflow
  fail_if (is_negative r.tool_calls) negative_tool_calls
  estimate ← or_fail (policy_decimal r.cost_usd) invalid_cost
  cap ← or_fail (policy_decimal r.max_cost_usd) invalid_cost
  current ← or_fail (policy_decimal (amount run.cost_usd)) invalid_cost
  input ← or_fail (checked_add (run.input_tokens ∷ r.input_tokens ∷ [])) overflow
  output ← or_fail (checked_add (run.output_tokens ∷ r.output_tokens ∷ [])) overflow
  tools ← or_fail (checked_add (run.tool_calls ∷ r.tool_calls ∷ [])) overflow
  total ← or_fail (checked_add (input ∷ output ∷ [])) overflow
  fail_if (eq_ℤ run.calls (pos max_int64)) overflow
  ok (
    record {
      input = input;
      output = output;
      tools = tools;
      total = total;
      cost = current + estimate;
      cap = cap;
    },
    estimate,
  )

abbrev pub granted : PolicyRun → PolicyReserveResult
granted run = record { reason = ""; policy = ""; attempt = run.calls +ℤ pos 1; threshold = pos 0 }

-- Refused with the state as it was, or charged; a reservation ID that is in use is a primary key
-- conflict.
unfoldable pub decide :
    Counters
    → PolicyReserve
    → PolicyRun
    → Next
    → ℕ
    → Option PolicyReserveResult
    → Result CounterError (PolicyReserveResult × Counters)
decide s r run next estimate (some refusal) = ok (refusal, s)
decide s r run next estimate none =
    if is_some (get s.reservations r.reservation_id)
    then err duplicate_reservation
    else ok (granted run, charge s r run next.cost estimate)

-- `ReservePolicy` at the time `now`.
unfoldable pub reserve_policy :
    Counters → PolicyReserve → ℕ → Result CounterError (PolicyReserveResult × Counters)
reserve_policy s r now = do
  let run = run_or_new (get s.runs r.run_id) r.started_at
  planned ← next_counters r run
  decide s r run planned.0 planned.1 (limit_hit r run planned.0 now)

-- The actual count, or the reserved one if there is none.
abbrev pub actual_or : ℤ → ℤ → ℤ
actual_or actual reserved = if is_negative actual then reserved else actual

unfoldable pub actual_cost : CostText → ℕ → Option ℕ
actual_cost empty reserved = some reserved
actual_cost c reserved = policy_decimal c

-- The counters and the cost after an outcome.
pub record Settled : Type 0 where
  pub run : PolicyRun
  pub reservation : Reservation

unfoldable pub settle : PolicyOutcome → PolicyRun → Reservation → Result CounterError Settled
settle o run old = do
  current ← or_fail (policy_decimal (amount run.cost_usd)) invalid_cost
  reserved ← or_fail (policy_decimal (amount old.cost_usd)) invalid_cost
  cost ← or_fail (actual_cost o.cost_usd reserved) invalid_cost
  let input = actual_or o.input_tokens old.input_tokens
  let output = actual_or o.output_tokens old.output_tokens
  let tools = actual_or o.tool_calls old.tool_calls
  _ ← or_fail (checked_add (input ∷ output ∷ [])) overflow
  fail_if (is_negative tools) negative_tool_calls
  fail_if
      (ltb_ℤ run.input_tokens old.input_tokens
        || ltb_ℤ run.output_tokens old.output_tokens
        || ltb_ℤ run.tool_calls old.tool_calls)
      underflow
  next_input ← or_fail (checked_add ((run.input_tokens -ℤ old.input_tokens) ∷ input ∷ [])) overflow
  next_output ←
      or_fail (checked_add ((run.output_tokens -ℤ old.output_tokens) ∷ output ∷ [])) overflow
  next_tools ← or_fail (checked_add ((run.tool_calls -ℤ old.tool_calls) ∷ tools ∷ [])) overflow
  _ ← or_fail (checked_add (next_input ∷ next_output ∷ [])) overflow
  ok (record {
    run = record run {
      input_tokens = next_input;
      output_tokens = next_output;
      tool_calls = next_tools;
      cost_usd = pos current -ℤ pos reserved +ℤ pos cost;
    };
    reservation = record old {
      input_tokens = input;
      output_tokens = output;
      tool_calls = tools;
      cost_usd = pos cost;
      reconciled = true;
    };
  })

abbrev pub store_settled : Counters → PolicyOutcome → Settled → Counters
store_settled s o new = record s {
  runs = put s.runs o.run_id new.run;
  reservations = put s.reservations o.reservation_id new.reservation;
}

-- `reconcilePolicyTx`: the reservation is looked up by its ID and its run, and is settled once.
reconcile_found : Counters → PolicyOutcome → Option Reservation → Result CounterError Counters
reconcile_found s o none = err unknown_reservation
reconcile_found s o (some old) =
    if not (str_eq old.run_id o.run_id)
    then err unknown_reservation
    else if old.reconciled
    then ok s
    else do
      run ← or_fail (get s.runs o.run_id) unknown_run
      new ← settle o run old
      ok (store_settled s o new)

unfoldable pub reconcile_policy_tx : Counters → PolicyOutcome → Result CounterError Counters
unfolding reconcile_found
reconcile_policy_tx s o = reconcile_found s o (get s.reservations o.reservation_id)

unfoldable pub reconcile_policy : Counters → PolicyOutcome → Result CounterError Counters
reconcile_policy s o = do
  fail_if (is_empty o.reservation_id || is_empty o.run_id) ids_required
  reconcile_policy_tx s o

-- `ReadDailyCounters` for a day.
unfoldable pub read_daily_counters : Counters → String → Result CounterError (ℤ × ℕ)
read_daily_counters s day = elim (get s.daily day) [
  | none ↦ ok (pos 0, 0)
  | some row ↦ do
    cost ← or_fail (policy_decimal (amount row.cost_usd)) invalid_cost
    ok (row.calls, cost)
]

-- `incrementDailyCountersTx` for a day.
unfoldable pub increment_daily_counters :
    Counters → String → CostText → Result CounterError Counters
increment_daily_counters s day cost_usd = do
  cost ← or_fail (policy_decimal cost_usd) invalid_cost
  elim (get s.daily day) [
    | none ↦
        ok (record s { daily = put s.daily day (record { calls = pos 1; cost_usd = pos cost }) })
    | some row ↦ do
      existing ← or_fail (policy_decimal (amount row.cost_usd)) invalid_cost
      ok (record s {
        daily =
            put s.daily day
              (record { calls = row.calls +ℤ pos 1; cost_usd = pos (existing + cost) });
      })
  ]

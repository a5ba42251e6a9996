-- ===== src/Engine.antt =====
-- internal/policies/policy.go (`Engine`) and internal/storage/remote_policy.go: what is asked of the
-- policy before and after each call to a provider, and how a remote policy comes into force.
-- `Chance` holds what a call takes from outside: random IDs, the clock, and whether SQLite answers.
pub mod Admission
pub mod Checks
pub mod Remote
pub mod After
use virgil.Base.{
  ℕ, ◌+◌, ltb, leb, String, is_empty, if◌then◌else◌, Bool, true, false, ◌&&◌, ◌||◌, not, Option,
  none, some, List, [], ◌∷◌, ◌++◌, Result, ok, err, is_nil, is_some,
}
use virgil.Base.Int.{ℤ, pos, negsuc, ◌+ℤ◌, is_negative, is_positive, ltb_ℤ, leb_ℤ}
use virgil.Cost.{decimal}
use virgil.Limits.{Limits, PolicyEnvelope, PolicyError, allowed, merge}
use virgil.Counters.{
  CostText, Counters, CounterError, PolicyReserve, PolicyReserveResult, PolicyOutcome,
  reserve_policy, reconcile_policy, read_daily_counters, increment_daily_counters, empty, malformed,
  amount,
}
use virgil.Repetition.{
  Tracker, feedback_run_id, repeated_tool_error, repeated_provider_error, repeated_tool_call,
}

pub record RequestFacts : Type 0 where
  pub run_id : String
  pub provider : String
  pub model : String
  pub tool_names : List String
  -- `none` for the zero time.
  pub started_at : Option ℕ
  pub estimated_cost_usd : String
  pub estimated_input_tokens : Option ℤ
  pub estimated_output_tokens : Option ℤ

pub record OutcomeFacts : Type 0 where
  pub run_id : String
  pub reservation_id : String
  pub input_tokens : Option ℤ
  pub output_tokens : Option ℤ
  pub cost_usd : String
  pub tool_calls : Option ℤ

pub record Decision : Type 0 where
  pub decision : String
  pub reason : String
  pub policy : String
  pub attempt : ℤ
  pub threshold : ℤ
  pub run_id : String
  pub reservation_id : String

-- The row of `remote_policy_cache`.
pub record CachedPolicy : Type 0 where
  pub version : ℤ
  pub payload : List ℕ

pub record Engine : Type 0 where
  pub local_limits : Limits
  pub limits : Limits
  pub last_remote_version : ℤ
  pub tracker : Tracker
  pub counters : Counters
  pub remote_policy_cache : Option CachedPolicy

pub record Chance : Type 0 where
  pub run_id : Option String
  pub reservation_id : Option String
  pub now : ℕ
  pub day : String
  pub reads_tool_errors : Bool
  pub reads_provider_errors : Bool
  pub reads_tool_calls : Bool
  pub reads_daily : Bool
  pub reserves : Bool

pub data EngineError : Type 0 where
  no_random invalid_cost_estimate database_error invalid_limit negative_estimate : EngineError
  reservation_id_required negative_usage invalid_actual_cost : EngineError
  empty_payload stale_cache : EngineError
  counter : CounterError → EngineError
  merge_error : PolicyError → EngineError

-- `NewEngine` on the state that the database holds.
unfoldable pub new_engine :
    Tracker → Counters → Option CachedPolicy → Limits → Result EngineError Engine
new_engine tracker counters cached l =
    if is_negative l.max_calls_per_run
      || is_negative l.max_input_tokens_per_run
      || is_negative l.max_output_tokens_per_run
      || is_negative l.max_total_tokens_per_run
      || is_negative l.max_duration_seconds
      || is_negative l.max_tool_calls_per_run
      || is_negative l.max_calls_per_day
    then err invalid_limit
    else if not (is_some (decimal l.max_cost_per_run_usd))
    then err invalid_limit
    else if not (is_some (decimal l.max_cost_per_day_usd))
    then err invalid_limit
    else ok (record {
      local_limits = l;
      limits = l;
      last_remote_version = pos 0;
      tracker = tracker;
      counters = counters;
      remote_policy_cache = cached;
    })

-- A cost that has passed `decimal`, as `policyDecimal` reads it.
unfoldable pub cost_text : String → CostText
cost_text s =
    if is_empty s then empty else elim (decimal s) [ none ↦ malformed | some c ↦ amount (pos c) ]

-- `telemetry.ResolveRunID`: the candidate if it is a label, or else a random ID.
abbrev pub resolve_run_id : String → Option String → Option String
resolve_run_id candidate random = if feedback_run_id candidate then some candidate else random

abbrev pub block : String → String → String → ℤ → ℤ → Decision
block run_id reason policy attempt threshold = record {
  decision = "block";
  reason = reason;
  policy = policy;
  attempt = attempt;
  threshold = threshold;
  run_id = run_id;
  reservation_id = "";
}

-- A check that blocks, or else the next one with the caches that it leaves.
first_of :
    Bool × Tracker → Decision → (Tracker → Option Decision × Tracker) → Option Decision × Tracker
first_of (true, t) d next = (some d, t)
first_of (false, t) d next = next t

-- The three checks for repetitions, in their order, and the caches as they leave them.
unfoldable pub repetition_block : Chance → Tracker → String → Option Decision × Tracker
unfolding first_of
repetition_block w t run_id =
    first_of (repeated_tool_error w.reads_tool_errors t run_id)
      (block run_id "repeated_tool_error" "repeated_error_limit" (pos 4) (pos 3))
      (λ t1.
        first_of (repeated_provider_error w.reads_provider_errors t1 run_id)
          (block run_id "repeated_provider_error" "repeated_error_limit" (pos 4) (pos 3))
          (λ t2.
            first_of (repeated_tool_call w.reads_tool_calls t2 run_id)
              (block run_id "repeated_tool_call" "repeated_call_limit" (pos 4) (pos 3))
              (λ t3. (none, t3))))

unfoldable pub tools_forbidden : Limits → List String → Bool
tools_forbidden limits [] = false
tools_forbidden limits (name ∷ names) =
    limits.deny_tools || not (allowed limits.allowed_tools name) || tools_forbidden limits names

-- The checks against the lists of the policy.
unfoldable pub list_block : Limits → RequestFacts → String → Option Decision
unfolding tools_forbidden
list_block limits facts run_id =
    if limits.deny_providers || not (allowed limits.allowed_providers facts.provider)
    then some (block run_id "provider_not_allowed" "allowed_providers" (pos 0) (pos 0))
    else if limits.deny_models || not (allowed limits.allowed_models facts.model)
    then some (block run_id "model_not_allowed" "allowed_models" (pos 0) (pos 0))
    else if tools_forbidden limits facts.tool_names
    then some (block run_id "tool_not_allowed" "allowed_tools" (pos 0) (pos 0))
    else none

-- The budget of the day, against what has been settled.
over_budget : ℕ → Option ℕ → Option ℕ → String → Result EngineError (Option Decision)
over_budget daily none estimate run_id = err invalid_limit
over_budget daily (some cap) none run_id = err invalid_cost_estimate
over_budget daily (some cap) (some estimate) run_id =
    if ltb 0 cap && ltb cap (daily + estimate)
    then ok (some (block run_id "daily_cost_limit" "max_cost_per_day_usd" (pos 0) (pos 0)))
    else ok none

daily_counted :
    Limits
    → RequestFacts
    → String
    → Result CounterError (ℤ × ℕ)
    → Result EngineError (Option Decision)
unfolding over_budget
daily_counted limits facts run_id (err x) = err (counter x)
daily_counted limits facts run_id (ok (calls, cost)) =
    if is_positive limits.max_calls_per_day && leb_ℤ limits.max_calls_per_day calls
    then ok (
        some (
          block run_id "daily_call_limit" "max_calls_per_day" (calls +ℤ pos 1)
            limits.max_calls_per_day))
    else if is_empty limits.max_cost_per_day_usd
    then ok none
    else over_budget cost (decimal limits.max_cost_per_day_usd) (decimal facts.estimated_cost_usd)
        run_id

unfoldable pub daily_block :
    Limits → Counters → Chance → RequestFacts → String → Result EngineError (Option Decision)
unfolding daily_counted
daily_block limits counters w facts run_id =
    if not (is_positive limits.max_calls_per_day) && is_empty limits.max_cost_per_day_usd
    then ok none
    else if not w.reads_daily
    then err database_error
    else daily_counted limits facts run_id (read_daily_counters counters w.day)

abbrev pub or_zero : Option ℤ → ℤ
or_zero none = pos 0
or_zero (some n) = n

abbrev pub or_now : Option ℕ → ℕ → ℕ
or_now none now = now
or_now (some t) now = t

-- What `Preflight` asks `ReservePolicy` for.
unfoldable pub reserve_request : Limits → RequestFacts → Chance → String → String → PolicyReserve
reserve_request limits facts w run_id reservation_id = record {
  run_id = run_id;
  reservation_id = reservation_id;
  started_at = or_now facts.started_at w.now;
  input_tokens = or_zero facts.estimated_input_tokens;
  output_tokens = or_zero facts.estimated_output_tokens;
  tool_calls = if is_nil facts.tool_names then pos 0 else pos 1;
  cost_usd = cost_text facts.estimated_cost_usd;
  max_calls = limits.max_calls_per_run;
  max_input_tokens = limits.max_input_tokens_per_run;
  max_output_tokens = limits.max_output_tokens_per_run;
  max_total_tokens = limits.max_total_tokens_per_run;
  max_tool_calls = limits.max_tool_calls_per_run;
  max_duration_seconds = limits.max_duration_seconds;
  max_cost_usd = cost_text limits.max_cost_per_run_usd;
}

-- The decision that a reservation comes to.
unfoldable pub reserved_decision : String → String → PolicyReserveResult → Decision
reserved_decision run_id reservation_id r =
    if is_empty r.reason
    then record {
      decision = "allow";
      reason = "";
      policy = "";
      attempt = r.attempt;
      threshold = pos 0;
      run_id = run_id;
      reservation_id = reservation_id;
    }
    else block run_id r.reason r.policy r.attempt r.threshold

abbrev pub Answer : Type 0
Answer = Result EngineError (Decision × Counters)

reserved : String → String → Result CounterError (PolicyReserveResult × Counters) → Answer
unfolding reserved_decision
reserved run_id reservation_id (err x) = err (counter x)
reserved run_id reservation_id (ok (r, counters)) =
    ok (reserved_decision run_id reservation_id r, counters)

pub reserve_with : Limits → Counters → Chance → RequestFacts → String → Option String → Answer
unfolding reserve_request reserved
reserve_with limits counters w facts run_id none = err no_random
reserve_with limits counters w facts run_id (some id) =
    if not w.reserves
    then err database_error
    else reserved run_id id
        (reserve_policy counters (reserve_request limits facts w run_id id) w.now)

-- What follows the daily budget.
after_daily :
    Limits
    → Counters
    → Chance
    → RequestFacts
    → String
    → Result EngineError (Option Decision)
    → Answer
unfolding reserve_with
after_daily limits counters w facts run_id (err x) = err x
after_daily limits counters w facts run_id (ok (some d)) = ok (d, counters)
after_daily limits counters w facts run_id (ok none) =
    if is_negative (or_zero facts.estimated_input_tokens)
      || is_negative (or_zero facts.estimated_output_tokens)
    then err negative_estimate
    else reserve_with limits counters w facts run_id w.reservation_id

after_lists : Limits → Counters → Chance → RequestFacts → String → Option Decision → Answer
unfolding daily_block after_daily
after_lists limits counters w facts run_id (some d) = ok (d, counters)
after_lists limits counters w facts run_id none =
    if not (is_empty limits.max_cost_per_run_usd) && is_empty facts.estimated_cost_usd
    then ok (block run_id "cost_unavailable" "max_cost_per_run_usd" (pos 0) (pos 0), counters)
    else if not (is_some (decimal facts.estimated_cost_usd))
    then err invalid_cost_estimate
    else after_daily limits counters w facts run_id (daily_block limits counters w facts run_id)

after_repetition : Limits → Counters → Chance → RequestFacts → String → Option Decision → Answer
unfolding list_block after_lists
after_repetition limits counters w facts run_id (some d) = ok (d, counters)
after_repetition limits counters w facts run_id none =
    after_lists limits counters w facts run_id (list_block limits facts run_id)

-- The engine after an answer; an error leaves the counters as they were.
abbrev pub answered : Engine → Tracker → Answer → Result EngineError Decision × Engine
answered e t (err x) = (err x, record e { tracker = t })
answered e t (ok (d, counters)) = (ok d, record e { tracker = t; counters = counters })

preflight_run :
    Engine → Chance → RequestFacts → Option String → Result EngineError Decision × Engine
unfolding repetition_block after_repetition
preflight_run e w facts none = (err no_random, e)
preflight_run e w facts (some run_id) =
    let (repeated, t) = repetition_block w e.tracker run_id in
    answered e t (after_repetition e.limits e.counters w facts run_id repeated)

-- `Preflight`.
unfoldable pub preflight : Engine → Chance → RequestFacts → Result EngineError Decision × Engine
unfolding preflight_run
preflight e w facts = preflight_run e w facts (resolve_run_id facts.run_id w.run_id)

-- `ApplyRemotePolicy`.
unfoldable pub apply_remote_policy : Engine → PolicyEnvelope → Result EngineError Engine
apply_remote_policy e remote =
    if not (is_positive remote.version)
    then err (merge_error PolicyError.version_not_positive)
    else elim (merge e.local_limits remote e.last_remote_version) [
      | err x ↦ err (merge_error x)
      | ok merged ↦ ok (record e { limits = merged; last_remote_version = remote.version })
    ]

-- `SaveRemotePolicy`: a row is never replaced by one that is not newer.
unfoldable pub save_remote_policy :
    Bool → Option CachedPolicy → ℤ → List ℕ → Result EngineError (Option CachedPolicy)
save_remote_policy writes cached version payload =
    if not (is_positive version) || is_nil payload
    then err empty_payload
    else if not writes
    then err database_error
    else elim cached [
      | none ↦ ok (some (record { version = version; payload = payload }))
      | some row ↦
          if ltb_ℤ row.version version
          then ok (some (record { version = version; payload = payload }))
          else err stale_cache
    ]

-- `CacheAndApplyRemotePolicy`, with the text that `json.Marshal` makes of the policy.
module _ (marshal : PolicyEnvelope → List ℕ) where
  unfoldable pub cache_and_apply_remote_policy :
      Bool → Engine → PolicyEnvelope → Result EngineError Engine
  cache_and_apply_remote_policy writes e remote =
      elim (merge e.local_limits remote e.last_remote_version) [
        | err x ↦ err (merge_error x)
        | ok merged ↦
            elim (save_remote_policy writes e.remote_policy_cache remote.version (marshal remote)) [
              | err x ↦ err x
              | ok cached ↦ ok (record e {
                limits = merged;
                last_remote_version = remote.version;
                remote_policy_cache = cached;
              })
            ]
      ]

abbrev pub or_unknown : Option ℤ → ℤ
or_unknown none = negsuc 0
or_unknown (some n) = n

abbrev pub below_unknown : ℤ → Bool
below_unknown n = ltb_ℤ n (negsuc 0)

-- What `Postflight` reports to `ReconcilePolicy`.
unfoldable pub policy_outcome : OutcomeFacts → PolicyOutcome
policy_outcome f = record {
  run_id = f.run_id;
  reservation_id = f.reservation_id;
  input_tokens = or_unknown f.input_tokens;
  output_tokens = or_unknown f.output_tokens;
  tool_calls = or_unknown f.tool_calls;
  cost_usd = cost_text f.cost_usd;
}

-- The daily counters are a transaction of their own: when it fails, the settlement stays.
incremented : Counters → Result CounterError Counters → Result EngineError (Unit {0}) × Counters
incremented settled (err x) = (err (counter x), settled)
incremented settled (ok counters) = (ok tt, counters)

settle_and_count :
    Counters
    → String
    → CostText
    → Result CounterError Counters
    → Result EngineError (Unit {0}) × Counters
unfolding incremented
settle_and_count before day cost (err x) = (err (counter x), before)
settle_and_count before day cost (ok settled) =
    incremented settled (increment_daily_counters settled day cost)

-- `Postflight`.
unfoldable pub postflight : Engine → String → OutcomeFacts → Result EngineError (Unit {0}) × Engine
unfolding policy_outcome settle_and_count
postflight e day f =
    if is_empty f.reservation_id
    then (err reservation_id_required, e)
    else if below_unknown (or_unknown f.input_tokens)
        || below_unknown (or_unknown f.output_tokens)
        || below_unknown (or_unknown f.tool_calls)
    then (err negative_usage, e)
    else if not (is_some (decimal f.cost_usd))
    then (err invalid_actual_cost, e)
    else let (result, counters) =
        settle_and_count e.counters day (cost_text f.cost_usd)
          (reconcile_policy e.counters (policy_outcome f)) in
      (result, record e { counters = counters })

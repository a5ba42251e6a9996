-- ===== src/Tests/Admission.antt =====
-- The engine on concrete data: internal/policies/policy.go.
use virgil.Base.{contains, ℕ, true, false, none, some, List, [], ◌∷◌, ok, ◌≡◌, refl}
use virgil.Base.Text.{is_label_char}
use virgil.Base.Dict.{get, put}
use virgil.Base.Int.{pos, ◌+ℤ◌, ◌-ℤ◌, wrap_int64}
use virgil.Cost.{decimal, decimal_codes, whole_part, digits_from, fraction}
use virgil.Limits.{
  Limits, CpLimits, PolicyEnvelope, merge, narrow, stricter_int, stricter_cost, stricter_list,
  allowed,
}
use virgil.Limits.Stricter.{IsMeet, merge-IsMeet}
use virgil.Counters.{
  reserve_policy, reconcile_policy, reconcile_policy_tx, settle, checked_add, limit_hit,
  next_counters, decide, duration_ns, over_duration, over_calls, exceeds, over_cost, actual_cost,
  read_daily_counters, increment_daily_counters,
}
use virgil.Repetition.{
  feedback_run_id, repeated_tool_error, repeated_provider_error, repeated_tool_call, repeated,
}
use virgil.Repetition.Runs.{find}
use virgil.Repetition.Calls.{new_tracker}
use virgil.Engine.{
  Engine, Chance, RequestFacts, OutcomeFacts, Decision, preflight, postflight, cost_text,
  policy_outcome, cache_and_apply_remote_policy, save_remote_policy,
}
use virgil.Engine.Admission.{refuses, IsQuiet, preflight_refused}
use virgil.Engine.Remote.{Arrival, InForce, arrive_all, last_accepted, arrive_all-InForce}
use virgil.Engine.After.{postflight_twice}

abbrev local : Limits
local = record {
  max_calls_per_run = pos 10;
  max_cost_per_run_usd = "1.5";
  max_input_tokens_per_run = pos 0;
  max_output_tokens_per_run = pos 0;
  max_total_tokens_per_run = pos 1000;
  max_duration_seconds = pos 0;
  max_tool_calls_per_run = pos 0;
  allowed_providers = "openai" ∷ "anthropic" ∷ [];
  allowed_models = [];
  allowed_tools = "search" ∷ [];
  deny_providers = false;
  deny_models = false;
  deny_tools = false;
  max_calls_per_day = pos 100;
  max_cost_per_day_usd = "";
}

abbrev remote_limits : CpLimits
remote_limits = record {
  max_calls_per_run = pos 3;
  max_cost_per_run_usd = "2";
  max_input_tokens_per_run = pos 0;
  max_output_tokens_per_run = pos 0;
  max_total_tokens_per_run = pos 0;
  max_duration_seconds = pos 0;
  max_tool_calls_per_run = pos 0;
  allowed_providers = "openai" ∷ "other" ∷ [];
  allowed_models = [];
  allowed_tools = [];
}

abbrev remote : PolicyEnvelope
remote = record { version = pos 2; e_tag = ""; limits = remote_limits }

abbrev merged : Limits
merged = record local { max_calls_per_run = pos 3; allowed_providers = "openai" ∷ [] }

remote_merged : merge local remote (pos 0) ≡ ok merged
unfolding merge decimal decimal_codes whole_part digits_from fraction stricter_cost narrow
    stricter_int stricter_list contains
remote_merged = refl

merge-IsMeet_example : IsMeet local remote_limits merged
merge-IsMeet_example = merge-IsMeet local remote (pos 0) merged remote_merged

abbrev engine : Engine
engine = record {
  local_limits = local;
  limits = local;
  last_remote_version = pos 0;
  tracker = new_tracker;
  counters = record { runs = []; reservations = []; daily = [] };
  remote_policy_cache = none;
}

abbrev chance : Chance
chance = record {
  run_id = some "run_1";
  reservation_id = some "r1";
  now = 7;
  day = "today";
  reads_tool_errors = true;
  reads_provider_errors = true;
  reads_tool_calls = true;
  reads_daily = true;
  reserves = true;
}

abbrev facts : RequestFacts
facts = record {
  run_id = "run";
  provider = "openai";
  model = "gpt";
  tool_names = "search" ∷ [];
  started_at = none;
  estimated_cost_usd = "0.5";
  estimated_input_tokens = some (pos 10);
  estimated_output_tokens = none;
}

abbrev allow : Decision
allow = record {
  decision = "allow";
  reason = "";
  policy = "";
  attempt = pos 1;
  threshold = pos 0;
  run_id = "run";
  reservation_id = "r1";
}

abbrev forbidden : RequestFacts
forbidden = record facts { provider = "elsewhere" }

forbidden_call : refuses (preflight engine chance forbidden).0 ≡ true
unfolding preflight feedback_run_id is_label_char repeated_tool_error repeated find get
    repeated_provider_error repeated_tool_call allowed contains
forbidden_call = refl

preflight_refused_example :
    (refuses (preflight engine chance forbidden).0 ≡ true
      → (preflight engine chance forbidden).1.counters ≡ engine.counters)
    × IsQuiet engine (preflight engine chance forbidden).1
preflight_refused_example = preflight_refused engine chance forbidden

abbrev marshal : PolicyEnvelope → List ℕ
marshal p = 123 ∷ 125 ∷ []

abbrev arrivals : List Arrival
arrivals = Arrival.applied remote ∷ Arrival.cached true (record remote { version = pos 1 }) ∷ []

arrive_all-InForce_example :
    InForce (arrive_all marshal engine arrivals) (last_accepted marshal engine arrivals none)
    × ((arrive_all marshal engine arrivals).local_limits ≡ local)
arrive_all-InForce_example =
    arrive_all-InForce marshal engine arrivals none (InForce.local_only refl refl)

abbrev cached_engine : Engine
cached_engine = record engine {
  limits = merged;
  last_remote_version = pos 2;
  remote_policy_cache = some (record { version = pos 2; payload = 123 ∷ 125 ∷ [] });
}

remote_cached : cache_and_apply_remote_policy marshal true engine remote ≡ ok cached_engine
unfolding cache_and_apply_remote_policy save_remote_policy merge decimal decimal_codes whole_part
    fraction stricter_cost narrow stricter_int stricter_list contains
remote_cached = refl

abbrev report : OutcomeFacts
report = record {
  run_id = "run";
  reservation_id = "r1";
  input_tokens = some (pos 5);
  output_tokens = none;
  cost_usd = "0.25";
  tool_calls = some (pos 0);
}

abbrev once : Engine
once = (postflight (preflight engine chance facts).1 "today" report).1

abbrev twice : Engine
twice = (postflight once "today" report).1

postflight_twice_example :
    (twice.counters.runs ≡ once.counters.runs)
    × (twice.counters.reservations ≡ once.counters.reservations)
    × (read_daily_counters twice.counters "today" ≡ ok (pos 2, 5000000000))
unfolding preflight feedback_run_id is_label_char repeated_tool_error repeated find get
    repeated_provider_error repeated_tool_call allowed contains decimal decimal_codes whole_part
    fraction read_daily_counters reserve_policy next_counters put wrap_int64 ◌+ℤ◌ ◌-ℤ◌ checked_add
    decide duration_ns exceeds limit_hit over_calls over_cost over_duration cost_text postflight
    reconcile_policy reconcile_policy_tx settle actual_cost increment_daily_counters policy_outcome
postflight_twice_example =
    postflight_twice (preflight engine chance facts).1 once twice "today" report 0 0 2500000000 refl
      refl refl refl

-- ===== src/Tests/Prices.antt =====
-- Prices on concrete data: internal/pricing.
use virgil.Base.{if◌then◌else◌, String, str_eq, Option, none, some, ok, ◌≡◌, refl, true}
use virgil.Base.Int.{ℤ, pos, negsuc, ◌+ℤ◌, ◌-ℤ◌, ◌*ℤ◌}
use virgil.Telemetry.{Facts, check_costs, decimal_text}
use virgil.Pricing.{Cost, PriceTable, calculate, labelled_cost, input_cost}
use virgil.Pricing.Labels.{with_cost, usage_of, calculate-check_costs}

-- Prices in units of a millionth.
abbrev read_price : String → Option ℤ
read_price s =
    if str_eq s "0.000003" then some (pos 3) else if str_eq s "0.000001" then some (pos 1) else none

-- The one amount of the test.
abbrev print_cost : ℤ → String
print_cost (pos n) = "0.0013000000"
print_cost (negsuc n) = "-1.0"

abbrev facts : Facts
facts = record {
  organization_id = "";
  installation_id = "inst";
  project_id = "";
  environment = "";
  agent_id = "";
  run_id = "run";
  trace_id = "0123456789abcdef0123456789abcdef";
  span_id = "0123456789abcdef";
  provider = "openai";
  requested_model = "gpt-4";
  response_model = "";
  input_tokens = some (pos 300);
  output_tokens = some (pos 200);
  cached_tokens = some (pos 100);
  usage_source = "provider";
  status = "success";
  error_code = "";
  tool_name = "";
  policy_decision = none;
  actual_cost = none;
  estimated_cost = none;
  pricing_version = "";
  cost_currency = "USD";
}

abbrev prices : PriceTable
prices = record {
  version = "1";
  currency = "USD";
  input_per_token = "0.000003";
  output_per_token = "0.000003";
  cached_per_token = "0.000001";
}

abbrev cost : Cost
cost = record { actual_cost = some "0.0013000000"; estimated_cost = none }

priced : calculate read_price print_cost (usage_of facts) prices ≡ ok cost
unfolding calculate labelled_cost input_cost ◌+ℤ◌ ◌-ℤ◌ ◌*ℤ◌
priced = refl

decimal_cost : decimal_text "0.0013000000" ≡ true
unfolding decimal_text
decimal_cost = refl

calculate-check_costs_example : check_costs (with_cost facts cost) ≡ ok tt
calculate-check_costs_example =
    calculate-check_costs read_price print_cost facts prices cost priced decimal_cost refl

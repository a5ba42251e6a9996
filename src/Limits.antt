-- ===== src/Limits.antt =====
-- internal/policies/policy.go (`Limits`, `allowed`, `Merge` and the `stricter…` functions) and
-- internal/controlplane/policy.go: policy limits, and how a remote policy narrows the local ones.
pub mod Stricter
use virgil.Base.{
  ℕ, String, is_empty, str_eq, if◌then◌else◌, leb, Bool, true, false, ◌&&◌, ◌||◌, not, Option, none,
  some, List, [], ◌∷◌, Result, ok, err, ◌>>=◌, ◌>>◌, fail_if, or_fail, contains, keep_if, is_nil,
  is_some,
}
use virgil.Base.Int.{ℤ, pos, is_negative, is_positive, leb_ℤ, ltb_ℤ, eq_ℤ}
use virgil.Cost.{decimal}

pub record Limits : Type 0 where
  pub max_calls_per_run : ℤ
  pub max_cost_per_run_usd : String
  pub max_input_tokens_per_run : ℤ
  pub max_output_tokens_per_run : ℤ
  pub max_total_tokens_per_run : ℤ
  pub max_duration_seconds : ℤ
  pub max_tool_calls_per_run : ℤ
  pub allowed_providers : List String
  pub allowed_models : List String
  pub allowed_tools : List String
  pub deny_providers : Bool
  pub deny_models : Bool
  pub deny_tools : Bool
  pub max_calls_per_day : ℤ
  pub max_cost_per_day_usd : String

pub record CpLimits : Type 0 where
  pub max_calls_per_run : ℤ
  pub max_cost_per_run_usd : String
  pub max_input_tokens_per_run : ℤ
  pub max_output_tokens_per_run : ℤ
  pub max_total_tokens_per_run : ℤ
  pub max_duration_seconds : ℤ
  pub max_tool_calls_per_run : ℤ
  pub allowed_providers : List String
  pub allowed_models : List String
  pub allowed_tools : List String

pub record PolicyEnvelope : Type 0 where
  pub version : ℤ
  pub e_tag : String
  pub limits : CpLimits

pub data PolicyError : Type 0 where
  version_not_positive stale_version negative_limit invalid_cost : PolicyError

-- `allowed`: an empty list allows every value.
unfoldable pub allowed : List String → String → Bool
allowed list value = is_nil list || contains value list

-- The smaller non-zero value; 0 means unlimited.
unfoldable pub stricter_int : ℤ → ℤ → ℤ
stricter_int a b =
    if eq_ℤ a (pos 0) then b else if eq_ℤ b (pos 0) then a else if ltb_ℤ a b then a else b

-- The smaller non-empty cost; empty means unlimited. The remote text has passed `decimal` here, and a
-- local one in `NewEngine`, and `SetString` reads of such a text what `decimal` reads; a local text
-- that `NewEngine` has not tested, with a fraction or an exponent, is outside the model.
cheaper : String → String → Option ℕ → Option ℕ → Option String
cheaper a b none y = none
cheaper a b (some x) none = none
cheaper a b (some x) (some y) = if leb x y then some a else some b

unfoldable pub stricter_cost : String → String → Option String
unfolding cheaper
stricter_cost a b =
    if is_empty a
    then some b
    else if is_empty b
    then some a
    else cheaper a b (decimal a) (decimal b)

-- The intersection if both are non-empty, otherwise the non-empty one; and whether an
-- intersection came out empty, so that nothing is allowed.
unfoldable pub stricter_list : List String → List String → List String × Bool
stricter_list local remote =
    if is_nil local
    then (remote, false)
    else if is_nil remote
    then (local, false)
    else let out = keep_if (λ v. contains v remote) local in (out, is_nil out)

abbrev pub negative_limits : CpLimits → Bool
negative_limits r =
    is_negative r.max_calls_per_run
    || is_negative r.max_input_tokens_per_run
    || is_negative r.max_output_tokens_per_run
    || is_negative r.max_total_tokens_per_run
    || is_negative r.max_duration_seconds
    || is_negative r.max_tool_calls_per_run

-- The local limits narrowed by the remote ones, once the cost is known.
unfoldable pub narrow : Limits → CpLimits → String → Limits
narrow local remote cost = record local {
  max_calls_per_run = stricter_int local.max_calls_per_run remote.max_calls_per_run;
  max_input_tokens_per_run =
      stricter_int local.max_input_tokens_per_run remote.max_input_tokens_per_run;
  max_output_tokens_per_run =
      stricter_int local.max_output_tokens_per_run remote.max_output_tokens_per_run;
  max_total_tokens_per_run =
      stricter_int local.max_total_tokens_per_run remote.max_total_tokens_per_run;
  max_duration_seconds = stricter_int local.max_duration_seconds remote.max_duration_seconds;
  max_tool_calls_per_run = stricter_int local.max_tool_calls_per_run remote.max_tool_calls_per_run;
  max_cost_per_run_usd = cost;
  allowed_providers = (stricter_list local.allowed_providers remote.allowed_providers).0;
  deny_providers =
      local.deny_providers || (stricter_list local.allowed_providers remote.allowed_providers).1;
  allowed_models = (stricter_list local.allowed_models remote.allowed_models).0;
  deny_models = local.deny_models || (stricter_list local.allowed_models remote.allowed_models).1;
  allowed_tools = (stricter_list local.allowed_tools remote.allowed_tools).0;
  deny_tools = local.deny_tools || (stricter_list local.allowed_tools remote.allowed_tools).1;
}

-- `Merge`.
unfoldable pub merge : Limits → PolicyEnvelope → ℤ → Result PolicyError Limits
merge local remote last_version = do
  fail_if (not (is_positive remote.version)) version_not_positive
  fail_if (is_positive last_version && leb_ℤ remote.version last_version) stale_version
  fail_if (negative_limits remote.limits) negative_limit
  fail_if (not (is_some (decimal remote.limits.max_cost_per_run_usd))) invalid_cost
  cost ←
      or_fail (stricter_cost local.max_cost_per_run_usd remote.limits.max_cost_per_run_usd)
        invalid_cost
  ok (narrow local remote.limits cost)

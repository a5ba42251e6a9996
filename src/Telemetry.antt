-- ===== src/Telemetry.antt =====
-- internal/telemetry/event.go and the ID test of internal/telemetry/trace.go: how an event is built
-- and what a canonical event is. A time is its Unix nanoseconds, and `none` is the zero time; a text
-- that a pattern accepts is ASCII.
pub mod Canonical
use virgil.Base.{
  ℕ, ◌-◌, ◌/◌, ◌==◌, ltb, leb, String, is_empty, str_eq, if◌then◌else◌, Bool, true, false, ◌&&◌,
  ◌||◌, not, Option, none, some, List, [], ◌∷◌, Result, ok, err, ◌>>◌, fail_if, is_some, all_of,
  length,
}
use virgil.Base.Int.{ℤ, pos, is_negative, ltb_ℤ}
use virgil.Base.Text.{
  codes, is_digit, is_lower, is_upper, is_label_char, is_code_char, matches_up_to,
}
use virgil.Executions.{Time}

pub record PolicyDecision : Type 0 where
  pub decision : String
  pub reason : String
  pub policy : String
  pub attempt : ℤ
  pub threshold : ℤ

-- What an event and an attempt have in common.
pub record Facts : Type 0 where
  pub organization_id : String
  pub installation_id : String
  pub project_id : String
  pub environment : String
  pub agent_id : String
  pub run_id : String
  pub trace_id : String
  pub span_id : String
  pub provider : String
  pub requested_model : String
  pub response_model : String
  pub input_tokens : Option ℤ
  pub output_tokens : Option ℤ
  pub cached_tokens : Option ℤ
  pub usage_source : String
  pub status : String
  pub error_code : String
  pub tool_name : String
  pub policy_decision : Option PolicyDecision
  pub actual_cost : Option String
  pub estimated_cost : Option String
  pub pricing_version : String
  pub cost_currency : String

pub record Event : Type 0 where
  pub event_id : String
  pub event_type : String
  pub schema_version : String
  pub created_at : Time
  pub facts : Facts
  pub latency_ms : ℤ
  pub content_capture : Bool

pub record Attempt : Type 0 where
  pub facts : Facts
  pub started_at : Time
  pub ended_at : Time

pub data EventError : Type 0 where
  invalid_identity invalid_timing negative_tokens too_many_cached invalid_status : EventError
  no_counts unknown_counts invalid_source invalid_error_code exclusive_costs : EventError
  invalid_actual invalid_estimate no_id invalid_metadata invalid_decision : EventError

abbrev pub schema : String
schema = "1.0"

unfoldable pub label_text : String → Bool
unfolding is_label_char
label_text s = matches_up_to is_label_char 64 (codes s)

unfoldable pub code_text : String → Bool
unfolding is_code_char
code_text s = matches_up_to is_code_char 64 (codes s)

is_model_tail : ℕ → Bool
unfolding is_label_char
is_model_tail c = is_label_char c || c == b':' || c == b'/'

matches_model : List ℕ → Bool
unfolding is_model_tail
matches_model [] = false
matches_model (c ∷ cs) =
    (is_upper c || is_lower c || is_digit c) && leb (length cs) 127 && all_of is_model_tail cs

unfoldable pub model_text : String → Bool
unfolding matches_model
model_text s = matches_model (codes s)

unfoldable pub currency_text : String → Bool
currency_text s = length (codes s) == 3 && all_of is_upper (codes s)

-- `(\.[0-9]+)?` after the digits of the whole part.
decimal_tail : List ℕ → Bool
decimal_tail [] = true
decimal_tail (c ∷ cs) =
    let rest = decimal_tail cs in
    if c == b'.' then not (length cs == 0) && all_of is_digit cs else is_digit c && rest

matches_decimal : List ℕ → Bool
unfolding decimal_tail
matches_decimal [] = false
matches_decimal (c ∷ []) = is_digit c
matches_decimal (c ∷ d ∷ cs) = is_digit c && (not (c == b'0') || d == b'.') && decimal_tail (d ∷ cs)

unfoldable pub decimal_text : String → Bool
unfolding matches_decimal
decimal_text s = matches_decimal (codes s)

hex_digit : ℕ → Bool
hex_digit c = is_digit c || (leb b'a' c && leb c b'f')

-- `validHexID`: of this length, not only zeros, and lower-case hexadecimal.
unfoldable pub valid_hex_id : String → ℕ → Bool
unfolding hex_digit
valid_hex_id s n =
    length (codes s) == n && not (all_of (λ c. c == b'0') (codes s)) && all_of hex_digit (codes s)

abbrev pub valid_count : Option ℤ → Bool
valid_count none = true
valid_count (some n) = not (is_negative n)

abbrev pub optional : (String → Bool) → String → Bool
optional test s = is_empty s || test s

-- The identity tests that `Build` and `ValidateEvent` share.
unfoldable pub valid_identity : Facts → Bool
valid_identity f =
    label_text f.installation_id
    && label_text f.run_id
    && valid_hex_id f.trace_id 32
    && valid_hex_id f.span_id 16
    && label_text f.provider
    && model_text f.requested_model
    && optional model_text f.response_model
    && optional label_text f.organization_id
    && optional label_text f.project_id
    && optional label_text f.environment
    && optional label_text f.agent_id
    && optional model_text f.tool_name
    && optional label_text f.pricing_version
    && optional currency_text f.cost_currency

unfoldable pub valid_counts : Facts → Bool
valid_counts f =
    valid_count f.input_tokens && valid_count f.output_tokens && valid_count f.cached_tokens

-- `*cached > *input`, or cached tokens without input tokens.
abbrev pub exceeds_input : Option ℤ → Option ℤ → Bool
exceeds_input none input = false
exceeds_input (some cached) none = true
exceeds_input (some cached) (some input) = ltb_ℤ input cached

unfoldable pub valid_status : String → Bool
valid_status s =
    str_eq s "success"
    || str_eq s "provider_error"
    || str_eq s "transport_error"
    || str_eq s "policy_block"
    || str_eq s "client_cancelled"

-- The `switch` on the source of the usage.
unfoldable pub check_usage : Facts → Result EventError (Unit {0})
check_usage f =
    if str_eq f.usage_source "provider" || str_eq f.usage_source "estimated"
    then fail_if (not (is_some f.input_tokens) && not (is_some f.output_tokens)) no_counts
    else if str_eq f.usage_source "unknown"
    then fail_if (is_some f.input_tokens || is_some f.output_tokens || is_some f.cached_tokens)
        unknown_counts
    else err invalid_source

abbrev pub bad_cost : String → String → Option String → Bool
bad_cost source wanted none = false
bad_cost source wanted (some cost) = not (str_eq source wanted) || not (decimal_text cost)

unfoldable pub check_costs : Facts → Result EventError (Unit {0})
check_costs f =
    fail_if (is_some f.actual_cost && is_some f.estimated_cost) exclusive_costs
    >> fail_if (bad_cost f.usage_source "provider" f.actual_cost) invalid_actual
    >> fail_if (bad_cost f.usage_source "estimated" f.estimated_cost) invalid_estimate

-- `EndedAt.Before(StartedAt) || StartedAt.IsZero()`.
abbrev pub bad_timing : Time → Time → Bool
bad_timing none ended = true
bad_timing (some t) none = true
bad_timing (some t) (some u) = ltb u t

abbrev pub nanoseconds : Time → ℕ
nanoseconds none = 0
nanoseconds (some t) = t

abbrev pub event_type_of : String → String
event_type_of status =
    if str_eq status "policy_block"
    then "llm.policy.blocked"
    else if str_eq status "success"
    then "llm.response.completed"
    else "llm.response.failed"

abbrev pub event_of : Attempt → String → Event
event_of a id = record {
  event_id = id;
  event_type = event_type_of a.facts.status;
  schema_version = schema;
  created_at = a.ended_at;
  facts = a.facts;
  latency_ms = pos ((nanoseconds a.ended_at - nanoseconds a.started_at) / 1000000);
  content_capture = false;
}

abbrev pub new_event : Attempt → Option String → Result EventError Event
new_event a none = err no_id
new_event a (some id) = ok (event_of a id)

-- `Build`, with what `NewID(16)` gives.
unfoldable pub check_attempt : Attempt → Result EventError (Unit {0})
check_attempt a =
    fail_if (not (valid_identity a.facts)) invalid_identity
    >> fail_if (bad_timing a.started_at a.ended_at) invalid_timing
    >> fail_if (not (valid_counts a.facts)) negative_tokens
    >> fail_if (exceeds_input a.facts.cached_tokens a.facts.input_tokens) too_many_cached
    >> fail_if (not (valid_status a.facts.status)) invalid_status
    >> check_usage a.facts
    >> fail_if (not (optional code_text a.facts.error_code)) invalid_error_code
    >> check_costs a.facts

abbrev pub built : Attempt → Option String → Result EventError (Unit {0}) → Result EventError Event
built a id (err e) = err e
built a id (ok u) = new_event a id

unfoldable pub build : Attempt → Option String → Result EventError Event
build a id = built a id (check_attempt a)

abbrev pub valid_decision : Option PolicyDecision → Bool
valid_decision none = true
valid_decision (some p) =
    (str_eq p.decision "allow" || str_eq p.decision "block")
    && code_text p.reason
    && code_text p.policy
    && not (is_negative p.attempt)
    && not (is_negative p.threshold)

abbrev pub is_zero_time : Time → Bool
is_zero_time none = true
is_zero_time (some t) = false

unfoldable pub valid_metadata : Event → Bool
valid_metadata e =
    str_eq e.schema_version schema
    && not e.content_capture
    && valid_hex_id e.event_id 32
    && not (is_zero_time e.created_at)
    && valid_identity e.facts
    && optional code_text e.facts.error_code
    && not (is_negative e.latency_ms)
    && valid_counts e.facts

-- `ValidateEvent`.
unfoldable pub validate_event : Event → Result EventError (Unit {0})
validate_event e =
    fail_if (not (valid_metadata e)) invalid_metadata
    >> fail_if (exceeds_input e.facts.cached_tokens e.facts.input_tokens) too_many_cached
    >> fail_if (not (valid_status e.facts.status)) invalid_status
    >> check_usage e.facts
    >> check_costs e.facts
    >> fail_if (not (valid_decision e.facts.policy_decision)) invalid_decision

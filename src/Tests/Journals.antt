-- ===== src/Tests/Journals.antt =====
-- The journal and the events on concrete data: internal/storage/sqlite.go, postflight.go and
-- retention.go, and internal/telemetry/event.go.
use virgil.Base.{String, true, false, none, some, [], ◌∷◌, ok, err, ◌≡◌, refl}
use virgil.Base.Dict.{get, put}
use virgil.Base.Int.{pos}
use virgil.Executions.{State, PolicyBlockNotice}
use virgil.Executions.Store.{
  block_execution, Row, new_row, blocked_row, record_block, blocked_found,
}
use virgil.Outbox.{OutboxRow, DeliveryState}
use virgil.Counters.{
  Counters, PolicyRun, Reservation, CostText, PolicyOutcome, reconcile_policy_tx, CounterError,
}
use virgil.Telemetry.{
  Attempt, Facts, Event, build, event_of, validate_event, check_attempt, valid_identity, label_text,
  valid_hex_id, model_text, currency_text, valid_counts, valid_status, check_usage, check_costs,
  decimal_text, valid_metadata,
}
use virgil.Telemetry.Canonical.{build-canonical}
use virgil.Journal.{
  Journal, record_policy_block, prune, delete_events, delete_reservations, delete_repetitions,
  delete_runs, prune_reservations, commit_block, insert_event,
}
use virgil.Journal.References.{IsReferential, Call, run, run-IsReferential}
use virgil.Journal.Blocks.{
  Recorded, record_policy_block-Recorded, record_policy_block-block_execution,
}

abbrev facts : Facts
facts = record {
  organization_id = "";
  installation_id = "inst";
  project_id = "";
  environment = "";
  agent_id = "";
  run_id = "run";
  trace_id = "0123456789abcdef0123456789abcdef";
  span_id = "0123456789abcdef";
  provider = "openai";
  requested_model = "gpt-4";
  response_model = "";
  input_tokens = some (pos 5);
  output_tokens = none;
  cached_tokens = none;
  usage_source = "provider";
  status = "success";
  error_code = "";
  tool_name = "";
  policy_decision = none;
  actual_cost = some "0.25";
  estimated_cost = none;
  pricing_version = "";
  cost_currency = "USD";
}

abbrev attempt : Attempt
attempt = record { facts = facts; started_at = some 3; ended_at = some 5000003 }

abbrev id : String
id = "0123456789abcdef0123456789abcdef"

abbrev event : Event
event = event_of attempt id

built : build attempt (some id) ≡ ok event
unfolding build check_attempt valid_identity label_text valid_hex_id model_text currency_text
    valid_counts valid_status check_usage check_costs decimal_text
built = refl

is_id : valid_hex_id id 32 ≡ true
unfolding valid_hex_id
is_id = refl

build-canonical_example : validate_event event ≡ ok tt
build-canonical_example = build-canonical attempt id event is_id refl built

abbrev with_colon : String → String → String
with_colon _ _ = "inst:0123456789abcdef0123456789abcdef"

abbrev long_run : PolicyRun
long_run = record {
  started_at_unix_ns = 3;
  calls = pos 1;
  input_tokens = pos 5;
  output_tokens = pos 0;
  tool_calls = pos 0;
  cost_usd = pos 0;
}

abbrev unsettled : Reservation
unsettled = record {
  run_id = "run";
  input_tokens = pos 5;
  output_tokens = pos 0;
  tool_calls = pos 0;
  cost_usd = pos 0;
  reconciled = false;
}

abbrev reserved : Counters
reserved = record {
  runs = ("run", long_run) ∷ [];
  reservations = ("r1", unsettled) ∷ [];
  daily = [];
}

abbrev outcome : PolicyOutcome
outcome = record {
  run_id = "run";
  reservation_id = "r1";
  input_tokens = pos 5;
  output_tokens = pos 1;
  tool_calls = pos 0;
  cost_usd = CostText.empty;
}

abbrev running_row : Row
running_row = record (new_row 3) { state = State.running }

abbrev journal : Journal
journal = record {
  installation_id = "inst";
  closed = false;
  events = [];
  outbox = [];
  executions = ("run", running_row) ∷ [];
  counters = reserved;
  repetitions = record { tool_error = []; provider_error = []; tool_call = [] };
}

-- A run that is still going loses its reservations to the pruning, and its call cannot be settled.
pruned_unsettled :
    reconcile_policy_tx (prune journal 100 4).counters outcome
    ≡ err CounterError.unknown_reservation
unfolding prune delete_events delete_reservations delete_repetitions delete_runs prune_reservations
    reconcile_policy_tx get
pruned_unsettled = refl

abbrev notice : PolicyBlockNotice
notice = record {
  run_id = "run";
  reason = "call_limit";
  policy = "max_requests_per_run";
  attempt = pos 2;
  threshold = pos 1;
  blocked_call_estimate_usd = "";
  occurred_at = some 8;
  persistence_failed = false;
}

run-IsReferential_example : IsReferential (
    run with_colon journal (
      Call.appends event ("otlp" ∷ "file" ∷ []) 7
      ∷ Call.records_block event notice
      ∷ Call.prunes 9 4
      ∷ []))
run-IsReferential_example =
    run-IsReferential with_colon journal
      (Call.appends event ("otlp" ∷ "file" ∷ []) 7
        ∷ Call.records_block event notice
        ∷ Call.prunes 9 4
        ∷ [])
      refl

abbrev blocked_journal : Journal
blocked_journal = record journal {
  events = (id, event) ∷ [];
  executions = ("run", blocked_row notice running_row) ∷ [];
}

blocked : record_policy_block journal event notice ≡ ok blocked_journal
unfolding record_policy_block record_block blocked_found validate_event valid_metadata valid_hex_id
    valid_identity label_text model_text currency_text valid_counts valid_status check_usage
    check_costs decimal_text commit_block get insert_event put
blocked = refl

record_policy_block-Recorded_example : Recorded journal blocked_journal event notice
record_policy_block-Recorded_example =
    record_policy_block-Recorded journal blocked_journal event notice blocked

record_policy_block-block_execution_example :
    block_execution journal.executions notice ≡ ok blocked_journal.executions
record_policy_block-block_execution_example =
    record_policy_block-block_execution journal blocked_journal event notice blocked

abbrev waiting : OutboxRow
waiting = record {
  destination = "otlp";
  event_id = id;
  idempotency_key = "inst:0123456789abcdef0123456789abcdef";
  state = DeliveryState.dead_letter;
  attempts = 10;
  next_attempt = 5;
  lease_until = none;
  last_error_code = none;
}

abbrev old_journal : Journal
old_journal = record blocked_journal { outbox = waiting ∷ [] }

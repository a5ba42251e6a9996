-- ===== src/Journal.antt =====
-- internal/storage/sqlite.go, postflight.go and retention.go: the journal of events, whose
-- transactions write several tables, and whose pruning is four statements. A transaction that fails
-- returns no new tables. The JSON of an event is the event itself; the answers of SQLite that no
-- constraint decides are not modelled.
pub mod References
pub mod Blocks
pub mod Pruned
use virgil.Base.{
  ℕ, ltb, leb, String, is_empty, str_eq, if◌then◌else◌, Bool, true, false, ◌&&◌, ◌||◌, not, Option,
  none, some, List, [], ◌∷◌, ◌++◌, Result, ok, err, ◌>>=◌, is_some, any_of, keep_if, length,
}
use virgil.Base.Dict.{Dict, get, put}
use virgil.Base.Text.{codes}
use virgil.Executions.{PolicyBlockNotice, Error, is_zero}
use virgil.Executions.Store.{Table, record_block}
use virgil.Outbox.{OutboxRow, DeliveryState, is_row}
use virgil.Outbox.Keyed.{is_delivered}
use virgil.Counters.{
  Counters, PolicyRun, Reservation, PolicyOutcome, CounterError, CostText, reconcile_policy_tx,
  increment_daily_counters,
}
use virgil.Repetition.{SavedRepetition}
use virgil.Telemetry.{Event, EventError, validate_event, nanoseconds}

-- `run_repetition_state`, by its `kind`.
pub record Repetitions : Type 0 where
  pub tool_error : Dict SavedRepetition
  pub provider_error : Dict SavedRepetition
  pub tool_call : Dict SavedRepetition

pub record Journal : Type 0 where
  pub installation_id : String
  pub closed : Bool
  pub events : Dict Event
  pub outbox : List OutboxRow
  pub executions : Table
  pub counters : Counters
  pub repetitions : Repetitions

pub data JournalError : Type 0 where
  invalid_event duplicate_event invalid_destination duplicate_delivery journal_closed : JournalError
  ids_missing invalid_block : JournalError
  unblocked : Error → JournalError
  rejected : EventError → JournalError
  counting : CounterError → JournalError

abbrev pub foreign : Journal → Event → Bool
foreign j e =
    e.content_capture
    || not (str_eq e.facts.installation_id j.installation_id)
    || is_empty e.event_id

-- `redaction.Prepare`, which is `ValidateEvent`.
abbrev pub prepared : Event → Result EventError (Unit {0}) → Result JournalError Event
prepared e (ok u) = ok e
prepared e (err x) = err (rejected x)

abbrev pub prepare : Event → Result JournalError Event
prepare e = prepared e (validate_event e)

-- `INSERT INTO events`: the event ID is the primary key.
unfoldable pub insert_event : Dict Event → Event → Result JournalError (Dict Event)
insert_event events e =
    if is_some (get events e.event_id) then err duplicate_event else ok (put events e.event_id e)

abbrev pub pending_row : (String → String → String) → Event → String → ℕ → OutboxRow
pending_row key e destination now = record {
  destination = destination;
  event_id = e.event_id;
  idempotency_key = key e.facts.installation_id e.event_id;
  state = DeliveryState.pending;
  attempts = 0;
  next_attempt = now;
  lease_until = none;
  last_error_code = none;
}

abbrev pub bad_destination : String → Bool
bad_destination destination = is_empty destination || not (leb (length (codes destination)) 64)

-- `key` joins the two IDs by a colon.
module _ (key : String → String → String) where
  -- `INSERT INTO outbox`: the destination and the event ID are the primary key.
  unfoldable pub insert_delivery :
      List OutboxRow → Event → String → ℕ → Result JournalError (List OutboxRow)
  insert_delivery rows e destination now =
      if bad_destination destination
      then err invalid_destination
      else if any_of (is_row destination e.event_id) rows
      then err duplicate_delivery
      else ok (pending_row key e destination now ∷ rows)

  unfoldable pub insert_deliveries :
      List OutboxRow → Event → List String → ℕ → Result JournalError (List OutboxRow)
  insert_deliveries rows e [] now = ok rows
  insert_deliveries rows e (destination ∷ ds) now =
      insert_delivery rows e destination now >>= λ rows'. insert_deliveries rows' e ds now

  -- The inserts that `appendTransaction` and `PostflightAndAppend` share.
  unfoldable pub insert_all : Journal → Event → List String → ℕ → Result JournalError Journal
  insert_all j e destinations now = insert_event j.events e >>= λ events.
      insert_deliveries j.outbox e destinations now >>= λ outbox.
      ok (record j { events = events; outbox = outbox })

  unfoldable pub append_transaction :
      Journal → Event → List String → ℕ → Result JournalError Journal
  append_transaction j e destinations now =
      if foreign j e
      then err invalid_event
      else prepare e >>= λ e'. insert_all j e' destinations now

  -- `Append`, where the context outlives the write.
  unfoldable pub append : Journal → Event → List String → ℕ → Result JournalError Journal
  append j e destinations now =
      if j.closed then err journal_closed else append_transaction j e destinations now

  abbrev pub counted : {A : Type 0} → Result CounterError A → Result JournalError A
  counted (ok a) = ok a
  counted (err x) = err (counting x)

  unfoldable pub postflight_and_append :
      Journal
      → PolicyOutcome
      → Event
      → List String
      → String
      → CostText
      → ℕ
      → Result JournalError Journal
  postflight_and_append j o e destinations day cost now =
      if is_empty o.reservation_id || is_empty o.run_id
      then err ids_missing
      else if foreign j e
      then err invalid_event
      else prepare e >>= λ e'. counted (reconcile_policy_tx j.counters o) >>= λ settled.
          counted (increment_daily_counters settled day cost) >>= λ counters.
          insert_all (record j { counters = counters }) e' destinations now

abbrev pub invalid_policy_block : PolicyBlockNotice → Bool
invalid_policy_block n =
    is_empty n.run_id || is_empty n.policy || is_empty n.reason || is_zero n.occurred_at

abbrev pub updated : Result Error Table → Result JournalError Table
updated (ok rows) = ok rows
updated (err e) = err (unblocked e)

-- The update and the insert of the transaction.
unfoldable pub commit_block : Journal → Event → PolicyBlockNotice → Result JournalError Journal
commit_block j e n = updated (record_block j.executions n) >>= λ executions.
    insert_event j.events e >>= λ events. ok (record j { executions = executions; events = events })

unfoldable pub record_policy_block :
    Journal → Event → PolicyBlockNotice → Result JournalError Journal
record_policy_block j e n =
    if foreign j e || invalid_policy_block n
    then err invalid_block
    else prepare e >>= λ e'. if j.closed then err journal_closed else commit_block j e' n

-- `Prune`, the events: an event that some delivery still needs stays.
unfoldable pub is_needed : List OutboxRow → String → Bool
is_needed rows id = any_of (λ row. str_eq row.event_id id && not (is_delivered row.state)) rows

abbrev pub is_old : ℕ → Event → Bool
is_old before e = ltb (nanoseconds e.created_at) before

unfoldable pub prune_events : List OutboxRow → ℕ → Dict Event → Dict Event
prune_events rows before [] = []
prune_events rows before ((id, e) ∷ events) =
    let rest = prune_events rows before events in
    if is_old before e && not (is_needed rows id) then rest else (id, e) ∷ rest

-- `Prune`, the counters: a run that started before the cutoff goes with its reservations, whether it
-- has ended or not.
abbrev pub is_old_run : ℕ → Option PolicyRun → Bool
is_old_run before none = false
is_old_run before (some run) = ltb run.started_at_unix_ns before

unfoldable pub prune_runs : ℕ → Dict PolicyRun → Dict PolicyRun
prune_runs before [] = []
prune_runs before ((id, run) ∷ runs) =
    let rest = prune_runs before runs in
    if is_old_run before (some run) then rest else (id, run) ∷ rest

unfoldable pub prune_reservations : Dict PolicyRun → ℕ → Dict Reservation → Dict Reservation
prune_reservations runs before [] = []
prune_reservations runs before ((id, r) ∷ rs) =
    let rest = prune_reservations runs before rs in
    if is_old_run before (get runs r.run_id) then rest else (id, r) ∷ rest

unfoldable pub prune_repetitions : Dict PolicyRun → ℕ → Dict SavedRepetition → Dict SavedRepetition
prune_repetitions runs before [] = []
prune_repetitions runs before ((id, row) ∷ rows) =
    let rest = prune_repetitions runs before rows in
    if is_old_run before (get runs id) then rest else (id, row) ∷ rest

-- The four statements of `Prune`, each of its own: the events, with the `ON DELETE CASCADE` of the
-- outbox, the reservations, the states of repetition and the runs.
unfoldable pub delete_events : Journal → ℕ → Journal
delete_events j before =
    let events = prune_events j.outbox before j.events in
    record j {
      events = events;
      outbox = keep_if (λ row. is_some (get events row.event_id)) j.outbox;
    }

unfoldable pub delete_reservations : Journal → ℕ → Journal
delete_reservations j before = record j {
  counters = record j.counters {
    reservations = prune_reservations j.counters.runs before j.counters.reservations;
  };
}

unfoldable pub delete_repetitions : Journal → ℕ → Journal
delete_repetitions j before = record j {
  repetitions = record {
    tool_error = prune_repetitions j.counters.runs before j.repetitions.tool_error;
    provider_error = prune_repetitions j.counters.runs before j.repetitions.provider_error;
    tool_call = prune_repetitions j.counters.runs before j.repetitions.tool_call;
  };
}

unfoldable pub delete_runs : Journal → ℕ → Journal
delete_runs j before = record j {
  counters = record j.counters { runs = prune_runs before j.counters.runs };
}

-- `Prune`, where so many of the statements are carried out before one fails. The number of events
-- that it returns is not modelled.
unfoldable pub prune : Journal → ℕ → ℕ → Journal
unfolding delete_events delete_reservations delete_repetitions delete_runs
prune j before carried =
    let j1 = if ltb 0 carried then delete_events j before else j in
    let j2 = if ltb 1 carried then delete_reservations j1 before else j1 in
    let j3 = if ltb 2 carried then delete_repetitions j2 before else j2 in
    if ltb 3 carried then delete_runs j3 before else j3

-- ===== src/Lib.antt =====
-- The policy core of the Virgil gateway, in Go under internal/: it decides before each call to a
-- model provider whether a run may make it, keeps the counters by which it decides, and records
-- what became of each supervised run.
--
-- * Cost.antt models internal/policies/counters.go: `decimal`, `exceedsCost` and the ten-decimal text
--   of an amount. A `*big.Rat` is a number of units of 10^-10 dollars, which is exact for what the
--   pattern of `decimal` accepts. `SetString` also reads fractions and exponents: such texts,
--   which can stand only in limits that `NewEngine` has not tested, are outside the model. The fuel
--   of `all_digits` is one more than the number that it prints.
-- * Limits.antt models `Limits`, `allowed`, `Merge` and the `stricter…` functions of
--   internal/policies/policy.go and the envelope of internal/controlplane/policy.go. Limits/Stricter
--   compares them with the meet of two policies.
-- * Counters.antt models internal/storage/policy_counters.go: `policy_runs`, `policy_reservations` and
--   `installation_daily_counters` as dictionaries, each transaction as a function that returns a new
--   state or an error. `ReservePolicy` is `reserve_policy`, `reconcilePolicyTx` is
--   `reconcile_policy_tx`. An `int64` is an integer; `checked_add` has the overflow test of
--   `checkedAdd`, and the product in the duration limit is wrapped to 64 bits.
-- * Repetition.antt models internal/policies/repetition.go and internal/storage/repetition.go: the
--   caches (Repetition/Runs), each `Record…` and `repeated…` function, and the table. Whether SQLite
--   carries out a read or a write is an argument, and SHA-256 is a parameter. Counts of repetitions
--   are unbounded.
-- * Engine.antt models `Engine` of internal/policies/policy.go: `Preflight` asks Repetition, Limits and
--   Counters in turn, `Postflight` settles, and remote policies come in through `Merge` and
--   internal/storage/remote_policy.go. Random IDs, the clock and the answers of SQLite are arguments.
-- * Executions.antt and Executions/Store.antt model internal/executions/types.go and
--   internal/storage/executions.go: the `executions` table and each statement on it.
-- * Executions/Registry.antt models internal/executions/registry.go: each critical section is a
--   function on the registry, whose records stand in a heap, and Registry/Schedules interleaves the
--   threads of the callers and the events around them. Executions/Control.antt models the handlers
--   of internal/executions/http.go; what other requests do between the calls of a handler is an
--   argument, as are the clock and the hash.
-- * Runner.antt models internal/runner/supervisor.go: the loop of `superviseWithStarter` reads a list
--   of events, in the order in which `select` takes them, and the reports it sends are values.
-- * Outbox.antt models internal/storage/outbox.go: the rows of the `outbox` table and `Lease`, `Ack`,
--   `Fail` and `DeadLetter`. The clock, the random part of a delay and the decoding of an event are
--   arguments. An error code is ASCII, so that its length is counted in characters.
--   Outbox/Drain.antt models the drains of internal/export/outbox.go and controlplane.go; what the
--   sender answers is an argument.
-- * Telemetry.antt models internal/telemetry/event.go: `Build` and `ValidateEvent`. A time is its Unix
--   nanoseconds.
-- * Journal.antt models `Append`, `RecordPolicyBlock`, `PostflightAndAppend` and `Prune` of
--   internal/storage/sqlite.go, postflight.go and retention.go, on the tables of Counters, Executions
--   and Outbox and a dictionary of events. The JSON of an event is the event itself.
-- * Pricing.antt models internal/pricing: `Calculate` and the price registry. `math/big` and
--   `strings.ToLower` are parameters.
-- * Base.antt has what these share, and Tests.antt the concrete runs.
--
-- An operation on a table is one step, as its transaction is; the registry and the handlers are
-- divided at each lock and store call. Two operations have no transaction: `Fail` of the outbox reads the
-- attempts and then updates the row, and is modelled where nothing writes to the row in between;
-- `Prune` is four statements, and any first part of them may be all that is carried out. Calls of the engine that overlap inside `Preflight`, or between
-- a cache and its write to the table, are not modelled. Texts are compared by their characters; the
-- validators accept ASCII only, so that a character is a byte.
--
-- Not modelled: the HTTP gateway, the provider formats, the dashboard, the configuration, the control
-- client and the control of processes, which are I/O, encodings and wiring around the parts above; the
-- event stream of `Signals`; the reads, the content records and the migrations of the journal; the
-- filtered listings.
pub mod Base
pub mod Cost
pub mod Limits
pub mod Counters
pub mod Repetition
pub mod Engine
pub mod Executions
pub mod Outbox
pub mod Pricing
pub mod Runner
pub mod Telemetry
pub mod Journal
pub mod Tests

-- ===== src/Outbox.antt =====
-- internal/storage/outbox.go: the rows of the `outbox` table, leased for sending and then
-- acknowledged, retried or given up. The join with `events` and the decoding of a payload are one
-- test, `decodes`: a row whose event is there and unreadable makes a lease fail.
pub mod Keyed
pub mod Delivered
pub mod Exclusive
pub mod Failed
pub mod Drain
pub mod Drained
pub mod Released
pub mod Rounds
use virgil.Base.{
  ℕ, zero, suc, ◌+◌, ◌*◌, ◌^◌, ltb, leb, String, is_empty, str_eq, if◌then◌else◌, Bool, true, false,
  ◌&&◌, ◌||◌, not, Option, none, some, List, [], ◌∷◌, map, Result, ok, err, keep_if, all_of, length,
  is_nil,
}
use virgil.Base.Text.{codes}

-- `maxAttempts`, and `leaseDuration` in nanoseconds.
abbrev pub max_attempts : ℕ
max_attempts = 10

abbrev pub lease_duration : ℕ
lease_duration = 300000000000

pub data DeliveryState : Type 0 where
  pending sending retryable delivered dead_letter : DeliveryState

-- The key of a row is its destination and its event.
pub record OutboxRow : Type 0 where
  pub destination : String
  pub event_id : String
  pub idempotency_key : String
  pub state : DeliveryState
  pub attempts : ℕ
  pub next_attempt : ℕ
  pub lease_until : Option ℕ
  pub last_error_code : Option String

pub record Delivery : Type 0 where
  pub destination : String
  pub event_id : String
  pub idempotency_key : String
  pub attempts : ℕ

pub data OutboxError : Type 0 where
  invalid_event invalid_error_code no_row : OutboxError

abbrev pub is_sending : DeliveryState → Bool
is_sending sending = true
is_sending _ = false

abbrev pub is_row : String → String → OutboxRow → Bool
is_row destination event_id row = str_eq row.destination destination && str_eq row.event_id event_id

-- `lease_until_unix_ns IS NOT NULL AND lease_until_unix_ns < now`.
abbrev pub expired : Option ℕ → ℕ → Bool
expired none now = false
expired (some t) now = ltb t now

abbrev pub is_ready : DeliveryState → OutboxRow → ℕ → Bool
is_ready pending row now = leb row.next_attempt now
is_ready retryable row now = leb row.next_attempt now
is_ready sending row now = expired row.lease_until now
is_ready _ row now = false

-- The `WHERE` of `Lease`.
unfoldable pub is_due : String → ℕ → OutboxRow → Bool
is_due destination now row = str_eq row.destination destination && is_ready row.state row now

-- `ORDER BY next_attempt_unix_ns LIMIT n`.
unfoldable pub in_order : OutboxRow → List OutboxRow → List OutboxRow
in_order row [] = row ∷ []
in_order row (r ∷ rows) =
    let later = in_order row rows in
    if leb row.next_attempt r.next_attempt then row ∷ r ∷ rows else r ∷ later

unfoldable pub sort_rows : List OutboxRow → List OutboxRow
unfolding in_order
sort_rows [] = []
sort_rows (row ∷ rows) = in_order row (sort_rows rows)

unfoldable pub take_rows : ℕ → List OutboxRow → List OutboxRow
take_rows zero rows = []
take_rows (suc n) [] = []
take_rows (suc n) (row ∷ rows) = row ∷ take_rows n rows

abbrev pub delivery_of : OutboxRow → Delivery
delivery_of row = record {
  destination = row.destination;
  event_id = row.event_id;
  idempotency_key = row.idempotency_key;
  attempts = row.attempts;
}

abbrev pub leased : ℕ → OutboxRow → OutboxRow
leased now row = record row { state = sending; lease_until = some (now + lease_duration) }

-- `UPDATE outbox SET … WHERE destination=? AND event_id=? AND …`.
unfoldable pub update_rows :
    (OutboxRow → Bool) → (OutboxRow → OutboxRow) → List OutboxRow → List OutboxRow
update_rows test change [] = []
update_rows test change (row ∷ rows) =
    (if test row then change row else row) ∷ update_rows test change rows

-- The updates of `Lease`, one for each delivery.
unfoldable pub mark_leased : String → ℕ → List OutboxRow → List OutboxRow → List OutboxRow
unfolding update_rows
mark_leased destination now [] rows = rows
mark_leased destination now (d ∷ ds) rows =
    mark_leased destination now ds (update_rows (is_row destination d.event_id) (leased now) rows)

-- The rows that a lease takes.
unfoldable pub selected : String → ℕ → ℕ → List OutboxRow → List OutboxRow
unfolding is_due sort_rows take_rows
selected destination limit now rows =
    take_rows limit (sort_rows (keep_if (is_due destination now) rows))

-- `Lease`.
module _ (decodes : String → Bool) where
  unfoldable pub lease :
      List OutboxRow → String → ℕ → ℕ → Result OutboxError (List Delivery × List OutboxRow)
  lease rows destination limit now =
      let due = selected destination limit now rows in
      if all_of (λ row. decodes row.event_id) due
      then ok (map delivery_of due, mark_leased destination now due rows)
      else err invalid_event

-- `Ack`.
abbrev pub acknowledged : OutboxRow → OutboxRow
acknowledged row = record row { state = delivered; lease_until = none }

unfoldable pub ack : List OutboxRow → String → List String → List OutboxRow
unfolding update_rows
ack rows destination [] = rows
ack rows destination (id ∷ ids) =
    ack (update_rows (λ row. is_row destination id row && is_sending row.state) acknowledged rows)
      destination ids

abbrev pub invalid_code : String → Bool
invalid_code code = is_empty code || not (leb (length (codes code)) 64)

unfoldable pub attempts_of : List OutboxRow → String → String → Option ℕ
attempts_of [] destination id = none
attempts_of (row ∷ rows) destination id =
    if is_row destination id row then some row.attempts else attempts_of rows destination id

-- A failure: `2^attempts` seconds and a random part below 30 until the next attempt, or no more.
unfoldable pub failed_row : ℕ → String → ℕ → ℕ → OutboxRow → OutboxRow
failed_row attempts code jitter now row =
    if leb max_attempts attempts
    then record row {
      state = dead_letter;
      attempts = attempts;
      last_error_code = some code;
      lease_until = none;
    }
    else record row {
      state = retryable;
      attempts = attempts;
      last_error_code = some code;
      next_attempt = now + (2 ^ attempts + jitter) * 1000000000;
      lease_until = none;
    }

fail_found :
    List OutboxRow
    → String
    → String
    → String
    → ℕ
    → ℕ
    → Option ℕ
    → Result OutboxError (List OutboxRow)
unfolding update_rows
fail_found rows destination id code jitter now none = err no_row
fail_found rows destination id code jitter now (some attempts) =
    ok (update_rows (is_row destination id) (failed_row (attempts + 1) code jitter now) rows)

-- `Fail`, with what `rand.Int64N(30)` gives. The source reads the attempts and updates the row in two
-- statements with no transaction: this is the case where nothing writes to the row in between.
unfoldable pub fail :
    List OutboxRow → String → String → String → ℕ → ℕ → Result OutboxError (List OutboxRow)
unfolding fail_found attempts_of
fail rows destination id code jitter now =
    if invalid_code code
    then err invalid_error_code
    else fail_found rows destination id code jitter now (attempts_of rows destination id)

-- `DeadLetter`.
abbrev pub given_up : String → OutboxRow → OutboxRow
given_up code row = record row {
  state = dead_letter;
  attempts = row.attempts + 1;
  last_error_code = some code;
  lease_until = none;
}

unfoldable pub dead_letter_row :
    List OutboxRow → String → String → String → Result OutboxError (List OutboxRow)
unfolding update_rows
dead_letter_row rows destination id code =
    if invalid_code code
    then err invalid_error_code
    else ok (
        update_rows (λ row. is_row destination id row && is_sending row.state) (given_up code) rows)

-- `OutboxStats` for one state.
unfoldable pub count_state : (DeliveryState → Bool) → List OutboxRow → String → ℕ
count_state test rows destination =
    length (keep_if (λ row. str_eq row.destination destination && test row.state) rows)

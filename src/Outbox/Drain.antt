-- ===== src/Outbox/Drain.antt =====
-- internal/export/outbox.go and internal/export/controlplane.go: the loops that lease a batch, send
-- it and store what became of each delivery. What the destination answers is a parameter, and the
-- updates of the table are carried out.
use virgil.Base.{
  ℕ, suc, String, str_eq, if◌then◌else◌, Bool, true, false, Option, none, some, List, [], ◌∷◌,
  Result, ok, err, contains, is_nil, length, ◌>>=◌,
}
use virgil.Base.Dict.{Dict, get}
use virgil.Outbox.{OutboxRow, Delivery, OutboxError, lease, ack, fail, dead_letter_row}

-- What `SendBatch` returns: the acknowledgement, and whether there is an error.
pub record BatchAck : Type 0 where
  pub accepted_ids : List String
  pub rejections : Dict String
  pub send_failed : Bool

pub data DrainError : Type 0 where
  no_allowlist sending_failed : DrainError
  store_failed : OutboxError → DrainError

-- The count that is returned, the error, and the rows.
pub record Drained : Type 0 where
  pub count : ℕ
  pub error : Option DrainError
  pub rows : List OutboxRow

abbrev pub is_invalid : Option String → Bool
is_invalid none = false
is_invalid (some reason) = str_eq reason "invalid_event"

abbrev pub failure_code : Bool → String
failure_code send_failed = if send_failed then "send_error" else "send_failed"

abbrev pub send_error : Bool → Option DrainError
send_error send_failed = if send_failed then some sending_failed else none

abbrev pub rows_of : List OutboxRow → Result OutboxError (List OutboxRow) → List OutboxRow
rows_of rows (ok rows') = rows'
rows_of rows (err e) = rows

-- What `rand.Int64N` gives for an event.
module _ (jitter : String → ℕ) where
  -- One round of the loop of `DrainControlPlane`: the rows, and whether the delivery counts.
  unfoldable pub settle_delivery :
      BatchAck → String → ℕ → List OutboxRow → String → Result OutboxError (Bool × List OutboxRow)
  settle_delivery answer destination now rows id =
      if contains id answer.accepted_ids
      then ok (true, ack rows destination (id ∷ []))
      else (if is_invalid (get answer.rejections id)
          then dead_letter_row rows destination id "invalid_event"
          else fail rows destination id (failure_code answer.send_failed) (jitter id) now)
        >>= λ rows'. ok (false, rows')

  unfoldable pub settle_all : BatchAck → String → ℕ → ℕ → List OutboxRow → List Delivery → Drained
  settle_all answer destination now count rows [] = record {
    count = count;
    error = send_error answer.send_failed;
    rows = rows;
  }
  settle_all answer destination now count rows (d ∷ ds) =
      elim (settle_delivery answer destination now rows d.event_id) [
        | err e ↦ record { count = count; error = some (store_failed e); rows = rows }
        | ok (counted, rows') ↦
            settle_all answer destination now (if counted then suc count else count) rows' ds
      ]

  -- One round of the loop of `DrainOnce`, which drops an error of `Fail`.
  abbrev pub fail_one : List String → Bool → String → ℕ → List OutboxRow → String → List OutboxRow
  fail_one acked send_failed destination now rows id =
      let failed =
        rows_of rows (fail rows destination id (failure_code send_failed) (jitter id) now) in
      if contains id acked then rows else failed

  unfoldable pub fail_rest :
      List String → Bool → String → ℕ → List OutboxRow → List Delivery → List OutboxRow
  fail_rest acked send_failed destination now rows [] = rows
  fail_rest acked send_failed destination now rows (d ∷ ds) =
      fail_rest acked send_failed destination now
        (fail_one acked send_failed destination now rows d.event_id) ds

  -- `send` is the sender: the acknowledged IDs, and whether there is an error.
  module _ (decodes : String → Bool) (send : List Delivery → List String → List String × Bool) where
    abbrev pub sent_batch :
        String → ℕ → List OutboxRow → List Delivery → List String × Bool → Drained
    sent_batch destination now rows ds (acked, send_failed) = record {
      count = length acked;
      error = send_error send_failed;
      rows = fail_rest acked send_failed destination now (ack rows destination acked) ds;
    }

    abbrev pub once_leased :
        List OutboxRow
        → String
        → List String
        → ℕ
        → Result OutboxError (List Delivery × List OutboxRow)
        → Drained
    once_leased rows destination allowed now (err e) = record {
      count = 0;
      error = some (store_failed e);
      rows = rows;
    }
    once_leased rows destination allowed now (ok ([], rows')) = record {
      count = 0;
      error = none;
      rows = rows';
    }
    once_leased rows destination allowed now (ok (d ∷ ds, rows')) =
        sent_batch destination now rows' (d ∷ ds) (send (d ∷ ds) allowed)

    unfoldable pub drain_once : List OutboxRow → String → List String → ℕ → ℕ → Drained
    drain_once rows destination allowed limit now =
        once_leased rows destination allowed now (lease decodes rows destination limit now)

  -- `send` is the client and the destination.
  module _ (decodes : String → Bool) (send : List Delivery → List String → BatchAck) where
    abbrev pub leased_batch :
        List OutboxRow
        → String
        → List String
        → ℕ
        → Result OutboxError (List Delivery × List OutboxRow)
        → Drained
    leased_batch rows destination allowed now (err e) = record {
      count = 0;
      error = some (store_failed e);
      rows = rows;
    }
    leased_batch rows destination allowed now (ok ([], rows')) = record {
      count = 0;
      error = none;
      rows = rows';
    }
    leased_batch rows destination allowed now (ok (d ∷ ds, rows')) =
        settle_all (send (d ∷ ds) allowed) destination now 0 rows' (d ∷ ds)

    unfoldable pub drain_control_plane : List OutboxRow → String → List String → ℕ → ℕ → Drained
    drain_control_plane rows destination allowed limit now =
        if is_nil allowed
        then record { count = 0; error = some no_allowlist; rows = rows }
        else leased_batch rows destination allowed now (lease decodes rows destination limit now)

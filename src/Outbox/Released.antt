-- ===== src/Outbox/Released.antt =====
-- What `DrainOnce` leaves of the rows that it leased.
use virgil.Base.{
  ℕ, ◌+◌, String, str_eq, Bool, true, false, ◌&&◌, not, Option, none, some, List, [], ◌∷◌, ok,
  contains, all_of, ◌≡◌, refl, sym, arith, eq_iff, Bool-cases, inl, inr,
}
use mathlib.Core.Path.{subst}
use virgil.Outbox.{
  OutboxRow, Delivery, is_sending, is_row, update_rows, ack, acknowledged, fail, fail_found,
  failed_row, attempts_of, lease, invalid_code,
}
use virgil.Outbox.Keyed.{keyed, all_update}
use virgil.Outbox.Failed.{update_has}
use virgil.Outbox.Exclusive.{delivers}
use virgil.Outbox.Drain.{failure_code, fail_one, fail_rest, rows_of, drain_once}

abbrev pub idle : OutboxRow → Bool
idle row = not (is_sending row.state)

-- No row of the event is leased.
abbrev pub all_idle : String → String → List OutboxRow → Bool
all_idle destination id rows = all_of (keyed idle destination id) rows

failed_idle :
    (attempts : ℕ) (code : String) (jitter now : ℕ) (row : OutboxRow)
    → idle (failed_row attempts code jitter now row) ≡ true
unfolding failed_row
failed_idle attempts code jitter now row = ground arith

-- An acknowledgement leaves no row of its event leased.
acked_idle :
    (destination id : String) (rows : List OutboxRow)
    → all_idle destination id
        (update_rows (λ row. is_row destination id row && is_sending row.state) acknowledged rows)
      ≡ true
unfolding update_rows
acked_idle destination id [] = refl
acked_idle destination id (r ∷ rows) =
    elim (Bool-cases (is_row destination id r && is_sending r.state)) [
      | inl t ↦ rw t (ground (arith, acked_idle destination id rows))
      | inr t ↦ rw t (ground (arith, acked_idle destination id rows))
    ]

ack_keeps :
    (destination id : String) (ids : List String) (rows : List OutboxRow)
    → all_idle destination id rows ≡ true
    → all_idle destination id (ack rows destination ids) ≡ true
unfolding ack
ack_keeps destination id [] rows h = h
ack_keeps destination id (x ∷ ids) rows h = ack_keeps destination id ids _ (
    all_update (keyed idle destination id) (λ row. is_row destination x row && is_sending row.state)
      acknowledged rows (λ r q t. ground arith) h)

ack-all_idle :
    (destination id : String) (ids : List String) (rows : List OutboxRow)
    → contains id ids ≡ true
    → all_idle destination id (ack rows destination ids) ≡ true
unfolding ack contains
ack-all_idle destination id [] rows h = absurd (cc)
ack-all_idle destination id (x ∷ ids) rows h = elim (Bool-cases (str_eq x id)) [
  | inl y ↦ ack_keeps destination id ids _ (
      subst
        (λ z.
          all_idle destination id (
            update_rows (λ row. is_row destination z row && is_sending row.state) acknowledged rows)
          ≡ true)
        (sym ((eq_iff x id).0 y)) (acked_idle destination id rows))
  | inr n ↦ ack-all_idle destination id ids _ (ground arith)
]

absent_idle :
    (destination id : String) (rows : List OutboxRow)
    → attempts_of rows destination id ≡ none
    → all_idle destination id rows ≡ true
unfolding attempts_of
absent_idle destination id [] h = refl
absent_idle destination id (r ∷ rows) h = ground (arith, absent_idle destination id rows)

found_keeps :
    (destination id x code : String) (jitter now : ℕ) (rows : List OutboxRow) (o : Option ℕ)
    → all_idle destination id rows ≡ true
    → all_idle destination id (rows_of rows (fail_found rows destination x code jitter now o))
      ≡ true
unfolding fail_found
found_keeps destination id x code jitter now rows none h = h
found_keeps destination id x code jitter now rows (some n) h =
    all_update (keyed idle destination id) (is_row destination x)
      (failed_row (n + 1) code jitter now) rows
      (λ r q t. ground (arith, failed_idle (n + 1) code jitter now r)) h

fail_keeps :
    (destination id x code : String) (jitter now : ℕ) (rows : List OutboxRow)
    → all_idle destination id rows ≡ true
    → all_idle destination id (rows_of rows (fail rows destination x code jitter now)) ≡ true
unfolding fail
fail_keeps destination id x code jitter now rows h = elim (Bool-cases (invalid_code code)) [
  | inl y ↦ rw y h
  | inr n ↦
      rw n (found_keeps destination id x code jitter now rows (attempts_of rows destination x) h)
]

found-all_idle :
    (destination id code : String) (jitter now : ℕ) (rows : List OutboxRow) (o : Option ℕ)
    → attempts_of rows destination id ≡ o
    → all_idle destination id (rows_of rows (fail_found rows destination id code jitter now o))
      ≡ true
unfolding fail_found
found-all_idle destination id code jitter now rows none h = absent_idle destination id rows h
found-all_idle destination id code jitter now rows (some n) h =
    update_has idle destination id (failed_row (n + 1) code jitter now) rows
      (failed_idle (n + 1) code jitter now)

-- A failure leaves no row of its event leased, whether there is one or not.
fail-all_idle :
    (destination id : String) (failed : Bool) (jitter now : ℕ) (rows : List OutboxRow)
    → all_idle destination id
        (rows_of rows (fail rows destination id (failure_code failed) jitter now))
      ≡ true
unfolding fail
fail-all_idle destination id true jitter now rows =
    found-all_idle destination id "send_error" jitter now rows (attempts_of rows destination id)
      refl
fail-all_idle destination id false jitter now rows =
    found-all_idle destination id "send_failed" jitter now rows (attempts_of rows destination id)
      refl

one_keeps :
    (jitter : String → ℕ) (acked : List String) (failed : Bool) (destination id : String) (now : ℕ)
    (rows : List OutboxRow) (x : String)
    → all_idle destination id rows ≡ true
    → all_idle destination id (fail_one jitter acked failed destination now rows x) ≡ true
one_keeps jitter acked failed destination id now rows x h = elim (Bool-cases (contains x acked)) [
  | inl y ↦ rw y h
  | inr n ↦ rw n (fail_keeps destination id x (failure_code failed) (jitter x) now rows h)
]

-- The round of the event itself, where it was not acknowledged.
one-all_idle :
    (jitter : String → ℕ) (acked : List String) (failed : Bool) (destination id x : String)
    (now : ℕ) (rows : List OutboxRow)
    → contains id acked ≡ false
    → x ≡ id
    → all_idle destination id (fail_one jitter acked failed destination now rows x) ≡ true
one-all_idle jitter acked failed destination id x now rows a e =
    rw (e, a) (fail-all_idle destination id failed (jitter id) now rows)

rest_keeps :
    (jitter : String → ℕ) (acked : List String) (failed : Bool) (destination id : String) (now : ℕ)
    (rows : List OutboxRow) (ds : List Delivery)
    → all_idle destination id rows ≡ true
    → all_idle destination id (fail_rest jitter acked failed destination now rows ds) ≡ true
unfolding fail_rest
rest_keeps jitter acked failed destination id now rows [] h = h
rest_keeps jitter acked failed destination id now rows (d ∷ ds) h =
    rest_keeps jitter acked failed destination id now
      (fail_one jitter acked failed destination now rows d.event_id) ds
      (one_keeps jitter acked failed destination id now rows d.event_id h)

rest-all_idle :
    (jitter : String → ℕ) (acked : List String) (failed : Bool) (destination id : String) (now : ℕ)
    (rows : List OutboxRow) (ds : List Delivery)
    → contains id acked ≡ false
    → delivers id ds ≡ true
    → all_idle destination id (fail_rest jitter acked failed destination now rows ds) ≡ true
unfolding fail_rest delivers
rest-all_idle jitter acked failed destination id now rows [] a n = absurd (cc)
rest-all_idle jitter acked failed destination id now rows (d ∷ ds) a n =
    let rows' = fail_one jitter acked failed destination now rows d.event_id in
    elim (Bool-cases (str_eq d.event_id id)) [
      | inl y ↦ rest_keeps jitter acked failed destination id now rows' ds (
          one-all_idle jitter acked failed destination id d.event_id now rows a
            ((eq_iff d.event_id id).0 y))
      | inr m ↦
          rest-all_idle jitter acked failed destination id now
            (fail_one jitter acked failed destination now rows d.event_id) ds a (ground arith)
    ]

-- `DrainOnce` leaves no row of its batch leased, whatever the sender acknowledges and whether it
-- fails, where the updates of the table are carried out: no event of the batch has to wait for its
-- lease to expire.
pub drain_once-all_idle :
    (jitter : String → ℕ) (decodes : String → Bool)
    (send : List Delivery → List String → List String × Bool) (rows rows' : List OutboxRow)
    (destination id : String) (allowed : List String) (limit now : ℕ) (ds : List Delivery)
    → lease decodes rows destination limit now ≡ ok (ds, rows')
    → delivers id ds ≡ true
    → all_idle destination id
        (drain_once jitter decodes send rows destination allowed limit now).rows
      ≡ true
unfolding drain_once delivers
drain_once-all_idle jitter decodes send rows rows' destination id allowed limit now [] h n =
    absurd (cc)
drain_once-all_idle jitter decodes send rows rows' destination id allowed limit now (d ∷ ds) h n =
    let acked = (send (d ∷ ds) allowed).0 in
    let failed = (send (d ∷ ds) allowed).1 in
    let acked_rows = ack rows' destination acked in
    elim (Bool-cases (contains id acked)) [
      | inl y ↦ rw h (
          rest_keeps jitter acked failed destination id now acked_rows (d ∷ ds)
            (ack-all_idle destination id acked rows' y))
      | inr m ↦ rw h (rest-all_idle jitter acked failed destination id now acked_rows (d ∷ ds) m n)
    ]

-- ===== src/Outbox/Rounds.antt =====
-- What one round of the loop of `DrainControlPlane` does to the rows.
use virgil.Base.{
  ℕ, ◌+◌, leb, ltb, String, str_eq, if◌then◌else◌, Bool, true, false, ◌&&◌, ◌||◌, Option, none,
  some, List, [], ◌∷◌, Result, ok, err, ◌>>=◌, contains, all_of, ◌≡◌, refl, arith, eq_iff,
  Bool-cases, inl, inr,
}
use mathlib.Core.Path.{subst}
use virgil.Base.Dict.{get}
use virgil.Outbox.{
  OutboxRow, OutboxError, is_sending, is_row, update_rows, ack, acknowledged, fail, fail_found,
  failed_row, attempts_of, dead_letter_row, given_up, max_attempts,
}
use virgil.Outbox.Keyed.{
  has_row, any_update, attempts_of-bound, is_dead, keyed, all_update, is_delivered,
}
use virgil.Outbox.Failed.{is_retryable, failed_row_has, failed_key}
use virgil.Outbox.Drain.{BatchAck, is_invalid, failure_code, settle_delivery}

-- What the answer says of an event that has had so many attempts: delivered, given up, or failed once
-- more, and then to be tried again below the last attempt only.
abbrev pub verdict : BatchAck → String → ℕ → OutboxRow → Bool
verdict answer id n row =
    if contains id answer.accepted_ids
    then is_delivered row.state
    else if is_invalid (get answer.rejections id)
    then is_dead row.state
    else ltb n row.attempts
      && (if leb max_attempts row.attempts then is_dead row.state else is_retryable row.state)

-- Still leased, or as the answer says.
abbrev pub unsettled : BatchAck → String → ℕ → OutboxRow → Bool
unsettled answer id n row = is_sending row.state && leb n row.attempts || verdict answer id n row

-- An update by which a row comes from one test to another.
all_become :
    (q p test : OutboxRow → Bool) (change : OutboxRow → OutboxRow) (rows : List OutboxRow)
    → ((r : OutboxRow) → q r ≡ true → test r ≡ true → p (change r) ≡ true)
    → ((r : OutboxRow) → q r ≡ true → test r ≡ false → p r ≡ true)
    → all_of q rows ≡ true
    → all_of p (update_rows test change rows) ≡ true
unfolding update_rows
all_become q p test change [] f g h = refl
all_become q p test change (r ∷ rows) f g h = elim (Bool-cases (test r)) [
  | inl t ↦ rw t (ground (arith, f r, all_become q p test change rows f g))
  | inr t ↦ rw t (ground (arith, g r, all_become q p test change rows f g))
]

-- A round is one update of the rows of its event, by which they come to what the answer says.
pub record IsRound (answer : BatchAck) (destination id : String) (rows rows' : List OutboxRow)
    : Type 0 where
  test : OutboxRow → Bool
  change : OutboxRow → OutboxRow
  result : rows' ≡ update_rows test change rows
  touches : (r : OutboxRow) → test r ≡ true → is_row destination id r ≡ true
  same_key : (j : String) (r : OutboxRow) → is_row destination j (change r) ≡ is_row destination j r
  settles :
      (n : ℕ)
      → all_of (keyed (unsettled answer id n) destination id) rows ≡ true
      → (r : OutboxRow) → test r ≡ true
      → verdict answer id n (change r) ≡ true
  rests :
      (n : ℕ) (r : OutboxRow)
      → is_row destination id r ≡ true
      → unsettled answer id n r ≡ true
      → test r ≡ false
      → verdict answer id n r ≡ true

accepted-IsRound :
    (answer : BatchAck) (destination id : String) (rows : List OutboxRow)
    → contains id answer.accepted_ids ≡ true
    → IsRound answer destination id rows (ack rows destination (id ∷ []))
unfolding ack
accepted-IsRound answer destination id rows h = record {
  test = λ row. is_row destination id row && is_sending row.state;
  change = acknowledged;
  result = refl;
  touches = λ r t. ground arith;
  same_key = λ j r. refl;
  settles = λ m a r t. ground arith;
  rests = λ m r k u t. ground arith;
}

rejected-IsRound :
    (answer : BatchAck) (destination id : String) (rows rows' : List OutboxRow)
    → contains id answer.accepted_ids ≡ false
    → is_invalid (get answer.rejections id) ≡ true
    → dead_letter_row rows destination id "invalid_event" ≡ ok rows'
    → IsRound answer destination id rows rows'
unfolding dead_letter_row
rejected-IsRound answer destination id rows rows' n h e = record {
  test = λ row. is_row destination id row && is_sending row.state;
  change = given_up "invalid_event";
  result = ground arith;
  touches = λ r t. ground arith;
  same_key = λ j r. refl;
  settles = λ m a r t. ground arith;
  rests = λ m r k u t. ground arith;
}

-- A failure reads the attempts of the key and counts one more.
record IsFailure (rows rows' : List OutboxRow) (destination id code : String) (jitter now : ℕ)
    : Type 0 where
  attempts : ℕ
  read : attempts_of rows destination id ≡ some attempts
  wrote :
      rows' ≡ update_rows (is_row destination id) (failed_row (attempts + 1) code jitter now) rows

fail-update :
    (rows rows' : List OutboxRow) (destination id code : String) (jitter now : ℕ) (o : Option ℕ)
    → attempts_of rows destination id ≡ o
    → fail_found rows destination id code jitter now o ≡ ok rows'
    → IsFailure rows rows' destination id code jitter now
unfolding fail_found
fail-update rows rows' destination id code jitter now none e h = absurd (cc)
fail-update rows rows' destination id code jitter now (some n) e h = record {
  attempts = n;
  read = e;
  wrote = ground arith;
}

failed_settles :
    (answer : BatchAck) (id code : String) (n attempts jitter now : ℕ) (row : OutboxRow)
    → contains id answer.accepted_ids ≡ false
    → is_invalid (get answer.rejections id) ≡ false
    → leb n attempts ≡ true
    → verdict answer id n (failed_row (attempts + 1) code jitter now row) ≡ true
failed_settles answer id code n attempts jitter now row a b h =
    rw (a, b) (ground (arith, failed_row_has (attempts + 1) code jitter now row))

unsettled_bound :
    (answer : BatchAck) (id : String) (n : ℕ) (row : OutboxRow)
    → contains id answer.accepted_ids ≡ false
    → is_invalid (get answer.rejections id) ≡ false
    → unsettled answer id n row ≡ true
    → leb n row.attempts ≡ true
unsettled_bound answer id n row a b h = ground arith

failed-IsRound :
    (answer : BatchAck) (destination id code : String) (jitter now : ℕ)
    (rows rows' : List OutboxRow)
    → contains id answer.accepted_ids ≡ false
    → is_invalid (get answer.rejections id) ≡ false
    → fail rows destination id code jitter now ≡ ok rows'
    → IsRound answer destination id rows rows'
unfolding fail
failed-IsRound answer destination id code jitter now rows rows' n m h =
    let f =
      fail-update rows rows' destination id code jitter now (attempts_of rows destination id) refl
        (ground arith) in
    record {
      test = is_row destination id;
      change = failed_row (f.attempts + 1) code jitter now;
      result = f.wrote;
      touches = λ r t. t;
      same_key = failed_key (f.attempts + 1) code jitter now destination;
      settles = λ k a r t. failed_settles answer id code k f.attempts jitter now r n m (
          attempts_of-bound (unsettled answer id k) destination id k f.attempts rows
            (λ s. unsettled_bound answer id k s n m) f.read a);
      rests = λ k r y u t. absurd (cc);
    }

bind-ok :
    (m : Result OutboxError (List OutboxRow)) (rows' : List OutboxRow) (counted : Bool)
    → (m >>= λ rows. let r : Result OutboxError (Bool × List OutboxRow) = ok (false, rows) in r)
      ≡ ok (counted, rows')
    → m ≡ ok rows'
bind-ok (err e) rows' counted h = absurd (cc)
bind-ok (ok rows) rows' counted h = ground arith

pub settle_delivery-IsRound :
    (jitter : String → ℕ) (answer : BatchAck) (destination id : String) (now : ℕ)
    (rows rows' : List OutboxRow) (counted : Bool)
    → settle_delivery jitter answer destination now rows id ≡ ok (counted, rows')
    → IsRound answer destination id rows rows'
unfolding settle_delivery
settle_delivery-IsRound jitter answer destination id now rows rows' counted e =
    elim (Bool-cases (contains id answer.accepted_ids)) [
      | inl y ↦
          subst (IsRound answer destination id rows) (ground arith)
            (accepted-IsRound answer destination id rows y)
      | inr n ↦ elim (Bool-cases (is_invalid (get answer.rejections id))) [
        | inl y ↦ rejected-IsRound answer destination id rows rows' n y (
            bind-ok (dead_letter_row rows destination id "invalid_event") rows' counted
              (ground arith))
        | inr n' ↦
            failed-IsRound answer destination id (failure_code answer.send_failed) (jitter id) now
              rows rows' n n'
              (bind-ok (fail rows destination id (failure_code answer.send_failed) (jitter id) now)
                rows' counted (ground arith))
      ]
    ]

-- The event's own rows come to what the answer says.
pub own_round :
    (answer : BatchAck) (destination id : String) (n : ℕ) (rows rows' : List OutboxRow)
    → IsRound answer destination id rows rows'
    → has_row (unsettled answer id n) destination id rows ≡ true
    → has_row (verdict answer id n) destination id rows' ≡ true
own_round answer destination id n rows rows' k h = rw (k.result) (
    ground (
      arith,
      any_update destination id k.test k.change rows (k.same_key id),
      all_become (keyed (unsettled answer id n) destination id)
          (keyed (verdict answer id n) destination id) k.test k.change rows
          (λ r u t. ground (arith, k.settles n (ground arith) r t))
          (λ r u t. elim (Bool-cases (is_row destination id r)) [
            | inl y ↦ ground (arith, k.rests n r y (ground arith) t)
            | inr m ↦ ground arith
          ]),
    ))

-- The rows of another event stay as they are.
pub other_round :
    (answer : BatchAck) (destination id j : String) (rows rows' : List OutboxRow)
    (p : OutboxRow → Bool)
    → IsRound answer destination id rows rows'
    → str_eq id j ≡ false
    → has_row p destination j rows ≡ true
    → has_row p destination j rows' ≡ true
other_round answer destination id j rows rows' p k ne h = rw (k.result) (
    ground (
      arith,
      any_update destination j k.test k.change rows (k.same_key j),
      all_update (keyed p destination j) k.test k.change rows (λ r u t. ground (
        arith,
        k.touches r t,
        k.same_key j r,
        eq_iff r.event_id id,
        eq_iff r.event_id j,
        eq_iff id j,
      )),
    ))

-- ===== src/Outbox/Failed.antt =====
-- What `Fail` leaves: it names no state in its `WHERE`.
use virgil.Base.{
  ℕ, ◌+◌, leb, ◌==◌, String, if◌then◌else◌, Bool, true, false, ◌&&◌, some, List, [], ◌∷◌, ok,
  all_of, ◌≡◌, refl, sym, arith, Bool-cases, inl, inr,
}
use virgil.Outbox.{
  OutboxRow, DeliveryState, retryable, is_row, update_rows, fail, fail_found, failed_row,
  attempts_of, max_attempts,
}
use virgil.Outbox.Keyed.{keyed, has_row, is_dead, any_update, any_attempts}

abbrev pub is_retryable : DeliveryState → Bool
is_retryable retryable = true
is_retryable _ = false

-- A row after so many failed attempts.
abbrev pub has_failed : ℕ → OutboxRow → Bool
has_failed attempts row =
    row.attempts == attempts
    && (if leb max_attempts attempts then is_dead row.state else is_retryable row.state)

pub failed_row_has :
    (attempts : ℕ) (code : String) (jitter now : ℕ) (row : OutboxRow)
    → has_failed attempts (failed_row attempts code jitter now row) ≡ true
unfolding failed_row
failed_row_has attempts code jitter now row = elim (Bool-cases (leb max_attempts attempts)) [
  | inl h ↦ rw h (ground arith)
  | inr h ↦ rw h (ground arith)
]

pub failed_key :
    (attempts : ℕ) (code : String) (jitter now : ℕ) (destination j : String) (row : OutboxRow)
    → is_row destination j (failed_row attempts code jitter now row) ≡ is_row destination j row
unfolding failed_row
failed_key attempts code jitter now destination j row = ground arith

pub update_has :
    (p : OutboxRow → Bool) (d id : String) (change : OutboxRow → OutboxRow) (rows : List OutboxRow)
    → ((r : OutboxRow) → p (change r) ≡ true)
    → all_of (keyed p d id) (update_rows (is_row d id) change rows) ≡ true
unfolding update_rows
update_has p d id change [] f = refl
update_has p d id change (r ∷ rows) f = elim (Bool-cases (is_row d id r)) [
  | inl t ↦ rw t (ground (arith, f r, update_has p d id change rows f))
  | inr t ↦ rw t (ground (arith, update_has p d id change rows f))
]

-- A failure that is recorded counts one more attempt and leaves the row of its key, which is still
-- in the table, retryable, or a dead letter from the tenth attempt on, whatever its state was,
-- delivered included.
pub fail-has_failed :
    (rows rows' : List OutboxRow) (destination id code : String) (jitter now attempts : ℕ)
    → attempts_of rows destination id ≡ some attempts
    → fail rows destination id code jitter now ≡ ok rows'
    → has_row (has_failed (attempts + 1)) destination id rows' ≡ true
unfolding fail fail_found
fail-has_failed rows rows' destination id code jitter now attempts e h =
    let q : update_rows (is_row destination id) (failed_row (attempts + 1) code jitter now) rows
        ≡ rows' =
      ground arith in
    rw (sym q) (
      ground (
        arith,
        any_update destination id (is_row destination id)
            (failed_row (attempts + 1) code jitter now) rows
            (failed_key (attempts + 1) code jitter now destination id)
            (any_attempts rows destination id attempts e),
        update_has (has_failed (attempts + 1)) destination id
            (failed_row (attempts + 1) code jitter now) rows
            (failed_row_has (attempts + 1) code jitter now),
      ))

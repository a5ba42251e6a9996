-- ===== src/Outbox/Delivered.antt =====
-- What any sequence of calls leaves of the rows of a key: a delivered row is never sent again.
use virgil.Base.{
  ℕ, ◌+◌, String, str_eq, Bool, true, false, ◌&&◌, not, List, [], ◌∷◌, Result, ok, err, all_of, ◌≡◌,
  refl, arith, eq_iff, Bool-cases, Option-cases, inl, inr,
}
use virgil.Outbox.{
  OutboxRow, OutboxError, is_row, is_due, is_ready, is_sending, selected, leased, mark_leased,
  lease, ack, acknowledged, dead_letter_row, given_up, invalid_code, fail, fail_found, failed_row,
  attempts_of,
}
use virgil.Outbox.Keyed.{
  keyed, has_row, all_selected, all_update, is_delivered, any_update, any_mark, any_ack,
}
use virgil.Outbox.Failed.{failed_key}

-- The operations on the table.
pub data Call : Type 0 where
  leases : String → ℕ → ℕ → Call
  acks : String → List String → Call
  dead_letters : String → String → String → Call
  fails : String → String → String → ℕ → ℕ → Call

abbrev or_same :
    {A : Type 0} → (A → List OutboxRow) → List OutboxRow → Result OutboxError A → List OutboxRow
or_same f rows (ok a) = f a
or_same f rows (err x) = rows

unfoldable pub apply : (String → Bool) → List OutboxRow → Call → List OutboxRow
apply decodes rows (leases destination limit now) =
    or_same (λ p. p.1) rows (lease decodes rows destination limit now)
apply decodes rows (acks destination ids) = ack rows destination ids
apply decodes rows (dead_letters destination id code) =
    or_same (λ r. r) rows (dead_letter_row rows destination id code)
apply decodes rows (fails destination id code jitter now) =
    or_same (λ r. r) rows (fail rows destination id code jitter now)

unfoldable pub run : (String → Bool) → List OutboxRow → List Call → List OutboxRow
unfolding apply
run decodes rows [] = rows
run decodes rows (c ∷ cs) = run decodes (apply decodes rows c) cs

-- No failure is reported for this key, and the leases are made at early times.
abbrev pub spares : String → String → (ℕ → Bool) → Call → Bool
spares d id early (leases destination limit now) = early now
spares d id early (acks destination ids) = true
spares d id early (dead_letters destination other code) = true
spares d id early (fails destination other code jitter now) =
    not (str_eq destination d && str_eq other id)

-- A test that the updates keep, and by which a row is not due early.
pub record IsStable (p : OutboxRow → Bool) (early : ℕ → Bool) : Type 0 where
  pub not_due :
      (now : ℕ) (r : OutboxRow) → p r ≡ true → early now ≡ true → is_ready r.state r now ≡ false
  pub acked : (r : OutboxRow) → p r ≡ true → is_sending r.state ≡ true → p (acknowledged r) ≡ true
  pub dead :
      (code : String) (r : OutboxRow)
      → p r ≡ true
      → is_sending r.state ≡ true
      → p (given_up code r) ≡ true

module _ (p : OutboxRow → Bool) (early : ℕ → Bool) (stable : IsStable p early) (d id : String) where
  -- A due row is another one.
  due_other :
      (destination : String) (now : ℕ) (r : OutboxRow)
      → early now ≡ true
      → (keyed p d id r && is_due destination now r) ≡ true
      → (str_eq r.destination destination && not (is_row d id r)) ≡ true
  unfolding is_due
  due_other destination now r t h = ground (arith, stable.not_due now r)

  mark_keeps_all :
      (destination : String) (now : ℕ) (due rows : List OutboxRow)
      → early now ≡ true
      → all_of (λ r. keyed p d id r && is_due destination now r) due ≡ true
      → all_of (keyed p d id) rows ≡ true
      → all_of (keyed p d id) (mark_leased destination now due rows) ≡ true
  unfolding mark_leased
  mark_keeps_all destination now [] rows t h k = k
  mark_keeps_all destination now (r ∷ due) rows t h k =
      mark_keeps_all destination now due _ t (ground arith) (
        all_update (keyed p d id) (is_row destination r.event_id) (leased now) rows
          (λ s q u. ground (
            arith,
            due_other destination now r t,
            eq_iff r.destination destination,
            eq_iff s.destination destination,
            eq_iff r.event_id id,
            eq_iff s.event_id id,
            eq_iff s.event_id r.event_id,
            eq_iff r.destination d,
            eq_iff s.destination d,
          ))
          k)

  ack_keeps_all :
      (destination : String) (ids : List String) (rows : List OutboxRow)
      → all_of (keyed p d id) rows ≡ true
      → all_of (keyed p d id) (ack rows destination ids) ≡ true
  unfolding ack
  ack_keeps_all destination [] rows h = h
  ack_keeps_all destination (i ∷ ids) rows h = ack_keeps_all destination ids _ (
      all_update (keyed p d id) (λ row. is_row destination i row && is_sending row.state)
        acknowledged rows (λ r q t. ground (arith, stable.acked r)) h)

  lease-has_row :
      (decodes : String → Bool) (rows : List OutboxRow) (destination : String) (limit now : ℕ)
      → early now ≡ true
      → has_row p d id rows ≡ true
      → has_row p d id (apply decodes rows (leases destination limit now)) ≡ true
  unfolding apply lease
  lease-has_row decodes rows destination limit now t h =
      elim (Bool-cases
        (all_of (λ row. decodes row.event_id) (selected destination limit now rows))) [
          | inr n ↦ rw n h
          | inl y ↦ rw y (
              ground (
                arith,
                any_mark d id destination now (selected destination limit now rows) rows,
                mark_keeps_all destination now (selected destination limit now rows) rows t
                    (all_selected (keyed p d id) destination limit now rows (ground arith)),
              ))
        ]

  dead_letter-has_row :
      (decodes : String → Bool) (rows : List OutboxRow) (destination other code : String)
      → has_row p d id rows ≡ true
      → has_row p d id (apply decodes rows (dead_letters destination other code)) ≡ true
  unfolding apply dead_letter_row
  dead_letter-has_row decodes rows destination other code h =
      elim (Bool-cases (invalid_code code)) [
        | inl y ↦ rw y h
        | inr n ↦ rw n (
            ground (
              arith,
              any_update d id (λ row. is_row destination other row && is_sending row.state)
                  (given_up code) rows (λ s. refl),
              all_update (keyed p d id)
                  (λ row. is_row destination other row && is_sending row.state) (given_up code) rows
                  (λ r q t. ground (arith, stable.dead code r)),
            ))
      ]

  fail-has_row :
      (decodes : String → Bool) (rows : List OutboxRow) (destination other code : String)
      (jitter now : ℕ)
      → (str_eq destination d && str_eq other id) ≡ false
      → has_row p d id rows ≡ true
      → has_row p d id (apply decodes rows (fails destination other code jitter now)) ≡ true
  unfolding apply fail fail_found
  fail-has_row decodes rows destination other code jitter now ne h =
      elim (Bool-cases (invalid_code code)) [
        | inl y ↦ rw y h
        | inr n ↦ elim (Option-cases (attempts_of rows destination other)) [
          | inl e ↦ rw (n, e) h
          | inr (k, e) ↦
              rw (n, e)
                (ground (
                  arith,
                  any_update d id (is_row destination other) (failed_row (k + 1) code jitter now)
                      rows (failed_key (k + 1) code jitter now d id),
                  all_update (keyed p d id) (is_row destination other)
                      (failed_row (k + 1) code jitter now) rows
                      (λ r q t. ground (
                        arith,
                        failed_key (k + 1) code jitter now d id r,
                        eq_iff r.destination destination,
                        eq_iff r.event_id other,
                        eq_iff destination d,
                        eq_iff other id,
                        eq_iff r.destination d,
                        eq_iff r.event_id id,
                      )),
                ))
        ]
      ]

  apply-has_row :
      (decodes : String → Bool) (rows : List OutboxRow) (c : Call)
      → spares d id early c ≡ true
      → has_row p d id rows ≡ true
      → has_row p d id (apply decodes rows c) ≡ true
  unfolding apply
  apply-has_row decodes rows (leases destination limit now) s h =
      lease-has_row decodes rows destination limit now s h
  apply-has_row decodes rows (acks destination ids) s h =
      ground (arith, any_ack d id destination ids rows, ack_keeps_all destination ids rows)
  apply-has_row decodes rows (dead_letters destination other code) s h =
      dead_letter-has_row decodes rows destination other code h
  apply-has_row decodes rows (fails destination other code jitter now) s h =
      fail-has_row decodes rows destination other code jitter now (ground arith) h

  -- What each call keeps, every sequence keeps.
  pub run-has_row :
      (decodes : String → Bool) (rows : List OutboxRow) (cs : List Call)
      → all_of (spares d id early) cs ≡ true
      → has_row p d id rows ≡ true
      → has_row p d id (run decodes rows cs) ≡ true
  unfolding run
  run-has_row decodes rows [] s h = h
  run-has_row decodes rows (c ∷ cs) s h =
      run-has_row decodes (apply decodes rows c) cs (ground arith)
        (apply-has_row decodes rows c (ground arith) h)

abbrev pub any_time : ℕ → Bool
any_time now = true

abbrev pub delivered_row : OutboxRow → Bool
delivered_row row = is_delivered row.state

delivered-IsStable : IsStable delivered_row any_time
delivered-IsStable = record {
  not_due = λ now r h t. ground arith;
  acked = λ r h s. refl;
  dead = λ code r h s. absurd (ground arith);
}

-- A delivered row stays in the table and stays delivered under any sequence of leases,
-- acknowledgements, dead letters and failures, if none of the failures is reported for it.
pub run-all_delivered :
    (decodes : String → Bool) (destination id : String) (rows : List OutboxRow) (cs : List Call)
    → all_of (spares destination id any_time) cs ≡ true
    → has_row delivered_row destination id rows ≡ true
    → has_row delivered_row destination id (run decodes rows cs) ≡ true
run-all_delivered decodes d id rows cs s h =
    run-has_row delivered_row any_time delivered-IsStable d id decodes rows cs s h

-- ===== src/Outbox/Drained.antt =====
-- What a drain leaves of the rows that it leased.
use virgil.Base.{
  ℕ, leb, suc, ◌+◌, String, str_eq, if◌then◌else◌, Bool, true, false, Option, none, some, List, [],
  ◌∷◌, ok, err, all_of, ◌≡◌, refl, sym, is_nil, arith, eq_iff, Bool-cases, inl, inr, Result-cases,
}
use mathlib.Core.Path.{subst}
use virgil.Outbox.{OutboxRow, Delivery, OutboxError, selected, lease_duration, lease}
use virgil.Outbox.Keyed.{keyed, has_row, all_weaken, all_mark}
use virgil.Outbox.Exclusive.{delivers, held, lease-marked, lease-has_row}
use virgil.Outbox.Drain.{
  BatchAck, Drained, DrainError, settle_delivery, settle_all, drain_control_plane,
}
use virgil.Outbox.Rounds.{
  verdict, unsettled, IsRound, settle_delivery-IsRound, own_round, other_round,
}

-- The drain was not cut short by the store.
abbrev pub is_complete : Option DrainError → Bool
is_complete none = true
is_complete (some DrainError.sending_failed) = true
is_complete _ = false

-- A test of the rows that a drain leaves when the store does not cut it short.
abbrev Leaves : (List OutboxRow → Bool) → Drained → Type 0
Leaves p d = is_complete d.error ≡ true → p d.rows ≡ true

module _ (jitter : String → ℕ) (answer : BatchAck) (destination : String) (now : ℕ) where
  stopped_round :
      (count : ℕ) (rows : List OutboxRow) (d : Delivery) (ds : List Delivery) (e : OutboxError)
      → settle_delivery jitter answer destination now rows d.event_id ≡ err e
      → settle_all jitter answer destination now count rows (d ∷ ds)
        ≡ record { count = count; error = some (DrainError.store_failed e); rows = rows }
  unfolding settle_all
  stopped_round count rows d ds e q = rw (settle_all, q) refl

  next_round :
      (count : ℕ) (rows rows' : List OutboxRow) (counted : Bool) (d : Delivery) (ds : List Delivery)
      → settle_delivery jitter answer destination now rows d.event_id ≡ ok (counted, rows')
      → settle_all jitter answer destination now count rows (d ∷ ds)
        ≡ settle_all jitter answer destination now (if counted then suc count else count) rows' ds
  unfolding settle_all
  next_round count rows rows' counted d ds q = rw (settle_all, q) refl

  -- What every round keeps, the whole loop keeps.
  settle_all-Leaves :
      (p : List OutboxRow → Bool)
      → ((id : String) (rows rows' : List OutboxRow)
          → IsRound answer destination id rows rows'
          → p rows ≡ true
          → p rows' ≡ true)
      → (count : ℕ) (rows : List OutboxRow) (ds : List Delivery) → p rows ≡ true
      → Leaves p (settle_all jitter answer destination now count rows ds)
  unfolding settle_all
  settle_all-Leaves p keeps count rows [] h = λ c. h
  settle_all-Leaves p keeps count rows (d ∷ ds) h =
      elim (Result-cases (settle_delivery jitter answer destination now rows d.event_id)) [
        | inl (e, q) ↦ subst (Leaves p) (sym (stopped_round count rows d ds e q)) (λ c. h)
        | inr ((counted, rows'), q) ↦
            subst (Leaves p) (sym (next_round count rows rows' counted d ds q)) (
              settle_all-Leaves p keeps (if counted then suc count else count) rows' ds (
                keeps d.event_id rows rows'
                  (settle_delivery-IsRound jitter answer destination d.event_id now rows rows'
                    counted q)
                  h))
      ]

  verdict_kept :
      (id : String) (n : ℕ) (j : String) (rows rows' : List OutboxRow)
      → IsRound answer destination j rows rows'
      → has_row (verdict answer id n) destination id rows ≡ true
      → has_row (verdict answer id n) destination id rows' ≡ true
  verdict_kept id n j rows rows' k h = elim (Bool-cases (str_eq j id)) [
    | inl y ↦
        own_round answer destination id n rows rows'
          (subst (λ x. IsRound answer destination x rows rows') ((eq_iff j id).0 y) k)
          (ground (
            arith,
            all_weaken (keyed (verdict answer id n) destination id)
                (keyed (unsettled answer id n) destination id) rows (λ r v. ground arith),
          ))
    | inr m ↦ other_round answer destination j id rows rows' (verdict answer id n) k m h
  ]

  -- The rows of an event that the batch has come to what the answer says.
  settle_all-verdict :
      (id : String) (n count : ℕ) (rows : List OutboxRow) (ds : List Delivery)
      → delivers id ds ≡ true
      → has_row (unsettled answer id n) destination id rows ≡ true
      → Leaves
          (has_row (verdict answer id n) destination id)
          (settle_all jitter answer destination now count rows ds)
  unfolding delivers
  settle_all-verdict id n count rows [] m h = absurd (cc)
  settle_all-verdict id n count rows (d ∷ ds) m h =
      elim (Result-cases (settle_delivery jitter answer destination now rows d.event_id)) [
        | inl (e, q) ↦
            subst (Leaves (has_row (verdict answer id n) destination id))
              (sym (stopped_round count rows d ds e q)) (λ c. absurd (cc))
        | inr ((counted, rows'), q) ↦
            let k =
              settle_delivery-IsRound jitter answer destination d.event_id now rows rows' counted
                q in
            let count' = if counted then suc count else count in
            subst (Leaves (has_row (verdict answer id n) destination id))
              (sym (next_round count rows rows' counted d ds q))
              (elim (Bool-cases (str_eq d.event_id id)) [
                | inl y ↦
                    settle_all-Leaves (has_row (verdict answer id n) destination id)
                      (verdict_kept id n) count' rows' ds
                      (own_round answer destination id n rows rows'
                        (subst (λ x. IsRound answer destination x rows rows')
                          ((eq_iff d.event_id id).0 y) k)
                        h)
                | inr ne ↦ settle_all-verdict id n count' rows' ds (ground arith) (
                    other_round answer destination d.event_id id rows rows' (unsettled answer id n)
                      k ne h)
              ])
      ]

abbrev pub tried : ℕ → OutboxRow → Bool
tried n row = leb n row.attempts

all_both :
    (p q s : OutboxRow → Bool) (rows : List OutboxRow)
    → ((r : OutboxRow) → p r ≡ true → q r ≡ true → s r ≡ true)
    → all_of p rows ≡ true
    → all_of q rows ≡ true
    → all_of s rows ≡ true
all_both p q s [] f h k = refl
all_both p q s (r ∷ rows) f h k = ground (arith, f r, all_both p q s rows f)

-- The rows of a lease are in the hands of the caller, with the attempts that they had.
lease-unsettled :
    (answer : BatchAck) (decodes : String → Bool) (rows rows' : List OutboxRow)
    (destination id : String) (n limit now : ℕ) (ds : List Delivery)
    → lease decodes rows destination limit now ≡ ok (ds, rows')
    → delivers id ds ≡ true
    → all_of (keyed (tried n) destination id) rows ≡ true
    → has_row (unsettled answer id n) destination id rows' ≡ true
lease-unsettled answer decodes rows rows' destination id n limit now ds h m a =
    let (e, f) = lease-marked decodes rows rows' destination limit now ds h in
    let there = lease-has_row decodes rows rows' destination id limit now ds h m in
    let kept : all_of (keyed (tried n) destination id) rows' ≡ true = rw f (
      all_mark (keyed (tried n) destination id) destination now
        (selected destination limit now rows) rows (λ r t. t) a) in
    ground (
      arith,
      all_both (keyed (held (now + lease_duration)) destination id) (keyed (tried n) destination id)
          (keyed (unsettled answer id n) destination id) rows' (λ r u v. ground arith),
    )

-- A drain of the control plane that the store does not cut short leaves no row of its batch leased:
-- the row of each event of the batch is still there, and is delivered if the control plane accepted the
-- event, a dead letter if it was rejected as invalid, and otherwise has one more attempt at least, and
-- is due for another below ten attempts and a dead letter from the tenth on.
pub drain-verdict :
    (jitter : String → ℕ) (decodes : String → Bool) (send : List Delivery → List String → BatchAck)
    (rows rows' : List OutboxRow) (destination id : String) (allowed : List String)
    (n limit now : ℕ) (ds : List Delivery)
    → is_nil allowed ≡ false
    → lease decodes rows destination limit now ≡ ok (ds, rows')
    → delivers id ds ≡ true
    → all_of (keyed (tried n) destination id) rows ≡ true
    → is_complete (drain_control_plane jitter decodes send rows destination allowed limit now).error
      ≡ true
    → has_row
        (verdict (send ds allowed) id n)
        destination
        id
        (drain_control_plane jitter decodes send rows destination allowed limit now).rows
      ≡ true
unfolding drain_control_plane delivers
drain-verdict jitter decodes send rows rows' destination id allowed n limit now [] a h m t =
    absurd (cc)
drain-verdict jitter decodes send rows rows' destination id allowed n limit now (d ∷ ds) a h m t =
    let answer = send (d ∷ ds) allowed in
    rw (a, h)
      (settle_all-verdict jitter answer destination now id n 0 rows' (d ∷ ds) m
        (lease-unsettled answer decodes rows rows' destination id n limit now (d ∷ ds) h m t))

-- ===== src/Tests/Deliveries.antt =====
-- The outbox on concrete data: internal/storage/outbox.go.
use virgil.Base.{
  ℕ, ◌+◌, String, Bool, true, false, none, some, List, [], ◌∷◌, ok, ◌≡◌, refl, arith, contains,
}
use virgil.Base.Dict.{get}
use virgil.Outbox.{
  Delivery, OutboxRow, DeliveryState, delivery_of, leased, lease, selected, is_due, sort_rows,
  in_order, take_rows, update_rows, mark_leased, dead_letter_row, fail, failed_row, attempts_of,
  ack,
}
use virgil.Outbox.Keyed.{has_row}
use virgil.Outbox.Delivered.{Call, run, apply, delivered_row, run-all_delivered}
use virgil.Outbox.Exclusive.{delivers, lease_exclusive}
use virgil.Outbox.Failed.{has_failed, fail-has_failed}
use virgil.Outbox.Drain.{BatchAck, settle_all, settle_delivery, drain_control_plane, drain_once}
use virgil.Outbox.Drained.{is_complete, drain-verdict}
use virgil.Outbox.Rounds.{verdict}
use virgil.Outbox.Released.{all_idle, drain_once-all_idle}

abbrev readable : String → Bool
readable id = true

abbrev waiting : OutboxRow
waiting = record {
  destination = "otlp";
  event_id = "e1";
  idempotency_key = "i:e1";
  state = DeliveryState.pending;
  attempts = 0;
  next_attempt = 5;
  lease_until = none;
  last_error_code = none;
}

abbrev done : OutboxRow
done = record waiting { event_id = "e2"; state = DeliveryState.delivered }

abbrev table : List OutboxRow
table = waiting ∷ done ∷ []

first_lease :
    lease readable table "otlp" 10 7 ≡ ok (delivery_of waiting ∷ [], leased 7 waiting ∷ done ∷ [])
unfolding lease selected is_due sort_rows in_order take_rows update_rows mark_leased
first_lease = refl

abbrev failed_done : OutboxRow
failed_done = record done {
  state = DeliveryState.retryable;
  attempts = 1;
  last_error_code = some "timeout";
  next_attempt = 9 + 5000000000;
}

-- A failure of another row, and an acknowledgement.
abbrev between : List Call
between = Call.fails "otlp" "e2" "timeout" 3 9 ∷ Call.acks "otlp" ("e2" ∷ []) ∷ []

second_lease :
    lease readable (run readable (leased 7 waiting ∷ done ∷ []) between) "otlp" 10 8
    ≡ ok ([], leased 7 waiting ∷ failed_done ∷ [])
unfolding run apply fail failed_row attempts_of ack lease selected is_due sort_rows in_order
    take_rows update_rows mark_leased
second_lease = refl

first_delivers : delivers "e1" (delivery_of waiting ∷ []) ≡ true
unfolding delivers
first_delivers = refl

lease_exclusive_example : delivers "e1" [] ≡ false
lease_exclusive_example =
    lease_exclusive readable table (leased 7 waiting ∷ done ∷ [])
      (leased 7 waiting ∷ failed_done ∷ []) "otlp" "e1" 10 10 7 8 (delivery_of waiting ∷ []) []
      between first_lease refl second_lease (omega arith) first_delivers

run-all_delivered_example :
    has_row delivered_row "otlp" "e2" (
      run readable table (
        Call.leases "otlp" 10 7
        ∷ Call.acks "otlp" ("e1" ∷ [])
        ∷ Call.dead_letters "otlp" "e2" "rejected"
        ∷ Call.fails "otlp" "e1" "timeout" 3 9
        ∷ []))
    ≡ true
run-all_delivered_example =
    run-all_delivered readable "otlp" "e2" table
      (Call.leases "otlp" 10 7
        ∷ Call.acks "otlp" ("e1" ∷ [])
        ∷ Call.dead_letters "otlp" "e2" "rejected"
        ∷ Call.fails "otlp" "e1" "timeout" 3 9
        ∷ [])
      refl refl

-- A delivered row that is reported as failed is sent again.
abbrev sent_again : List OutboxRow
sent_again = waiting ∷ failed_done ∷ []

delivered_fails : fail table "otlp" "e2" "timeout" 3 9 ≡ ok sent_again
unfolding fail failed_row attempts_of update_rows
delivered_fails = refl

delivered_attempts : attempts_of table "otlp" "e2" ≡ some 0
unfolding attempts_of
delivered_attempts = refl

fail-has_failed_example : has_row (has_failed 1) "otlp" "e2" sent_again ≡ true
fail-has_failed_example =
    fail-has_failed table sent_again "otlp" "e2" "timeout" 3 9 0 delivered_attempts delivered_fails

abbrev no_jitter : String → ℕ
no_jitter id = 0

-- The control plane rejects the event as invalid.
abbrev rejects : List Delivery → List String → BatchAck
rejects ds allowed = record {
  accepted_ids = [];
  rejections = ("e1", "invalid_event") ∷ [];
  send_failed = false;
}

drained_whole :
    is_complete
      (drain_control_plane no_jitter readable rejects table "otlp" ("status" ∷ []) 10 7).error
    ≡ true
unfolding drain_control_plane lease selected settle_all settle_delivery contains get dead_letter_row
drained_whole = refl

drain-verdict_example :
    has_row
      (verdict (rejects (delivery_of waiting ∷ []) ("status" ∷ [])) "e1" 0)
      "otlp"
      "e1"
      (drain_control_plane no_jitter readable rejects table "otlp" ("status" ∷ []) 10 7).rows
    ≡ true
drain-verdict_example =
    drain-verdict no_jitter readable rejects table (leased 7 waiting ∷ done ∷ []) "otlp" "e1"
      ("status" ∷ []) 0 10 7 (delivery_of waiting ∷ []) refl first_lease first_delivers refl
      drained_whole

abbrev times_out : List Delivery → List String → List String × Bool
times_out ds allowed = ([], true)

drain_once-all_idle_example :
    all_idle "otlp" "e1"
      (drain_once no_jitter readable times_out table "otlp" ("status" ∷ []) 10 7).rows
    ≡ true
drain_once-all_idle_example =
    drain_once-all_idle no_jitter readable times_out table (leased 7 waiting ∷ done ∷ []) "otlp"
      "e1" ("status" ∷ []) 10 7 (delivery_of waiting ∷ []) first_lease first_delivers

-- ===== src/Journal/Blocks.antt =====
-- The transaction that records a policy block.
use virgil.Base.{
  if◌then◌else◌, ◌≡◌, refl, Bool, true, false, Option, none, some, Result, ok, err, ◌>>=◌, arith,
  Bool-cases, inl, inr,
}
use mathlib.Core.Path.{subst}
use virgil.Base.Dict.{Dict, get, put}
use virgil.Executions.{PolicyBlockNotice}
use virgil.Executions.Store.{
  block_execution, update_where, update_row, invalid_notice, Row, Table, blocked_row, is_running,
  record_block, blocked_found, violates_check,
}
use virgil.Telemetry.{Event, EventError, validate_event}
use virgil.Journal.{
  Journal, JournalError, insert_event, prepare, prepared, updated, commit_block,
  record_policy_block, invalid_policy_block,
}

pub bind_ok :
    {A B : Type 0} (m : Result JournalError A) (f : A → Result JournalError B) (b : B)
    → (m >>= f) ≡ ok b
    → (a : A) × (m ≡ ok a) × (f a ≡ ok b)
bind_ok (ok a) f b h = (a, refl, h)
bind_ok (err e) f b h = absurd (cc)

pub inserted :
    (events events' : Dict Event) (e : Event)
    → insert_event events e ≡ ok events'
    → (get events e.event_id ≡ none) × (events' ≡ put events e.event_id e)
unfolding insert_event
inserted events events' e h = (ground arith, ground arith)

-- The run was running and is blocked by the notice, whose numbers are not negative, and the event
-- is stored with it; the other tables are as before.
pub record Recorded (j j' : Journal) (e : Event) (n : PolicyBlockNotice) : Type 0 where
  pub row : Row
  pub found_row : get j.executions n.run_id ≡ some row
  pub was_running : is_running row.state ≡ true
  pub checked : violates_check n ≡ false
  pub executions_after : j'.executions ≡ put j.executions n.run_id (blocked_row n row)
  pub new_event : get j.events e.event_id ≡ none
  pub events_after : j'.events ≡ put j.events e.event_id e
  pub outbox_kept : j'.outbox ≡ j.outbox
  pub canonical : validate_event e ≡ ok tt

updated-row :
    (rows rows' : Table) (n : PolicyBlockNotice) (o : Option Row)
    → updated (blocked_found rows n o) ≡ ok rows'
    → (row : Row) × (o ≡ some row)
      × (is_running row.state ≡ true)
      × (violates_check n ≡ false)
      × (rows' ≡ put rows n.run_id (blocked_row n row))
unfolding blocked_found
updated-row rows rows' n none h = absurd (cc)
updated-row rows rows' n (some row) h = (row, refl, ground arith, ground arith, ground arith)

prepared-event :
    (e e' : Event) (m : Result EventError (Unit {0}))
    → prepared e m ≡ ok e'
    → (m ≡ ok tt) × (e' ≡ e)
prepared-event e e' (ok u) h = (refl, ground arith)
prepared-event e e' (err x) h = absurd (cc)

commit-Recorded :
    (j j' : Journal) (e : Event) (n : PolicyBlockNotice)
    → validate_event e ≡ ok tt
    → commit_block j e n ≡ ok j'
    → Recorded j j' e n
unfolding commit_block record_block
commit-Recorded j j' e n v h =
    let (rows, f, g) =
      bind_ok (updated (record_block j.executions n))
        (λ executions. insert_event j.events e >>= λ events.
          ok (record j { executions = executions; events = events }))
        j' h in
    let (events, f', g') =
      bind_ok (insert_event j.events e)
        (λ events. ok (record j { executions = rows; events = events })) j' g in
    let (row, o, r, k, p) = updated-row j.executions rows n (get j.executions n.run_id) f in
    let (free, q) = inserted j.events events e f' in
    record {
      row = row;
      found_row = o;
      was_running = r;
      checked = k;
      executions_after = ground (arith, p);
      new_event = free;
      events_after = ground (arith, q);
      outbox_kept = ground arith;
      canonical = v;
    }

opened :
    (b : Bool) (m : Result JournalError Journal) (j' : Journal)
    → (if b then err JournalError.journal_closed else m) ≡ ok j'
    → m ≡ ok j'
opened true m j' h = absurd (cc)
opened false m j' h = h

same_commit :
    (j j' : Journal) (e e' : Event) (n : PolicyBlockNotice)
    → e' ≡ e
    → commit_block j e' n ≡ ok j'
    → commit_block j e n ≡ ok j'
same_commit j j' e e' n same h = subst (λ x. commit_block j x n ≡ ok j') same h

-- A policy block that is recorded has found its run running and blocks it by the notice, and stores
-- the canonical event, which is new, in the same transaction; the outbox stays as it is.
pub record_policy_block-Recorded :
    (j j' : Journal) (e : Event) (n : PolicyBlockNotice)
    → record_policy_block j e n ≡ ok j'
    → Recorded j j' e n
unfolding record_policy_block
record_policy_block-Recorded j j' e n h =
    let (e', f, g) =
      bind_ok (prepare e)
        (λ e'. if j.closed then err JournalError.journal_closed else commit_block j e' n) j'
        (ground arith) in
    let (v, same) = prepared-event e e' (validate_event e) f in
    commit-Recorded j j' e n v
      (same_commit j j' e e' n same (opened j.closed (commit_block j e' n) j' g))

complete_notice :
    (j j' : Journal) (e : Event) (n : PolicyBlockNotice)
    → record_policy_block j e n ≡ ok j'
    → invalid_policy_block n ≡ false
unfolding record_policy_block
complete_notice j j' e n h = elim (Bool-cases (invalid_policy_block n)) [
  | inr good ↦ good
  | inl bad ↦ absurd (ground arith)
]

-- The update of `BlockExecution` where the notice is complete and the row is running.
block-running :
    (rows : Table) (n : PolicyBlockNotice) (row : Row)
    → invalid_notice n ≡ false
    → get rows n.run_id ≡ some row
    → is_running row.state ≡ true
    → block_execution rows n ≡ ok (put rows n.run_id (blocked_row n row))
unfolding block_execution update_where update_row
block-running rows n row v e r = rw (v, e, update_row, r) refl

-- The two writers of a block agree: where `RecordPolicyBlock` succeeds, the table that it leaves is
-- the one that `BlockExecution` leaves for the same notice.
pub record_policy_block-block_execution :
    (j j' : Journal) (e : Event) (n : PolicyBlockNotice)
    → record_policy_block j e n ≡ ok j'
    → block_execution j.executions n ≡ ok j'.executions
record_policy_block-block_execution j j' e n h =
    let b = record_policy_block-Recorded j j' e n h in
    rw (b.executions_after) (
      block-running j.executions n b.row (ground (arith, complete_notice j j' e n h, b.checked))
        b.found_row b.was_running)

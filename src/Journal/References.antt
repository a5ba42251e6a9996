-- ===== src/Journal/References.antt =====
-- The outbox refers to events that are stored.
use virgil.Base.{
  ℕ, String, ◌≡◌, refl, Bool, true, List, [], ◌∷◌, Result, ok, err, ◌>>=◌, is_some, any_of, keep_if,
  all_of, arith, eq_refl, Bool-cases, inl, inr,
}
use virgil.Base.Dict.{Dict, get, put, get-put}
use virgil.Executions.{PolicyBlockNotice}
use virgil.Outbox.{OutboxRow, is_row}
use virgil.Counters.{PolicyOutcome, CostText, reconcile_policy_tx, increment_daily_counters}
use virgil.Telemetry.{Event}
use virgil.Journal.Blocks.{bind_ok, inserted, record_policy_block-Recorded}
use virgil.Journal.{
  Journal, JournalError, insert_event, insert_delivery, insert_deliveries, insert_all,
  append_transaction, append, postflight_and_append, record_policy_block, prune, prune_events,
  delete_events, delete_reservations, delete_repetitions, delete_runs, bad_destination, prepare,
  counted,
}

abbrev pub has_event : Dict Event → OutboxRow → Bool
has_event events row = is_some (get events row.event_id)

-- Every row of the outbox has its event.
abbrev pub refers : Dict Event → List OutboxRow → Bool
refers events rows = all_of (has_event events) rows

put-refers :
    (events : Dict Event) (id : String) (e : Event) (rows : List OutboxRow)
    → refers events rows ≡ true
    → refers (put events id e) rows ≡ true
put-refers events id e [] h = refl
put-refers events id e (r ∷ rows) h =
    ground (arith, put-refers events id e rows, get-put events id r.event_id e)

delivery-refers :
    (key : String → String → String) (events : Dict Event) (e : Event) (d : String) (now : ℕ)
    (rows rows' : List OutboxRow)
    → is_some (get events e.event_id) ≡ true
    → insert_delivery key rows e d now ≡ ok rows'
    → refers events rows ≡ true
    → refers events rows' ≡ true
unfolding insert_delivery
delivery-refers key events e d now rows rows' s h r = elim (Bool-cases (bad_destination d)) [
  | inl y ↦ absurd (ground arith)
  | inr n ↦ elim (Bool-cases (any_of (is_row d e.event_id) rows)) [
    | inl y ↦ absurd (ground arith)
    | inr m ↦ ground arith
  ]
]

deliveries-refers :
    (key : String → String → String) (events : Dict Event) (e : Event) (ds : List String) (now : ℕ)
    (rows rows' : List OutboxRow)
    → is_some (get events e.event_id) ≡ true
    → insert_deliveries key rows e ds now ≡ ok rows'
    → refers events rows ≡ true
    → refers events rows' ≡ true
unfolding insert_deliveries
deliveries-refers key events e [] now rows rows' s h r = ground arith
deliveries-refers key events e (d ∷ ds) now rows rows' s h r =
    let (rows₁, f, g) =
      bind_ok (insert_delivery key rows e d now) (λ rows. insert_deliveries key rows e ds now) rows'
        h in
    deliveries-refers key events e ds now rows₁ rows' s g
      (delivery-refers key events e d now rows rows₁ s f r)

-- A journal whose outbox refers to stored events.
abbrev pub IsReferential : Journal → Type 0
IsReferential j = refers j.events j.outbox ≡ true

insert_all-IsReferential :
    (key : String → String → String) (j j' : Journal) (e : Event) (ds : List String) (now : ℕ)
    → insert_all key j e ds now ≡ ok j'
    → IsReferential j
    → IsReferential j'
unfolding insert_all
insert_all-IsReferential key j j' e ds now h r =
    let (events, f, g) =
      bind_ok (insert_event j.events e)
        (λ events. insert_deliveries key j.outbox e ds now >>= λ outbox.
          ok (record j { events = events; outbox = outbox }))
        j' h in
    let (outbox, f', g') =
      bind_ok (insert_deliveries key j.outbox e ds now)
        (λ outbox. ok (record j { events = events; outbox = outbox })) j' g in
    let (free, same) = inserted j.events events e f in
    let there : is_some (get events e.event_id) ≡ true =
      ground (arith, get-put j.events e.event_id e.event_id e, eq_refl e.event_id) in
    let kept : refers events j.outbox ≡ true =
      rw same (put-refers j.events e.event_id e j.outbox r) in
    let goal : refers events outbox ≡ true =
      deliveries-refers key events e ds now j.outbox outbox there f' kept in
    ground (arith, goal)

kept_refer :
    (events : Dict Event) (rows : List OutboxRow)
    → refers events (keep_if (has_event events) rows) ≡ true
kept_refer events [] = refl
kept_refer events (r ∷ rows) = elim (Bool-cases (has_event events r)) [
  | inl y ↦ ground (arith, kept_refer events rows)
  | inr n ↦ ground (arith, kept_refer events rows)
]

prune-IsReferential :
    (j : Journal) (before carried : ℕ) → IsReferential j → IsReferential (prune j before carried)
unfolding prune delete_events delete_reservations delete_repetitions delete_runs
prune-IsReferential j before carried r =
    ground (arith, kept_refer (prune_events j.outbox before j.events) j.outbox)

append-IsReferential :
    (key : String → String → String) (j j' : Journal) (e : Event) (ds : List String) (now : ℕ)
    → append key j e ds now ≡ ok j'
    → IsReferential j
    → IsReferential j'
unfolding append append_transaction
append-IsReferential key j j' e ds now h r =
    let (e', f, g) = bind_ok (prepare e) (λ e'. insert_all key j e' ds now) j' (ground arith) in
    insert_all-IsReferential key j j' e' ds now g r

postflight-IsReferential :
    (key : String → String → String) (j j' : Journal) (o : PolicyOutcome) (e : Event)
    (ds : List String) (day : String) (cost : CostText) (now : ℕ)
    → postflight_and_append key j o e ds day cost now ≡ ok j'
    → IsReferential j
    → IsReferential j'
unfolding postflight_and_append
postflight-IsReferential key j j' o e ds day cost now h r =
    let (e', f, g) =
      bind_ok (prepare e)
        (λ e'. counted key (reconcile_policy_tx j.counters o) >>= λ settled.
          counted key (increment_daily_counters settled day cost) >>= λ counters.
          insert_all key (record j { counters = counters }) e' ds now)
        j' (ground arith) in
    let (settled, f₁, g₁) =
      bind_ok (counted key (reconcile_policy_tx j.counters o))
        (λ settled. counted key (increment_daily_counters settled day cost) >>= λ counters.
          insert_all key (record j { counters = counters }) e' ds now)
        j' g in
    let (counters, f₂, g₂) =
      bind_ok (counted key (increment_daily_counters settled day cost))
        (λ counters. insert_all key (record j { counters = counters }) e' ds now) j' g₁ in
    insert_all-IsReferential key (record j { counters = counters }) j' e' ds now g₂ r

block-IsReferential :
    (j j' : Journal) (e : Event) (n : PolicyBlockNotice)
    → record_policy_block j e n ≡ ok j'
    → IsReferential j
    → IsReferential j'
block-IsReferential j j' e n h r =
    let b = record_policy_block-Recorded j j' e n h in
    rw (b.events_after, b.outbox_kept) (put-refers j.events e.event_id e j.outbox r)

-- The operations that write events or the outbox.
pub data Call : Type 0 where
  appends : Event → List String → ℕ → Call
  postflights : PolicyOutcome → Event → List String → String → CostText → ℕ → Call
  records_block : Event → PolicyBlockNotice → Call
  prunes : ℕ → ℕ → Call

-- A transaction that fails leaves the journal as it was.
abbrev pub after : Journal → Result JournalError Journal → Journal
after j (ok j') = j'
after j (err e) = j

module _ (key : String → String → String) where
  unfoldable pub apply : Journal → Call → Journal
  apply j (appends e ds now) = after j (append key j e ds now)
  apply j (postflights o e ds day cost now) =
      after j (postflight_and_append key j o e ds day cost now)
  apply j (records_block e n) = after j (record_policy_block j e n)
  apply j (prunes before carried) = prune j before carried

  unfoldable pub run : Journal → List Call → Journal
  unfolding apply
  run j [] = j
  run j (c ∷ cs) = run (apply j c) cs

  after-IsReferential :
      (j : Journal) (m : Result JournalError Journal)
      → ((j' : Journal) → m ≡ ok j' → IsReferential j')
      → IsReferential j
      → IsReferential (after j m)
  after-IsReferential j (ok j') h r = h j' refl
  after-IsReferential j (err e) h r = r

  apply-IsReferential : (j : Journal) (c : Call) → IsReferential j → IsReferential (apply j c)
  unfolding apply
  apply-IsReferential j (appends e ds now) r =
      after-IsReferential j (append key j e ds now)
        (λ j' h. append-IsReferential key j j' e ds now h r) r
  apply-IsReferential j (postflights o e ds day cost now) r =
      after-IsReferential j (postflight_and_append key j o e ds day cost now)
        (λ j' h. postflight-IsReferential key j j' o e ds day cost now h r) r
  apply-IsReferential j (records_block e n) r =
      after-IsReferential j (record_policy_block j e n) (λ j' h. block-IsReferential j j' e n h r) r
  apply-IsReferential j (prunes before carried) r = prune-IsReferential j before carried r

-- Whatever the journal appends, settles, blocks and prunes, and whatever of it fails, every row of
-- the outbox keeps its event.
pub run-IsReferential :
    (key : String → String → String) (j : Journal) (cs : List Call)
    → IsReferential j
    → IsReferential (run key j cs)
unfolding run
run-IsReferential key j [] r = r
run-IsReferential key j (c ∷ cs) r =
    run-IsReferential key (apply key j c) cs (apply-IsReferential key j c r)

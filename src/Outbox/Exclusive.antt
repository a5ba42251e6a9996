-- ===== src/Outbox/Exclusive.antt =====
-- A leased row has one holder until its lease expires.
use virgil.Base.{
  ℕ, ◌+◌, ◌≤◌, leb, String, str_eq, Bool, true, false, ◌&&◌, ◌||◌, Option, none, some, List, [],
  ◌∷◌, map, ok, all_of, any_of, ◌≡◌, refl, arith, ap, ◌∙◌, sym, eq_iff, Bool-cases, inl, inr,
}
use mathlib.Core.Path.{subst}
use virgil.Outbox.{
  OutboxRow, Delivery, is_row, is_due, is_ready, is_sending, selected, leased, update_rows,
  mark_leased, lease, delivery_of, lease_duration,
}
use virgil.Outbox.Keyed.{
  keyed, has_row, all_selected, all_update, is_delivered, is_dead, any_mark, all_weaken,
}
use virgil.Outbox.Delivered.{Call, run, spares, IsStable, run-has_row}

abbrev pub lasts : Option ℕ → ℕ → Bool
lasts none until = false
lasts (some t) until = leb until t

-- The row is leased at least until then.
abbrev pub held : ℕ → OutboxRow → Bool
held until row = is_sending row.state && lasts row.lease_until until

unfoldable pub names : String → List OutboxRow → Bool
names id [] = false
names id (r ∷ rows) = str_eq r.event_id id || names id rows

-- Whether an event is among the deliveries of a lease.
unfoldable pub delivers : String → List Delivery → Bool
delivers id [] = false
delivers id (d ∷ ds) = str_eq d.event_id id || delivers id ds

pub delivers-map :
    (id : String) (rows : List OutboxRow) → delivers id (map delivery_of rows) ≡ names id rows
unfolding delivers names
delivers-map id [] = refl
delivers-map id (r ∷ rows) = ground (arith, delivers-map id rows)

update_held :
    (destination event id : String) (now : ℕ) (rows : List OutboxRow)
    → all_of (keyed (held (now + lease_duration)) destination id) rows ≡ true
    → all_of
        (keyed (held (now + lease_duration)) destination id)
        (update_rows (is_row destination event) (leased now) rows)
      ≡ true
update_held destination event id now rows h =
    all_update (keyed (held (now + lease_duration)) destination id) (is_row destination event)
      (leased now) rows (λ r q t. ground arith) h

-- The updated rows are held.
update_holds :
    (destination id : String) (now : ℕ) (rows : List OutboxRow)
    → all_of
        (keyed (held (now + lease_duration)) destination id)
        (update_rows (is_row destination id) (leased now) rows)
      ≡ true
unfolding update_rows
update_holds destination id now [] = refl
update_holds destination id now (r ∷ rows) = elim (Bool-cases (is_row destination id r)) [
  | inl t ↦ rw t (ground (arith, update_holds destination id now rows))
  | inr t ↦ rw t (ground (arith, update_holds destination id now rows))
]

mark_keeps :
    (destination id : String) (now : ℕ) (due rows : List OutboxRow)
    → all_of (keyed (held (now + lease_duration)) destination id) rows ≡ true
    → all_of
        (keyed (held (now + lease_duration)) destination id)
        (mark_leased destination now due rows)
      ≡ true
unfolding mark_leased
mark_keeps destination id now [] rows h = h
mark_keeps destination id now (r ∷ due) rows h =
    mark_keeps destination id now due
      (update_rows (is_row destination r.event_id) (leased now) rows)
      (update_held destination r.event_id id now rows h)

pub mark_holds :
    (destination id : String) (now : ℕ) (due rows : List OutboxRow)
    → names id due ≡ true
    → all_of
        (keyed (held (now + lease_duration)) destination id)
        (mark_leased destination now due rows)
      ≡ true
unfolding mark_leased names
mark_holds destination id now [] rows h = absurd (ground arith)
mark_holds destination id now (r ∷ due) rows h = elim (Bool-cases (str_eq r.event_id id)) [
  | inl t ↦
      mark_keeps destination id now due
        (update_rows (is_row destination r.event_id) (leased now) rows)
        (subst
          (λ x.
            all_of (keyed (held (now + lease_duration)) destination id)
              (update_rows (is_row destination x) (leased now) rows)
            ≡ true)
          (sym ((eq_iff r.event_id id).0 t)) (update_holds destination id now rows))
  | inr t ↦
      mark_holds destination id now due
        (update_rows (is_row destination r.event_id) (leased now) rows) (ground arith)
]

-- The row is leased, delivered or given up: a lease does not take it by then.
abbrev pub out_of_reach : ℕ → OutboxRow → Bool
out_of_reach until row = held until row || is_delivered row.state || is_dead row.state

abbrev pub by_then : ℕ → ℕ → Bool
by_then until now = leb now until

out_of_reach-IsStable : (until : ℕ) → IsStable (out_of_reach until) (by_then until)
out_of_reach-IsStable until = record {
  not_due = λ now r h t. ground arith;
  acked = λ r h s. ground arith;
  dead = λ code r h s. ground arith;
}

-- No row is due that a test keeps from being due.
none_named :
    (p : OutboxRow → Bool) (destination id : String) (now : ℕ) (rows : List OutboxRow)
    → ((r : OutboxRow) → p r ≡ true → is_ready r.state r now ≡ false)
    → all_of (λ r. keyed p destination id r && is_due destination now r) rows ≡ true
    → names id rows ≡ false
unfolding names is_due
none_named p destination id now [] f h = refl
none_named p destination id now (r ∷ rows) f h =
    ground (arith, f r, none_named p destination id now rows f)

abbrev never : OutboxRow → Bool
never row = false

all_absent :
    (destination id : String) (rows : List OutboxRow)
    → any_of (is_row destination id) rows ≡ false
    → all_of (keyed never destination id) rows ≡ true
all_absent destination id [] h = refl
all_absent destination id (r ∷ rows) h = ground (arith, all_absent destination id rows)

-- What is selected is in the table.
pub any_named :
    (destination id : String) (limit now : ℕ) (rows : List OutboxRow)
    → names id (selected destination limit now rows) ≡ true
    → any_of (is_row destination id) rows ≡ true
any_named destination id limit now rows h =
    elim (Bool-cases (any_of (is_row destination id) rows)) [
      | inl y ↦ y
      | inr n ↦ absurd (
          cc (
            none_named never destination id now (selected destination limit now rows)
              (λ r e. absurd (cc))
              (all_selected (keyed never destination id) destination limit now rows
                (all_absent destination id rows n))))
    ]

pub lease-marked :
    (decodes : String → Bool) (rows rows' : List OutboxRow) (destination : String) (limit now : ℕ)
    (ds : List Delivery)
    → lease decodes rows destination limit now ≡ ok (ds, rows')
    → (ds ≡ map delivery_of (selected destination limit now rows))
      × (rows' ≡ mark_leased destination now (selected destination limit now rows) rows)
unfolding lease
lease-marked decodes rows rows' destination limit now ds h = (ground arith, ground arith)

-- What a lease delivers is in the table that it leaves, and held.
pub lease-has_row :
    (decodes : String → Bool) (rows rows' : List OutboxRow) (destination id : String)
    (limit now : ℕ) (ds : List Delivery)
    → lease decodes rows destination limit now ≡ ok (ds, rows')
    → delivers id ds ≡ true
    → has_row (held (now + lease_duration)) destination id rows' ≡ true
lease-has_row decodes rows rows' destination id limit now ds h d =
    let (a, b) = lease-marked decodes rows rows' destination limit now ds h in
    let due = selected destination limit now rows in
    let named = sym (delivers-map id due) ∙ ap (delivers id) (sym a) ∙ d in
    rw b (
      ground (
        arith,
        any_mark destination id destination now due rows
            (any_named destination id limit now rows named),
        mark_holds destination id now due rows named,
      ))

-- An event that a lease delivers is not delivered by another lease of the same destination until the
-- lease has expired, whatever is leased, acknowledged and given up in between, and whatever failures
-- are reported in between for other events or to other destinations.
pub lease_exclusive :
    (decodes : String → Bool) (rows rows1 rows2 : List OutboxRow) (destination id : String)
    (limit other now later : ℕ) (ds es : List Delivery) (cs : List Call)
    → lease decodes rows destination limit now ≡ ok (ds, rows1)
    → all_of (spares destination id (by_then (now + lease_duration))) cs ≡ true
    → lease decodes (run decodes rows1 cs) destination other later ≡ ok (es, rows2)
    → later ≤ now + lease_duration
    → delivers id ds ≡ true
    → delivers id es ≡ false
lease_exclusive decodes rows rows1 rows2 destination id limit other now later ds es cs h s k early
      d =
    let until = now + lease_duration in
    let start : has_row (out_of_reach until) destination id rows1 ≡ true = ground (
      arith,
      lease-has_row decodes rows rows1 destination id limit now ds h d,
      all_weaken (keyed (held until) destination id) (keyed (out_of_reach until) destination id)
          rows1 (λ r e. ground arith),
    ) in
    let rows' = run decodes rows1 cs in
    let there =
      run-has_row (out_of_reach until) (by_then until) (out_of_reach-IsStable until) destination id
        decodes rows1 cs s start in
    let (c, _) = lease-marked decodes rows' rows2 destination other later es k in
    ap (delivers id) c
    ∙ delivers-map id (selected destination other later rows')
    ∙ none_named (out_of_reach until) destination id later (selected destination other later rows')
        (λ r e. (out_of_reach-IsStable until).not_due later r e (ground arith))
        (all_selected (keyed (out_of_reach until) destination id) destination other later rows'
          (ground arith))

-- ===== src/Outbox/Keyed.antt =====
-- Tests on the rows of one key, and the updates that keep them.
use virgil.Base.{
  ℕ, zero, suc, leb, String, Bool, true, false, ◌&&◌, ◌||◌, not, some, List, [], ◌∷◌, keep_if,
  all_of, any_of, ◌≡◌, refl, arith, Bool-cases, inl, inr,
}
use virgil.Outbox.{
  OutboxRow, DeliveryState, delivered, dead_letter, is_row, is_due, in_order, sort_rows, take_rows,
  selected, leased, update_rows, mark_leased, ack, acknowledged, attempts_of, is_sending,
}

-- A row with this key satisfies the test.
abbrev pub keyed : (OutboxRow → Bool) → String → String → OutboxRow → Bool
keyed p destination id row = not (is_row destination id row) || p row

-- The table has a row with this key, and each one satisfies the test.
abbrev pub has_row : (OutboxRow → Bool) → String → String → List OutboxRow → Bool
has_row p destination id rows =
    any_of (is_row destination id) rows && all_of (keyed p destination id) rows

all_keep :
    (q p : OutboxRow → Bool) (rows : List OutboxRow)
    → all_of q rows ≡ true
    → all_of (λ r. q r && p r) (keep_if p rows) ≡ true
all_keep q p [] h = refl
all_keep q p (r ∷ rows) h = ground (arith, all_keep q p rows)

all_in_order :
    (q : OutboxRow → Bool) (r : OutboxRow) (rows : List OutboxRow)
    → q r ≡ true
    → all_of q rows ≡ true
    → all_of q (in_order r rows) ≡ true
unfolding in_order
all_in_order q r [] h k = ground arith
all_in_order q r (s ∷ rows) h k = ground (arith, all_in_order q r rows)

all_sort :
    (q : OutboxRow → Bool) (rows : List OutboxRow)
    → all_of q rows ≡ true
    → all_of q (sort_rows rows) ≡ true
unfolding sort_rows
all_sort q [] h = refl
all_sort q (r ∷ rows) h =
    all_in_order q r (sort_rows rows) (ground arith) (all_sort q rows (ground arith))

all_take :
    (q : OutboxRow → Bool) (n : ℕ) (rows : List OutboxRow)
    → all_of q rows ≡ true
    → all_of q (take_rows n rows) ≡ true
unfolding take_rows
all_take q zero rows h = refl
all_take q (suc n) [] h = refl
all_take q (suc n) (r ∷ rows) h = ground (arith, all_take q n rows)

-- The rows that are selected are due, and are rows of the table.
pub all_selected :
    (q : OutboxRow → Bool) (destination : String) (limit now : ℕ) (rows : List OutboxRow)
    → all_of q rows ≡ true
    → all_of (λ r. q r && is_due destination now r) (selected destination limit now rows) ≡ true
unfolding selected
all_selected q destination limit now rows h =
    all_take (λ r. q r && is_due destination now r) limit
      (sort_rows (keep_if (is_due destination now) rows))
      (all_sort (λ r. q r && is_due destination now r) (keep_if (is_due destination now) rows)
        (all_keep q (is_due destination now) rows h))

pub all_update :
    (q test : OutboxRow → Bool) (change : OutboxRow → OutboxRow) (rows : List OutboxRow)
    → ((r : OutboxRow) → q r ≡ true → test r ≡ true → q (change r) ≡ true)
    → all_of q rows ≡ true
    → all_of q (update_rows test change rows) ≡ true
unfolding update_rows
all_update q test change [] f h = refl
all_update q test change (r ∷ rows) f h = elim (Bool-cases (test r)) [
  | inl t ↦ rw t (ground (arith, f r, all_update q test change rows f))
  | inr t ↦ rw t (ground (arith, all_update q test change rows f))
]

abbrev pub is_delivered : DeliveryState → Bool
is_delivered delivered = true
is_delivered _ = false

abbrev pub is_dead : DeliveryState → Bool
is_dead dead_letter = true
is_dead _ = false

-- An update that keeps the keys keeps a row there.
pub any_update :
    (d id : String) (test : OutboxRow → Bool) (change : OutboxRow → OutboxRow)
    (rows : List OutboxRow)
    → ((r : OutboxRow) → is_row d id (change r) ≡ is_row d id r)
    → any_of (is_row d id) rows ≡ true
    → any_of (is_row d id) (update_rows test change rows) ≡ true
unfolding update_rows
any_update d id test change [] f h = absurd (ground arith)
any_update d id test change (r ∷ rows) f h = elim (Bool-cases (test r)) [
  | inl t ↦ rw t (ground (arith, f r, any_update d id test change rows f))
  | inr t ↦ rw t (ground (arith, f r, any_update d id test change rows f))
]

pub any_mark :
    (d id destination : String) (now : ℕ) (due rows : List OutboxRow)
    → any_of (is_row d id) rows ≡ true
    → any_of (is_row d id) (mark_leased destination now due rows) ≡ true
unfolding mark_leased
any_mark d id destination now [] rows h = h
any_mark d id destination now (r ∷ due) rows h =
    any_mark d id destination now due
      (update_rows (is_row destination r.event_id) (leased now) rows)
      (any_update d id (is_row destination r.event_id) (leased now) rows (λ s. refl) h)

pub any_ack :
    (d id destination : String) (ids : List String) (rows : List OutboxRow)
    → any_of (is_row d id) rows ≡ true
    → any_of (is_row d id) (ack rows destination ids) ≡ true
unfolding ack
any_ack d id destination [] rows h = h
any_ack d id destination (i ∷ ids) rows h =
    any_ack d id destination ids
      (update_rows (λ row. is_row destination i row && is_sending row.state) acknowledged rows)
      (any_update d id (λ row. is_row destination i row && is_sending row.state) acknowledged rows
        (λ s. refl) h)

pub any_attempts :
    (rows : List OutboxRow) (d id : String) (n : ℕ)
    → attempts_of rows d id ≡ some n
    → any_of (is_row d id) rows ≡ true
unfolding attempts_of
any_attempts [] d id n h = absurd (cc)
any_attempts (r ∷ rows) d id n h = elim (Bool-cases (is_row d id r)) [
  | inl y ↦ ground arith
  | inr m ↦ ground (arith, any_attempts rows d id n)
]

pub all_weaken :
    (q p : OutboxRow → Bool) (rows : List OutboxRow)
    → ((r : OutboxRow) → q r ≡ true → p r ≡ true)
    → all_of q rows ≡ true
    → all_of p rows ≡ true
all_weaken q p [] f h = refl
all_weaken q p (r ∷ rows) f h = ground (arith, f r, all_weaken q p rows f)

-- The leases of other rows keep a test that they do not look at.
pub all_mark :
    (q : OutboxRow → Bool) (destination : String) (now : ℕ) (due rows : List OutboxRow)
    → ((r : OutboxRow) → q r ≡ true → q (leased now r) ≡ true)
    → all_of q rows ≡ true
    → all_of q (mark_leased destination now due rows) ≡ true
unfolding mark_leased
all_mark q destination now [] rows f h = h
all_mark q destination now (r ∷ due) rows f h =
    all_mark q destination now due (update_rows (is_row destination r.event_id) (leased now) rows) f
      (all_update q (is_row destination r.event_id) (leased now) rows (λ s e t. f s e) h)

-- The attempts that a failure reads are those of a row of the key.
pub attempts_of-bound :
    (q : OutboxRow → Bool) (d id : String) (n k : ℕ) (rows : List OutboxRow)
    → ((r : OutboxRow) → q r ≡ true → leb n r.attempts ≡ true)
    → attempts_of rows d id ≡ some k
    → all_of (keyed q d id) rows ≡ true
    → leb n k ≡ true
unfolding attempts_of
attempts_of-bound q d id n k [] f e h = absurd (cc)
attempts_of-bound q d id n k (r ∷ rows) f e h = elim (Bool-cases (is_row d id r)) [
  | inl y ↦ ground (arith, f r)
  | inr m ↦ ground (arith, attempts_of-bound q d id n k rows f)
]

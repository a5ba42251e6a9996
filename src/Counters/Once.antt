-- ===== src/Counters/Once.antt =====
-- A reservation is settled once, and settling it never underflows.
use virgil.Base.{
  ◌≤◌, str_eq, true, false, ◌||◌, Option, none, some, ok, err, ◌≡◌, ◌≢◌, refl, arith, eq_iff,
  eq_refl, Bool-cases, Option-cases, ◌⊎◌, inl, inr,
}
use virgil.Base.Dict.{Dict, get, get-put}
use virgil.Base.Int.{ℤ, pos_part, ltb_ℤ}
use virgil.Counters.{
  PolicyOutcome, PolicyRun, Reservation, DailyCounter, Counters, CounterError, underflow,
  unknown_run, unknown_reservation, settle, store_settled, reconcile_found, reconcile_policy_tx,
}
use virgil.Counters.Totals.{total, share-le-total}
use virgil.Counters.Ledger.{one, input_column, output_column, tools_column, IsLedger}
use virgil.Counters.Reconcile.{already, settled, reconcile-Reconciled}

pub settled_noop :
    (s : Counters) (o : PolicyOutcome) (x : Reservation)
    → get s.reservations o.reservation_id ≡ some x
    → x.run_id ≡ o.run_id
    → x.reconciled ≡ true
    → reconcile_policy_tx s o ≡ ok s
unfolding reconcile_policy_tx reconcile_found
settled_noop s o x e m d = rw (e, reconcile_found, m, eq_refl, d)

-- The same whatever the days count.
pub reconcile_again :
    (s : Counters) (o later : PolicyOutcome) (s' : Counters) (daily : Dict DailyCounter)
    → reconcile_policy_tx s o ≡ ok s'
    → later.reservation_id ≡ o.reservation_id
    → later.run_id ≡ o.run_id
    → reconcile_policy_tx (record s' { daily = daily }) later ≡ ok (record s' { daily = daily })
reconcile_again s o later s' daily h same_reservation same_run =
    elim (reconcile-Reconciled s o s' h) [
      | already old e m d q ↦ rw q (settled_noop (record s { daily = daily }) later old (cc) (cc) d)
      | settled old run new e m u g c q ↦ rw q (
          settled_noop (record (store_settled s o new) { daily = daily }) later new.reservation
            (rw (same_reservation, get-put, eq_refl)) (cc (c.run_kept)) c.done)
    ]

settle_underflow :
    (o : PolicyOutcome) (run : PolicyRun) (old : Reservation)
    → settle o run old ≡ err underflow
    → (ltb_ℤ run.input_tokens old.input_tokens
        || ltb_ℤ run.output_tokens old.output_tokens
        || ltb_ℤ run.tool_calls old.tool_calls)
      ≡ true
unfolding settle
settle_underflow o run old h = ground arith

settle_has_run :
    (o : PolicyOutcome) (run : PolicyRun) (old : Reservation) → settle o run old ≢ err unknown_run
unfolding settle
settle_has_run o run old = ground arith

module _ (s : Counters) (o : PolicyOutcome) (old : Reservation) (v : IsLedger s)
    (e : get s.reservations o.reservation_id ≡ some old) (m : old.run_id ≡ o.run_id) where
  own : (column : Reservation → ℤ) → pos_part (column old) ≤ total column o.run_id s.reservations
  own column = ground (
    arith,
    share-le-total column o.run_id s.reservations o.reservation_id old e,
    eq_refl o.run_id,
  )

  has_run : get s.runs o.run_id ≢ none
  has_run free = ground (arith, own one, v.absent o.run_id free one)

  covers :
      (run : PolicyRun)
      → get s.runs o.run_id ≡ some run
      → (ltb_ℤ run.input_tokens old.input_tokens
          || ltb_ℤ run.output_tokens old.output_tokens
          || ltb_ℤ run.tool_calls old.tool_calls)
        ≡ false
  covers run g =
      let b = v.rows o.run_id run g in
      let n = v.reserved o.reservation_id old e in
      ground (
        arith,
        b.input,
        b.output,
        b.tools,
        n.input,
        n.output,
        n.tools,
        own input_column,
        own output_column,
        own tools_column,
      )

-- Where a reconciliation can fail.
data Failed (s : Counters) (o : PolicyOutcome) (x : CounterError) : Type 0 where
  unknown : x ≡ unknown_reservation → Failed s o x
  found :
      (old : Reservation)
      → get s.reservations o.reservation_id ≡ some old
      → old.run_id ≡ o.run_id
      → ((get s.runs o.run_id ≡ none) × (x ≡ unknown_run))
        ⊎ ((run : PolicyRun) × (get s.runs o.run_id ≡ some run) × (settle o run old ≡ err x))
      → Failed s o x

found-Failed :
    (s : Counters) (o : PolicyOutcome) (found_row : Option Reservation) (x : CounterError)
    → get s.reservations o.reservation_id ≡ found_row
    → reconcile_found s o found_row ≡ err x
    → Failed s o x
unfolding reconcile_found
found-Failed s o none x e h = unknown (ground arith)
found-Failed s o (some old) x e h = elim (Bool-cases (str_eq old.run_id o.run_id)) [
  | inr other ↦ unknown (ground arith)
  | inl m ↦ elim (Option-cases (get s.runs o.run_id)) [
    | inl g ↦ found old e ((eq_iff old.run_id o.run_id).0 m) (inl (g, ground arith))
    | inr (run, g) ↦ found old e ((eq_iff old.run_id o.run_id).0 m) (inr (run, g, ground arith))
  ]
]

-- In a balanced ledger the counters never underflow, and no reservation lacks its run.
pub reconcile-no_underflow :
    (s : Counters) (o : PolicyOutcome)
    → IsLedger s
    → (reconcile_policy_tx s o ≢ err underflow) × (reconcile_policy_tx s o ≢ err unknown_run)
unfolding reconcile_policy_tx
reconcile-no_underflow s o v = (
  λ h. elim (found-Failed s o _ underflow refl h) [
    | unknown q ↦ cc
    | found old e m (inl (g, q)) ↦ cc
    | found old e m (inr (run, g, q)) ↦
        cc (settle_underflow o run old q, covers s o old v e m run g)
  ],
  λ h. elim (found-Failed s o _ unknown_run refl h) [
    | unknown q ↦ cc
    | found old e m (inl (g, q)) ↦ has_run s o old v e m g
    | found old e m (inr (run, g, q)) ↦ settle_has_run o run old q
  ],
)

-- ===== src/Counters/Settling.antt =====
-- A settlement keeps the ledger balanced.
use virgil.Base.{
  ℕ, ◌+◌, ◌-◌, ◌≤◌, String, str_eq, false, some, ok, ◌≡◌, sym, ap, ◌∙◌, arith, eq_iff, eq_refl,
  Bool-cases, inl, inr,
}
use mathlib.Core.Path.{subst, subst₂}
use virgil.Base.Dict.{Dict, get, put, get-put}
use virgil.Base.Int.{ℤ, pos, negsuc, pos_part, ◌+ℤ◌, ◌-ℤ◌, is_negative, pos-+ℤ-pos, pos--ℤ-pos}
use virgil.Counters.{
  PolicyOutcome, PolicyRun, Reservation, Counters, Settled, store_settled, reconcile_policy_tx,
}
use virgil.Counters.Checked.{IsSum}
use virgil.Counters.Totals.{share, total, total-put_old, share-le-total}
use virgil.Counters.Ledger.{
  one, input_column, output_column, tools_column, cost_column, IsBalanced, IsNonneg, IsLedger,
}
use virgil.Counters.Reconcile.{IsSettlement, already, settled, reconcile-Reconciled}

adjust :
    (count old new next : ℤ) (t t' : ℕ)
    → count ≡ pos t
    → is_negative old ≡ false
    → pos_part old ≤ t
    → t' + pos_part old ≡ t + pos_part new
    → IsSum (count -ℤ old) new next
    → next ≡ pos t'
adjust count (negsuc x) new next t t' b n held moved s = absurd (cc)
adjust count (pos x) new next t t' b n held moved s =
    let left : s.left ≡ t - x = ground (arith, pos--ℤ-pos t x held) in
    s.sum_eq ∙ ap pos (ground arith)

adjust_cost : (t t' r u : ℕ) → r ≤ t → t' + r ≡ t + u → pos t -ℤ pos r +ℤ pos u ≡ pos t'
adjust_cost t t' r u h e = rw (pos--ℤ-pos t r h, pos-+ℤ-pos (t - r) u) (ap pos (omega arith))

module _ (s : Counters) (o : PolicyOutcome) (old : Reservation) (run : PolicyRun) (new : Settled)
    (v : IsLedger s) (e : get s.reservations o.reservation_id ≡ some old)
    (same_run : old.run_id ≡ o.run_id) (g : get s.runs o.run_id ≡ some run)
    (c : IsSettlement o run old new) where
  settled_reservations : Dict Reservation
  settled_reservations = put s.reservations o.reservation_id new.reservation

  new_run : new.reservation.run_id ≡ o.run_id
  new_run = c.run_kept ∙ same_run

  moved :
      (column : Reservation → ℤ) (k : String)
      → total column k settled_reservations + share column k old
        ≡ total column k s.reservations + share column k new.reservation
  unfolding settled_reservations
  moved column k = total-put_old column k s.reservations o.reservation_id new.reservation old e

  own_share : (column : Reservation → ℤ) → share column o.run_id old ≡ pos_part (column old)
  own_share column = rw (same_run, eq_refl)

  own_new_share :
      (column : Reservation → ℤ)
      → share column o.run_id new.reservation ≡ pos_part (column new.reservation)
  own_new_share column = rw (new_run, eq_refl)

  unmoved :
      (column : Reservation → ℤ) (k : String)
      → str_eq o.run_id k ≡ false
      → total column k settled_reservations ≡ total column k s.reservations
  unmoved column k other = ground (arith, moved column k, same_run, new_run)

  -- A count of the run that loses what was reserved and gains what was used.
  adjusted :
      (column : Reservation → ℤ) (count next : ℤ)
      → count ≡ pos (total column o.run_id s.reservations)
      → is_negative (column old) ≡ false
      → IsSum (count -ℤ column old) (column new.reservation) next
      → next ≡ pos (total column o.run_id settled_reservations)
  adjusted column count next b n sum =
      adjust count (column old) (column new.reservation) next _ _ b n
        (ground (
          arith,
          share-le-total column o.run_id s.reservations o.reservation_id old e,
          own_share column,
        ))
        (ground (arith, moved column o.run_id, own_share column, own_new_share column)) sum

  balance : IsBalanced s.reservations o.run_id run
  balance = v.rows o.run_id run g

  nonneg : IsNonneg old
  nonneg = v.reserved o.reservation_id old e

  calls_same : total one o.run_id settled_reservations ≡ total one o.run_id s.reservations
  calls_same = ground (arith, moved one o.run_id, own_share one, own_new_share one)

  settled_input : new.run.input_tokens ≡ pos (total input_column o.run_id settled_reservations)
  settled_input = adjusted input_column _ _ balance.input nonneg.input c.input

  settled_output : new.run.output_tokens ≡ pos (total output_column o.run_id settled_reservations)
  settled_output = adjusted output_column _ _ balance.output nonneg.output c.output

  settled_tools : new.run.tool_calls ≡ pos (total tools_column o.run_id settled_reservations)
  settled_tools = adjusted tools_column _ _ balance.tools nonneg.tools c.tools

  settled_cost : new.run.cost_usd ≡ pos (total cost_column o.run_id settled_reservations)
  settled_cost =
      let held = share-le-total cost_column o.run_id s.reservations o.reservation_id old e in
      c.cost
      ∙ adjust_cost c.current (total cost_column o.run_id settled_reservations) c.reserved c.used
          (ground (arith, held, own_share cost_column, balance.cost, c.current_eq, c.reserved_eq))
          (ground (
            arith,
            moved cost_column o.run_id,
            own_share cost_column,
            own_new_share cost_column,
            balance.cost,
            c.current_eq,
            c.reserved_eq,
            c.used_eq,
          ))

  settled-IsBalanced : IsBalanced settled_reservations o.run_id new.run
  settled-IsBalanced = record {
    calls = c.calls_kept ∙ balance.calls ∙ ap pos (sym calls_same);
    input = settled_input;
    output = settled_output;
    tools = settled_tools;
    cost = settled_cost;
    calls_fit = rw calls_same balance.calls_fit;
    tokens_fit = ground (arith, settled_input, settled_output, c.fits);
    tools_fit = ground (arith, settled_tools, c.tools);
  }

  unmoved-IsBalanced :
      (k : String) (row : PolicyRun)
      → str_eq o.run_id k ≡ false
      → IsBalanced s.reservations k row
      → IsBalanced settled_reservations k row
  unmoved-IsBalanced k row other b = record {
    calls = rw (unmoved one k other) b.calls;
    input = rw (unmoved input_column k other) b.input;
    output = rw (unmoved output_column k other) b.output;
    tools = rw (unmoved tools_column k other) b.tools;
    cost = rw (unmoved cost_column k other) b.cost;
    calls_fit = rw (unmoved one k other) b.calls_fit;
    tokens_fit = rw (unmoved input_column k other, unmoved output_column k other) b.tokens_fit;
    tools_fit = rw (unmoved tools_column k other) b.tools_fit;
  }

  settled-IsNonneg : IsNonneg new.reservation
  settled-IsNonneg = record {
    input = ground (arith, c.input.right_eq);
    output = ground (arith, c.output.right_eq);
    tools = ground (arith, c.tools.right_eq);
    cost = ground (arith, c.used_eq);
  }

  settled-IsLedger : IsLedger (store_settled s o new)
  unfolding settled_reservations
  settled-IsLedger = record {
    rows = λ k row h. elim (Bool-cases (str_eq o.run_id k)) [
      | inl same ↦
          subst₂ (IsBalanced settled_reservations) ((eq_iff o.run_id k).0 same)
            (ground (arith, get-put s.runs o.run_id k new.run)) settled-IsBalanced
      | inr other ↦
          unmoved-IsBalanced k row other
            (v.rows k row (ground (arith, get-put s.runs o.run_id k new.run)))
    ];
    absent = λ k h column. elim (Bool-cases (str_eq o.run_id k)) [
      | inl same ↦ absurd (ground (arith, get-put s.runs o.run_id k new.run))
      | inr other ↦
          unmoved column k other
          ∙ v.absent k (ground (arith, get-put s.runs o.run_id k new.run)) column
    ];
    reserved = λ id x h. elim (Bool-cases (str_eq o.reservation_id id)) [
      | inl same ↦
          subst IsNonneg
            (ground (arith, get-put s.reservations o.reservation_id id new.reservation))
            settled-IsNonneg
      | inr other ↦
          v.reserved id x
            (ground (arith, get-put s.reservations o.reservation_id id new.reservation))
    ];
  }

-- Every reconciliation that returns no error keeps the ledger balanced.
pub reconcile-IsLedger :
    (s : Counters) (o : PolicyOutcome) (s' : Counters)
    → IsLedger s
    → reconcile_policy_tx s o ≡ ok s'
    → IsLedger s'
reconcile-IsLedger s o s' v h = elim (reconcile-Reconciled s o s' h) [
  | already old e m d same ↦ rw same v
  | settled old run new e m u g c q ↦ rw q (settled-IsLedger s o old run new v e m g c)
]

-- ===== src/Counters/Reconcile.antt =====
-- What `ReconcilePolicy` does to the counters, and that it keeps the ledger balanced.
use virgil.Base.{
  ℕ, str_eq, true, false, Option, none, some, [], ◌∷◌, ok, ◌>>=◌, ◌≡◌, refl, arith, eq_iff,
  Bool-cases, Option-cases, Result-cases, inl, inr,
}
use virgil.Base.Dict.{get}
use virgil.Base.Int.{ℤ, pos, pos_part, ◌+ℤ◌, ◌-ℤ◌}
use virgil.Counters.{
  PolicyOutcome, PolicyRun, Reservation, Counters, checked_add, actual_or, actual_cost, Settled,
  settle, store_settled, reconcile_found, reconcile_policy_tx,
}
use virgil.Counters.Checked.{IsSum, checked_add_two}

-- A settlement: each count of the run loses what was reserved and gains what was used, and the
-- reservation then holds what was used.
pub record IsSettlement (o : PolicyOutcome) (run : PolicyRun) (old : Reservation) (new : Settled)
    : Type 0 where
  pub input :
      IsSum (run.input_tokens -ℤ old.input_tokens) new.reservation.input_tokens new.run.input_tokens
  pub output :
      IsSum
        (run.output_tokens -ℤ old.output_tokens)
        new.reservation.output_tokens
        new.run.output_tokens
  pub tools : IsSum (run.tool_calls -ℤ old.tool_calls) new.reservation.tool_calls new.run.tool_calls
  pub current : ℕ
  pub reserved : ℕ
  pub used : ℕ
  pub current_eq : run.cost_usd ≡ pos current
  pub reserved_eq : old.cost_usd ≡ pos reserved
  pub used_eq : new.reservation.cost_usd ≡ pos used
  pub cost : new.run.cost_usd ≡ pos current -ℤ pos reserved +ℤ pos used
  pub fits : (c : ℤ) × IsSum new.run.input_tokens new.run.output_tokens c
  pub input_actual : new.reservation.input_tokens ≡ actual_or o.input_tokens old.input_tokens
  pub output_actual : new.reservation.output_tokens ≡ actual_or o.output_tokens old.output_tokens
  pub tools_actual : new.reservation.tool_calls ≡ actual_or o.tool_calls old.tool_calls
  pub cost_actual : actual_cost o.cost_usd reserved ≡ some used
  pub calls_kept : new.run.calls ≡ run.calls
  pub start_kept : new.run.started_at_unix_ns ≡ run.started_at_unix_ns
  pub run_kept : new.reservation.run_id ≡ old.run_id
  pub done : new.reservation.reconciled ≡ true

settle_fits :
    (o : PolicyOutcome) (run : PolicyRun) (old : Reservation) (new : Settled)
    → settle o run old ≡ ok new
    → (c : ℤ) × IsSum new.run.input_tokens new.run.output_tokens c
unfolding settle
settle_fits o run old new h =
    elim (Option-cases (checked_add (new.run.input_tokens ∷ new.run.output_tokens ∷ []))) [
      | inl e ↦ absurd (ground arith)
      | inr (c, e) ↦ (c, checked_add_two new.run.input_tokens new.run.output_tokens c e)
    ]

settle-IsSettlement :
    (o : PolicyOutcome) (run : PolicyRun) (old : Reservation) (new : Settled)
    → settle o run old ≡ ok new
    → IsSettlement o run old new
unfolding settle
settle-IsSettlement o run old new h = record {
  input = ground (
    arith,
    checked_add_two (run.input_tokens -ℤ old.input_tokens)
        (actual_or o.input_tokens old.input_tokens) new.run.input_tokens,
  );
  output = ground (
    arith,
    checked_add_two (run.output_tokens -ℤ old.output_tokens)
        (actual_or o.output_tokens old.output_tokens) new.run.output_tokens,
  );
  tools = ground (
    arith,
    checked_add_two (run.tool_calls -ℤ old.tool_calls) (actual_or o.tool_calls old.tool_calls)
        new.run.tool_calls,
  );
  current = pos_part run.cost_usd;
  reserved = pos_part old.cost_usd;
  used = pos_part new.reservation.cost_usd;
  current_eq = ground arith;
  reserved_eq = ground arith;
  used_eq = ground arith;
  cost = ground arith;
  fits = settle_fits o run old new h;
  input_actual = ground arith;
  output_actual = ground arith;
  tools_actual = ground arith;
  cost_actual = ground arith;
  calls_kept = ground arith;
  start_kept = ground arith;
  run_kept = ground arith;
  done = ground arith;
}

-- The two ways in which a reconciliation returns no error.
pub data Reconciled (s : Counters) (o : PolicyOutcome) (s' : Counters) : Type 0 where
  already :
      (old : Reservation)
      → get s.reservations o.reservation_id ≡ some old
      → old.run_id ≡ o.run_id
      → old.reconciled ≡ true
      → s' ≡ s
      → Reconciled s o s'
  settled :
      (old : Reservation) (run : PolicyRun) (new : Settled)
      → get s.reservations o.reservation_id ≡ some old
      → old.run_id ≡ o.run_id
      → old.reconciled ≡ false
      → get s.runs o.run_id ≡ some run
      → IsSettlement o run old new
      → s' ≡ store_settled s o new
      → Reconciled s o s'

found-Reconciled :
    (s : Counters) (o : PolicyOutcome) (old : Reservation) (run : PolicyRun) (s' : Counters)
    → get s.reservations o.reservation_id ≡ some old
    → str_eq old.run_id o.run_id ≡ true
    → old.reconciled ≡ false
    → get s.runs o.run_id ≡ some run
    → (settle o run old >>= λ new. ok (store_settled s o new)) ≡ ok s'
    → Reconciled s o s'
found-Reconciled s o old run s' e m u g h = elim (Result-cases (settle o run old)) [
  | inl (x, q) ↦ absurd (ground arith)
  | inr (new, q) ↦
      settled old run new e ((eq_iff old.run_id o.run_id).0 m) u g
        (settle-IsSettlement o run old new q) (ground arith)
]

reconcile_found-Reconciled :
    (s : Counters) (o : PolicyOutcome) (found : Option Reservation) (s' : Counters)
    → get s.reservations o.reservation_id ≡ found
    → reconcile_found s o found ≡ ok s'
    → Reconciled s o s'
unfolding reconcile_found
reconcile_found-Reconciled s o none s' e h = absurd (cc)
reconcile_found-Reconciled s o (some old) s' e h = elim (Bool-cases (str_eq old.run_id o.run_id)) [
  | inl m ↦ elim (Bool-cases old.reconciled) [
    | inl d ↦ already old e ((eq_iff old.run_id o.run_id).0 m) d (ground arith)
    | inr u ↦ elim (Option-cases (get s.runs o.run_id)) [
      | inl g ↦ absurd (ground arith)
      | inr (run, g) ↦ found-Reconciled s o old run s' e m u g (ground arith)
    ]
  ]
  | inr other ↦ absurd (ground arith)
]

pub reconcile-Reconciled :
    (s : Counters) (o : PolicyOutcome) (s' : Counters)
    → reconcile_policy_tx s o ≡ ok s'
    → Reconciled s o s'
unfolding reconcile_policy_tx
reconcile-Reconciled s o s' h = reconcile_found-Reconciled s o _ s' refl h

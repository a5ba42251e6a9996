-- ===== src/Counters/Later.antt =====
-- A settled reservation stays settled, whatever the transactions do later.
use virgil.Base.{
  ℕ, String, str_eq, true, some, List, [], ◌∷◌, Result, ok, err, ◌≡◌, arith, eq_iff, eq_refl,
  Bool-cases, Option-cases, Result-cases, inl, inr,
}
use virgil.Base.Dict.{get, get-put}
use virgil.Counters.{
  PolicyReserve, PolicyOutcome, Reservation, Counters, CounterError, CostText, reserve_policy,
  reconcile_policy_tx, increment_daily_counters,
}
use virgil.Counters.Reserve.{reserve-Outcome, refusal, grant}
use virgil.Counters.Reconcile.{already, settled, reconcile-Reconciled}
use virgil.Counters.Once.{settled_noop}

-- The transactions on the counters, besides the pruning.
pub data Call : Type 0 where
  reserves : PolicyReserve → ℕ → Call
  reconciles : PolicyOutcome → Call
  increments : String → CostText → Call

abbrev or_same : {A : Type 0} → (A → Counters) → Counters → Result CounterError A → Counters
or_same f s (ok a) = f a
or_same f s (err x) = s

unfoldable pub apply : Counters → Call → Counters
apply s (reserves r now) = or_same (λ p. p.1) s (reserve_policy s r now)
apply s (reconciles o) = or_same (λ x. x) s (reconcile_policy_tx s o)
apply s (increments day cost) = or_same (λ x. x) s (increment_daily_counters s day cost)

unfoldable pub run : Counters → List Call → Counters
unfolding apply
run s [] = s
run s (c ∷ cs) = run (apply s c) cs

-- The reservation of this run is stored and settled.
record IsSettled (s : Counters) (id run_id : String) : Type 0 where
  row : Reservation
  found_row : get s.reservations id ≡ some row
  same_run : row.run_id ≡ run_id
  done : row.reconciled ≡ true

first-IsSettled :
    (s s' : Counters) (o : PolicyOutcome)
    → reconcile_policy_tx s o ≡ ok s'
    → IsSettled s' o.reservation_id o.run_id
first-IsSettled s s' o h = elim (reconcile-Reconciled s o s' h) [
  | already old e m d q ↦ rw q (record { row = old; found_row = e; same_run = m; done = d })
  | settled old row new e m u g c q ↦ rw q (record {
    row = new.reservation;
    found_row = rw (get-put, eq_refl);
    same_run = cc (c.run_kept);
    done = c.done;
  })
]

reserve-IsSettled :
    (s : Counters) (id k : String) (r : PolicyReserve) (now : ℕ)
    → IsSettled s id k
    → IsSettled (apply s (reserves r now)) id k
unfolding apply
reserve-IsSettled s id k r now v = elim (Result-cases (reserve_policy s r now)) [
  | inl (x, e) ↦ rw e v
  | inr ((res, s'), e) ↦ rw e (elim (reserve-Outcome s r now res s' e) [
    | refusal next estimate p hit reason same ↦ rw same v
    | grant next estimate p u free named same ↦ rw same (record {
      row = v.row;
      found_row = elim (Bool-cases (str_eq r.reservation_id id)) [
        | inl y ↦ absurd (cc (free, v.found_row, (eq_iff r.reservation_id id).0 y))
        | inr n ↦ rw (get-put, n) (v.found_row)
      ];
      same_run = v.same_run;
      done = v.done;
    })
  ])
]

reconcile-IsSettled :
    (s : Counters) (id k : String) (o : PolicyOutcome)
    → IsSettled s id k
    → IsSettled (apply s (reconciles o)) id k
unfolding apply
reconcile-IsSettled s id k o v = elim (Result-cases (reconcile_policy_tx s o)) [
  | inl (x, e) ↦ rw e v
  | inr (s', e) ↦ rw e (elim (reconcile-Reconciled s o s' e) [
    | already old f m d q ↦ rw q v
    | settled old row new f m u g c q ↦ rw q (elim (Bool-cases (str_eq o.reservation_id id)) [
      | inl y ↦ record {
        row = new.reservation;
        found_row = rw (get-put, y);
        same_run = cc (c.run_kept, (eq_iff o.reservation_id id).0 y, v.found_row, v.same_run, f);
        done = c.done;
      }
      | inr n ↦ record {
        row = v.row;
        found_row = rw (get-put, n) (v.found_row);
        same_run = v.same_run;
        done = v.done;
      }
    ])
  ])
]

increment_kept :
    (s s' : Counters) (day : String) (cost : CostText)
    → increment_daily_counters s day cost ≡ ok s'
    → s'.reservations ≡ s.reservations
unfolding increment_daily_counters
increment_kept s s' day cost e = elim (Option-cases (get s.daily day)) [
  | inl free ↦ ground arith
  | inr (row, g) ↦ ground arith
]

increment-IsSettled :
    (s : Counters) (id k day : String) (cost : CostText)
    → IsSettled s id k
    → IsSettled (apply s (increments day cost)) id k
unfolding apply
increment-IsSettled s id k day cost v = elim (Result-cases (increment_daily_counters s day cost)) [
  | inl (x, e) ↦ rw e v
  | inr (s', e) ↦ rw e (record {
    row = v.row;
    found_row = rw (increment_kept s s' day cost e) (v.found_row);
    same_run = v.same_run;
    done = v.done;
  })
]

apply-IsSettled :
    (s : Counters) (id k : String) (c : Call) → IsSettled s id k → IsSettled (apply s c) id k
apply-IsSettled s id k (reserves r now) v = reserve-IsSettled s id k r now v
apply-IsSettled s id k (reconciles o) v = reconcile-IsSettled s id k o v
apply-IsSettled s id k (increments day cost) v = increment-IsSettled s id k day cost v

run-IsSettled :
    (s : Counters) (id k : String) (cs : List Call) → IsSettled s id k → IsSettled (run s cs) id k
unfolding run
run-IsSettled s id k [] v = v
run-IsSettled s id k (c ∷ cs) v = run-IsSettled (apply s c) id k cs (apply-IsSettled s id k c v)

-- A reservation is settled once: after a reconciliation, and after any sequence of reservations,
-- reconciliations and increments of the daily counters, another reconciliation of it is accepted and
-- changes nothing, whatever the outcome that it reports.
pub reconcile_once :
    (s s' : Counters) (o later : PolicyOutcome) (cs : List Call)
    → reconcile_policy_tx s o ≡ ok s'
    → later.reservation_id ≡ o.reservation_id
    → later.run_id ≡ o.run_id
    → reconcile_policy_tx (run s' cs) later ≡ ok (run s' cs)
reconcile_once s s' o later cs h same_reservation same_run =
    let v = run-IsSettled s' o.reservation_id o.run_id cs (first-IsSettled s s' o h) in
    settled_noop (run s' cs) later v.row (rw same_reservation (v.found_row)) (cc (v.same_run))
      v.done

-- ===== src/Engine/After.antt =====
-- `Postflight`: the settlement happens once, while the day counts every report.
use virgil.Base.{
  ℕ, ◌+◌, String, some, Result, ok, err, ◌≡◌, refl, arith, sym, ap, ◌∙◌, Result-cases, inl, inr,
}
use virgil.Base.Dict.{get}
use virgil.Base.Int.{pos}
use virgil.Counters.{
  Counters, CounterError, PolicyOutcome, reconcile_policy, reconcile_policy_tx,
  increment_daily_counters, read_daily_counters, policy_decimal,
}
use virgil.Counters.Once.{reconcile_again}
use virgil.Counters.Daily.{read_same, read-increment}
use virgil.Counters.Reconcile.{reconcile-Reconciled, already, settled}
use virgil.Engine.{
  Engine, OutcomeFacts, postflight, settle_and_count, incremented, policy_outcome, cost_text,
}

-- A report that succeeds: the settlement, then the day.
record IsReported (s : Counters) (day : String) (f : OutcomeFacts) (s' : Counters) : Type 0 where
  settled : Counters
  settles : reconcile_policy_tx s (policy_outcome f) ≡ ok settled
  counts : increment_daily_counters settled day (cost_text f.cost_usd) ≡ ok s'

count-IsReported :
    (s : Counters) (day : String) (f : OutcomeFacts) (found : Result CounterError Counters)
    (s' : Counters)
    → reconcile_policy s (policy_outcome f) ≡ found
    → settle_and_count s day (cost_text f.cost_usd) found ≡ (ok tt, s')
    → IsReported s day f s'
unfolding settle_and_count incremented reconcile_policy
count-IsReported s day f (err x) s' e h = absurd (ground arith)
count-IsReported s day f (ok t) s' e h =
    elim (Result-cases (increment_daily_counters t day (cost_text f.cost_usd))) [
      | inl (x, q) ↦ absurd (ground arith)
      | inr (u, q) ↦ record { settled = t; settles = ground arith; counts = ground arith }
    ]

postflight-IsReported :
    (e e' : Engine) (day : String) (f : OutcomeFacts)
    → postflight e day f ≡ (ok tt, e')
    → IsReported e.counters day f e'.counters
unfolding postflight
postflight-IsReported e e' day f h =
    count-IsReported e.counters day f (reconcile_policy e.counters (policy_outcome f)) e'.counters
      refl (ground arith)

reconcile_daily :
    (s t : Counters) (o : PolicyOutcome) → reconcile_policy_tx s o ≡ ok t → t.daily ≡ s.daily
reconcile_daily s t o h = elim (reconcile-Reconciled s o t h) [
  | already old e m d q ↦ ap (λ (x : Counters). x.daily) q
  | settled old run new e m u g c q ↦ ap (λ (x : Counters). x.daily) q
]

same_but_days :
    (s t : Counters)
    → s.runs ≡ t.runs
    → s.reservations ≡ t.reservations
    → s ≡ record t { daily = s.daily }
same_but_days s t h k = rw (h, k) refl

-- The same report made twice settles its reservation once, but counts as two calls of the day and adds
-- its cost twice.
pub postflight_twice :
    (e e1 e2 : Engine) (day : String) (f : OutcomeFacts) (calls sum c : ℕ)
    → postflight e day f ≡ (ok tt, e1)
    → postflight e1 day f ≡ (ok tt, e2)
    → read_daily_counters e.counters day ≡ ok (pos calls, sum)
    → policy_decimal (cost_text f.cost_usd) ≡ some c
    → (e2.counters.runs ≡ e1.counters.runs)
      × (e2.counters.reservations ≡ e1.counters.reservations)
      × (read_daily_counters e2.counters day ≡ ok (pos (calls + 2), sum + c + c))
postflight_twice e e1 e2 day f calls sum c h1 h2 r k =
    let a = postflight-IsReported e e1 day f h1 in
    let b = postflight-IsReported e1 e2 day f h2 in
    let o = policy_outcome f in
    let start =
      read_same e.counters a.settled day
        (ap (λ d. get d day) (reconcile_daily e.counters a.settled o a.settles))
      ∙ r in
    let (first, _, runs, reservations) =
      read-increment a.settled e1.counters day (cost_text f.cost_usd) calls sum c start k
        a.counts in
    let same = same_but_days e1.counters a.settled runs reservations in
    let again =
      ap (λ x. reconcile_policy_tx x o) same
      ∙ reconcile_again e.counters o o a.settled e1.counters.daily a.settles refl refl
      ∙ ap ok (sym same) in
    let unchanged : b.settled ≡ e1.counters = ground (arith, b.settles, again) in
    let (second, _, runs2, reservations2) =
      read-increment e1.counters e2.counters day (cost_text f.cost_usd) (calls + 1) (sum + c) c
        first k
        (ap (λ x. increment_daily_counters x day (cost_text f.cost_usd)) (sym unchanged)
          ∙ b.counts) in
    (runs2, reservations2, second ∙ ap (λ n. ok (pos n, sum + c + c)) (omega arith))

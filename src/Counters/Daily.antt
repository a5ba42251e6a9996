-- ===== src/Counters/Daily.antt =====
-- The daily counters of the installation count settled calls, and add up their costs.
use virgil.Base.{
  ℕ, ◌+◌, String, str_eq, some, ok, ◌≡◌, arith, eq_refl, Option-cases, inl, inr, false, ap,
}
use virgil.Base.Dict.{get, put, get-put}
use virgil.Base.Int.{ℤ, pos, pos-+ℤ-pos}
use virgil.Counters.{
  CostText, Counters, policy_decimal, read_daily_counters, increment_daily_counters,
}

-- The row that an increment writes, from what the day's counters read before.
increment-row :
    (s s' : Counters) (day : String) (cost : CostText) (calls : ℕ) (sum c : ℕ)
    → read_daily_counters s day ≡ ok (pos calls, sum)
    → policy_decimal cost ≡ some c
    → increment_daily_counters s day cost ≡ ok s'
    → s' ≡ record s {
      daily = put s.daily day (record { calls = pos (calls + 1); cost_usd = pos (sum + c) });
    }
unfolding read_daily_counters increment_daily_counters
increment-row s s' day cost calls sum c h k e = elim (Option-cases (get s.daily day)) [
  | inl free ↦ ground arith
  | inr (row, g) ↦ ground (arith, pos-+ℤ-pos calls 1)
]

read_stored :
    (s : Counters) (day : String) (calls : ℤ) (c : ℕ)
    → get s.daily day ≡ some (record { calls = calls; cost_usd = pos c })
    → read_daily_counters s day ≡ ok (calls, c)
unfolding read_daily_counters
read_stored s day calls c e = rw (e, read_daily_counters)

pub read_same :
    (s s' : Counters) (day : String)
    → get s'.daily day ≡ get s.daily day
    → read_daily_counters s' day ≡ read_daily_counters s day
unfolding read_daily_counters
read_same s s' day e = rw (e, read_daily_counters)

-- An increment that succeeds adds one call and the cost to what the day's counters read, and leaves
-- the counters of every other day, and all runs and reservations, as they were.
pub read-increment :
    (s s' : Counters) (day : String) (cost : CostText) (calls : ℕ) (sum c : ℕ)
    → read_daily_counters s day ≡ ok (pos calls, sum)
    → policy_decimal cost ≡ some c
    → increment_daily_counters s day cost ≡ ok s'
    → (read_daily_counters s' day ≡ ok (pos (calls + 1), sum + c))
      × ((other : String)
          → str_eq day other ≡ false
          → read_daily_counters s' other ≡ read_daily_counters s other)
      × (s'.runs ≡ s.runs)
      × (s'.reservations ≡ s.reservations)
read-increment s s' day cost calls sum c h k e =
    let q = increment-row s s' day cost calls sum c h k e in
    (
      read_stored s' day (pos (calls + 1)) (sum + c) (rw q (rw (get-put, eq_refl))),
      λ other ne. read_same s s' other (rw q (rw (get-put, ne))),
      ap (λ (x : Counters). x.runs) q,
      ap (λ (x : Counters). x.reservations) q,
    )

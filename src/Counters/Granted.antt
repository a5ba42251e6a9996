-- ===== src/Counters/Granted.antt =====
-- What a grant and a refusal of `ReservePolicy` mean for the stored counters, and how the duration
-- limit reads its seconds.
use virgil.Base.{
  ℕ, ◌-◌, ◌*◌, ◌%◌, ◌≤◌, ◌<◌, ◌↔◌, ltb, String, is_empty, str_eq, true, false, ◌||◌, not, Option,
  none, some, ok, ◌≡◌, refl, arith, eq_refl, Bool-cases, ◌⊎◌, inl, inr, ap,
}
use virgil.Base.Dict.{get, get-put}
use virgil.Base.Int.{
  ℤ, pos, ◌+ℤ◌, ◌-ℤ◌, is_positive, ltb_ℤ, leb_ℤ, max_int64, pos-+ℤ-pos, wrap_int64,
  wrap_int64_small, pos--ℤ-pos,
}
use virgil.Counters.{
  PolicyReserve, PolicyReserveResult, PolicyRun, Counters, policy_decimal, is_no_cost, duration_ns,
  Next, over_duration, charged, reservation_of, granted, reserve_policy,
}
use virgil.Counters.Checked.{IsSum, IsPlanned}
use virgil.Counters.Reserve.{
  capped, IsUnder, IsUnder-limit_hit, refusal, grant, run_of, reserve-Outcome,
}

-- The stored counters of a run keep to the limits of a request.
pub record IsWithin (r : PolicyReserve) (row : PolicyRun) (now : ℕ) : Type 0 where
  pub calls : capped r.max_calls row.calls ≡ true
  pub input : capped r.max_input_tokens row.input_tokens ≡ true
  pub output : capped r.max_output_tokens row.output_tokens ≡ true
  pub total : capped r.max_total_tokens (row.input_tokens +ℤ row.output_tokens) ≡ true
  pub tools : capped r.max_tool_calls row.tool_calls ≡ true
  pub cost :
      (is_no_cost r.max_cost_usd ≡ true)
      ⊎ ((c cap : ℕ) × (row.cost_usd ≡ pos c)
          × (policy_decimal r.max_cost_usd ≡ some cap)
          × (c ≤ cap))
  pub duration :
      (not (is_positive r.max_duration_seconds)
        || leb_ℤ (pos now -ℤ pos row.started_at_unix_ns) (duration_ns r.max_duration_seconds))
      ≡ true

calls_after :
    (cap calls : ℤ)
    → (not (is_positive cap) || ltb_ℤ calls cap) ≡ true
    → capped cap (calls +ℤ pos 1) ≡ true
unfolding ◌+ℤ◌
calls_after cap calls h = ground arith

sum_eq : (a b c : ℤ) → IsSum a b c → a +ℤ b ≡ c
sum_eq a b c s = ground (arith, pos-+ℤ-pos s.left s.right)

charged-IsWithin :
    (r : PolicyReserve) (run : PolicyRun) (next : Next) (estimate now : ℕ)
    → IsPlanned r run next estimate
    → IsUnder r run next now
    → IsWithin r (charged r run next.cost) now
charged-IsWithin r run next estimate now p u =
    let i = sum_eq _ _ _ p.input in
    let o = sum_eq _ _ _ p.output in
    let l = sum_eq _ _ _ p.tools in
    let t = sum_eq _ _ _ p.total in
    record {
      calls = calls_after r.max_calls run.calls u.calls;
      input = rw i u.input;
      output = rw o u.output;
      total = rw (i, o, t) u.total;
      tools = rw l u.tools;
      cost = elim (Bool-cases (is_no_cost r.max_cost_usd)) [
        | inl free ↦ inl free
        | inr capped_cost ↦ inr (next.cost, next.cap, refl, p.cap_eq, ground arith)
      ];
      duration = u.duration;
    }

-- A granted call leaves the run with counters within every limit of the request, and with a
-- reservation of exactly what was asked for that is not settled yet; no other run and no other
-- reservation changes.
pub reserve-granted :
    (s : Counters) (r : PolicyReserve) (now : ℕ) (res : PolicyReserveResult) (s' : Counters)
    → reserve_policy s r now ≡ ok (res, s')
    → is_empty res.reason ≡ true
    → ((row : PolicyRun) × (get s'.runs r.run_id ≡ some row) × IsWithin r row now)
      × ((estimate : ℕ) × (policy_decimal r.cost_usd ≡ some estimate)
          × (get s'.reservations r.reservation_id ≡ some (reservation_of r estimate)))
      × ((k : String) → str_eq r.run_id k ≡ false → get s'.runs k ≡ get s.runs k)
      × ((k : String)
          → str_eq r.reservation_id k ≡ false
          → get s'.reservations k ≡ get s.reservations k)
reserve-granted s r now res s' h named = elim (reserve-Outcome s r now res s' h) [
  | refusal next estimate p hit reason same ↦ absurd (cc)
  | grant next estimate p u free e e' ↦ rw e' (
    (
      charged r (run_of s r) next.cost,
      rw (get-put, eq_refl),
      charged-IsWithin r (run_of s r) next estimate now p u,
    ),
    (estimate, p.estimate_eq, rw (get-put, eq_refl)),
    λ k other. rw (get-put, other),
    λ k other. rw (get-put, other),
  )
]

-- A call that returns no error is refused exactly when a limit is exceeded, and then it changes no
-- counter.
pub reserve-refused :
    (s : Counters) (r : PolicyReserve) (now : ℕ) (res : PolicyReserveResult) (s' : Counters)
    → reserve_policy s r now ≡ ok (res, s')
    → (next : Next) × (estimate : ℕ) × IsPlanned r (run_of s r) next estimate
      × ((is_empty res.reason ≡ false) ↔ (¬ IsUnder r (run_of s r) next now))
      × (is_empty res.reason ≡ false → s' ≡ s)
reserve-refused s r now res s' h = elim (reserve-Outcome s r now res s' h) [
  | refusal next estimate p hit reason same ↦ (
    next,
    estimate,
    p,
    (λ _ u. none_ne_some (IsUnder-limit_hit r (run_of s r) next now u) hit, λ _. reason),
    λ _. same,
  )
  | grant next estimate p u free e e' ↦ (
    next,
    estimate,
    p,
    (λ n. absurd (not_named e n), λ f. absurd (f u)),
    λ n. absurd (not_named e n),
  )
]
  where
    none_ne_some : {o : Option PolicyReserveResult} → o ≡ none → o ≡ some res → ⊥
    none_ne_some p q = cc

    not_named : res ≡ granted (run_of s r) → is_empty res.reason ≡ false → ⊥
    not_named e n = cc (ap (λ (x : PolicyReserveResult). is_empty x.reason) e)

-- The product `MaxDurationSeconds * time.Second` wraps: at a limit whose nanoseconds stand for a
-- negative `int64`, every call of a run that has started is over its duration at once.
pub duration_wraps :
    (r : PolicyReserve) (run : PolicyRun) (seconds now : ℕ)
    → r.max_duration_seconds ≡ pos seconds
    → max_int64 < seconds * 1000000000 % 18446744073709551616
    → run.started_at_unix_ns ≤ now
    → over_duration r run now ≡ true
unfolding over_duration duration_ns wrap_int64
duration_wraps r run seconds now e wraps started =
    rw (e, pos--ℤ-pos now run.started_at_unix_ns started) (ground arith)

-- A limit whose nanoseconds fit into an `int64` means what it says.
pub duration_exact :
    (r : PolicyReserve) (run : PolicyRun) (seconds now : ℕ)
    → r.max_duration_seconds ≡ pos seconds
    → 0 < seconds
    → seconds * 1000000000 ≤ max_int64
    → run.started_at_unix_ns ≤ now
    → over_duration r run now ≡ ltb (seconds * 1000000000) (now - run.started_at_unix_ns)
unfolding over_duration duration_ns
duration_exact r run seconds now e nonzero fits started =
    rw
      (
        e,
        pos--ℤ-pos now run.started_at_unix_ns started,
        wrap_int64_small (seconds * 1000000000) fits,
      )
      (ground arith)

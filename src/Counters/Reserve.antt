-- ===== src/Counters/Reserve.antt =====
-- What `ReservePolicy` grants and what it refuses.
use virgil.Base.{
  ℕ, leb, is_empty, Bool, true, false, ◌||◌, not, Option, none, some, ok, ◌≡◌, refl, arith, eq_iff,
  is_empty-ne, Result-cases, inl, inr, ◌∙◌, ap,
}
use virgil.Base.Dict.{get}
use virgil.Base.Int.{ℤ, pos, ◌-ℤ◌, is_positive, ltb_ℤ, leb_ℤ}
use virgil.Counters.{
  PolicyReserve, PolicyReserveResult, PolicyRun, Counters, is_no_cost, run_or_new, duration_ns,
  Next, exceeds, over_duration, over_calls, over_cost, limit_hit, charge, next_counters, granted,
  decide, reserve_policy,
}
use virgil.Counters.Checked.{IsPlanned, next_counters-IsPlanned}

-- A value under a cap that is not positive, which is no cap, or at most the cap.
abbrev pub capped : ℤ → ℤ → Bool
capped cap n = not (is_positive cap) || leb_ℤ n cap

-- The counters of the run and the time keep to every limit of the request.
pub record IsUnder (r : PolicyReserve) (run : PolicyRun) (next : Next) (now : ℕ) : Type 0 where
  pub duration :
      (not (is_positive r.max_duration_seconds)
        || leb_ℤ (pos now -ℤ pos run.started_at_unix_ns) (duration_ns r.max_duration_seconds))
      ≡ true
  pub calls : (not (is_positive r.max_calls) || ltb_ℤ run.calls r.max_calls) ≡ true
  pub input : capped r.max_input_tokens next.input ≡ true
  pub output : capped r.max_output_tokens next.output ≡ true
  pub total : capped r.max_total_tokens next.total ≡ true
  pub tools : capped r.max_tool_calls next.tools ≡ true
  pub cost : (is_no_cost r.max_cost_usd || leb next.cost next.cap) ≡ true

exceeds-capped : (cap n : ℤ) → exceeds cap n ≡ not (capped cap n)
unfolding exceeds
exceeds-capped cap n = ground arith

limit_hit-none :
    (r : PolicyReserve) (run : PolicyRun) (next : Next) (now : ℕ)
    → limit_hit r run next now ≡ none
    → (over_duration r run now ≡ false)
      × (over_calls r run ≡ false)
      × (exceeds r.max_input_tokens next.input ≡ false)
      × (exceeds r.max_output_tokens next.output ≡ false)
      × (exceeds r.max_total_tokens next.total ≡ false)
      × (exceeds r.max_tool_calls next.tools ≡ false)
      × (over_cost r next ≡ false)
unfolding limit_hit
limit_hit-none r run next now h = ground arith

limit_hit-IsUnder :
    (r : PolicyReserve) (run : PolicyRun) (next : Next) (now : ℕ)
    → limit_hit r run next now ≡ none
    → IsUnder r run next now
unfolding over_duration over_calls over_cost
limit_hit-IsUnder r run next now h =
    let (d, c, i, o, t, l, m) = limit_hit-none r run next now h in
    record {
      duration = ground arith;
      calls = ground arith;
      input = ground (arith, exceeds-capped r.max_input_tokens next.input);
      output = ground (arith, exceeds-capped r.max_output_tokens next.output);
      total = ground (arith, exceeds-capped r.max_total_tokens next.total);
      tools = ground (arith, exceeds-capped r.max_tool_calls next.tools);
      cost = ground arith;
    }

module _ (r : PolicyReserve) (run : PolicyRun) (next : Next) (now : ℕ)
    (u : IsUnder r run next now) where
  under_duration : over_duration r run now ≡ false
  unfolding over_duration
  under_duration = ground arith

  under_calls : over_calls r run ≡ false
  unfolding over_calls
  under_calls = ground arith

  under_cost : over_cost r next ≡ false
  unfolding over_cost
  under_cost = ground arith

  pub IsUnder-limit_hit : limit_hit r run next now ≡ none
  unfolding limit_hit
  IsUnder-limit_hit = rw (
    under_duration,
    under_calls,
    exceeds-capped r.max_input_tokens next.input,
    u.input,
    exceeds-capped r.max_output_tokens next.output,
    u.output,
    exceeds-capped r.max_total_tokens next.total,
    u.total,
    exceeds-capped r.max_tool_calls next.tools,
    u.tools,
    under_cost,
  )

-- A refusal has a reason.
limit_hit-named :
    (r : PolicyReserve) (run : PolicyRun) (next : Next) (now : ℕ) (res : PolicyReserveResult)
    → limit_hit r run next now ≡ some res
    → is_empty res.reason ≡ false
unfolding limit_hit
limit_hit-named r run next now res h = ground (
  arith,
  eq_iff res.reason "",
  is_empty-ne "duration_limit" refl,
  is_empty-ne "call_limit" refl,
  is_empty-ne "input_token_limit" refl,
  is_empty-ne "output_token_limit" refl,
  is_empty-ne "total_token_limit" refl,
  is_empty-ne "tool_call_limit" refl,
  is_empty-ne "cost_limit" refl,
)

-- The run row that a call of `ReservePolicy` reads.
abbrev pub run_of : Counters → PolicyReserve → PolicyRun
run_of s r = run_or_new (get s.runs r.run_id) r.started_at

-- The outcomes of a call that returns no error: the plan is made, and either a limit is exceeded,
-- the state is untouched and the reason is named; or no limit is, the reservation ID is new, and the
-- run is charged.
pub data Outcome (s : Counters) (r : PolicyReserve) (now : ℕ) (res : PolicyReserveResult)
    (s' : Counters) : Type 0 where
  refusal :
      (next : Next) (estimate : ℕ)
      → IsPlanned r (run_of s r) next estimate
      → limit_hit r (run_of s r) next now ≡ some res
      → is_empty res.reason ≡ false
      → s' ≡ s
      → Outcome s r now res s'
  grant :
      (next : Next) (estimate : ℕ)
      → IsPlanned r (run_of s r) next estimate
      → IsUnder r (run_of s r) next now
      → get s.reservations r.reservation_id ≡ none
      → res ≡ granted (run_of s r)
      → s' ≡ charge s r (run_of s r) next.cost estimate
      → Outcome s r now res s'

decide-Outcome :
    (s : Counters) (r : PolicyReserve) (now : ℕ) (next : Next) (estimate : ℕ)
    (hit : Option PolicyReserveResult) (res : PolicyReserveResult) (s' : Counters)
    → IsPlanned r (run_of s r) next estimate
    → limit_hit r (run_of s r) next now ≡ hit
    → decide s r (run_of s r) next estimate hit ≡ ok (res, s')
    → Outcome s r now res s'
unfolding decide
decide-Outcome s r now next estimate (some x) res s' p h e =
    let same : x ≡ res = ground arith in
    refusal next estimate p (h ∙ ap some same)
      (limit_hit-named r (run_of s r) next now res (h ∙ ap some same)) (ground arith)
decide-Outcome s r now next estimate none res s' p h e =
    grant next estimate p (limit_hit-IsUnder r (run_of s r) next now h) (ground arith)
      (ground arith) (ground arith)

-- Every call of `ReservePolicy` without an error is a refusal or a grant.
pub reserve-Outcome :
    (s : Counters) (r : PolicyReserve) (now : ℕ) (res : PolicyReserveResult) (s' : Counters)
    → reserve_policy s r now ≡ ok (res, s')
    → Outcome s r now res s'
unfolding reserve_policy
reserve-Outcome s r now res s' h = elim (Result-cases (next_counters r (run_of s r))) [
  | inl (e, x) ↦ absurd (ground arith)
  | inr (planned, x) ↦
      decide-Outcome s r now planned.0 planned.1 _ res s'
        (next_counters-IsPlanned r (run_of s r) planned.0 planned.1 x) refl (ground arith)
]

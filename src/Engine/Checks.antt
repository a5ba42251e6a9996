-- ===== src/Engine/Checks.antt =====
-- What each check of `Preflight` lets through, and what it answers otherwise.
use virgil.Base.{
  ℕ, ◌+◌, leb, ◌==◌, String, str_eq, is_empty, Bool, true, false, ◌||◌, not, Option, none, some,
  List, [], ◌∷◌, Result, ok, err, ◌≡◌, refl, arith, sym, ap, ◌∙◌, Bool-cases, Option-cases, ◌<◌,
  Result-cases, inl, inr, all_of,
}
use mathlib.Core.Path.{subst}
use virgil.Base.Int.{ℤ, pos, ◌+ℤ◌, ltb_ℤ, is_positive, is_negative}
use virgil.Cost.{decimal}
use virgil.Limits.{Limits}
use virgil.Limits.Stricter.{permits}
use virgil.Counters.{
  Counters, CounterError, PolicyReserveResult, reserve_policy, read_daily_counters,
}
use virgil.Counters.Granted.{reserve-refused}
use virgil.Repetition.{
  Tracker, SavedRepetition, RepetitionState, CallRepetitionState, load_repetition_state, loaded,
  answer_from, repeated, call_count, error_count, restored_call, restored_error,
  repeated_tool_error, repeated_provider_error, repeated_tool_call,
}
use virgil.Repetition.Runs.{Cache, find}
use virgil.Base.Dict.{Dict, get}
use virgil.Engine.{
  Engine, Chance, RequestFacts, Decision, reserve_with, reserved, reserve_request,
  reserved_decision, first_of, repetition_block, list_block, tools_forbidden, daily_block,
  daily_counted, over_budget, resolve_run_id, block, or_zero,
}

abbrev pub is_allowed : Decision → Bool
is_allowed d = str_eq d.decision "allow"

-- What the reservation has granted.
pub record IsReserved (limits : Limits) (s : Counters) (w : Chance) (facts : RequestFacts)
    (k : String) (d : Decision) (s' : Counters) : Type 0 where
  pub run_id : d.run_id ≡ k
  pub id : w.reservation_id ≡ some d.reservation_id
  pub result : PolicyReserveResult
  pub reserves :
      reserve_policy s (reserve_request limits facts w k d.reservation_id) w.now ≡ ok (result, s')
  pub granted : is_empty result.reason ≡ true
  pub allowed : is_allowed d ≡ true

decision_allowed :
    (k id : String) (r : PolicyReserveResult)
    → is_allowed (reserved_decision k id r) ≡ is_empty r.reason
unfolding reserved_decision
decision_allowed k id r = elim (Bool-cases (is_empty r.reason)) [
  | inl n ↦ rw (reserved_decision, n) refl
  | inr n ↦ rw (reserved_decision, n) refl
]

decision_run : (k id : String) (r : PolicyReserveResult) → (reserved_decision k id r).run_id ≡ k
unfolding reserved_decision
decision_run k id r = elim (Bool-cases (is_empty r.reason)) [
  | inl n ↦ rw (reserved_decision, n) refl
  | inr n ↦ rw (reserved_decision, n) refl
]

decision_id :
    (k id : String) (r : PolicyReserveResult)
    → is_empty r.reason ≡ true
    → (reserved_decision k id r).reservation_id ≡ id
unfolding reserved_decision
decision_id k id r n = rw (reserved_decision, n) refl

-- An answer of the reservation, taken apart.
reserved_answer :
    (k id : String) (answer : Result CounterError (PolicyReserveResult × Counters)) (d : Decision)
    (s' : Counters)
    → reserved k id answer ≡ ok (d, s')
    → (r : PolicyReserveResult) × (answer ≡ ok (r, s')) × (d ≡ reserved_decision k id r)
unfolding reserved
reserved_answer k id (err x) d s' h = absurd (ground arith)
reserved_answer k id (ok (r, t)) d s' h = (r, ground arith, ground arith)

reserved-IsReserved :
    (limits : Limits) (s : Counters) (w : Chance) (facts : RequestFacts) (k id : String)
    (d : Decision) (s' : Counters)
    → w.reservation_id ≡ some id
    → reserved k id (reserve_policy s (reserve_request limits facts w k id) w.now) ≡ ok (d, s')
    → is_allowed d ≡ true
    → IsReserved limits s w facts k d s'
reserved-IsReserved limits s w facts k id d s' i h a =
    let (r, e, q) = reserved_answer k id _ d s' h in
    let n = sym (decision_allowed k id r) ∙ ap is_allowed (sym q) ∙ a in
    let same = ap (λ (x : Decision). x.reservation_id) q ∙ decision_id k id r n in
    record {
      run_id = ap (λ (x : Decision). x.run_id) q ∙ decision_run k id r;
      id = i ∙ ap some (sym same);
      result = r;
      reserves =
          subst (λ x. reserve_policy s (reserve_request limits facts w k x) w.now ≡ ok (r, s'))
            (sym same) e;
      granted = n;
      allowed = a;
    }

pub reserve_with-IsReserved :
    (limits : Limits) (s : Counters) (w : Chance) (facts : RequestFacts) (k : String)
    (random : Option String) (d : Decision) (s' : Counters)
    → w.reservation_id ≡ random
    → reserve_with limits s w facts k random ≡ ok (d, s')
    → is_allowed d ≡ true
    → IsReserved limits s w facts k d s'
unfolding reserve_with
reserve_with-IsReserved limits s w facts k none d s' i h a = absurd (ground arith)
reserve_with-IsReserved limits s w facts k (some id) d s' i h a = elim (Bool-cases w.reserves) [
  | inr n ↦ absurd (ground arith)
  | inl n ↦ reserved-IsReserved limits s w facts k id d s' i (ground arith) a
]

-- A refusal changes no counter.
pub reserve_with_refused :
    (limits : Limits) (s : Counters) (w : Chance) (facts : RequestFacts) (k : String)
    (random : Option String) (d : Decision) (s' : Counters)
    → reserve_with limits s w facts k random ≡ ok (d, s')
    → is_allowed d ≡ false
    → s' ≡ s
unfolding reserve_with
reserve_with_refused limits s w facts k none d s' h a = absurd (ground arith)
reserve_with_refused limits s w facts k (some id) d s' h a = elim (Bool-cases w.reserves) [
  | inr n ↦ absurd (ground arith)
  | inl n ↦
      let (r, e, q) =
        reserved_answer k id (reserve_policy s (reserve_request limits facts w k id) w.now) d s'
          (ground arith) in
      (reserve-refused s (reserve_request limits facts w k id) w.now r s' e).4
        (sym (decision_allowed k id r) ∙ ap is_allowed (sym q) ∙ a)
]

-- The daily budget that an allowed call is within.
pub record IsDaily (limits : Limits) (s : Counters) (w : Chance) (facts : RequestFacts)
    : Type 0 where
  pub calls :
      (calls : ℤ) (cost : ℕ)
      → read_daily_counters s w.day ≡ ok (calls, cost)
      → (not (is_positive limits.max_calls_per_day) || ltb_ℤ calls limits.max_calls_per_day) ≡ true
  pub cost :
      (calls : ℤ) (cost cap estimate : ℕ)
      → read_daily_counters s w.day ≡ ok (calls, cost)
      → decimal limits.max_cost_per_day_usd ≡ some cap
      → decimal facts.estimated_cost_usd ≡ some estimate
      → (is_empty limits.max_cost_per_day_usd || cap == 0 || leb (cost + estimate) cap) ≡ true

pub daily_block-IsDaily :
    (limits : Limits) (s : Counters) (w : Chance) (facts : RequestFacts) (k : String)
    → daily_block limits s w facts k ≡ ok none
    → IsDaily limits s w facts
unfolding daily_block daily_counted over_budget
daily_block-IsDaily limits s w facts k h = record {
  calls = λ calls cost e. ground arith;
  cost = λ calls cost cap estimate e c f. ground arith;
}

-- The count that is on record for a run: of the cache, or else of the row of the table if the table
-- can be read, or else none.
abbrev pub on_record : {V : Type 0} → (V → ℕ) → Option V → Bool → Option SavedRepetition → ℕ
on_record count (some state) reads row = count state
on_record count none true (some row) = row.count
on_record count none reads row = 0

-- No kind of repetition has reached three on record.
pub record IsUnrepeated (w : Chance) (t : Tracker) (run : String) : Type 0 where
  pub tool_errors :
      on_record error_count
        (find t.repetitions run)
        w.reads_tool_errors
        (get t.saved_tool_error run)
      < 3
  pub provider_errors :
      on_record call_count
        (find t.provider_repetitions run)
        w.reads_provider_errors
        (get t.saved_provider_error run)
      < 3
  pub tool_calls :
      on_record call_count
        (find t.call_repetitions run)
        w.reads_tool_calls
        (get t.saved_tool_call run)
      < 3

few :
    {V : Type 0} (count : V → ℕ) (restore : SavedRepetition → V) (reads : Bool)
    (rows : Dict SavedRepetition) (cache : Cache V) (run : String)
    → (repeated count restore reads rows cache run).0 ≡ false
    → on_record count (find cache run) reads (get rows run) < 3
unfolding repeated answer_from loaded load_repetition_state
few count restore reads rows cache run h = elim (Option-cases (find cache run)) [
  | inr (state, q) ↦ rw q (ground arith)
  | inl q ↦ elim (Bool-cases reads) [
    | inr n ↦ rw (q, n) (omega arith)
    | inl y ↦ elim (Option-cases (get rows run)) [
      | inl m ↦ rw (q, y, m) (omega arith)
      | inr (row, m) ↦ elim (Bool-cases (row.count == 0)) [
        | inl z ↦ rw (q, y, m) (ground arith)
        | inr z ↦ rw (q, y, m) (ground arith)
      ]
    ]
  ]
]

pub repetition_block-IsUnrepeated :
    (w : Chance) (t : Tracker) (run : String)
    → (repetition_block w t run).0 ≡ none
    → IsUnrepeated w t run
unfolding repetition_block first_of repeated_tool_error repeated_provider_error repeated_tool_call
repetition_block-IsUnrepeated w t run h = elim (Bool-cases (a.0)) [
  | inl y ↦ absurd (ground arith)
  | inr n ↦ elim (Bool-cases (b.0)) [
    | inl y ↦ absurd (ground arith)
    | inr m ↦ elim (Bool-cases (c.0)) [
      | inl y ↦ absurd (ground arith)
      | inr k ↦ record {
        tool_errors = few _ _ _ _ _ _ n;
        provider_errors = few _ _ _ _ _ _ m;
        tool_calls = few _ _ _ _ _ _ k;
      }
    ]
  ]
]
  where
    a : Bool × Cache RepetitionState
    a = repeated error_count restored_error w.reads_tool_errors t.saved_tool_error t.repetitions run

    b : Bool × Cache CallRepetitionState
    b =
        repeated call_count restored_call w.reads_provider_errors t.saved_provider_error
          t.provider_repetitions run

    c : Bool × Cache CallRepetitionState
    c =
        repeated call_count restored_call w.reads_tool_calls t.saved_tool_call t.call_repetitions
          run

-- What a call that is allowed has passed: no repetition of its run is on record three times, the
-- lists of the policy permit its provider, its model and every tool, the budget of the day is kept,
-- and a reservation is made against the limits in force.
pub record IsAdmitted (e : Engine) (w : Chance) (facts : RequestFacts) (d : Decision)
    (s' : Counters) : Type 0 where
  pub run : String
  pub run_id : resolve_run_id facts.run_id w.run_id ≡ some run
  pub unrepeated : IsUnrepeated w e.tracker run
  pub provider : permits e.limits.deny_providers e.limits.allowed_providers facts.provider ≡ true
  pub model : permits e.limits.deny_models e.limits.allowed_models facts.model ≡ true
  pub tools : all_of (permits e.limits.deny_tools e.limits.allowed_tools) facts.tool_names ≡ true
  pub cost_known :
      (is_empty e.limits.max_cost_per_run_usd || not (is_empty facts.estimated_cost_usd)) ≡ true
  pub daily : IsDaily e.limits e.counters w facts
  pub estimates :
      (is_negative (or_zero facts.estimated_input_tokens)
        || is_negative (or_zero facts.estimated_output_tokens))
      ≡ false
  pub reservation : IsReserved e.limits e.counters w facts run d s'

pub tools_permitted :
    (limits : Limits) (names : List String)
    → tools_forbidden limits names ≡ false
    → all_of (permits limits.deny_tools limits.allowed_tools) names ≡ true
unfolding tools_forbidden
tools_permitted limits [] h = refl
tools_permitted limits (n ∷ ns) h = ground (arith, tools_permitted limits ns)

-- The lists do not block.
pub record IsListed (limits : Limits) (facts : RequestFacts) : Type 0 where
  pub provider : permits limits.deny_providers limits.allowed_providers facts.provider ≡ true
  pub model : permits limits.deny_models limits.allowed_models facts.model ≡ true
  pub tools : tools_forbidden limits facts.tool_names ≡ false

pub list_block-IsListed :
    (limits : Limits) (facts : RequestFacts) (k : String)
    → list_block limits facts k ≡ none
    → IsListed limits facts
unfolding list_block
list_block-IsListed limits facts k h = record {
  provider = ground arith;
  model = ground arith;
  tools = ground arith;
}

-- Only a reservation says "allow".
refusing : str_eq "block" "allow" ≡ false
refusing = refl

blocks : (b d : Decision) → is_allowed b ≡ false → some b ≡ some d → is_allowed d ≡ false
blocks b d n h = cc

pub list_block_refused :
    (limits : Limits) (facts : RequestFacts) (k : String) (d : Decision)
    → list_block limits facts k ≡ some d
    → is_allowed d ≡ false
unfolding list_block
list_block_refused limits facts k d h = ground (
  arith,
  blocks (block k "provider_not_allowed" "allowed_providers" (pos 0) (pos 0)) d refl,
  blocks (block k "model_not_allowed" "allowed_models" (pos 0) (pos 0)) d refl,
  blocks (block k "tool_not_allowed" "allowed_tools" (pos 0) (pos 0)) d refl,
)

first_of_refused :
    (p : Bool × Tracker) (b d : Decision) (next : Tracker → Option Decision × Tracker)
    → is_allowed b ≡ false
    → ((t : Tracker) → (next t).0 ≡ some d → is_allowed d ≡ false)
    → (first_of p b next).0 ≡ some d
    → is_allowed d ≡ false
unfolding first_of
first_of_refused (true, t) b d next n f h = blocks b d n h
first_of_refused (false, t) b d next n f h = f t h

pub repetition_block_refused :
    (w : Chance) (t : Tracker) (k : String) (d : Decision)
    → (repetition_block w t k).0 ≡ some d
    → is_allowed d ≡ false
unfolding repetition_block
repetition_block_refused w t k d h =
    first_of_refused (repeated_tool_error w.reads_tool_errors t k) _ d _ refl
      (λ t1.
        first_of_refused (repeated_provider_error w.reads_provider_errors t1 k) _ d _ refl (λ t2.
          first_of_refused (repeated_tool_call w.reads_tool_calls t2 k) _ d _ refl
            (λ t3 e. absurd (cc))))
      h

pub daily_block_refused :
    (limits : Limits) (s : Counters) (w : Chance) (facts : RequestFacts) (k : String) (d : Decision)
    → daily_block limits s w facts k ≡ ok (some d)
    → is_allowed d ≡ false
unfolding daily_block daily_counted over_budget
daily_block_refused limits s w facts k d h = elim (Result-cases (read_daily_counters s w.day)) [
  | inl (x, e) ↦ absurd (ground arith)
  | inr (p, e) ↦ ground (
    arith,
    blocks (block k "daily_call_limit" "max_calls_per_day" (p.0 +ℤ pos 1) limits.max_calls_per_day)
        d refl,
    blocks (block k "daily_cost_limit" "max_cost_per_day_usd" (pos 0) (pos 0)) d refl,
  )
]

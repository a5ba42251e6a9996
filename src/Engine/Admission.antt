-- ===== src/Engine/Admission.antt =====
-- `Preflight`: what an allowed call has passed, and that no other answer touches a counter.
use virgil.Base.{
  String, is_empty, Bool, true, false, ◌&&◌, ◌||◌, not, Option, none, some, Result, ok, err, ◌≡◌,
  refl, arith, sym, ap, ◌∙◌, Bool-cases, Option-cases, inl, inr, ◌⊎◌,
}
use virgil.Base.Int.{pos, is_negative}
use virgil.Limits.{Limits}
use virgil.Counters.{Counters}
use virgil.Repetition.{Tracker}
use virgil.Engine.{
  Engine, EngineError, Chance, RequestFacts, Decision, Answer, preflight, preflight_run, answered,
  after_repetition, after_lists, after_daily, reserve_with, repetition_block, list_block,
  daily_block, block, or_zero,
}
use virgil.Engine.Checks.{
  is_allowed, IsReserved, reserve_with-IsReserved, reserve_with_refused, IsDaily,
  daily_block-IsDaily, IsListed, list_block-IsListed, list_block_refused, repetition_block_refused,
  daily_block_refused,
}

abbrev the_answer : Decision × Counters → Answer
the_answer p = ok p

-- The answer of a check that blocks.
stays :
    (s : Counters) (b d : Decision) (s' : Counters)
    → is_allowed b ≡ false
    → the_answer (b, s) ≡ the_answer (d, s')
    → (is_allowed d ≡ false) × (s' ≡ s)
stays s b d s' n h = (cc, ground arith)

module _ (limits : Limits) (s : Counters) (w : Chance) (facts : RequestFacts) (k : String) where
  -- After the lists: the rest of an admission, or counters as they were.
  record IsRest (d : Decision) (s' : Counters) : Type 0 where
    cost_known :
        (is_empty limits.max_cost_per_run_usd || not (is_empty facts.estimated_cost_usd)) ≡ true
    daily : IsDaily limits s w facts
    estimates :
        (is_negative (or_zero facts.estimated_input_tokens)
          || is_negative (or_zero facts.estimated_output_tokens))
        ≡ false
    reservation : IsReserved limits s w facts k d s'

  after_daily-cases :
      (found : Result EngineError (Option Decision)) (d : Decision) (s' : Counters)
      → daily_block limits s w facts k ≡ found
      → after_daily limits s w facts k found ≡ ok (d, s')
      → ((is_allowed d ≡ false) × (s' ≡ s))
        ⊎ (IsDaily limits s w facts
            × ((is_negative (or_zero facts.estimated_input_tokens)
                  || is_negative (or_zero facts.estimated_output_tokens))
                ≡ false)
            × (reserve_with limits s w facts k w.reservation_id ≡ ok (d, s')))
  unfolding after_daily
  after_daily-cases (err x) d s' e h = absurd (ground arith)
  after_daily-cases (ok (some b)) d s' e h =
      inl (stays s b d s' (daily_block_refused limits s w facts k b e) h)
  after_daily-cases (ok none) d s' e h =
      inr (daily_block-IsDaily limits s w facts k e, ground arith, ground arith)

  after_lists-cases :
      (d : Decision) (s' : Counters)
      → after_lists limits s w facts k none ≡ ok (d, s')
      → ((is_allowed d ≡ false) × (s' ≡ s)) ⊎ IsRest d s'
  unfolding after_lists
  after_lists-cases d s' h =
      elim (Bool-cases
        (not (is_empty limits.max_cost_per_run_usd) && is_empty facts.estimated_cost_usd)) [
          | inl b ↦ inl (
              stays s (block k "cost_unavailable" "max_cost_per_run_usd" (pos 0) (pos 0)) d s' refl
                (ground arith))
          | inr b ↦
              elim (after_daily-cases (daily_block limits s w facts k) d s' refl (ground arith)) [
                | inl r ↦ inl r
                | inr (daily, estimates, h') ↦ elim (Bool-cases (is_allowed d)) [
                  | inl a ↦ inr (record {
                    cost_known = ground arith;
                    daily = daily;
                    estimates = estimates;
                    reservation =
                        reserve_with-IsReserved limits s w facts k w.reservation_id d s' refl h' a;
                  })
                  | inr a ↦
                      inl (a, reserve_with_refused limits s w facts k w.reservation_id d s' h' a)
                ]
              ]
        ]

  -- After the checks for repetitions.
  after_repetition-cases :
      (repeated : Option Decision) (d : Decision) (s' : Counters)
      → ((b : Decision) → repeated ≡ some b → is_allowed b ≡ false)
      → after_repetition limits s w facts k repeated ≡ ok (d, s')
      → ((is_allowed d ≡ false) × (s' ≡ s))
        ⊎ ((repeated ≡ none) × IsListed limits facts × IsRest d s')
  unfolding after_repetition
  after_repetition-cases (some b) d s' f h = inl (stays s b d s' (f b refl) h)
  after_repetition-cases none d s' f h = elim (Option-cases (list_block limits facts k)) [
    | inl e ↦ elim (after_lists-cases d s' (ap (after_lists limits s w facts k) (sym e) ∙ h)) [
      | inl r ↦ inl r
      | inr r ↦ inr (refl, list_block-IsListed limits facts k e, r)
    ]
    | inr (b, e) ↦ inl (
        stays s b d s' (list_block_refused limits facts k b e)
          (ap (after_lists limits s w facts k) (sym e) ∙ h))
  ]

-- What `Preflight` has answered.
abbrev pub refuses : Result EngineError Decision → Bool
refuses (err x) = true
refuses (ok d) = not (is_allowed d)

-- An answer leaves the limits alone, and without a decision the counters too.
pub record IsQuiet (e e' : Engine) : Type 0 where
  pub limits : e'.limits ≡ e.limits
  pub local_limits : e'.local_limits ≡ e.local_limits
  pub version : e'.last_remote_version ≡ e.last_remote_version
  pub cache : e'.remote_policy_cache ≡ e.remote_policy_cache

answered-IsQuiet : (e : Engine) (t : Tracker) (a : Answer) → IsQuiet e (answered e t a).1
answered-IsQuiet e t (err x) = record {
  limits = refl;
  local_limits = refl;
  version = refl;
  cache = refl;
}
answered-IsQuiet e t (ok p) = record {
  limits = refl;
  local_limits = refl;
  version = refl;
  cache = refl;
}

answered_refused :
    (e : Engine) (t : Tracker) (a : Answer)
    → refuses (answered e t a).0 ≡ true
    → ((d : Decision) (s : Counters) → a ≡ ok (d, s) → is_allowed d ≡ false → s ≡ e.counters)
    → (answered e t a).1.counters ≡ e.counters
answered_refused e t (err x) h f = refl
answered_refused e t (ok (d, s)) h f = f d s refl (ground arith)

module _ (e : Engine) (w : Chance) (facts : RequestFacts) where
  run_refused :
      (resolved : Option String)
      → refuses (preflight_run e w facts resolved).0 ≡ true
      → (preflight_run e w facts resolved).1.counters ≡ e.counters
  unfolding preflight_run
  run_refused none h = refl
  run_refused (some k) h =
      answered_refused e (repetition_block w e.tracker k).1
        (after_repetition e.limits e.counters w facts k (repetition_block w e.tracker k).0) h
        (λ d s q n.
          elim (after_repetition-cases e.limits e.counters w facts k
            (repetition_block w e.tracker k).0 d s (λ b. repetition_block_refused w e.tracker k b)
            q) [
              | inl (_, same) ↦ same
              | inr (_, _, rest) ↦ absurd (ground (arith, rest.reservation.allowed, n))
            ])

  run-IsQuiet : (resolved : Option String) → IsQuiet e (preflight_run e w facts resolved).1
  unfolding preflight_run
  run-IsQuiet none = record { limits = refl; local_limits = refl; version = refl; cache = refl }
  run-IsQuiet (some k) = answered-IsQuiet e _ _

-- A call that is refused, or fails, changes no counter, and no call changes a limit: besides the
-- counters, only the caches may have been filled from the table.
pub preflight_refused :
    (e : Engine) (w : Chance) (facts : RequestFacts)
    → (refuses (preflight e w facts).0 ≡ true → (preflight e w facts).1.counters ≡ e.counters)
      × IsQuiet e (preflight e w facts).1
unfolding preflight
preflight_refused e w facts = (run_refused e w facts _, run-IsQuiet e w facts _)

-- ===== src/Limits/Stricter.antt =====
-- A merged policy allows what both policies allow, dimension by dimension.
use virgil.Base.{
  ℕ, String, is_empty, leb, Bool, true, false, ◌&&◌, ◌||◌, not, none, some, List, ok, contains,
  keep_if, is_some, ◌≡◌, refl, arith, contains-keep_if, contains_nil, Option-cases, inl, inr, ◌↔◌,
}
use virgil.Base.Int.{ℤ, pos, leb_ℤ, ltb_ℤ, eq_ℤ}
use virgil.Cost.{decimal}
use virgil.Limits.{
  Limits, CpLimits, PolicyEnvelope, allowed, stricter_int, stricter_cost, stricter_list, narrow,
  merge, negative_limits,
}

-- What a count may reach under a cap; the cap 0 is no cap.
abbrev pub within : ℤ → ℤ → Bool
within cap n = eq_ℤ cap (pos 0) || leb_ℤ n cap

-- The stricter of two caps admits what both admit.
pub within-stricter_int : (a b n : ℤ) → within (stricter_int a b) n ≡ (within a n && within b n)
unfolding stricter_int
within-stricter_int a b n = ground arith

-- Whether a value passes an allowlist with its deny flag.
abbrev pub permits : Bool → List String → String → Bool
permits deny list v = not deny && allowed list v

pub permits-stricter_list :
    (deny : Bool) (local remote : List String) (v : String)
    → permits (deny || (stricter_list local remote).1) (stricter_list local remote).0 v
      ≡ (permits deny local v && allowed remote v)
unfolding stricter_list allowed
permits-stricter_list deny local remote v = ground (
  arith,
  contains-keep_if v (λ x. contains x remote) local,
  contains_nil v (keep_if (λ x. contains x remote) local),
)

-- What a cost may reach under a cap; the empty cap is no cap.
abbrev pub affordable : String → ℕ → Bool
affordable cap n = is_empty cap || elim (decimal cap) [ none ↦ false | some c ↦ leb n c ]

affordable-stricter_cost :
    (a b : String) (n : ℕ) {c : String}
    → stricter_cost a b ≡ some c
    → affordable c n ≡ (affordable a n && affordable b n)
unfolding stricter_cost
affordable-stricter_cost a b n h = ground arith

-- In every dimension `m` admits exactly what both `local` and `remote` admit; the daily limits are
-- those of `local`.
pub record IsMeet (local : Limits) (remote : CpLimits) (m : Limits) : Type 0 where
  pub calls :
      (n : ℤ)
      → within m.max_calls_per_run n
        ≡ (within local.max_calls_per_run n && within remote.max_calls_per_run n)
  pub input_tokens :
      (n : ℤ)
      → within m.max_input_tokens_per_run n
        ≡ (within local.max_input_tokens_per_run n && within remote.max_input_tokens_per_run n)
  pub output_tokens :
      (n : ℤ)
      → within m.max_output_tokens_per_run n
        ≡ (within local.max_output_tokens_per_run n && within remote.max_output_tokens_per_run n)
  pub total_tokens :
      (n : ℤ)
      → within m.max_total_tokens_per_run n
        ≡ (within local.max_total_tokens_per_run n && within remote.max_total_tokens_per_run n)
  pub duration :
      (n : ℤ)
      → within m.max_duration_seconds n
        ≡ (within local.max_duration_seconds n && within remote.max_duration_seconds n)
  pub tool_calls :
      (n : ℤ)
      → within m.max_tool_calls_per_run n
        ≡ (within local.max_tool_calls_per_run n && within remote.max_tool_calls_per_run n)
  pub cost :
      (n : ℕ)
      → affordable m.max_cost_per_run_usd n
        ≡ (affordable local.max_cost_per_run_usd n && affordable remote.max_cost_per_run_usd n)
  pub providers :
      (v : String)
      → permits m.deny_providers m.allowed_providers v ≡ (
          permits local.deny_providers local.allowed_providers v
          && allowed remote.allowed_providers v)
  pub models :
      (v : String)
      → permits m.deny_models m.allowed_models v
        ≡ (permits local.deny_models local.allowed_models v && allowed remote.allowed_models v)
  pub tools :
      (v : String)
      → permits m.deny_tools m.allowed_tools v
        ≡ (permits local.deny_tools local.allowed_tools v && allowed remote.allowed_tools v)
  pub daily_calls : m.max_calls_per_day ≡ local.max_calls_per_day
  pub daily_cost : m.max_cost_per_day_usd ≡ local.max_cost_per_day_usd

narrow-IsMeet :
    (local : Limits) (r : CpLimits) (c : String)
    → stricter_cost local.max_cost_per_run_usd r.max_cost_per_run_usd ≡ some c
    → IsMeet local r (narrow local r c)
unfolding narrow
narrow-IsMeet local r c h = record {
  calls = within-stricter_int _ _;
  input_tokens = within-stricter_int _ _;
  output_tokens = within-stricter_int _ _;
  total_tokens = within-stricter_int _ _;
  duration = within-stricter_int _ _;
  tool_calls = within-stricter_int _ _;
  cost = λ n. affordable-stricter_cost local.max_cost_per_run_usd r.max_cost_per_run_usd n h;
  providers = permits-stricter_list _ _ _;
  models = permits-stricter_list _ _ _;
  tools = permits-stricter_list _ _ _;
  daily_calls = refl;
  daily_cost = refl;
}

-- When `merge` accepts a remote policy, and what the new limits then are.
pub record IsAccepted (local : Limits) (remote : PolicyEnvelope) (last_version : ℤ) : Type 0 where
  pub newer :
      (ltb_ℤ (pos 0) remote.version
        && (ltb_ℤ last_version remote.version || leb_ℤ last_version (pos 0)))
      ≡ true
  pub counts : negative_limits remote.limits ≡ false
  pub cost_valid : is_some (decimal remote.limits.max_cost_per_run_usd) ≡ true
  pub cost_known :
      is_some (stricter_cost local.max_cost_per_run_usd remote.limits.max_cost_per_run_usd) ≡ true

merge-narrow :
    (local : Limits) (remote : PolicyEnvelope) (last_version : ℤ) (m : Limits)
    → merge local remote last_version ≡ ok m
    → (c : String) × (stricter_cost local.max_cost_per_run_usd remote.limits.max_cost_per_run_usd
        ≡ some c)
      × (m ≡ narrow local remote.limits c)
unfolding merge
merge-narrow local remote last_version m h = ground arith

-- A merged policy is, in every dimension, the meet of the local and the remote policy.
pub merge-IsMeet :
    (local : Limits) (remote : PolicyEnvelope) (last_version : ℤ) (m : Limits)
    → merge local remote last_version ≡ ok m
    → IsMeet local remote.limits m
merge-IsMeet local remote last_version m h =
    let (c, e, p) = merge-narrow local remote last_version m h in
    rw p (narrow-IsMeet local remote.limits c e)

pub merge-ok_iff :
    (local : Limits) (remote : PolicyEnvelope) (last_version : ℤ)
    → ((m : Limits) × (merge local remote last_version ≡ ok m))
      ↔ IsAccepted local remote last_version
unfolding merge
merge-ok_iff local remote last_version = (
  λ h. let (m, e) = h in ground arith,
  λ a.
      elim (Option-cases
        (stricter_cost local.max_cost_per_run_usd remote.limits.max_cost_per_run_usd)) [
          | inl e ↦ absurd (ground (arith, a.cost_known))
          | inr (c, e) ↦ (narrow local remote.limits c, ground arith)
        ],
)

-- ===== src/Engine/Remote.antt =====
-- Remote policies over time: what the effective limits are after any sequence of them.
use virgil.Base.{
  ℕ, Bool, true, Option, none, some, List, [], ◌∷◌, Result, ok, err, ◌≡◌, refl, arith, ◌∙◌,
  Option-cases, Result-cases, inl, inr,
}
use virgil.Base.Int.{pos, ltb_ℤ, ◌≤ℤ◌, is_positive}
use virgil.Limits.{PolicyEnvelope, merge}
use virgil.Limits.Stricter.{IsMeet, merge-IsMeet, merge-ok_iff}
use virgil.Engine.{
  Engine, EngineError, CachedPolicy, apply_remote_policy, cache_and_apply_remote_policy,
  save_remote_policy,
}

-- A remote policy that arrives: at the start of the process, or later through the cache, whose write
-- may fail.
pub data Arrival : Type 0 where
  applied : PolicyEnvelope → Arrival
  cached : Bool → PolicyEnvelope → Arrival

abbrev pub arriving : Arrival → PolicyEnvelope
arriving (applied remote) = remote
arriving (cached writes remote) = remote

-- The limits in force: the local ones where no policy has been accepted, and otherwise the meet of
-- them with the last policy accepted, whose version the engine has.
pub data InForce (e : Engine) : Option PolicyEnvelope → Type 0 where
  local_only : e.limits ≡ e.local_limits → e.last_remote_version ≡ pos 0 → InForce e none
  narrowed :
      (remote : PolicyEnvelope)
      → IsMeet e.local_limits remote.limits e.limits
      → e.last_remote_version ≡ remote.version
      → is_positive remote.version ≡ true
      → InForce e (some remote)

module _ (marshal : PolicyEnvelope → List ℕ) where
  unfoldable pub arrive : Engine → Arrival → Result EngineError Engine
  arrive e (applied remote) = apply_remote_policy e remote
  arrive e (cached writes remote) = cache_and_apply_remote_policy marshal writes e remote

  -- A policy that is refused leaves the engine as it was.
  unfoldable pub arrive_all : Engine → List Arrival → Engine
  unfolding arrive
  arrive_all e [] = e
  arrive_all e (a ∷ as') = elim (arrive e a) [
    | err x ↦ arrive_all e as'
    | ok e' ↦ arrive_all e' as'
  ]

  -- The last policy of the sequence that is accepted, or the one before it.
  unfoldable pub last_accepted :
      Engine → List Arrival → Option PolicyEnvelope → Option PolicyEnvelope
  unfolding arrive
  last_accepted e [] last = last
  last_accepted e (a ∷ as') last = elim (arrive e a) [
    | err x ↦ last_accepted e as' last
    | ok e' ↦ last_accepted e' as' (some (arriving a))
  ]

  -- What an accepted policy does.
  record IsApplied (e : Engine) (remote : PolicyEnvelope) (e' : Engine) : Type 0 where
    merged : merge e.local_limits remote e.last_remote_version ≡ ok e'.limits
    local : e'.local_limits ≡ e.local_limits
    version : e'.last_remote_version ≡ remote.version

  apply_remote_policy-IsApplied :
      (e e' : Engine) (remote : PolicyEnvelope)
      → apply_remote_policy e remote ≡ ok e'
      → IsApplied e remote e'
  unfolding apply_remote_policy
  apply_remote_policy-IsApplied e e' remote h =
      elim (Result-cases (merge e.local_limits remote e.last_remote_version)) [
        | inl (x, q) ↦ absurd (ground arith)
        | inr (m, q) ↦ record {
          merged = ground arith;
          local = ground arith;
          version = ground arith;
        }
      ]

  cache_and_apply_remote_policy-IsApplied :
      (e e' : Engine) (writes : Bool) (remote : PolicyEnvelope)
      → cache_and_apply_remote_policy marshal writes e remote ≡ ok e'
      → IsApplied e remote e'
  unfolding cache_and_apply_remote_policy
  cache_and_apply_remote_policy-IsApplied e e' writes remote h =
      elim (Result-cases (merge e.local_limits remote e.last_remote_version)) [
        | inl (x, q) ↦ absurd (ground arith)
        | inr (m, q) ↦
            elim (Result-cases
              (save_remote_policy writes e.remote_policy_cache remote.version (marshal remote))) [
                | inl (x, p) ↦ absurd (ground arith)
                | inr (c, p) ↦ record {
                  merged = ground arith;
                  local = ground arith;
                  version = ground arith;
                }
              ]
      ]

  arrive-IsApplied :
      (e e' : Engine) (a : Arrival) → arrive e a ≡ ok e' → IsApplied e (arriving a) e'
  unfolding arrive
  arrive-IsApplied e e' (applied remote) h = apply_remote_policy-IsApplied e e' remote h
  arrive-IsApplied e e' (cached writes remote) h =
      cache_and_apply_remote_policy-IsApplied e e' writes remote h

  newer :
      (e e' : Engine) (remote : PolicyEnvelope)
      → IsApplied e remote e'
      → (is_positive remote.version ≡ true)
        × (ltb_ℤ e.last_remote_version e'.last_remote_version ≡ true)
  newer e e' remote a =
      let n =
        ((merge-ok_iff e.local_limits remote e.last_remote_version).0
          (e'.limits, a.merged)).newer in
      (ground arith, ground (arith, a.version))

  applied-InForce :
      (e e' : Engine) (remote : PolicyEnvelope) → IsApplied e remote e' → InForce e' (some remote)
  applied-InForce e e' remote a =
      narrowed remote
        (rw a.local (merge-IsMeet e.local_limits remote e.last_remote_version e'.limits a.merged))
        a.version (newer e e' remote a).0

  -- Whatever remote policies arrive, in whatever order, and whichever of them are refused, the local
  -- limits stay what they were, and the limits in force are, in every dimension, the meet of these and
  -- the last policy accepted, or the local limits where none has been accepted.
  pub arrive_all-InForce :
      (e : Engine) (as' : List Arrival) (last : Option PolicyEnvelope)
      → InForce e last
      → InForce (arrive_all e as') (last_accepted e as' last)
        × ((arrive_all e as').local_limits ≡ e.local_limits)
  unfolding arrive_all last_accepted
  arrive_all-InForce e [] last i = (i, refl)
  arrive_all-InForce e (a ∷ as') last i = elim (Result-cases (arrive e a)) [
    | inl (x, q) ↦ rw (arrive_all, last_accepted, q) (arrive_all-InForce e as' last i)
    | inr (e', q) ↦
        let p = arrive-IsApplied e e' a q in
        let (j, l) =
          arrive_all-InForce e' as' (some (arriving a)) (applied-InForce e e' (arriving a) p) in
        rw (arrive_all, last_accepted, q) (j, l ∙ p.local)
  ]

  rises :
      (e e' : Engine) (a : Arrival)
      → arrive e a ≡ ok e'
      → ltb_ℤ e.last_remote_version e'.last_remote_version ≡ true
  rises e e' a h = (newer e e' (arriving a) (arrive-IsApplied e e' a h)).1

  kept_or_rises :
      (e : Engine) (as' : List Arrival)
      → e.last_remote_version ≤ℤ (arrive_all e as').last_remote_version
  unfolding arrive_all
  kept_or_rises e [] = omega arith
  kept_or_rises e (a ∷ as') = elim (Result-cases (arrive e a)) [
    | inl (x, q) ↦ rw (arrive_all, q) (kept_or_rises e as')
    | inr (e', q) ↦ rw (arrive_all, q) (ground (arith, rises e e' a q, kept_or_rises e' as'))
  ]

  -- Over any sequence of remote policies the version in force never goes back, and a policy that is then
  -- accepted has a version above it.
  arrive-version :
      (e : Engine) (as' : List Arrival)
      → (e.last_remote_version ≤ℤ (arrive_all e as').last_remote_version)
        × ((a : Arrival) (e' : Engine)
            → arrive (arrive_all e as') a ≡ ok e'
            → ltb_ℤ (arrive_all e as').last_remote_version e'.last_remote_version ≡ true)
  arrive-version e as' = (kept_or_rises e as', λ a e' h. rises (arrive_all e as') e' a h)

  -- A policy that is cached and applied is in the cache as it was marshalled, under its version, and what
  -- the cache held before was older.
  pub cache_and_apply-saved :
      (e e' : Engine) (writes : Bool) (remote : PolicyEnvelope)
      → cache_and_apply_remote_policy marshal writes e remote ≡ ok e'
      → (e'.remote_policy_cache
          ≡ some (record { version = remote.version; payload = marshal remote }))
        × ((row : CachedPolicy)
            → e.remote_policy_cache ≡ some row
            → ltb_ℤ row.version e'.last_remote_version ≡ true)
  unfolding cache_and_apply_remote_policy save_remote_policy
  cache_and_apply-saved e e' writes remote h =
      elim (Result-cases (merge e.local_limits remote e.last_remote_version)) [
        | inl (x, q) ↦ absurd (ground arith)
        | inr (m, q) ↦ elim (Option-cases e.remote_policy_cache) [
          | inl c ↦ (ground arith, λ row d. absurd (cc))
          | inr (old, c) ↦ (ground arith, λ row d. ground arith)
        ]
      ]

-- ===== src/Telemetry/Canonical.antt =====
-- The events that are built are canonical.
use virgil.Base.{
  String, ◌≡◌, refl, sym, Bool, true, false, some, Result, ok, err, ◌>>◌, fail_if, arith, eq_refl,
}
use mathlib.Core.Path.{subst}
use virgil.Telemetry.{
  Attempt, Event, EventError, build, built, event_of, check_attempt, validate_event, valid_hex_id,
  valid_decision, valid_metadata, valid_identity, valid_counts, exceeds_input, valid_status,
  check_usage, check_costs, bad_timing, optional, code_text, schema,
}

-- What a chain of tests that ends well has passed.
both_ok : (m k : Result EventError (Unit {0})) → (m >> k) ≡ ok tt → (m ≡ ok tt) × (k ≡ ok tt)
both_ok (ok tt) k h = (refl, h)
both_ok (err e) k h = absurd (cc)

passed : (b : Bool) (e : EventError) → fail_if b e ≡ ok tt → b ≡ false
passed true e h = absurd (cc)
passed false e h = refl

pub chain_ok : (m k : Result EventError (Unit {0})) → m ≡ ok tt → k ≡ ok tt → (m >> k) ≡ ok tt
chain_ok m k h g = rw (h, g) refl

pub pass : (b : Bool) (e : EventError) → b ≡ false → fail_if b e ≡ ok tt
pass b e h = rw h refl

-- What `Build` has tested.
record Tested (a : Attempt) : Type 0 where
  identity : valid_identity a.facts ≡ true
  timing : bad_timing a.started_at a.ended_at ≡ false
  counts : valid_counts a.facts ≡ true
  cached : exceeds_input a.facts.cached_tokens a.facts.input_tokens ≡ false
  status : valid_status a.facts.status ≡ true
  usage : check_usage a.facts ≡ ok tt
  code : optional code_text a.facts.error_code ≡ true
  costs : check_costs a.facts ≡ ok tt

check-Tested : (a : Attempt) → check_attempt a ≡ ok tt → Tested a
unfolding check_attempt
check-Tested a h =
    let (h₇, costs') = both_ok _ _ h in
    let (h₆, code') = both_ok _ _ h₇ in
    let (h₅, usage') = both_ok _ _ h₆ in
    let (h₄, status') = both_ok _ _ h₅ in
    let (h₃, cached') = both_ok _ _ h₄ in
    let (h₂, counts') = both_ok _ _ h₃ in
    let (h₁, timing') = both_ok _ _ h₂ in
    record {
      identity = ground (arith, passed _ _ h₁);
      timing = passed _ _ timing';
      counts = ground (arith, passed _ _ counts');
      cached = passed _ _ cached';
      status = ground (arith, passed _ _ status');
      usage = usage';
      code = ground (arith, passed _ _ code');
      costs = costs';
    }

event-valid_metadata :
    (a : Attempt) (id : String)
    → valid_hex_id id 32 ≡ true
    → Tested a
    → valid_metadata (event_of a id) ≡ true
unfolding valid_metadata
event-valid_metadata a id h t =
    ground (arith, t.identity, t.timing, t.counts, t.code, eq_refl schema)

event-validated :
    (a : Attempt) (id : String)
    → valid_hex_id id 32 ≡ true
    → valid_decision a.facts.policy_decision ≡ true
    → Tested a
    → validate_event (event_of a id) ≡ ok tt
unfolding validate_event
event-validated a id h d t =
    chain_ok _ _
      (chain_ok _ _
        (chain_ok _ _
          (chain_ok _ _
            (chain_ok _ _ (pass _ _ (ground (arith, event-valid_metadata a id h t)))
              (pass _ _ t.cached))
            (pass _ _ (ground (arith, t.status))))
          t.usage)
        t.costs)
      (pass _ _ (ground (arith, d)))

built_from :
    (a : Attempt) (id : String) (e : Event) (m : Result EventError (Unit {0}))
    → built a (some id) m ≡ ok e
    → (m ≡ ok tt) × (e ≡ event_of a id)
built_from a id e (ok u) h = (refl, ground arith)
built_from a id e (err x) h = absurd (cc)

-- An attempt that `Build` accepts becomes an event that `ValidateEvent` accepts, and the redaction
-- with it, if the ID is one and the policy decision, which `Build` does not read, is valid.
pub build-canonical :
    (a : Attempt) (id : String) (e : Event)
    → valid_hex_id id 32 ≡ true
    → valid_decision a.facts.policy_decision ≡ true
    → build a (some id) ≡ ok e
    → validate_event e ≡ ok tt
unfolding build
build-canonical a id e h d b =
    let (c, same) = built_from a id e (check_attempt a) b in
    subst (λ x. validate_event x ≡ ok tt) (sym same) (event-validated a id h d (check-Tested a c))

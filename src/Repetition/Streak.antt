-- ===== src/Repetition/Streak.antt =====
-- When a run counts as repeated: the last three tool calls are equal, or three results are the same
-- error.
use virgil.Base.{
  ◌+◌, String, str_eq, Bool, ◌&&◌, some, List, [], ◌∷◌, ◌++◌, ok, ◌≡◌, refl, arith, eq_iff, eq_refl,
  sym, ◌∙◌, Bool-cases, inl, inr, if◌then◌else◌,
}
use virgil.Base.Dict.{get-put}
use virgil.Repetition.{
  Tracker, CallRepetitionState, max_repetition_runs, record_tool_calls, record_calls, record_call,
  repeated, answer_from, is_repeated, after_calls, repeated_tool_call, new_call_state, count_call,
}
use virgil.Repetition.Runs.{Cache, find, store, find_or_insert}
use virgil.Repetition.Calls.{tool_calls-ok}

module _ {V : Type 0} where
  pub find-store :
      (c : Cache V) (k j : String) (v : V)
      → find (store c k v) j ≡ (if str_eq k j then some v else find c j)
  unfolding find store
  find-store c k j v = get-put c.entries k j v

  pub find-store_same : (c : Cache V) (k : String) (v : V) → find (store c k v) k ≡ some v
  find-store_same c k v = ground (arith, find-store c k k v, eq_refl k)

  -- A run that is found is found without a change.
  pub find_or_insert_found :
      (c : Cache V) (k : String) (fresh v : V)
      → find c k ≡ some v
      → find_or_insert max_repetition_runs c k fresh ≡ (v, c)
  unfolding find_or_insert
  find_or_insert_found c k fresh v e = rw (find_or_insert, e) refl

-- The state after a call is recorded.
pub record_call-find :
    (c : Cache CallRepetitionState) (k fp : String)
    → find (record_call c k fp) k
      ≡ some (count_call (find_or_insert max_repetition_runs c k new_call_state).0 fp)
unfolding record_call
record_call-find c k fp = find-store_same _ k _

record_call_known :
    (c : Cache CallRepetitionState) (k fp : String) (s : CallRepetitionState)
    → find c k ≡ some s
    → find (record_call c k fp) k ≡ some (count_call s fp)
record_call_known c k fp s e =
    record_call-find c k fp ∙ rw (find_or_insert_found c k new_call_state s e) refl

record_calls-append :
    (c : Cache CallRepetitionState) (k : String) (xs ys : List String)
    → record_calls c k (xs ++ ys) ≡ record_calls (record_calls c k xs) k ys
unfolding record_calls
record_calls-append c k [] ys = refl
record_calls-append c k (x ∷ xs) ys = record_calls-append (record_call c k x) k xs ys

pub count_call-fingerprint :
    (s : CallRepetitionState) (x : String) → (count_call s x).fingerprint ≡ x
unfolding count_call
count_call-fingerprint s x = elim (Bool-cases (str_eq s.fingerprint x)) [
  | inl h ↦ rw h ((eq_iff s.fingerprint x).0 h)
  | inr h ↦ rw h refl
]

count_call-count :
    (s : CallRepetitionState) (x : String)
    → (count_call s x).count ≡ (if str_eq s.fingerprint x then s.count + 1 else 1)
unfolding count_call
count_call-count s x = elim (Bool-cases (str_eq s.fingerprint x)) [
  | inl h ↦ rw h refl
  | inr h ↦ rw h refl
]

three_calls :
    (s : CallRepetitionState) (x y z : String)
    → is_repeated (count_call (count_call (count_call s x) y) z).count ≡ (str_eq x y && str_eq y z)
three_calls s x y z =
    rw
      (
        count_call-count (count_call (count_call s x) y) z,
        count_call-fingerprint (count_call s x) y,
        count_call-count (count_call s x) y,
        count_call-fingerprint s x,
        count_call-count s x,
      )
      (ground arith)

record_three :
    (c : Cache CallRepetitionState) (k x y z : String)
    → (s : CallRepetitionState) × (find (record_calls c k (x ∷ y ∷ z ∷ [])) k ≡ some s)
      × (is_repeated s.count ≡ (str_eq x y && str_eq y z))
unfolding record_calls
record_three c k x y z =
    let s = (find_or_insert max_repetition_runs c k new_call_state).0 in
    (
      count_call (count_call (count_call s x) y) z,
      record_call_known _ k z _ (record_call_known _ k y _ (record_call-find c k x)),
      three_calls s x y z,
    )

-- After the calls of a response are recorded, the run is repeated exactly when the last three of them
-- are equal, whatever came before, and whatever SQLite holds.
pub repeated_tool_call-last_three :
    (t t' : Tracker) (cancelled writes reads : Bool) (run_id : String) (earlier : List String)
    (x y z : String)
    → record_tool_calls cancelled writes t run_id (earlier ++ x ∷ y ∷ z ∷ []) ≡ ok t'
    → (repeated_tool_call reads t' run_id).0 ≡ (str_eq x y && str_eq y z)
unfolding after_calls repeated_tool_call repeated answer_from
repeated_tool_call-last_three t t' cancelled writes reads run_id earlier x y z h =
    let (s, found, answer) =
      record_three (record_calls t.call_repetitions run_id earlier) run_id x y z in
    let e = record_calls-append t.call_repetitions run_id earlier (x ∷ y ∷ z ∷ []) in
    rw (sym (tool_calls-ok t t' cancelled writes run_id _ h), e, found) answer

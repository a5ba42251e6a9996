-- ===== src/Repetition/Errors.antt =====
-- Tool results: each ID counts once, and three equal errors are a repetition.
use virgil.Base.{
  ℕ, ◌+◌, leb, String, str_eq, Bool, true, false, ◌||◌, none, some, List, [], ◌∷◌, ok, is_some,
  length, ◌≡◌, refl, arith, eq_refl, ap, sym, ◌∙◌, Bool-cases, Option-cases, inl, inr,
  if◌then◌else◌,
}
use virgil.Base.Dict.{Dict, get, get-put, get-remove}
use virgil.Repetition.{
  Tracker, ToolResult, RepetitionState, Digest, max_repetition_runs, record_tool_result, repeated,
  answer_from, is_repeated, after_result, max_feedback_ids_per_run, repeated_tool_error,
  new_error_state, count_result, forget, result_digest, digest_eq, invalid_tool_result,
}
use virgil.Repetition.Runs.{find, find_or_insert, remove_first}
use virgil.Repetition.Calls.{result-ok}
use virgil.Repetition.Streak.{find-store_same, find_or_insert_found}

digest_eq_refl : (d : Digest) → digest_eq d d ≡ true
unfolding digest_eq
digest_eq_refl [] = refl
digest_eq_refl (b ∷ d) = ground (arith, digest_eq_refl d)

-- Forgetting an ID never makes another one seen.
forget_seen :
    (s : RepetitionState) (id : String)
    → is_some (get s.seen id) ≡ false
    → is_some (get (forget s).seen id) ≡ false
unfolding forget
forget_seen s id h = elim (Bool-cases (leb max_feedback_ids_per_run (length s.seen))) [
  | inl full ↦ rw full (removed s.seen s.seen_order id h)
  | inr room ↦ rw room h
]
  where
    removed :
        (seen : Dict (Unit {0})) (order : List String) (id : String)
        → is_some (get seen id) ≡ false
        → is_some (get (remove_first seen order) id) ≡ false
    removed seen [] id h = h
    removed seen (j ∷ order) id h = ground (arith, get-remove seen j id)

forget_kept :
    (s : RepetitionState) → ((forget s).count ≡ s.count) × ((forget s).fingerprint ≡ s.fingerprint)
unfolding forget
forget_kept s = elim (Bool-cases (leb max_feedback_ids_per_run (length s.seen))) [
  | inl full ↦ rw full (refl, refl)
  | inr room ↦ rw room (refl, refl)
]

count_result-count :
    (s : RepetitionState) (d : Digest) (id : String)
    → (count_result s d false id).count ≡ (if digest_eq s.fingerprint d then s.count + 1 else 1)
unfolding count_result
count_result-count s d id = let (c, f) = forget_kept s in rw (c, f) refl

count_result-seen :
    (s : RepetitionState) (d : Digest) (success : Bool) (id other : String)
    → is_some (get (count_result s d success id).seen other)
      ≡ (str_eq id other || is_some (get (forget s).seen other))
unfolding count_result
count_result-seen s d success id other = ground (arith, get-put (forget s).seen id other tt)

-- Whether a result with this ID has been counted for the run.
unfoldable pub is_seen : Tracker → String → String → Bool
is_seen t run_id id = elim (find t.repetitions run_id) [
  | none ↦ false
  | some s ↦ is_some (get s.seen id)
]

abbrev pub state_of : Tracker → String → RepetitionState
state_of t run_id = (find_or_insert max_repetition_runs t.repetitions run_id new_error_state).0

-- An ID that the state has seen is in the cache.
pub seen_found :
    (t : Tracker) (k id : String)
    → is_some (get (state_of t k).seen id) ≡ true
    → (s : RepetitionState) × (find t.repetitions k ≡ some s) × (is_some (get s.seen id) ≡ true)
unfolding find_or_insert get
seen_found t k id h = elim (Option-cases (find t.repetitions k)) [
  | inl e ↦ absurd (ground arith)
  | inr (s, e) ↦ (s, e, ground arith)
]

module _ (sha256 : List ℕ → Digest) where
  -- A result whose ID has been seen changes nothing.
  pub result_ignored :
      (t : Tracker) (writes : Bool) (r : ToolResult) (s : RepetitionState)
      → find t.repetitions r.run_id ≡ some s
      → is_some (get s.seen r.tool_call_id) ≡ true
      → after_result sha256 writes t r ≡ t
  unfolding after_result
  result_ignored t writes r s e h =
      rw (find_or_insert_found t.repetitions r.run_id new_error_state s e, h) refl

  unseen_state :
      (t : Tracker) (k id : String)
      → is_seen t k id ≡ false
      → is_some (get (state_of t k).seen id) ≡ false
  unfolding is_seen find_or_insert get
  unseen_state t k id h = ground arith

  result_counted :
      (t : Tracker) (writes : Bool) (r : ToolResult)
      → is_seen t r.run_id r.tool_call_id ≡ false
      → find (after_result sha256 writes t r).repetitions r.run_id
        ≡ some (
            count_result
              (state_of t r.run_id)
              (result_digest sha256 r)
              (str_eq r.status "success")
              r.tool_call_id)
  unfolding after_result
  result_counted t writes r h =
      rw (unseen_state t r.run_id r.tool_call_id h) (find-store_same _ r.run_id _)

  result_now_seen :
      (t : Tracker) (writes : Bool) (r : ToolResult)
      → (s : RepetitionState) × (find (after_result sha256 writes t r).repetitions r.run_id
          ≡ some s)
        × (is_some (get s.seen r.tool_call_id) ≡ true)
  unfolding after_result
  result_now_seen t writes r =
      elim (Bool-cases (is_some (get (state_of t r.run_id).seen r.tool_call_id))) [
        | inl h ↦
            let (s, e, seen) = seen_found t r.run_id r.tool_call_id h in
            (
              s,
              ap (λ u. find u.repetitions r.run_id) (result_ignored t writes r s e seen) ∙ e,
              seen,
            )
        | inr h ↦ rw h (
          _,
          find-store_same _ r.run_id _,
          ground (
            arith,
            eq_refl r.tool_call_id,
            count_result-seen (state_of t r.run_id) (result_digest sha256 r)
                (str_eq r.status "success") r.tool_call_id r.tool_call_id,
          ),
        )
      ]

  -- A result counts once: the same ID, reported again for its run, changes nothing, whatever the second
  -- report says and whether or not SQLite answers.
  record_tool_result-once :
      (t t' : Tracker) (cancelled writes again : Bool) (r later : ToolResult)
      → record_tool_result sha256 cancelled writes t r ≡ ok t'
      → later.run_id ≡ r.run_id
      → later.tool_call_id ≡ r.tool_call_id
      → invalid_tool_result later ≡ false
      → record_tool_result sha256 false again t' later ≡ ok t'
  unfolding record_tool_result
  record_tool_result-once t t' cancelled writes again r later h same_run same_id valid =
      let (s, e, seen) = result_now_seen t writes r in
      let q = result-ok sha256 t t' cancelled writes r h in
      let found =
        ap (λ u. find u.repetitions later.run_id) (sym q)
        ∙ ap (find (after_result sha256 writes t r).repetitions) same_run
        ∙ e in
      rw valid (
        ap ok
          (result_ignored t' again later s found (ap (λ i. is_some (get s.seen i)) same_id ∙ seen)))

-- What a counted error leaves.
record IsCounted (t t' : Tracker) (run_id id : String) (d : Digest) : Type 0 where
  state : RepetitionState
  found : find t'.repetitions run_id ≡ some state
  digest : state.fingerprint ≡ d
  number :
      state.count
      ≡ (if digest_eq (state_of t run_id).fingerprint d then (state_of t run_id).count + 1 else 1)
  unseen :
      (other : String)
      → is_seen t run_id other ≡ false
      → str_eq id other ≡ false
      → is_seen t' run_id other ≡ false

state_found :
    (t : Tracker) (k : String) (s : RepetitionState)
    → find t.repetitions k ≡ some s
    → state_of t k ≡ s
state_found t k s e = ap (λ p. p.0) (find_or_insert_found t.repetitions k new_error_state s e)

seen_state :
    (t : Tracker) (k id : String) (s : RepetitionState)
    → find t.repetitions k ≡ some s
    → is_seen t k id ≡ is_some (get s.seen id)
unfolding is_seen
seen_state t k id s e = rw (is_seen, e) refl

module _ (sha256 : List ℕ → Digest) where
  error-IsCounted :
      (t t' : Tracker) (cancelled writes : Bool) (r : ToolResult)
      → str_eq r.status "success" ≡ false
      → record_tool_result sha256 cancelled writes t r ≡ ok t'
      → is_seen t r.run_id r.tool_call_id ≡ false
      → IsCounted t t' r.run_id r.tool_call_id (result_digest sha256 r)
  unfolding count_result
  error-IsCounted t t' cancelled writes r failed h new =
      let s = state_of t r.run_id in
      let d = result_digest sha256 r in
      let e =
        ap (λ u. find u.repetitions r.run_id) (sym (result-ok sha256 t t' cancelled writes r h))
        ∙ result_counted sha256 t writes r new
        ∙ ap (λ b. some (count_result s d b r.tool_call_id)) failed in
      record {
        state = count_result s d false r.tool_call_id;
        found = e;
        digest = refl;
        number = count_result-count s d r.tool_call_id;
        unseen = λ other not_seen differs.
            seen_state t' r.run_id other _ e
            ∙ count_result-seen s d false r.tool_call_id other
            ∙ rw differs (forget_seen s other (unseen_state sha256 t r.run_id other not_seen));
      }

  -- Three results of a run with the same tool and the same error code, reported under three IDs that are
  -- new to the run, make the run repeated, whatever came before and whatever SQLite holds.
  pub repeated_tool_error-three :
      (t t1 t2 t3 : Tracker) (w1 w2 w3 reads : Bool) (r : ToolResult) (a b c : String)
      → str_eq r.status "success" ≡ false
      → is_seen t r.run_id a ≡ false
      → is_seen t r.run_id b ≡ false
      → is_seen t r.run_id c ≡ false
      → str_eq a b ≡ false
      → str_eq a c ≡ false
      → str_eq b c ≡ false
      → record_tool_result sha256 false w1 t (record r { tool_call_id = a }) ≡ ok t1
      → record_tool_result sha256 false w2 t1 (record r { tool_call_id = b }) ≡ ok t2
      → record_tool_result sha256 false w3 t2 (record r { tool_call_id = c }) ≡ ok t3
      → (repeated_tool_error reads t3 r.run_id).0 ≡ true
  unfolding repeated_tool_error repeated answer_from
  repeated_tool_error-three t t1 t2 t3 w1 w2 w3 reads r a b c failed na nb nc ab ac bc h1 h2 h3 =
      let k = r.run_id in
      let d = result_digest sha256 r in
      let one = error-IsCounted t t1 false w1 (record r { tool_call_id = a }) failed h1 na in
      let two =
        error-IsCounted t1 t2 false w2 (record r { tool_call_id = b }) failed h2
          (one.unseen b nb ab) in
      let three =
        error-IsCounted t2 t3 false w3 (record r { tool_call_id = c }) failed h3
          (two.unseen c (one.unseen c nc ac) bc) in
      rw three.found (
        third (state_of t k) d one.state two.state three.state one.number
          (same_digest t1 k one.state two.state d one.found one.digest two.number)
          (same_digest t2 k two.state three.state d two.found two.digest three.number))
    where
      same_digest :
          (t : Tracker) (k : String) (s s' : RepetitionState) (d : Digest)
          → find t.repetitions k ≡ some s
          → s.fingerprint ≡ d
          → s'.count
            ≡ (if digest_eq (state_of t k).fingerprint d then (state_of t k).count + 1 else 1)
          → s'.count ≡ s.count + 1
      same_digest t k s s' d found same number =
          number ∙ rw (state_found t k s found, same, digest_eq_refl d) refl

      third :
          (s : RepetitionState) (d : Digest) (s1 s2 s3 : RepetitionState)
          → s1.count ≡ (if digest_eq s.fingerprint d then s.count + 1 else 1)
          → s2.count ≡ s1.count + 1
          → s3.count ≡ s2.count + 1
          → is_repeated s3.count ≡ true
      third s d s1 s2 s3 n1 n2 n3 = ground arith

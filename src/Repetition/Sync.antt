-- ===== src/Repetition/Sync.antt =====
-- A cache against the rows of the table: the operations on runs keep their counts equal.
use virgil.Base.{
  ℕ, ◌==◌, String, str_eq, is_empty, Bool, true, false, Option, none, some, List, [], ◌∷◌, ◌≡◌,
  refl, arith, eq_iff, eq_refl, ap, ◌∙◌, Bool-cases, Option-cases, inl, inr, if◌then◌else◌, all_of,
}
use virgil.Base.Dict.{Dict, get, put, get-put, get-remove}
use virgil.Repetition.{
  CallRepetitionState, SavedRepetition, max_repetition_runs, record_calls, record_call, repeated,
  answer_from, is_repeated, loaded, load_repetition_state, save_repetition_state, save_call,
  new_call_state, count_call, call_count, tool_fingerprint,
}
use virgil.Repetition.Runs.{Cache, find, store, insert, find_or_insert, make_room, remove_first}
use virgil.Repetition.Streak.{record_call-find, count_call-fingerprint, find-store}

-- The count that the table has for a run.
unfoldable pub saved_count : Dict SavedRepetition → String → ℕ
saved_count rows run_id = elim (get rows run_id) [ none ↦ 0 | some row ↦ row.count ]

saved_count-put :
    (rows : Dict SavedRepetition) (k j : String) (row : SavedRepetition)
    → saved_count (put rows k row) j ≡ (if str_eq k j then row.count else saved_count rows j)
unfolding saved_count
saved_count-put rows k j row = ground (arith, get-put rows k j row)

-- What is loaded for a run.
verdict-saved :
    (rows : Dict SavedRepetition) (k : String) {V : Type 0} (count : V → ℕ)
    (restore : SavedRepetition → V) (c : Cache V)
    → find c k ≡ none
    → (repeated count restore true rows c k).0 ≡ is_repeated (saved_count rows k)
unfolding repeated answer_from loaded load_repetition_state saved_count
verdict-saved rows k count restore c e = elim (Option-cases (get rows k)) [
  | inl g ↦ rw (repeated, e, loaded, load_repetition_state, saved_count, g) refl
  | inr (row, g) ↦ elim (Bool-cases (row.count == 0)) [
    | inl z ↦ rw (repeated, e, loaded, load_repetition_state, saved_count, g, z) (ground arith)
    | inr z ↦ rw (repeated, e, loaded, load_repetition_state, saved_count, g, z) refl
  ]
]

pub loaded-saved :
    (reads : Bool) (rows : Dict SavedRepetition) (k : String) (r : SavedRepetition)
    → loaded reads rows k ≡ some r
    → saved_count rows k ≡ r.count
unfolding loaded load_repetition_state saved_count
loaded-saved reads rows k r h = ground arith

module _ {V : Type 0} where
  -- Each run in the cache has the count of its row; a run without a row has the count 0.
  unfoldable pub InSync : (V → ℕ) → Dict SavedRepetition → Cache V → Type 0
  InSync count rows c =
      (run_id : String) (v : V) → find c run_id ≡ some v → saved_count rows run_id ≡ count v

  removed_found :
      (d : Dict V) (o : List String) (j : String) (w : V)
      → get (remove_first d o) j ≡ some w
      → get d j ≡ some w
  removed_found d [] j w h = h
  removed_found d (k ∷ o) j w h = ground (arith, get-remove d k j)

  make_room_found :
      (c : Cache V) (j : String) (w : V)
      → get (make_room max_repetition_runs c).entries j ≡ some w
      → get c.entries j ≡ some w
  unfolding make_room
  make_room_found c j w h = ground (arith, removed_found c.entries c.order j w)

  -- A run that another one's insertion leaves in the cache was there before.
  find-insert :
      (c : Cache V) (k j : String) (v w : V)
      → find (insert max_repetition_runs c k v) j ≡ some w
      → str_eq k j ≡ false
      → find c j ≡ some w
  unfolding insert find
  find-insert c k j v w h differs =
      make_room_found c j w
        (ground (arith, get-put (make_room max_repetition_runs c).entries k j v))

  find-find_or_insert :
      (c : Cache V) (k j : String) (v w : V)
      → find (find_or_insert max_repetition_runs c k v).1 j ≡ some w
      → str_eq k j ≡ false
      → find c j ≡ some w
  unfolding find_or_insert
  find-find_or_insert c k j v w h differs = elim (Option-cases (find c k)) [
    | inl e ↦ find-insert c k j v w (ground arith) differs
    | inr (u, e) ↦ ground arith
  ]

  pub verdict_kept :
      (count : V → ℕ) (restore : SavedRepetition → V) (rows : Dict SavedRepetition) (c : Cache V)
      (k : String)
      → InSync count rows c
      → (repeated count restore true rows c k).0 ≡ is_repeated (saved_count rows k)
  unfolding InSync repeated answer_from
  verdict_kept count restore rows c k sync = elim (Option-cases (find c k)) [
    | inl e ↦ verdict-saved rows k count restore c e
    | inr (v, e) ↦ rw (e, sync k v e) refl
  ]

  find-insert_same :
      (c : Cache V) (k : String) (v : V) → find (insert max_repetition_runs c k v) k ≡ some v
  unfolding insert find
  find-insert_same c k v =
      ground (arith, get-put (make_room max_repetition_runs c).entries k k v, eq_refl k)

  -- A run that is counted and saved with its count.
  pub touched-InSync :
      (count : V → ℕ) (rows : Dict SavedRepetition) (c : Cache V) (k : String) (fresh v : V)
      (last_values : List String)
      → InSync count rows c
      → InSync count
          (save_repetition_state true rows k (count v) last_values)
          (store (find_or_insert max_repetition_runs c k fresh).1 k v)
  unfolding InSync save_repetition_state
  touched-InSync count rows c k fresh v last_values sync j w found =
      elim (Bool-cases (str_eq k j)) [
        | inl same ↦ ground (
          arith,
          saved_count-put rows k j (record { count = count v; last_values = last_values }),
          find-store (find_or_insert max_repetition_runs c k fresh).1 k j v,
        )
        | inr differs ↦ ground (
          arith,
          saved_count-put rows k j (record { count = count v; last_values = last_values }),
          find-store (find_or_insert max_repetition_runs c k fresh).1 k j v,
          find-find_or_insert c k j fresh w,
          sync j w,
        )
      ]

  inserted-InSync :
      (count : V → ℕ) (rows : Dict SavedRepetition) (c : Cache V) (k : String) (v : V)
      → saved_count rows k ≡ count v
      → InSync count rows c
      → InSync count rows (insert max_repetition_runs c k v)
  unfolding InSync
  inserted-InSync count rows c k v exact sync j w found = elim (Bool-cases (str_eq k j)) [
    | inl same ↦ ground (arith, find-insert_same c k v, eq_iff k j)
    | inr differs ↦ sync j w (find-insert c k j v w found differs)
  ]

  pub answered-InSync :
      (count : V → ℕ) (restore : SavedRepetition → V) (rows : Dict SavedRepetition) (c : Cache V)
      (k : String) (row : Option SavedRepetition) (state : Option V)
      → ((r : SavedRepetition) → row ≡ some r → saved_count rows k ≡ count (restore r))
      → InSync count rows c
      → InSync count rows (answer_from count restore row c k state).1
  unfolding answer_from
  answered-InSync count restore rows c k row (some v) exact sync = sync
  answered-InSync count restore rows c k none none exact sync = sync
  answered-InSync count restore rows c k (some r) none exact sync =
      inserted-InSync count rows c k (restore r) (exact r refl) sync

-- The calls of a response touch no other run, and leave their own with its last fingerprint.
record_calls-others :
    (c : Cache CallRepetitionState) (k j : String) (fps : List String) (w : CallRepetitionState)
    → find (record_calls c k fps) j ≡ some w
    → str_eq k j ≡ false
    → find c j ≡ some w
unfolding record_calls record_call
record_calls-others c k j [] w h differs = h
record_calls-others c k j (fp ∷ fps) w h differs =
    find-find_or_insert c k j new_call_state w
      (ground (
        arith,
        record_calls-others (record_call c k fp) k j fps w,
        find-store (find_or_insert max_repetition_runs c k new_call_state).1 k j
            (count_call (find_or_insert max_repetition_runs c k new_call_state).0 fp),
      ))
      differs

no_text : tool_fingerprint "" ≡ false
unfolding tool_fingerprint
no_text = refl

valid_nonempty : (fp : String) → tool_fingerprint fp ≡ true → is_empty fp ≡ false
valid_nonempty fp h = elim (Bool-cases (is_empty fp)) [
  | inl e ↦ absurd (ground (arith, ap tool_fingerprint ((eq_iff fp "").0 e), no_text))
  | inr e ↦ e
]

-- A run that is in the cache under a fingerprint.
Labelled : Cache CallRepetitionState → String → Type 0
Labelled c k = (s : CallRepetitionState) × (find c k ≡ some s) × (is_empty s.fingerprint ≡ false)

record_call-Labelled :
    (c : Cache CallRepetitionState) (k fp : String)
    → tool_fingerprint fp ≡ true
    → Labelled (record_call c k fp) k
unfolding Labelled
record_call-Labelled c k fp h =
    let s = (find_or_insert max_repetition_runs c k new_call_state).0 in
    (
      count_call s fp,
      record_call-find c k fp,
      ap is_empty (count_call-fingerprint s fp) ∙ valid_nonempty fp h,
    )

record_calls-Labelled :
    (c : Cache CallRepetitionState) (k : String) (fps : List String)
    → all_of tool_fingerprint fps ≡ true
    → Labelled c k
    → Labelled (record_calls c k fps) k
unfolding record_calls
record_calls-Labelled c k [] h l = l
record_calls-Labelled c k (fp ∷ fps) h l =
    record_calls-Labelled (record_call c k fp) k fps (ground arith)
      (record_call-Labelled c k fp (ground arith))

-- A run whose state has no fingerprint is not saved, and has to agree with the table already.
saved-InSync :
    (rows : Dict SavedRepetition) (c : Cache CallRepetitionState) (k : String)
    → ((j : String) (w : CallRepetitionState)
        → find c j ≡ some w
        → str_eq k j ≡ false
        → saved_count rows j ≡ w.count)
    → ((s : CallRepetitionState)
        → find c k ≡ some s
        → is_empty s.fingerprint ≡ true
        → saved_count rows k ≡ s.count)
    → InSync call_count (save_call true rows k (find c k)) c
unfolding InSync save_call save_repetition_state
saved-InSync rows c k others own j w found = elim (Option-cases (find c k)) [
  | inl e ↦ rw e (others j w found (ground (arith, eq_iff k j)))
  | inr (s, e) ↦ elim (Bool-cases (is_empty s.fingerprint)) [
    | inl free ↦ rw (e, free) (ground (arith, others j w, own s, eq_iff k j))
    | inr labelled ↦
        rw (e, labelled)
          (ground (
            arith,
            others j w,
            eq_iff k j,
            saved_count-put rows k j (record { count = s.count; last_values = s.fingerprint ∷ [] }),
          ))
  ]
]

pub batch-InSync :
    (rows : Dict SavedRepetition) (c : Cache CallRepetitionState) (k : String) (fps : List String)
    → all_of tool_fingerprint fps ≡ true
    → InSync call_count rows c
    → InSync call_count
        (save_call true rows k (find (record_calls c k fps) k))
        (record_calls c k fps)
unfolding InSync record_calls Labelled
batch-InSync rows c k [] h sync =
    saved-InSync rows c k (λ j w found differs. sync j w found) (λ s found free. sync k s found)
batch-InSync rows c k (fp ∷ fps) h sync =
    let (s, found, labelled) =
      record_calls-Labelled (record_call c k fp) k fps (ground arith)
        (record_call-Labelled c k fp (ground arith)) in
    saved-InSync rows (record_calls (record_call c k fp) k fps) k
      (λ j w e differs. sync j w (record_calls-others c k j (fp ∷ fps) w e differs))
      (λ s' e free. absurd (ground arith))

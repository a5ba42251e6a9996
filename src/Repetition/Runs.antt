-- ===== src/Repetition/Runs.antt =====
-- A map of at most so many runs with the order in which they came: the three caches of the engine.
use virgil.Base.{ℕ, leb, String, if◌then◌else◌, Option, none, some, List, [], ◌∷◌, ◌++◌, length}
use virgil.Base.Dict.{Dict, get, put, remove}

pub record Cache (V : Type 0) : Type 0 where
  pub entries : Dict V
  pub order : List String

abbrev pub first : List String → Option String
first [] = none
first (k ∷ ks) = some k

abbrev pub rest : List String → List String
rest [] = []
rest (k ∷ ks) = ks

abbrev pub remove_first : {V : Type 0} → Dict V → List String → Dict V
remove_first d [] = d
remove_first d (k ∷ ks) = remove d k

module _ {V : Type 0} where
  unfoldable pub find : Cache V → String → Option V
  find c run_id = get c.entries run_id

  -- `delete(entries, order[0]); order = order[1:]` where the cache is full. The order of a full cache
  -- is never empty, so that the index is in range.
  unfoldable pub make_room : ℕ → Cache V → Cache V
  make_room limit c =
      if leb limit (length c.entries)
      then record { entries = remove_first c.entries c.order; order = rest c.order }
      else c

  -- A new run.
  unfoldable pub insert : ℕ → Cache V → String → V → Cache V
  unfolding make_room
  insert limit c run_id v =
      let roomy = make_room limit c in
      record { entries = put roomy.entries run_id v; order = roomy.order ++ run_id ∷ [] }

  -- A write through the pointer that the map holds.
  unfoldable pub store : Cache V → String → V → Cache V
  store c run_id v = record c { entries = put c.entries run_id v }

  -- The state of a run, and the cache in which it stands, made anew where it is missing.
  unfoldable pub find_or_insert : ℕ → Cache V → String → V → V × Cache V
  find_or_insert limit c run_id fresh = elim (find c run_id) [
    | some v ↦ (v, c)
    | none ↦ (fresh, insert limit c run_id fresh)
  ]

-- ===== src/Repetition/Bounds.antt =====
-- The three caches stay within 1024 runs, and their order lists the runs that they hold.
use virgil.Base.{
  ℕ, suc, ◌+◌, ◌≤◌, leb, String, str_eq, true, false, ◌||◌, none, List, [], ◌∷◌, ◌++◌, length,
  contains, is_some, ◌≡◌, refl, arith, eq_iff, eq_refl, ap, sym, ◌∙◌, Bool-cases, Option-cases, inl,
  inr,
}
use virgil.Base.Dict.{Dict, get, put, remove, get-put, get-remove, length-put}
use virgil.Repetition.Runs.{Cache, find, store, insert, make_room, find_or_insert, remove_first}

abbrev pub keys : {V : Type 0} → Dict V → List String
keys [] = []
keys ((k, v) ∷ d) = k ∷ keys d

abbrev pub Distinct : List String → Type 0
Distinct [] = Unit
Distinct (k ∷ ks) = (contains k ks ≡ false) × Distinct ks

pub record IsBounded {V : Type 0} (limit : ℕ) (c : Cache V) : Type 0 where
  pub size : length c.entries ≤ limit
  pub same : c.order ≡ keys c.entries
  pub distinct : Distinct (keys c.entries)

module _ {V : Type 0} where
  contains-keys : (d : Dict V) (k : String) → contains k (keys d) ≡ is_some (get d k)
  unfolding get contains
  contains-keys [] k = refl
  contains-keys ((j, v) ∷ d) k = ground (arith, contains-keys d k)

  remove_absent : (d : Dict V) (k : String) → contains k (keys d) ≡ false → remove d k ≡ d
  unfolding remove contains
  remove_absent [] k h = refl
  remove_absent ((j, v) ∷ d) k h = ground (arith, remove_absent d k)

  -- A new key comes last.
  keys_new :
      (d : Dict V) (k : String) (v : V)
      → contains k (keys d) ≡ false
      → keys (put d k v) ≡ keys d ++ k ∷ []
  unfolding put contains
  keys_new [] k v h = refl
  keys_new ((j, w) ∷ d) k v h = ground (arith, keys_new d k v)

  -- A key that is there keeps its place.
  keys_old :
      (d : Dict V) (k : String) (v : V) → contains k (keys d) ≡ true → keys (put d k v) ≡ keys d
  unfolding put contains
  keys_old [] k v h = ground arith
  keys_old ((j, w) ∷ d) k v h = ground (arith, keys_old d k v)

  remove_one :
      (d : Dict V) (k : String) (v : V) → Distinct (keys ((k, v) ∷ d)) → remove ((k, v) ∷ d) k ≡ d
  unfolding remove
  remove_one d k v (n, _) = ground (arith, eq_refl k, remove_absent d k)

  length-keys : (d : Dict V) → length (keys d) ≡ length d
  length-keys [] = refl
  length-keys ((j, v) ∷ d) = ap suc (length-keys d)

pub contains_last :
    (k j : String) (ks : List String) → contains j (ks ++ k ∷ []) ≡ (contains j ks || str_eq k j)
unfolding contains
contains_last k j [] = ground arith
contains_last k j (i ∷ ks) = ground (arith, contains_last k j ks)

pub Distinct-append :
    (ks : List String) (k : String) → Distinct ks → contains k ks ≡ false → Distinct (ks ++ k ∷ [])
unfolding contains
Distinct-append [] k d h = (refl, tt)
Distinct-append (j ∷ ks) k (n, d) h = (
  ground (arith, contains_last k j ks, eq_iff k j, eq_iff j k),
  Distinct-append ks k d (ground arith),
)

module _ {V : Type 0} (limit : ℕ) (positive : 1 ≤ limit) where
  -- The oldest run leaves a full cache.
  without_oldest :
      (d : Dict V) (o : List String)
      → IsBounded limit (record { entries = d; order = o })
      → IsBounded limit (make_room limit (record { entries = d; order = o }))
        × (length (make_room limit (record { entries = d; order = o })).entries + 1 ≤ limit)
  unfolding make_room
  without_oldest [] o b = elim (Bool-cases (leb limit 0)) [
    | inl h ↦ absurd (ground arith)
    | inr h ↦ rw h (b, ground arith)
  ]
  without_oldest ((k, v) ∷ d) o b = elim (Bool-cases (leb limit (length ((k, v) ∷ d)))) [
    | inl h ↦
        rw (h, b.same, remove_one d k v b.distinct)
          (
            record { size = ground (arith, b.size); same = refl; distinct = b.distinct.1 },
            omega (arith, b.size),
          )
    | inr h ↦ rw h (b, ground arith)
  ]

  pub make_room-IsBounded :
      (c : Cache V)
      → IsBounded limit c
      → IsBounded limit (make_room limit c) × (length (make_room limit c).entries + 1 ≤ limit)
  make_room-IsBounded c b = without_oldest c.entries c.order b

  remove_first_absent :
      (d : Dict V) (o : List String) (k : String) → get d k ≡ none → get (remove_first d o) k ≡ none
  remove_first_absent d [] k h = h
  remove_first_absent d (j ∷ o) k h = ground (arith, get-remove d j k)

  absent_stays :
      (c : Cache V) (k : String) → find c k ≡ none → get (make_room limit c).entries k ≡ none
  unfolding make_room find
  absent_stays c k h = ground (arith, remove_first_absent c.entries c.order k h)

  -- A run that is not in the cache is put last.
  pub insert-IsBounded :
      (c : Cache V) (k : String) (v : V)
      → IsBounded limit c
      → find c k ≡ none
      → IsBounded limit (insert limit c k v)
  unfolding insert
  insert-IsBounded c k v b h =
      let (r, room) = make_room-IsBounded c b in
      let free = contains-keys (make_room limit c).entries k ∙ ap is_some (absent_stays c k h) in
      let last = keys_new (make_room limit c).entries k v free in
      record {
        size = ground (arith, length-put (make_room limit c).entries k v, room);
        same = ap (λ o. o ++ k ∷ []) r.same ∙ sym last;
        distinct = rw last (Distinct-append _ k r.distinct free);
      }

  find-insert : (c : Cache V) (k : String) (v : V) → is_some (find (insert limit c k v) k) ≡ true
  unfolding find insert
  find-insert c k v = ground (arith, get-put (make_room limit c).entries k k v, eq_refl k)

  pub store-IsBounded :
      (c : Cache V) (k : String) (v : V)
      → IsBounded limit c
      → is_some (find c k) ≡ true
      → IsBounded limit (store c k v)
  unfolding store find
  store-IsBounded c k v b h =
      let old = keys_old c.entries k v (contains-keys c.entries k ∙ h) in
      record {
        size = ground (arith, length-put c.entries k v, b.size);
        same = b.same ∙ sym old;
        distinct = rw old b.distinct;
      }

  pub find_or_insert-IsBounded :
      (c : Cache V) (k : String) (fresh : V)
      → IsBounded limit c
      → IsBounded limit (find_or_insert limit c k fresh).1
        × (is_some (find (find_or_insert limit c k fresh).1 k) ≡ true)
  unfolding find_or_insert
  find_or_insert-IsBounded c k fresh b = elim (Option-cases (find c k)) [
    | inl e ↦ rw (find_or_insert, e) (insert-IsBounded c k fresh b e, find-insert c k fresh)
    | inr (v, e) ↦ rw (find_or_insert, e) (b, ap is_some e)
  ]

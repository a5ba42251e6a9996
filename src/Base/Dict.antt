-- ===== src/Base/Dict.antt =====
-- Go maps and SQL tables with a text key, as association lists.
use Prim.Native.Nat.{◌+◌, ◌≤◌}
use Prim.Native.String.{String}
use mathlib.Core.Path.{◌≡◌, refl}
use mathlib.Core.Bool.{true}
use mathlib.Core.Option.{Option, none, some}
use mathlib.Core.Option
use mathlib.Core.List.{List, [], ◌∷◌}
use native.Mathlib.Omega.{arith}
use text.Mathlib.TextEquality.{eq_iff}
use virgil.Base.Tests.{str_eq, if◌then◌else◌, is_some}
use virgil.Base.Lists.{length, contains}

abbrev pub Dict {ℓ} : Type ℓ → Type ℓ
Dict V = List (String × V)

module _ {ℓ} {V : Type ℓ} where
  unfoldable pub get : Dict V → String → Option V
  get [] k = none
  get ((j, v) ∷ d) k = if str_eq j k then some v else get d k

  -- Insert or replace.
  unfoldable pub put : Dict V → String → V → Dict V
  put [] k v = (k, v) ∷ []
  put ((j, w) ∷ d) k v = if str_eq j k then (j, v) ∷ d else (j, w) ∷ put d k v

  unfoldable pub remove : Dict V → String → Dict V
  remove [] k = []
  remove ((j, w) ∷ d) k = if str_eq j k then remove d k else (j, w) ∷ remove d k

  unfoldable pub map_values : (V → V) → Dict V → Dict V
  map_values f [] = []
  map_values f ((j, v) ∷ d) = (j, f v) ∷ map_values f d

  -- The keys, in the order of the list.
  unfoldable pub keys : Dict V → List String
  keys [] = []
  keys ((j, w) ∷ d) = j ∷ keys d

  pub get-keys : (d : Dict V) (k : String) → contains k (keys d) ≡ is_some (get d k)
  unfolding get keys contains
  get-keys [] k = refl
  get-keys ((i, w) ∷ d) k = ground (arith, get-keys d k)

  pub get-put :
      (d : Dict V) (k j : String) (v : V)
      → get (put d k v) j ≡ (if str_eq k j then some v else get d j)
  unfolding get put
  get-put [] k j v = refl
  get-put ((i, w) ∷ d) k j v = ground (arith, eq_iff k j, eq_iff i k, eq_iff i j, get-put d k j v)

  pub get-remove :
      (d : Dict V) (k j : String) → get (remove d k) j ≡ (if str_eq k j then none else get d j)
  unfolding get remove
  get-remove [] k j = ground arith
  get-remove ((i, w) ∷ d) k j = ground (arith, eq_iff k j, eq_iff i k, eq_iff i j, get-remove d k j)

  pub get-map_values :
      (f : V → V) (d : Dict V) (k : String) → get (map_values f d) k ≡ Option.map f (get d k)
  unfolding get map_values
  get-map_values f [] k = refl
  get-map_values f ((i, w) ∷ d) k = ground (arith, get-map_values f d k)

  pub length-put :
      (d : Dict V) (k : String) (v : V)
      → length (put d k v) ≡ (if is_some (get d k) then length d else length d + 1)
  unfolding get put
  length-put [] k v = omega arith
  length-put ((i, w) ∷ d) k v = ground (arith, length-put d k v)

  pub length-remove-le : (d : Dict V) (k : String) → length (remove d k) ≤ length d
  unfolding remove
  length-remove-le [] k = omega arith
  length-remove-le ((i, w) ∷ d) k = ground (arith, length-remove-le d k)

  -- A key that is present frees at least one entry.
  pub length-remove-lt :
      (d : Dict V) (k : String) → is_some (get d k) ≡ true → length (remove d k) + 1 ≤ length d
  unfolding get remove
  length-remove-lt [] k h = ground arith
  length-remove-lt ((i, w) ∷ d) k h = ground (arith, length-remove-lt d k, length-remove-le d k)

pub ruleset dict_laws = (get-put, get-remove, get-map_values)

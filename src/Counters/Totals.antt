-- ===== src/Counters/Totals.antt =====
-- Sums over the reservations of a run.
use virgil.Base.{ℕ, ◌+◌, ◌≤◌, String, str_eq, if◌then◌else◌, none, some, [], ◌∷◌, ◌≡◌, arith}
use virgil.Base.Dict.{Dict, get, put}
use virgil.Base.Int.{ℤ, pos_part}
use virgil.Counters.{Reservation}

-- What a reservation adds to a column of a run.
abbrev pub share : (Reservation → ℤ) → String → Reservation → ℕ
share column k r = if str_eq r.run_id k then pos_part (column r) else 0

unfoldable pub total : (Reservation → ℤ) → String → Dict Reservation → ℕ
total column k [] = 0
total column k ((id, r) ∷ d) = share column k r + total column k d

module _ (column : Reservation → ℤ) (k : String) where
  pub total-put_new :
      (d : Dict Reservation) (id : String) (r : Reservation)
      → get d id ≡ none
      → total column k (put d id r) ≡ total column k d + share column k r
  unfolding total get put
  total-put_new [] id r h = omega arith
  total-put_new ((j, w) ∷ d) id r h = ground (arith, total-put_new d id r)

  pub total-put_old :
      (d : Dict Reservation) (id : String) (r old : Reservation)
      → get d id ≡ some old
      → total column k (put d id r) + share column k old ≡ total column k d + share column k r
  unfolding total get put
  total-put_old [] id r old h = ground arith
  total-put_old ((j, w) ∷ d) id r old h = ground (arith, total-put_old d id r old)

  pub share-le-total :
      (d : Dict Reservation) (id : String) (old : Reservation)
      → get d id ≡ some old
      → share column k old ≤ total column k d
  unfolding total get
  share-le-total [] id old h = ground arith
  share-le-total ((j, w) ∷ d) id old h = ground (arith, share-le-total d id old)

-- ===== src/Journal/Pruned.antt =====
-- What the pruning keeps.
use virgil.Base.Dict.{Dict}
use virgil.Journal.{Journal}

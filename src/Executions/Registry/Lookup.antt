-- ===== src/Executions/Registry/Lookup.antt =====
-- What a lookup of a run ID finds.
use virgil.Base.{ℕ, String, ◌≡◌, refl, Option, none, some}
use virgil.Base.Cells.{get_elem?}
use virgil.Base.Dict.{get}
use virgil.Executions.Registry.{ActiveRun, Registry, find_run, dereference, with_address}

pub data Found (r : Registry) (run_id : String) : Option (ℕ × ActiveRun) → Type 0 where
  missing : Found r run_id none
  found :
      {a : ℕ} {run : ActiveRun}
      → get r.runs run_id ≡ some a
      → get_elem? r.heap a ≡ some run
      → Found r run_id (some (a, run))

with_address-Found :
    (r : Registry) (run_id : String) (a : ℕ)
    → get r.runs run_id ≡ some a
    → (o : Option ActiveRun) → get_elem? r.heap a ≡ o
    → Found r run_id (with_address a o)
with_address-Found r run_id a e none at = missing
with_address-Found r run_id a e (some run) at = found e at

dereference-Found :
    (r : Registry) (run_id : String) (o : Option ℕ)
    → get r.runs run_id ≡ o
    → Found r run_id (dereference r o)
dereference-Found r run_id none e = missing
dereference-Found r run_id (some a) e = with_address-Found r run_id a e (get_elem? r.heap a) refl

pub find_run-Found : (r : Registry) (run_id : String) → Found r run_id (find_run r run_id)
unfolding find_run
find_run-Found r run_id = dereference-Found r run_id (get r.runs run_id) refl

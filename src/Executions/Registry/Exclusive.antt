-- ===== src/Executions/Registry/Exclusive.antt =====
-- Every schedule keeps the owners of the records.
use virgil.Base.{String, ◌≡◌, refl, Option, none, some, Result, List, [], ◌∷◌, ok, err, arith}
use mathlib.Core.Path.{subst}
use virgil.Base.Cells.{get_elem?}
use virgil.Executions.{Time, Error}
use virgil.Executions.Store.{Table, mark_execution_running, block_execution}
use virgil.Executions.Registry.{
  Registry, begin_finish, subscribe, find_run, notify_policy_block, requested_run_id,
}
use virgil.Executions.Registry.Lookup.{find_run-Found}
use virgil.Executions.Registry.Frames.{QuietIf, quiet, write-Quiet, Quiet-refl, notify-QuietIf}
use virgil.Executions.Registry.Schedules.{
  System, Event, Thread, Work, step, run_events, started, receive_run, with_registry, register_as,
  table_of,
}
use virgil.Executions.Registry.Owners.{IsOwned, registry-IsOwned}
use virgil.Executions.Registry.Takes.{
  idle-IsOwned, begin-IsOwned, insert-IsOwned, subscribe-IsOwned,
}
use virgil.Executions.Registry.Replies.{OwnedSystem, panicked, owned, thread-OwnedSystem}

notify-OwnedSystem :
    (s : System) (r : Option Registry)
    → QuietIf s.registry r
    → IsOwned s
    → OwnedSystem (with_registry s r)
notify-OwnedSystem s none q o = panicked
notify-OwnedSystem s (some r) (quiet q) o = owned (registry-IsOwned s r q o)

-- A call of the store alone.
store-IsOwned : (s : System) (rows : Table) → IsOwned s → IsOwned (record s { table = rows })
store-IsOwned s rows o = record { holds = o.holds; alone = o.alone }

register-OwnedSystem :
    (digest : String → String) (s : System) (run_token signal_token : String) (t : Time)
    (m : Result Error String)
    → IsOwned s
    → OwnedSystem (some (register_as digest s run_token signal_token t m))
register-OwnedSystem digest s run_token signal_token t (ok run_id) o =
    owned (insert-IsOwned digest s run_id run_token signal_token t o)
register-OwnedSystem digest s run_token signal_token t (err e) o =
    owned (idle-IsOwned s (Thread.replied (err e)) s.registry tt refl (Quiet-refl s.registry) o)

step-OwnedSystem :
    (digest : String → String) (s : System) (e : Event) → IsOwned s → OwnedSystem (step digest s e)
unfolding step subscribe begin_finish
step-OwnedSystem digest s (Event.register requested generated run_token signal_token t) o =
    register-OwnedSystem digest s run_token signal_token t (requested_run_id requested generated) o
step-OwnedSystem digest s (Event.advance i io) o =
    thread-OwnedSystem s i io (get_elem? s.threads i) refl o
step-OwnedSystem digest s (Event.join run_id token) o =
    owned (subscribe-IsOwned digest s token (find_run s.registry run_id) o)
step-OwnedSystem digest s (Event.receive_signal a) o =
    owned (registry-IsOwned s _ (write-Quiet s.registry a receive_run (λ run _. refl)) o)
step-OwnedSystem digest s (Event.notify notice) o =
    notify-OwnedSystem s (notify_policy_block s.registry notice) (notify-QuietIf s.registry notice)
      o
step-OwnedSystem digest s (Event.finish_run result) o = owned (
    begin-IsOwned s result.run_id (Work.settling result) (find_run s.registry result.run_id) refl
      (find_run-Found s.registry result.run_id) o)
step-OwnedSystem digest s (Event.mark_running run_id) o =
    owned (store-IsOwned s (table_of s.table (mark_execution_running s.table run_id)) o)
step-OwnedSystem digest s (Event.policy_block notice) o =
    owned (store-IsOwned s (table_of s.table (block_execution s.table notice)) o)

run-OwnedSystem :
    (digest : String → String) (es : List Event) (o : Option System)
    → OwnedSystem o
    → OwnedSystem (run_events digest es o)
unfolding run_events
run-OwnedSystem digest [] o h = h
run-OwnedSystem digest (e ∷ es) none h = panicked
run-OwnedSystem digest (e ∷ es) (some s) (owned h) =
    run-OwnedSystem digest es (step digest s e) (step-OwnedSystem digest s e h)

reached_state : (s : System) (o : Option System) → o ≡ some s → OwnedSystem o → IsOwned s
reached_state s none e h = absurd (cc)
reached_state s (some s') e (owned h) = subst IsOwned (ground arith) h

-- In every state that a schedule reaches, whatever calls are interleaved and fail: each `Register`
-- and each `Finish` in flight finds its own record under its run ID, with the flags that keep other
-- calls off, and no two of them have the same record. So the run that the last section of a call
-- deletes is the one that the call holds.
pub schedules-IsOwned :
    (digest : String → String) (rows : Table) (es : List Event) (s : System)
    → run_events digest es (some (started rows)) ≡ some s
    → IsOwned s
unfolding get_elem?
schedules-IsOwned digest rows es s e =
    reached_state s (run_events digest es (some (started rows))) e (
      run-OwnedSystem digest es (some (started rows))
        (owned (record { holds = λ i t h. absurd (cc); alone = λ i j t u a h _ _ _. absurd (cc) })))

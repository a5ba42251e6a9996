-- ===== src/Executions/Registry/Schedules.antt =====
-- The registry under every interleaving: the calls in flight are threads, and an event is one
-- critical section of one of them, one call of the store, or a receive. `none` is a panic.
use virgil.Base.{
  ℕ, String, if◌then◌else◌, Bool, Option, none, some, List, [], ◌∷◌, ◌++◌, Result, ok, err,
}
use virgil.Base.Cells.{get_elem?, modify}
use virgil.Executions.{Time, ExecutionResult, PolicyBlockNotice, Error, failure}
use virgil.Executions.Store.{
  Table, start_execution, mark_execution_running, block_execution, finish_execution,
}
use virgil.Executions.Registry.{
  Registry, ActiveRun, new_registry, requested_run_id, insert_run, set_ready, drop_run, subscribe,
  release, receive, write, notify_policy_block, begin_finish, abort_finish, end_finish,
}

-- Where a `Register` or a `Finish` stands that holds the record of its run.
pub data Work : Type 0 where
  starting : Time → Work
  start_stored : Work
  start_failed : Error → Work
  settling : ExecutionResult → Work
  finish_stored : ExecutionResult → Work
  finish_failed : Error → Work

-- `subscribed` holds the closure that releases the stream, which may be called more than once.
pub data Thread : Type 0 where
  working : String → ℕ → Work → Thread
  subscribed : ℕ → Thread
  replied : Result Error (Unit {0}) → Thread

pub record System : Type 0 where
  pub registry : Registry
  pub table : Table
  pub threads : List Thread

-- `advance i io` runs the next part of a thread; a call of the store fails when `io` is false.
pub data Event : Type 0 where
  register : String → String → String → String → Time → Event
  advance : ℕ → Bool → Event
  join : String → String → Event
  receive_signal : ℕ → Event
  notify : PolicyBlockNotice → Event
  finish_run : ExecutionResult → Event
  mark_running : String → Event
  policy_block : PolicyBlockNotice → Event

abbrev pub spawn : System → Registry → Thread → System
spawn s r t = record s { registry = r; threads = s.threads ++ t ∷ [] }

abbrev pub continue : System → ℕ → Registry → Thread → System
continue s i r t = record s { registry = r; threads = modify s.threads i (λ _. t) }

-- A store call: what it returns, or an I/O failure that changes nothing.
abbrev pub attempt : Bool → Result Error Table → Result Error Table
attempt io m = if io then m else err failure

abbrev pub table_of : Table → Result Error Table → Table
table_of rows (ok rows') = rows'
table_of rows (err e) = rows

abbrev pub after_start : Result Error Table → Work
after_start (ok rows) = start_stored
after_start (err e) = start_failed e

abbrev pub after_settle : ExecutionResult → Result Error Table → Work
after_settle result (ok rows) = finish_stored result
after_settle result (err e) = finish_failed e

abbrev pub resume : System → ℕ → Thread → Option Registry → Option System
resume s i t none = none
resume s i t (some r) = some (continue s i r t)

-- A store call of thread `i`, which leaves the registry as it is.
abbrev pub stored : System → ℕ → Result Error Table → Thread → System
stored s i m t = record (continue s i s.registry t) { table = table_of s.table m }

unfoldable pub advance_work : System → ℕ → Bool → String → ℕ → Work → Option System
advance_work s i io run_id a (starting t) =
    let m = attempt io (start_execution s.table run_id t) in
    some (stored s i m (working run_id a (after_start m)))
advance_work s i io run_id a start_stored =
    some (continue s i (set_ready s.registry a) (replied (ok tt)))
advance_work s i io run_id a (start_failed e) =
    some (continue s i (drop_run s.registry run_id) (replied (err e)))
advance_work s i io run_id a (settling result) =
    let m = attempt io (finish_execution s.table result) in
    some (stored s i m (working run_id a (after_settle result m)))
advance_work s i io run_id a (finish_stored result) =
    resume s i (replied (ok tt)) (end_finish s.registry run_id a)
advance_work s i io run_id a (finish_failed e) =
    some (continue s i (abort_finish s.registry a) (replied (err e)))

unfoldable pub advance_thread : System → ℕ → Bool → Option Thread → Option System
unfolding advance_work
advance_thread s i io none = some s
advance_thread s i io (some (working run_id a w)) = advance_work s i io run_id a w
advance_thread s i io (some (subscribed a)) = resume s i (subscribed a) (release s.registry a)
advance_thread s i io (some (replied r)) = some s

-- A call that holds the record at an address from its first critical section on.
abbrev pub spawn_held : System → (ℕ → Thread) → Result Error (ℕ × Registry) → System
spawn_held s thread (ok (a, r)) = spawn s r (thread a)
spawn_held s thread (err e) = spawn s s.registry (replied (err e))

abbrev pub with_registry : System → Option Registry → Option System
with_registry s none = none
with_registry s (some r) = some (record s { registry = r })

abbrev pub receive_run : ActiveRun → ActiveRun
receive_run run = record run { signals = receive run.signals }

module _ (digest : String → String) where
  abbrev pub register_as : System → String → String → Time → Result Error String → System
  register_as s run_token signal_token t (ok run_id) =
      spawn_held s (λ a. working run_id a (starting t))
        (insert_run digest s.registry run_id run_token signal_token)
  register_as s run_token signal_token t (err e) = spawn s s.registry (replied (err e))

  unfoldable pub step : System → Event → Option System
  unfolding advance_thread
  step s (register requested generated run_token signal_token t) =
      some (register_as s run_token signal_token t (requested_run_id requested generated))
  step s (advance i io) = advance_thread s i io (get_elem? s.threads i)
  step s (join run_id token) =
      some (spawn_held s subscribed (subscribe digest s.registry run_id token))
  step s (receive_signal a) = some (record s { registry = write a receive_run s.registry })
  step s (notify notice) = with_registry s (notify_policy_block s.registry notice)
  step s (finish_run result) = some (
      spawn_held s (λ a. working result.run_id a (settling result))
        (begin_finish s.registry result.run_id))
  step s (mark_running run_id) =
      some (record s { table = table_of s.table (mark_execution_running s.table run_id) })
  step s (policy_block notice) =
      some (record s { table = table_of s.table (block_execution s.table notice) })

  unfoldable pub run_events : List Event → Option System → Option System
  unfolding step
  run_events [] s = s
  run_events (e ∷ es) none = none
  run_events (e ∷ es) (some s) = run_events es (step s e)

-- A core process that has just started, over the rows that it finds.
abbrev pub started : Table → System
started rows = record { registry = new_registry; table = rows; threads = [] }

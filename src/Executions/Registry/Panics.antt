-- ===== src/Executions/Registry/Panics.antt =====
-- No schedule makes the registry close a channel twice, send on a closed one, or send twice.
use virgil.Base.{
  ℕ, ◌≤◌, String, is_empty, str_eq, is_some, if◌then◌else◌, ◌≡◌, refl, Bool, true, Option, none,
  some, Result, List, [], ◌∷◌, ok, err, arith, length, All, length-append, ltb, not, ◌||◌, ◌++◌,
  Bool-cases, inl, inr,
}
use virgil.Base.Cells.{get_elem?, All-get, All-modify, All-append}
use virgil.Base.Dict.{get}
use virgil.Executions.{Time, PolicyBlockNotice, Error}
use virgil.Executions.Store.{Table}
use virgil.Executions.Registry.{
  Registry, ActiveRun, new_run, release, change_run, close_run, notify_run, notify_policy_block,
  begin_finish, subscribe, insert_run, set_ready, drop_run, abort_finish, end_finish, write,
  find_run, drop_released, notify_found, begin_found, subscribe_found, requested_run_id,
}
use virgil.Executions.Registry.Lookup.{Found, found, find_run-Found}
use virgil.Executions.Registry.Schedules.{
  System, Event, Thread, Work, step, run_events, receive_run, register_as, resume, with_registry,
  spawn_held, started, advance_thread, advance_work,
}

-- The flag `closed` says whether the channel is closed, and the channel has one signal at most:
-- the one of `notifyOnce`.
pub record IsSound (run : ActiveRun) : Type 0 where
  pub flag : run.signals.is_closed ≡ run.closed
  pub once : length run.signals.sent ≡ (if run.notified then 1 else 0)
  pub received_sent : run.signals.received ≤ length run.signals.sent

abbrev pub Sound : Registry → Type 0
Sound r = All IsSound r.heap

pub data Safe : Option Registry → Type 0 where
  safe : {r : Registry} → Sound r → Safe (some r)

-- A change of one record that neither panics nor makes it unsound.
abbrev KeepsRun : (ActiveRun → Option ActiveRun) → Type 0
KeepsRun f =
    (run : ActiveRun) → IsSound run → (run' : ActiveRun) × (f run ≡ some run') × IsSound run'

close_run-KeepsRun : KeepsRun close_run
unfolding close_run
close_run-KeepsRun run h = elim (Bool-cases run.closed) [
  | inl c ↦ (run, ground arith, h)
  | inr c ↦ (
    record run { signals = record (run.signals) { is_closed = true }; closed = true },
    ground (arith, h.flag),
    record { flag = refl; once = h.once; received_sent = h.received_sent },
  )
]

notify_run-KeepsRun : (notice : PolicyBlockNotice) → KeepsRun (notify_run notice)
unfolding notify_run
notify_run-KeepsRun notice run h =
    elim (Bool-cases (not run.ready || run.closed || run.finishing || run.notified)) [
      | inl c ↦ (run, ground arith, h)
      | inr c ↦ (
        record run {
          signals = record (run.signals) { sent = run.signals.sent ++ notice ∷ [] };
          notified = true;
        },
        ground (arith, h.flag, h.once, h.received_sent),
        record {
          flag = h.flag;
          once = ground (arith, h.once, length-append run.signals.sent (notice ∷ []));
          received_sent =
              omega (arith, h.received_sent, length-append run.signals.sent (notice ∷ []));
        },
      )
    ]

-- The other fields do not matter.
unsent :
    (run run' : ActiveRun)
    → run'.signals ≡ run.signals
    → run'.notified ≡ run.notified
    → run'.closed ≡ run.closed
    → IsSound run
    → IsSound run'
unsent run run' e n c h = record {
  flag = ground (arith, h.flag);
  once = ground (arith, h.once);
  received_sent = ground (arith, h.received_sent);
}

receive_run-IsSound : (run : ActiveRun) → IsSound run → IsSound (receive_run run)
receive_run-IsSound run h = elim (Bool-cases (ltb run.signals.received (length run.signals.sent))) [
  | inl l ↦ record {
    flag = ground (arith, h.flag);
    once = ground (arith, h.once);
    received_sent = ground (arith, h.received_sent);
  }
  | inr n ↦ unsent run (receive_run run) (ground arith) refl refl h
]

write-Sound :
    (r : Registry) (a : ℕ) (f : ActiveRun → ActiveRun)
    → ((run : ActiveRun) → IsSound run → IsSound (f run))
    → Sound r
    → Sound (write a f r)
write-Sound r a f keeps sound = All-modify IsSound r.heap a f (λ run _ h. keeps run h) sound

change_run-Safe :
    (f : ActiveRun → Option ActiveRun) (r : Registry) (a : ℕ)
    → KeepsRun f
    → Sound r
    → (o : Option ActiveRun) → get_elem? r.heap a ≡ o
    → Safe (change_run f r a o)
unfolding change_run
change_run-Safe f r a keeps sound none at = safe sound
change_run-Safe f r a keeps sound (some run) at =
    let (run', e, h) = keeps run (All-get IsSound r.heap a run sound at) in
    rw e (safe (write-Sound r a (λ _. run') (λ _ _. h) sound))

release-Safe : (r : Registry) (a : ℕ) → Sound r → Safe (release r a)
unfolding release
release-Safe r a sound =
    change_run-Safe close_run r a close_run-KeepsRun sound (get_elem? r.heap a) refl

drop_released-Safe :
    (run_id : String) (o : Option Registry) → Safe o → Safe (drop_released run_id o)
unfolding drop_run
drop_released-Safe run_id (some r) (safe sound) = safe sound
drop_released-Safe run_id none s = elim s [ ]

end_finish-Safe : (r : Registry) (run_id : String) (a : ℕ) → Sound r → Safe (end_finish r run_id a)
unfolding end_finish
end_finish-Safe r run_id a sound = drop_released-Safe run_id (release r a) (release-Safe r a sound)

notify_found-Safe :
    (r : Registry) (notice : PolicyBlockNotice) (o : Option (ℕ × ActiveRun))
    → Found r notice.run_id o
    → Sound r
    → Safe (notify_found notice r o)
unfolding notify_found
notify_found-Safe r notice none f sound = safe sound
notify_found-Safe r notice (some (a, run)) (found e at) sound =
    change_run-Safe (notify_run notice) r a (notify_run-KeepsRun notice) sound (some run) at

notify-Safe :
    (r : Registry) (notice : PolicyBlockNotice) → Sound r → Safe (notify_policy_block r notice)
unfolding notify_policy_block
notify-Safe r notice sound =
    notify_found-Safe r notice (find_run r notice.run_id) (find_run-Found r notice.run_id) sound

-- The registry that a call leaves when it holds a record from its first critical section on.
abbrev SafeStart : Result Error (ℕ × Registry) → Type 0
SafeStart (ok (a, r)) = Sound r
SafeStart (err e) = Unit

begin_found-SafeStart :
    (r : Registry) (o : Option (ℕ × ActiveRun)) → Sound r → SafeStart (begin_found r o)
unfolding begin_found
begin_found-SafeStart r none sound = tt
begin_found-SafeStart r (some (a, run)) sound = elim (Bool-cases run.ready) [
  | inl y ↦ elim (Bool-cases run.finishing) [
    | inl f ↦ rw (y, f) tt
    | inr f ↦ rw (y, f) (write-Sound r a _ (λ run. unsent run _ refl refl refl) sound)
  ]
  | inr n ↦ rw n tt
]

subscribe_found-SafeStart :
    (digest : String → String) (r : Registry) (token : String) (o : Option (ℕ × ActiveRun))
    → Sound r
    → SafeStart (subscribe_found digest r token o)
unfolding subscribe_found
subscribe_found-SafeStart digest r token none sound = tt
subscribe_found-SafeStart digest r token (some (a, run)) sound =
    let claimed =
      write-Sound r a (λ run. record run { claimed = true }) (λ run. unsent run _ refl refl refl)
        sound in
    elim (Bool-cases (not run.ready || run.finishing)) [
      | inl c ↦ rw c tt
      | inr c ↦
          elim (Bool-cases (is_empty token || not (str_eq (digest token) run.signal_token_hash))) [
            | inl d ↦ rw (c, d) tt
            | inr d ↦ elim (Bool-cases run.claimed) [
              | inl k ↦ rw (c, d, k) tt
              | inr k ↦ rw (c, d, k) claimed
            ]
          ]
    ]

insert_run-SafeStart :
    (digest : String → String) (r : Registry) (run_id run_token signal_token : String)
    → Sound r
    → SafeStart (insert_run digest r run_id run_token signal_token)
unfolding insert_run
insert_run-SafeStart digest r run_id run_token signal_token sound =
    elim (Bool-cases (is_some (get r.runs run_id))) [
      | inl y ↦ rw y tt
      | inr n ↦ rw n (
          All-append IsSound r.heap (new_run digest run_token signal_token) sound
            (record { flag = refl; once = refl; received_sent = omega arith }))
    ]

data SafeSystem : Option System → Type 0 where
  safe_system : {s : System} → Sound s.registry → SafeSystem (some s)

resume-SafeSystem :
    (s : System) (i : ℕ) (t : Thread) (o : Option Registry) → Safe o → SafeSystem (resume s i t o)
resume-SafeSystem s i t none h = elim h [ ]
resume-SafeSystem s i t (some r) (safe sound) = safe_system sound

with_registry-SafeSystem :
    (s : System) (o : Option Registry) → Safe o → SafeSystem (with_registry s o)
with_registry-SafeSystem s none h = elim h [ ]
with_registry-SafeSystem s (some r) (safe sound) = safe_system sound

spawn_held-SafeSystem :
    (s : System) (t : ℕ → Thread) (m : Result Error (ℕ × Registry))
    → Sound s.registry
    → SafeStart m
    → SafeSystem (some (spawn_held s t m))
spawn_held-SafeSystem s t (ok (a, r)) sound h = safe_system h
spawn_held-SafeSystem s t (err e) sound h = safe_system sound

advance_work-SafeSystem :
    (s : System) (i : ℕ) (io : Bool) (run_id : String) (a : ℕ) (w : Work)
    → Sound s.registry
    → SafeSystem (advance_work s i io run_id a w)
unfolding advance_work set_ready drop_run abort_finish
advance_work-SafeSystem s i io run_id a (Work.starting t) sound = safe_system sound
advance_work-SafeSystem s i io run_id a Work.start_stored sound =
    safe_system (write-Sound s.registry a _ (λ run. unsent run _ refl refl refl) sound)
advance_work-SafeSystem s i io run_id a (Work.start_failed e) sound = safe_system sound
advance_work-SafeSystem s i io run_id a (Work.settling result) sound = safe_system sound
advance_work-SafeSystem s i io run_id a (Work.finish_stored result) sound =
    resume-SafeSystem s i (Thread.replied (ok tt)) (end_finish s.registry run_id a)
      (end_finish-Safe s.registry run_id a sound)
advance_work-SafeSystem s i io run_id a (Work.finish_failed e) sound =
    safe_system (write-Sound s.registry a _ (λ run. unsent run _ refl refl refl) sound)

advance_thread-SafeSystem :
    (s : System) (i : ℕ) (io : Bool) (o : Option Thread)
    → Sound s.registry
    → SafeSystem (advance_thread s i io o)
unfolding advance_thread
advance_thread-SafeSystem s i io none sound = safe_system sound
advance_thread-SafeSystem s i io (some (Thread.working run_id a w)) sound =
    advance_work-SafeSystem s i io run_id a w sound
advance_thread-SafeSystem s i io (some (Thread.subscribed a)) sound =
    resume-SafeSystem s i (Thread.subscribed a) (release s.registry a)
      (release-Safe s.registry a sound)
advance_thread-SafeSystem s i io (some (Thread.replied r)) sound = safe_system sound

register_as-SafeSystem :
    (digest : String → String) (s : System) (run_token signal_token : String) (t : Time)
    (m : Result Error String)
    → Sound s.registry
    → SafeSystem (some (register_as digest s run_token signal_token t m))
register_as-SafeSystem digest s run_token signal_token t (ok run_id) sound =
    spawn_held-SafeSystem s (λ a. Thread.working run_id a (Work.starting t))
      (insert_run digest s.registry run_id run_token signal_token) sound
      (insert_run-SafeStart digest s.registry run_id run_token signal_token sound)
register_as-SafeSystem digest s run_token signal_token t (err e) sound = safe_system sound

step-SafeSystem :
    (digest : String → String) (s : System) (e : Event)
    → Sound s.registry
    → SafeSystem (step digest s e)
unfolding step subscribe begin_finish
step-SafeSystem digest s (Event.register requested generated run_token signal_token t) sound =
    register_as-SafeSystem digest s run_token signal_token t (requested_run_id requested generated)
      sound
step-SafeSystem digest s (Event.advance i io) sound =
    advance_thread-SafeSystem s i io (get_elem? s.threads i) sound
step-SafeSystem digest s (Event.join run_id token) sound =
    spawn_held-SafeSystem s Thread.subscribed (subscribe digest s.registry run_id token) sound
      (subscribe_found-SafeStart digest s.registry token (find_run s.registry run_id) sound)
step-SafeSystem digest s (Event.receive_signal a) sound =
    safe_system (write-Sound s.registry a receive_run receive_run-IsSound sound)
step-SafeSystem digest s (Event.notify notice) sound =
    with_registry-SafeSystem s (notify_policy_block s.registry notice)
      (notify-Safe s.registry notice sound)
step-SafeSystem digest s (Event.finish_run result) sound =
    spawn_held-SafeSystem s (λ a. Thread.working result.run_id a (Work.settling result))
      (begin_finish s.registry result.run_id) sound
      (begin_found-SafeStart s.registry (find_run s.registry result.run_id) sound)
step-SafeSystem digest s (Event.mark_running run_id) sound = safe_system sound
step-SafeSystem digest s (Event.policy_block notice) sound = safe_system sound

run-SafeSystem :
    (digest : String → String) (es : List Event) (o : Option System)
    → SafeSystem o
    → SafeSystem (run_events digest es o)
unfolding run_events
run-SafeSystem digest [] o h = h
run-SafeSystem digest (e ∷ es) none h = elim h [ ]
run-SafeSystem digest (e ∷ es) (some s) (safe_system sound) =
    run-SafeSystem digest es (step digest s e) (step-SafeSystem digest s e sound)

result_of : (o : Option System) → SafeSystem o → (s : System) × (o ≡ some s) × Sound s.registry
result_of none h = elim h [ ]
result_of (some s) (safe_system sound) = (s, refl, sound)

-- However the calls are interleaved and whichever store calls fail, no schedule panics: no channel
-- is closed twice and nothing is sent on a closed one. In every state that is reached the flag
-- `closed` of each record says whether its channel is closed, and one notice at most was sent on
-- it, exactly when `notifyOnce` has run: a notice is never lost to a full buffer.
pub schedules-IsSound :
    (digest : String → String) (rows : Table) (es : List Event)
    → (s : System) × (run_events digest es (some (started rows)) ≡ some s) × Sound s.registry
schedules-IsSound digest rows es =
    result_of (run_events digest es (some (started rows)))
      (run-SafeSystem digest es (some (started rows)) (safe_system tt))

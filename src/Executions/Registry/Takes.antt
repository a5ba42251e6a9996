-- ===== src/Executions/Registry/Takes.antt =====
-- The critical sections that start a call: it takes a record that no other call works on.
use virgil.Base.{
  ℕ, String, ◌≡◌, ◌≢◌, refl, sym, ◌∙◌, Bool, true, Option, none, some, err, arith, length,
  Bool-cases, inl, inr, is_some, not, ◌||◌, is_empty, str_eq, eq_refl,
}
use virgil.Base.Cells.{get_elem?-append, get_elem?-length}
use virgil.Base.Dict.{get, get-put}
use virgil.Executions.{Time, Error, run_not_found, signal_token_invalid, signal_already_claimed}
use virgil.Executions.Registry.{
  Registry, ActiveRun, new_run, begin_found, subscribe_found, insert_run, write,
}
use virgil.Executions.Registry.Lookup.{Found, found}
use virgil.Executions.Registry.Frames.{
  flags, Held, Frame, Quiet, flags-write, write-Frame, write-Quiet, Quiet-refl, insert-Frame,
}
use virgil.Executions.Registry.Schedules.{System, Thread, Work, spawn, spawn_held}
use virgil.Executions.Registry.Owners.{
  IsOwned, Holds, owner, settles, other_thread, unchanged_thread, spawn-IsOwned,
}

-- A record whose flags are not alike is no one's.
free_record :
    (r : Registry) (a : ℕ) (u : Thread)
    → ((b : Bool) → flags r a ≢ some (b, b))
    → Holds r u
    → owner u ≢ some a
free_record r a (Thread.working run_id c w) ne h e = ne (settles w) (cc (h.flagged))
free_record r a (Thread.subscribed c) ne h e = absurd (cc)
free_record r a (Thread.replied m) ne h e = absurd (cc)

-- A thread that works on no record.
pub idle-IsOwned :
    (s : System) (t : Thread) (r : Registry)
    → Holds r t
    → owner t ≡ none
    → Quiet s.registry r
    → IsOwned s
    → IsOwned (spawn s r t)
idle-IsOwned s t r h n q o =
    spawn-IsOwned s t r h (λ u a hu e _. absurd (cc)) (λ u. unchanged_thread s.registry r u q) o

-- A thread that takes a record whose flags are not alike, and gives it flags that are.
take-IsOwned :
    (s : System) (run_id : String) (w : Work) (a : ℕ) (r : Registry)
    → ((b : Bool) → flags s.registry a ≢ some (b, b))
    → Frame a s.registry r
    → Held r run_id a (settles w)
    → IsOwned s
    → IsOwned (spawn s r (Thread.working run_id a w))
take-IsOwned s run_id w a r ne f h o =
    spawn-IsOwned s (Thread.working run_id a w) r h
      (λ u c hu e g. free_record s.registry a u ne hu (g ∙ sym e))
      (λ u hu. other_thread s.registry r a u f (free_record s.registry a u ne hu) hu) o

pub begin-IsOwned :
    (s : System) (run_id : String) (w : Work) (o : Option (ℕ × ActiveRun))
    → settles w ≡ true
    → Found s.registry run_id o
    → IsOwned s
    → IsOwned (spawn_held s (λ a. Thread.working run_id a w) (begin_found s.registry o))
unfolding begin_found flags
begin-IsOwned s run_id w none ws f o = idle-IsOwned s _ s.registry tt refl (Quiet-refl s.registry) o
begin-IsOwned s run_id w (some (a, run)) ws (found e at) o = elim (Bool-cases run.ready) [
  | inl y ↦ elim (Bool-cases run.finishing) [
    | inl f ↦ rw (y, f) (idle-IsOwned s _ s.registry tt refl (Quiet-refl s.registry) o)
    | inr f ↦
        rw (y, f)
          (take-IsOwned s run_id w a (write a (λ run. record run { finishing = true }) s.registry)
            (λ b h. ground arith)
            (write-Frame s.registry a (λ run. record run { finishing = true }))
            (record {
              mapped = e;
              flagged =
                  ground
                    (arith, flags-write s.registry a a (λ run. record run { finishing = true }));
            })
            o)
  ]
  | inr n ↦ rw n (idle-IsOwned s _ s.registry tt refl (Quiet-refl s.registry) o)
]

pub insert-IsOwned :
    (digest : String → String) (s : System) (run_id run_token signal_token : String) (t : Time)
    → IsOwned s
    → IsOwned (
        spawn_held s
          (λ a. Thread.working run_id a (Work.starting t))
          (insert_run digest s.registry run_id run_token signal_token))
unfolding insert_run flags
insert-IsOwned digest s run_id run_token signal_token t o =
    let r = s.registry in
    let n = length r.heap in
    let run = new_run digest run_token signal_token in
    elim (Bool-cases (is_some (get r.runs run_id))) [
      | inl y ↦ rw y (idle-IsOwned s _ s.registry tt refl (Quiet-refl s.registry) o)
      | inr n' ↦ rw n' (
          take-IsOwned s run_id (Work.starting t) n _
            (λ b h. ground (arith, get_elem?-length r.heap)) (insert-Frame r run_id run n')
            (record {
              mapped = ground (arith, get-put r.runs run_id run_id n, eq_refl run_id);
              flagged = ground (arith, get_elem?-append r.heap run n);
            })
            o)
    ]

pub subscribe-IsOwned :
    (digest : String → String) (s : System) (token : String) (o : Option (ℕ × ActiveRun))
    → IsOwned s
    → IsOwned (spawn_held s Thread.subscribed (subscribe_found digest s.registry token o))
unfolding subscribe_found
subscribe-IsOwned digest s token none o =
    idle-IsOwned s _ s.registry tt refl (Quiet-refl s.registry) o
subscribe-IsOwned digest s token (some (a, run)) o =
    let stays = λ (e : Error).
      idle-IsOwned s (Thread.replied (err e)) s.registry tt refl (Quiet-refl s.registry) o in
    let claims =
      idle-IsOwned s (Thread.subscribed a)
        (write a (λ run. record run { claimed = true }) s.registry) tt refl
        (write-Quiet s.registry a (λ run. record run { claimed = true }) (λ run _. refl)) o in
    elim (Bool-cases (not run.ready || run.finishing)) [
      | inl c ↦ rw c (stays run_not_found)
      | inr c ↦
          elim (Bool-cases (is_empty token || not (str_eq (digest token) run.signal_token_hash))) [
            | inl d ↦ rw (c, d) (stays signal_token_invalid)
            | inr d ↦ elim (Bool-cases run.claimed) [
              | inl k ↦ rw (c, d, k) (stays signal_already_claimed)
              | inr k ↦ rw (c, d, k) claims
            ]
          ]
    ]

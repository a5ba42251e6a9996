-- ===== src/Executions/Registry/Replies.antt =====
-- The parts of a call in flight: it keeps its record until its last critical section.
use virgil.Base.{ℕ, String, ◌≡◌, refl, sym, Bool, true, false, Option, none, some, Result, ok, err}
use mathlib.Core.Path.{subst}
use virgil.Base.Cells.{get_elem?}
use virgil.Executions.{Error, ExecutionResult}
use virgil.Executions.Store.{Table, start_execution, finish_execution}
use virgil.Executions.Registry.{Registry, release, set_ready, drop_run, abort_finish, end_finish}
use virgil.Executions.Registry.Frames.{
  Held, Frame, QuietIf, quiet, FrameIf, framed, write-Frame, release-QuietIf, drop_run-Frame,
  end_finish-FrameIf,
}
use virgil.Executions.Registry.Schedules.{
  System, Thread, Work, advance_thread, advance_work, continue, resume, stored, attempt,
  after_start, after_settle,
}
use virgil.Executions.Registry.Owners.{
  IsOwned, settles, other_thread, unchanged_thread, continue-IsOwned,
}

pub data OwnedSystem : Option System → Type 0 where
  panicked : OwnedSystem none
  owned : {s : System} → IsOwned s → OwnedSystem (some s)

start_keeps : (m : Result Error Table) → settles (after_start m) ≡ false
start_keeps (ok rows) = refl
start_keeps (err e) = refl

settle_keeps :
    (result : ExecutionResult) (m : Result Error Table) → settles (after_settle result m) ≡ true
settle_keeps result (ok rows) = refl
settle_keeps result (err e) = refl

stored-IsOwned :
    (s : System) (i : ℕ) (run_id : String) (a : ℕ) (w w' : Work) (m : Result Error Table)
    → get_elem? s.threads i ≡ some (Thread.working run_id a w)
    → settles w' ≡ settles w
    → IsOwned s
    → IsOwned (stored s i m (Thread.working run_id a w'))
stored-IsOwned s i run_id a w w' m at e o =
    let go =
      continue-IsOwned s i (Thread.working run_id a w) (Thread.working run_id a w') s.registry at
        (subst (Held s.registry run_id a) (sym e) (o.holds i _ at)) (λ c h. h) (λ u _ hu. hu) o in
    record { holds = go.holds; alone = go.alone }

-- The last section of a call: the thread replies and works on no record any more.
reply-IsOwned :
    (s : System) (i : ℕ) (run_id : String) (a : ℕ) (w : Work) (m : Result Error Unit) (r : Registry)
    → get_elem? s.threads i ≡ some (Thread.working run_id a w)
    → Frame a s.registry r
    → IsOwned s
    → IsOwned (continue s i r (Thread.replied m))
reply-IsOwned s i run_id a w m r at f o =
    continue-IsOwned s i (Thread.working run_id a w) (Thread.replied m) r at tt (λ c h. absurd (cc))
      (λ u ne hu. other_thread s.registry r a u f (ne a refl) hu) o

resume-OwnedSystem :
    (s : System) (i : ℕ) (run_id : String) (a : ℕ) (w : Work) (m : Result Error Unit)
    (r : Option Registry)
    → get_elem? s.threads i ≡ some (Thread.working run_id a w)
    → FrameIf a s.registry r
    → IsOwned s
    → OwnedSystem (resume s i (Thread.replied m) r)
resume-OwnedSystem s i run_id a w m none at f o = panicked
resume-OwnedSystem s i run_id a w m (some r) at (framed f) o =
    owned (reply-IsOwned s i run_id a w m r at f o)

release-OwnedSystem :
    (s : System) (i a : ℕ) (r : Option Registry)
    → get_elem? s.threads i ≡ some (Thread.subscribed a)
    → QuietIf s.registry r
    → IsOwned s
    → OwnedSystem (resume s i (Thread.subscribed a) r)
release-OwnedSystem s i a none at q o = panicked
release-OwnedSystem s i a (some r) at (quiet q) o = owned (
    continue-IsOwned s i (Thread.subscribed a) (Thread.subscribed a) r at tt (λ c h. h)
      (λ u _ hu. unchanged_thread s.registry r u q hu) o)

work-OwnedSystem :
    (s : System) (i : ℕ) (io : Bool) (run_id : String) (a : ℕ) (w : Work)
    → get_elem? s.threads i ≡ some (Thread.working run_id a w)
    → IsOwned s
    → OwnedSystem (advance_work s i io run_id a w)
unfolding advance_work set_ready abort_finish
work-OwnedSystem s i io run_id a (Work.starting t) at o =
    let m = attempt io (start_execution s.table run_id t) in
    owned (stored-IsOwned s i run_id a (Work.starting t) (after_start m) m at (start_keeps m) o)
work-OwnedSystem s i io run_id a Work.start_stored at o = owned (
    reply-IsOwned s i run_id a Work.start_stored (ok tt) _ at
      (write-Frame s.registry a (λ run. record run { ready = true })) o)
work-OwnedSystem s i io run_id a (Work.start_failed e) at o = owned (
    reply-IsOwned s i run_id a (Work.start_failed e) (err e) (drop_run s.registry run_id) at
      (drop_run-Frame s.registry run_id a (o.holds i _ at).mapped) o)
work-OwnedSystem s i io run_id a (Work.settling result) at o =
    let m = attempt io (finish_execution s.table result) in
    owned (
      stored-IsOwned s i run_id a (Work.settling result) (after_settle result m) m at
        (settle_keeps result m) o)
work-OwnedSystem s i io run_id a (Work.finish_stored result) at o =
    resume-OwnedSystem s i run_id a (Work.finish_stored result) (ok tt)
      (end_finish s.registry run_id a) at
      (end_finish-FrameIf s.registry run_id a (o.holds i _ at).mapped) o
work-OwnedSystem s i io run_id a (Work.finish_failed e) at o = owned (
    reply-IsOwned s i run_id a (Work.finish_failed e) (err e) _ at
      (write-Frame s.registry a (λ run. record run { finishing = false })) o)

pub thread-OwnedSystem :
    (s : System) (i : ℕ) (io : Bool) (o : Option Thread)
    → get_elem? s.threads i ≡ o
    → IsOwned s
    → OwnedSystem (advance_thread s i io o)
unfolding advance_thread
thread-OwnedSystem s i io none at o = owned o
thread-OwnedSystem s i io (some (Thread.working run_id a w)) at o =
    work-OwnedSystem s i io run_id a w at o
thread-OwnedSystem s i io (some (Thread.subscribed a)) at o =
    release-OwnedSystem s i a (release s.registry a) at (release-QuietIf s.registry a) o
thread-OwnedSystem s i io (some (Thread.replied m)) at o = owned o

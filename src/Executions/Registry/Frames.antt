-- ===== src/Executions/Registry/Frames.antt =====
-- What each critical section of the registry leaves as it was: the flags of the other records and
-- the addresses of the other runs.
use virgil.Base.{
  ℕ, ◌==◌, String, if◌then◌else◌, ◌≡◌, ◌≢◌, refl, ap, ◌∙◌, Bool, true, false, Option, none, some,
  [], ◌∷◌, ◌++◌, arith, length, Bool-cases, Option-cases, ◌<◌, inl, inr, eq_iff, is_some,
}
use mathlib.Core.Option
use virgil.Base.Cells.{get_elem?, get_elem?-modify, get_elem?-append, get_elem?-lt}
use virgil.Base.Dict.{get, put, get-put, get-remove}
use virgil.Executions.{PolicyBlockNotice}
use virgil.Executions.Registry.{
  Registry, ActiveRun, release, change_run, close_run, notify_run, notify_policy_block,
  notify_found, drop_run, end_finish, drop_released, stored_run, write, find_run,
}
use virgil.Executions.Registry.Lookup.{Found, found, find_run-Found}

abbrev pub flags_of : ActiveRun → Bool × Bool
flags_of run = (run.ready, run.finishing)

-- The flags `ready` and `finishing` of a record.
unfoldable pub flags : Registry → ℕ → Option (Bool × Bool)
flags r a = Option.map flags_of (get_elem? r.heap a)

-- The map has this record for the run, and both its flags are `b`.
pub record Held (r : Registry) (run_id : String) (a : ℕ) (b : Bool) : Type 0 where
  pub mapped : get r.runs run_id ≡ some a
  pub flagged : flags r a ≡ some (b, b)

-- Only the record at `a` has new flags, and only runs mapped to `a` are gone.
pub record Frame (a : ℕ) (r r' : Registry) : Type 0 where
  pub flags_kept : (c : ℕ) → c ≢ a → is_some (flags r c) ≡ true → flags r' c ≡ flags r c
  pub runs_kept :
      (run_id : String) (c : ℕ) → c ≢ a → get r.runs run_id ≡ some c → get r'.runs run_id ≡ some c

-- No flag is new, and the map is as before.
pub record Quiet (r r' : Registry) : Type 0 where
  pub flags_same : (c : ℕ) → flags r' c ≡ flags r c
  pub runs_same : r'.runs ≡ r.runs

pub Quiet-refl : (r : Registry) → Quiet r r
Quiet-refl r = record { flags_same = λ c. refl; runs_same = refl }

pub flags-write :
    (r : Registry) (a c : ℕ) (f : ActiveRun → ActiveRun)
    → flags (write a f r) c
      ≡ (if a == c then Option.map flags_of (Option.map f (get_elem? r.heap c)) else flags r c)
unfolding flags
flags-write r a c f = ground (arith, get_elem?-modify r.heap a c f)

pub write-Frame : (r : Registry) (a : ℕ) (f : ActiveRun → ActiveRun) → Frame a r (write a f r)
write-Frame r a f = record {
  flags_kept = λ c ne _. ground (arith, flags-write r a c f);
  runs_kept = λ run_id c ne h. h;
}

image_flags :
    (o : Option ActiveRun) (f : ActiveRun → ActiveRun)
    → ((run : ActiveRun) → o ≡ some run → flags_of (f run) ≡ flags_of run)
    → Option.map flags_of (Option.map f o) ≡ Option.map flags_of o
image_flags none f h = refl
image_flags (some run) f h = ap some (h run refl)

pub write-Quiet :
    (r : Registry) (a : ℕ) (f : ActiveRun → ActiveRun)
    → ((run : ActiveRun) → get_elem? r.heap a ≡ some run → flags_of (f run) ≡ flags_of run)
    → Quiet r (write a f r)
unfolding flags
write-Quiet r a f h = record {
  flags_same = λ c. elim (Bool-cases (a == c)) [
    | inl e ↦ ground (arith, flags-write r a c f, image_flags (get_elem? r.heap a) f h)
    | inr n ↦ ground (arith, flags-write r a c f)
  ];
  runs_same = refl;
}

-- A section that may panic: quiet where it does not.
pub data QuietIf (r : Registry) : Option Registry → Type 0 where
  panics : QuietIf r none
  quiet : {r' : Registry} → Quiet r r' → QuietIf r (some r')

pub close_run-flags :
    (run run' : ActiveRun) → close_run run ≡ some run' → flags_of run' ≡ flags_of run
unfolding close_run
close_run-flags run run' h = ground arith

pub notify_run-flags :
    (notice : PolicyBlockNotice) (run run' : ActiveRun)
    → notify_run notice run ≡ some run'
    → flags_of run' ≡ flags_of run
unfolding notify_run
notify_run-flags notice run run' h = ground arith

stored_run-QuietIf :
    (r : Registry) (a : ℕ) (run : ActiveRun)
    → get_elem? r.heap a ≡ some run
    → (o : Option ActiveRun) → ((run' : ActiveRun) → o ≡ some run' → flags_of run' ≡ flags_of run)
    → QuietIf r (stored_run r a o)
unfolding stored_run
stored_run-QuietIf r a run at none h = panics
stored_run-QuietIf r a run at (some run') h =
    quiet (write-Quiet r a (λ _. run') (λ old e. ground (arith, h run' refl)))

change_run-QuietIf :
    (f : ActiveRun → Option ActiveRun) (r : Registry) (a : ℕ)
    → ((run run' : ActiveRun) → f run ≡ some run' → flags_of run' ≡ flags_of run)
    → (o : Option ActiveRun) → get_elem? r.heap a ≡ o
    → QuietIf r (change_run f r a o)
unfolding change_run
change_run-QuietIf f r a h none at = quiet (Quiet-refl r)
change_run-QuietIf f r a h (some run) at = stored_run-QuietIf r a run at (f run) (h run)

pub release-QuietIf : (r : Registry) (a : ℕ) → QuietIf r (release r a)
unfolding release
release-QuietIf r a = change_run-QuietIf close_run r a close_run-flags (get_elem? r.heap a) refl

notify_found-QuietIf :
    (r : Registry) (notice : PolicyBlockNotice) (o : Option (ℕ × ActiveRun))
    → Found r notice.run_id o
    → QuietIf r (notify_found notice r o)
unfolding notify_found
notify_found-QuietIf r notice none f = quiet (Quiet-refl r)
notify_found-QuietIf r notice (some (a, run)) (found e at) =
    change_run-QuietIf (notify_run notice) r a (notify_run-flags notice) (some run) at

pub notify-QuietIf :
    (r : Registry) (notice : PolicyBlockNotice) → QuietIf r (notify_policy_block r notice)
unfolding notify_policy_block
notify-QuietIf r notice =
    notify_found-QuietIf r notice (find_run r notice.run_id) (find_run-Found r notice.run_id)

-- The section that drops a run leaves every other run.
pub drop_run-Frame :
    (r : Registry) (run_id : String) (a : ℕ)
    → get r.runs run_id ≡ some a
    → Frame a r (drop_run r run_id)
unfolding drop_run flags
drop_run-Frame r run_id a h = record {
  flags_kept = λ c ne _. refl;
  runs_kept = λ id c ne e. ground (arith, get-remove r.runs run_id id, eq_iff run_id id);
}

pub data FrameIf (a : ℕ) (r : Registry) : Option Registry → Type 0 where
  panics : FrameIf a r none
  framed : {r' : Registry} → Frame a r r' → FrameIf a r (some r')

drop_released-FrameIf :
    (r : Registry) (run_id : String) (a : ℕ) (o : Option Registry)
    → get r.runs run_id ≡ some a
    → QuietIf r o
    → FrameIf a r (drop_released run_id o)
drop_released-FrameIf r run_id a none h q = FrameIf.panics
drop_released-FrameIf r run_id a (some r') h (quiet q) =
    let f = drop_run-Frame r' run_id a (ground (arith, q.runs_same)) in
    framed (record {
      flags_kept = λ c ne e. f.flags_kept c ne (ground (arith, q.flags_same c)) ∙ q.flags_same c;
      runs_kept = λ id c ne e. f.runs_kept id c ne (ground (arith, q.runs_same));
    })

pub end_finish-FrameIf :
    (r : Registry) (run_id : String) (a : ℕ)
    → get r.runs run_id ≡ some a
    → FrameIf a r (end_finish r run_id a)
unfolding end_finish
end_finish-FrameIf r run_id a h =
    drop_released-FrameIf r run_id a (release r a) h (release-QuietIf r a)

flags-length : (r : Registry) (c : ℕ) → is_some (flags r c) ≡ true → c < length r.heap
unfolding flags
flags-length r c h = elim (Option-cases (get_elem? r.heap c)) [
  | inl n ↦ absurd (ground arith)
  | inr (run, e) ↦ get_elem?-lt r.heap c run e
]

pub insert-Frame :
    (r : Registry) (run_id : String) (run : ActiveRun)
    → is_some (get r.runs run_id) ≡ false
    → Frame
        (length r.heap)
        r
        (record { heap = r.heap ++ run ∷ []; runs = put r.runs run_id (length r.heap) })
unfolding flags
insert-Frame r run_id run h = record {
  flags_kept = λ c ne e. ground (arith, get_elem?-append r.heap run c, flags-length r c e);
  runs_kept =
      λ id c ne e. ground (arith, get-put r.runs run_id id (length r.heap), eq_iff run_id id);
}

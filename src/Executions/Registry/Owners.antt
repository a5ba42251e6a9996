-- ===== src/Executions/Registry/Owners.antt =====
-- Who may touch the record of a run: a `Register` or a `Finish` in flight has the record to itself,
-- and the map leads to it as long as the call runs.
use virgil.Base.{
  ℕ, String, ◌≡◌, ◌≢◌, sym, ap, ◌∙◌, Bool, true, false, Option, none, some, List, arith, inl, inr,
}
use mathlib.Core.Path.{subst}
use virgil.Base.Cells.{get_elem?, modify, modify-cases, append-cases}
use virgil.Executions.Registry.{Registry}
use virgil.Executions.Registry.Frames.{Held, Frame, Quiet}
use virgil.Executions.Registry.Schedules.{System, Thread, Work, spawn, continue}

-- A `Finish` has set the flag `finishing`; a `Register` has not yet set `ready`.
abbrev pub settles : Work → Bool
settles (Work.settling result) = true
settles (Work.finish_stored result) = true
settles (Work.finish_failed e) = true
settles _ = false

abbrev pub Holds : Registry → Thread → Type 0
Holds r (Thread.working run_id a w) = Held r run_id a (settles w)
Holds r (Thread.subscribed a) = Unit
Holds r (Thread.replied m) = Unit

-- The record that a thread works on.
abbrev pub owner : Thread → Option ℕ
owner (Thread.working run_id a w) = some a
owner (Thread.subscribed a) = none
owner (Thread.replied m) = none

-- Each `Register` and `Finish` in flight finds its record under its run ID, with the flags it set,
-- and no two of them work on one record.
pub record IsOwned (s : System) : Type 0 where
  pub holds : (i : ℕ) (t : Thread) → get_elem? s.threads i ≡ some t → Holds s.registry t
  pub alone :
      (i j : ℕ) (t u : Thread) (a : ℕ)
      → get_elem? s.threads i ≡ some t
      → get_elem? s.threads j ≡ some u
      → owner t ≡ some a
      → owner u ≡ some a
      → i ≡ j

pub other_record :
    (r r' : Registry) (run_id : String) (a c : ℕ) (b : Bool)
    → Frame a r r'
    → c ≢ a
    → Held r run_id c b
    → Held r' run_id c b
other_record r r' run_id a c b f ne h = record {
  mapped = f.runs_kept run_id c ne h.mapped;
  flagged = f.flags_kept c ne (ground (arith, h.flagged)) ∙ h.flagged;
}

pub other_thread :
    (r r' : Registry) (a : ℕ) (t : Thread)
    → Frame a r r'
    → owner t ≢ some a
    → Holds r t
    → Holds r' t
other_thread r r' a (Thread.working run_id c w) f ne h =
    other_record r r' run_id a c (settles w) f (λ e. ne (ap some e)) h
other_thread r r' a (Thread.subscribed c) f ne h = tt
other_thread r r' a (Thread.replied m) f ne h = tt

pub unchanged_thread : (r r' : Registry) (t : Thread) → Quiet r r' → Holds r t → Holds r' t
unchanged_thread r r' (Thread.working run_id c w) q h = record {
  mapped = ground (arith, q.runs_same, h.mapped);
  flagged = q.flags_same c ∙ h.flagged;
}
unchanged_thread r r' (Thread.subscribed c) q h = tt
unchanged_thread r r' (Thread.replied m) q h = tt

-- The registry changes, and no thread does.
pub registry-IsOwned :
    (s : System) (r : Registry)
    → Quiet s.registry r
    → IsOwned s
    → IsOwned (record s { registry = r })
registry-IsOwned s r q o = record {
  holds = λ i t e. unchanged_thread s.registry r t q (o.holds i t e);
  alone = o.alone;
}

-- The thread that stood at a position before the change and worked on the same record.
before :
    (ts : List Thread) (i j : ℕ) (t t' u : Thread) (a : ℕ)
    → get_elem? ts i ≡ some t
    → ((a : ℕ) → owner t' ≡ some a → owner t ≡ some a)
    → get_elem? (modify ts i (λ _. t')) j ≡ some u
    → owner u ≡ some a
    → (u₀ : Thread) × (get_elem? ts j ≡ some u₀) × (owner u₀ ≡ some a)
before ts i j t t' u a at own e f = elim (modify-cases ts i j t t' u at e) [
  | inl (j_is, u_is) ↦ (t, cc, own a (cc))
  | inr (ne, e₀) ↦ (u, e₀, f)
]

-- Thread `i` goes on as `t'`: it holds what it needs, and the other threads keep what they hold.
pub continue-IsOwned :
    (s : System) (i : ℕ) (t t' : Thread) (r : Registry)
    → get_elem? s.threads i ≡ some t
    → Holds r t'
    → ((a : ℕ) → owner t' ≡ some a → owner t ≡ some a)
    → ((u : Thread)
        → ((a : ℕ) → owner t ≡ some a → owner u ≢ some a)
        → Holds s.registry u
        → Holds r u)
    → IsOwned s
    → IsOwned (continue s i r t')
continue-IsOwned s i t t' r at h own keeps o = record {
  holds = λ j u e. elim (modify-cases s.threads i j t t' u at e) [
    | inl (j_is, u_is) ↦ subst (Holds r) (sym u_is) h
    | inr (ne, e₀) ↦ keeps u (λ a f g. ne (o.alone j i u t a e₀ at g f)) (o.holds j u e₀)
  ];
  alone = λ j k u v a e₁ e₂ f g.
      let (u₀, e₁', f₀) = before s.threads i j t t' u a at own e₁ f in
      let (v₀, e₂', g₀) = before s.threads i k t t' v a at own e₂ g in
      o.alone j k u₀ v₀ a e₁' e₂' f₀ g₀;
}

-- A new thread works on a record that no other thread works on.
pub spawn-IsOwned :
    (s : System) (t : Thread) (r : Registry)
    → Holds r t
    → ((u : Thread) (a : ℕ) → Holds s.registry u → owner t ≡ some a → owner u ≢ some a)
    → ((u : Thread) → Holds s.registry u → Holds r u)
    → IsOwned s
    → IsOwned (spawn s r t)
spawn-IsOwned s t r h free keeps o = record {
  holds = λ j u e. elim (append-cases s.threads j t u e) [
    | inl (j_is, u_is) ↦ subst (Holds r) (sym u_is) h
    | inr e₀ ↦ keeps u (o.holds j u e₀)
  ];
  alone = λ j k u v a e₁ e₂ f g. elim (append-cases s.threads j t u e₁) [
    | inl (j_is, u_is) ↦ elim (append-cases s.threads k t v e₂) [
      | inl (k_is, v_is) ↦ j_is ∙ sym k_is
      | inr e₀ ↦ absurd (free v a (o.holds k v e₀) (cc) g)
    ]
    | inr e₀ ↦ elim (append-cases s.threads k t v e₂) [
      | inl (k_is, v_is) ↦ absurd (free u a (o.holds j u e₀) (cc) f)
      | inr e₀' ↦ o.alone j k u v a e₀ e₀' f g
    ]
  ];
}

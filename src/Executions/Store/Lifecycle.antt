-- ===== src/Executions/Store/Lifecycle.antt =====
-- The state diagram of a run, and that every history of calls follows it.
use virgil.Base.{
  ℕ, String, ◌≡◌, sym, ap, ◌∙◌, true, false, ◌||◌, some, List, [], ◌∷◌, arith, ◌⊎◌, inl, inr,
  Option-cases,
}
use mathlib.Core.Path.{subst}
use virgil.Base.Dict.{get}
use virgil.Executions.{State}
use virgil.Executions.Store.{
  Row, Table, is_active, is_running, is_starting, is_blocked, recovered_row, recover_executions,
}
use virgil.Executions.Store.Changes.{
  Call, step, run, after, Change, same, marked, blocked_by, settled, unterminated, failed_early,
  ended, recovered, step-Evolves,
}
use virgil.Base.Dict.{get-map_values}

pub data Edge : State → State → Type 0 where
  activate : Edge State.starting State.running
  trip : Edge State.running State.blocked
  complete : Edge State.running State.completed
  expire : Edge State.running State.deadline
  lose_gateway : Edge State.running State.gateway_failed
  interrupt : {s : State} → is_active s ≡ true → Edge s State.interrupted
  fail : {s : State} → is_active s ≡ true → Edge s State.failed
  escape : {s : State} → (is_active s || is_blocked s) ≡ true → Edge s State.termination_failed

pub data PathTo (s : State) : State → Type 0 where
  here : PathTo s s
  next : {t u : State} → PathTo s t → Edge t u → PathTo s u

-- One call: the state stays, or moves along an edge.
pub data Moves (s t : State) : Type 0 where
  stays : t ≡ s → Moves s t
  goes : Edge s t → Moves s t

from_running : (s t : State) → is_running s ≡ true → Edge State.running t → Edge s t
from_running State.running t h e = e
from_running State.starting t h e = absurd (cc)
from_running _ t h e = absurd (cc)

from_starting : (s : State) → is_starting s ≡ true → Edge s State.running
from_starting State.starting h = activate
from_starting State.running h = absurd (cc)
from_starting _ h = absurd (cc)

running-is_active : (s : State) → is_running s ≡ true → is_active s ≡ true
running-is_active s h = ground arith

to : (s t u : State) → u ≡ t → Edge s t → Moves s u
to s t u e edge = goes (subst (Edge s) (sym e) edge)

end-Moves :
    (s t : State)
    → is_running s ≡ true
    → (t ≡ State.completed)
      ⊎ (t ≡ State.deadline)
      ⊎ (t ≡ State.interrupted)
      ⊎ (t ≡ State.gateway_failed)
    → Moves s t
end-Moves s t h (inl e) = to s _ t e (from_running s _ h complete)
end-Moves s t h (inr (inl e)) = to s _ t e (from_running s _ h expire)
end-Moves s t h (inr (inr (inl e))) = to s _ t e (interrupt (running-is_active s h))
end-Moves s t h (inr (inr (inr e))) = to s _ t e (from_running s _ h lose_gateway)

Change-Moves : {row row' : Row} → Change row row' → Moves row.state row'.state
Change-Moves (same e) = stays (ap (λ (r : Row). r.state) e)
Change-Moves {row} {row'} (marked h e) = to _ _ _ (ap (λ (r : Row). r.state) e) (from_starting _ h)
Change-Moves (blocked_by n _ _ h e) =
    to _ _ _ (ap (λ (r : Row). r.state) e) (from_running _ _ h trip)
Change-Moves (settled r t h _ e) = stays (ap (λ (r : Row). r.state) e)
Change-Moves (unterminated r t h _ _ e) = to _ _ _ (ap (λ (r : Row). r.state) e) (escape h)
Change-Moves (failed_early r t f _ h e) = to _ _ _ (ap (λ (r : Row). r.state) e ∙ f) (fail h)
Change-Moves {row} {row'} (ended r t f _ h e) =
    subst (Moves row.state) (sym (ap (λ (r : Row). r.state) e)) (end-Moves row.state r.state h f)
Change-Moves {row} (recovered t h e) =
    to _ _ _ (ap (λ (r : Row). r.state) e ∙ (ground arith)) (interrupt h)

extend : {s t u : State} → PathTo s t → Moves t u → PathTo s u
extend {s} p (stays e) = subst (PathTo s) (sym e) p
extend p (goes e) = next p e

run-PathTo :
    (rows : Table) (cs : List Call) (s : State) (k : String) (row : Row)
    → get rows k ≡ some row
    → PathTo s row.state
    → (row' : Row) × (get (run rows cs) k ≡ some row') × PathTo s row'.state
unfolding run
run-PathTo rows [] s k row e p = (row, e, p)
run-PathTo rows (c ∷ cs) s k row e p =
    let (row', e', ch) = (step-Evolves rows c).old k row e in
    run-PathTo (step rows c) cs s k row' e' (extend p (Change-Moves ch))

-- Whatever calls are made, a run that is in the table stays in it, and its state has moved along
-- edges of the diagram only.
pub lifecycle :
    (rows : Table) (cs : List Call) (k : String) (row : Row)
    → get rows k ≡ some row
    → (row' : Row) × (get (run rows cs) k ≡ some row') × PathTo row.state row'.state
lifecycle rows cs k row e = run-PathTo rows cs row.state k row e here

recovered_idle : (t : ℕ) (row : Row) → is_active (recovered_row t row).state ≡ false
recovered_idle t row = ground arith

-- After the recovery at start-up no run is starting or running.
pub recover-idle :
    (rows : Table) (t : ℕ) (k : String) (row : Row)
    → get (after rows (recover_executions rows (some t))) k ≡ some row
    → is_active row.state ≡ false
unfolding recover_executions
recover-idle rows t k row e = elim (Option-cases (get rows k)) [
  | inl absent ↦ ground (arith, get-map_values (recovered_row t) rows k)
  | inr (old, h) ↦ ground (arith, get-map_values (recovered_row t) rows k, recovered_idle t old)
]

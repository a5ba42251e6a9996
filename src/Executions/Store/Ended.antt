-- ===== src/Executions/Store/Ended.antt =====
-- What an accepted report leaves in the table.
use virgil.Base.{
  ℕ, String, ◌≡◌, refl, Bool, true, false, ◌&&◌, ◌||◌, not, Option, none, some, ok, arith, is_some,
  eq_refl, Bool-cases, inl, inr,
}
use virgil.Base.Dict.{get, get-put}
use virgil.Executions.{State, ExecutionResult, Time}
use virgil.Executions.Store.{
  Row, Table, is_active, is_blocked, update_where, update_row, finish_plain, finish_state,
  finish_at, finish_execution, finished_row, settled_row, unterminated_row, invalid_plain,
  invalid_settled, invalid_unterminated, invalid_result,
}
use virgil.Executions.Store.Settled.{is_settled}

-- The row of a run that has been settled.
pub record Ended (rows : Table) (run_id : String) : Type 0 where
  pub row : Row
  pub stored : get rows run_id ≡ some row
  pub settled : is_settled row ≡ true
  pub dated : is_some row.ended_at ≡ true

update-Ended :
    (test : Row → Bool) (change : Row → Row) (rows rows' : Table) (run_id : String) (o : Option Row)
    → ((row : Row) → test row ≡ true → is_settled (change row) ≡ true)
    → ((row : Row) → is_some (change row).ended_at ≡ true)
    → update_row test change rows run_id o ≡ ok rows'
    → Ended rows' run_id
unfolding update_row
update-Ended test change rows rows' run_id none h d e = absurd (cc)
update-Ended test change rows rows' run_id (some row) h d e = record {
  row = change row;
  stored = ground (arith, get-put rows run_id run_id (change row), eq_refl run_id);
  settled = h row (ground arith);
  dated = d row;
}

-- The states that a plain report may give.
abbrev pub is_plain_end : State → Bool
is_plain_end State.completed = true
is_plain_end State.failed = true
is_plain_end State.deadline = true
is_plain_end State.interrupted = true
is_plain_end State.gateway_failed = true
is_plain_end _ = false

plain-Ended :
    (from : State → Bool) (rows rows' : Table) (r : ExecutionResult) (t : ℕ)
    → is_plain_end r.state ≡ true
    → finish_plain from rows r t ≡ ok rows'
    → Ended rows' r.run_id
unfolding finish_plain update_where
plain-Ended from rows rows' r t p e = elim (Bool-cases (invalid_plain r)) [
  | inl bad ↦ absurd (ground arith)
  | inr good ↦
      update-Ended (λ row. from row.state) (finished_row r t) rows rows' r.run_id
        (get rows r.run_id) (λ row _. ground arith) (λ row. refl) (ground arith)
]

state-Ended :
    (s : State) (rows rows' : Table) (r : ExecutionResult) (t : ℕ)
    → r.state ≡ s
    → finish_state s rows r t ≡ ok rows'
    → Ended rows' r.run_id
unfolding finish_state update_where
state-Ended State.blocked rows rows' r t s e = elim (Bool-cases (invalid_settled r)) [
  | inl bad ↦ absurd (ground arith)
  | inr good ↦
      update-Ended (λ row. is_blocked row.state && not (is_some row.termination_status))
        (settled_row r t) rows rows' r.run_id (get rows r.run_id) (λ row h. ground arith)
        (λ row. refl) (ground arith)
]
state-Ended State.termination_failed rows rows' r t s e =
    elim (Bool-cases (invalid_unterminated r)) [
      | inl bad ↦ absurd (ground arith)
      | inr good ↦
          update-Ended
            (λ row.
              (is_active row.state || is_blocked row.state) && not (is_some row.termination_status))
            (unterminated_row r t) rows rows' r.run_id (get rows r.run_id) (λ row h. ground arith)
            (λ row. refl) (ground arith)
    ]
state-Ended State.failed rows rows' r t s e = plain-Ended _ rows rows' r t (ground arith) e
state-Ended State.completed rows rows' r t s e = plain-Ended _ rows rows' r t (ground arith) e
state-Ended State.deadline rows rows' r t s e = plain-Ended _ rows rows' r t (ground arith) e
state-Ended State.interrupted rows rows' r t s e = plain-Ended _ rows rows' r t (ground arith) e
state-Ended State.gateway_failed rows rows' r t s e = plain-Ended _ rows rows' r t (ground arith) e
state-Ended State.starting rows rows' r t s e = absurd (cc)
state-Ended State.running rows rows' r t s e = absurd (cc)
state-Ended (State.unknown u) rows rows' r t s e = absurd (cc)

at-Ended :
    (rows rows' : Table) (r : ExecutionResult) (t : Time)
    → finish_at rows r t ≡ ok rows'
    → Ended rows' r.run_id
unfolding finish_at
at-Ended rows rows' r none e = absurd (cc)
at-Ended rows rows' r (some t) e = elim (Bool-cases (invalid_result r)) [
  | inl bad ↦ absurd (ground arith)
  | inr good ↦ state-Ended r.state rows rows' r t refl (ground arith)
]

-- A report that the table accepts ends the run: its row is settled, with an end time.
pub finish-Ended :
    (rows rows' : Table) (r : ExecutionResult)
    → finish_execution rows r ≡ ok rows'
    → Ended rows' r.run_id
unfolding finish_execution
finish-Ended rows rows' r e = at-Ended rows rows' r r.ended_at e

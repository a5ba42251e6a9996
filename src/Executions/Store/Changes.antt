-- ===== src/Executions/Store/Changes.antt =====
-- The operations on the `executions` table as one call type, and what a call does to a row.
use virgil.Base.{
  ℕ, String, is_empty, str_eq, ◌≡◌, refl, Bool, true, false, ◌||◌, none, some, List, [], ◌∷◌,
  Result, ok, err, arith, eq_iff, ◌⊎◌, inl, inr, Bool-cases, Option-cases,
}
use mathlib.Core.Path.{subst}
use virgil.Base.Dict.{get, put, get-put, get-map_values}
use virgil.Base.Int.{is_negative}
use virgil.Executions.{Time, State, ExecutionResult, PolicyBlockNotice, Error}
use virgil.Executions.Store.{
  Row, Table, new_row, start_execution, update_row, update_where, is_starting, is_running,
  is_blocked, is_active, mark_execution_running, blocked_row, block_execution, record_block,
  blocked_found, violates_check, is_failed, normalized_termination_code, finished_row, settled_row,
  unterminated_row, finish_plain, finish_state, finish_at, finish_execution, invalid_notice,
  invalid_plain, invalid_settled, invalid_unterminated, invalid_result, recovered_row,
  recover_executions,
}

pub data Call : Type 0 where
  starts : String → Time → Call
  marks : String → Call
  blocks : PolicyBlockNotice → Call
  records_block : PolicyBlockNotice → Call
  finishes : ExecutionResult → Call
  recovers : Time → Call

unfoldable pub apply : Table → Call → Result Error Table
apply rows (starts run_id t) = start_execution rows run_id t
apply rows (marks run_id) = mark_execution_running rows run_id
apply rows (blocks notice) = block_execution rows notice
apply rows (records_block notice) = record_block rows notice
apply rows (finishes r) = finish_execution rows r
apply rows (recovers t) = recover_executions rows t

-- A call that fails leaves the table as it was.
abbrev pub after : Table → Result Error Table → Table
after rows (ok rows') = rows'
after rows (err e) = rows

abbrev pub step : Table → Call → Table
step rows c = after rows (apply rows c)

unfoldable pub run : Table → List Call → Table
run rows [] = rows
run rows (c ∷ cs) = run (step rows c) cs

-- A report of a plain end: no failed termination and no termination code.
pub record IsPlain (r : ExecutionResult) : Type 0 where
  pub not_failed : is_failed r.termination_status ≡ false
  pub no_code : is_empty r.termination_error_code ≡ true

-- What happens to a row, with the guard under which it happens.
pub data Change (row row' : Row) : Type 0 where
  same : row' ≡ row → Change row row'
  marked :
      is_starting row.state ≡ true → row' ≡ record row { state = State.running } → Change row row'
  blocked_by :
      (n : PolicyBlockNotice)
      → is_negative n.attempt ≡ false
      → is_negative n.threshold ≡ false
      → is_running row.state ≡ true
      → row' ≡ blocked_row n row
      → Change row row'
  settled :
      (r : ExecutionResult) (t : ℕ)
      → is_blocked row.state ≡ true
      → row.termination_status ≡ none
      → row' ≡ settled_row r t row
      → Change row row'
  unterminated :
      (r : ExecutionResult) (t : ℕ)
      → (is_active row.state || is_blocked row.state) ≡ true
      → row.termination_status ≡ none
      → normalized_termination_code r.termination_error_code ≡ true
      → row' ≡ unterminated_row r t row
      → Change row row'
  failed_early :
      (r : ExecutionResult) (t : ℕ)
      → r.state ≡ State.failed
      → IsPlain r
      → is_active row.state ≡ true
      → row' ≡ finished_row r t row
      → Change row row'
  ended :
      (r : ExecutionResult) (t : ℕ)
      → (r.state ≡ State.completed)
        ⊎ (r.state ≡ State.deadline)
        ⊎ (r.state ≡ State.interrupted)
        ⊎ (r.state ≡ State.gateway_failed)
      → IsPlain r
      → is_running row.state ≡ true
      → row' ≡ finished_row r t row
      → Change row row'
  recovered : (t : ℕ) → is_active row.state ≡ true → row' ≡ recovered_row t row → Change row row'

-- Every row of the old table is in the new one, changed or not; a row that is new is a starting row.
pub record Evolves (rows rows' : Table) : Type 0 where
  pub old :
      (k : String) (row : Row)
      → get rows k ≡ some row
      → (row' : Row) × (get rows' k ≡ some row') × Change row row'
  pub new :
      (k : String) (row' : Row)
      → get rows k ≡ none
      → get rows' k ≡ some row'
      → (t : ℕ) × (row' ≡ new_row t)

pub Evolves-refl : (rows : Table) → Evolves rows rows
Evolves-refl rows = record {
  old = λ k row e. (row, e, same refl);
  new = λ k row' e e'. absurd (cc);
}

found_twice :
    (rows : Table) (id k : String) (row r : Row)
    → get rows id ≡ some row
    → get rows k ≡ some r
    → str_eq id k ≡ true
    → row ≡ r
found_twice rows id k row r e er h = cc ((eq_iff id k).0 h)

put-Evolves :
    (rows : Table) (id : String) (row row' : Row)
    → get rows id ≡ some row
    → Change row row'
    → Evolves rows (put rows id row')
put-Evolves rows id row row' e c = record {
  old = λ k r er. elim (Bool-cases (str_eq id k)) [
    | inl hit ↦ (
      row',
      ground (arith, get-put rows id k row'),
      subst (λ x. Change x row') (found_twice rows id k row r e er hit) c,
    )
    | inr miss ↦ (r, ground (arith, get-put rows id k row'), same refl)
  ];
  new = λ k r er er'. absurd (ground (arith, get-put rows id k row', eq_iff id k));
}

-- An update changes at most the row that it names, and that one only if its test passes.
update-Evolves :
    (test : Row → Bool) (change : Row → Row) (rows : Table) (id : String)
    → ((row : Row) → test row ≡ true → Change row (change row))
    → Evolves rows (after rows (update_where test change rows id))
unfolding update_where
update-Evolves test change rows id h = elim (Option-cases (get rows id)) [
  | inl e ↦ rw (e, update_row) (Evolves-refl rows)
  | inr (row, e) ↦ elim (Bool-cases (test row)) [
    | inl pass ↦ rw (e, update_row, pass) (put-Evolves rows id row (change row) e (h row pass))
    | inr stop ↦ rw (e, update_row, stop) (Evolves-refl rows)
  ]
]

insert-Evolves :
    (rows : Table) (id : String) (t : ℕ)
    → get rows id ≡ none
    → Evolves rows (put rows id (new_row t))
insert-Evolves rows id t free = record {
  old = λ k row e. (row, ground (arith, get-put rows id k (new_row t), eq_iff id k), same refl);
  new = λ k row' e e'. (t, ground (arith, get-put rows id k (new_row t)));
}

start-Evolves :
    (rows : Table) (id : String) (t : Time) → Evolves rows (after rows (start_execution rows id t))
unfolding start_execution
start-Evolves rows id none = elim (Bool-cases (is_empty id)) [
  | inl h ↦ rw h (Evolves-refl rows)
  | inr h ↦ rw h (Evolves-refl rows)
]
start-Evolves rows id (some t) = elim (Bool-cases (is_empty id)) [
  | inl h ↦ rw h (Evolves-refl rows)
  | inr h ↦ elim (Option-cases (get rows id)) [
    | inl free ↦ rw (h, free) (insert-Evolves rows id t free)
    | inr (row, e) ↦ rw (h, e) (Evolves-refl rows)
  ]
]

mark-Evolves :
    (rows : Table) (id : String) → Evolves rows (after rows (mark_execution_running rows id))
unfolding mark_execution_running
mark-Evolves rows id = update-Evolves _ _ rows id (λ row pass. marked pass refl)

block-Evolves :
    (rows : Table) (n : PolicyBlockNotice) → Evolves rows (after rows (block_execution rows n))
unfolding block_execution
block-Evolves rows n = elim (Bool-cases (invalid_notice n)) [
  | inl bad ↦ rw bad (Evolves-refl rows)
  | inr good ↦ rw good (
      update-Evolves _ _ rows n.run_id
        (λ row pass. blocked_by n (ground arith) (ground arith) pass refl))
]

record_block-Evolves :
    (rows : Table) (n : PolicyBlockNotice) → Evolves rows (after rows (record_block rows n))
unfolding record_block blocked_found
record_block-Evolves rows n = elim (Option-cases (get rows n.run_id)) [
  | inl e ↦ rw e (Evolves-refl rows)
  | inr (row, e) ↦ elim (Bool-cases (is_running row.state)) [
    | inr idle ↦ elim (Bool-cases (is_blocked row.state)) [
      | inl y ↦ rw (e, idle, y) (Evolves-refl rows)
      | inr m ↦ rw (e, idle, m) (Evolves-refl rows)
    ]
    | inl going ↦ elim (Bool-cases (violates_check n)) [
      | inl bad ↦ rw (e, going, bad) (Evolves-refl rows)
      | inr good ↦
          rw (e, going, good)
            (put-Evolves rows n.run_id row (blocked_row n row) e
              (blocked_by n (ground arith) (ground arith) going refl))
    ]
  ]
]

-- The branches of `finish_plain`.
plain-Evolves :
    (from : State → Bool) (rows : Table) (r : ExecutionResult) (t : ℕ)
    → (IsPlain r → (row : Row) → from row.state ≡ true → Change row (finished_row r t row))
    → Evolves rows (after rows (finish_plain from rows r t))
unfolding finish_plain
plain-Evolves from rows r t h = elim (Bool-cases (invalid_plain r)) [
  | inl bad ↦ rw bad (Evolves-refl rows)
  | inr good ↦ rw good (update-Evolves _ _ rows r.run_id (h (ground arith)))
]

finish-Evolves :
    (s : State) (rows : Table) (r : ExecutionResult) (t : ℕ)
    → r.state ≡ s
    → Evolves rows (after rows (finish_state s rows r t))
unfolding finish_state
finish-Evolves State.blocked rows r t e = elim (Bool-cases (invalid_settled r)) [
  | inl bad ↦ rw bad (Evolves-refl rows)
  | inr good ↦ rw good (
      update-Evolves _ _ rows r.run_id (λ row pass. settled r t (ground arith) (ground arith) refl))
]
finish-Evolves State.termination_failed rows r t e = elim (Bool-cases (invalid_unterminated r)) [
  | inl bad ↦ rw bad (Evolves-refl rows)
  | inr good ↦ rw good (
      update-Evolves _ _ rows r.run_id
        (λ row pass. unterminated r t (ground arith) (ground arith) (ground arith) refl))
]
finish-Evolves State.failed rows r t e =
    plain-Evolves _ rows r t (λ plain row pass. failed_early r t e plain pass refl)
finish-Evolves State.completed rows r t e =
    plain-Evolves _ rows r t (λ plain row pass. ended r t (inl e) plain pass refl)
finish-Evolves State.deadline rows r t e =
    plain-Evolves _ rows r t (λ plain row pass. ended r t (inr (inl e)) plain pass refl)
finish-Evolves State.interrupted rows r t e =
    plain-Evolves _ rows r t (λ plain row pass. ended r t (inr (inr (inl e))) plain pass refl)
finish-Evolves State.gateway_failed rows r t e =
    plain-Evolves _ rows r t (λ plain row pass. ended r t (inr (inr (inr e))) plain pass refl)
finish-Evolves State.starting rows r t e = Evolves-refl rows
finish-Evolves State.running rows r t e = Evolves-refl rows
finish-Evolves (State.unknown s) rows r t e = Evolves-refl rows

finish_at-Evolves :
    (rows : Table) (r : ExecutionResult) (t : Time) → Evolves rows (after rows (finish_at rows r t))
unfolding finish_at
finish_at-Evolves rows r none = Evolves-refl rows
finish_at-Evolves rows r (some t) = elim (Bool-cases (invalid_result r)) [
  | inl bad ↦ rw bad (Evolves-refl rows)
  | inr good ↦ rw good (finish-Evolves r.state rows r t refl)
]

recovered-Change : (t : ℕ) (row : Row) → Change row (recovered_row t row)
recovered-Change t row = elim (Bool-cases (is_active row.state)) [
  | inl active ↦ recovered t active refl
  | inr idle ↦ same (ground arith)
]

recover-Evolves : (rows : Table) (t : Time) → Evolves rows (after rows (recover_executions rows t))
unfolding recover_executions
recover-Evolves rows none = Evolves-refl rows
recover-Evolves rows (some t) = record {
  old = λ k row e. (
    recovered_row t row,
    rw (get-map_values (recovered_row t) rows k, e),
    recovered-Change t row,
  );
  new = λ k row' e e'. absurd (cc (get-map_values (recovered_row t) rows k));
}

-- Every call keeps every row, changes each only as `Change` lists, and adds only starting rows.
pub step-Evolves : (rows : Table) (c : Call) → Evolves rows (step rows c)
unfolding apply finish_execution
step-Evolves rows (starts id t) = start-Evolves rows id t
step-Evolves rows (marks id) = mark-Evolves rows id
step-Evolves rows (blocks n) = block-Evolves rows n
step-Evolves rows (records_block n) = record_block-Evolves rows n
step-Evolves rows (finishes r) = finish_at-Evolves rows r r.ended_at
step-Evolves rows (recovers t) = recover-Evolves rows t

-- ===== src/Runner/Loop.antt =====
-- The supervision loop: what is true in each of its states, and that it ends.
use virgil.Base.{
  is_empty, if◌then◌else◌, ◌≡◌, refl, Bool, true, false, ◌&&◌, ◌||◌, not, Option, none, some, List,
  [], ◌∷◌, arith, is_some, any_of, Bool-cases, inl, inr,
}
use virgil.Executions.{State}
use virgil.Executions.Store.Ended.{is_plain_end}
use virgil.Executions.Store.Accepts.{needs_running}
use virgil.Runner.{Event, Supervision, new_supervision, select, mark_failed, supervise}

abbrev is_end : Option State → Bool
is_end none = true
is_end (some state) = is_plain_end state

abbrev marks_first : Option State → Bool
marks_first none = false
marks_first (some state) = needs_running state

-- While the loop runs, the child runs or the running transition is unanswered, and there is no
-- reason to stop. Where the loop ends, only `failed` goes without the running transition, and only
-- an exited child without a reason.
is_supervised : Supervision → Bool
is_supervised s =
    is_end s.state
    && (if is_some s.state
        then (not (marks_first s.state) || not s.mark_pending)
          && (not (is_empty s.stop_reason) || s.process_already_done)
        else (not s.process_already_done || s.mark_pending) && is_empty s.stop_reason)

mark_failed-is_supervised :
    (done late : Bool) (s : Supervision)
    → s.mark_pending ≡ false
    → is_supervised (mark_failed done late s) ≡ true
unfolding is_supervised
mark_failed-is_supervised done true s p = refl
mark_failed-is_supervised true false s p = refl
mark_failed-is_supervised false false s p = refl

select-is_supervised :
    (s : Supervision) (e : Event)
    → is_some s.state ≡ false
    → is_supervised s ≡ true
    → is_supervised (select s e) ≡ true
unfolding select is_supervised
select-is_supervised s (Event.exited r) n h = ground arith
select-is_supervised s Event.circuit_break n h = ground arith
select-is_supervised s Event.stream_closed n h = ground arith
select-is_supervised s Event.stream_failed n h = ground arith
select-is_supervised s Event.deadline n h = ground arith
select-is_supervised s Event.cancelled n h = ground arith
select-is_supervised s (Event.marked false done late) n h = ground arith
select-is_supervised s (Event.marked true done late) n h = elim (Bool-cases s.mark_pending) [
  | inl p ↦ rw p (mark_failed-is_supervised done late (record s { mark_pending = false }) refl)
  | inr p ↦ ground (arith, p)
]

supervise-is_supervised :
    (es : List Event) (s : Supervision)
    → is_supervised s ≡ true
    → is_supervised (supervise es s) ≡ true
unfolding supervise
supervise-is_supervised [] s h = h
supervise-is_supervised (e ∷ es) s h = elim (Bool-cases (is_some s.state)) [
  | inl y ↦ rw y h
  | inr n ↦ rw n (supervise-is_supervised es (select s e) (select-is_supervised s e n h))
]

-- The events that end the loop whatever came before, the child's exit, and the answer to the
-- running transition.
abbrev pub is_stop : Event → Bool
is_stop (Event.exited r) = false
is_stop (Event.marked failed done late) = false
is_stop _ = true

abbrev pub is_exit : Event → Bool
is_exit (Event.exited r) = true
is_exit _ = false

abbrev pub is_answer : Event → Bool
is_answer (Event.marked failed done late) = true
is_answer _ = false

-- The loop has ended, or the events that are left will end it.
will_end : List Event → Supervision → Bool
will_end es s =
    is_some s.state
    || any_of is_stop es
    || ((s.process_already_done || any_of is_exit es)
        && (not s.mark_pending || any_of is_answer es))

select-will_end :
    (s : Supervision) (e : Event) (es : List Event)
    → is_some s.state ≡ false
    → is_supervised s ≡ true
    → will_end (e ∷ es) s ≡ true
    → will_end es (select s e) ≡ true
unfolding select is_supervised will_end
select-will_end s (Event.exited r) es n i h = ground arith
select-will_end s Event.circuit_break es n i h = refl
select-will_end s Event.stream_closed es n i h = refl
select-will_end s Event.stream_failed es n i h = refl
select-will_end s Event.deadline es n i h = refl
select-will_end s Event.cancelled es n i h = refl
select-will_end s (Event.marked failed done late) es n i h = ground arith

supervise-will_end :
    (es : List Event) (s : Supervision)
    → is_supervised s ≡ true
    → will_end es s ≡ true
    → is_some (supervise es s).state ≡ true
unfolding supervise is_supervised will_end
supervise-will_end [] s i h = ground arith
supervise-will_end (e ∷ es) s i h = elim (Bool-cases (is_some s.state)) [
  | inl y ↦ rw y y
  | inr n ↦ rw n (
      supervise-will_end es (select s e) (select-is_supervised s e n i)
        (select-will_end s e es n i h))
]

-- The supervision ends when an event arrives that stops the run (a signal, the loss of the stream,
-- the deadline, the cancellation), and also when both the child has exited and the running
-- transition is answered, in either order and with whatever else between.
pub supervise-ends :
    (es : List Event)
    → (any_of is_stop es || (any_of is_exit es && any_of is_answer es)) ≡ true
    → is_some (supervise es new_supervision).state ≡ true
unfolding is_supervised will_end
supervise-ends es h = supervise-will_end es new_supervision refl (ground arith)

-- The running transition was answered without an error.
abbrev pub is_granted : Event → Bool
is_granted (Event.marked failed done late) = not failed
is_granted _ = false

-- The running transition was granted before this state, or the state does not need it.
abbrev owes : Supervision → Bool
owes s = if is_some s.state then marks_first s.state else not s.mark_pending

select-granted :
    (s : Supervision) (e : Event) (granted : Bool)
    → is_some s.state ≡ false
    → (owes (select s e) || granted) ≡ true
    → (owes s || (is_granted e || granted)) ≡ true
unfolding select
select-granted s (Event.exited r) granted n h = ground arith
select-granted s Event.circuit_break granted n h = ground arith
select-granted s Event.stream_closed granted n h = ground arith
select-granted s Event.stream_failed granted n h = ground arith
select-granted s Event.deadline granted n h = ground arith
select-granted s Event.cancelled granted n h = ground arith
select-granted s (Event.marked failed done late) granted n h = ground arith

supervise-granted :
    (es : List Event) (s : Supervision)
    → marks_first (supervise es s).state ≡ true
    → (owes s || any_of is_granted es) ≡ true
unfolding supervise
supervise-granted [] s h = ground arith
supervise-granted (e ∷ es) s h = elim (Bool-cases (is_some s.state)) [
  | inl y ↦ ground arith
  | inr n ↦
      select-granted s e (any_of is_granted es) n (supervise-granted es (select s e) (ground arith))
]

-- What a supervision that has ended knows: a plain end, `failed` unless the running transition was
-- granted, and without a reason only after the child's exit.
pub record Outcome (es : List Event) (s : Supervision) (state : State) : Type 0 where
  pub ends : is_plain_end state ≡ true
  pub granted_first : needs_running state ≡ true → any_of is_granted es ≡ true
  pub exited_first : is_empty s.stop_reason ≡ true → s.process_already_done ≡ true

pub supervise-Outcome :
    (es : List Event) (state : State)
    → (supervise es new_supervision).state ≡ some state
    → Outcome es (supervise es new_supervision) state
unfolding is_supervised
supervise-Outcome es state h =
    let i = supervise-is_supervised es new_supervision refl in
    record {
      ends = ground arith;
      granted_first = λ k. supervise-granted es new_supervision (ground arith);
      exited_first = λ k. ground arith;
    }

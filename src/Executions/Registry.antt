-- ===== src/Executions/Registry.antt =====
-- internal/executions/registry.go: the active runs. A function that takes the mutex more than once
-- is one definition for each critical section. The records that the map and the closures point to
-- stand in `heap`, and an address is a position in it. A channel keeps what was sent through it and
-- how many values were received; closing a closed channel and sending on one is Go's panic, `none`.
pub mod Lookup
pub mod Schedules
pub mod Panics
pub mod Frames
pub mod Tokens
pub mod Owners
pub mod Takes
pub mod Replies
pub mod Exclusive
use virgil.Base.{
  ℕ, suc, ◌+◌, ◌-◌, ◌==◌, ltb, leb, String, is_empty, str_eq, if◌then◌else◌, Bool, true, false,
  ◌&&◌, ◌||◌, not, Option, none, some, List, [], ◌∷◌, ◌++◌, Result, ok, err, is_some, length,
}
use virgil.Base.Cells.{get_elem?, modify}
use virgil.Base.Dict.{Dict, get, keys, put, remove}
use virgil.Base.Text.{codes, is_label_char, matches_up_to}
use virgil.Executions.{
  PolicyBlockNotice, Error, invalid_run_id, run_active, run_not_found, signal_token_invalid,
  signal_already_claimed, invalid_transition,
}

-- `chan Signal` with a buffer for one signal; every signal is a `circuit_break` with its notice.
pub record Channel : Type 0 where
  pub sent : List PolicyBlockNotice
  pub received : ℕ
  pub is_closed : Bool

-- `notified` is the `sync.Once` of `notifyOnce`.
pub record ActiveRun : Type 0 where
  pub run_token_hash : String
  pub signal_token_hash : String
  pub signals : Channel
  pub notified : Bool
  pub ready : Bool
  pub claimed : Bool
  pub closed : Bool
  pub finishing : Bool

pub record Registry : Type 0 where
  pub heap : List ActiveRun
  pub runs : Dict ℕ

abbrev pub new_registry : Registry
new_registry = record { heap = []; runs = [] }

abbrev pub new_channel : Channel
new_channel = record { sent = []; received = 0; is_closed = false }

-- A send that does not wait: `none` on a closed channel, nothing when the buffer is full.
abbrev pub send : PolicyBlockNotice → Channel → Option Channel
send notice c =
    if c.is_closed
    then none
    else some (
        if ltb (length c.sent - c.received) 1 then record c { sent = c.sent ++ notice ∷ [] } else c)

abbrev pub close : Channel → Option Channel
close c = if c.is_closed then none else some (record c { is_closed = true })

-- A receive takes the signal that waits in the buffer, if there is one.
abbrev pub receive : Channel → Channel
receive c = if ltb c.received (length c.sent) then record c { received = suc c.received } else c

unfoldable pub valid_run_id : String → Bool
unfolding is_label_char
valid_run_id id = matches_up_to is_label_char 64 (codes id)

-- The ID of a registration; `generated` is the random one.
unfoldable pub requested_run_id : String → String → Result Error String
unfolding valid_run_id
requested_run_id requested generated =
    if is_empty requested
    then ok generated
    else if valid_run_id requested
    then ok requested
    else err invalid_run_id

-- A write through a pointer to a record.
abbrev pub write : ℕ → (ActiveRun → ActiveRun) → Registry → Registry
write a f r = record r { heap = modify r.heap a f }

abbrev pub set_signals : ActiveRun → Channel → ActiveRun
set_signals run c = record run { signals = c }

-- `if !record.closed { close(record.signals); record.closed = true }`.
close_signals : ActiveRun → Option Channel → Option ActiveRun
close_signals run none = none
close_signals run (some c) = some (record run { signals = c; closed = true })

unfoldable pub close_run : ActiveRun → Option ActiveRun
unfolding close_signals
close_run run = if run.closed then some run else close_signals run (close run.signals)

unfoldable pub stored_run : Registry → ℕ → Option ActiveRun → Option Registry
stored_run r a none = none
stored_run r a (some run) = some (write a (λ _. run) r)

-- A change of the record at an address, which may panic.
unfoldable pub change_run :
    (ActiveRun → Option ActiveRun) → Registry → ℕ → Option ActiveRun → Option Registry
unfolding stored_run
change_run f r a none = some r
change_run f r a (some run) = stored_run r a (f run)

-- The closure that `Subscribe` returns.
unfoldable pub release : Registry → ℕ → Option Registry
unfolding close_run change_run
release r a = change_run close_run r a (get_elem? r.heap a)

-- The last critical section of a `Register` whose run was stored, and of one that was not.
unfoldable pub set_ready : Registry → ℕ → Registry
set_ready r a = write a (λ run. record run { ready = true }) r

unfoldable pub drop_run : Registry → String → Registry
drop_run r run_id = record r { runs = remove r.runs run_id }

sent_notice : ActiveRun → Option Channel → Option ActiveRun
sent_notice run none = none
sent_notice run (some c) = some (record run { signals = c; notified = true })

unfoldable pub notify_run : PolicyBlockNotice → ActiveRun → Option ActiveRun
unfolding sent_notice
notify_run notice run =
    if not run.ready || run.closed || run.finishing || run.notified
    then some run
    else sent_notice run (send notice run.signals)

abbrev pub with_address : ℕ → Option ActiveRun → Option (ℕ × ActiveRun)
with_address a none = none
with_address a (some run) = some (a, run)

abbrev pub dereference : Registry → Option ℕ → Option (ℕ × ActiveRun)
dereference r none = none
dereference r (some a) = with_address a (get_elem? r.heap a)

-- The record of a run ID with its address.
unfoldable pub find_run : Registry → String → Option (ℕ × ActiveRun)
find_run r run_id = dereference r (get r.runs run_id)

unfoldable pub notify_found :
    PolicyBlockNotice → Registry → Option (ℕ × ActiveRun) → Option Registry
unfolding change_run notify_run
notify_found notice r none = some r
notify_found notice r (some (a, run)) = change_run (notify_run notice) r a (some run)

unfoldable pub notify_policy_block : Registry → PolicyBlockNotice → Option Registry
unfolding notify_found find_run
notify_policy_block r notice = notify_found notice r (find_run r notice.run_id)

-- `Finish`, up to the call of the store: the address that the call holds.
unfoldable pub begin_found : Registry → Option (ℕ × ActiveRun) → Result Error (ℕ × Registry)
begin_found r none = err run_not_found
begin_found r (some (a, run)) =
    if not run.ready
    then err run_not_found
    else if run.finishing
    then err invalid_transition
    else ok (a, write a (λ run. record run { finishing = true }) r)

unfoldable pub begin_finish : Registry → String → Result Error (ℕ × Registry)
unfolding begin_found find_run
begin_finish r run_id = begin_found r (find_run r run_id)

-- The last critical section of a `Finish` that the store refused, and of one that it accepted.
unfoldable pub abort_finish : Registry → ℕ → Registry
abort_finish r a = write a (λ run. record run { finishing = false }) r

abbrev pub drop_released : String → Option Registry → Option Registry
drop_released run_id none = none
drop_released run_id (some r) = some (drop_run r run_id)

unfoldable pub end_finish : Registry → String → ℕ → Option Registry
unfolding release
end_finish r run_id a = drop_released run_id (release r a)

-- `digest` is SHA-256.
module _ (digest : String → String) where
  abbrev pub new_run : String → String → ActiveRun
  new_run run_token signal_token = record {
    run_token_hash = digest run_token;
    signal_token_hash = digest signal_token;
    signals = new_channel;
    notified = false;
    ready = false;
    claimed = false;
    closed = false;
    finishing = false;
  }

  -- The first critical section of `Register`.
  unfoldable pub insert_run : Registry → String → String → String → Result Error (ℕ × Registry)
  insert_run r run_id run_token signal_token =
      if is_some (get r.runs run_id)
      then err run_active
      else ok (
        length r.heap,
        record {
          heap = r.heap ++ new_run run_token signal_token ∷ [];
          runs = put r.runs run_id (length r.heap);
        },
      )

  abbrev pub accepts : ActiveRun → String → Bool
  accepts run hash = run.ready && not run.finishing && str_eq hash run.run_token_hash

  unfoldable pub accepted : Option (ℕ × ActiveRun) → String → Bool
  accepted none hash = false
  accepted (some (a, run)) hash = accepts run hash

  -- The loop over the map.
  unfoldable pub first_run : Registry → List String → String → Option String
  unfolding accepted
  first_run r [] hash = none
  first_run r (run_id ∷ ids) hash =
      let rest = first_run r ids hash in
      if accepted (find_run r run_id) hash then some run_id else rest

  unfoldable pub resolve_run_token : Registry → String → Option String
  resolve_run_token r token =
      if is_empty token then none else first_run r (keys r.runs) (digest token)

  unfoldable pub subscribe_found :
      Registry → String → Option (ℕ × ActiveRun) → Result Error (ℕ × Registry)
  subscribe_found r token none = err run_not_found
  subscribe_found r token (some (a, run)) =
      if not run.ready || run.finishing
      then err run_not_found
      else if is_empty token || not (str_eq (digest token) run.signal_token_hash)
      then err signal_token_invalid
      else if run.claimed
      then err signal_already_claimed
      else ok (a, write a (λ run. record run { claimed = true }) r)

  unfoldable pub subscribe : Registry → String → String → Result Error (ℕ × Registry)
  unfolding subscribe_found find_run
  subscribe r run_id token = subscribe_found r token (find_run r run_id)

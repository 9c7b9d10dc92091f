-- ===== src/Server/Calls.antt =====
-- CallGroup and PendingCall of memodb/lib/Server.cpp and memodb/include/memodb/Server.h: the calls
-- of one function that are to be evaluated. What a handler does with a group it does under the
-- group's mutex, and so it is one step. A pointer to a PendingCall is the key that the map `calls`
-- has it under, since a PendingCall stays where it was made until it is erased. The clock gives
-- nanoseconds.
pub mod Keys
pub mod Dropping
pub mod Invariant
pub mod Sending
pub mod Progress
use bcdb.Prelude.{
  ℕ, ◌+◌, ◌-◌, ◌*◌, ◌/◌, ◌%◌, ◌^◌, Bool, true, false, ◌&&◌, Option, none, some, List, [], ◌∷◌, ◌++◌,
  map, leb, if◌then◌else◌,
}
use bcdb.Cid.{Cid}
use bcdb.Name.{Call}
use bcdb.Node.Map.{key_eq}

-- What Call::operator< looks at.
abbrev pub Key : Type 0
Key = List (List ℕ)

unfoldable pub call_key : Call → Key
call_key call = call.name ∷ map (λ (cid : Cid). cid.bytes) call.args

-- Call::operator==
unfoldable pub same_key : Key → Key → Bool
unfolding key_eq
same_key [] [] = true
same_key [] (b ∷ ys) = false
same_key (a ∷ xs) [] = false
same_key (a ∷ xs) (b ∷ ys) = let rest = same_key xs ys in if key_eq a b then rest else false

abbrev pub initial_timeout_minutes : ℕ
initial_timeout_minutes = 4

pub record PendingCall : Type 0 where
  pub call : Call
  pub assigned : Bool
  pub start_time : ℕ
  pub timeout_minutes : ℕ
  pub finished : Bool

-- The constructor; `start_time` is the clock's epoch.
abbrev pub pending_call : Call → PendingCall
pending_call call = record {
  call = call;
  assigned = false;
  start_time = 0;
  timeout_minutes = initial_timeout_minutes;
  finished = false;
}

-- std::map<Call, PendingCall>
abbrev pub Calls : Type 0
Calls = Key → Option PendingCall

abbrev pub erase_call : Key → Calls → Calls
erase_call key calls k = if same_key k key then none else calls k

abbrev pub assign_call : Key → PendingCall → Calls → Calls
assign_call key pending calls k = if same_key k key then some pending else calls k

pub record CallGroup : Type 0 where
  pub unstarted_calls : List Key
  pub calls_to_retry : List Key
  pub calls : Calls

abbrev pub empty_group : CallGroup
empty_group = record { unstarted_calls = []; calls_to_retry = []; calls = λ k. none }

-- A pointer to an erased PendingCall would be undefined; here it is not finished.
abbrev pub is_finished : Option PendingCall → Bool
is_finished none = false
is_finished (some pending) = pending.finished

-- One loop of deleteSomeFinishedCalls.
unfoldable pub drop_finished : List Key → Calls → List Key × Calls
drop_finished [] calls = ([], calls)
drop_finished (key ∷ queue) calls = elim (is_finished (calls key)) [
  | true ↦ drop_finished queue (erase_call key calls)
  | false ↦ (key ∷ queue, calls)
]

-- CallGroup::deleteSomeFinishedCalls
unfoldable pub delete_some_finished_calls : CallGroup → CallGroup
unfolding drop_finished
delete_some_finished_calls group =
    let (unstarted, calls) = drop_finished group.unstarted_calls group.calls in
    let (to_retry, calls') = drop_finished group.calls_to_retry calls in
    record { unstarted_calls = unstarted; calls_to_retry = to_retry; calls = calls' }

-- PendingCall::deleteIfPossible
unfoldable pub delete_if_possible : Key → PendingCall → CallGroup → CallGroup
unfolding delete_some_finished_calls
delete_if_possible key pending group =
    if pending.assigned
    then record group { calls = erase_call key group.calls }
    else delete_some_finished_calls group

-- The group in Server::handleCallResult.
unfoldable pub finish_call : Key → CallGroup → CallGroup
unfolding delete_if_possible
finish_call key group = elim (group.calls key) [
  | none ↦ group
  | some pending ↦
      let finished = record pending { finished = true } in
      delete_if_possible key finished
        (record group { calls = assign_call key finished group.calls })
]

abbrev pub minutes_between : ℕ → ℕ → ℕ
minutes_between start now = (now - start) / 60000000000

-- The branch of Server::handleEvaluateCall for a PendingCall that was there.
unfoldable pub retry_call : ℕ → Key → PendingCall → CallGroup → CallGroup
retry_call now key pending group =
    let again = record pending {
      timeout_minutes = pending.timeout_minutes * 2 % 2 ^ 32;
      assigned = false;
    } in
    if pending.assigned && leb pending.timeout_minutes (minutes_between pending.start_time now)
    then record group {
      calls = assign_call key again group.calls;
      calls_to_retry = group.calls_to_retry ++ (key ∷ []);
    }
    else group

-- The group in Server::handleEvaluateCall.
unfoldable pub request_call : ℕ → Call → CallGroup → CallGroup
unfolding retry_call call_key
request_call now call group =
    let key = call_key call in
    elim (group.calls key) [
      | none ↦ record group {
        calls = assign_call key (pending_call call) group.calls;
        unstarted_calls = group.unstarted_calls ++ (key ∷ []);
      }
      | some pending ↦ retry_call now key pending group
    ]

-- The PendingCall in Server::sendCallToWorker, and the call that is sent.
unfoldable pub send_call : ℕ → Key → CallGroup → Option Call × CallGroup
send_call now key group = elim (group.calls key) [
  | none ↦ (none, group)
  | some pending ↦
      let sent = record pending { assigned = true; start_time = now } in
      (some pending.call, record group { calls = assign_call key sent group.calls })
]

abbrev pub send_unstarted : ℕ → List Key → CallGroup → Option Call × CallGroup
send_unstarted now [] group = (none, group)
send_unstarted now (key ∷ queue) group =
    send_call now key (record group { unstarted_calls = queue })

abbrev pub send_retry : ℕ → List Key → CallGroup → Option Call × CallGroup
send_retry now [] group = (none, group)
send_retry now (key ∷ queue) group = send_call now key (record group { calls_to_retry = queue })

-- A round of the first loop of Server::handleRequestWorker.
unfoldable pub poll_unstarted : ℕ → CallGroup → Option Call × CallGroup
unfolding delete_some_finished_calls send_call
poll_unstarted now group =
    let cleaned = delete_some_finished_calls group in
    send_unstarted now cleaned.unstarted_calls cleaned

-- A round of the second loop.
unfoldable pub poll_retry : ℕ → CallGroup → Option Call × CallGroup
unfolding delete_some_finished_calls send_call
poll_retry now group =
    let cleaned = delete_some_finished_calls group in send_retry now cleaned.calls_to_retry cleaned

-- What the handlers do with a group.
pub data Event : Type 0 where
  requested : ℕ → Call → Event
  result_stored : Call → Event
  worker_asked : ℕ → Event
  worker_asked_again : ℕ → Event

-- The call that goes to a worker, if one does, and the group after the event.
unfoldable pub step : Event → CallGroup → Option Call × CallGroup
unfolding finish_call request_call poll_unstarted poll_retry call_key
step (requested now call) group = (none, request_call now call group)
step (result_stored call) group = (none, finish_call (call_key call) group)
step (worker_asked now) group = poll_unstarted now group
step (worker_asked_again now) group = poll_retry now group

unfoldable pub run : List Event → CallGroup → CallGroup
unfolding step
run [] group = group
run (event ∷ events) group = run events (step event group).1

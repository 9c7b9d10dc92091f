-- ===== src/Examples/Servers.antt =====
-- Runs of memodb/lib/Server.cpp on concrete inputs, and the theorems about it at such inputs.
use bcdb.Prelude.{
  ℕ, ◌*◌, ◌<◌, ◌≡◌, refl, true, false, Option, none, some, List, [], ◌∷◌, map, codes, if◌then◌else◌,
  arith,
}
use bcdb.Cid.{Cid}
use bcdb.Name.{Name, Call, cid_name, head_name, call_name, head_uri}
use bcdb.Node.{Node, link, no_entries}
use bcdb.Node.Map.{key_eq}
use bcdb.Store.{Store}
use bcdb.Uri
use bcdb.Uri.{Uri, encode, empty_uri}
use bcdb.Server.{handle_new_request, handle_uri, route, route_worker}
use bcdb.Server.Workers.{handle_request_worker}
use bcdb.Server.State.{Server}
use bcdb.Server.Evaluation.{put_call, evaluate}
use bcdb.Server.Requests.{
  Request, Method, method_get, method_put, method_post, method_delete, content, content_node,
  created, mutable,
}
use bcdb.Server.Calls.{
  Key, call_key, same_key, CallGroup, empty_group, Event, requested, result_stored, worker_asked,
  worker_asked_again, step, run, delete_some_finished_calls, drop_finished, request_call,
  retry_call, send_call, poll_unstarted,
}
use bcdb.Server.Calls.Keys.{same_key_self}
use bcdb.Server.Calls.Invariant.{IsSound}
use bcdb.Server.Calls.Sending.{IsHandedOver, run-IsSound, step-IsHandedOver}
use bcdb.Server.Calls.Progress.{IsWaiting, is_served, asks, is_served-IsWaiting}
use bcdb.Server.Groups.{AllSound}
use bcdb.Server.Handled.{handle_new_request-AllSound, handle_new_request-reported}
use bcdb.Server.Heads.{put_get_head, put_evaluate_call}
use bcdb.Server.Results.{reports_change}
use bcdb.Examples.{hi_cid}
use bcdb.Examples.Uris.{hi_call, main_head, main_head-IsEncodable}

abbrev minute : ℕ
minute = 60000000000

abbrev other_call : Call
other_call = record { name = codes "f"; args = [] }

-- Two calls are asked for; a worker takes the first, which times out and is queued again.
abbrev busy_events : List Event
busy_events =
    requested 0 hi_call
    ∷ requested 1 other_call
    ∷ worker_asked 2
    ∷ requested (5 * minute) hi_call
    ∷ []

run-IsSound_example : IsSound (run busy_events empty_group)
run-IsSound_example = run-IsSound busy_events

test_queues :
    ((run busy_events empty_group).unstarted_calls ≡ call_key other_call ∷ [])
    × ((run busy_events empty_group).calls_to_retry ≡ call_key hi_call ∷ [])
unfolding run step request_call retry_call send_call poll_unstarted delete_some_finished_calls
    drop_finished call_key same_key key_eq
test_queues = (refl, refl)

abbrev waiting_events : List Event
waiting_events = requested 0 hi_call ∷ requested 1 other_call ∷ []

waiting-IsSound : IsSound (run waiting_events empty_group)
waiting-IsSound = run-IsSound waiting_events

abbrev waiting_group : CallGroup
waiting_group = run waiting_events empty_group

handed : (step (worker_asked 2) waiting_group).0 ≡ some hi_call
unfolding run step request_call retry_call send_call poll_unstarted delete_some_finished_calls
    drop_finished call_key same_key key_eq
handed = refl

step-IsHandedOver_example :
    IsHandedOver waiting_group hi_call (step (worker_asked 2) waiting_group).1
step-IsHandedOver_example =
    step-IsHandedOver (worker_asked 2) waiting_group hi_call waiting-IsSound handed

other-IsWaiting : IsWaiting (call_key other_call) 1 waiting_group
unfolding run step request_call retry_call call_key same_key key_eq
other-IsWaiting = record {
  front = call_key hi_call ∷ [];
  back = [];
  place = refl;
  close = omega arith;
  unfinished = refl;
}

abbrev later_events : List Event
later_events = worker_asked 2 ∷ result_stored hi_call ∷ worker_asked_again 3 ∷ worker_asked 4 ∷ []

two_asks : 1 < asks later_events
unfolding asks
two_asks = omega arith

is_served-IsWaiting_example : is_served (call_key other_call) later_events waiting_group ≡ true
is_served-IsWaiting_example =
    is_served-IsWaiting later_events (call_key other_call) 1 waiting_group waiting-IsSound
      other-IsWaiting two_asks

-- A store of names alone.
abbrev Names : Type 0
Names = Key → Option Cid

abbrev name_key : Name → Key
name_key (cid_name cid) = codes "cid" ∷ cid.bytes ∷ []
name_key (head_name head) = codes "head" ∷ head.name ∷ []
name_key (call_name call) = codes "call" ∷ call.name ∷ map (λ (cid : Cid). cid.bytes) call.args

abbrev set_name : Names → Name → Cid → Names
set_name names name cid key = if same_key key (name_key name) then some cid else names key

names_store : Store Names
names_store = record {
  get_optional = λ s cid. none;
  resolve_optional = λ s name. s (name_key name);
  put = λ s body. (hi_cid, s);
  set = set_name;
  list_names_using = λ s cid. [];
  list_funcs = λ s. [];
  each_head = λ s. [];
  each_call = λ s func. [];
  call_invalidate = λ s func. s;
  resolve-set_head = λ s head cid. rw (same_key_self (name_key (head_name head))) refl;
  resolve-set_call = λ s call cid. rw (same_key_self (name_key (call_name call))) refl;
}

abbrev new_server : Server Names
new_server = record { store = λ key. none; call_groups = λ name. none; worker_groups = λ key. none }

abbrev put_request : Request
put_request = record {
  method = some method_put;
  uri = Uri.parse (encode (head_uri main_head)) false;
  content_or = λ default. content (link hi_cid);
}

abbrev get_request : Request
get_request = record {
  method = some method_get;
  uri = Uri.parse (encode (head_uri main_head)) false;
  content_or = λ default. content Node.null;
}

put_get_head_example :
    let (response, after) = handle_new_request names_store (λ str. true) 0 put_request new_server in
    (response ≡ created none)
    × (handle_new_request names_store (λ str. true) 1 get_request after
        ≡ (content_node (link hi_cid) none mutable, after))
put_get_head_example =
    put_get_head names_store (λ str. true) 0 1 put_request get_request main_head hi_cid new_server
      main_head-IsEncodable refl refl refl refl refl refl

abbrev evaluate_request : Request
evaluate_request = record {
  method = some method_post;
  uri = none;
  content_or = λ default. content (Node.map no_entries);
}

put_evaluate_call_example :
    let (response, after) = put_call names_store put_request hi_call new_server in
    (response ≡ created none)
    × (evaluate names_store 1 evaluate_request hi_call after
        ≡ (content_node (link hi_cid) none mutable, after))
put_evaluate_call_example =
    put_evaluate_call names_store 1 put_request evaluate_request hi_call hi_cid new_server refl refl

new_server-AllSound : AllSound new_server
new_server-AllSound name group e = absurd (cc)

handle_new_request-AllSound_example :
    AllSound (handle_new_request names_store (λ str. true) 0 put_request new_server).1
handle_new_request-AllSound_example =
    handle_new_request-AllSound names_store (λ str. true) 0 put_request new_server
      new_server-AllSound

-- A worker's request without a CID for a body.
abbrev bad_request_of : Method → Request
bad_request_of method = record {
  method = some method;
  uri = some (record empty_uri { path_segments = codes "worker" ∷ [] });
  content_or = λ default. content Node.null;
}

bad_request_reported :
    reports_change
      (handle_new_request names_store (λ str. true) 0 (bad_request_of method_delete) new_server).0
    ≡ false
unfolding handle_new_request handle_uri route route_worker handle_request_worker key_eq
bad_request_reported = refl

handle_new_request-reported_example :
    (handle_new_request names_store
      (λ str. true)
      0
      (bad_request_of method_delete)
      new_server).1.store
    ≡ new_server.store
handle_new_request-reported_example =
    handle_new_request-reported names_store (λ str. true) 0 (bad_request_of method_delete)
      new_server bad_request_reported

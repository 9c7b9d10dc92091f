-- ===== src/Server.antt =====
-- memodb/lib/Server.cpp and memodb/include/memodb/Server.h: the server of a store. A handler gives
-- its response and the state after it; what a handler does under one mutex after another it does
-- here in one step. LLVM's isLegalUTF8String is a parameter, and so are the store and the clock.
pub mod Calls
pub mod Requests
pub mod State
pub mod Stored
pub mod Evaluation
pub mod Workers
pub mod Results
pub mod Handled
pub mod Groups
pub mod Heads
use bcdb.Cid
use bcdb.Cid.{Cid, as_string}
use bcdb.Multibase.{base64url}
use bcdb.Name.{Head, Call, Name, head_name, call_name, as_uri, args_string, parse_args}
use bcdb.Node.{Node, Nodes, Entries, null, string, link, list, no_nodes, node, no_entries, entry}
use bcdb.Node
use bcdb.Node.Map.{key_eq, find}
use bcdb.Prelude.Strings.{is_empty, split_all}
use bcdb.Prelude.{
  ℕ, zero, suc, Bool, true, false, ◌&&◌, ◌||◌, not, Option, none, some, List, [], ◌∷◌, ◌++◌, map,
  if◌then◌else◌, codes, ◌==◌,
}
use bcdb.Store.{Store}
use bcdb.Uri.{Uri, empty_uri, get_path_string}
use bcdb.Server.Calls.{
  CallGroup, Key, call_key, empty_group, finish_call, request_call, poll_unstarted, poll_retry,
}
use bcdb.Server.Requests.{
  Method, method_get, method_post, method_put, method_delete, bad_request, not_implemented,
  ephemeral, mutable, immutable, Response, error, method_not_allowed, content_node, content_uris,
  created, accepted, deleted, Content, content, rejected, Request, is_method, not_found,
  status_not_found,
}
use bcdb.Server.State.{
  Server, Reply, with_content, with_cid, group_of, put_group, handle_call_result, make_groups,
  add_worker_group, poll_groups, quoted, invalid_cid, invalid_string, expected_cid, not_in_store,
  invalid_worker_info, head_list_uri, call_list_uri, func_list_uri, worker_funcs, call_node,
}
use bcdb.Server.Stored.{handle_request_cid, handle_request_head}
use bcdb.Server.Evaluation.{handle_request_call}
use bcdb.Server.Workers.{handle_request_worker}

module _ {State : Type 0} (store : Store State) (request : Request) where
  -- The segments of a path, the first one apart.
  unfoldable pub route_cid : List (List ℕ) → Server State → Reply State
  unfolding handle_request_cid
  route_cid [] server = handle_request_cid store request none none server
  route_cid (cid_str ∷ []) server = handle_request_cid store request (some cid_str) none server
  route_cid (cid_str ∷ sub_str ∷ []) server =
      handle_request_cid store request (some cid_str) (some sub_str) server
  route_cid (cid_str ∷ sub_str ∷ third ∷ more) server = (not_found, server)

module _ {State : Type 0} (store : Store State) (is_legal_utf8 : List ℕ → Bool)
    (request : Request) where
  unfoldable pub route_head : Uri → List (List ℕ) → Server State → Reply State
  unfolding handle_request_head
  route_head uri [] server = handle_request_head store is_legal_utf8 request none server
  route_head uri (segment ∷ segments) server =
      handle_request_head store is_legal_utf8 request (some (get_path_string 1 uri)) server

module _ {State : Type 0} (store : Store State) (is_legal_utf8 : List ℕ → Bool) (now : ℕ)
    (request : Request) where
  unfoldable pub route_call : List (List ℕ) → Server State → Reply State
  unfolding handle_request_call
  route_call [] server = handle_request_call store is_legal_utf8 now request none none none server
  route_call (func_str ∷ []) server =
      handle_request_call store is_legal_utf8 now request (some func_str) none none server
  route_call (func_str ∷ args_str ∷ []) server =
      handle_request_call store is_legal_utf8 now request (some func_str) (some args_str) none
        server
  route_call (func_str ∷ args_str ∷ sub_str ∷ []) server =
      handle_request_call store is_legal_utf8 now request (some func_str) (some args_str)
        (some sub_str) server
  route_call (func_str ∷ args_str ∷ sub_str ∷ fourth ∷ more) server = (not_found, server)

module _ {State : Type 0} (store : Store State) (now : ℕ) (request : Request) where
  unfoldable pub route_worker : List (List ℕ) → Server State → Reply State
  unfolding handle_request_worker
  route_worker [] server = handle_request_worker store now request server
  route_worker (segment ∷ segments) server = (not_found, server)

module _ {State : Type 0} (store : Store State) (is_legal_utf8 : List ℕ → Bool) (now : ℕ)
    (request : Request) where
  unfoldable pub route : Uri → List (List ℕ) → Server State → Reply State
  unfolding route_cid route_head route_call route_worker
  route uri [] server = (not_found, server)
  route uri (first ∷ segments) server =
      if key_eq first (codes "cid")
      then route_cid store request segments server
      else (if key_eq first (codes "head")
          then route_head store is_legal_utf8 request uri segments server
          else (if key_eq first (codes "call")
              then route_call store is_legal_utf8 now request segments server
              else (if key_eq first (codes "worker")
                  then route_worker store now request segments server
                  else (not_found, server))))

  unfoldable pub handle_uri : Option Uri → Server State → Reply State
  unfolding route
  handle_uri none server = (error bad_request none (codes "Bad Request") none, server)
  handle_uri (some uri) server =
      let reply = route uri uri.path_segments server in
      if uri.rootless && not (is_empty uri.path_segments)
      then (error bad_request none (codes "Bad Request") none, server)
      else reply

  -- Server::handleNewRequest
  unfoldable pub handle_new_request : Server State → Reply State
  unfolding handle_uri
  handle_new_request server = elim (request.method) [
    | none ↦ (error not_implemented none (codes "Not Implemented") none, server)
    | some method ↦ handle_uri request.uri server
  ]

-- ===== src/Server/State.antt =====
-- The server's state, its call groups and what the handlers share: memodb/lib/Server.cpp.

use bcdb.Cid.{Cid}
use bcdb.Name.{Head, Call, args_string}
use bcdb.Node.{Node, Nodes, string, link, list, no_nodes, node, no_entries, entry}
use bcdb.Node.Map.{key_eq, find}
use bcdb.Prelude.{ℕ, false, Option, none, some, List, [], ◌∷◌, ◌++◌, if◌then◌else◌, codes}
use bcdb.Uri.{Uri, empty_uri}
use bcdb.Server.Calls.{CallGroup, call_key, empty_group, finish_call}
use bcdb.Server.Requests.{
  bad_request, Response, error, content, rejected, Request, status_not_found,
}

-- The store, the groups by the function's name, and the functions of each worker group by the
-- bytes of the CID of its information.
pub record Server (State : Type 0) : Type 0 where
  pub store : State
  pub call_groups : List ℕ → Option CallGroup
  pub worker_groups : List ℕ → Option (List (List ℕ))

abbrev pub quoted : List ℕ → List ℕ
quoted str = 0x22 ∷ (str ++ (0x22 ∷ []))

abbrev pub invalid_cid : List ℕ → Response
invalid_cid cid_str =
    error bad_request (some (codes "/problems/invalid-or-unsupported-cid"))
      (codes "Invalid or unsupported CID")
      (some (codes "CID " ++ (quoted cid_str ++ codes " could not be parsed.")))

abbrev pub invalid_string : Response
invalid_string =
    error bad_request (some (codes "/problems/invalid-string"))
      (codes "Invalid UTF-8 or unexpected empty string") none

abbrev pub expected_cid : Response
expected_cid =
    error bad_request (some (codes "/problems/expected-cid"))
      (codes "Expected CID but got another kind of node") none

abbrev pub not_in_store : List ℕ → Response
not_in_store detail = error status_not_found none (codes "Not Found") (some detail)

abbrev pub invalid_worker_info : Response
invalid_worker_info =
    error bad_request (some (codes "/problems/invalid-worker-info"))
      (codes "Provided worker info is invalid") none

abbrev pub head_list_uri : Head → Uri
head_list_uri head = record empty_uri {
  path_segments = codes "head" ∷ head.name ∷ [];
  escape_slashes_in_segments = false;
}

abbrev pub call_list_uri : List ℕ → Call → Uri
call_list_uri func call = record empty_uri {
  path_segments = codes "call" ∷ func ∷ args_string call.args ∷ [];
}

abbrev pub func_list_uri : List ℕ → Uri
func_list_uri func = record empty_uri { path_segments = codes "call" ∷ func ∷ [] }

-- `func.as<StringRef>()` of those that are strings.
unfoldable pub func_names : Nodes → List (List ℕ)
func_names no_nodes = []
func_names (node (string func) rest) = func ∷ func_names rest
func_names (node other rest) = func_names rest

-- `info["funcs"]` of a map that has it as a list.
unfoldable pub worker_funcs : Node → Option (List (List ℕ))
unfolding func_names
worker_funcs (Node.map info) = elim (find (codes "funcs") info) [
  | some (list funcs) ↦ some (func_names funcs)
  | other ↦ none
]
worker_funcs other = none

-- The node that Server::sendCallToWorker sends. NodeMap puts "args" before "func".
unfoldable pub arg_nodes : List Cid → Nodes
arg_nodes [] = no_nodes
arg_nodes (arg ∷ args) = node (link arg) (arg_nodes args)

unfoldable pub call_node : Call → Node
unfolding arg_nodes
call_node call = Node.map (
    entry (codes "args") (list (arg_nodes call.args))
      (entry (codes "func") (string call.name) no_entries))

abbrev pub Reply : Type 0 → Type 0
Reply State = Response × Server State

module _ {State : Type 0} (request : Request) where
  -- The rest of a handler behind `getContentNode`.
  abbrev pub with_content : Option Node → Server State → (Node → Reply State) → Reply State
  with_content default server handle = elim (request.content_or default) [
    | content body ↦ handle body
    | rejected response ↦ (response, server)
  ]

  -- The same where the body has to be a CID.
  unfoldable pub with_cid : Server State → (Cid → Reply State) → Reply State
  with_cid server handle =
      with_content none server
        λ body. elim body [ link cid ↦ handle cid | other ↦ (expected_cid, server) ]

module _ {State : Type 0} where
  -- `call_groups[name]`, which makes a group that is missing.
  unfoldable pub group_of : List ℕ → Server State → CallGroup
  group_of name server = elim (server.call_groups name) [ none ↦ empty_group | some group ↦ group ]

  abbrev pub put_group : List ℕ → CallGroup → Server State → Server State
  put_group name group server = record server {
    call_groups = λ n. if key_eq n name then some group else server.call_groups n;
  }

  unfoldable pub handle_call_result : Call → Server State → Server State
  handle_call_result call server = elim (server.call_groups call.name) [
    | none ↦ server
    | some group ↦ put_group call.name (finish_call (call_key call) group) server
  ]

  -- `call_groups[func]` for each function of a new worker group.
  unfoldable pub make_groups : List (List ℕ) → Server State → Server State
  unfolding group_of
  make_groups [] server = server
  make_groups (func ∷ funcs) server =
      make_groups funcs (put_group func (group_of func server) server)

  unfoldable pub add_worker_group : Cid → List (List ℕ) → Server State → Server State
  unfolding make_groups
  add_worker_group cid funcs server =
      let made = make_groups funcs server in
      record made {
        worker_groups = λ key. if key_eq key cid.bytes then some funcs else made.worker_groups key;
      }

module _ {State : Type 0} (now : ℕ) where
  -- A loop over the groups of the worker, up to the first that has a call.
  unfoldable pub poll_groups :
      (ℕ → CallGroup → Option Call × CallGroup)
      → List (List ℕ)
      → Server State
      → Option Call × Server State
  unfolding group_of
  poll_groups poll [] server = (none, server)
  poll_groups poll (name ∷ names) server =
      let (call, group) = poll now (group_of name server) in
      let after = put_group name group server in
      elim call [ some found ↦ (some found, after) | none ↦ poll_groups poll names after ]

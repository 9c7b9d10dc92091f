-- ===== src/Server/Evaluation.antt =====
-- The handlers of calls: memodb/lib/Server.cpp.
use bcdb.Cid
use bcdb.Cid.{Cid, as_string}
use bcdb.Name.{Call, call_name, parse_args}
use bcdb.Node.{Node, link, no_entries}
use bcdb.Node.Map.{key_eq}
use bcdb.Prelude.Strings.{is_empty, split_all}
use bcdb.Prelude.{ℕ, Bool, ◌||◌, not, Option, none, some, List, [], ◌∷◌, map, if◌then◌else◌, codes}
use bcdb.Store.{Store}
use bcdb.Server.Calls.{request_call}
use bcdb.Server.Requests.{
  method_get, method_post, method_put, method_delete, bad_request, mutable, error,
  method_not_allowed, content_node, content_uris, created, accepted, deleted, Request, is_method,
  not_found,
}
use bcdb.Server.State.{
  Server, Reply, with_content, with_cid, group_of, put_group, handle_call_result, invalid_cid,
  invalid_string, not_in_store, call_list_uri, func_list_uri,
}

-- The first argument that is no CID.
unfoldable pub first_invalid : List (List ℕ) → List ℕ
first_invalid [] = []
first_invalid (arg_str ∷ arg_strs) = elim (Cid.parse arg_str) [
  | none ↦ arg_str
  | some arg ↦ first_invalid arg_strs
]

module _ {State : Type 0} (store : Store State) (now : ℕ) where
  -- The second look at the store, under the group's mutex, sees what the first one saw, since the
  -- handler is one step.
  unfoldable pub handle_evaluate_call : Call → Server State → Reply State
  unfolding group_of
  handle_evaluate_call call server = elim (store.resolve_optional server.store (call_name call)) [
    | some result ↦ (content_node (link result) none mutable, server)
    | none ↦
        (accepted, put_group call.name (request_call now call (group_of call.name server)) server)
  ]

module _ {State : Type 0} (store : Store State) where
  unfoldable pub get_call : Call → Server State → Reply State
  get_call call server = elim (store.resolve_optional server.store (call_name call)) [
    | none ↦ (not_in_store (codes "Call not found in store."), server)
    | some cid ↦ (content_node (link cid) none mutable, server)
  ]

module _ {State : Type 0} (store : Store State) (request : Request) where
  -- GET and PUT /call/.../...
  unfoldable pub put_call : Call → Server State → Reply State
  unfolding with_cid handle_call_result
  put_call call server = with_cid request server λ cid. (
    created none,
    handle_call_result call (record server { store = store.set server.store (call_name call) cid }),
  )

  unfoldable pub handle_func : List ℕ → Server State → Reply State
  handle_func func_str server =
      if is_method method_get request.method
      then (
        content_uris (map (call_list_uri func_str) (store.each_call server.store func_str)) mutable,
        server,
      )
      else (if is_method method_delete request.method
          then (deleted, record server { store = store.call_invalidate server.store func_str })
          else (method_not_allowed (codes "DELETE, GET, HEAD"), server))

module _ {State : Type 0} (store : Store State) (now : ℕ) (request : Request) where
  -- POST /call/.../.../evaluate
  unfoldable pub evaluate : Call → Server State → Reply State
  unfolding handle_evaluate_call
  evaluate call server = with_content request (some (Node.map no_entries)) server λ body.
      elim body [
        | Node.map _ ↦ handle_evaluate_call store now call server
        | other ↦ (error bad_request none (codes "Invalid body kind") none, server)
      ]

  -- The branches behind the parsed arguments.
  unfoldable pub handle_parsed_call : Call → Option (List ℕ) → Server State → Reply State
  unfolding put_call get_call evaluate
  handle_parsed_call call (some sub_str) server =
      let reply = evaluate call server in
      if not (key_eq sub_str (codes "evaluate"))
      then (not_found, server)
      else (if is_method method_post request.method
          then reply
          else (method_not_allowed (codes "POST"), server))
  handle_parsed_call call none server =
      if is_method method_get request.method
      then get_call store call server
      else (if is_method method_put request.method
          then put_call store request call server
          else (method_not_allowed (codes "GET, HEAD, PUT"), server))

  unfoldable pub handle_args : List ℕ → List ℕ → Option (List ℕ) → Server State → Reply State
  unfolding handle_parsed_call first_invalid
  handle_args func_str args_str sub_str server =
      let args_split = split_all b',' args_str in
      elim (parse_args args_split) [
        | none ↦ (invalid_cid (first_invalid args_split), server)
        | some args ↦ handle_parsed_call (record { name = func_str; args = args }) sub_str server
      ]

module _ {State : Type 0} (store : Store State) (is_legal_utf8 : List ℕ → Bool) (now : ℕ)
    (request : Request) where
  -- `sub_str` is given only with `args_str`, and `args_str` only with `func_str`.
  unfoldable pub handle_request_call :
      Option (List ℕ) → Option (List ℕ) → Option (List ℕ) → Server State → Reply State
  unfolding handle_args handle_func
  handle_request_call none args_str sub_str server =
      if is_method method_get request.method
      then (content_uris (map func_list_uri (store.list_funcs server.store)) mutable, server)
      else (method_not_allowed (codes "GET, HEAD"), server)
  handle_request_call (some func_str) none sub_str server =
      if is_empty func_str || not (is_legal_utf8 func_str)
      then (invalid_string, server)
      else handle_func store request func_str server
  handle_request_call (some func_str) (some args_str) sub_str server =
      let reply = handle_args store now request func_str args_str sub_str server in
      if is_empty func_str || not (is_legal_utf8 func_str) then (invalid_string, server) else reply

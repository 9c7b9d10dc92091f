-- ===== src/Server/Handled.antt =====
-- Every handler keeps the groups' invariant and reports a change of the store: memodb/lib/Server.cpp.
use bcdb.Prelude.{
  ℕ, ◌≡◌, refl, Bool, false, ◌&&◌, ◌||◌, not, List, [], ◌∷◌, Option, none, some, Option-cases, inl,
  inr, codes,
}
use bcdb.Prelude.Strings.{is_empty, split_all}
use bcdb.Cid
use bcdb.Cid.{Cid}
use bcdb.Name.{Call, call_name, head_name, parse_args}
use bcdb.Node.{null}
use bcdb.Node.Map.{key_eq}
use bcdb.Store.{Store}
use bcdb.Uri.{Uri}
use bcdb.Server.{
  handle_new_request, handle_uri, route, route_cid, route_head, route_call, route_worker,
}
use bcdb.Server.State.{Server, Reply, poll_groups, worker_funcs}
use bcdb.Server.Stored.{
  handle_request_cid, get_cid, post_cid, get_head, put_head, handle_request_head,
}
use bcdb.Server.Evaluation.{
  handle_request_call, handle_args, handle_parsed_call, handle_evaluate_call, evaluate, put_call,
  get_call, handle_func,
}
use bcdb.Server.Workers.{sent_or, serve_worker, new_worker_group, handle_request_worker}
use bcdb.Server.Requests.{
  method_get, method_post, method_put, method_delete, content_node, accepted, ephemeral, Request,
  is_method,
}
use bcdb.Server.Calls.{CallGroup, poll_unstarted, poll_retry, request_call}
use bcdb.Server.Calls.Invariant.{IsSound, request_call-IsSound}
use bcdb.Server.Calls.Sending.{poll_unstarted-IsSound, poll_retry-IsSound}
use bcdb.Server.Groups.{
  AllSound, IsKept, IsKept-trans, put_group-IsKept, handle_call_result-IsKept, poll_groups-IsKept,
  add_worker_group-IsKept,
}
use bcdb.Server.Results.{
  reports_change, IsProper, kept-IsProper, same-IsProper, behind-IsProper, if-IsProper,
  map_or-IsProper, with_content-IsProper, with_cid-IsProper,
}

module _ {State : Type 0} (store : Store State) where
  get_cid-IsProper :
      (cid_str : List ℕ) (sub_str : Option (List ℕ)) (cid : Cid) (server : Server State)
      → IsProper server (get_cid store cid_str sub_str cid server)
  unfolding get_cid
  get_cid-IsProper cid_str none cid server =
      elim (Option-cases (store.get_optional server.store cid)) [
        | inl e ↦ rw (e, get_cid) (same-IsProper _ server)
        | inr (found, e) ↦ rw (e, get_cid) (same-IsProper _ server)
      ]
  get_cid-IsProper cid_str (some sub_str) cid server =
      if-IsProper (key_eq sub_str (codes "users")) server _ _ (same-IsProper _ server)
        (same-IsProper _ server)

  get_head-IsProper :
      (head_str : List ℕ) (server : Server State) → IsProper server (get_head store head_str server)
  unfolding get_head
  get_head-IsProper head_str server =
      elim (Option-cases
        (store.resolve_optional server.store (head_name (record { name = head_str })))) [
          | inl e ↦ rw (e, get_head) (same-IsProper _ server)
          | inr (found, e) ↦ rw (e, get_head) (same-IsProper _ server)
        ]

  get_call-IsProper :
      (call : Call) (server : Server State) → IsProper server (get_call store call server)
  unfolding get_call
  get_call-IsProper call server =
      elim (Option-cases (store.resolve_optional server.store (call_name call))) [
        | inl e ↦ rw (e, get_call) (same-IsProper _ server)
        | inr (found, e) ↦ rw (e, get_call) (same-IsProper _ server)
      ]

  handle_evaluate_call-IsProper :
      (now : ℕ) (call : Call) (server : Server State)
      → IsProper server (handle_evaluate_call store now call server)
  unfolding handle_evaluate_call
  handle_evaluate_call-IsProper now call server =
      elim (Option-cases (store.resolve_optional server.store (call_name call))) [
        | inl e ↦
            rw (e, handle_evaluate_call)
              (kept-IsProper accepted (
                put_group-IsKept call.name (request_call now call) server
                  (request_call-IsSound now call)))
        | inr (found, e) ↦ rw (e, handle_evaluate_call) (same-IsProper _ server)
      ]

  module _ (request : Request) where
    -- The store changes, and the response says so.
    post_cid-IsProper : (server : Server State) → IsProper server (post_cid store request server)
    unfolding post_cid
    post_cid-IsProper server =
        with_content-IsProper request none server _
          λ body. record { reported = inl refl; sound = λ all. all }

    put_head-IsProper :
        (is_legal_utf8 : List ℕ → Bool) (head_str : List ℕ) (server : Server State)
        → IsProper server (put_head store is_legal_utf8 request head_str server)
    unfolding put_head
    put_head-IsProper is_legal_utf8 head_str server =
        if-IsProper (is_empty head_str || not (is_legal_utf8 head_str)) server _ _
          (same-IsProper _ server)
          (with_cid-IsProper request server _
            λ cid. record { reported = inl refl; sound = λ all. all })

    put_call-IsProper :
        (call : Call) (server : Server State) → IsProper server (put_call store request call server)
    unfolding put_call
    put_call-IsProper call server = with_cid-IsProper request server _ λ cid. record {
      reported = inl refl;
      sound = λ all. (handle_call_result-IsKept call _).sound all;
    }

    evaluate-IsProper :
        (now : ℕ) (call : Call) (server : Server State)
        → IsProper server (evaluate store now request call server)
    unfolding evaluate
    evaluate-IsProper now call server = with_content-IsProper request _ server _ λ body.
        map_or-IsProper body server _ _ (handle_evaluate_call-IsProper now call server)
          (same-IsProper _ server)

    handle_func-IsProper :
        (func_str : List ℕ) (server : Server State)
        → IsProper server (handle_func store request func_str server)
    unfolding handle_func
    handle_func-IsProper func_str server =
        if-IsProper (is_method method_get request.method) server _ _ (same-IsProper _ server) (
          if-IsProper (is_method method_delete request.method) server _ _
            (record { reported = inl refl; sound = λ all. all }) (same-IsProper _ server))

    handle_parsed_call-IsProper :
        (now : ℕ) (call : Call) (sub_str : Option (List ℕ)) (server : Server State)
        → IsProper server (handle_parsed_call store now request call sub_str server)
    unfolding handle_parsed_call
    handle_parsed_call-IsProper now call (some sub_str) server =
        if-IsProper (not (key_eq sub_str (codes "evaluate"))) server _ _ (same-IsProper _ server) (
          if-IsProper (is_method method_post request.method) server _ _
            (evaluate-IsProper now call server) (same-IsProper _ server))
    handle_parsed_call-IsProper now call none server =
        if-IsProper (is_method method_get request.method) server _ _ (get_call-IsProper call server)
          (if-IsProper (is_method method_put request.method) server _ _
            (put_call-IsProper call server) (same-IsProper _ server))

    handle_args-IsProper :
        (now : ℕ) (func_str args_str : List ℕ) (sub_str : Option (List ℕ)) (server : Server State)
        → IsProper server (handle_args store now request func_str args_str sub_str server)
    unfolding handle_args
    handle_args-IsProper now func_str args_str sub_str server =
        elim (Option-cases (parse_args (split_all b',' args_str))) [
          | inl e ↦ rw (e, handle_args) (same-IsProper _ server)
          | inr (args, e) ↦ rw (e, handle_args) (handle_parsed_call-IsProper now _ sub_str server)
        ]

    handle_request_call-IsProper :
        (is_legal_utf8 : List ℕ → Bool) (now : ℕ) (func_str args_str sub_str : Option (List ℕ))
        (server : Server State)
        → IsProper server
            (handle_request_call store is_legal_utf8 now request func_str args_str sub_str server)
    unfolding handle_request_call
    handle_request_call-IsProper is_legal_utf8 now none args_str sub_str server =
        if-IsProper (is_method method_get request.method) server _ _ (same-IsProper _ server)
          (same-IsProper _ server)
    handle_request_call-IsProper is_legal_utf8 now (some func_str) none sub_str server =
        if-IsProper (is_empty func_str || not (is_legal_utf8 func_str)) server _ _
          (same-IsProper _ server) (handle_func-IsProper func_str server)
    handle_request_call-IsProper is_legal_utf8 now (some func_str) (some args_str) sub_str server =
        if-IsProper (is_empty func_str || not (is_legal_utf8 func_str)) server _ _
          (same-IsProper _ server) (handle_args-IsProper now func_str args_str sub_str server)

    handle_request_cid-IsProper :
        (cid_str sub_str : Option (List ℕ)) (server : Server State)
        → IsProper server (handle_request_cid store request cid_str sub_str server)
    unfolding handle_request_cid
    handle_request_cid-IsProper (some cid_str) sub_str server =
        if-IsProper (is_method method_get request.method) server _ _
          (elim (Option-cases (Cid.parse cid_str)) [
            | inl e ↦ rw e (same-IsProper _ server)
            | inr (cid, e) ↦ rw e (get_cid-IsProper cid_str sub_str cid server)
          ])
          (same-IsProper _ server)
    handle_request_cid-IsProper none (some sub_str) server = same-IsProper _ server
    handle_request_cid-IsProper none none server =
        if-IsProper (is_method method_post request.method) server _ _ (post_cid-IsProper server)
          (same-IsProper _ server)

    handle_request_head-IsProper :
        (is_legal_utf8 : List ℕ → Bool) (head_str : Option (List ℕ)) (server : Server State)
        → IsProper server (handle_request_head store is_legal_utf8 request head_str server)
    unfolding handle_request_head
    handle_request_head-IsProper is_legal_utf8 (some head_str) server =
        if-IsProper (is_method method_get request.method) server _ _
          (get_head-IsProper head_str server)
          (if-IsProper (is_method method_put request.method) server _ _
            (put_head-IsProper is_legal_utf8 head_str server) (same-IsProper _ server))
    handle_request_head-IsProper is_legal_utf8 none server =
        if-IsProper (is_method method_get request.method) server _ _ (same-IsProper _ server)
          (same-IsProper _ server)

module _ {State : Type 0} (now : ℕ) where
  sent_or-IsProper :
      (before : Server State) (sent : Option Call × Server State)
      (next : Server State → Reply State)
      → IsKept before sent.1
      → ((after : Server State) → IsKept before after → IsProper before (next after))
      → IsProper before (sent_or sent next)
  sent_or-IsProper before (some call, after) next h k = kept-IsProper _ h
  sent_or-IsProper before (none, after) next h k = k after h

  serve_worker-IsProper :
      (funcs : List (List ℕ)) (server : Server State)
      → IsProper server (serve_worker now funcs server)
  unfolding serve_worker
  serve_worker-IsProper funcs server =
      let idle : Server State → Reply State = λ last. (content_node null none ephemeral, last) in
      sent_or-IsProper server (poll_groups now poll_unstarted funcs server)
        (λ after. sent_or (poll_groups now poll_retry funcs after) idle)
        (poll_groups-IsKept now poll_unstarted funcs server first)
        λ after h.
          sent_or-IsProper server (poll_groups now poll_retry funcs after) idle
            (IsKept-trans h (poll_groups-IsKept now poll_retry funcs after second))
            λ last k. kept-IsProper (content_node null none ephemeral) k
    where
      first : (group : CallGroup) → IsSound group → IsSound (poll_unstarted now group).1
      first group sound = poll_unstarted-IsSound now group sound

      second : (group : CallGroup) → IsSound group → IsSound (poll_retry now group).1
      second group sound = poll_retry-IsSound now group sound

  new_worker_group-IsProper :
      (store : Store State) (cid : Cid) (server : Server State)
      → IsProper server (new_worker_group store now cid server)
  unfolding new_worker_group
  new_worker_group-IsProper store cid server =
      elim (Option-cases (store.get_optional server.store cid)) [
        | inl e ↦ rw (e, new_worker_group) (same-IsProper _ server)
        | inr (info, e) ↦ elim (Option-cases (worker_funcs info)) [
          | inl f ↦ rw (e, new_worker_group, f) (same-IsProper _ server)
          | inr (funcs, f) ↦
              rw (e, new_worker_group, f)
                (behind-IsProper (add_worker_group-IsKept cid funcs server)
                  (serve_worker-IsProper funcs _))
        ]
      ]

  handle_request_worker-IsProper :
      (store : Store State) (request : Request) (server : Server State)
      → IsProper server (handle_request_worker store now request server)
  unfolding handle_request_worker
  handle_request_worker-IsProper store request server =
      if-IsProper (is_method method_post request.method) server _ _
        (with_cid-IsProper request server _ λ cid.
          elim (Option-cases (server.worker_groups cid.bytes)) [
            | inl e ↦ rw e (new_worker_group-IsProper store cid server)
            | inr (funcs, e) ↦ rw e (serve_worker-IsProper funcs server)
          ])
        (same-IsProper _ server)

module _ {State : Type 0} (store : Store State) (is_legal_utf8 : List ℕ → Bool) (now : ℕ)
    (request : Request) where
  route_cid-IsProper :
      (segments : List (List ℕ)) (server : Server State)
      → IsProper server (route_cid store request segments server)
  unfolding route_cid
  route_cid-IsProper [] server = handle_request_cid-IsProper store request none none server
  route_cid-IsProper (a ∷ []) server =
      handle_request_cid-IsProper store request (some a) none server
  route_cid-IsProper (a ∷ b ∷ []) server =
      handle_request_cid-IsProper store request (some a) (some b) server
  route_cid-IsProper (a ∷ b ∷ c ∷ more) server = same-IsProper _ server

  route_head-IsProper :
      (uri : Uri) (segments : List (List ℕ)) (server : Server State)
      → IsProper server (route_head store is_legal_utf8 request uri segments server)
  unfolding route_head
  route_head-IsProper uri [] server =
      handle_request_head-IsProper store request is_legal_utf8 none server
  route_head-IsProper uri (a ∷ segments) server =
      handle_request_head-IsProper store request is_legal_utf8 (some _) server

  route_call-IsProper :
      (segments : List (List ℕ)) (server : Server State)
      → IsProper server (route_call store is_legal_utf8 now request segments server)
  unfolding route_call
  route_call-IsProper [] server =
      handle_request_call-IsProper store request is_legal_utf8 now none none none server
  route_call-IsProper (a ∷ []) server =
      handle_request_call-IsProper store request is_legal_utf8 now (some a) none none server
  route_call-IsProper (a ∷ b ∷ []) server =
      handle_request_call-IsProper store request is_legal_utf8 now (some a) (some b) none server
  route_call-IsProper (a ∷ b ∷ c ∷ []) server =
      handle_request_call-IsProper store request is_legal_utf8 now (some a) (some b) (some c) server
  route_call-IsProper (a ∷ b ∷ c ∷ d ∷ more) server = same-IsProper _ server

  route_worker-IsProper :
      (segments : List (List ℕ)) (server : Server State)
      → IsProper server (route_worker store now request segments server)
  unfolding route_worker
  route_worker-IsProper [] server = handle_request_worker-IsProper now store request server
  route_worker-IsProper (a ∷ segments) server = same-IsProper _ server

  route-IsProper :
      (uri : Uri) (segments : List (List ℕ)) (server : Server State)
      → IsProper server (route store is_legal_utf8 now request uri segments server)
  unfolding route
  route-IsProper uri [] server = same-IsProper _ server
  route-IsProper uri (first ∷ segments) server =
      if-IsProper (key_eq first (codes "cid")) server _ _ (route_cid-IsProper segments server) (
        if-IsProper (key_eq first (codes "head")) server _ _
          (route_head-IsProper uri segments server)
          (if-IsProper (key_eq first (codes "call")) server _ _
            (route_call-IsProper segments server)
            (if-IsProper (key_eq first (codes "worker")) server _ _
              (route_worker-IsProper segments server) (same-IsProper _ server))))

  handle_uri-IsProper :
      (uri : Option Uri) (server : Server State)
      → IsProper server (handle_uri store is_legal_utf8 now request uri server)
  unfolding handle_uri
  handle_uri-IsProper none server = same-IsProper _ server
  handle_uri-IsProper (some uri) server =
      if-IsProper (uri.rootless && not (is_empty uri.path_segments)) server _ _
        (same-IsProper _ server) (route-IsProper uri uri.path_segments server)

  proper :
      (server : Server State)
      → IsProper server (handle_new_request store is_legal_utf8 now request server)
  unfolding handle_new_request
  proper server = elim (Option-cases request.method) [
    | inl e ↦ rw (e, handle_new_request) (same-IsProper _ server)
    | inr (method, e) ↦ rw (e, handle_new_request) (handle_uri-IsProper request.uri server)
  ]

  -- Whatever the request is, every call group of the server keeps the invariant of its queues.
  pub handle_new_request-AllSound :
      (server : Server State)
      → AllSound server
      → AllSound (handle_new_request store is_legal_utf8 now request server).1
  handle_new_request-AllSound server all = (proper server).sound all

  -- The store is as it was after every response but "created" and "deleted": no request that fails,
  -- in whichever way, and no request that only reads or evaluates changes the store.
  pub handle_new_request-reported :
      (server : Server State)
      → reports_change (handle_new_request store is_legal_utf8 now request server).0 ≡ false
      → (handle_new_request store is_legal_utf8 now request server).1.store ≡ server.store
  handle_new_request-reported server h = elim (proper server).reported [
    | inl e ↦ absurd (cc)
    | inr e ↦ e
  ]

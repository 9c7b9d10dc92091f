-- ===== src/Server/Heads.antt =====
-- What is stored under a head or a call is what a later request gets: memodb/lib/Server.cpp and
-- memodb/lib/URI.cpp.
use bcdb.Prelude.{ℕ, ◌≡◌, refl, ap, ◌∙◌, Bool, true, false, List, Option, none, some}
use bcdb.Prelude.Strings.{is_empty, split_all, split_all-parts}
use bcdb.Cid.{Cid}
use bcdb.Name.{Head, Call, head_name, call_name, head_uri}
use bcdb.Name.Segments.{IsEncodable, path_uri}
use bcdb.Name.RoundTrip.{head_segments, parse-head_segments, get_path_string-head}
use bcdb.Node.{Node, Entries, link, no_entries}
use bcdb.Node.Map.{key_eq}
use bcdb.Store.{Store}
use bcdb.Uri
use bcdb.Uri.{Uri, encode, get_path_string}
use bcdb.Server.{handle_new_request, handle_uri, route, route_head}
use bcdb.Server.Groups.{handle_call_result-IsKept}
use bcdb.Server.State.{with_content, Reply, handle_call_result, Server, with_cid}
use bcdb.Server.Stored.{handle_request_head, put_head, get_head}
use bcdb.Server.Evaluation.{put_call, evaluate, handle_evaluate_call}
use bcdb.Server.Requests.{
  Request, Method, method_get, method_put, content, content_node, created, mutable,
}

elim_some {ℓ κ} :
    {A : Type ℓ} {B : Type κ} (o : Option A) {a : A} (x y : B)
    → o ≡ some a
    → (elim o [ none ↦ x | some _ ↦ y ]) ≡ y
elim_some o x y e = rw e refl

with_body :
    {State : Type 0} (request : Request) (default : Option Node) (server : Server State)
    (handle : Node → Reply State) {body : Node}
    → request.content_or default ≡ content body
    → with_content request default server handle ≡ handle body
with_body request default server handle e = rw (e, with_content) refl

module _ {State : Type 0} (store : Store State) (is_legal_utf8 : List ℕ → Bool) where
  -- A request for a head's URI goes to the handler with the head's name.
  route_head-segments :
      (request : Request) (head : Head) (server : Server State) (segments : List (List ℕ))
      → segments ≡ split_all b'/' head.name
      → route_head store is_legal_utf8 request (path_uri (head_segments head)) segments server
        ≡ handle_request_head store is_legal_utf8 request (some head.name) server
  unfolding route_head
  route_head-segments request head server segments e =
      rw (e, split_all-parts b'/' head.name)
        (ap (λ name. handle_request_head store is_legal_utf8 request (some name) server)
          (get_path_string-head head))

  head_request :
      (now : ℕ) (request : Request) (head : Head) (server : Server State)
      → IsEncodable (head_name head)
      → request.uri ≡ Uri.parse (encode (head_uri head)) false
      → handle_uri store is_legal_utf8 now request request.uri server
        ≡ handle_request_head store is_legal_utf8 request (some head.name) server
  unfolding handle_uri route key_eq head_segments
  head_request now request head server h uri =
      rw (uri, parse-head_segments head h) (route_head-segments request head server _ refl)

  put_head-stored :
      (request : Request) (head : Head) (cid : Cid) (server : Server State)
      → is_empty head.name ≡ false
      → is_legal_utf8 head.name ≡ true
      → request.method ≡ some method_put
      → request.content_or none ≡ content (link cid)
      → handle_request_head store is_legal_utf8 request (some head.name) server
        ≡ (created none, record server { store = store.set server.store (head_name head) cid })
  unfolding handle_request_head put_head with_cid
  put_head-stored request head cid server filled legal method body =
      rw (method, filled, legal, body) refl

  get_head-found :
      (request : Request) (head : Head) (cid : Cid) (server : Server State)
      → request.method ≡ some method_get
      → store.resolve_optional server.store (head_name head) ≡ some cid
      → handle_request_head store is_legal_utf8 request (some head.name) server
        ≡ (content_node (link cid) none mutable, server)
  unfolding handle_request_head get_head
  get_head-found request head cid server method found = rw (method, found, get_head) refl

  handled :
      (now : ℕ) (request : Request) (server : Server State) {m : Method}
      → request.method ≡ some m
      → handle_new_request store is_legal_utf8 now request server
        ≡ handle_uri store is_legal_utf8 now request request.uri server
  unfolding handle_new_request
  handled now request server method = elim_some request.method _ _ method

  -- A PUT of a CID at a head's URI is answered by "created", and a GET of that URI then by a link
  -- to the CID, at whatever times. The head's name is legal UTF-8, not empty, without a colon and
  -- without a segment of one or two dots.
  pub put_get_head :
      (now later : ℕ) (put get : Request) (head : Head) (cid : Cid) (server : Server State)
      → IsEncodable (head_name head)
      → is_legal_utf8 head.name ≡ true
      → put.uri ≡ Uri.parse (encode (head_uri head)) false
      → put.method ≡ some method_put
      → put.content_or none ≡ content (link cid)
      → get.uri ≡ Uri.parse (encode (head_uri head)) false
      → get.method ≡ some method_get
      → let (response, after) = handle_new_request store is_legal_utf8 now put server in
        (response ≡ created none)
        × (handle_new_request store is_legal_utf8 later get after
            ≡ (content_node (link cid) none mutable, after))
  unfolding IsEncodable
  put_get_head now later put get head cid server h legal put_uri put_method body get_uri
        get_method =
      let stored =
        handled now put server put_method
        ∙ head_request now put head server h put_uri
        ∙ put_head-stored put head cid server h.0 legal put_method body in
      let after = record server { store = store.set server.store (head_name head) cid } in
      let found =
        handled later get after get_method
        ∙ head_request later get head after h get_uri
        ∙ get_head-found get head cid after get_method
            (store.resolve-set_head server.store head cid) in
      rw stored (refl, found)

module _ {State : Type 0} (store : Store State) where
  put_call-stored :
      (put : Request) (call : Call) (cid : Cid) (server : Server State)
      → put.content_or none ≡ content (link cid)
      → put_call store put call server ≡ (
        created none,
        handle_call_result call
            (record server { store = store.set server.store (call_name call) cid }),
      )
  unfolding put_call with_cid
  put_call-stored put call cid server body = with_body put none server _ body

  evaluate-found :
      (now : ℕ) (request : Request) (call : Call) (cid : Cid) (server : Server State)
      {entries : Entries}
      → request.content_or (some (Node.map no_entries)) ≡ content (Node.map entries)
      → store.resolve_optional server.store (call_name call) ≡ some cid
      → evaluate store now request call server ≡ (content_node (link cid) none mutable, server)
  unfolding evaluate handle_evaluate_call
  evaluate-found now request call cid server body found =
      with_body request (some (Node.map no_entries)) server _ body
      ∙ rw (found, handle_evaluate_call) refl

  -- A PUT of a call's result is answered by "created", and a request to evaluate the call then by a
  -- link to the result, at once. The second request has a map for a body, or none.
  pub put_evaluate_call :
      (now : ℕ) (put request : Request) (call : Call) (cid : Cid) (server : Server State)
      {entries : Entries}
      → put.content_or none ≡ content (link cid)
      → request.content_or (some (Node.map no_entries)) ≡ content (Node.map entries)
      → let (response, after) = put_call store put call server in
        (response ≡ created none)
        × (evaluate store now request call after ≡ (content_node (link cid) none mutable, after))
  put_evaluate_call now put request call cid server body evaluated =
      let stored = record server { store = store.set server.store (call_name call) cid } in
      let kept = handle_call_result-IsKept call stored in
      let found =
        ap (λ s. store.resolve_optional s (call_name call)) kept.store_same
        ∙ store.resolve-set_call server.store call cid in
      rw (put_call-stored put call cid server body)
        (refl, evaluate-found now request call cid (handle_call_result call stored) evaluated found)

-- ===== src/Server/Workers.antt =====
-- The handler of workers: memodb/lib/Server.cpp.

use bcdb.Cid.{Cid}
use bcdb.Name.{Call}
use bcdb.Node.{null}
use bcdb.Prelude.{ℕ, Option, none, some, List, if◌then◌else◌, codes}
use bcdb.Store.{Store}
use bcdb.Server.Calls.{poll_unstarted, poll_retry}
use bcdb.Server.Requests.{
  method_post, bad_request, ephemeral, error, method_not_allowed, content_node, Request, is_method,
}
use bcdb.Server.State.{
  Server, Reply, with_cid, add_worker_group, poll_groups, invalid_worker_info, worker_funcs,
  call_node,
}

module _ {State : Type 0} where
  abbrev pub sent_or : Option Call × Server State → (Server State → Reply State) → Reply State
  sent_or (some call, server) next = (content_node (call_node call) none ephemeral, server)
  sent_or (none, server) next = next server

module _ {State : Type 0} (now : ℕ) where
  unfoldable pub serve_worker : List (List ℕ) → Server State → Reply State
  unfolding poll_groups call_node
  serve_worker funcs server = sent_or (poll_groups now poll_unstarted funcs server) λ after.
      sent_or (poll_groups now poll_retry funcs after)
        λ last. (content_node null none ephemeral, last)

module _ {State : Type 0} (store : Store State) (now : ℕ) where
  unfoldable pub new_worker_group : Cid → Server State → Reply State
  unfolding serve_worker add_worker_group worker_funcs
  new_worker_group cid server = elim (store.get_optional server.store cid) [
    | none ↦ (
      error bad_request (some (codes "/problems/unknown-cid"))
          (codes "Provided CID was missing from the store") none,
      server,
    )
    | some info ↦ elim (worker_funcs info) [
      | none ↦ (invalid_worker_info, server)
      | some funcs ↦ serve_worker now funcs (add_worker_group cid funcs server)
    ]
  ]

module _ {State : Type 0} (store : Store State) (now : ℕ) (request : Request) where
  unfoldable pub handle_request_worker : Server State → Reply State
  unfolding with_cid new_worker_group serve_worker
  handle_request_worker server =
      let reply = with_cid request server λ cid. elim (server.worker_groups cid.bytes) [
        | none ↦ new_worker_group store now cid server
        | some funcs ↦ serve_worker now funcs server
      ] in
      if is_method method_post request.method
      then reply
      else (method_not_allowed (codes "POST"), server)

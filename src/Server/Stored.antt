-- ===== src/Server/Stored.antt =====
-- The handlers of nodes and heads: memodb/lib/Server.cpp.
use bcdb.Cid
use bcdb.Cid.{Cid, as_string}
use bcdb.Multibase.{base64url}
use bcdb.Name.{head_name, as_uri}
use bcdb.Node.{link}
use bcdb.Node.Map.{key_eq}
use bcdb.Prelude.Strings.{is_empty}
use bcdb.Prelude.{
  ℕ, Bool, ◌||◌, not, Option, none, some, List, [], ◌∷◌, ◌++◌, map, if◌then◌else◌, codes,
}
use bcdb.Store.{Store}
use bcdb.Uri.{empty_uri}
use bcdb.Server.Requests.{
  method_get, method_post, method_put, mutable, immutable, method_not_allowed, content_node,
  content_uris, created, Request, is_method, not_found,
}
use bcdb.Server.State.{
  Server, Reply, with_content, with_cid, quoted, invalid_cid, invalid_string, not_in_store,
  head_list_uri,
}

module _ {State : Type 0} (store : Store State) where
  unfoldable pub get_cid : List ℕ → Option (List ℕ) → Cid → Server State → Reply State
  get_cid cid_str none cid server = elim (store.get_optional server.store cid) [
    | none ↦
        (not_in_store (codes "CID " ++ (quoted cid_str ++ codes " not found in store.")), server)
    | some found ↦ (content_node found (some cid) immutable, server)
  ]
  get_cid cid_str (some sub_str) cid server =
      if key_eq sub_str (codes "users")
      then (content_uris (map as_uri (store.list_names_using server.store cid)) mutable, server)
      else (not_found, server)

  unfoldable pub get_head : List ℕ → Server State → Reply State
  get_head head_str server =
      elim (store.resolve_optional server.store (head_name (record { name = head_str }))) [
        | none ↦ (
          not_in_store (codes "Head " ++ (quoted head_str ++ codes " not found in store.")),
          server,
        )
        | some cid ↦ (content_node (link cid) none mutable, server)
      ]

module _ {State : Type 0} (store : Store State) (request : Request) where
  -- POST /cid
  unfoldable pub post_cid : Server State → Reply State
  post_cid server = with_content request none server λ body.
      let (cid, after) = store.put server.store body in
      (
        created (
            some (record empty_uri { path_segments = codes "cid" ∷ as_string base64url cid ∷ [] })),
        record server { store = after },
      )

  unfoldable pub handle_request_cid : Option (List ℕ) → Option (List ℕ) → Server State → Reply State
  unfolding get_cid post_cid
  handle_request_cid (some cid_str) sub_str server =
      let found : Reply State = elim (Cid.parse cid_str) [
        | none ↦ (invalid_cid cid_str, server)
        | some cid ↦ get_cid store cid_str sub_str cid server
      ] in
      if is_method method_get request.method
      then found
      else (method_not_allowed (codes "GET, HEAD"), server)
  handle_request_cid none (some sub_str) server = (not_found, server)
  handle_request_cid none none server =
      if is_method method_post request.method
      then post_cid server
      else (method_not_allowed (codes "POST"), server)

module _ {State : Type 0} (store : Store State) (is_legal_utf8 : List ℕ → Bool)
    (request : Request) where
  unfoldable pub put_head : List ℕ → Server State → Reply State
  unfolding with_cid
  put_head head_str server =
      let stored = with_cid request server λ cid. (
        created none,
        record server {
          store = store.set server.store (head_name (record { name = head_str })) cid;
        },
      ) in
      if is_empty head_str || not (is_legal_utf8 head_str) then (invalid_string, server) else stored

  unfoldable pub handle_request_head : Option (List ℕ) → Server State → Reply State
  unfolding get_head put_head
  handle_request_head (some head_str) server =
      if is_method method_get request.method
      then get_head store head_str server
      else (if is_method method_put request.method
          then put_head head_str server
          else (method_not_allowed (codes "GET, HEAD, PUT"), server))
  handle_request_head none server =
      if is_method method_get request.method
      then (content_uris (map head_list_uri (store.each_head server.store)) mutable, server)
      else (method_not_allowed (codes "GET, HEAD"), server)

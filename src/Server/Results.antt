-- ===== src/Server/Results.antt =====
-- What each handler leaves of the server: memodb/lib/Server.cpp.
use bcdb.Prelude.{◌≡◌, ◌∙◌, Bool, true, false, ◌⊎◌, Option, none, if◌then◌else◌, inl, inr}
use bcdb.Cid.{Cid}
use bcdb.Node.{Node, null, boolean, int64, uint64, float, bytes, string, link, list}
use bcdb.Server.State.{Server, Reply, with_content, with_cid, expected_cid}
use bcdb.Server.Requests.{Response, created, deleted, Content, content, rejected, Request}
use bcdb.Server.Groups.{AllSound, IsKept, IsKept-self}

-- The responses that say that the store was changed.
abbrev pub reports_change : Response → Bool
reports_change (created path) = true
reports_change deleted = true
reports_change other = false

-- The groups keep their invariant, and the store changes only if the response says so.
pub record IsProper {State : Type 0} (before : Server State) (reply : Reply State) : Type 0 where
  pub reported : (reports_change reply.0 ≡ true) ⊎ (reply.1.store ≡ before.store)
  pub sound : AllSound before → AllSound reply.1

module _ {State : Type 0} where
  pub kept-IsProper :
      {before after : Server State} (response : Response)
      → IsKept before after
      → IsProper before (response, after)
  kept-IsProper response h = record { reported = inr h.store_same; sound = h.sound }

  pub same-IsProper :
      (response : Response) (server : Server State) → IsProper server (response, server)
  same-IsProper response server = kept-IsProper response (IsKept-self server)

  pub behind-IsProper :
      {before after : Server State} {reply : Reply State}
      → IsKept before after
      → IsProper after reply
      → IsProper before reply
  behind-IsProper {before} {after} {reply} h k = record {
    reported = reported_from k.reported;
    sound = λ all. k.sound (h.sound all);
  }
    where
      reported_from :
          (reports_change reply.0 ≡ true) ⊎ (reply.1.store ≡ after.store)
          → (reports_change reply.0 ≡ true) ⊎ (reply.1.store ≡ before.store)
      reported_from (inl e) = inl e
      reported_from (inr e) = inr (e ∙ h.store_same)

  pub if-IsProper :
      (b : Bool) (server : Server State) (x y : Reply State)
      → IsProper server x
      → IsProper server y
      → IsProper server (if b then x else y)
  if-IsProper true server x y h k = h
  if-IsProper false server x y h k = k

  pub map_or-IsProper :
      (body : Node) (server : Server State) (x y : Reply State)
      → IsProper server x
      → IsProper server y
      → IsProper server (elim body [ Node.map _ ↦ x | other ↦ y ])
  map_or-IsProper (Node.map _) server x y h k = h
  map_or-IsProper (link cid) server x y h k = k
  map_or-IsProper null server x y h k = k
  map_or-IsProper (boolean b) server x y h k = k
  map_or-IsProper (int64 i) server x y h k = k
  map_or-IsProper (uint64 n) server x y h k = k
  map_or-IsProper (float d) server x y h k = k
  map_or-IsProper (bytes bs) server x y h k = k
  map_or-IsProper (string str) server x y h k = k
  map_or-IsProper (list nodes) server x y h k = k

  module _ (request : Request) where
    pub with_content-IsProper :
        (default : Option Node) (server : Server State) (handle : Node → Reply State)
        → ((body : Node) → IsProper server (handle body))
        → IsProper server (with_content request default server handle)
    with_content-IsProper default server handle h = of_content (request.content_or default)
      where
        of_content :
            (c : Content)
            → IsProper server
                (elim c [ content body ↦ handle body | rejected response ↦ (response, server) ])
        of_content (content body) = h body
        of_content (rejected response) = same-IsProper response server

    pub with_cid-IsProper :
        (server : Server State) (handle : Cid → Reply State)
        → ((cid : Cid) → IsProper server (handle cid))
        → IsProper server (with_cid request server handle)
    unfolding with_cid
    with_cid-IsProper server handle h = with_content-IsProper none server _ λ body. of_body body
      where
        of_body :
            (body : Node)
            → IsProper server (elim body [ link cid ↦ handle cid | other ↦ (expected_cid, server) ])
        of_body (link cid) = h cid
        of_body null = same-IsProper expected_cid server
        of_body (boolean b) = same-IsProper expected_cid server
        of_body (int64 i) = same-IsProper expected_cid server
        of_body (uint64 n) = same-IsProper expected_cid server
        of_body (float d) = same-IsProper expected_cid server
        of_body (bytes bs) = same-IsProper expected_cid server
        of_body (string str) = same-IsProper expected_cid server
        of_body (list nodes) = same-IsProper expected_cid server
        of_body (Node.map _) = same-IsProper expected_cid server

-- ===== src/Server/Requests.antt =====
-- Requests and responses as the server sees them: memodb/include/memodb/Request.h. A response is
-- the `send` function that is called, with its arguments. getContentNode is a virtual function of
-- the request: it gives the node in the body, or it has sent an error of its own.
use bcdb.Cid.{Cid}
use bcdb.Node.{Node}
use bcdb.Prelude.{ℕ, Bool, true, false, Option, none, some, List, codes}
use bcdb.Uri.{Uri}

pub data Method : Type 0 where
  method_get method_post method_put method_delete : Method

pub data Status : Type 0 where
  bad_request status_not_found unsupported_media_type not_implemented service_unavailable : Status

pub data CacheControl : Type 0 where
  ephemeral mutable immutable : CacheControl

pub data Response : Type 0 where
  error : Status → Option (List ℕ) → List ℕ → Option (List ℕ) → Response
  method_not_allowed : List ℕ → Response
  content_node : Node → Option Cid → CacheControl → Response
  content_uris : List Uri → CacheControl → Response
  created : Option Uri → Response
  accepted deleted : Response

pub data Content : Type 0 where
  content : Node → Content
  rejected : Response → Content

pub record Request : Type 0 where
  pub method : Option Method
  pub uri : Option Uri
  pub content_or : Option Node → Content

-- `request.method == method`
abbrev pub is_method : Method → Option Method → Bool
is_method method_get (some method_get) = true
is_method method_post (some method_post) = true
is_method method_put (some method_put) = true
is_method method_delete (some method_delete) = true
is_method m other = false

-- The error responses that say no more than their status.
abbrev pub not_found : Response
not_found = error status_not_found none (codes "Not Found") none

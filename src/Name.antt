-- ===== src/Name.antt =====
-- The names of a store and their URIs: Head, Call and Name in memodb/lib/Store.cpp and
-- memodb/include/memodb/Store.h.
pub mod Chars
pub mod Slashes
pub mod Segments
pub mod RoundTrip
use bcdb.Cid.{Cid, as_string}
use bcdb.Cid
use bcdb.Multibase.{base64url}
use bcdb.Node.Map.{key_eq}
use bcdb.Prelude.Strings.{is_empty, split_all, join}
use bcdb.Prelude.{
  ℕ, zero, suc, Bool, true, false, ◌&&◌, ◌||◌, not, Option, none, some, List, [], ◌∷◌, map, ◌==◌,
  if◌then◌else◌, codes, ◌>>=?◌ as ◌>>=◌,
}
use bcdb.Uri
use bcdb.Uri.{Uri, empty_uri, get_path_string}

pub record Head : Type 0 where
  pub name : List ℕ

pub record Call : Type 0 where
  pub name : List ℕ
  pub args : List Cid

-- `Name` is a variant of the three.
pub data Name : Type 0 where
  cid_name : Cid → Name
  head_name : Head → Name
  call_name : Call → Name

-- Head::asURI
unfoldable pub head_uri : Head → Uri
head_uri head = record empty_uri {
  path_segments = codes "head" ∷ head.name ∷ [];
  escape_slashes_in_segments = false;
}

-- The loop of Call::asURI, less the last comma. With no argument `pop_back` is undefined in the
-- source, and the result is the empty string here.
unfoldable pub args_string : List Cid → List ℕ
args_string args = join b',' (map (as_string base64url) args)

-- Call::asURI
unfoldable pub call_uri : Call → Uri
call_uri call = record empty_uri {
  path_segments = codes "call" ∷ call.name ∷ args_string call.args ∷ [];
}

-- Name::asURI
unfoldable pub as_uri : Name → Uri
unfolding head_uri call_uri args_string
as_uri (cid_name cid) = record empty_uri {
  path_segments = codes "cid" ∷ as_string base64url cid ∷ [];
}
as_uri (head_name head) = head_uri head
as_uri (call_name call) = call_uri call

unfoldable pub parse_args : List (List ℕ) → Option (List Cid)
parse_args [] = some []
parse_args (arg_str ∷ arg_strs) = do
  arg ← Cid.parse arg_str
  args ← parse_args arg_strs
  some (arg ∷ args)

unfoldable pub head_of : List ℕ → Option Name
head_of name = if is_empty name then none else some (head_name (record { name = name }))

unfoldable pub call_of : List ℕ → List ℕ → Option Name
unfolding parse_args
call_of func_name args_str =
    let call = (do
      args ← parse_args (split_all b',' args_str)
      some (call_name (record { name = func_name; args = args }))) in
    if is_empty func_name then none else call

unfoldable pub cid_of_string : List ℕ → Option Name
cid_of_string cid_str = do cid ← Cid.parse cid_str; some (cid_name cid)

-- The chain of conditions on the segments.
unfoldable pub name_of_segments : Uri → List (List ℕ) → Option Name
unfolding head_of call_of cid_of_string
name_of_segments uri [] = none
name_of_segments uri (kind ∷ []) = none
name_of_segments uri (kind ∷ second ∷ []) =
    if key_eq kind (codes "head")
    then head_of (get_path_string 1 uri)
    else (if key_eq kind (codes "cid") then cid_of_string second else none)
name_of_segments uri (kind ∷ second ∷ third ∷ []) =
    if key_eq kind (codes "head")
    then head_of (get_path_string 1 uri)
    else (if key_eq kind (codes "call") then call_of second third else none)
name_of_segments uri (kind ∷ second ∷ third ∷ fourth ∷ more) =
    if key_eq kind (codes "head") then head_of (get_path_string 1 uri) else none

-- Name::parse
unfoldable pub parse : List ℕ → Option Name
unfolding name_of_segments
parse uri_str = do
  uri ← Uri.parse uri_str false
  if not (is_empty uri.scheme)
        || not (is_empty uri.host)
        || not (uri.port == 0)
        || is_empty uri.path_segments
        || uri.rootless
        || not (is_empty uri.query_params)
        || not (is_empty uri.fragment)
      then none
      else name_of_segments uri uri.path_segments

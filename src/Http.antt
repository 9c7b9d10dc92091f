-- ===== src/Http.antt =====
-- memodb/lib/HTTP.cpp and escapeForHTML of memodb/lib/Request.cpp: responses as HTTP. What the
-- virtual functions send is a list of the calls; a header of the request is `none` if it is missing.
-- What getAcceptQuality gives for each content type is an argument of `choose_node_content_type`.
pub mod Tags
pub mod Pages
pub mod Accept
use bcdb.Node.{Node, bytes}
use bcdb.Node.Map.{key_eq}
use bcdb.Prelude.Results.{Result, ok, invalid, stuck, ◌>>=◌}
use bcdb.Prelude.Strings.{contains, starts_with, split_once, lower}
use bcdb.Prelude.{
  ℕ, zero, suc, Bool, true, false, ◌&&◌, ◌||◌, not, Option, none, some, List, [], ◌∷◌, ◌++◌, length,
  drop, ltb, leb, ◌==◌, if◌then◌else◌, codes,
}
use bcdb.Server.Requests.{
  Method, method_get, method_post, method_put, method_delete, CacheControl, ephemeral, mutable,
  immutable,
}
use bcdb.Uri
use bcdb.Uri.{Uri}

-- StringRef's equals_insensitive.
abbrev pub equals_insensitive : List ℕ → List ℕ → Bool
equals_insensitive a b = key_eq (lower a) (lower b)

unfoldable pub parse_method : List ℕ → Option Method
parse_method str =
    if equals_insensitive str (codes "GET") || equals_insensitive str (codes "HEAD")
    then some method_get
    else (if equals_insensitive str (codes "POST")
        then some method_post
        else (if equals_insensitive str (codes "PUT")
            then some method_put
            else (if equals_insensitive str (codes "DELETE") then some method_delete else none)))

-- ltrim(" \t")
unfoldable pub ltrim : List ℕ → List ℕ
ltrim [] = []
ltrim (c ∷ str) = let rest = ltrim str in if c == 0x20 || c == 9 then rest else c ∷ str

abbrev pub skip_weak : List ℕ → List ℕ
skip_weak str = if starts_with str (codes "W/") then drop 2 str else str

-- The loop of hasIfNoneMatch. A round takes a quote at least.
unfoldable pub none_match_loop : ℕ → List ℕ → List ℕ → Result Bool
unfolding ltrim
none_match_loop zero etag remainder = stuck
none_match_loop (suc fuel) etag remainder =
    let trimmed = ltrim remainder in
    let opened = skip_weak trimmed in
    let (wanted, after) = split_once 0x22 (drop 1 opened) in
    let rest = ltrim after in
    let more = none_match_loop fuel etag (drop 1 rest) in
    let next = if starts_with rest (codes ",") then more else ok false in
    if starts_with trimmed (codes "*")
    then ok true
    else (if starts_with opened (0x22 ∷ []) && contains (drop 1 opened) 0x22
        then (if key_eq wanted etag then ok true else next)
        else ok false)

-- HTTPRequest::hasIfNoneMatch
unfoldable pub has_if_none_match : Option (List ℕ) → List ℕ → Result Bool
unfolding none_match_loop
has_if_none_match none etag = ok false
has_if_none_match (some header) etag = none_match_loop (suc (length header)) etag header

-- The calls of sendStatus, sendHeader, sendBody and sendEmptyBody.
pub data Sent : Type 0 where
  status : ℕ → Sent
  header : List ℕ → List ℕ → Sent
  body : List ℕ → Sent
  empty_body : Sent

unfoldable pub cache_value : CacheControl → List ℕ
cache_value ephemeral = codes "max-age=0, must-revalidate"
cache_value mutable = codes "max-age=0, must-revalidate"
cache_value immutable = codes "max-age=604800, immutable"

-- HTTPRequest::startResponse
unfoldable pub start_response : ℕ → CacheControl → List Sent
unfolding cache_value
start_response code cache_control =
    status code
    ∷ header (codes "Server") (codes "MemoDB")
    ∷ header (codes "Vary") (codes "Accept, Accept-Encoding")
    ∷ header (codes "Cache-Control") (cache_value cache_control)
    ∷ []

-- HTTPRequest::sendETag, of the hexadecimal digits of the etag; true if the response is complete.
unfoldable pub send_etag : Option (List ℕ) → List ℕ → CacheControl → Result (Bool × List Sent)
unfolding has_if_none_match start_response
send_etag if_none_match etag_str cache_control = do
  matched ← has_if_none_match if_none_match etag_str
  ok (
    matched,
    start_response (if matched then 304 else 200) cache_control
        ++ (header (codes "ETag") (0x22 ∷ (etag_str ++ (0x22 ∷ [])))
            ∷ (if matched then empty_body ∷ [] else [])),
  )

unfoldable pub send_accepted : List Sent
unfolding start_response
send_accepted = start_response 202 ephemeral ++ (empty_body ∷ [])

unfoldable pub send_deleted : List Sent
unfolding start_response
send_deleted = start_response 204 ephemeral ++ (empty_body ∷ [])

unfoldable pub send_created : Option Uri → List Sent
unfolding start_response
send_created none = start_response 201 ephemeral ++ (empty_body ∷ [])
send_created (some path) =
    start_response 201 ephemeral ++ (header (codes "Location") (Uri.encode path) ∷ empty_body ∷ [])

-- Request::ContentType of memodb/include/memodb/Request.h less Plain, whose quality is never asked
-- for.
pub data ContentType : Type 0 where
  octet_stream json cbor html problem_json : ContentType

abbrev is_bytes : Node → Bool
is_bytes (bytes str) = true
is_bytes other = false

-- HTTPRequest::chooseNodeContentType
unfoldable pub choose_node_content_type : (ContentType → ℕ) → Node → ContentType
choose_node_content_type quality node =
    if is_bytes node
      && ltb (quality json) (quality octet_stream)
      && leb (quality cbor) (quality octet_stream)
      && leb (quality html) (quality octet_stream)
    then octet_stream
    else (if ltb (quality cbor) (quality html) && ltb (quality json) (quality html)
        then html
        else (if ltb (quality json) (quality cbor) then cbor else json))

-- escapeForHTML
unfoldable pub escape_for_html : List ℕ → List ℕ
escape_for_html [] = []
escape_for_html (c ∷ str) =
    let rest = escape_for_html str in
    if c == b'<'
    then codes "&lt;" ++ rest
    else (if c == 0x22 then codes "&quot;" ++ rest else c ∷ rest)

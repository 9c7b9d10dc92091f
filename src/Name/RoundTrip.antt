-- ===== src/Name/RoundTrip.antt =====
-- The URI of a name names it: Name::asURI and Name::parse in memodb/lib/Store.cpp.

use bcdb.Cid.{Cid, as_string}
use bcdb.Cid.Text.{parse-as_string}
use bcdb.Multibase.{base64url}
use bcdb.Name.{
  Name, Head, Call, cid_name, head_name, call_name, as_uri, head_uri, call_uri, args_string, parse,
  name_of_segments, head_of, cid_of_string,
}
use bcdb.Name.Slashes.{percent_encode-slashes, split_all-All, contains→All, All→contains}
use bcdb.Node.Map.{key_eq}
use bcdb.Prelude.{
  ℕ, ◌≡◌, refl, ap, ◌∙◌, sym, false, some, List, [], ◌∷◌, ◌++◌, map, All, IsByte, ◌==◌, codes,
}
use bcdb.Prelude.Strings.{contains, is_empty, join, split_all, join-split_all, split_all-parts}
use bcdb.Uri
use bcdb.Uri.{
  Uri, encode, encode_scheme, encode_authority, encode_path, encode_query, encode_fragment,
  percent_encode, path_allowed, is_dot_segment, get_path_string,
}
use bcdb.Name.Segments.{
  IsEncodable, IsNameSegment, args_string-IsNameSegment, call_of-strings, cid_string-IsNameSegment,
  literal-IsNameSegment, literals, parse-path_uri, path_uri,
}

-- A head's URI is encoded like the URI of the segments of its name.
unfoldable pub head_segments : Head → List (List ℕ)
head_segments head = codes "head" ∷ split_all b'/' head.name

join_split :
    (f : List ℕ → List ℕ) (c : ℕ) (part str : List ℕ)
    → join c (part ∷ map f (split_all c str)) ≡ part ++ (c ∷ join c (map f (split_all c str)))
unfolding join
join_split f c part str = rw (split_all-parts c str) refl

pub encode-head_uri :
    (head : Head) → encode (head_uri head) ≡ encode (path_uri (head_segments head))
unfolding encode encode_scheme encode_authority encode_path encode_query encode_fragment head_uri
    head_segments percent_encode contains join
encode-head_uri head =
    rw (join_split (percent_encode path_allowed) b'/' (codes "head") head.name)
      (ap (λ t. codes "/head/" ++ (t ++ [])) (percent_encode-slashes head.name))

pub head_segments-IsNameSegment :
    (head : Head) → IsEncodable (head_name head) → All IsNameSegment (head_segments head)
unfolding head_segments IsEncodable
head_segments-IsNameSegment head (filled, bytes, colon, dots) = (
  literals.2,
  each (split_all b'/' head.name) (split_all-All IsByte b'/' head.name bytes)
      (split_all-All (λ e. (b':' == e) ≡ false) b'/' head.name (contains→All b':' head.name colon))
      dots,
)
  where
    each :
        (segments : List (List ℕ))
        → All (All IsByte) segments
        → All (All (λ e. (b':' == e) ≡ false)) segments
        → All (λ segment. is_dot_segment segment ≡ false) segments
        → All IsNameSegment segments
    each [] b c d = tt
    each (s ∷ segments) b c d =
        (literal-IsNameSegment s (b.0, All→contains b':' s c.0) d.0, each segments b.1 c.1 d.1)

name_of_segments-head :
    (uri : Uri) (second : List ℕ) (others : List (List ℕ))
    → name_of_segments uri (codes "head" ∷ second ∷ others) ≡ head_of (get_path_string 1 uri)
unfolding name_of_segments key_eq
name_of_segments-head uri second [] = refl
name_of_segments-head uri second (third ∷ []) = refl
name_of_segments-head uri second (third ∷ fourth ∷ more) = refl

pub get_path_string-head :
    (head : Head) → get_path_string 1 (path_uri (head_segments head)) ≡ head.name
unfolding get_path_string head_segments
get_path_string-head head = join-split_all b'/' head.name

-- A head's URI is read as the segments of the head's name.
pub parse-head_segments :
    (head : Head)
    → IsEncodable (head_name head)
    → Uri.parse (encode (head_uri head)) false ≡ some (path_uri (head_segments head))
parse-head_segments head h = rw (encode-head_uri head) (
    parse-path_uri (head_segments head) (head_segments-IsNameSegment head h)
      (unfold head_segments in refl))

head_of-path :
    (head : Head)
    → is_empty head.name ≡ false
    → head_of (get_path_string 1 (path_uri (head_segments head))) ≡ some (head_name head)
unfolding head_of get_path_string head_segments
head_of-path head filled = rw (join-split_all b'/' head.name, filled) refl

name_of_segments-head_segments :
    (uri : Uri) (head : Head)
    → name_of_segments uri (head_segments head) ≡ head_of (get_path_string 1 uri)
unfolding head_segments
name_of_segments-head_segments uri head =
    ap (λ t. name_of_segments uri (codes "head" ∷ t)) (split_all-parts b'/' head.name)
    ∙ name_of_segments-head uri _ _

parse-head_uri :
    (head : Head)
    → IsEncodable (head_name head)
    → parse (encode (head_uri head)) ≡ some (head_name head)
unfolding parse IsEncodable
parse-head_uri head h =
    let filled : is_empty (head_segments head) ≡ false = unfold head_segments in refl in
    rw
      (
        encode-head_uri head,
        parse-path_uri (head_segments head) (head_segments-IsNameSegment head h)
            (unfold head_segments in refl),
        filled,
        name_of_segments-head_segments (path_uri (head_segments head)) head,
      )
      (head_of-path head h.0)

parse-call_uri :
    (name : List ℕ) (args : List Cid)
    → (call : Call) → call ≡ record { name = name; args = args }
    → IsEncodable (call_name (record { name = name; args = args }))
    → parse (encode (call_uri (record { name = name; args = args }))) ≡ some (call_name call)
unfolding parse call_uri name_of_segments key_eq IsEncodable
parse-call_uri name [] call e h = absurd (cc)
parse-call_uri name (arg ∷ args) call e (filled, bytes, colon, dots, some_arg, loadable) =
    rw
      (
        parse-path_uri (codes "call" ∷ name ∷ args_string (arg ∷ args) ∷ [])
            (
              literals.1,
              (
                literal-IsNameSegment name (bytes, colon) dots,
                (args_string-IsNameSegment arg args, tt),
              ),
            )
            refl,
        call_of-strings name arg args filled loadable,
      )
      (ap (λ t. some (call_name t)) (sym e))

-- The URI of a name, encoded, is parsed back to the name: always for a valid CID; for a head whose
-- name is not empty, has no colon and has no segment of one or two dots; and for a call with a
-- valid CID as an argument at least, and a function's name that is not empty, has no colon and is
-- not one or two dots. The bytes of the names and of the CIDs are below 256.
pub parse-as_uri : (name : Name) → IsEncodable name → parse (encode (as_uri name)) ≡ some name
unfolding parse as_uri name_of_segments cid_of_string key_eq IsEncodable
parse-as_uri (cid_name cid) h =
    rw
      (
        parse-path_uri (codes "cid" ∷ as_string base64url cid ∷ [])
            (literals.0, (cid_string-IsNameSegment cid, tt)) refl,
        parse-as_string 6 cid refl h.0 h.1,
      )
      refl
parse-as_uri (head_name head) h = parse-head_uri head h
parse-as_uri (call_name call) h = parse-call_uri call.name call.args call refl h

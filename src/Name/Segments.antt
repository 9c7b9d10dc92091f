-- ===== src/Name/Segments.antt =====
-- The segments of a name's URI: memodb/lib/Store.cpp.

use bcdb.Cid.{Cid, as_string}
use bcdb.Cid.Load.{IsValid}
use bcdb.Cid.Text.{parse-as_string}
use bcdb.Multibase
use bcdb.Multibase.{base64url}
use bcdb.Name.{Name, cid_name, head_name, call_name, args_string, parse_args, call_of}
use bcdb.Name.Chars.{as_string-IsPlain, plain-IsByte, plain-contains}
use bcdb.Node.Map.{key_eq}
use bcdb.Prelude.{
  ℕ, ◌≡◌, refl, true, false, some, List, [], ◌∷◌, append-nil, map, All, All-append, IsByte, arith,
  codes,
}
use bcdb.Prelude.Strings.{contains, is_empty, lower, join, split_all, split_all-join}
use bcdb.Uri
use bcdb.Uri.{
  Uri, empty_uri, encode, encode_scheme, encode_authority, encode_path, encode_query,
  encode_fragment, percent_encode, path_allowed, is_dot_segment, get_path_string,
}
use bcdb.Uri.Encoded.{IsSegment, percent_encode-contains, join-contains}
use bcdb.Uri.Path.{starts_filled}
use bcdb.Uri.RoundTrip.{IsNormal, parse-encode}

-- A path from the root, and nothing else.
abbrev pub path_uri : List (List ℕ) → Uri
path_uri segments = record empty_uri { path_segments = segments }

abbrev pub NoColon : List ℕ → Type 0
NoColon str = contains str b':' ≡ false

-- A segment that a URI without a scheme may hold.
abbrev pub IsNameSegment : List ℕ → Type 0
IsNameSegment segment = IsSegment false segment × NoColon segment

module _ (segments : List (List ℕ)) (h : All IsNameSegment segments)
    (start : starts_filled segments ≡ true) where
  path_uri-contains : contains (encode (path_uri segments)) b':' ≡ false
  unfolding encode encode_scheme encode_authority encode_path encode_query encode_fragment contains
  path_uri-contains =
      rw (append-nil (join b'/' (map (percent_encode path_allowed) segments)))
        (join-contains b'/' b':' _ refl (each segments h))
    where
      each :
          (segments : List (List ℕ))
          → All IsNameSegment segments
          → All NoColon (map (percent_encode path_allowed) segments)
      each [] h = tt
      each (s ∷ segments) h =
          (percent_encode-contains path_allowed s b':' h.0.0.0 refl h.0.1, each segments h.1)

  path_uri-IsNormal : IsNormal false (path_uri segments)
  path_uri-IsNormal = record {
    scheme_lower = unfold lower in refl;
    scheme_colon = unfold contains in refl;
    no_scheme = λ e. path_uri-contains;
    host_bytes = tt;
    host_lower = unfold lower in refl;
    host_colon = unfold contains in refl;
    host_bracket = unfold contains in refl;
    port_fits = omega arith;
    root = refl;
    segments = each segments h;
    segments_start = start;
    params = tt;
    params_start = refl;
    fragment_bytes = tt;
    escapes = refl;
  }
    where
      each :
          (segments : List (List ℕ)) → All IsNameSegment segments → All (IsSegment false) segments
      each [] h = tt
      each (s ∷ segments) h = (h.0.0, each segments h.1)

  pub parse-path_uri : Uri.parse (encode (path_uri segments)) false ≡ some (path_uri segments)
  parse-path_uri = parse-encode false (path_uri segments) path_uri-IsNormal

join-All {ℓ} :
    (P : ℕ → Type ℓ) (c : ℕ) (parts : List (List ℕ))
    → P c
    → All (All P) parts
    → All P (join c parts)
unfolding join
join-All P c [] p h = tt
join-All P c (part ∷ []) p h = h.0
join-All P c (part ∷ next ∷ parts) p h =
    All-append P part _ h.0 (p, join-All P c (next ∷ parts) p h.1)

abbrev pub IsLoadable : Cid → Type 0
IsLoadable cid = IsValid cid × All IsByte cid.bytes

-- The names that their URIs name: a head's name and a function's name have no colon and no segment
-- of one or two dots, and a call has an argument.
unfoldable pub IsEncodable : Name → Type 0
IsEncodable (cid_name cid) = IsLoadable cid
IsEncodable (head_name head) =
    (is_empty head.name ≡ false)
    × All IsByte head.name
    × NoColon head.name
    × All (λ segment. is_dot_segment segment ≡ false) (split_all b'/' head.name)
IsEncodable (call_name call) =
    (is_empty call.name ≡ false)
    × All IsByte call.name
    × NoColon call.name
    × (is_dot_segment call.name ≡ false)
    × (is_empty call.args ≡ false)
    × All IsLoadable call.args

pub literal-IsNameSegment :
    (segment : List ℕ)
    → (All IsByte segment × NoColon segment)
    → is_dot_segment segment ≡ false
    → IsNameSegment segment
literal-IsNameSegment segment h e = ((h.0, rw e refl), h.1)

parse_args-strings :
    (args : List Cid)
    → All IsLoadable args
    → parse_args (map (as_string base64url) args) ≡ some args
unfolding parse_args
parse_args-strings [] h = refl
parse_args-strings (arg ∷ args) h =
    rw (parse-as_string 6 arg refl h.0.0 h.0.1, parse_args-strings args h.1) refl

strings-IsByte : (args : List Cid) → All (All IsByte) (map (as_string base64url) args)
strings-IsByte [] = tt
strings-IsByte (arg ∷ args) = (plain-IsByte _ (as_string-IsPlain arg), strings-IsByte args)

strings-contains :
    (d : ℕ) (args : List Cid)
    → contains (codes ":,./") d ≡ true
    → All (λ str. contains str d ≡ false) (map (as_string base64url) args)
strings-contains d [] e = tt
strings-contains d (arg ∷ args) e =
    (plain-contains d _ e (as_string-IsPlain arg), strings-contains d args e)

args_string-not_dot :
    (arg : Cid) (args : List Cid) → is_dot_segment (args_string (arg ∷ args)) ≡ false
unfolding args_string join as_string Multibase.encode key_eq
args_string-not_dot arg [] = refl
args_string-not_dot arg (next ∷ args) = refl

pub args_string-IsNameSegment :
    (arg : Cid) (args : List Cid) → IsNameSegment (args_string (arg ∷ args))
unfolding args_string contains
args_string-IsNameSegment arg args =
    let bytes = join-All IsByte b',' _ (omega arith) (strings-IsByte (arg ∷ args)) in
    let colon = join-contains b',' b':' _ refl (strings-contains b':' (arg ∷ args) refl) in
    literal-IsNameSegment (args_string (arg ∷ args)) (bytes, colon) (args_string-not_dot arg args)

pub call_of-strings :
    (name : List ℕ) (arg : Cid) (args : List Cid)
    → is_empty name ≡ false
    → All IsLoadable (arg ∷ args)
    → call_of name (args_string (arg ∷ args))
      ≡ some (call_name (record { name = name; args = arg ∷ args }))
unfolding call_of args_string contains
call_of-strings name arg args e h =
    rw
      (
        e,
        split_all-join b',' (as_string base64url arg) (map (as_string base64url) args)
            (strings-contains b',' (arg ∷ args) refl),
        parse_args-strings (arg ∷ args) h,
      )
      refl

pub cid_string-IsNameSegment : (cid : Cid) → IsNameSegment (as_string base64url cid)
unfolding contains
cid_string-IsNameSegment cid =
    let plain = as_string-IsPlain cid in
    literal-IsNameSegment (as_string base64url cid)
      (plain-IsByte _ plain, plain-contains b':' _ refl plain)
      (unfold as_string Multibase.encode key_eq in refl)

pub literals :
    IsNameSegment (codes "cid") × IsNameSegment (codes "call") × IsNameSegment (codes "head")
unfolding contains key_eq
literals =
    ((((omega arith), refl), refl), (((omega arith), refl), refl), (((omega arith), refl), refl))

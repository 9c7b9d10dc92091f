-- ===== src/Uri/Path.antt =====
-- The path, the query and the fragment of an encoded URI, read back: memodb/lib/URI.cpp.
use bcdb.Prelude.{
  ℕ, ◌<◌, ◌^◌, ◌≡◌, refl, ap, ◌∙◌, Bool, true, false, ◌&&◌, not, some, List, [], ◌∷◌, ◌++◌, map,
  append-nil, append_assoc, All, IsByte, ◌==◌, if◌then◌else◌, arith, Bool-cases, inl, inr, codes,
}
use bcdb.Prelude.Strings.{
  contains, is_empty, starts_with, join, split_once, split_all, split_once-found, split_once-absent,
}
use bcdb.Prelude.Decimal.{decimal, read_decimal, read_decimal-decimal}
use bcdb.Uri.{
  read_port, parse_segments, parse_params, decode_segments, split_root, percent_encode,
  encode_query, encode_fragment, path_allowed, query_allowed, fragment_allowed,
}
use bcdb.Uri.Encoded.{
  IsSegment, NotFirst, NotFirst-append, percent_encode-contains, percent_encode-is_empty,
  decode_segments-join, encoded_join-contains,
}
use bcdb.Uri.Authority.{stops, port_string}

-- No segment in front of the others is empty.
abbrev pub starts_filled : List (List ℕ) → Bool
starts_filled [] = true
starts_filled (part ∷ parts) = not (is_empty part)

-- One parameter that is empty, which is written like no parameter.
abbrev pub is_blank : List (List ℕ) → Bool
is_blank [] = false
is_blank (part ∷ []) = is_empty part
is_blank (part ∷ next ∷ parts) = false

abbrev pub encoded_path : List (List ℕ) → List ℕ
encoded_path segments = join b'/' (map (percent_encode path_allowed) segments)

-- What follows the path.
abbrev pub tail : List (List ℕ) → List ℕ → List ℕ
tail params fragment = encode_query params ++ encode_fragment fragment

pub tail-stops : (params : List (List ℕ)) (fragment : List ℕ) → stops (tail params fragment) ≡ true
unfolding encode_query encode_fragment contains
tail-stops [] [] = refl
tail-stops [] (c ∷ fragment) = refl
tail-stops (param ∷ params) fragment = refl

pub tail-NotFirst :
    (params : List (List ℕ)) (fragment : List ℕ) → NotFirst b'/' (tail params fragment)
unfolding encode_query encode_fragment starts_with
tail-NotFirst [] [] = refl
tail-NotFirst [] (c ∷ fragment) = refl
tail-NotFirst (param ∷ params) fragment = refl

join-is_empty :
    (c : ℕ) (part : List ℕ) (parts : List (List ℕ))
    → is_empty (join c (part ∷ parts)) ≡ (is_empty part && is_empty parts)
unfolding join
join-is_empty c [] [] = refl
join-is_empty c (d ∷ part) [] = refl
join-is_empty c [] (next ∷ parts) = refl
join-is_empty c (d ∷ part) (next ∷ parts) = refl

segment-NotFirst :
    (part rest : List ℕ)
    → All IsByte part
    → not (is_empty part) ≡ true
    → NotFirst b'/' (percent_encode path_allowed part ++ rest)
unfolding contains
segment-NotFirst part rest h k =
    NotFirst-append b'/' (percent_encode path_allowed part) rest
      (percent_encode-is_empty path_allowed part ∙ ground arith)
      (percent_encode-contains path_allowed part b'/' h refl refl)

-- A path without its first slash starts with none, whatever follows the path.
pub path-NotFirst :
    (allow : Bool) (segments : List (List ℕ)) (rest : List ℕ)
    → All (IsSegment allow) segments
    → starts_filled segments ≡ true
    → NotFirst b'/' rest
    → NotFirst b'/' (encoded_path segments ++ rest)
unfolding join
path-NotFirst allow [] rest h k l = l
path-NotFirst allow (part ∷ []) rest h k l = segment-NotFirst part rest h.0.0 k
path-NotFirst allow (part ∷ next ∷ parts) rest h k l =
    rw (append_assoc (percent_encode path_allowed part) (b'/' ∷ encoded_path (next ∷ parts)) rest)
      (segment-NotFirst part _ h.0.0 k)

parse_segments-filled :
    (allow : Bool) (path : List ℕ)
    → is_empty path ≡ false
    → parse_segments allow path ≡ decode_segments allow (split_all b'/' path)
unfolding parse_segments
parse_segments-filled allow [] h = absurd (cc)
parse_segments-filled allow (c ∷ path) h = refl

parse_params-filled :
    (query : List ℕ)
    → is_empty query ≡ false
    → parse_params query ≡ decode_segments true (split_all b'&' query)
unfolding parse_params
parse_params-filled [] h = absurd (cc)
parse_params-filled (c ∷ query) h = refl

pub parse_segments-path :
    (allow : Bool) (segments : List (List ℕ))
    → All (IsSegment allow) segments
    → starts_filled segments ≡ true
    → parse_segments allow (encoded_path segments) ≡ some segments
unfolding contains
parse_segments-path allow [] h k = unfold parse_segments join in refl
parse_segments-path allow (part ∷ parts) h k =
    let filled : is_empty (encoded_path (part ∷ parts)) ≡ false =
      join-is_empty b'/' _ _ ∙ rw (percent_encode-is_empty path_allowed part) ground arith in
    parse_segments-filled allow _ filled
    ∙ decode_segments-join path_allowed b'/' refl refl refl allow part parts h

-- The query without its question mark.
abbrev pub encoded_params : List (List ℕ) → List ℕ
encoded_params params = join b'&' (map (percent_encode query_allowed) params)

pub parse_params-params :
    (params : List (List ℕ))
    → All (IsSegment true) params
    → is_blank params ≡ false
    → parse_params (encoded_params params) ≡ some params
unfolding contains
parse_params-params [] h k = unfold parse_params join in refl
parse_params-params (part ∷ parts) h k =
    let filled : is_empty (encoded_params (part ∷ parts)) ≡ false =
      join-is_empty b'&' _ _ ∙ rw (percent_encode-is_empty query_allowed part) (blank parts k) in
    parse_params-filled _ filled
    ∙ decode_segments-join query_allowed b'&' refl refl refl true part parts h
  where
    blank :
        (parts : List (List ℕ))
        → is_blank (part ∷ parts) ≡ false
        → (is_empty part && is_empty (map (percent_encode query_allowed) parts)) ≡ false
    blank [] k = ground arith
    blank (next ∷ parts) k = ground arith

-- The path, the query and the fragment apart.
pub split_fragment :
    (before fragment : List ℕ)
    → contains before b'#' ≡ false
    → split_once b'#' (before ++ encode_fragment fragment)
      ≡ (before, percent_encode fragment_allowed fragment)
unfolding encode_fragment
split_fragment before [] h =
    rw (append-nil before) (split_once-absent b'#' before h ∙ unfold percent_encode in refl)
split_fragment before (c ∷ fragment) h = split_once-found b'#' before _ h

pub split_query :
    (path : List ℕ) (params : List (List ℕ))
    → contains path b'?' ≡ false
    → split_once b'?' (path ++ encode_query params) ≡ (path, encoded_params params)
unfolding encode_query
split_query path [] h = rw (append-nil path) (split_once-absent b'?' path h ∙ unfold join in refl)
split_query path (param ∷ params) h = split_once-found b'?' path _ h

pub read_port-string : (port : ℕ) → port < 2 ^ 32 → read_port (port_string port) ≡ some port
read_port-string port h = elim (Bool-cases (port == 0)) [
  | inl z ↦ rw z (unfold read_port in ap some (ground arith))
  | inr z ↦ rw z (as_read (decimal port) (read_decimal-decimal (2 ^ 32) port (omega arith) h))
]
  where
    as_read : (str : List ℕ) {v : ℕ} → read_decimal (2 ^ 32) str ≡ some v → read_port str ≡ some v
    as_read [] e = unfold read_decimal in absurd (cc)
    as_read (c ∷ str) e = unfold read_port in e

pub split_root-path :
    (path : List ℕ) (rootless : Bool)
    → NotFirst b'/' path
    → split_root (if rootless then path else b'/' ∷ path) ≡ (rootless, path)
unfolding split_root starts_with
split_root-path [] true h = refl
split_root-path (c ∷ path) true h = ground arith
split_root-path path false h = refl

pub slashes : (str : List ℕ) → NotFirst b'/' str → starts_with str (codes "//") ≡ false
unfolding starts_with
slashes [] h = refl
slashes (c ∷ str) h = ground arith

pub query-contains :
    (params : List (List ℕ))
    → All (IsSegment true) params
    → contains (encode_query params) b'#' ≡ false
unfolding encode_query contains
query-contains [] h = refl
query-contains (param ∷ params) h =
    encoded_join-contains query_allowed b'&' b'#' true (param ∷ params) refl refl refl h

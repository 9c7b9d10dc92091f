-- ===== src/Uri/RoundTrip.antt =====
-- What URI::encode writes of a URI in normal form, URI::parse reads back: memodb/lib/URI.cpp.
use bcdb.Prelude.{
  ℕ, ◌<◌, ◌^◌, ◌≡◌, refl, sym, Bool, true, false, ◌&&◌, not, some, List, [], ◌∷◌, ◌++◌, append-nil,
  append_assoc, All, IsByte, ◌==◌, if◌then◌else◌, arith, Bool-cases, inl, inr, codes,
}
use bcdb.Prelude.Strings.{
  contains, is_empty, starts_with, lower, join, split_once, contains-append_none,
}
use bcdb.Uri.{
  Uri, parse, encode, percent_encode, encode_scheme, encode_authority, encode_path, encode_query,
  encode_fragment, host_allowed, path_allowed, fragment_allowed,
}
use bcdb.Uri.Encoded.{
  IsSegment, NotFirst, NotFirst-append, contains→NotFirst, percent_encode-contains,
  percent_encode-is_empty, decode_segments-join, encoded_join-contains,
}
use bcdb.Uri.Encoded
use bcdb.Uri.Percent.{decode-encode_with}
use bcdb.Uri.Authority.{
  has_authority, stops, is_empty→nil, split_scheme-encode, split_authority-encode,
}
use bcdb.Uri.Path.{
  starts_filled, is_blank, encoded_path, tail, tail-stops, tail-NotFirst, path-NotFirst,
  parse_segments-path, parse_params-params, split_fragment, split_query, read_port-string,
  split_root-path, slashes, query-contains,
}

-- The URIs that one string stands for. Those without a scheme hold no colon, and those with an
-- authority have a path from the root or none.
pub record IsNormal (allow_dot_segments : Bool) (uri : Uri) : Type 0 where
  pub scheme_lower : lower uri.scheme ≡ uri.scheme
  pub scheme_colon : contains uri.scheme b':' ≡ false
  pub no_scheme : is_empty uri.scheme ≡ true → contains (encode uri) b':' ≡ false
  pub host_bytes : All IsByte uri.host
  pub host_lower : lower uri.host ≡ uri.host
  pub host_colon : contains uri.host b':' ≡ false
  pub host_bracket : contains uri.host b'[' ≡ false
  pub port_fits : uri.port < 2 ^ 32
  pub root : (has_authority uri && (uri.rootless && not (is_empty uri.path_segments))) ≡ false
  pub segments : All (IsSegment allow_dot_segments) uri.path_segments
  pub segments_start : starts_filled uri.path_segments ≡ true
  pub params : All (IsSegment true) uri.query_params
  pub params_start : is_blank uri.query_params ≡ false
  pub fragment_bytes : All IsByte uri.fragment
  pub escapes : uri.escape_slashes_in_segments ≡ true

abbrev rooted_path : Uri → List ℕ
rooted_path uri =
    if uri.rootless then encoded_path uri.path_segments else b'/' ∷ encoded_path uri.path_segments

module _ (allow : Bool) (uri : Uri) (normal : IsNormal allow uri) where
  path_and_tail : List ℕ
  path_and_tail = rooted_path uri ++ tail uri.query_params uri.fragment

  bare_path-NotFirst :
      (rest : List ℕ) → NotFirst b'/' rest → NotFirst b'/' (encoded_path uri.path_segments ++ rest)
  bare_path-NotFirst rest h =
      path-NotFirst allow uri.path_segments rest normal.segments normal.segments_start h

  no_authority : has_authority uri ≡ false → starts_with path_and_tail (codes "//") ≡ false
  unfolding path_and_tail starts_with
  no_authority h = elim (Bool-cases uri.rootless) [
    | inl r ↦ rw r (
        slashes (encoded_path uri.path_segments ++ tail uri.query_params uri.fragment) (
          bare_path-NotFirst (tail uri.query_params uri.fragment)
            (tail-NotFirst uri.query_params uri.fragment)))
    | inr r ↦ rw r (
        bare_path-NotFirst (tail uri.query_params uri.fragment)
          (tail-NotFirst uri.query_params uri.fragment))
  ]

  path-stops : has_authority uri ≡ true → stops path_and_tail ≡ true
  unfolding path_and_tail contains join
  path-stops h = elim (Bool-cases uri.rootless) [
    | inl r ↦
        rw (r, is_empty→nil uri.path_segments (no_segments r))
          (tail-stops uri.query_params uri.fragment)
    | inr r ↦ rw r refl
  ]
    where
      no_segments : uri.rootless ≡ true → is_empty uri.path_segments ≡ true
      no_segments r = let root = normal.root in ground arith

  path-contains :
      (d : ℕ)
      → contains path_allowed d ≡ false
      → contains Encoded.escape_chars d ≡ false
      → (d == b'/') ≡ false
      → contains (rooted_path uri) d ≡ false
  unfolding contains
  path-contains d h k e =
      let bare =
        encoded_join-contains path_allowed b'/' d allow uri.path_segments h k e normal.segments in
      elim (Bool-cases uri.rootless) [ inl r ↦ rw r bare | inr r ↦ rw (r, e) bare ]

  encode-parts : encode uri ≡ encode_scheme uri.scheme ++ (encode_authority uri ++ path_and_tail)
  unfolding encode encode_path path_and_tail
  encode-parts = rw normal.escapes refl

  parts-split : split_once b'#' path_and_tail ≡ (
    rooted_path uri ++ encode_query uri.query_params,
    percent_encode fragment_allowed uri.fragment,
  )
  unfolding path_and_tail contains
  parts-split =
      let before =
        contains-append_none (rooted_path uri) (encode_query uri.query_params) b'#'
          (path-contains b'#' refl refl refl) (query-contains uri.query_params normal.params) in
      rw
        (sym (
          append_assoc (rooted_path uri) (encode_query uri.query_params)
            (encode_fragment uri.fragment)))
        (split_fragment (rooted_path uri ++ encode_query uri.query_params) uri.fragment before)

  -- What URI::encode writes of a URI in normal form, URI::parse reads back. In normal form a URI
  -- that has no scheme is encoded without a colon, the scheme and the host are lowercase and have no
  -- colon, the host has no bracket, the port fits 32 bits, no path has an empty first segment or,
  -- unless `allow` is set, a dot segment, a path behind an authority starts at the root, the only
  -- query parameter is not empty, slashes in segments are escaped, and every string consists of
  -- bytes.
  pub parse-encode : parse (encode uri) allow ≡ some uri
  unfolding parse contains
  parse-encode =
      let bare =
        rw (append-nil (encoded_path uri.path_segments)) at
          (bare_path-NotFirst [] (unfold starts_with in refl)) in
      let colon : is_empty uri.scheme ≡ true
          → contains (encode_scheme uri.scheme ++ (encode_authority uri ++ path_and_tail)) b':'
            ≡ false =
        λ e. rw (sym encode-parts) (normal.no_scheme e) in
      rw
        (
          encode-parts,
          split_scheme-encode uri.scheme _ normal.scheme_lower normal.scheme_colon colon,
          split_authority-encode uri path_and_tail normal.host_bytes normal.host_lower
              normal.host_colon normal.host_bracket no_authority path-stops,
          parts-split,
          split_query (rooted_path uri) uri.query_params (path-contains b'?' refl refl refl),
          decode-encode_with host_allowed refl uri.host normal.host_bytes,
          read_port-string uri.port normal.port_fits,
          decode-encode_with fragment_allowed refl uri.fragment normal.fragment_bytes,
          split_root-path (encoded_path uri.path_segments) uri.rootless bare,
          parse_segments-path allow uri.path_segments normal.segments normal.segments_start,
          parse_params-params uri.query_params normal.params normal.params_start,
          normal.host_lower,
        )
        (λ i. some (record uri { escape_slashes_in_segments = sym normal.escapes i }))

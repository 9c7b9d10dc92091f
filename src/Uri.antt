-- ===== src/Uri.antt =====
-- memodb/lib/URI.cpp and memodb/include/memodb/URI.h. Strings are lists of bytes, and the functions
-- of StringRef on them are those of Prelude/Strings: getAsInteger reads two hexadecimal digits of
-- either case here, and a decimal number below 2 ^ 32 for the port.
pub mod Percent
pub mod Encoded
pub mod Authority
pub mod Path
pub mod RoundTrip
use bcdb.Prelude.Strings.{
  contains, is_empty, starts_with, split_once, split_before, split_all, join, lower,
}
use bcdb.Prelude.Decimal.{decimal, read_decimal}
use bcdb.Node.Map.{key_eq}
use bcdb.Prelude.{
  ℕ, zero, suc, ◌+◌, ◌-◌, ◌*◌, ◌/◌, ◌%◌, ◌^◌, bit_and, Bool, true, false, ◌&&◌, ◌||◌, not, Option,
  none, some, List, [], ◌∷◌, ◌++◌, map, drop, get_or, leb, ◌==◌, if◌then◌else◌, codes,
  ◌>>=?◌ as ◌>>=◌,
}

abbrev pub hex_digits : List ℕ
hex_digits = codes "0123456789ABCDEF"

abbrev pub host_allowed : List ℕ
host_allowed =
    codes "!$&'()*+,-.0123456789:;=ABCDEFGHIJKLMNOPQRSTUVWXYZ[]_abcdefghijklmnopqrstuvvwxyz~"

abbrev pub path_allowed : List ℕ
path_allowed =
    codes "!$&'()*+,-.0123456789:;=@ABCDEFGHIJKLMNOPQRSTUVWXYZ_abcdefghijklmnopqrstuvwxyz~"

abbrev pub path_allowed_with_slash : List ℕ
path_allowed_with_slash =
    codes "!$&'()*+,-./0123456789:;=@ABCDEFGHIJKLMNOPQRSTUVWXYZ_abcdefghijklmnopqrstuvwxyz~"

abbrev pub query_allowed : List ℕ
query_allowed =
    codes "!$'()*+,-./0123456789:;=?@ABCDEFGHIJKLMNOPQRSTUVWXYZ_abcdefghijklmnopqrstuvwxyz~"

abbrev pub fragment_allowed : List ℕ
fragment_allowed =
    codes "!$&'()*+,-./0123456789:;=?@ABCDEFGHIJKLMNOPQRSTUVWXYZ_abcdefghijklmnopqrstuvwxyz~"

-- The alphabets that URI::encode uses.
abbrev pub alphabets : List (List ℕ)
alphabets =
    host_allowed ∷ path_allowed ∷ path_allowed_with_slash ∷ query_allowed ∷ fragment_allowed ∷ []

unfoldable pub percent_encode : List ℕ → List ℕ → List ℕ
percent_encode allowed [] = []
percent_encode allowed (c ∷ str) =
    let rest = percent_encode allowed str in
    if contains allowed c
    then c ∷ rest
    else b'%' ∷ get_or hex_digits (c / 2 ^ 4) 0 ∷ get_or hex_digits (bit_and c 0xf) 0 ∷ rest

unfoldable pub hex_value : ℕ → Option ℕ
hex_value c =
    if leb b'0' c && leb c b'9'
    then some (c - b'0')
    else (if leb b'A' c && leb c b'F'
        then some (c - b'A' + 10)
        else (if leb b'a' c && leb c b'f' then some (c - b'a' + 10) else none))

-- `none` stands for percent_decoding_error, which makes URI::parse give std::nullopt.
unfoldable pub percent_decode : List ℕ → Option (List ℕ)
unfolding hex_value
percent_decode [] = some []
percent_decode (c ∷ []) = if c == b'%' then none else some (c ∷ [])
percent_decode (c ∷ d ∷ []) =
    let more = (do rest ← percent_decode (d ∷ []); some (c ∷ rest)) in
    if c == b'%' then none else more
percent_decode (c ∷ d ∷ e ∷ str) = elim (c == b'%') [
  | true ↦ do
    high ← hex_value d
    low ← hex_value e
    rest ← percent_decode str
    some ((high * 16 + low) ∷ rest)
  | false ↦ do rest ← percent_decode (d ∷ e ∷ str); some (c ∷ rest)
]

pub record Uri : Type 0 where
  pub scheme : List ℕ
  pub host : List ℕ
  pub fragment : List ℕ
  pub port : ℕ
  pub rootless : Bool
  pub path_segments : List (List ℕ)
  pub query_params : List (List ℕ)
  pub escape_slashes_in_segments : Bool

-- URI{}: the default member initializers.
abbrev pub empty_uri : Uri
empty_uri = record {
  scheme = [];
  host = [];
  fragment = [];
  port = 0;
  rootless = false;
  path_segments = [];
  query_params = [];
  escape_slashes_in_segments = true;
}

-- The scheme and what follows its colon.
unfoldable pub split_scheme : List ℕ → List ℕ × List ℕ
split_scheme str =
    let (scheme, rest) = split_once b':' str in
    if contains str b':' then (lower scheme, rest) else ([], str)

-- `authority_ref.startswith("[")`: the host with its brackets, and the port behind a colon. An
-- empty `port_ref` stays empty, where LLVM's assertions are off.
unfoldable pub split_bracketed : List ℕ → Option (List ℕ × List ℕ)
split_bracketed authority =
    let (host, port) = split_once b']' authority in
    let result = some (host ++ (b']' ∷ []), drop 1 port) in
    if contains authority b']' && (is_empty port || starts_with port (b':' ∷ []))
    then result
    else none

-- The host and the port.
unfoldable pub split_host : List ℕ → Option (List ℕ × List ℕ)
unfolding split_bracketed
split_host authority =
    if contains authority b'@'
    then none
    else (if starts_with authority (b'[' ∷ [])
        then split_bracketed authority
        else some (split_once b':' authority))

-- The host, the port and what follows them.
unfoldable pub split_authority : List ℕ → Option (List ℕ × List ℕ × List ℕ)
unfolding split_host
split_authority str =
    let (authority, rest) = split_before (codes "/?#") (drop 2 str) in
    let found = (do (host, port) ← split_host authority; some (host, port, rest)) in
    if starts_with str (codes "//") then found else some ([], [], str)

unfoldable pub read_port : List ℕ → Option ℕ
read_port [] = some 0
read_port (c ∷ port) = read_decimal (2 ^ 32) (c ∷ port)

abbrev pub is_dot_segment : List ℕ → Bool
is_dot_segment segment = key_eq segment (codes ".") || key_eq segment (codes "..")

-- The loop over the segments.
unfoldable pub decode_segments : Bool → List (List ℕ) → Option (List (List ℕ))
decode_segments allow_dot_segments [] = some []
decode_segments allow_dot_segments (segment ∷ segments) = do
  decoded ← percent_decode segment
  rest ← decode_segments allow_dot_segments segments
  if not allow_dot_segments && is_dot_segment decoded then none else some (decoded ∷ rest)

unfoldable pub parse_segments : Bool → List ℕ → Option (List (List ℕ))
parse_segments allow_dot_segments [] = some []
parse_segments allow_dot_segments (c ∷ path) =
    decode_segments allow_dot_segments (split_all b'/' (c ∷ path))

unfoldable pub parse_params : List ℕ → Option (List (List ℕ))
parse_params [] = some []
parse_params (c ∷ query) = decode_segments true (split_all b'&' (c ∷ query))

-- `rootless`, and the path without its first slash.
unfoldable pub split_root : List ℕ → Bool × List ℕ
split_root [] = (true, [])
split_root (c ∷ path) = if c == b'/' then (false, path) else (true, c ∷ path)

-- URI::parse. Whatever is wrong, the result is std::nullopt, so the order of the checks is free.
unfoldable pub parse : List ℕ → Bool → Option Uri
parse str allow_dot_segments =
    let (scheme, after_scheme) = split_scheme str in
    do
      (host_ref, port_ref, rest) ← split_authority after_scheme
      let (before_fragment, fragment_ref) = split_once b'#' rest
      let (path_ref, query_ref) = split_once b'?' before_fragment
      host ← percent_decode host_ref
      port ← read_port port_ref
      fragment ← percent_decode fragment_ref
      let (rootless, path) = split_root path_ref
      path_segments ← parse_segments allow_dot_segments path
      query_params ← parse_params query_ref
      some (record {
        scheme = scheme;
        host = lower host;
        fragment = fragment;
        port = port;
        rootless = rootless;
        path_segments = path_segments;
        query_params = query_params;
        escape_slashes_in_segments = true;
      })

-- URI::getPathString, where fewer than `first` segments are left out. Each segment is followed by a
-- slash, and the last slash is taken off again: the segments are joined.
unfoldable pub get_path_string : ℕ → Uri → List ℕ
get_path_string first uri =
    let path = join b'/' (drop first uri.path_segments) in
    if first == 0 && not uri.rootless then b'/' ∷ path else path

unfoldable pub encode_authority : Uri → List ℕ
encode_authority uri =
    let port = if uri.port == 0 then [] else b':' ∷ decimal uri.port in
    if is_empty uri.host && uri.port == 0
    then []
    else codes "//" ++ (percent_encode host_allowed (lower uri.host) ++ port)

unfoldable pub encode_path : Uri → List ℕ
encode_path uri =
    let allowed =
      if uri.escape_slashes_in_segments then path_allowed else path_allowed_with_slash in
    let path = join b'/' (map (percent_encode allowed) uri.path_segments) in
    if uri.rootless then path else b'/' ∷ path

unfoldable pub encode_query : List (List ℕ) → List ℕ
encode_query [] = []
encode_query (param ∷ params) =
    b'?' ∷ join b'&' (map (percent_encode query_allowed) (param ∷ params))

unfoldable pub encode_fragment : List ℕ → List ℕ
encode_fragment [] = []
encode_fragment (c ∷ fragment) = b'#' ∷ percent_encode fragment_allowed (c ∷ fragment)

unfoldable pub encode_scheme : List ℕ → List ℕ
encode_scheme [] = []
encode_scheme (c ∷ scheme) = lower (c ∷ scheme) ++ (b':' ∷ [])

-- URI::encode
unfoldable pub encode : Uri → List ℕ
encode uri =
    encode_scheme uri.scheme
    ++ (encode_authority uri
        ++ (encode_path uri ++ (encode_query uri.query_params ++ encode_fragment uri.fragment)))

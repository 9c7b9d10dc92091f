-- ===== src/Examples/Uris.antt =====
-- Runs of memodb/lib/URI.cpp and memodb/lib/Store.cpp on concrete inputs, and the theorems about
-- them at such inputs.
use bcdb.Prelude.{◌≡◌, refl, true, false, some, [], ◌∷◌, codes, arith}
use bcdb.Prelude.Strings.{contains, split_once, split_before, split_all, join, lower, starts_with}
use bcdb.Prelude.Decimal.{decimal, digits_loop}
use bcdb.Name
use bcdb.Name.{Name, Call, Head, call_name, head_name, as_uri}
use bcdb.Name.Segments.{IsEncodable}
use bcdb.Name.RoundTrip.{parse-as_uri}
use bcdb.Node.Map.{key_eq}
use bcdb.Uri.{
  Uri, empty_uri, encode, encode_scheme, encode_authority, encode_path, encode_query,
  encode_fragment, percent_encode, percent_decode, hex_value, parse, split_scheme, split_authority,
  split_host, split_bracketed, read_port, split_root, parse_segments, parse_params, decode_segments,
}
use bcdb.Uri.RoundTrip.{IsNormal, parse-encode}
use bcdb.Examples.{hi_cid, hi_cid-IsValid}

abbrev page : Uri
page = record empty_uri {
  scheme = codes "http";
  host = codes "example.com";
  port = 8080;
  path_segments = codes "head" ∷ codes "a b" ∷ [];
  query_params = codes "depth=2" ∷ [];
  fragment = codes "top";
}

test_encode_uri : encode page ≡ codes "http://example.com:8080/head/a%20b?depth=2#top"
unfolding encode encode_scheme encode_authority encode_path encode_query encode_fragment
    percent_encode contains lower join decimal digits_loop
test_encode_uri = refl

-- A colon in a path is read as the end of a scheme.
test_colon :
    parse (codes "/head/a:b") false
    ≡ some (record empty_uri {
      scheme = codes "/head/a";
      rootless = true;
      path_segments = codes "b" ∷ [];
    })
unfolding parse split_scheme split_authority split_host split_bracketed read_port split_root
    parse_segments parse_params decode_segments percent_decode hex_value contains split_once
    split_before split_all starts_with lower key_eq
test_colon = refl

page-IsNormal : IsNormal false page
unfolding contains lower key_eq
page-IsNormal = record {
  scheme_lower = refl;
  scheme_colon = refl;
  no_scheme = λ e. absurd (cc);
  host_bytes = omega arith;
  host_lower = refl;
  host_colon = refl;
  host_bracket = refl;
  port_fits = omega arith;
  root = refl;
  segments = ((omega arith, refl), ((omega arith, refl), tt));
  segments_start = refl;
  params = ((omega arith, refl), tt);
  params_start = refl;
  fragment_bytes = omega arith;
  escapes = refl;
}

parse-encode_example : parse (encode page) false ≡ some page
parse-encode_example = parse-encode false page page-IsNormal

abbrev pub hi_call : Call
hi_call = record { name = codes "f"; args = hi_cid ∷ [] }

abbrev pub main_head : Head
main_head = record { name = codes "dir/main" }

pub main_head-IsEncodable : IsEncodable (head_name main_head)
unfolding IsEncodable contains split_all key_eq
main_head-IsEncodable = (refl, omega arith, refl, (refl, (refl, tt)))

hi_call-IsEncodable : IsEncodable (call_name hi_call)
unfolding IsEncodable contains key_eq
hi_call-IsEncodable = (refl, omega arith, refl, refl, refl, ((hi_cid-IsValid, omega arith), tt))

parse-as_uri_example : Name.parse (encode (as_uri (call_name hi_call))) ≡ some (call_name hi_call)
parse-as_uri_example = parse-as_uri (call_name hi_call) hi_call-IsEncodable

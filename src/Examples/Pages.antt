-- ===== src/Examples/Pages.antt =====
-- Runs of memodb/lib/HTTP.cpp and memodb/lib/Request.cpp on concrete inputs, and the theorems about
-- them at such inputs.
use bcdb.Prelude.{
  none, ℕ, ◌≢◌, ◌≤◌, ◌≡◌, refl, Bool, true, false, some, List, [], ◌∷◌, ◌++◌, All, codes, arith,
}
use bcdb.Prelude.Results.{Result, ok, stuck}
use bcdb.Prelude.Decimal.{read_decimal, read_digits}
use bcdb.Prelude.Strings.{split_before, contains, split_once, starts_with, lower}
use bcdb.Node.{bytes}
use bcdb.Node.Map.{key_eq}
use bcdb.Server.Requests.{method_get, mutable}
use bcdb.Http.{
  parse_method, ltrim, none_match_loop, has_if_none_match, start_response, cache_value, send_etag,
  status, header, empty_body, ContentType, octet_stream, json, cbor, html, choose_node_content_type,
  escape_for_html,
}
use bcdb.Http.Accept.{
  get_accept_quality, accept_loop, params_loop, read_value, read_quality, rtrim, skip_quoted,
}
use bcdb.Http.Accept.Rounds.{loops-ne_stuck}
use bcdb.Http.Accept.Bounds.{get_accept_quality-le}
use bcdb.Http.Tags.{
  tags_header, has_tag, IsTag, has_if_none_match-tags_header, has_if_none_match-ne_stuck,
}
use bcdb.Http.Pages.{is_possible, escape_for_html-contains, choose_node_content_type-best}

test_parse_method : parse_method (codes "head") ≡ some method_get
unfolding parse_method lower key_eq
test_parse_method = refl

-- A weak tag, and the one that is asked for.
abbrev two_tags : List (Bool × List ℕ)
two_tags = (true, codes "12AB") ∷ (false, codes "F0") ∷ []

two_tags-IsTag : All IsTag two_tags
unfolding contains
two_tags-IsTag = (refl, (refl, tt))

has_if_none_match-tags_header_example :
    has_if_none_match (some (tags_header two_tags)) (codes "F0")
    ≡ ok (has_tag (codes "F0") two_tags)
has_if_none_match-tags_header_example =
    has_if_none_match-tags_header two_tags (codes "F0") two_tags-IsTag

test_has_tag : has_tag (codes "F0") two_tags ≡ true
unfolding has_tag key_eq
test_has_tag = refl

test_send_etag :
    send_etag (some (tags_header two_tags)) (codes "F0") mutable
    ≡ ok (
      true,
      status 304
          ∷ header (codes "Server") (codes "MemoDB")
          ∷ header (codes "Vary") (codes "Accept, Accept-Encoding")
          ∷ header (codes "Cache-Control") (codes "max-age=0, must-revalidate")
          ∷ header (codes "ETag") (0x22 ∷ codes "F0" ++ (0x22 ∷ []))
          ∷ empty_body
          ∷ [],
    )
unfolding send_etag has_if_none_match none_match_loop tags_header ltrim contains split_once
    starts_with start_response cache_value key_eq
test_send_etag = refl

has_if_none_match-ne_stuck_example :
    has_if_none_match (some (tags_header two_tags)) (codes "FF") ≢ stuck
has_if_none_match-ne_stuck_example =
    has_if_none_match-ne_stuck (some (tags_header two_tags)) (codes "FF")

escape_for_html-contains_example :
    (contains (escape_for_html (codes "a<b")) b'<' ≡ false)
    × (contains (escape_for_html (codes "a<b")) 0x22 ≡ false)
escape_for_html-contains_example = escape_for_html-contains (codes "a<b")

-- An entity in the text is not told from a char that was escaped.
test_entity : escape_for_html (codes "&lt;") ≡ escape_for_html (codes "<")
unfolding escape_for_html
test_entity = refl

abbrev browser_accept : List ℕ
browser_accept = codes "text/html, application/json;q=0.9, */*;q=0.1"

-- The qualities that the header gives.
abbrev quality_or_zero : Result ℕ → ℕ
quality_or_zero (ok q) = q
quality_or_zero other = 0

abbrev browser_quality : ContentType → ℕ
browser_quality content_type =
    quality_or_zero (get_accept_quality (some browser_accept) content_type)

choose_node_content_type-best_example :
    (is_possible (bytes []) (choose_node_content_type browser_quality (bytes [])) ≡ true)
    × (browser_quality octet_stream
        ≤ browser_quality (choose_node_content_type browser_quality (bytes [])))
choose_node_content_type-best_example =
    choose_node_content_type-best browser_quality (bytes []) octet_stream refl

test_accept :
    (get_accept_quality (some browser_accept) html ≡ ok 1000)
    × (get_accept_quality (some browser_accept) json ≡ ok 900)
    × (get_accept_quality (some browser_accept) cbor ≡ ok 100)
unfolding get_accept_quality accept_loop params_loop read_value read_quality rtrim skip_quoted
    read_decimal read_digits ltrim lower key_eq split_once split_before contains starts_with
test_accept = (refl, refl, refl)

-- A quality that is not below 1 is taken as it is.
test_large_quality : get_accept_quality (some (codes "text/html;q=9.999")) html ≡ ok 9999
unfolding get_accept_quality accept_loop params_loop read_value read_quality rtrim skip_quoted
    read_decimal read_digits ltrim lower key_eq split_once split_before contains starts_with
test_large_quality = refl

get_accept_quality-le_example :
    (q : ℕ) × (get_accept_quality (some browser_accept) html ≡ ok q) × (q ≤ 9999)
get_accept_quality-le_example = get_accept_quality-le (some browser_accept) html

loops-ne_stuck_example :
    (accept_loop 12 (codes "a") (codes "b") none 0 (codes "a/c;q=0,a/b") ≢ stuck)
    × (params_loop 12 1000 (codes ";q=0,a/b") ≢ stuck)
loops-ne_stuck_example =
    loops-ne_stuck 11 1000 (codes "a") (codes "b") none 0 (codes "a/c;q=0,a/b") (codes ";q=0,a/b")
      (omega arith) (omega arith)

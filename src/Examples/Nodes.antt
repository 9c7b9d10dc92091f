-- ===== src/Examples/Nodes.antt =====
-- Runs of memodb/lib/CBOREncoder.cpp, memodb/lib/Node.cpp and NodeMap on concrete inputs, and the
-- theorems about them at such inputs.
use bcdb.Prelude.{
  ℕ, ◌*◌, ◌^◌, ◌≡◌, ◌≢◌, refl, Bool, true, false, none, some, List, [], ◌∷◌, ◌++◌, arith,
  if◌then◌else◌,
}
use bcdb.Prelude.Int.{pos, negsuc}
use bcdb.Cid.{is_identity}
use bcdb.Ieee.{Double, finite, IsDouble, encode_float, decode_float, float_fields}
use bcdb.Ieee.RoundTrip.{decode_float-encode_float}
use bcdb.Node.{
  Node, null, boolean, int64, uint64, float, link, list, map, no_nodes, node, Entries, no_entries,
  entry,
}
use bcdb.Node.Map.{key_eq, key_less, lex_less, find, insert_or_assign, try_emplace, erase}
use bcdb.Node.Map.Sorted.{IsSorted, operations-IsSorted}
use bcdb.Node.Map.Lookup.{find-insert_or_assign, find-try_emplace, find-erase, or_else, is_none}
use bcdb.Node.Wellformed.{IsNode, IsOrdered, normalise, count_nodes, count_entries}
use bcdb.Cbor.{empty_encoder, visit_node, save_as_cbor, head}
use bcdb.Cbor.Encoding.{advance, encode, contains_link, beyond_dag, visit_node_lem}
use bcdb.Cbor.Decode.{
  ok, stuck, start, load_head, load_node, next_item, load_scalar, load_string, string_of, all_read,
  load_from_cbor_sequence, load_from_cbor,
}
use bcdb.Cbor.Decode.Heads.{minor_of, start-head}
use bcdb.Cbor.Decode.RoundTrip.{load_from_cbor-save_as_cbor, load_from_cbor_sequence-encode}
use bcdb.Cbor.Decode.Total.{load_from_cbor-ne_stuck, load_from_cbor-IsOrdered}
use bcdb.Ipld.{save_as_ipld, load_from_ipld}
use bcdb.Ipld.RoundTrip.{load_from_ipld-save_as_ipld, save_as_ipld-codec_of, codec_of}
use bcdb.Examples.{zero_hash, hi_cid, hi_cid-IsValid}

-- 1.5
abbrev one_and_a_half : Double
one_and_a_half = finite false (3 * 2 ^ 51) 1074

one_and_a_half-IsDouble : IsDouble one_and_a_half
one_and_a_half-IsDouble = (omega arith, omega arith, omega arith, refl)

test_float : (encode_float 64 52 1023 one_and_a_half).0 ≡ 0x3ff8000000000000
unfolding encode_float float_fields
test_float = refl

-- 2 ^ -14 is the least normal number of the 16-bit format.
test_half : encode_float 16 10 15 (finite false (2 ^ 52) 1060) ≡ (0x0400, true)
unfolding encode_float float_fields
test_half = refl

decode_float-encode_float_example :
    decode_float (encode_float 64 52 1023 one_and_a_half).0 64 52 1023 ≡ one_and_a_half
decode_float-encode_float_example = decode_float-encode_float one_and_a_half one_and_a_half-IsDouble

abbrev key_a : List ℕ
key_a = 0x61 ∷ []

abbrev key_aa : List ℕ
key_aa = 0x61 ∷ 0x61 ∷ []

abbrev key_b : List ℕ
key_b = 0x62 ∷ []

-- The members {"b": null, "aa": false}: a shorter key stands first.
abbrev members : Entries
members = entry key_b null (entry key_aa (boolean false) no_entries)

members-IsSorted : IsSorted members
unfolding key_less lex_less
members-IsSorted = ((refl, tt), (tt, tt))

operations-IsSorted_example :
    IsSorted (insert_or_assign key_a null members).0
    × IsSorted (try_emplace key_a null members).0
    × IsSorted (erase key_a members)
operations-IsSorted_example = operations-IsSorted key_a null members members-IsSorted

find-insert_or_assign_example :
    (find key_b (insert_or_assign key_b (boolean true) members).0
      ≡ (if key_eq key_b key_b then some (boolean true) else find key_b members))
    × ((insert_or_assign key_b (boolean true) members).1 ≡ is_none (find key_b members))
find-insert_or_assign_example =
    find-insert_or_assign key_b key_b (boolean true) members members-IsSorted

find-try_emplace_example :
    (find key_b (try_emplace key_b (boolean true) members).0 ≡ (
      if key_eq key_b key_b
      then some (or_else (find key_b members) (boolean true))
      else find key_b members))
    × ((try_emplace key_b (boolean true) members).1 ≡ is_none (find key_b members))
find-try_emplace_example = find-try_emplace key_b key_b (boolean true) members members-IsSorted

find-erase_example :
    find key_aa (erase key_b members) ≡ (if key_eq key_b key_aa then none else find key_aa members)
find-erase_example = find-erase key_b key_aa members members-IsSorted

-- {"b": [-1, 5, 1.5], "aa": a link}
abbrev sample : Node
sample = map (
    entry key_b
      (list (node (int64 (negsuc 0)) (node (int64 (pos 5)) (node (float one_and_a_half) no_nodes))))
      (entry key_aa (link hi_cid) no_entries))

abbrev any_text : List ℕ → Bool
any_text s = true

sample-IsNode : IsNode any_text sample
unfolding IsNode key_less lex_less count_nodes count_entries
sample-IsNode = (
  omega arith,
  ((refl, tt), (tt, tt)),
  (
    (omega arith, refl),
    (omega arith, (omega arith, (omega arith, (one_and_a_half-IsDouble, tt)))),
    ((omega arith, refl), (hi_cid-IsValid, omega arith), tt),
  ),
)

visit_node_lem_example :
    visit_node empty_encoder sample
    ≡ advance empty_encoder (encode sample) (contains_link sample) (beyond_dag sample)
visit_node_lem_example = visit_node_lem empty_encoder sample

start-head_example :
    start (head 4 300 0 ++ 7 ∷ [])
    ≡ ok (
      record { major_type = 4; minor_type = minor_of 300; additional = 300; indefinite = false },
      7 ∷ [],
    )
start-head_example = start-head 4 300 (7 ∷ []) (omega arith) (omega arith)

load_from_cbor-save_as_cbor_example :
    load_from_cbor any_text (save_as_cbor sample) ≡ ok (normalise sample)
load_from_cbor-save_as_cbor_example = load_from_cbor-save_as_cbor any_text sample sample-IsNode

load_from_cbor_sequence-encode_example :
    load_from_cbor_sequence any_text (encode sample ++ 7 ∷ []) ≡ ok (normalise sample, 7 ∷ [])
load_from_cbor_sequence-encode_example =
    load_from_cbor_sequence-encode any_text sample (7 ∷ []) sample-IsNode

load_from_cbor-ne_stuck_example : load_from_cbor any_text (0x9f ∷ 0x01 ∷ []) ≢ stuck
load_from_cbor-ne_stuck_example = load_from_cbor-ne_stuck any_text (0x9f ∷ 0x01 ∷ [])

-- {"b": 1, "a": 2} with its keys out of order.
abbrev unordered : List ℕ
unordered = 0xa2 ∷ 0x61 ∷ 0x62 ∷ 0x01 ∷ 0x61 ∷ 0x61 ∷ 0x02 ∷ []

abbrev reordered : Node
reordered = map (entry key_a (uint64 2) (entry key_b (uint64 1) no_entries))

unordered_loaded : load_from_cbor any_text unordered ≡ ok reordered
unfolding load_from_cbor load_from_cbor_sequence load_node load_head start next_item load_scalar
    load_string string_of all_read insert_or_assign key_less key_eq
unordered_loaded = refl

load_from_cbor-IsOrdered_example : IsOrdered reordered
load_from_cbor-IsOrdered_example = load_from_cbor-IsOrdered any_text unordered unordered_loaded

load_from_ipld-save_as_ipld_example :
    let block = save_as_ipld zero_hash false sample in
    load_from_ipld any_text block.0 block.1 ≡ ok (normalise sample)
load_from_ipld-save_as_ipld_example =
    load_from_ipld-save_as_ipld zero_hash any_text false sample sample-IsNode

save_as_ipld-codec_of_example :
    let c = (save_as_ipld zero_hash true sample).0 in
    (c.content_type ≡ codec_of sample) × (true ≡ true → is_identity c ≡ false)
save_as_ipld-codec_of_example = save_as_ipld-codec_of zero_hash true sample

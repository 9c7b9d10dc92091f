-- ===== src/Cbor.antt =====
-- CBOREncoder of memodb/lib/CBOREncoder.cpp on the NodeVisitor of memodb/lib/NodeVisitor.cpp.
-- The encoder's fields are threaded through the visit functions.
pub mod Encoding
pub mod Decode
use bcdb.Prelude.{
  ℕ, zero, suc, ◌+◌, ◌-◌, ◌*◌, ◌/◌, ◌%◌, ◌^◌, bit_and, bit_or, Bool, true, false, List, [], ◌∷◌,
  ◌++◌, length, ltb, ◌==◌, if◌then◌else◌,
}
use bcdb.Prelude.Int.{ℤ, pos, negsuc}
use bcdb.Ieee.{Double, nan, infinite, zero_value, finite, encode_float}
use bcdb.Cid.{Cid}
use bcdb.Node.Wellformed.{count_nodes, count_entries}
use bcdb.Node.{
  Node, null, boolean, int64, uint64, float, bytes, string, link, list, map, Nodes, no_nodes, node,
  Entries, no_entries, entry,
}

-- CBOREncoder: what it has written, and its two flags.
pub record CborEncoder : Type 0 where
  pub out : List ℕ
  pub has_links : Bool
  pub not_dag_cbor : Bool

unfoldable pub is_valid_dag_cbor : CborEncoder → Bool
is_valid_dag_cbor e = if e.not_dag_cbor then false else true

abbrev pub put : CborEncoder → List ℕ → CborEncoder
put e more = record { out = e.out ++ more; has_links = e.has_links; not_dag_cbor = e.not_dag_cbor }

-- The loop over num_bytes: the most significant byte first.
unfoldable pub big_endian : ℕ → ℕ → List ℕ
big_endian zero v = []
big_endian (suc n) v = bit_and (v / 2 ^ (8 * n)) 0xff ∷ big_endian n v

-- The initial byte, as a uint8_t.
unfoldable pub initial : ℕ → ℕ → ℕ
initial major additional = bit_or (major * 2 ^ 5) additional % 256

-- `force_additional ? force_additional == n : argument < limit`
unfoldable pub chosen : ℕ → ℕ → ℕ → ℕ → Bool
chosen force n argument limit = if force == 0 then ltb argument limit else force == n

-- What encodeHead writes.
unfoldable pub head : ℕ → ℕ → ℕ → List ℕ
head major argument force =
    if (if force == 0 then ltb argument 24 else false)
    then initial major argument ∷ []
    else (if chosen force 24 argument 0x100
        then initial major 24 ∷ big_endian 1 argument
        else (if chosen force 25 argument 0x10000
            then initial major 25 ∷ big_endian 2 argument
            else (if chosen force 26 argument 0x100000000
                then initial major 26 ∷ big_endian 4 argument
                else initial major 27 ∷ big_endian 8 argument)))

unfoldable pub encode_head : CborEncoder → ℕ → ℕ → ℕ → CborEncoder
encode_head e major argument force = put e (head major argument force)

unfoldable pub visit_null : CborEncoder → CborEncoder
visit_null e = encode_head e 7 22 0

unfoldable pub visit_boolean : CborEncoder → Bool → CborEncoder
visit_boolean e value = encode_head e 7 (if value then 21 else 20) 0

unfoldable pub visit_uint64 : CborEncoder → ℕ → CborEncoder
visit_uint64 e value =
    let e' = encode_head e 0 value 0 in
    if ltb (2 ^ 63 - 1) value
    then record { out = e'.out; has_links = e'.has_links; not_dag_cbor = true }
    else e'

-- -(value + 1) for a negative value
unfoldable pub visit_int64 : CborEncoder → ℤ → CborEncoder
visit_int64 e (pos n) = encode_head e 0 n 0
visit_int64 e (negsuc n) = encode_head e 1 n 0

unfoldable pub is_finite : Double → Bool
is_finite nan = false
is_finite (infinite s) = false
is_finite (zero_value s) = true
is_finite (finite s m k) = true

-- The shorter formats are switched off by `false &&`.
unfoldable pub visit_float : CborEncoder → Double → CborEncoder
visit_float e value =
    let marked : CborEncoder = record {
      out = e.out;
      has_links = e.has_links;
      not_dag_cbor = if is_finite value then e.not_dag_cbor else true;
    } in
    encode_head marked 7 (encode_float 64 52 1023 value).0 27

unfoldable pub visit_string : CborEncoder → List ℕ → CborEncoder
visit_string e value = put (encode_head e 3 (length value) 0) value

unfoldable pub visit_bytes : CborEncoder → List ℕ → CborEncoder
visit_bytes e value = put (encode_head e 2 (length value) 0) value

unfoldable pub visit_link : CborEncoder → Cid → CborEncoder
visit_link e c =
    let tagged = encode_head (encode_head e 6 42 0) 2 (length c.bytes + 1) 0 in
    let written = put (put tagged (0 ∷ [])) c.bytes in
    record { out = written.out; has_links = true; not_dag_cbor = written.not_dag_cbor }

unfoldable pub start_list : CborEncoder → Nodes → CborEncoder
start_list e value = encode_head e 4 (count_nodes value) 0

unfoldable pub start_map : CborEncoder → Entries → CborEncoder
start_map e value = encode_head e 5 (count_entries value) 0

-- NodeVisitor::visitNode, and the loops of visitList and visitMap. visitKey is visitString; endList
-- and endMap do nothing.
unfoldable mutual
  pub visit_node : CborEncoder → Node → CborEncoder
  visit_node e null = visit_null e
  visit_node e (boolean value) = visit_boolean e value
  visit_node e (int64 value) = visit_int64 e value
  visit_node e (uint64 value) = visit_uint64 e value
  visit_node e (float value) = visit_float e value
  visit_node e (string value) = visit_string e value
  visit_node e (bytes value) = visit_bytes e value
  visit_node e (list value) = visit_items (start_list e value) value
  visit_node e (map value) = visit_entries (start_map e value) value
  visit_node e (link value) = visit_link e value

  pub visit_items : CborEncoder → Nodes → CborEncoder
  visit_items e no_nodes = e
  visit_items e (node n ns) = visit_items (visit_node e n) ns

  pub visit_entries : CborEncoder → Entries → CborEncoder
  visit_entries e no_entries = e
  visit_entries e (entry k n es) = visit_entries (visit_node (visit_string e k) n) es

abbrev pub empty_encoder : CborEncoder
empty_encoder = record { out = []; has_links = false; not_dag_cbor = false }

-- Node::saveAsCBOR
unfoldable pub save_as_cbor : Node → List ℕ
save_as_cbor n = (visit_node empty_encoder n).out

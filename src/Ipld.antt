-- ===== src/Ipld.antt =====
-- Node::saveAsIPLD and Node::loadFromIPLD of memodb/lib/Node.cpp: a node as a block with its CID.
pub mod RoundTrip
use bcdb.Prelude.{
  ℕ, Bool, true, false, ◌||◌, Option, none, some, List, [], ◌∷◌, ◌==◌, if◌then◌else◌,
}
use bcdb.Cid.{
  Cid, Multicodec, raw, dag_cbor, dag_cbor_unrestricted, blake2b_256, Blake2b, calculate,
  is_identity, get_hash_bytes,
}
use bcdb.Node.{Node, null, boolean, int64, uint64, float, bytes, string, link, list, map}
use bcdb.Cbor.{CborEncoder, empty_encoder, visit_node, is_valid_dag_cbor}
use bcdb.Cbor.Decode.{
  Expected, ok, failed, identity_with_payload, unsupported_content_type, load_from_cbor,
}

-- The codec and the content, where the node is not bytes.
unfoldable pub as_cbor : Node → Multicodec × List ℕ
as_cbor n =
    let e = visit_node empty_encoder n in
    (if is_valid_dag_cbor e then dag_cbor else dag_cbor_unrestricted, e.out)

unfoldable pub codec_and_bytes : Node → Multicodec × List ℕ
unfolding as_cbor
codec_and_bytes (bytes b) = (raw, b)
codec_and_bytes null = as_cbor null
codec_and_bytes (boolean b) = as_cbor (boolean b)
codec_and_bytes (int64 i) = as_cbor (int64 i)
codec_and_bytes (uint64 i) = as_cbor (uint64 i)
codec_and_bytes (float d) = as_cbor (float d)
codec_and_bytes (string s) = as_cbor (string s)
codec_and_bytes (link c) = as_cbor (link c)
codec_and_bytes (list ns) = as_cbor (list ns)
codec_and_bytes (map es) = as_cbor (map es)

unfoldable pub save_as_ipld : Blake2b → Bool → Node → Cid × List ℕ
unfolding codec_and_bytes
save_as_ipld lib no_identity n =
    let (codec, content) = codec_and_bytes n in
    let ref = calculate lib codec content (if no_identity then some blake2b_256 else none) in
    if is_identity ref then (ref, []) else (ref, content)

-- The switch on the content type.
unfoldable pub load_content : (List ℕ → Bool) → Cid → List ℕ → Expected Node
load_content is_legal_utf8 c content =
    if c.content_type == raw
    then ok (bytes content)
    else (if c.content_type == dag_cbor || c.content_type == dag_cbor_unrestricted
        then load_from_cbor is_legal_utf8 content
        else failed unsupported_content_type)

unfoldable pub load_from_ipld : (List ℕ → Bool) → Cid → List ℕ → Expected Node
unfolding load_content
load_from_ipld is_legal_utf8 c [] =
    load_content is_legal_utf8 c (if is_identity c then get_hash_bytes c else [])
load_from_ipld is_legal_utf8 c (b ∷ content) =
    if is_identity c
    then failed identity_with_payload
    else load_content is_legal_utf8 c (b ∷ content)

-- ===== src/Ipld/RoundTrip.antt =====
-- A node is read back from its block: saveAsIPLD and loadFromIPLD of memodb/lib/Node.cpp.
use bcdb.Prelude.{
  ℕ, ◌≡◌, refl, ◌∙◌, Bool, true, false, Option, none, some, List, [], ◌∷◌, ◌==◌, if◌then◌else◌,
  arith, Bool-cases, inl, inr,
}
use bcdb.Cid.{
  Cid, Multicodec, raw, dag_cbor, dag_cbor_unrestricted, identity, blake2b_256, Blake2b, calculate,
  hash_with, default_hash_type, cid_of, is_identity, get_hash_bytes,
}
use bcdb.Cid.Text.{get_hash_bytes-cid_of}
use bcdb.Node.{Node, null, boolean, int64, uint64, float, bytes, string, link, list, map}
use bcdb.Node.Wellformed.{IsNode, normalise}
use bcdb.Cbor.{save_as_cbor, visit_node, empty_encoder, is_valid_dag_cbor}
use bcdb.Cbor.Encoding.{beyond_dag, visit_node_lem}
use bcdb.Cbor.Decode.{ok, load_from_cbor}
use bcdb.Cbor.Decode.RoundTrip.{load_from_cbor-save_as_cbor}
use bcdb.Ipld.{as_cbor, codec_and_bytes, save_as_ipld, load_content, load_from_ipld}

module _ (lib : Blake2b) (codec : Multicodec) (content : List ℕ) where
  hash_with-identity :
      (wanted : Multicodec)
      → let h = hash_with lib wanted content in (h.0 == identity) ≡ true → h.1 ≡ content
  unfolding hash_with
  hash_with-identity wanted = ground arith

  cid_parts :
      (wanted : Multicodec)
      → let h = hash_with lib wanted content in
        let c = cid_of codec h.0 h.1 in
        (c.content_type ≡ codec) × (is_identity c ≡ true → get_hash_bytes c ≡ content)
  unfolding is_identity cid_of
  cid_parts wanted =
      let h = hash_with lib wanted content in
      (refl, λ e. get_hash_bytes-cid_of codec h.0 h.1 ∙ hash_with-identity wanted e)

  calculate_parts :
      (wanted : Option Multicodec)
      → let c = calculate lib codec content wanted in
        (c.content_type ≡ codec) × (is_identity c ≡ true → get_hash_bytes c ≡ content)
  unfolding calculate
  calculate_parts none = cid_parts (default_hash_type content)
  calculate_parts (some wanted) = cid_parts wanted

-- A block with the content of its CID is loaded by the CID's content type.
load_saved :
    (is_legal_utf8 : List ℕ → Bool) (c : Cid) (content : List ℕ)
    → (is_identity c ≡ true → get_hash_bytes c ≡ content)
    → load_from_ipld is_legal_utf8 c (if is_identity c then [] else content)
      ≡ load_content is_legal_utf8 c content
unfolding load_from_ipld
load_saved is_legal_utf8 c content h = elim (Bool-cases (is_identity c)) [
  | inl e ↦ rw e (rw (e, h e) refl)
  | inr e ↦ rw e (plain content e)
]
  where
    plain :
        (bs : List ℕ)
        → is_identity c ≡ false
        → load_from_ipld is_legal_utf8 c bs ≡ load_content is_legal_utf8 c bs
    plain [] e = rw e refl
    plain (b ∷ bs) e = rw e refl

module _ (is_legal_utf8 : List ℕ → Bool) where
  content_loaded :
      (n : Node) (c : Cid)
      → c.content_type ≡ (as_cbor n).0
      → load_content is_legal_utf8 c (as_cbor n).1 ≡ load_from_cbor is_legal_utf8 (save_as_cbor n)
  unfolding load_content as_cbor save_as_cbor
  content_loaded n c e = elim (Bool-cases (is_valid_dag_cbor (visit_node empty_encoder n))) [
    | inl v ↦ rw (e, v) refl
    | inr v ↦ rw (e, v) refl
  ]

  codec_loaded :
      (n : Node) (c : Cid)
      → IsNode is_legal_utf8 n
      → c.content_type ≡ (codec_and_bytes n).0
      → load_content is_legal_utf8 c (codec_and_bytes n).1 ≡ ok (normalise n)
  unfolding codec_and_bytes
  codec_loaded (bytes b) c h e = unfold load_content normalise in rw e refl
  codec_loaded null c h e = content_loaded _ c e ∙ load_from_cbor-save_as_cbor is_legal_utf8 _ h
  codec_loaded (boolean b) c h e =
      content_loaded _ c e ∙ load_from_cbor-save_as_cbor is_legal_utf8 _ h
  codec_loaded (int64 i) c h e =
      content_loaded _ c e ∙ load_from_cbor-save_as_cbor is_legal_utf8 _ h
  codec_loaded (uint64 i) c h e =
      content_loaded _ c e ∙ load_from_cbor-save_as_cbor is_legal_utf8 _ h
  codec_loaded (float d) c h e =
      content_loaded _ c e ∙ load_from_cbor-save_as_cbor is_legal_utf8 _ h
  codec_loaded (string s) c h e =
      content_loaded _ c e ∙ load_from_cbor-save_as_cbor is_legal_utf8 _ h
  codec_loaded (link l) c h e = content_loaded _ c e ∙ load_from_cbor-save_as_cbor is_legal_utf8 _ h
  codec_loaded (list ns) c h e =
      content_loaded _ c e ∙ load_from_cbor-save_as_cbor is_legal_utf8 _ h
  codec_loaded (map es) c h e = content_loaded _ c e ∙ load_from_cbor-save_as_cbor is_legal_utf8 _ h

save_as_ipld-eq :
    (lib : Blake2b) (no_identity : Bool) (n : Node)
    → let (codec, content) = codec_and_bytes n in
      let ref = calculate lib codec content (if no_identity then some blake2b_256 else none) in
      save_as_ipld lib no_identity n ≡ (ref, if is_identity ref then [] else content)
unfolding save_as_ipld
save_as_ipld-eq lib no_identity n =
    let (codec, content) = codec_and_bytes n in
    let ref = calculate lib codec content (if no_identity then some blake2b_256 else none) in
    elim (Bool-cases (is_identity ref)) [ inl e ↦ rw e refl | inr e ↦ rw e refl ]

module _ (lib : Blake2b) (is_legal_utf8 : List ℕ → Bool) where
  -- What saveAsIPLD makes of a well-formed node, with or without identity CIDs, loadFromIPLD loads
  -- back to the same node, but for integers that are not negative: these come back as unsigned.
  pub load_from_ipld-save_as_ipld :
      (no_identity : Bool) (n : Node)
      → IsNode is_legal_utf8 n
      → let block = save_as_ipld lib no_identity n in
        load_from_ipld is_legal_utf8 block.0 block.1 ≡ ok (normalise n)
  load_from_ipld-save_as_ipld no_identity n h =
      let (codec, content) = codec_and_bytes n in
      let wanted = if◌then◌else◌ {A = Option Multicodec} no_identity (some blake2b_256) none in
      let ref = calculate lib codec content wanted in
      let (kept, held) = calculate_parts lib codec content wanted in
      let loaded = load_saved is_legal_utf8 ref content held in
      rw (save_as_ipld-eq lib no_identity n) (loaded ∙ codec_loaded is_legal_utf8 n ref h kept)

as_cbor-codec :
    (n : Node) → (as_cbor n).0 ≡ (if beyond_dag n then dag_cbor_unrestricted else dag_cbor)
unfolding as_cbor is_valid_dag_cbor
as_cbor-codec n = rw (visit_node_lem empty_encoder n) (ground arith)

-- The content type that a node calls for.
abbrev pub codec_of : Node → Multicodec
codec_of (bytes b) = raw
codec_of n = if beyond_dag n then dag_cbor_unrestricted else dag_cbor

codec_and_bytes-codec_of : (n : Node) → (codec_and_bytes n).0 ≡ codec_of n
unfolding codec_and_bytes
codec_and_bytes-codec_of (bytes b) = refl
codec_and_bytes-codec_of null = as_cbor-codec null
codec_and_bytes-codec_of (boolean b) = as_cbor-codec (boolean b)
codec_and_bytes-codec_of (int64 i) = as_cbor-codec (int64 i)
codec_and_bytes-codec_of (uint64 i) = as_cbor-codec (uint64 i)
codec_and_bytes-codec_of (float d) = as_cbor-codec (float d)
codec_and_bytes-codec_of (string s) = as_cbor-codec (string s)
codec_and_bytes-codec_of (link l) = as_cbor-codec (link l)
codec_and_bytes-codec_of (list ns) = as_cbor-codec (list ns)
codec_and_bytes-codec_of (map es) = as_cbor-codec (map es)

calculate-blake2b :
    (lib : Blake2b) (codec : Multicodec) (content : List ℕ)
    → is_identity (calculate lib codec content (some blake2b_256)) ≡ false
unfolding calculate is_identity hash_with cid_of
calculate-blake2b lib codec content = refl

-- The CID of a saved node has the content type raw for bytes, DAG-CBOR for a node in which every
-- integer fits an int64_t and every double is finite, and the unrestricted type for any other. If
-- identity CIDs are ruled out, it is none.
pub save_as_ipld-codec_of :
    (lib : Blake2b) (no_identity : Bool) (n : Node)
    → let c = (save_as_ipld lib no_identity n).0 in
      (c.content_type ≡ codec_of n) × (no_identity ≡ true → is_identity c ≡ false)
save_as_ipld-codec_of lib no_identity n = rw (save_as_ipld-eq lib no_identity n) (
  (calculate_parts lib codec content wanted).0 ∙ codec_and_bytes-codec_of n,
  λ e. rw e (calculate-blake2b lib codec content),
)
  where
    codec : Multicodec
    codec = (codec_and_bytes n).0

    content : List ℕ
    content = (codec_and_bytes n).1

    wanted : Option Multicodec
    wanted = if no_identity then some blake2b_256 else none

-- ===== src/Cbor/Encoding.antt =====
-- What the encoder of memodb/lib/CBOREncoder.cpp writes for a node, and what its flags tell.
use bcdb.Prelude.{
  ℕ, ◌+◌, ◌-◌, ◌^◌, ◌≡◌, refl, ap, ◌∙◌, Bool, true, false, ◌||◌, List, [], ◌∷◌, ◌++◌, length, ltb,
  append_assoc, append-nil, if◌then◌else◌, Bool-cases, inl, inr,
}
use bcdb.Prelude.Int.{pos, negsuc}
use bcdb.Ieee.{Double, encode_float}
use bcdb.Cid.{Cid}
use bcdb.Node.{
  Node, null, boolean, int64, uint64, float, bytes, string, link, list, map, Nodes, no_nodes, node,
  Entries, no_entries, entry,
}
use bcdb.Node.Wellformed.{count_nodes, count_entries}
use bcdb.Cbor.{
  CborEncoder, put, head, encode_head, visit_null, visit_boolean, visit_uint64, visit_int64,
  is_finite, visit_float, visit_string, visit_bytes, visit_link, start_list, start_map, visit_node,
  visit_items, visit_entries, save_as_cbor, empty_encoder,
}

-- The bytes of a node, each part on its own.
unfoldable mutual
  pub encode : Node → List ℕ
  encode null = head 7 22 0
  encode (boolean value) = head 7 (if value then 21 else 20) 0
  encode (int64 (pos n)) = head 0 n 0
  encode (int64 (negsuc n)) = head 1 n 0
  encode (uint64 n) = head 0 n 0
  encode (float value) = head 7 (encode_float 64 52 1023 value).0 27
  encode (string value) = head 3 (length value) 0 ++ value
  encode (bytes value) = head 2 (length value) 0 ++ value
  encode (link c) = head 6 42 0 ++ (head 2 (length c.bytes + 1) 0 ++ (0 ∷ c.bytes))
  encode (list ns) = head 4 (count_nodes ns) 0 ++ encode_nodes ns
  encode (map es) = head 5 (count_entries es) 0 ++ encode_entries es

  pub encode_nodes : Nodes → List ℕ
  encode_nodes no_nodes = []
  encode_nodes (node n ns) = encode n ++ encode_nodes ns

  pub encode_entries : Entries → List ℕ
  encode_entries no_entries = []
  encode_entries (entry k n es) = (head 3 (length k) 0 ++ k) ++ (encode n ++ encode_entries es)

-- Whether a link stands anywhere in the node.
unfoldable mutual
  pub contains_link : Node → Bool
  contains_link (link c) = true
  contains_link (list ns) = nodes_contain_link ns
  contains_link (map es) = entries_contain_link es
  contains_link _ = false

  pub nodes_contain_link : Nodes → Bool
  nodes_contain_link no_nodes = false
  nodes_contain_link (node n ns) = contains_link n || nodes_contain_link ns

  pub entries_contain_link : Entries → Bool
  entries_contain_link no_entries = false
  entries_contain_link (entry k n es) = contains_link n || entries_contain_link es

-- Whether the node has a number that DAG-CBOR does not allow: an integer that no int64_t holds,
-- an infinity or a NaN.
unfoldable mutual
  pub beyond_dag : Node → Bool
  beyond_dag (uint64 n) = ltb (2 ^ 63 - 1) n
  beyond_dag (float value) = if is_finite value then false else true
  beyond_dag (list ns) = nodes_beyond_dag ns
  beyond_dag (map es) = entries_beyond_dag es
  beyond_dag _ = false

  pub nodes_beyond_dag : Nodes → Bool
  nodes_beyond_dag no_nodes = false
  nodes_beyond_dag (node n ns) = beyond_dag n || nodes_beyond_dag ns

  pub entries_beyond_dag : Entries → Bool
  entries_beyond_dag no_entries = false
  entries_beyond_dag (entry k n es) = beyond_dag n || entries_beyond_dag es

-- An encoder that has gone on to write `more` and to raise the flags given.
abbrev pub advance : CborEncoder → List ℕ → Bool → Bool → CborEncoder
advance e more links beyond = record {
  out = e.out ++ more;
  has_links = e.has_links || links;
  not_dag_cbor = e.not_dag_cbor || beyond;
}

or_false : (b : Bool) → (b || false) ≡ b
or_false true = refl
or_false false = refl

or_true : (b : Bool) → (b || true) ≡ true
or_true true = refl
or_true false = refl

or_assoc : (a b c : Bool) → ((a || b) || c) ≡ (a || (b || c))
or_assoc true b c = refl
or_assoc false b c = refl

put-advance : (e : CborEncoder) (more : List ℕ) → put e more ≡ advance e more false false
put-advance e more = simp or_false refl

advance-advance :
    (e : CborEncoder) (a b : List ℕ) (l m d f : Bool)
    → advance (advance e a l d) b m f ≡ advance e (a ++ b) (l || m) (d || f)
advance-advance e a b l m d f = simp (or_assoc, append_assoc) refl

advance-nil : (e : CborEncoder) → e ≡ advance e [] false false
advance-nil e = simp (or_false, append-nil) refl

visit_null-advance : (e : CborEncoder) → visit_null e ≡ advance e (head 7 22 0) false false
unfolding visit_null encode_head
visit_null-advance e = put-advance e _

visit_boolean-advance :
    (e : CborEncoder) (value : Bool)
    → visit_boolean e value ≡ advance e (head 7 (if value then 21 else 20) 0) false false
unfolding visit_boolean encode_head
visit_boolean-advance e value = put-advance e _

visit_uint64-advance :
    (e : CborEncoder) (n : ℕ) → visit_uint64 e n ≡ advance e (head 0 n 0) false (ltb (2 ^ 63 - 1) n)
unfolding visit_uint64 encode_head
visit_uint64-advance e n = elim (Bool-cases (ltb (2 ^ 63 - 1) n)) [
  | inl h ↦ simp (h, or_false, or_true) refl
  | inr h ↦ simp h (put-advance e _)
]

visit_float-advance :
    (e : CborEncoder) (value : Double)
    → visit_float e value
      ≡ advance e
          (head 7 (encode_float 64 52 1023 value).0 27)
          false
          (if is_finite value then false else true)
unfolding visit_float encode_head
visit_float-advance e value = elim (Bool-cases (is_finite value)) [
  | inl h ↦ simp (h, or_false) refl
  | inr h ↦ simp (h, or_false, or_true) refl
]

visit_string-advance :
    (e : CborEncoder) (value : List ℕ)
    → visit_string e value ≡ advance e (head 3 (length value) 0 ++ value) false false
unfolding visit_string encode_head
visit_string-advance e value = simp (or_false, append_assoc) refl

visit_bytes-advance :
    (e : CborEncoder) (value : List ℕ)
    → visit_bytes e value ≡ advance e (head 2 (length value) 0 ++ value) false false
unfolding visit_bytes encode_head
visit_bytes-advance e value = simp (or_false, append_assoc) refl

visit_link-advance :
    (e : CborEncoder) (c : Cid)
    → visit_link e c
      ≡ advance e (head 6 42 0 ++ (head 2 (length c.bytes + 1) 0 ++ (0 ∷ c.bytes))) true false
unfolding visit_link encode_head
visit_link-advance e c = simp (or_false, or_true, append_assoc) refl

start_list-advance :
    (e : CborEncoder) (ns : Nodes)
    → start_list e ns ≡ advance e (head 4 (count_nodes ns) 0) false false
unfolding start_list encode_head
start_list-advance e ns = put-advance e _

start_map-advance :
    (e : CborEncoder) (es : Entries)
    → start_map e es ≡ advance e (head 5 (count_entries es) 0) false false
unfolding start_map encode_head
start_map-advance e es = put-advance e _

mutual
  unfolding visit_node visit_int64 encode_head encode contains_link beyond_dag

  visit_node-advance :
      (e : CborEncoder) (n : Node)
      → visit_node e n ≡ advance e (encode n) (contains_link n) (beyond_dag n)
  visit_node-advance e null = visit_null-advance e
  visit_node-advance e (boolean value) = visit_boolean-advance e value
  visit_node-advance e (int64 (pos n)) = put-advance e _
  visit_node-advance e (int64 (negsuc n)) = put-advance e _
  visit_node-advance e (uint64 n) = visit_uint64-advance e n
  visit_node-advance e (float value) = visit_float-advance e value
  visit_node-advance e (string value) = visit_string-advance e value
  visit_node-advance e (bytes value) = visit_bytes-advance e value
  visit_node-advance e (link c) = visit_link-advance e c
  visit_node-advance e (list ns) =
      rw (start_list-advance e ns) (visit_items-advance _ ns ∙ advance-advance e _ _ _ _ _ _)
  visit_node-advance e (map es) =
      rw (start_map-advance e es) (visit_entries-advance _ es ∙ advance-advance e _ _ _ _ _ _)

  visit_items-advance :
      (e : CborEncoder) (ns : Nodes)
      → visit_items e ns ≡ advance e (encode_nodes ns) (nodes_contain_link ns) (nodes_beyond_dag ns)
  visit_items-advance e no_nodes = advance-nil e
  visit_items-advance e (node n ns) =
      rw (visit_node-advance e n) (visit_items-advance _ ns ∙ advance-advance e _ _ _ _ _ _)

  visit_entries-advance :
      (e : CborEncoder) (es : Entries)
      → visit_entries e es
        ≡ advance e (encode_entries es) (entries_contain_link es) (entries_beyond_dag es)
  visit_entries-advance e no_entries = advance-nil e
  visit_entries-advance e (entry k n es) =
      let key = head 3 (length k) 0 ++ k in
      let both = advance-advance e key (encode n) false (contains_link n) false (beyond_dag n) in
      let step =
        ap (λ t. visit_node t n) (visit_string-advance e k) ∙ visit_node-advance _ n ∙ both in
      rw step (visit_entries-advance _ es ∙ advance-advance e _ _ _ _ _ _ ∙ simp append_assoc refl)

-- The encoder writes the bytes of the node behind what it has, and raises `has_links` just for a
-- link in the node and `not_dag_cbor` just for a number that DAG-CBOR does not allow.
pub visit_node_lem :
    (e : CborEncoder) (n : Node)
    → visit_node e n ≡ advance e (encode n) (contains_link n) (beyond_dag n)
visit_node_lem e n = visit_node-advance e n

pub save_as_cbor-eq : (n : Node) → save_as_cbor n ≡ encode n
unfolding save_as_cbor
save_as_cbor-eq n = ap (λ e. e.out) (visit_node_lem empty_encoder n)

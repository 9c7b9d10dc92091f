-- ===== src/Cbor/Decode/RoundTrip.antt =====
-- What the encoder writes is loaded back: memodb/lib/CBOREncoder.cpp and memodb/lib/Node.cpp.
use bcdb.Prelude.{
  ℕ, zero, suc, ◌+◌, ◌*◌, ◌≤◌, ◌≡◌, refl, sym, ap, ◌∙◌, Bool, true, false, List, [], ◌++◌, length,
  length-append, append_assoc, append-nil, arith,
}
use bcdb.Prelude.Int.{pos, negsuc}
use bcdb.Node.{
  Node, null, boolean, int64, uint64, float, bytes, string, link, list, map, Nodes, no_nodes, node,
  Entries, no_entries, entry,
}
use bcdb.Node.Map.Sorted.{IsSorted}
use bcdb.Node.Wellformed.{
  count_nodes, count_entries, normalise, normalise_nodes, normalise_entries, IsNode, IsNodes,
  IsEntries,
}
use bcdb.Cbor.{head, save_as_cbor}
use bcdb.Cbor.Encoding.{encode, encode_nodes, encode_entries, save_as_cbor-eq}
use bcdb.Cbor.Decode.{
  ok, simple_node, next_item, string_of, load_node, load_nodes, load_entries,
  load_from_cbor_sequence, all_read, load_from_cbor,
}
use bcdb.Cbor.Decode.Items.{
  load_head-plain, length-head, length-encode, load_node-string, load_node-bytes, load_node-number,
  load_node-negative, load_node-simple, load_node-double, load_node-link,
}
use bcdb.Cbor.Decode.Members.{
  append_entries, AllBelowAll, insert_or_assign-last, append_entries_assoc, append_entries-nil,
  AllBelowAll-last, AllBelowAll-none, append_entries_none,
}

entry_size :
    (k : List ℕ) (n : Node) (es : Entries)
    → length (encode_entries (entry k n es))
      ≡ length (head 3 (length k) 0 ++ k) + (length (encode n) + length (encode_entries es))
unfolding encode_entries
entry_size k n es = omega (
  arith,
  length-append (head 3 (length k) 0 ++ k) (encode n ++ encode_entries es),
  length-append (encode n) (encode_entries es),
)

module _ (is_legal_utf8 : List ℕ → Bool) where
  mutual
    unfolding encode encode_nodes encode_entries normalise normalise_nodes normalise_entries IsNode
        IsNodes IsEntries count_nodes count_entries load_node load_nodes load_entries next_item
        simple_node string_of

    load_node-encoded :
        (f : ℕ) (n : Node) (rest : List ℕ)
        → IsNode is_legal_utf8 n
        → 2 * length (encode n) ≤ f
        → load_node is_legal_utf8 (suc f) (encode n ++ rest) ≡ ok (normalise n, rest)
    load_node-encoded f null rest h e = load_node-simple is_legal_utf8 f 22 rest (omega arith)
    load_node-encoded f (boolean true) rest h e =
        load_node-simple is_legal_utf8 f 21 rest (omega arith)
    load_node-encoded f (boolean false) rest h e =
        load_node-simple is_legal_utf8 f 20 rest (omega arith)
    load_node-encoded f (int64 (pos n)) rest h e =
        load_node-number is_legal_utf8 f n rest (omega arith)
    load_node-encoded f (int64 (negsuc n)) rest h e = load_node-negative is_legal_utf8 f n rest h
    load_node-encoded f (uint64 n) rest h e = load_node-number is_legal_utf8 f n rest h
    load_node-encoded f (float d) rest h e = load_node-double is_legal_utf8 f d rest h
    load_node-encoded f (bytes b) rest h e = load_node-bytes is_legal_utf8 f b rest h
    load_node-encoded f (string s) rest h e = load_node-string is_legal_utf8 f s rest h
    load_node-encoded f (link c) rest h e = load_node-link is_legal_utf8 f c rest h.0 h.1
    load_node-encoded f (list ns) rest h e =
        let size = length-append (head 4 (count_nodes ns) 0) (encode_nodes ns) in
        let enough : 2 * length (encode_nodes ns) + 2 ≤ f =
          omega (arith, size, length-head 4 (count_nodes ns) 0) in
        let items = load_nodes-encoded f ns rest h.1 enough in
        rw
          (
            append_assoc,
            load_head-plain 4 (count_nodes ns) (encode_nodes ns ++ rest) (omega arith) refl h.0,
          )
          (rw items refl)
    load_node-encoded f (map es) rest h e =
        let size = length-append (head 5 (count_entries es) 0) (encode_entries es) in
        let enough : 2 * length (encode_entries es) + 2 ≤ f =
          omega (arith, size, length-head 5 (count_entries es) 0) in
        let members =
          load_entries-encoded f no_entries es rest h.1 h.2 (AllBelowAll-none es) enough in
        rw
          (
            append_assoc,
            load_head-plain 5 (count_entries es) (encode_entries es ++ rest) (omega arith) refl h.0,
          )
          (rw (members, append_entries_none) refl)

    load_nodes-encoded :
        (f : ℕ) (ns : Nodes) (rest : List ℕ)
        → IsNodes is_legal_utf8 ns
        → 2 * length (encode_nodes ns) + 2 ≤ f
        → load_nodes is_legal_utf8 f false (count_nodes ns) (encode_nodes ns ++ rest)
          ≡ ok (normalise_nodes ns, rest)
    load_nodes-encoded zero ns rest h e = absurd (omega arith)
    load_nodes-encoded (suc f) no_nodes rest h e = refl
    load_nodes-encoded (suc zero) (node n ns) rest h e =
        absurd (omega (arith, length-append (encode n) (encode_nodes ns), length-encode n))
    load_nodes-encoded (suc (suc f)) (node n ns) rest h e =
        let size = length-append (encode n) (encode_nodes ns) in
        let pos = length-encode n in
        let first = load_node-encoded f n (encode_nodes ns ++ rest) h.0 (omega arith) in
        let later = load_nodes-encoded (suc f) ns rest h.1 (omega arith) in
        rw (append_assoc (encode n) (encode_nodes ns) rest, first) (rw later refl)

    load_entries-encoded :
        (f : ℕ) (result es : Entries) (rest : List ℕ)
        → IsSorted es
        → IsEntries is_legal_utf8 es
        → AllBelowAll result es
        → 2 * length (encode_entries es) + 2 ≤ f
        → load_entries is_legal_utf8 f false (count_entries es) result (encode_entries es ++ rest)
          ≡ ok (append_entries result (normalise_entries es), rest)
    load_entries-encoded zero result es rest s h b e = absurd (omega arith)
    load_entries-encoded (suc f) result no_entries rest s h b e =
        ap (λ t. ok (t, rest)) (sym (append_entries-nil result))
    load_entries-encoded (suc zero) result (entry k n es) rest s h b e =
        absurd (omega (arith, entry_size k n es, length-encode n))
    load_entries-encoded (suc (suc f)) result (entry k n es) rest s h b e =
        let key = head 3 (length k) 0 ++ k in
        let size = entry_size k n es in
        let pos = length-encode n in
        let name =
          load_node-string is_legal_utf8 f k (encode n ++ (encode_entries es ++ rest)) h.0 in
        let value = load_node-encoded f n (encode_entries es ++ rest) h.1 (omega arith) in
        let last = insert_or_assign-last k (normalise n) result b.0 in
        let more = AllBelowAll-last result k (normalise n) es b.1 s.0 in
        let later =
          load_entries-encoded (suc f) (append_entries result (entry k (normalise n) no_entries)) es
            rest s.1 h.2 more (omega arith) in
        rw
          (
            append_assoc key (encode n ++ encode_entries es) rest,
            append_assoc (encode n) (encode_entries es) rest,
            name,
          )
          (rw value (
            ap
              (λ t.
                load_entries is_legal_utf8 (suc f) false (count_entries es) t
                  (encode_entries es ++ rest))
              last
            ∙ later
            ∙ ap (λ t. ok (t, rest))
                (append_entries_assoc result k (normalise n) (normalise_entries es))))

  -- A well-formed node is loaded back from its encoding, whatever follows it, which is left, but
  -- for integers that are not negative: these come back as unsigned.
  pub load_from_cbor_sequence-encode :
      (n : Node) (rest : List ℕ)
      → IsNode is_legal_utf8 n
      → load_from_cbor_sequence is_legal_utf8 (encode n ++ rest) ≡ ok (normalise n, rest)
  unfolding load_from_cbor_sequence
  load_from_cbor_sequence-encode n rest h =
      let enough : 2 * length (encode n) ≤ 2 * length (encode n ++ rest) =
        omega (arith, length-append (encode n) rest) in
      ap (λ t. load_node is_legal_utf8 t (encode n ++ rest))
        {y = suc (2 * length (encode n ++ rest))} (omega arith)
      ∙ load_node-encoded (2 * length (encode n ++ rest)) n rest h enough

  -- What Node::saveAsCBOR writes for a well-formed node, Node::loadFromCBOR loads back to the same
  -- node, but for integers that are not negative: these come back as unsigned.
  pub load_from_cbor-save_as_cbor :
      (n : Node)
      → IsNode is_legal_utf8 n
      → load_from_cbor is_legal_utf8 (save_as_cbor n) ≡ ok (normalise n)
  unfolding load_from_cbor all_read
  load_from_cbor-save_as_cbor n h =
      rw (save_as_cbor-eq n, ← append-nil (encode n), load_from_cbor_sequence-encode n [] h) refl

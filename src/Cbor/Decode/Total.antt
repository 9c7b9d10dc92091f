-- ===== src/Cbor/Decode/Total.antt =====
-- Node::loadFromCBOR of memodb/lib/Node.cpp ends on every input, and the maps that it makes.
pub mod Parts
use bcdb.Prelude.{
  ℕ, zero, suc, ◌+◌, ◌*◌, ◌≤◌, ◌<◌, ◌≡◌, ◌≢◌, refl, Bool, true, false, Option, none, some, List, [],
  ◌∷◌, length, arith, ◌==◌,
}
use mathlib.Core.Path.{subst}
use bcdb.Node.{
  Node, null, boolean, int64, uint64, float, bytes, string, link, list, map, Nodes, no_nodes, node,
  Entries, no_entries, entry,
}
use bcdb.Node.Map.{insert_or_assign}
use bcdb.Node.Map.Sorted.{IsSorted, operations-IsSorted}
use bcdb.Node.Wellformed.{IsOrdered, AllOrdered, ValuesOrdered, insert_or_assign-ValuesOrdered}
use bcdb.Cbor.Decode.{
  Expected, ok, failed, stuck, ◌>>=◌, Head, load_head, load_scalar, next_item, string_of, load_node,
  load_nodes, load_entries, load_from_cbor_sequence, all_read, load_from_cbor,
}
use bcdb.Cbor.Decode.Total.Parts.{
  Ends, holds, rejected, Ends->>=, Ends-ne_stuck, Ends-ok, Ends-elim, Ends-weaken, load_head-Ends,
  load_scalar-Ends, next_item-length, string_of-Ends,
}

module _ (is_legal_utf8 : List ℕ → Bool) where
  -- A node that is loaded is ordered and takes a byte at least.
  abbrev NodeEnds : List ℕ → Expected (Node × List ℕ) → Type 0
  NodeEnds in_ r = Ends (λ (n, rest). IsOrdered n × (length rest < length in_)) r

  abbrev NodesEnd : List ℕ → Expected (Nodes × List ℕ) → Type 0
  NodesEnd in_ r = Ends (λ (ns, rest). AllOrdered ns × (length rest ≤ length in_)) r

  abbrev EntriesEnd : List ℕ → Expected (Entries × List ℕ) → Type 0
  EntriesEnd in_ r =
      Ends (λ (es, rest). IsSorted es × ValuesOrdered es × (length rest ≤ length in_)) r

  next_nodes-Ends :
      (f : ℕ) (indefinite : Bool)
      → ((in_ : List ℕ) → 2 * length in_ + 1 ≤ f → NodeEnds in_ (load_node is_legal_utf8 f in_))
      → ((additional : ℕ) (in_ : List ℕ)
          → 2 * length in_ + 2 ≤ f
          → NodesEnd in_ (load_nodes is_legal_utf8 f indefinite additional in_))
      → (next : Option ℕ) (in_ rest : List ℕ) → length rest ≤ length in_
      → 2 * length in_ + 1 ≤ f
      → NodesEnd in_ (elim next [
        | none ↦ ok (no_nodes, rest)
        | some left ↦ load_node is_legal_utf8 f rest >>= λ (n, rest').
            load_nodes is_legal_utf8 f indefinite left rest' >>= λ (ns, rest'').
            ok (node n ns, rest'')
      ])
  unfolding AllOrdered
  next_nodes-Ends f indefinite one all none in_ rest l h = holds (tt, l)
  next_nodes-Ends f indefinite one all (some left) in_ rest l h =
      Ends->>= (one rest (omega arith)) λ (n, rest') (o, less).
        Ends->>= (all left rest' (omega arith))
          λ (ns, rest'') (os, more). holds ((o, os), omega arith)

  next_entries-Ends :
      (f : ℕ) (indefinite : Bool)
      → ((in_ : List ℕ) → 2 * length in_ + 1 ≤ f → NodeEnds in_ (load_node is_legal_utf8 f in_))
      → ((additional : ℕ) (result : Entries) (in_ : List ℕ)
          → IsSorted result
          → ValuesOrdered result
          → 2 * length in_ + 2 ≤ f
          → EntriesEnd in_ (load_entries is_legal_utf8 f indefinite additional result in_))
      → (next : Option ℕ) (result : Entries) (in_ rest : List ℕ) → IsSorted result
      → ValuesOrdered result
      → length rest ≤ length in_
      → 2 * length in_ + 1 ≤ f
      → EntriesEnd in_ (elim next [
        | none ↦ ok (result, rest)
        | some left ↦ load_node is_legal_utf8 f rest >>= λ (k, rest'). string_of k >>= λ name.
            load_node is_legal_utf8 f rest' >>= λ (value, rest'').
            load_entries is_legal_utf8 f indefinite left
              (insert_or_assign name value result).0
              rest''
      ])
  unfolding ValuesOrdered
  next_entries-Ends f indefinite one all none result in_ rest s v l h = holds (s, v, l)
  next_entries-Ends f indefinite one all (some left) result in_ rest s v l h =
      Ends->>= (one rest (omega arith)) λ (k, rest') (_, less).
        Ends->>= (string_of-Ends k) λ name _.
          Ends->>= (one rest' (omega arith)) λ (value, rest'') (o, more).
            Ends-weaken (λ (es, rest3) (s', v', last). (s', v', omega arith))
              (all left (insert_or_assign name value result).0 rest''
                (operations-IsSorted name value result s).0
                (insert_or_assign-ValuesOrdered name value result o v) (omega arith))

  mutual
    unfolding load_node load_nodes load_entries IsOrdered AllOrdered ValuesOrdered

    load_node-Ends :
        (f : ℕ) (in_ : List ℕ)
        → 2 * length in_ + 1 ≤ f
        → NodeEnds in_ (load_node is_legal_utf8 f in_)
    load_node-Ends zero in_ h = absurd (omega arith)
    load_node-Ends (suc f) in_ h = Ends->>= (load_head-Ends in_) λ (is_cid, head, rest) shorter.
        Ends-elim (head.major_type == 4)
          (Ends->>= (load_nodes-Ends f head.indefinite head.additional rest (omega arith))
            λ (ns, rest') (o, less). holds (o, omega arith))
          (Ends-elim (head.major_type == 5)
            (Ends->>=
              (load_entries-Ends f head.indefinite head.additional no_entries rest tt tt
                (omega arith))
              λ (es, rest') (s, v, less). holds ((s, v), omega arith))
            (Ends-weaken (λ (n, rest') (o, less). (o, omega arith))
              (load_scalar-Ends is_legal_utf8 is_cid head rest)))

    load_nodes-Ends :
        (f : ℕ) (indefinite : Bool) (additional : ℕ) (in_ : List ℕ)
        → 2 * length in_ + 2 ≤ f
        → NodesEnd in_ (load_nodes is_legal_utf8 f indefinite additional in_)
    load_nodes-Ends zero indefinite additional in_ h = absurd (omega arith)
    load_nodes-Ends (suc f) indefinite additional in_ h =
        let (next, rest) = next_item indefinite additional in_ in
        next_nodes-Ends f indefinite (λ i. load_node-Ends f i)
          (λ a i. load_nodes-Ends f indefinite a i) next in_ rest
          (next_item-length indefinite additional in_) (omega arith)

    load_entries-Ends :
        (f : ℕ) (indefinite : Bool) (additional : ℕ) (result : Entries) (in_ : List ℕ)
        → IsSorted result
        → ValuesOrdered result
        → 2 * length in_ + 2 ≤ f
        → EntriesEnd in_ (load_entries is_legal_utf8 f indefinite additional result in_)
    load_entries-Ends zero indefinite additional result in_ s v h = absurd (omega arith)
    load_entries-Ends (suc f) indefinite additional result in_ s v h =
        let (next, rest) = next_item indefinite additional in_ in
        next_entries-Ends f indefinite (λ i. load_node-Ends f i)
          (λ a m i. load_entries-Ends f indefinite a m i) next result in_ rest s v
          (next_item-length indefinite additional in_) (omega arith)

  load_from_cbor-Ends : (in_ : List ℕ) → Ends IsOrdered (load_from_cbor is_legal_utf8 in_)
  unfolding load_from_cbor load_from_cbor_sequence all_read
  load_from_cbor-Ends in_ =
      Ends->>= (load_node-Ends (2 * length in_ + 1) in_ (omega arith))
        λ (n, rest) (o, _). whole n rest o
    where
      whole : (n : Node) (rest : List ℕ) → IsOrdered n → Ends IsOrdered (all_read (n, rest))
      whole n [] o = holds o
      whole n (b ∷ rest) o = rejected

  -- loadFromCBOR ends on every input: the fuel of the model is enough.
  pub load_from_cbor-ne_stuck : (in_ : List ℕ) → load_from_cbor is_legal_utf8 in_ ≢ stuck
  load_from_cbor-ne_stuck in_ = Ends-ne_stuck (load_from_cbor-Ends in_)

  -- In a node that loadFromCBOR gives, every map is sorted by key with no key twice, whatever the
  -- order of the keys in the input and however often they stand there.
  pub load_from_cbor-IsOrdered :
      (in_ : List ℕ) {n : Node} → load_from_cbor is_legal_utf8 in_ ≡ ok n → IsOrdered n
  load_from_cbor-IsOrdered in_ e = Ends-ok (load_from_cbor-Ends in_) e

-- ===== src/Node/Wellformed.antt =====
-- The nodes that the constructors of memodb/include/memodb/Node.h make, and how a stored node
-- reads back.
use bcdb.Prelude.{ℕ, suc, ◌+◌, ◌^◌, ◌<◌, ◌≡◌, Bool, true, List, length, arith}
use bcdb.Prelude.Int.{pos, negsuc}
use bcdb.Ieee.{IsDouble}
use bcdb.Cid.Load.{IsValid}
use bcdb.Node.{
  Node, null, boolean, int64, uint64, float, bytes, string, link, list, map, Nodes, no_nodes, node,
  Entries, no_entries, entry,
}
use bcdb.Node.Map.{insert_or_assign}
use bcdb.Node.Map.Sorted.{IsSorted}

unfoldable pub count_nodes : Nodes → ℕ
count_nodes no_nodes = 0
count_nodes (node n ns) = suc (count_nodes ns)

unfoldable pub count_entries : Entries → ℕ
count_entries no_entries = 0
count_entries (entry k n es) = suc (count_entries es)

-- An integer that is not negative is read back as a uint64_t.
unfoldable mutual
  pub normalise : Node → Node
  normalise (int64 (pos n)) = uint64 n
  normalise (list ns) = list (normalise_nodes ns)
  normalise (map es) = map (normalise_entries es)
  normalise n = n

  pub normalise_nodes : Nodes → Nodes
  normalise_nodes no_nodes = no_nodes
  normalise_nodes (node n ns) = node (normalise n) (normalise_nodes ns)

  pub normalise_entries : Entries → Entries
  normalise_entries no_entries = no_entries
  normalise_entries (entry k n es) = entry k (normalise n) (normalise_entries es)

-- Nodes in which every map is sorted, with no key twice.
unfoldable mutual
  pub IsOrdered : Node → Type 0
  IsOrdered (list ns) = AllOrdered ns
  IsOrdered (map es) = IsSorted es × ValuesOrdered es
  IsOrdered n = Unit

  pub AllOrdered : Nodes → Type 0
  AllOrdered no_nodes = Unit
  AllOrdered (node n ns) = IsOrdered n × AllOrdered ns

  pub ValuesOrdered : Entries → Type 0
  ValuesOrdered no_entries = Unit
  ValuesOrdered (entry k n es) = IsOrdered n × ValuesOrdered es

pub insert_or_assign-ValuesOrdered :
    (name : List ℕ) (value : Node) (m : Entries)
    → IsOrdered value
    → ValuesOrdered m
    → ValuesOrdered (insert_or_assign name value m).0
unfolding insert_or_assign IsOrdered
insert_or_assign-ValuesOrdered name value no_entries h k = (h, tt)
insert_or_assign-ValuesOrdered name value (entry c v rest) h k =
    ground (arith, insert_or_assign-ValuesOrdered name value rest)

abbrev pub Fits : ℕ → Type 0
Fits size = size < 2 ^ 64

module _ (is_legal_utf8 : List ℕ → Bool) where
  abbrev pub IsText : List ℕ → Type 0
  IsText s = Fits (length s) × (is_legal_utf8 s ≡ true)

  -- Sizes fit in a size_t, integers in their types, doubles are IEEE 754 doubles, strings and keys
  -- are UTF-8, links are to valid CIDs, and maps are sorted.
  unfoldable mutual
    pub IsNode : Node → Type 0
    IsNode null = Unit
    IsNode (boolean b) = Unit
    IsNode (int64 (pos n)) = n < 2 ^ 63
    IsNode (int64 (negsuc n)) = n < 2 ^ 63
    IsNode (uint64 n) = Fits n
    IsNode (float d) = IsDouble d
    IsNode (bytes b) = Fits (length b)
    IsNode (string s) = IsText s
    IsNode (link c) = IsValid c × Fits (length c.bytes + 1)
    IsNode (list ns) = Fits (count_nodes ns) × IsNodes ns
    IsNode (map es) = Fits (count_entries es) × IsSorted es × IsEntries es

    pub IsNodes : Nodes → Type 0
    IsNodes no_nodes = Unit
    IsNodes (node n ns) = IsNode n × IsNodes ns

    pub IsEntries : Entries → Type 0
    IsEntries no_entries = Unit
    IsEntries (entry k n es) = IsText k × IsNode n × IsEntries es

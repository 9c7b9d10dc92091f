-- ===== src/Node.antt =====
-- memodb/include/memodb/Node.h and memodb/lib/Node.cpp: the structured values of MemoDB.
-- A string and a byte vector are lists of numbers below 256. A Link stands for the CID that it
-- gives: what it caches of the store is left out.
pub mod Map
pub mod Wellformed
use bcdb.Prelude.{ℕ, List, Bool}
use bcdb.Prelude.Int.{ℤ}
use bcdb.Cid.{Cid}
use bcdb.Ieee.{Double}

-- The alternatives of Node::variant_, std::monostate first.
mutual
  pub data Node : Type 0 where
    null : Node
    boolean : Bool → Node
    int64 : ℤ → Node
    uint64 : ℕ → Node
    float : Double → Node
    bytes : List ℕ → Node
    string : List ℕ → Node
    link : Cid → Node
    list : Nodes → Node
    map : Entries → Node

  -- std::vector<Node>
  pub data Nodes : Type 0 where
    no_nodes : Nodes
    node : Node → Nodes → Nodes

  -- The members of a NodeMap, keys with values.
  pub data Entries : Type 0 where
    no_entries : Entries
    entry : List ℕ → Node → Entries → Entries

-- ===== src/Node/Map/Sorted.antt =====
-- The vector behind a NodeMap stays sorted: memodb/include/memodb/Node.h.
use bcdb.Prelude.{List, ℕ, ◌≡◌, true, arith}
use bcdb.Node.{Node, Entries, no_entries, entry}
use bcdb.Node.Map.{key_less, insert_or_assign, try_emplace, erase}
use bcdb.Node.Map.Order.{key_less_total, key_less_trans}

-- `name` is below all the keys.
abbrev pub Below : List ℕ → Entries → Type 0
Below name no_entries = Unit
Below name (entry k v rest) = (key_less name k ≡ true) × Below name rest

abbrev pub IsSorted : Entries → Type 0
IsSorted no_entries = Unit
IsSorted (entry k v rest) = Below k rest × IsSorted rest

pub Below-trans : (a b : List ℕ) (m : Entries) → key_less a b ≡ true → Below b m → Below a m
Below-trans a b no_entries h k = tt
Below-trans a b (entry c v rest) h k = (key_less_trans a b c h k.0, Below-trans a b rest h k.1)

Below-insert_or_assign :
    (a name : List ℕ) (value : Node) (m : Entries)
    → key_less a name ≡ true
    → Below a m
    → Below a (insert_or_assign name value m).0
unfolding insert_or_assign
Below-insert_or_assign a name value no_entries h b = (h, tt)
Below-insert_or_assign a name value (entry k v rest) h b =
    ground (arith, Below-insert_or_assign a name value rest)

Below-try_emplace :
    (a name : List ℕ) (value : Node) (m : Entries)
    → key_less a name ≡ true
    → Below a m
    → Below a (try_emplace name value m).0
unfolding try_emplace
Below-try_emplace a name value no_entries h b = (h, tt)
Below-try_emplace a name value (entry k v rest) h b =
    ground (arith, Below-try_emplace a name value rest)

Below-erase : (a name : List ℕ) (m : Entries) → Below a m → Below a (erase name m)
unfolding erase
Below-erase a name no_entries b = tt
Below-erase a name (entry k v rest) b = ground (arith, Below-erase a name rest)

-- Each operation that changes a NodeMap keeps sorted members sorted by key, with no key twice.
pub operations-IsSorted :
    (name : List ℕ) (value : Node) (m : Entries)
    → IsSorted m
    → IsSorted (insert_or_assign name value m).0
      × IsSorted (try_emplace name value m).0
      × IsSorted (erase name m)
unfolding insert_or_assign try_emplace erase
operations-IsSorted name value no_entries h = ((tt, tt), (tt, tt), tt)
operations-IsSorted name value (entry k v rest) h =
    let (insert, emplace, erased) = operations-IsSorted name value rest h.1 in
    let above = key_less_total k name in
    let below = Below-trans name k rest in
    (
      ground (arith, Below-insert_or_assign k name value rest, insert, above, below),
      ground (arith, Below-try_emplace k name value rest, emplace, above, below),
      ground (arith, Below-erase k name rest, erased),
    )

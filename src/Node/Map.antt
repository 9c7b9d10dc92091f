-- ===== src/Node/Map.antt =====
-- NodeMap of memodb/include/memodb/Node.h: a map on a vector sorted by key. An iterator is left
-- out: `find` gives the value that the iterator points to, and the two inserting operations the
-- vector and the flag. std::lower_bound stops at the first member whose key is not below the name.
pub mod Order
pub mod Sorted
pub mod Lookup
use bcdb.Prelude.{
  ℕ, Bool, true, false, Option, none, some, List, [], ◌∷◌, length, ltb, ◌==◌, if◌then◌else◌,
}
use bcdb.Node.{Node, Entries, no_entries, entry}

-- StringRef's operator<: lexicographic order of bytes.
unfoldable pub lex_less : List ℕ → List ℕ → Bool
lex_less [] [] = false
lex_less [] (b ∷ ys) = true
lex_less (a ∷ xs) [] = false
lex_less (a ∷ xs) (b ∷ ys) = let rest = lex_less xs ys in if a == b then rest else ltb a b

-- StringRef's operator==
unfoldable pub key_eq : List ℕ → List ℕ → Bool
key_eq [] [] = true
key_eq [] (b ∷ ys) = false
key_eq (a ∷ xs) [] = false
key_eq (a ∷ xs) (b ∷ ys) = let rest = key_eq xs ys in if a == b then rest else false

-- NodeMap::compare
unfoldable pub key_less : List ℕ → List ℕ → Bool
unfolding lex_less
key_less a b = if length a == length b then lex_less a b else ltb (length a) (length b)

unfoldable pub find : List ℕ → Entries → Option Node
unfolding key_less key_eq
find name no_entries = none
find name (entry k v rest) =
    let later = find name rest in
    if key_less k name then later else (if key_eq k name then some v else none)

unfoldable pub insert_or_assign : List ℕ → Node → Entries → Entries × Bool
insert_or_assign name value no_entries = (entry name value no_entries, true)
insert_or_assign name value (entry k v rest) =
    let (later, inserted) = insert_or_assign name value rest in
    if key_less k name
    then (entry k v later, inserted)
    else (if key_eq k name
        then (entry k value rest, false)
        else (entry name value (entry k v rest), true))

unfoldable pub try_emplace : List ℕ → Node → Entries → Entries × Bool
try_emplace name value no_entries = (entry name value no_entries, true)
try_emplace name value (entry k v rest) =
    let (later, inserted) = try_emplace name value rest in
    if key_less k name
    then (entry k v later, inserted)
    else (if key_eq k name
        then (entry k v rest, false)
        else (entry name value (entry k v rest), true))

unfoldable pub erase : List ℕ → Entries → Entries
erase name no_entries = no_entries
erase name (entry k v rest) =
    let later = erase name rest in
    if key_less k name then entry k v later else (if key_eq k name then rest else entry k v rest)

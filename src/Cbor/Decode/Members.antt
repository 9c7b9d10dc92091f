-- ===== src/Cbor/Decode/Members.antt =====
-- The members of a map, put in one after the other as loadFromCBORSequence of memodb/lib/Node.cpp
-- does, where the keys come in order.
use bcdb.Prelude.{ℕ, ◌≡◌, refl, ap, true, List}
use bcdb.Node.{Node, Entries, no_entries, entry}
use bcdb.Node.Map.{insert_or_assign, key_less}
use bcdb.Node.Map.Sorted.{Below}

-- Members put behind those that are there already.
unfoldable pub append_entries : Entries → Entries → Entries
append_entries no_entries es = es
append_entries (entry k v rest) es = entry k v (append_entries rest es)

-- Every key that is there already is below `name`.
abbrev pub AllBelow : Entries → List ℕ → Type 0
AllBelow no_entries name = Unit
AllBelow (entry k v rest) name = (key_less k name ≡ true) × AllBelow rest name

abbrev pub AllBelowAll : Entries → Entries → Type 0
AllBelowAll result no_entries = Unit
AllBelowAll result (entry k n es) = AllBelow result k × AllBelowAll result es

pub insert_or_assign-last :
    (name : List ℕ) (value : Node) (result : Entries)
    → AllBelow result name
    → (insert_or_assign name value result).0 ≡ append_entries result (entry name value no_entries)
unfolding insert_or_assign append_entries
insert_or_assign-last name value no_entries h = refl
insert_or_assign-last name value (entry k v rest) h =
    rw h.0 (ap (λ t. entry k v t) (insert_or_assign-last name value rest h.1))

pub append_entries_assoc :
    (result : Entries) (name : List ℕ) (value : Node) (es : Entries)
    → append_entries (append_entries result (entry name value no_entries)) es
      ≡ append_entries result (entry name value es)
unfolding append_entries
append_entries_assoc no_entries name value es = refl
append_entries_assoc (entry k v rest) name value es =
    ap (λ t. entry k v t) (append_entries_assoc rest name value es)

pub append_entries-nil : (result : Entries) → append_entries result no_entries ≡ result
unfolding append_entries
append_entries-nil no_entries = refl
append_entries-nil (entry k v rest) = ap (λ t. entry k v t) (append_entries-nil rest)

pub AllBelow-last :
    (result : Entries) (name k : List ℕ) (value : Node)
    → AllBelow result k
    → key_less name k ≡ true
    → AllBelow (append_entries result (entry name value no_entries)) k
unfolding append_entries
AllBelow-last no_entries name k value h e = (e, tt)
AllBelow-last (entry c v rest) name k value h e = (h.0, AllBelow-last rest name k value h.1 e)

pub AllBelowAll-last :
    (result : Entries) (name : List ℕ) (value : Node) (es : Entries)
    → AllBelowAll result es
    → Below name es
    → AllBelowAll (append_entries result (entry name value no_entries)) es
AllBelowAll-last result name value no_entries h b = tt
AllBelowAll-last result name value (entry k n es) h b =
    (AllBelow-last result name k value h.0 b.0, AllBelowAll-last result name value es h.1 b.1)

pub AllBelowAll-none : (es : Entries) → AllBelowAll no_entries es
AllBelowAll-none no_entries = tt
AllBelowAll-none (entry k n es) = (tt, AllBelowAll-none es)

pub append_entries_none : (es : Entries) → append_entries no_entries es ≡ es
unfolding append_entries
append_entries_none es = refl

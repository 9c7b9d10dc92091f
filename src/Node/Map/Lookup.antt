-- ===== src/Node/Map/Lookup.antt =====
-- NodeMap as a map from keys to values: memodb/include/memodb/Node.h.
use bcdb.Prelude.{
  List, ◌≡◌, refl, Bool, true, false, Option, none, some, if◌then◌else◌, arith, Bool-cases, inl,
  inr, ℕ,
}
use bcdb.Node.{Node, Entries, no_entries, entry}
use bcdb.Node.Map.{key_eq, key_less, find, insert_or_assign, try_emplace, erase}
use bcdb.Node.Map.Order.{
  key_less_total, key_less_irrefl, key_less_trans, key_eq→eq, key_eq_refl, key_less-key_eq,
}
use bcdb.Node.Map.Sorted.{IsSorted, Below, Below-trans}

abbrev pub is_none : Option Node → Bool
is_none none = true
is_none (some v) = false

abbrev pub or_else : Option Node → Node → Node
or_else none v = v
or_else (some w) v = w

key_less_asym : (a b : List ℕ) → key_less a b ≡ true → key_less b a ≡ false
key_less_asym a b h = elim (Bool-cases (key_less b a)) [
  | inl k ↦ cc (key_less_irrefl a, key_less_trans a b a h k)
  | inr k ↦ k
]

find-Below : (name : List ℕ) (m : Entries) → Below name m → find name m ≡ none
unfolding find
find-Below name no_entries h = refl
find-Below name (entry k v rest) h = ground (arith, key_less_asym name k, key_less-key_eq name k)

module _ (name : List ℕ) (value : Node) where
  find-insert_same : (m : Entries) → find name (insert_or_assign name value m).0 ≡ some value
  unfolding find insert_or_assign
  find-insert_same no_entries = ground (arith, key_less_irrefl name, key_eq_refl name)
  find-insert_same (entry k v rest) =
      ground (arith, key_less_irrefl name, key_eq_refl name, find-insert_same rest)

  find-emplace_same :
      (m : Entries) → find name (try_emplace name value m).0 ≡ some (or_else (find name m) value)
  unfolding find try_emplace
  find-emplace_same no_entries = ground (arith, key_less_irrefl name, key_eq_refl name)
  find-emplace_same (entry k v rest) =
      ground (arith, key_less_irrefl name, key_eq_refl name, find-emplace_same rest)

find-erase_same : (name : List ℕ) (m : Entries) → IsSorted m → find name (erase name m) ≡ none
unfolding find erase
find-erase_same name no_entries h = refl
find-erase_same name (entry k v rest) h = ground (arith, find-erase_same name rest, find_removed)
  where
    find_removed : key_eq k name ≡ true → find name rest ≡ none
    find_removed e = rw (← key_eq→eq k name e) (find-Below k rest h.0)

-- A key that is neither `name` nor above it is not found at or above a greater key.
find_absent :
    (name other k : List ℕ) (v : Node) (rest : Entries)
    → key_less k name ≡ false
    → key_eq k name ≡ false
    → key_less name other ≡ false
    → key_eq name other ≡ false
    → IsSorted (entry k v rest)
    → find other (entry k v rest) ≡ none
find_absent name other k v rest a b c d h =
    let above = key_less_total k name a b in
    let under = key_less_trans other name k (key_less_total name other c d) above in
    find-Below other (entry k v rest) (under, Below-trans other k rest under h.0)

-- What `name` is equal to differs from `other` as well.
key_eq_other :
    (name other k : List ℕ)
    → key_eq k name ≡ true
    → key_eq name other ≡ false
    → key_eq k other ≡ false
key_eq_other name other k e h = rw (key_eq→eq k name e) h

module _ (name other : List ℕ) (value : Node) (differ : key_eq name other ≡ false) where
  find-insert_other :
      (m : Entries) → IsSorted m → find other (insert_or_assign name value m).0 ≡ find other m
  unfolding find insert_or_assign
  find-insert_other no_entries h = ground (arith, differ)
  find-insert_other (entry k v rest) h =
      let absent = find_absent name other k v rest in
      ground (arith, differ, find-insert_other rest, key_eq_other name other k, absent)

  find-emplace_other :
      (m : Entries) → IsSorted m → find other (try_emplace name value m).0 ≡ find other m
  unfolding find try_emplace
  find-emplace_other no_entries h = ground (arith, differ)
  find-emplace_other (entry k v rest) h =
      let absent = find_absent name other k v rest in
      ground (arith, differ, find-emplace_other rest, key_eq_other name other k, absent)

module _ (name other : List ℕ) (differ : key_eq name other ≡ false) where
  find-erase_other : (m : Entries) → IsSorted m → find other (erase name m) ≡ find other m
  unfolding find erase
  find-erase_other no_entries h = refl
  find-erase_other (entry k v rest) h =
      ground (arith, differ, find-erase_other rest, key_eq_other name other k, beyond)
    where
      beyond : key_eq k name ≡ true → key_less k other ≡ false → find other rest ≡ none
      beyond e c =
          let above = key_less_total k other c (key_eq_other name other k e differ) in
          find-Below other rest (Below-trans other k rest above h.0)

insert_or_assign-flag :
    (name : List ℕ) (value : Node) (m : Entries)
    → IsSorted m
    → (insert_or_assign name value m).1 ≡ is_none (find name m)
unfolding find insert_or_assign
insert_or_assign-flag name value no_entries h = refl
insert_or_assign-flag name value (entry k v rest) h =
    ground (arith, insert_or_assign-flag name value rest)

try_emplace-flag :
    (name : List ℕ) (value : Node) (m : Entries)
    → IsSorted m
    → (try_emplace name value m).1 ≡ is_none (find name m)
unfolding find try_emplace
try_emplace-flag name value no_entries h = refl
try_emplace-flag name value (entry k v rest) h = ground (arith, try_emplace-flag name value rest)

module _ (name other : List ℕ) (value : Node) (m : Entries) (h : IsSorted m) where
  -- In sorted members, insert_or_assign makes `name` find the value and leaves what every other
  -- key finds; it reports an insertion just if `name` was not found.
  pub find-insert_or_assign :
      (find other (insert_or_assign name value m).0
        ≡ (if key_eq name other then some value else find other m))
      × ((insert_or_assign name value m).1 ≡ is_none (find name m))
  find-insert_or_assign = (
    elim (Bool-cases (key_eq name other)) [
      | inl e ↦ rw (e, ← key_eq→eq name other e) (find-insert_same name value m)
      | inr e ↦ rw e (find-insert_other name other value e m h)
    ],
    insert_or_assign-flag name value m h,
  )

  -- In sorted members, try_emplace makes `name` find what it found before, else the value, and
  -- leaves what every other key finds; it reports an insertion just if `name` was not found.
  pub find-try_emplace :
      (find other (try_emplace name value m).0
        ≡ (if key_eq name other then some (or_else (find name m) value) else find other m))
      × ((try_emplace name value m).1 ≡ is_none (find name m))
  find-try_emplace = (
    elim (Bool-cases (key_eq name other)) [
      | inl e ↦ rw (e, ← key_eq→eq name other e) (find-emplace_same name value m)
      | inr e ↦ rw e (find-emplace_other name other value e m h)
    ],
    try_emplace-flag name value m h,
  )

module _ (name other : List ℕ) (m : Entries) (h : IsSorted m) where
  -- In sorted members, erase makes `name` find nothing and leaves what every other key finds.
  pub find-erase : find other (erase name m) ≡ (if key_eq name other then none else find other m)
  find-erase = elim (Bool-cases (key_eq name other)) [
    | inl e ↦ rw (e, ← key_eq→eq name other e) (find-erase_same name m h)
    | inr e ↦ rw e (find-erase_other name other e m h)
  ]

-- ===== src/Server/Calls/Keys.antt =====
-- Equality of calls: memodb/lib/Store.cpp.
use bcdb.Prelude.{ℕ, suc, ◌+◌, ◌≡◌, refl, true, false, List, [], ◌∷◌, ◌++◌, if◌then◌else◌, arith}
use bcdb.Node.Map.{key_eq}
use bcdb.Node.Map.Order.{key_eq→eq}
use bcdb.Server.Calls.{Key, same_key}

key_eq_self : (a : List ℕ) → key_eq a a ≡ true
unfolding key_eq
key_eq_self [] = refl
key_eq_self (x ∷ a) = ground (arith, key_eq_self a)

pub same_key_self : (a : Key) → same_key a a ≡ true
unfolding same_key
same_key_self [] = refl
same_key_self (x ∷ a) = rw (key_eq_self x, same_key_self a) refl

pub same_key→eq : (a b : Key) → same_key a b ≡ true → a ≡ b
unfolding same_key
same_key→eq [] [] h = refl
same_key→eq [] (y ∷ b) h = cc
same_key→eq (x ∷ a) [] h = cc
same_key→eq (x ∷ a) (y ∷ b) h = ground (arith, key_eq→eq x y, same_key→eq a b)

-- How often a key stands in a queue.
unfoldable pub count : Key → List Key → ℕ
count key [] = 0
count key (k ∷ queue) = let rest = count key queue in if same_key key k then suc rest else rest

pub count-append : (key : Key) (a b : List Key) → count key (a ++ b) ≡ count key a + count key b
unfolding count
count-append key [] b = omega arith
count-append key (k ∷ a) b = ground (arith, count-append key a b)

pub count-same :
    (j key : Key) (queue : List Key)
    → same_key j key ≡ true
    → count j (key ∷ queue) ≡ suc (count j queue)
unfolding count
count-same j key queue e = rw e refl

pub count-other :
    (j key : Key) (queue : List Key)
    → same_key j key ≡ false
    → count j (key ∷ queue) ≡ count j queue
unfolding count
count-other j key queue e = rw e refl

-- ===== src/Node/Map/Order.antt =====
-- The order of keys in a NodeMap, by length and then by bytes: memodb/include/memodb/Node.h.
use bcdb.Prelude.{List, ℕ, ◌≡◌, refl, inl, inr, true, false, [], ◌∷◌, length, arith, Bool-cases}
use bcdb.Node.Map.{lex_less, key_eq, key_less}

lex_less_irrefl : (a : List ℕ) → lex_less a a ≡ false
unfolding lex_less
lex_less_irrefl [] = refl
lex_less_irrefl (x ∷ a) = ground (arith, lex_less_irrefl a)

lex_less_trans : (a b c : List ℕ) → lex_less a b ≡ true → lex_less b c ≡ true → lex_less a c ≡ true
unfolding lex_less
lex_less_trans [] [] c h k = cc
lex_less_trans [] (y ∷ b) [] h k = cc
lex_less_trans [] (y ∷ b) (z ∷ c) h k = refl
lex_less_trans (x ∷ a) [] c h k = cc
lex_less_trans (x ∷ a) (y ∷ b) [] h k = cc
lex_less_trans (x ∷ a) (y ∷ b) (z ∷ c) h k = ground (arith, lex_less_trans a b c)

-- Keys of one length that are neither below the other are equal.
lex_less_total :
    (a b : List ℕ)
    → length a ≡ length b
    → key_eq a b ≡ false
    → lex_less a b ≡ false
    → lex_less b a ≡ true
unfolding lex_less key_eq
lex_less_total [] [] e h k = cc
lex_less_total [] (y ∷ b) e h k = absurd (omega arith)
lex_less_total (x ∷ a) [] e h k = absurd (omega arith)
lex_less_total (x ∷ a) (y ∷ b) e h k = ground (arith, lex_less_total a b)

pub key_less_irrefl : (a : List ℕ) → key_less a a ≡ false
unfolding key_less
key_less_irrefl a = ground (arith, lex_less_irrefl a)

pub key_less_trans :
    (a b c : List ℕ) → key_less a b ≡ true → key_less b c ≡ true → key_less a c ≡ true
unfolding key_less
key_less_trans a b c h k = ground (arith, lex_less_trans a b c)

pub key_less_total :
    (a b : List ℕ) → key_less a b ≡ false → key_eq a b ≡ false → key_less b a ≡ true
unfolding key_less
key_less_total a b h k = ground (arith, lex_less_total a b)

pub key_eq→eq : (a b : List ℕ) → key_eq a b ≡ true → a ≡ b
unfolding key_eq
key_eq→eq [] [] h = refl
key_eq→eq [] (y ∷ b) h = cc
key_eq→eq (x ∷ a) [] h = cc
key_eq→eq (x ∷ a) (y ∷ b) h = ground (arith, key_eq→eq a b)

pub key_eq_refl : (a : List ℕ) → key_eq a a ≡ true
unfolding key_eq
key_eq_refl [] = refl
key_eq_refl (x ∷ a) = ground (arith, key_eq_refl a)

-- A key that is below another is not equal to it, either way round.
pub key_less-key_eq :
    (a b : List ℕ) → key_less a b ≡ true → (key_eq a b ≡ false) × (key_eq b a ≡ false)
key_less-key_eq a b h = (
  elim (Bool-cases (key_eq a b)) [ inl e ↦ cc (key_less_irrefl a, key_eq→eq a b e, h) | inr e ↦ e ],
  elim (Bool-cases (key_eq b a)) [ inl e ↦ cc (key_less_irrefl a, key_eq→eq b a e, h) | inr e ↦ e ],
)

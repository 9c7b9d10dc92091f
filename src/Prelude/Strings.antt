-- ===== src/Prelude/Strings.antt =====
-- Byte strings as lists: searching, splitting, joining and decimal numbers.
use Prim.Native.Nat.{ℕ, ◌+◌}
use mathlib.Core.Path.{◌≡◌, refl, sym, ap, ◌∙◌}
use mathlib.Core.Logic.{inl, inr}
use mathlib.Core.Bool.{Bool, true, false, ◌&&◌, ◌||◌}
use mathlib.Core.List.{List, [], ◌∷◌, ◌++◌}
use native.Mathlib.Omega.{arith}
use bcdb.Prelude.Tests.{leb, ◌==◌, ==_iff, if◌then◌else◌, Bool-cases}
use bcdb.Prelude.Lists.{All}

unfoldable pub contains : List ℕ → ℕ → Bool
contains [] c = false
contains (d ∷ ds) c = let later = contains ds c in if c == d then true else later

-- `is_empty` of a string or a vector.
abbrev pub is_empty {ℓ} : {A : Type ℓ} → List A → Bool
is_empty [] = true
is_empty (x ∷ xs) = false

unfoldable pub starts_with : List ℕ → List ℕ → Bool
starts_with str [] = true
starts_with [] (p ∷ ps) = false
starts_with (c ∷ str) (p ∷ ps) = let later = starts_with str ps in if c == p then later else false

-- Around the first `c`; with no `c` the second part is empty.
unfoldable pub split_once : ℕ → List ℕ → List ℕ × List ℕ
split_once c [] = ([], [])
split_once c (d ∷ str) = let (a, b) = split_once c str in if c == d then ([], str) else (d ∷ a, b)

-- In front of the first element that is one of `cs`.
unfoldable pub split_before : List ℕ → List ℕ → List ℕ × List ℕ
split_before cs [] = ([], [])
split_before cs (d ∷ str) =
    let (a, b) = split_before cs str in if contains cs d then ([], d ∷ str) else (d ∷ a, b)

abbrev pub cons_first : ℕ → List (List ℕ) → List (List ℕ)
cons_first c [] = (c ∷ []) ∷ []
cons_first c (part ∷ parts) = (c ∷ part) ∷ parts

-- At every `c`; empty parts are kept.
unfoldable pub split_all : ℕ → List ℕ → List (List ℕ)
split_all c [] = [] ∷ []
split_all c (d ∷ str) =
    let parts = split_all c str in if c == d then [] ∷ parts else cons_first d parts

unfoldable pub join : ℕ → List (List ℕ) → List ℕ
join c [] = []
join c (part ∷ []) = part
join c (part ∷ next ∷ parts) = part ++ (c ∷ join c (next ∷ parts))

unfoldable pub lower : List ℕ → List ℕ
lower [] = []
lower (c ∷ str) = (if leb b'A' c && leb c b'Z' then c + 32 else c) ∷ lower str

contains_append-or : (a b : List ℕ) (c : ℕ) → contains (a ++ b) c ≡ (contains a c || contains b c)
unfolding contains
contains_append-or [] b c = refl
contains_append-or (d ∷ a) b c = ground (arith, contains_append-or a b c)

pub contains-append_none :
    (a b : List ℕ) (c : ℕ)
    → contains a c ≡ false
    → contains b c ≡ false
    → contains (a ++ b) c ≡ false
contains-append_none a b c h k = rw (contains_append-or a b c, h, k) refl

pub split_once-found :
    (c : ℕ) (a b : List ℕ) → contains a c ≡ false → split_once c (a ++ (c ∷ b)) ≡ (a, b)
unfolding split_once contains
split_once-found c [] b h = ground arith
split_once-found c (d ∷ a) b h = elim (Bool-cases (c == d)) [
  | inl e ↦ absurd (ground arith)
  | inr e ↦ rw (e, split_once-found c a b (rw e at h)) refl
]

pub split_once-absent : (c : ℕ) (a : List ℕ) → contains a c ≡ false → split_once c a ≡ (a, [])
unfolding split_once contains
split_once-absent c [] h = refl
split_once-absent c (d ∷ a) h = elim (Bool-cases (c == d)) [
  | inl e ↦ absurd (ground arith)
  | inr e ↦ rw (e, split_once-absent c a (rw e at h)) refl
]

split_all-last : (c : ℕ) (a : List ℕ) → contains a c ≡ false → split_all c a ≡ a ∷ []
unfolding split_all contains
split_all-last c [] h = refl
split_all-last c (d ∷ a) h = elim (Bool-cases (c == d)) [
  | inl e ↦ absurd (ground arith)
  | inr e ↦ rw (e, split_all-last c a (rw e at h)) refl
]

split_all-more :
    (c : ℕ) (a b : List ℕ) → contains a c ≡ false → split_all c (a ++ (c ∷ b)) ≡ a ∷ split_all c b
unfolding split_all contains
split_all-more c [] b h = ground arith
split_all-more c (d ∷ a) b h = elim (Bool-cases (c == d)) [
  | inl e ↦ absurd (ground arith)
  | inr e ↦ rw (e, split_all-more c a b (rw e at h)) refl
]

-- Parts without the separator, of which there is one at least, are split where they were joined.
pub split_all-join :
    (c : ℕ) (part : List ℕ) (parts : List (List ℕ))
    → All (λ p. contains p c ≡ false) (part ∷ parts)
    → split_all c (join c (part ∷ parts)) ≡ part ∷ parts
unfolding join
split_all-join c part [] h = split_all-last c part h.0
split_all-join c part (next ∷ parts) h =
    split_all-more c part (join c (next ∷ parts)) h.0
    ∙ ap (λ t. part ∷ t) (split_all-join c next parts h.1)

pub join_cons_first :
    (c d : ℕ) (part : List ℕ) (parts : List (List ℕ))
    → join c ((d ∷ part) ∷ parts) ≡ d ∷ join c (part ∷ parts)
unfolding join
join_cons_first c d part [] = refl
join_cons_first c d part (next ∷ parts) = refl

-- Splitting gives one part at least.
abbrev pub first_part : List (List ℕ) → List ℕ
first_part [] = []
first_part (part ∷ parts) = part

abbrev pub other_parts : List (List ℕ) → List (List ℕ)
other_parts [] = []
other_parts (part ∷ parts) = parts

pub split_all-parts :
    (c : ℕ) (str : List ℕ)
    → split_all c str ≡ first_part (split_all c str) ∷ other_parts (split_all c str)
unfolding split_all
split_all-parts c [] = refl
split_all-parts c (d ∷ str) = elim (Bool-cases (c == d)) [
  | inl e ↦ rw e refl
  | inr e ↦ rw (e, split_all-parts c str) refl
]

pub join_nil_first :
    (c : ℕ) (part : List ℕ) (parts : List (List ℕ))
    → join c ([] ∷ part ∷ parts) ≡ c ∷ join c (part ∷ parts)
unfolding join
join_nil_first c part parts = refl

pub join-split_all : (c : ℕ) (str : List ℕ) → join c (split_all c str) ≡ str
unfolding split_all
join-split_all c [] = unfold join in refl
join-split_all c (d ∷ str) =
    let whole = ap (join c) (sym (split_all-parts c str)) ∙ join-split_all c str in
    elim (Bool-cases (c == d)) [
      | inl e ↦
          rw (e, split_all-parts c str) (join_nil_first c _ _ ∙ (λ i. (==_iff c d).0 e i ∷ whole i))
      | inr e ↦ rw (e, split_all-parts c str) (join_cons_first c d _ _ ∙ ap (λ t. d ∷ t) whole)
    ]

pub split_all-none_contains :
    (c : ℕ) (str : List ℕ) → All (λ p. contains p c ≡ false) (split_all c str)
unfolding split_all contains
split_all-none_contains c [] = (refl, tt)
split_all-none_contains c (d ∷ str) = elim (Bool-cases (c == d)) [
  | inl e ↦ rw e (refl, split_all-none_contains c str)
  | inr e ↦ rw e (first e (split_all c str) (split_all-none_contains c str))
]
  where
    first :
        (c == d) ≡ false
        → (parts : List (List ℕ)) → All (λ p. contains p c ≡ false) parts
        → All (λ p. contains p c ≡ false) (cons_first d parts)
    first e [] h = (rw e refl, tt)
    first e (part ∷ parts) h = (rw e h.0, h.1)

-- What stands in front of a stop, and no stop in it.
pub split_before-found :
    (cs a : List ℕ) (d : ℕ) (b : List ℕ)
    → All (λ e. contains cs e ≡ false) a
    → contains cs d ≡ true
    → split_before cs (a ++ (d ∷ b)) ≡ (a, d ∷ b)
unfolding split_before
split_before-found cs [] d b h k = rw k refl
split_before-found cs (e ∷ a) d b h k = rw (h.0, split_before-found cs a d b h.1 k) refl

pub split_before-absent :
    (cs a : List ℕ) → All (λ e. contains cs e ≡ false) a → split_before cs a ≡ (a, [])
unfolding split_before
split_before-absent cs [] h = refl
split_before-absent cs (e ∷ a) h = rw (h.0, split_before-absent cs a h.1) refl

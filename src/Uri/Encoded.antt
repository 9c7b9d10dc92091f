-- ===== src/Uri/Encoded.antt =====
-- The chars of an encoded part, and the parts of a path or a query read back: memodb/lib/URI.cpp.
use bcdb.Prelude.{
  ℕ, zero, suc, ◌/◌, ◌%◌, ◌^◌, ◌<◌, ◌≡◌, refl, Bool, true, false, ◌&&◌, not, some, List, [], ◌∷◌,
  ◌++◌, map, length, get_or, All, IsByte, ◌==◌, ==_iff, arith, Bool-cases, inl, inr,
}
use bcdb.Prelude.Bits.{bit_and-mask}
use bcdb.Prelude.Strings.{
  contains, starts_with, is_empty, contains-append_none, join, split_all, split_all-join,
}
use bcdb.Uri.{hex_digits, percent_encode, decode_segments, is_dot_segment}
use bcdb.Uri.Percent.{decode-encode_with}

get_or-contains :
    (xs : List ℕ) (k c : ℕ) → k < length xs → contains xs c ≡ false → (c == get_or xs k 0) ≡ false
unfolding contains
get_or-contains [] k c h e = absurd (omega arith)
get_or-contains (x ∷ xs) zero c h e = ground arith
get_or-contains (x ∷ xs) (suc k) c h e = ground (arith, get_or-contains xs k c)

-- The chars that an escape is made of.
abbrev pub escape_chars : List ℕ
escape_chars = b'%' ∷ hex_digits

escape_chars-digit :
    (c k : ℕ) → k < 16 → contains escape_chars c ≡ false → (c == get_or hex_digits k 0) ≡ false
escape_chars-digit c k h e = get_or-contains escape_chars (suc k) c (omega arith) e

pub contains_cons :
    (d : ℕ) (str : List ℕ) (c : ℕ)
    → (c == d) ≡ false
    → contains str c ≡ false
    → contains (d ∷ str) c ≡ false
unfolding contains
contains_cons d str c h k = rw (h, k) refl

-- A char that is not of an escape stands in the encoded string only if it stood in the string and
-- is allowed.
pub percent_encode-contains :
    (allowed str : List ℕ) (c : ℕ)
    → All IsByte str
    → contains escape_chars c ≡ false
    → (contains allowed c && contains str c) ≡ false
    → contains (percent_encode allowed str) c ≡ false
unfolding percent_encode contains
percent_encode-contains allowed [] c b e h = refl
percent_encode-contains allowed (d ∷ str) c b e h =
    let low = bit_and-mask 4 d in
    let rest : contains (percent_encode allowed str) c ≡ false =
      percent_encode-contains allowed str c b.1 e (ground arith) in
    elim (Bool-cases (contains allowed d)) [
      | inl k ↦ rw k (contains_cons d _ c (other k) rest)
      | inr k ↦
          rw (k, low)
            (contains_cons b'%'
              (get_or hex_digits (d / 2 ^ 4) 0
                ∷ get_or hex_digits (d % 2 ^ 4) 0
                ∷ percent_encode allowed str)
              c (ground arith)
              (contains_cons _ (get_or hex_digits (d % 2 ^ 4) 0 ∷ percent_encode allowed str) c
                (escape_chars-digit c (d / 2 ^ 4) (omega arith) e)
                (contains_cons _ _ c (escape_chars-digit c (d % 2 ^ 4) (omega arith) e) rest)))
    ]
  where
    other : contains allowed d ≡ true → (c == d) ≡ false
    other k = elim (Bool-cases (c == d)) [
      | inl same ↦ absurd (ground (arith, (==_iff c d).0 same))
      | inr e ↦ e
    ]

-- A string with a char in front of which the char `c` cannot stand.
abbrev pub NotFirst : ℕ → List ℕ → Type 0
NotFirst c str = starts_with str (c ∷ []) ≡ false

pub contains→NotFirst : (c : ℕ) (str : List ℕ) → contains str c ≡ false → NotFirst c str
unfolding contains starts_with
contains→NotFirst c [] h = refl
contains→NotFirst c (d ∷ str) h = ground arith

pub NotFirst-append :
    (c : ℕ) (a b : List ℕ) → is_empty a ≡ false → contains a c ≡ false → NotFirst c (a ++ b)
unfolding contains starts_with
NotFirst-append c [] b e h = absurd (cc)
NotFirst-append c (d ∷ a) b e h = ground arith

pub percent_encode-is_empty :
    (allowed str : List ℕ) → is_empty (percent_encode allowed str) ≡ is_empty str
unfolding percent_encode
percent_encode-is_empty allowed [] = refl
percent_encode-is_empty allowed (c ∷ str) = elim (Bool-cases (contains allowed c)) [
  | inl e ↦ rw e refl
  | inr e ↦ rw e refl
]

-- A segment that may stand in a path.
abbrev pub IsSegment : Bool → List ℕ → Type 0
IsSegment allow_dot_segments segment =
    All IsByte segment × ((not allow_dot_segments && is_dot_segment segment) ≡ false)

module _ (allowed : List ℕ) (c : ℕ) (no_percent : contains allowed b'%' ≡ false)
    (no_separator : contains allowed c ≡ false) (no_escape : contains escape_chars c ≡ false) where
  encoded_part :
      (part : List ℕ) → All IsByte part → contains (percent_encode allowed part) c ≡ false
  encoded_part part h = percent_encode-contains allowed part c h no_escape (rw no_separator refl)

  encoded_parts :
      (allow : Bool) (parts : List (List ℕ))
      → All (IsSegment allow) parts
      → All (λ p. contains p c ≡ false) (map (percent_encode allowed) parts)
  encoded_parts allow [] h = tt
  encoded_parts allow (part ∷ parts) h = (encoded_part part h.0.0, encoded_parts allow parts h.1)

  decode_segments-map :
      (allow : Bool) (parts : List (List ℕ))
      → All (IsSegment allow) parts
      → decode_segments allow (map (percent_encode allowed) parts) ≡ some parts
  unfolding decode_segments
  decode_segments-map allow [] h = refl
  decode_segments-map allow (part ∷ parts) h =
      rw
        (
          decode-encode_with allowed no_percent part h.0.0,
          decode_segments-map allow parts h.1,
          h.0.1,
        )
        refl

  -- Encoded and joined parts are read back, where there is one at least.
  pub decode_segments-join :
      (allow : Bool) (part : List ℕ) (parts : List (List ℕ))
      → All (IsSegment allow) (part ∷ parts)
      → decode_segments allow (split_all c (join c (map (percent_encode allowed) (part ∷ parts))))
        ≡ some (part ∷ parts)
  decode_segments-join allow part parts h =
      rw (split_all-join c _ _ (encoded_parts allow (part ∷ parts) h))
        (decode_segments-map allow (part ∷ parts) h)

pub join-contains :
    (c d : ℕ) (parts : List (List ℕ))
    → (d == c) ≡ false
    → All (λ p. contains p d ≡ false) parts
    → contains (join c parts) d ≡ false
unfolding join
join-contains c d [] e h = unfold contains in refl
join-contains c d (part ∷ []) e h = h.0
join-contains c d (part ∷ next ∷ parts) e h =
    contains-append_none part _ d h.0
      (contains_cons c (join c (next ∷ parts)) d e (join-contains c d (next ∷ parts) e h.1))

-- A char that the alphabet has not stands in no encoded and joined parts.
pub encoded_join-contains :
    (allowed : List ℕ) (c d : ℕ) (allow : Bool) (parts : List (List ℕ))
    → contains allowed d ≡ false
    → contains escape_chars d ≡ false
    → (d == c) ≡ false
    → All (IsSegment allow) parts
    → contains (join c (map (percent_encode allowed) parts)) d ≡ false
encoded_join-contains allowed c d allow parts h k e b =
    join-contains c d (map (percent_encode allowed) parts) e (each parts b)
  where
    each :
        (parts : List (List ℕ))
        → All (IsSegment allow) parts
        → All (λ p. contains p d ≡ false) (map (percent_encode allowed) parts)
    each [] b = tt
    each (part ∷ parts) b =
        (percent_encode-contains allowed part d b.0.0 k (rw h refl), each parts b.1)

-- ===== src/Name/Slashes.antt =====
-- A head's name in a URI: memodb/lib/URI.cpp and memodb/lib/Store.cpp.
use bcdb.Prelude.{
  ℕ, ◌≡◌, refl, ap, ◌∙◌, sym, true, false, List, [], ◌∷◌, ◌++◌, map, ◌==◌, ==_iff, arith, All,
  Bool-cases, inl, inr, get_or, bit_and, ◌/◌, ◌^◌,
}
use bcdb.Prelude.Strings.{
  contains, split_all, join, split_all-parts, join_cons_first, cons_first, join_nil_first,
}
use bcdb.Uri.{hex_digits, percent_encode, path_allowed, path_allowed_with_slash}

join_append_first :
    (c : ℕ) (a part : List ℕ) (parts : List (List ℕ))
    → join c ((a ++ part) ∷ parts) ≡ a ++ join c (part ∷ parts)
join_append_first c [] part parts = refl
join_append_first c (d ∷ a) part parts =
    join_cons_first c d (a ++ part) parts ∙ ap (λ t. d ∷ t) (join_append_first c a part parts)

abbrev escape : ℕ → List ℕ
escape d = b'%' ∷ get_or hex_digits (d / 2 ^ 4) 0 ∷ get_or hex_digits (bit_and d 0xf) 0 ∷ []

module _ (allowed more : List ℕ) (c : ℕ)
    (same : (d : ℕ) → (c == d) ≡ false → contains more d ≡ contains allowed d)
    (extra : contains more c ≡ true) where
  extra_here : (d : ℕ) → (c == d) ≡ true → contains more d ≡ true
  extra_here d e = rw (sym ((==_iff c d).0 e)) extra

  -- To allow the separator is to encode each part alone.
  pub percent_encode-join :
      (str : List ℕ)
      → percent_encode more str ≡ join c (map (percent_encode allowed) (split_all c str))
  unfolding split_all percent_encode
  percent_encode-join [] = unfold join in refl
  percent_encode-join (d ∷ str) =
      let whole =
        percent_encode-join str
        ∙ ap (λ t. join c (map (percent_encode allowed) t)) (split_all-parts c str) in
      elim (Bool-cases (c == d)) [
        | inl e ↦
            rw (e, extra_here d e, split_all-parts c str)
              ((λ i. sym ((==_iff c d).0 e) i ∷ whole i) ∙ sym (join_nil_first c _ _))
        | inr e ↦ elim (Bool-cases (contains allowed d)) [
          | inl k ↦
              rw (e, same d e, k, split_all-parts c str, k)
                (ap (λ t. d ∷ t) whole ∙ sym (join_cons_first c d _ _))
          | inr k ↦
              rw (e, same d e, k, split_all-parts c str, k)
                (ap (λ t. escape d ++ t) whole ∙ sym (join_append_first c (escape d) _ _))
        ]
      ]

slash_alphabet :
    (d : ℕ) → (b'/' == d) ≡ false → contains path_allowed_with_slash d ≡ contains path_allowed d
unfolding contains
slash_alphabet d h = let other : (d == b'/') ≡ false = ground arith in rw other refl

-- With the slash allowed, the segments of a name are encoded one by one.
pub percent_encode-slashes :
    (name : List ℕ)
    → percent_encode path_allowed_with_slash name
      ≡ join b'/' (map (percent_encode path_allowed) (split_all b'/' name))
unfolding contains
percent_encode-slashes name =
    percent_encode-join path_allowed path_allowed_with_slash b'/' slash_alphabet refl name

module _ {ℓ} (P : ℕ → Type ℓ) (c : ℕ) where
  All-cons_first :
      (d : ℕ) (parts : List (List ℕ)) → P d → All (All P) parts → All (All P) (cons_first d parts)
  All-cons_first d [] p h = ((p, tt), tt)
  All-cons_first d (part ∷ parts) p h = ((p, h.0), h.1)

  -- What holds of every char holds of those of every part.
  pub split_all-All : (str : List ℕ) → All P str → All (All P) (split_all c str)
  unfolding split_all
  split_all-All [] h = (tt, tt)
  split_all-All (d ∷ str) h = elim (Bool-cases (c == d)) [
    | inl e ↦ rw e (tt, split_all-All str h.1)
    | inr e ↦ rw e (All-cons_first d (split_all c str) h.0 (split_all-All str h.1))
  ]

pub contains→All : (d : ℕ) (str : List ℕ) → contains str d ≡ false → All (λ e. (d == e) ≡ false) str
unfolding contains
contains→All d [] h = tt
contains→All d (e ∷ str) h = (ground arith, contains→All d str (ground arith))

pub All→contains : (d : ℕ) (str : List ℕ) → All (λ e. (d == e) ≡ false) str → contains str d ≡ false
unfolding contains
All→contains d [] h = refl
All→contains d (e ∷ str) h = rw (h.0, All→contains d str h.1) refl

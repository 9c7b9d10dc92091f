-- ===== src/Http/Accept/Qualities.antt =====
-- What a parameter of HTTPRequest::getAcceptQuality makes of a quality: memodb/lib/HTTP.cpp.
use bcdb.Prelude.{
  ℕ, ◌^◌, ◌≤◌, Bool, true, false, Option, none, some, List, [], ◌∷◌, if◌then◌else◌, arith,
}
use bcdb.Prelude.Decimal.{read_decimal, read_digits}
use bcdb.Http.Accept.{read_quality, any_quality}

abbrev pub IsLowQuality : ℕ → Option ℕ → Type 0
IsLowQuality m none = Unit
IsLowQuality m (some q) = q ≤ m

module _ (m : ℕ) where
  -- Four digits.
  four_digits :
      (a b c d q : ℕ)
      → 9999 ≤ m
      → q ≤ m
      → (elim (read_decimal (2 ^ 32) (a ∷ b ∷ c ∷ d ∷ [])) [ none ↦ q | some v ↦ v ]) ≤ m
  unfolding read_decimal read_digits
  four_digits a b c d q k h = ground arith

  pub read_quality-le : (value : List ℕ) (q : ℕ) → 9999 ≤ m → q ≤ m → read_quality value q ≤ m
  unfolding read_quality
  read_quality-le [] q k h = h
  read_quality-le (c ∷ value) q k h = four_digits c _ _ _ q k h

  pub if-le : (b : Bool) (x y : ℕ) → x ≤ m → y ≤ m → (if b then x else y) ≤ m
  if-le true x y h k = h
  if-le false x y h k = k

  pub any_quality-le : (o : Option ℕ) (q : ℕ) → IsLowQuality m o → q ≤ m → any_quality o q ≤ m
  any_quality-le none q h k = k
  any_quality-le (some p) q h k = h

  pub if-IsLowQuality :
      (b : Bool) (x y : Option ℕ)
      → IsLowQuality m x
      → IsLowQuality m y
      → IsLowQuality m (if b then x else y)
  if-IsLowQuality true x y h k = h
  if-IsLowQuality false x y h k = k

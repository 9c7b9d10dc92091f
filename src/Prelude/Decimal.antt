-- ===== src/Prelude/Decimal.antt =====
-- Numbers in decimal digits.
use Prim.Native.Nat.{ℕ, zero, suc, ◌+◌, ◌-◌, ◌*◌, ◌/◌, ◌%◌, ◌^◌, ◌<◌}
use mathlib.Core.Path.{◌≡◌, refl, ap, ◌∙◌}
use mathlib.Core.Logic.{inl, inr}
use mathlib.Core.Bool.{true, false, ◌&&◌}
use mathlib.Core.Option.{Option, none, some}
use mathlib.Core.List.{List, [], ◌∷◌, ◌++◌}
use native.Mathlib.Omega.{arith}
use native.Mathlib.Nat.{pow-suc}
use bcdb.Prelude.Tests.{ltb, leb, if◌then◌else◌, Bool-cases}
use bcdb.Prelude.Lists.{◌>>=?◌}
use bcdb.Prelude.Strings.{contains, contains-append_none}

abbrev digit : ℕ → List ℕ
digit d = (b'0' + d) ∷ []

-- `fuel` more digits than one are written at most.
unfoldable pub digits_loop : ℕ → ℕ → List ℕ
digits_loop zero n = digit (n % 10)
digits_loop (suc fuel) n =
    let front = digits_loop fuel (n / 10) in
    if ltb n 10 then digit (n % 10) else front ++ digit (n % 10)

-- A 64-bit number has 20 digits at most.
unfoldable pub decimal : ℕ → List ℕ
decimal n = digits_loop 19 n

unfoldable pub read_digits : ℕ → List ℕ → Option ℕ
read_digits acc [] = some acc
read_digits acc (c ∷ str) =
    let more = read_digits (acc * 10 + (c - b'0')) str in
    if leb b'0' c && leb c b'9' then more else none

-- The whole string as a number below `limit`.
unfoldable pub read_decimal : ℕ → List ℕ → Option ℕ
read_decimal limit [] = none
read_decimal limit (c ∷ str) =
    read_digits 0 (c ∷ str) >>=? λ v. if ltb v limit then some v else none

read_digits-append :
    (acc : ℕ) (a b : List ℕ)
    → read_digits acc (a ++ b) ≡ (read_digits acc a >>=? λ v. read_digits v b)
unfolding read_digits
read_digits-append acc [] b = refl
read_digits-append acc (c ∷ a) b = elim (Bool-cases (leb b'0' c && leb c b'9')) [
  | inl e ↦ rw e (read_digits-append (acc * 10 + (c - b'0')) a b)
  | inr e ↦ rw e refl
]

read_digits-digit : (acc d : ℕ) → d < 10 → read_digits acc (digit d) ≡ some (acc * 10 + d)
unfolding read_digits
read_digits-digit acc d h = ground arith

read_digits-digits_loop :
    (fuel n : ℕ) → n < 10 ^ suc fuel → read_digits 0 (digits_loop fuel n) ≡ some n
unfolding digits_loop
read_digits-digits_loop zero n h =
    read_digits-digit 0 (n % 10) (omega arith) ∙ ap some (omega arith)
read_digits-digits_loop (suc fuel) n h = elim (Bool-cases (ltb n 10)) [
  | inl e ↦ rw e (read_digits-digit 0 (n % 10) (omega arith) ∙ ap some (ground arith))
  | inr e ↦
      rw
        (
          e,
          read_digits-append 0 (digits_loop fuel (n / 10)) (digit (n % 10)),
          read_digits-digits_loop fuel (n / 10) (omega (arith, pow-suc 10 (suc fuel))),
        )
        (read_digits-digit (n / 10) (n % 10) (omega arith) ∙ ap some (omega arith))
]

digits_loop-not_empty : (fuel n : ℕ) → (c : ℕ) × (str : List ℕ) × (digits_loop fuel n ≡ c ∷ str)
unfolding digits_loop
digits_loop-not_empty zero n = (_, _, refl)
digits_loop-not_empty (suc fuel) n = elim (Bool-cases (ltb n 10)) [
  | inl e ↦ (b'0' + n % 10, [], rw e refl)
  | inr e ↦
      let (c, str, same) = digits_loop-not_empty fuel (n / 10) in
      (c, str ++ digit (n % 10), rw (e, same) refl)
]

-- A number of at most 20 digits below the limit is read back.
pub read_decimal-decimal :
    (limit n : ℕ) → n < 10 ^ 20 → n < limit → read_decimal limit (decimal n) ≡ some n
unfolding decimal read_decimal
read_decimal-decimal limit n h k =
    let (c, str, same) = digits_loop-not_empty 19 n in
    let value = rw same at (read_digits-digits_loop 19 n h) in
    let fits : ltb n limit ≡ true = ground arith in rw (same, value, fits) refl

digit-contains :
    (c d : ℕ) → d < 10 → (leb b'0' c && leb c b'9') ≡ false → contains (digit d) c ≡ false
unfolding contains
digit-contains c d h k = ground arith

digits_loop-contains :
    (fuel n c : ℕ) → (leb b'0' c && leb c b'9') ≡ false → contains (digits_loop fuel n) c ≡ false
unfolding digits_loop
digits_loop-contains zero n c h = digit-contains c (n % 10) (omega arith) h
digits_loop-contains (suc fuel) n c h = elim (Bool-cases (ltb n 10)) [
  | inl e ↦ rw e (digit-contains c (n % 10) (omega arith) h)
  | inr e ↦ rw e (
      contains-append_none _ _ c (digits_loop-contains fuel (n / 10) c h)
        (digit-contains c (n % 10) (omega arith) h))
]

-- Decimal digits alone.
pub decimal-contains :
    (n c : ℕ) → (leb b'0' c && leb c b'9') ≡ false → contains (decimal n) c ≡ false
unfolding decimal
decimal-contains n c h = digits_loop-contains 19 n c h

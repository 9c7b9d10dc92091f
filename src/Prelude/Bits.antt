-- ===== src/Prelude/Bits.antt =====
-- Words as native numbers: fields joined by `|` and masked by `&`, read as arithmetic.
use Prim.Native.Nat.{
  ℕ, zero, suc, ◌+◌, ◌-◌, ◌*◌, ◌/◌, ◌%◌, ◌^◌, ◌≤◌, ◌<◌, min, max, digits, bit_and, bit_or,
  bit_and-bitwise, bit_or-bitwise,
}
use mathlib.Core.Path.{◌≡◌, refl, ap, sym, ◌∙◌}
use mathlib.Core.Bool.{Bool, true, ◌&&◌}
use native.Mathlib.Omega.{arith}
use native.Mathlib.Nat.{pow-suc, one-le-pow, div-add-mod, div-div-eq-div-mul}
use bcdb.Prelude.Tests.{◌==◌, ==_iff}

module _ (keep : ℕ → ℕ) (op : ℕ → ℕ → ℕ) where
  -- Any two amounts of fuel that reach the top digit of `a` give one result.
  digits_fuel : (n m a b : ℕ) → a ≤ n → a ≤ m → digits keep op n a b ≡ digits keep op m a b
  digits_fuel (suc n) (suc m) (suc a) b p q =
      rw (digits_fuel n m (suc a / 2) (b / 2) (omega arith) (omega arith))
  digits_fuel (suc n) (suc m) zero b p q = refl
  digits_fuel (suc n) zero zero b p q = refl
  digits_fuel (suc n) zero (suc a) b p q = elim q [ ]
  digits_fuel zero (suc m) zero b p q = refl
  digits_fuel zero (suc m) (suc a) b p q = elim p [ ]
  digits_fuel zero zero a b p q = refl

-- The lowest digit and the rest.
bit_or_halves : (a b : ℕ) → bit_or a b ≡ bit_or (a / 2) (b / 2) * 2 + max (a % 2) (b % 2)
bit_or_halves zero b = simp bit_or-bitwise (omega arith)
bit_or_halves (suc a) b =
    let spare = digits_fuel (λ y. y) max a (suc a / 2) (suc a / 2) (b / 2) in
    omega (
      arith,
      bit_or-bitwise (suc a) b,
      bit_or-bitwise (suc a / 2) (b / 2),
      spare (omega arith) (omega arith),
    )

pub bit_and_halves : (a b : ℕ) → bit_and a b ≡ bit_and (a / 2) (b / 2) * 2 + min (a % 2) (b % 2)
bit_and_halves zero b = simp bit_and-bitwise (omega arith)
bit_and_halves (suc a) b =
    let spare = digits_fuel (λ y. 0) min a (suc a / 2) (suc a / 2) (b / 2) in
    omega (
      arith,
      bit_and-bitwise (suc a) b,
      bit_and-bitwise (suc a / 2) (b / 2),
      spare (omega arith) (omega arith),
    )

bit_or-zero_below : (n a : ℕ) → a ≤ n → bit_or a 0 ≡ a
bit_or-zero_below zero a h = ground (arith, bit_or-bitwise 0 0)
bit_or-zero_below (suc n) a h =
    ground (arith, bit_or_halves a 0, bit_or-bitwise 0 0, bit_or-zero_below n (a / 2))

bit_and-zero_below : (n a : ℕ) → a ≤ n → bit_and a 0 ≡ 0
bit_and-zero_below zero a h = ground (arith, bit_and-bitwise 0 0)
bit_and-zero_below (suc n) a h =
    ground (arith, bit_and_halves a 0, bit_and-bitwise 0 0, bit_and-zero_below n (a / 2))

pub bit_or-zero : (a : ℕ) → bit_or a 0 ≡ a
bit_or-zero a = bit_or-zero_below a a (omega arith)

pub mul-two_pow_suc : (q k : ℕ) → q * 2 ^ suc k ≡ q * 2 ^ k * 2
mul-two_pow_suc q k = omega (arith, ap (λ (t : ℕ). q * t) (pow-suc 2 k))

-- `(q << k) | r` is a sum where `r` has at most `k` bits.
pub bit_or-shifted : (k q r : ℕ) → r < 2 ^ k → bit_or (q * 2 ^ k) r ≡ q * 2 ^ k + r
bit_or-shifted zero q r h = ground (arith, bit_or-zero q)
bit_or-shifted (suc k) q r h = omega (
  arith,
  pow-suc 2 k,
  mul-two_pow_suc q k,
  bit_or_halves (q * 2 ^ suc k) r,
  cong_half,
  bit_or-shifted k q (r / 2) (omega (arith, pow-suc 2 k)),
)
  where
    cong_half : bit_or (q * 2 ^ suc k / 2) (r / 2) ≡ bit_or (q * 2 ^ k) (r / 2)
    cong_half = ap (λ (t : ℕ). bit_or t (r / 2)) (omega (arith, mul-two_pow_suc q k))

-- The same with the fields the other way round.
pub bit_or-below : (k q r : ℕ) → r < 2 ^ k → bit_or r (q * 2 ^ k) ≡ q * 2 ^ k + r
bit_or-below zero q zero h = ground (arith, bit_or-bitwise 0 (q * 2 ^ 0))
bit_or-below zero q (suc r) h = absurd (omega arith)
bit_or-below (suc k) q r h = omega (
  arith,
  pow-suc 2 k,
  mul-two_pow_suc q k,
  bit_or_halves r (q * 2 ^ suc k),
  cong_half,
  bit_or-below k q (r / 2) (omega (arith, pow-suc 2 k)),
)
  where
    cong_half : bit_or (r / 2) (q * 2 ^ suc k / 2) ≡ bit_or (r / 2) (q * 2 ^ k)
    cong_half = ap (λ (t : ℕ). bit_or (r / 2) t) (omega (arith, mul-two_pow_suc q k))

pub mod-of_parts : (q m s : ℕ) → s < m → (q * m + s) % m ≡ s
mod-of_parts q m s h = grind arith

pub div-of_parts : (q m s : ℕ) → s < m → (q * m + s) / m ≡ q
div-of_parts q m s h = grind arith

mod-halves : (k a : ℕ) → a % 2 ^ suc k ≡ a / 2 % 2 ^ k * 2 + a % 2
mod-halves k a =
    let r = a / 2 % 2 ^ k in
    let q = a / 2 / 2 ^ k in
    let low : r < 2 ^ k = omega (arith, one-le-pow k 2 (omega arith)) in
    let whole : q * 2 ^ suc k + (r * 2 + a % 2) ≡ a =
      omega (arith, mul-two_pow_suc q k, div-add-mod (a / 2) (2 ^ k)) in
    rw whole at (mod-of_parts q (2 ^ suc k) (r * 2 + a % 2) (omega (arith, pow-suc 2 k)))

-- A mask of `k` ones is the remainder by `2 ^ k`.
pub bit_and-mask : (k a : ℕ) → bit_and a (2 ^ k - 1) ≡ a % 2 ^ k
bit_and-mask zero a = ground (arith, bit_and-zero_below a a)
bit_and-mask (suc k) a =
    let half : (2 ^ suc k - 1) / 2 ≡ 2 ^ k - 1 = omega (arith, pow-suc 2 k) in
    omega (
      arith,
      pow-suc 2 k,
      one-le-pow k 2 (omega arith),
      mod-halves k a,
      bit_and_halves a (2 ^ suc k - 1),
      ap (λ (t : ℕ). bit_and (a / 2) t) half,
      bit_and-mask k (a / 2),
    )

-- One bit alone.
pub bit_and-two_pow : (k a : ℕ) → bit_and a (2 ^ k) ≡ a / 2 ^ k % 2 * 2 ^ k
bit_and-two_pow zero a = omega (arith, bit_and-mask 1 a)
bit_and-two_pow (suc k) a =
    let half : 2 ^ suc k / 2 ≡ 2 ^ k = omega (arith, pow-suc 2 k) in
    let q = a / 2 / 2 ^ k in
    let above : a / 2 ^ suc k ≡ q =
      ap (λ (t : ℕ). a / t) {y = 2 * 2 ^ k} (omega (arith, pow-suc 2 k))
      ∙ sym (div-div-eq-div-mul a 2 (2 ^ k)) in
    omega (
      arith,
      pow-suc 2 k,
      bit_and_halves a (2 ^ suc k),
      ap (λ (t : ℕ). bit_and (a / 2) t) half,
      bit_and-two_pow k (a / 2),
      ap (λ (t : ℕ). t % 2 * 2 ^ suc k) above,
      mul-two_pow_suc (q % 2) k,
    )

-- Over a small range a fact is checked by evaluation.
unfoldable pub all_below : ℕ → (ℕ → Bool) → Bool
all_below zero p = true
all_below (suc n) p = p n && all_below n p

pub all_below_sound : (n : ℕ) (p : ℕ → Bool) (x : ℕ) → all_below n p ≡ true → x < n → p x ≡ true
unfolding all_below
all_below_sound zero p x h lt = elim lt [ ]
all_below_sound (suc n) p x h lt = ground (arith, all_below_sound n p x)

-- The top bit of a byte: how it is tested, and how it is set.
pub top_bit : (b : ℕ) → b < 256 → bit_and b 0x80 ≡ b / 128 * 128
unfolding all_below
top_bit b h = (==_iff _ _).0 (all_below_sound 256 (λ x. bit_and x 0x80 == x / 128 * 128) b refl h)

pub set_top_bit : (b : ℕ) → b < 128 → bit_or b 0x80 ≡ b + 128
unfolding all_below
set_top_bit b h = (==_iff _ _).0 (all_below_sound 128 (λ x. bit_or x 0x80 == x + 128) b refl h)

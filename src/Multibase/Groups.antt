-- ===== src/Multibase/Groups.antt =====
-- The arithmetic of one round of the loops of memodb/lib/Multibase.cpp.
use bcdb.Prelude.{
  ℕ, ◌+◌, ◌-◌, ◌*◌, ◌/◌, ◌%◌, ◌^◌, ◌<◌, bit_and, bit_or, Bool, ◌≡◌, refl, ◌∙◌, ap, sym, List, [],
  ◌∷◌, arith,
}
use bcdb.Prelude.Bits.{bit_or-shifted, bit_and-mask, mod-of_parts, div-of_parts}
use native.Mathlib.Nat.{div-add-mod, div-div-eq-div-mul, div-le_self, one-le-pow}
use bcdb.Multibase.{BitwiseBase, ok, shl, decode_loop}

-- Shifting a value that keeps clear of bit 64, and filling in the bits that the shift freed.
pub shl_fits : (w : ℕ) {n v : ℕ} → v ≡ n → n * 2 ^ w < 2 ^ 64 → shl w v ≡ n * 2 ^ w
unfolding shl
shl_fits w e h = rw e (grind arith)

pub shl_or :
    (w : ℕ) {n v d : ℕ}
    → v ≡ n
    → n * 2 ^ w < 2 ^ 64
    → d < 2 ^ w
    → bit_or (shl w v) d ≡ n * 2 ^ w + d
shl_or w {n} {v} {d} e h k = rw (shl_fits w e h) (bit_or-shifted w n d k)

-- The digits of `n` are read from the top: the value so far is `n` less the digits to come.
pub digit_step :
    (w q : ℕ) {v : ℕ} → v ≡ q / 2 ^ w → q < 2 ^ 64 → bit_or (shl w v) (bit_and q (2 ^ w - 1)) ≡ q
digit_step w q e h =
    let mask = bit_and-mask w q in
    let parts = div-add-mod q (2 ^ w) in
    rw mask (shl_or w e (omega arith) (omega (arith, one-le-pow w 2 (omega arith))) ∙ omega arith)

-- A digit that the text leaves out is zero.
pub zero_step : (w q : ℕ) {v : ℕ} → v ≡ q / 2 ^ w → q % 2 ^ w ≡ 0 → q < 2 ^ 64 → shl w v ≡ q
zero_step w q e z h = let parts = div-add-mod q (2 ^ w) in shl_fits w e (omega arith) ∙ omega arith

pub low_byte : (a : ℕ) → bit_and a 255 ≡ a % 256
low_byte = bit_and-mask 8

-- `join w v ds` is what the loops gather from the digits `ds`, from the value `v` on.
abbrev pub join : ℕ → ℕ → List ℕ → ℕ
join w v [] = v
join w v (d ∷ ds) = join w (bit_or (shl w v) d) ds

-- The digits of `n` at the divisors `ms`, each `2 ^ w` times the next.
abbrev pub digits : ℕ → ℕ → List ℕ → List ℕ
digits w n [] = []
digits w n (m ∷ ms) = bit_and (n / m) (2 ^ w - 1) ∷ digits w n ms

abbrev pub Steps : ℕ → ℕ → List ℕ → Type 0
Steps w m [] = Unit
Steps w m (k ∷ ks) = (m ≡ k * 2 ^ w) × (0 < k) × Steps w k ks

abbrev pub last : ℕ → List ℕ → ℕ
last m [] = m
last m (k ∷ ks) = last k ks

div_step : (n k p m : ℕ) → m ≡ k * p → n / m ≡ n / k / p
div_step n k p m e = rw e (sym (div-div-eq-div-mul n k p))

div-lt : (n k : ℕ) {b : ℕ} → n < b → n / k < b
div-lt n k h = omega (arith, div-le_self n k)

pub join-digits :
    (w n m : ℕ) (ms : List ℕ) {v : ℕ}
    → v ≡ n / m
    → n < 2 ^ 64
    → Steps w m ms
    → join w v (digits w n ms) ≡ n / last m ms
join-digits w n m [] e h s = e
join-digits w n m (k ∷ ks) e h s =
    join-digits w n k ks (digit_step w (n / k) (e ∙ div_step n k (2 ^ w) m s.0) (div-lt n k h)) h
      s.2

-- The rounds on padding, and past the end: `v` is shifted once for each divisor.
abbrev pub shifted : ℕ → ℕ → List ℕ → ℕ
shifted w v [] = v
shifted w v (k ∷ ks) = shifted w (shl w v) ks

pub shifted-zeros :
    (w n m : ℕ) (ms : List ℕ) {v : ℕ}
    → v ≡ n / m
    → n % m ≡ 0
    → n < 2 ^ 64
    → Steps w m ms
    → shifted w v ms ≡ n / last m ms
shifted-zeros w n m [] e z h s = e
shifted-zeros w n m (k ∷ ks) e z h s =
    let scaled = ap (λ (t : ℕ). n / m * t) s.0 in
    let whole : n / m * 2 ^ w * k + 0 ≡ n = omega (arith, div-add-mod n m, scaled) in
    let above : n / k ≡ n / m * 2 ^ w + 0 =
      sym (ap (λ (t : ℕ). t / k) whole) ∙ div-of_parts (n / m * 2 ^ w) k 0 s.1 ∙ omega arith in
    let clear : n / k % 2 ^ w ≡ 0 =
      ap (λ (t : ℕ). t % 2 ^ w) above
      ∙ mod-of_parts (n / m) (2 ^ w) 0 (one-le-pow w 2 (omega arith)) in
    let below : n % k ≡ 0 =
      sym (ap (λ (t : ℕ). t % k) whole) ∙ mod-of_parts (n / m * 2 ^ w) k 0 s.1 in
    let next = zero_step w (n / k) (e ∙ div_step n k (2 ^ w) m s.0) clear (div-lt n k h) in
    shifted-zeros w n k ks next below h s.2

-- What `join` and `shifted` amount to while nothing reaches bit 64.
abbrev pub horner : ℕ → ℕ → List ℕ → ℕ
horner w n [] = n
horner w n (d ∷ ds) = horner w (n * 2 ^ w + d) ds

abbrev pub Fits : ℕ → ℕ → List ℕ → Type 0
Fits w n [] = Unit
Fits w n (d ∷ ds) = (n * 2 ^ w < 2 ^ 64) × (d < 2 ^ w) × Fits w (n * 2 ^ w + d) ds

abbrev pub scaled : ℕ → ℕ → List ℕ → ℕ
scaled w n [] = n
scaled w n (k ∷ ks) = scaled w (n * 2 ^ w) ks

abbrev pub Room : ℕ → ℕ → List ℕ → Type 0
Room w n [] = Unit
Room w n (k ∷ ks) = (n * 2 ^ w < 2 ^ 64) × Room w (n * 2 ^ w) ks

join-horner : (w n : ℕ) (ds : List ℕ) {v : ℕ} → v ≡ n → Fits w n ds → join w v ds ≡ horner w n ds
join-horner w n [] e h = e
join-horner w n (d ∷ ds) e h = join-horner w (n * 2 ^ w + d) ds (shl_or w e h.0 h.1) h.2

shifted-scaled :
    (w n : ℕ) (ks : List ℕ) {v : ℕ} → v ≡ n → Room w n ks → shifted w v ks ≡ scaled w n ks
shifted-scaled w n [] e h = e
shifted-scaled w n (k ∷ ks) e h = shifted-scaled w (n * 2 ^ w) ks (shl_fits w e h.0) h.1

-- The value of a group that starts with the digits `ds` and has the zeros `ks`.
pub gathered :
    (w : ℕ) (ds ks : List ℕ)
    → Fits w 0 ds
    → Room w (horner w 0 ds) ks
    → shifted w (join w 0 ds) ks ≡ scaled w (horner w 0 ds) ks
gathered w ds ks f r = shifted-scaled w (horner w 0 ds) ks (join-horner w 0 ds refl f) r

pub decode_loop-nil :
    (base : BitwiseBase) (f : ℕ) (seen : Bool) → decode_loop base f [] seen ≡ ok []
unfolding decode_loop
decode_loop-nil base f seen = refl

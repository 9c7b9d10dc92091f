-- ===== src/Ieee/RoundTrip.antt =====
-- decode_float of memodb/lib/Node.cpp on what encodeFloat of memodb/lib/CBOREncoder.cpp gives.
use native.Mathlib.Nat.{pow-suc, one-le-pow, mul-le-mul_left, mul-div-mul_right, div-add-mod}
use bcdb.Prelude.{
  ℕ, zero, suc, ◌+◌, ◌-◌, ◌*◌, ◌/◌, ◌%◌, ◌^◌, ◌≤◌, ◌<◌, ◌≡◌, refl, ap, ◌∙◌, bit_and, bit_or, Bool,
  true, false, ltb, leb, ◌==◌, if◌then◌else◌, arith, split-le, inl, inr,
}
use bcdb.Prelude.Bits.{bit_or-shifted, bit_and-mask, bit_and-two_pow, mul-two_pow_suc}
use bcdb.Ieee.{
  Double, nan, infinite, zero_value, finite, IsDouble, finite_fields, float_fields, encode_float,
  decode_float, ldexp_of, normalized, negate,
}

normalized_lem :
    (j f n m scale : ℕ)
    → n * 2 ^ j ≡ m
    → 2 ^ 52 ≤ m
    → m < 2 ^ 53
    → j ≤ f
    → j ≤ scale
    → normalized f n scale ≡ finite false m (scale - j)
unfolding normalized
normalized_lem zero zero n m scale e lo hi hf hs =
    let same : n ≡ m = omega arith in
    let kept : scale ≡ scale - 0 = omega arith in λ i. finite false (same i) (kept i)
normalized_lem zero (suc f) n m scale e lo hi hf hs =
    let same : n ≡ m = omega arith in
    let kept : scale ≡ scale - 0 = omega arith in
    let long : ltb n (2 ^ 52) ≡ false = ground arith in
    rw long (λ i. finite false (same i) (kept i))
normalized_lem (suc j) zero n m scale e lo hi hf hs = absurd (omega arith)
normalized_lem (suc j) (suc f) n m scale e lo hi hf hs =
    let whole : n * 2 * 2 ^ j ≡ m = omega (arith, mul-two_pow_suc n j) in
    let grows : n * 2 ≤ n * 2 * 2 ^ j =
      omega (arith, mul-le-mul_left (n * 2) (one-le-pow j 2 (omega arith))) in
    let short : ltb n (2 ^ 52) ≡ true = ground arith in
    let count : scale - 1 - j ≡ scale - suc j = omega arith in
    rw short (
      normalized_lem j f (n * 2) m (scale - 1) whole lo hi (omega arith) (omega arith)
      ∙ ap (λ t. finite false m t) count)

ldexp_of-normalized : (n scaled : ℕ) → 0 < n → ldexp_of n scaled ≡ normalized 53 n scaled
unfolding ldexp_of
ldexp_of-normalized zero scaled h = absurd (omega arith)
ldexp_of-normalized (suc n) scaled h = refl

abbrev bit : Bool → ℕ
bit true = 1
bit false = 0

-- The word with the given fields.
abbrev word : Bool → ℕ → ℕ → ℕ
word s exponent mantissa =
    bit_or (bit_or (if s then 2 ^ (64 - 1) else 0) (exponent * 2 ^ 52 % 2 ^ 64)) mantissa

word_sum :
    (s : Bool) (exponent mantissa : ℕ)
    → exponent < 2048
    → mantissa < 2 ^ 52
    → word s exponent mantissa ≡ bit s * 2 ^ 63 + exponent * 2 ^ 52 + mantissa
word_sum s exponent mantissa h k =
    let sign : if◌then◌else◌ {A = ℕ} s (2 ^ (64 - 1)) 0 ≡ bit s * 2 ^ 63 = ground arith in
    let kept : exponent * 2 ^ 52 % 2 ^ 64 ≡ exponent * 2 ^ 52 = omega arith in
    let upper : bit_or (bit s * 2 ^ 63) (exponent * 2 ^ 52) ≡ (bit s * 2 ^ 11 + exponent) * 2 ^ 52 =
      bit_or-shifted 63 (bit s) (exponent * 2 ^ 52) (omega arith) ∙ omega arith in
    rw (sign, kept, upper) (bit_or-shifted 52 (bit s * 2 ^ 11 + exponent) mantissa k ∙ omega arith)

bit_below : (s : Bool) → bit s < 2
bit_below true = omega arith
bit_below false = omega arith

-- The value that decode_float makes of an exponent and a mantissa, before the sign.
abbrev magnitude : ℕ → ℕ → Double
magnitude exponent mantissa =
    if exponent == 0
    then ldexp_of mantissa 52
    else (if exponent == 2047
        then (if mantissa == 0 then infinite false else nan)
        else ldexp_of (mantissa + 2 ^ 52) (exponent + 1073 + 53 - (52 + 1023)))

signs :
    (s : Bool) (d : Double)
    → if◌then◌else◌ {A = Double} (bit s * 2 ^ 63 == 0) d (negate d) ≡ (if s then negate d else d)
signs true d = refl
signs false d = refl

-- The fields of a word, taken apart again.
decode_float-word :
    (s : Bool) (exponent mantissa : ℕ)
    → exponent < 2048
    → mantissa < 2 ^ 52
    → decode_float (word s exponent mantissa) 64 52 1023
      ≡ (if s then negate (magnitude exponent mantissa) else magnitude exponent mantissa)
unfolding decode_float
decode_float-word s exponent mantissa h k =
    let v = bit s * 2 ^ 63 + exponent * 2 ^ 52 + mantissa in
    let small = bit_below s in
    let e : bit_and (v / 2 ^ 52) (2 ^ 11 - 1) ≡ exponent =
      bit_and-mask 11 (v / 2 ^ 52) ∙ omega arith in
    let m : bit_and v (2 ^ 52 - 1) ≡ mantissa = bit_and-mask 52 v ∙ omega arith in
    let top : bit_and v (2 ^ 63) ≡ bit s * 2 ^ 63 = bit_and-two_pow 63 v ∙ omega arith in
    rw (word_sum s exponent mantissa h k, e, m, top) (signs s (magnitude exponent mantissa))

pow_upper : (j : ℕ) → 2 ^ (52 + j) ≡ 2 ^ j * 2 ^ 52
pow_upper zero = refl
pow_upper (suc j) =
    ap (λ (t : ℕ). 2 ^ t) {y = suc (52 + j)} (omega arith)
    ∙ omega (arith, pow-suc 2 (52 + j), pow-suc 2 j, pow_upper j)

-- The fields of a finite value: they fit, and give the absolute value back.
abbrev HasFields : Bool → ℕ → ℕ → Type 0
HasFields s m k =
    (e : ℕ) × (n : ℕ) × ((encode_float 64 52 1023 (finite s m k)).0 ≡ word s e n)
    × (e < 2048)
    × (n < 2 ^ 52)
    × (magnitude e n ≡ finite false m k)

factor_pos : (q w m : ℕ) → q * w ≡ m → 0 < m → 0 < q
factor_pos zero w m e h = absurd (omega arith)
factor_pos (suc q) w m e h = omega arith

denormal_fields : (s : Bool) (m k : ℕ) → IsDouble (finite s m k) → k ≤ 51 → HasFields s m k
unfolding encode_float float_fields finite_fields
denormal_fields s m k (lo, hi, _, whole) h =
    let j = 52 - k in
    let q = m / 2 ^ j in
    let pos : 0 < 2 ^ j = omega (arith, one-le-pow j 2 (omega arith)) in
    let exact : q * 2 ^ j ≡ m = omega (arith, div-add-mod m (2 ^ j)) in
    let least : leb (k + 1023) 1074 ≡ true = ground arith in
    let large : leb (2047 + 1074) (k + 1023) ≡ false = ground arith in
    let amount : 53 + 1074 - (k + 1023) ≡ 52 + j = omega arith in
    let scaled : m * 2 ^ 52 / 2 ^ (53 + 1074 - (k + 1023)) ≡ q =
      ap (λ (t : ℕ). m * 2 ^ 52 / t) (ap (λ (t : ℕ). 2 ^ t) amount ∙ pow_upper j)
      ∙ mul-div-mul_right {m = 2 ^ 52} m (2 ^ j) (omega arith) in
    let two : 2 ≤ 2 ^ j = omega (
      arith,
      ap (λ (t : ℕ). 2 ^ t) {x = j} {y = suc (51 - k)} (omega arith),
      pow-suc 2 (51 - k),
      one-le-pow (51 - k) 2 (omega arith),
    ) in
    let grows = mul-le-mul_left q two in
    let some_bit = factor_pos q (2 ^ j) m exact (omega arith) in
    (
      0,
      q,
      rw (large, least, scaled) refl,
      omega arith,
      omega arith,
      ldexp_of-normalized q 52 some_bit
          ∙ normalized_lem j 53 q m 52 exact lo hi (omega arith) (omega arith)
          ∙ ap (λ t. finite false m t) (omega arith),
    )

normal_fields : (s : Bool) (m k : ℕ) → IsDouble (finite s m k) → 52 ≤ k → HasFields s m k
unfolding encode_float float_fields finite_fields
normal_fields s m k (lo, hi, fits, _) h =
    let small : leb (k + 1023) 1074 ≡ false = ground arith in
    let large : leb (2047 + 1074) (k + 1023) ≡ false = ground arith in
    let n = m - 2 ^ 52 in
    let scaled : n * 2 ^ 52 / 2 ^ 52 ≡ n = omega arith in
    let e = k + 1023 - 1074 in
    let inner : (e == 0) ≡ false = ground arith in
    let below : (e == 2047) ≡ false = ground arith in
    let whole : n + 2 ^ 52 ≡ m = omega arith in
    let back : e + 1073 + 53 - (52 + 1023) ≡ k = omega arith in
    let value =
      ldexp_of-normalized m k (omega arith)
      ∙ normalized_lem 0 53 m m k (omega arith) lo hi (omega arith) (omega arith) in
    (
      e,
      n,
      rw (large, small, scaled) refl,
      omega arith,
      omega arith,
      rw (inner, below, whole, back) (value ∙ ap (λ t. finite false m t) (omega arith)),
    )

finite_fields_lem : (s : Bool) (m k : ℕ) → IsDouble (finite s m k) → HasFields s m k
finite_fields_lem s m k h = elim (split-le 52 k) [
  | inl low ↦ denormal_fields s m k h (omega arith)
  | inr high ↦ normal_fields s m k h high
]

signed :
    (s : Bool) (m k : ℕ)
    → if◌then◌else◌ {A = Double} s (negate (finite false m k)) (finite false m k) ≡ finite s m k
unfolding negate
signed true m k = refl
signed false m k = refl

finite_decoded :
    (s : Bool) (m k : ℕ)
    → IsDouble (finite s m k)
    → decode_float (encode_float 64 52 1023 (finite s m k)).0 64 52 1023 ≡ finite s m k
finite_decoded s m k h =
    let (e, n, same, he, hn, value) = finite_fields_lem s m k h in
    rw same (decode_float-word s e n he hn ∙ rw value (signed s m k))

finite_bounds :
    (s : Bool) (m k : ℕ)
    → IsDouble (finite s m k)
    → (encode_float 64 52 1023 (finite s m k)).0 < 2 ^ 64
finite_bounds s m k h =
    let (e, n, same, he, hn, _) = finite_fields_lem s m k h in
    omega (arith, same, word_sum s e n he hn, bit_below s)

-- Every IEEE 754 double is decoded from the 64 bits that it is encoded in.
pub decode_float-encode_float :
    (d : Double) → IsDouble d → decode_float (encode_float 64 52 1023 d).0 64 52 1023 ≡ d
unfolding encode_float decode_float float_fields ldexp_of negate
decode_float-encode_float nan h = refl
decode_float-encode_float (infinite true) h = refl
decode_float-encode_float (infinite false) h = refl
decode_float-encode_float (zero_value true) h = refl
decode_float-encode_float (zero_value false) h = refl
decode_float-encode_float (finite s m k) h = finite_decoded s m k h

pub encode_float-bounds : (d : Double) → IsDouble d → (encode_float 64 52 1023 d).0 < 2 ^ 64
unfolding encode_float float_fields
encode_float-bounds nan h = omega arith
encode_float-bounds (infinite true) h = omega arith
encode_float-bounds (infinite false) h = omega arith
encode_float-bounds (zero_value true) h = omega arith
encode_float-bounds (zero_value false) h = omega arith
encode_float-bounds (finite s m k) h = finite_bounds s m k h

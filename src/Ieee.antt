-- ===== src/Ieee.antt =====
-- The double values that memodb/lib/CBOREncoder.cpp and memodb/lib/Node.cpp take apart by the
-- functions of <cmath>, and the two conversions: encodeFloat and decode_float.
pub mod RoundTrip
use bcdb.Prelude.{
  ℕ, zero, suc, ◌+◌, ◌-◌, ◌*◌, ◌/◌, ◌%◌, ◌^◌, ◌≤◌, ◌<◌, ◌≡◌, bit_and, bit_or, Bool, true, false,
  ltb, leb, ◌==◌, if◌then◌else◌,
}

-- `finite s m k`: frexp of the absolute value gives m / 2 ^ 53, where m has 53 bits, and the
-- exponent k - 1073. The least exponent, that of the least denormal, is -1073, so k is natural.
-- The payload of a NaN is left out.
pub data Double : Type 0 where
  nan : Double
  infinite : Bool → Double
  zero_value : Bool → Double
  finite : Bool → ℕ → ℕ → Double

-- The doubles of IEEE 754: below 2 ^ -1022 (k = 52) they lose low bits, one for each step down.
abbrev pub IsDouble : Double → Type 0
IsDouble nan = Unit
IsDouble (infinite s) = Unit
IsDouble (zero_value s) = Unit
IsDouble (finite s m k) = (2 ^ 52 ≤ m) × (m < 2 ^ 53) × (k < 2098) × (m % 2 ^ (52 - k) ≡ 0)

-- The fields and whether they are exact; `mask` is exponent_mask.
pub record Fields : Type 0 where
  pub sign : Bool
  pub exponent : ℕ
  pub mantissa : ℕ
  pub exact : Bool

abbrev mask_of : ℕ → ℕ → ℕ
mask_of total_size mantissa_size = 2 ^ (total_size - mantissa_size - 1) - 1

-- `exponent += exponent_bias - 1` makes it k + bias - 1074, which may be negative: the tests are
-- on k + bias. In the denormal branch the scaled value is m * 2 ^ mantissa_size over
-- 2 ^ (53 + 1074 - (k + bias)), in the other (m - 2 ^ 52) * 2 ^ mantissa_size over 2 ^ 52.
finite_fields : ℕ → ℕ → ℕ → Bool → ℕ → ℕ → Fields
finite_fields mask mantissa_size bias s m k =
    if leb (mask + 1074) (k + bias)
    then record { sign = s; exponent = mask; mantissa = 0; exact = false }
    else (if leb (k + bias) 1074
        then (let n = m * 2 ^ mantissa_size in
            let d = 2 ^ (53 + 1074 - (k + bias)) in
            record { sign = s; exponent = 0; mantissa = n / d; exact = n % d == 0 })
        else (let n = (m - 2 ^ 52) * 2 ^ mantissa_size in
            record {
              sign = s;
              exponent = k + bias - 1074;
              mantissa = n / 2 ^ 52;
              exact = n % 2 ^ 52 == 0;
            }))

unfoldable pub float_fields : ℕ → ℕ → ℕ → Double → Fields
unfolding finite_fields
float_fields total_size mantissa_size bias nan = record {
  sign = false;
  exponent = mask_of total_size mantissa_size;
  mantissa = 2 ^ (mantissa_size - 1);
  exact = true;
}
float_fields total_size mantissa_size bias (infinite s) = record {
  sign = s;
  exponent = mask_of total_size mantissa_size;
  mantissa = 0;
  exact = true;
}
float_fields total_size mantissa_size bias (zero_value s) = record {
  sign = s;
  exponent = 0;
  mantissa = 0;
  exact = true;
}
float_fields total_size mantissa_size bias (finite s m k) =
    finite_fields (mask_of total_size mantissa_size) mantissa_size bias s m k

-- CBOREncoder::encodeFloat: the result and whether it is exact.
unfoldable pub encode_float : ℕ → ℕ → ℕ → Double → ℕ × Bool
encode_float total_size mantissa_size bias value =
    let f = float_fields total_size mantissa_size bias value in
    (
      bit_or
          (bit_or (if f.sign then 2 ^ (total_size - 1) else 0)
            (f.exponent * 2 ^ mantissa_size % 2 ^ 64))
          f.mantissa,
      f.exact,
    )

-- ldexp(n, e) for an integer n that a double can hold: `scale` is e + 1073 and what is doubled off n
-- to make it 53 bits long.
unfoldable pub normalized : ℕ → ℕ → ℕ → Double
normalized zero n scale = finite false n scale
normalized (suc f) n scale =
    let more = normalized f (n * 2) (scale - 1) in
    if ltb n (2 ^ 52) then more else finite false n scale

-- `scaled` is e + 1073 + 53: the frexp exponent of n is 53 once n has 53 bits.
unfoldable pub ldexp_of : ℕ → ℕ → Double
ldexp_of zero scaled = zero_value false
ldexp_of (suc n) scaled = normalized 53 (suc n) scaled

unfoldable pub negate : Double → Double
negate nan = nan
negate (infinite true) = infinite false
negate (infinite false) = infinite true
negate (zero_value true) = zero_value false
negate (zero_value false) = zero_value true
negate (finite true m k) = finite false m k
negate (finite false m k) = finite true m k

-- decode_float of memodb/lib/Node.cpp
unfoldable pub decode_float : ℕ → ℕ → ℕ → ℕ → Double
decode_float v total_size mantissa_size bias =
    let mask = mask_of total_size mantissa_size in
    let exponent = bit_and (v / 2 ^ mantissa_size) mask in
    let mantissa = bit_and v (2 ^ mantissa_size - 1) in
    let result =
      if exponent == 0
      then ldexp_of mantissa (1 + 1073 + 53 - (mantissa_size + bias))
      else (if exponent == mask
          then (if mantissa == 0 then infinite false else nan)
          else ldexp_of (mantissa + 2 ^ mantissa_size)
              (exponent + 1073 + 53 - (mantissa_size + bias))) in
    if bit_and v (2 ^ (total_size - 1)) == 0 then result else negate result

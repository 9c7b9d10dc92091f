-- ===== src/Uri/Percent.antt =====
-- What percentEncode writes, percentDecode reads back: memodb/lib/URI.cpp.
use mathlib.Core.Option.{some-injective}
use mathlib.Core.Path.{subst}
use bcdb.Prelude.{
  ℕ, zero, suc, ◌+◌, ◌*◌, ◌/◌, ◌%◌, ◌^◌, ◌<◌, ◌≡◌, refl, Bool, true, false, Option, none, some,
  List, [], ◌∷◌, get_or, get_elem?, All, IsByte, ◌==◌, if◌then◌else◌, arith, Bool-cases, inl, inr,
  bit_and, ◌>>=?◌, ==_iff, ◌&&◌,
}
use bcdb.Prelude.Bits.{all_below, all_below_sound, bit_and-mask}
use bcdb.Prelude.Strings.{contains}
use bcdb.Uri.{hex_digits, alphabets, percent_encode, hex_value, percent_decode}

is_value : Option ℕ → ℕ → Bool
is_value none d = false
is_value (some e) d = e == d

is_value→eq : (o : Option ℕ) (d : ℕ) → is_value o d ≡ true → o ≡ some d
unfolding is_value
is_value→eq o d h = ground arith

hex_value-digit : (d : ℕ) → d < 16 → hex_value (get_or hex_digits d 0) ≡ some d
unfolding hex_value is_value all_below
hex_value-digit d h =
    is_value→eq _ d
      (all_below_sound 16 (λ d. is_value (hex_value (get_or hex_digits d 0)) d) d refl h)

-- An escape is decoded to its byte, whatever follows.
decode_escape :
    (c : ℕ) (str : List ℕ)
    → c < 256
    → percent_decode
        (b'%' ∷ get_or hex_digits (c / 2 ^ 4) 0 ∷ get_or hex_digits (bit_and c 0xf) 0 ∷ str)
      ≡ (percent_decode str >>=? λ rest. some (c ∷ rest))
unfolding percent_decode
decode_escape c str h =
    let low = bit_and-mask 4 c in
    let value : c / 2 ^ 4 * 16 + c % 2 ^ 4 ≡ c = omega arith in
    rw
      (
        low,
        hex_value-digit (c / 2 ^ 4) (omega arith),
        hex_value-digit (c % 2 ^ 4) (omega arith),
        value,
      )
      refl

decode_plain :
    (c : ℕ) (str : List ℕ)
    → (c == b'%') ≡ false
    → percent_decode (c ∷ str) ≡ (percent_decode str >>=? λ rest. some (c ∷ rest))
unfolding percent_decode
decode_plain c [] h = rw h refl
decode_plain c (d ∷ []) h = rw h refl
decode_plain c (d ∷ e ∷ str) h = rw (h, percent_decode) refl

module _ (allowed : List ℕ) (no_percent : contains allowed b'%' ≡ false) where
  allowed_plain : (c : ℕ) → contains allowed c ≡ true → (c == b'%') ≡ false
  allowed_plain c h = elim (Bool-cases (c == b'%')) [
    | inl e ↦ cc ((==_iff c b'%').0 e, h, no_percent)
    | inr e ↦ e
  ]

  pub decode-encode_with :
      (str : List ℕ) → All IsByte str → percent_decode (percent_encode allowed str) ≡ some str
  unfolding percent_encode
  decode-encode_with [] h = unfold percent_decode in refl
  decode-encode_with (c ∷ str) h = elim (Bool-cases (contains allowed c)) [
    | inl e ↦
        rw
          (
            e,
            decode_plain c (percent_encode allowed str) (allowed_plain c e),
            decode-encode_with str h.1,
          )
          refl
    | inr e ↦
        rw (e, decode_escape c (percent_encode allowed str) h.0, decode-encode_with str h.1) refl
  ]

all_alphabets : List (List ℕ) → Bool
all_alphabets [] = true
all_alphabets (a ∷ as_) = (if contains a b'%' then false else true) && all_alphabets as_

no_percent_in :
    (as_ : List (List ℕ)) (i : ℕ) {a : List ℕ}
    → all_alphabets as_ ≡ true
    → get_elem? as_ i ≡ some a
    → contains a b'%' ≡ false
unfolding all_alphabets
no_percent_in [] i h e = absurd (cc)
no_percent_in (b ∷ as_) zero h e =
    let plain : contains b b'%' ≡ false = ground arith in
    subst (λ t. contains t b'%' ≡ false) (some-injective _ _ e) plain
no_percent_in (b ∷ as_) (suc i) h e = no_percent_in as_ i (ground arith) e

-- What percentEncode writes of a byte string, percentDecode reads back, with each of the five
-- alphabets of URI::encode; `i` is the alphabet's place, and every element of `str` is below 256.
pub percent_decode-percent_encode :
    (i : ℕ) {allowed : List ℕ} (str : List ℕ)
    → get_elem? alphabets i ≡ some allowed
    → All IsByte str
    → percent_decode (percent_encode allowed str) ≡ some str
unfolding all_alphabets contains
percent_decode-percent_encode i {allowed} str e h =
    decode-encode_with allowed (no_percent_in alphabets i refl e) str h

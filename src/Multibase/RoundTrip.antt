-- ===== src/Multibase/RoundTrip.antt =====
-- Every base reads back what it wrote: memodb/lib/Multibase.cpp.
use mathlib.Core.Path.{subst}
use mathlib.Core.Option.{some-injective}
use bcdb.Prelude.{
  ℕ, zero, suc, ◌<◌, ◌≡◌, refl, Bool, true, false, some, List, get_or, get_elem?, All, IsByte, ◌==◌,
  arith,
}
use bcdb.Prelude.Bits.{all_below, all_below_sound}
use bcdb.Multibase.{
  CharValue, value, invalid_value, pad_value, BitwiseBase, ok, values, all_bases, base16,
  base16upper, base32, base32upper, base64, base64pad, base64url, base64urlpad, decode, encode,
}
use bcdb.Multibase.Base16
use bcdb.Multibase.Base32
use bcdb.Multibase.Base64
use bcdb.Multibase.Base64Pad

is_digit : CharValue → ℕ → Bool
is_digit (value e) d = e == d
is_digit invalid_value d = false
is_digit pad_value d = false

is_digit→eq : (v : CharValue) (d : ℕ) → is_digit v d ≡ true → v ≡ value d
unfolding is_digit
is_digit→eq v d h = ground arith

-- The table that the constructor fills maps the chars of the alphabet back to their places.
table_of :
    (base : BitwiseBase) (n : ℕ)
    → all_below n (λ d. is_digit (values base (get_or base.chars d 0)) d) ≡ true
    → (d : ℕ) → d < n
    → values base (get_or base.chars d 0) ≡ value d
table_of base n checked d h = is_digit→eq _ d (all_below_sound n _ d checked h)

-- A table at a base, for the char that the base has as its prefix.
module _ (bytes : List ℕ) (h : All IsByte bytes) where
  decode-encode-base16 : decode (encode base16 bytes) ≡ ok bytes
  unfolding decode encode is_digit all_below values
  decode-encode-base16 =
      Base16.decode_loop-encode_loop b'f' "base16" base16.chars (table_of base16 16 refl) bytes _ _
        h (omega arith) (omega arith)

  decode-encode-base16upper : decode (encode base16upper bytes) ≡ ok bytes
  unfolding decode encode is_digit all_below values
  decode-encode-base16upper =
      Base16.decode_loop-encode_loop b'F' "base16upper" base16upper.chars
        (table_of base16upper 16 refl) bytes _ _ h (omega arith) (omega arith)

  decode-encode-base32 : decode (encode base32 bytes) ≡ ok bytes
  unfolding decode encode is_digit all_below values
  decode-encode-base32 =
      Base32.decode_loop-encode_loop b'b' "base32" base32.chars (table_of base32 32 refl) bytes _ _
        h (omega arith) (omega arith)

  decode-encode-base32upper : decode (encode base32upper bytes) ≡ ok bytes
  unfolding decode encode is_digit all_below values
  decode-encode-base32upper =
      Base32.decode_loop-encode_loop b'B' "base32upper" base32upper.chars
        (table_of base32upper 32 refl) bytes _ _ h (omega arith) (omega arith)

  decode-encode-base64 : decode (encode base64 bytes) ≡ ok bytes
  unfolding decode encode is_digit all_below values
  decode-encode-base64 =
      Base64.decode_loop-encode_loop b'm' "base64" base64.chars (table_of base64 64 refl) bytes _ _
        h (omega arith) (omega arith)

  decode-encode-base64pad : decode (encode base64pad bytes) ≡ ok bytes
  unfolding decode encode is_digit all_below values
  decode-encode-base64pad =
      Base64Pad.decode_loop-encode_loop b'M' "base64pad" base64pad.chars b'='
        (table_of base64pad 64 refl) refl bytes _ _ h (omega arith) (omega arith)

  decode-encode-base64url : decode (encode base64url bytes) ≡ ok bytes
  unfolding decode encode is_digit all_below values
  decode-encode-base64url =
      Base64.decode_loop-encode_loop b'u' "base64url" base64url.chars (table_of base64url 64 refl)
        bytes _ _ h (omega arith) (omega arith)

  decode-encode-base64urlpad : decode (encode base64urlpad bytes) ≡ ok bytes
  unfolding decode encode is_digit all_below values
  decode-encode-base64urlpad =
      Base64Pad.decode_loop-encode_loop b'U' "base64urlpad" base64urlpad.chars b'='
        (table_of base64urlpad 64 refl) refl bytes _ _ h (omega arith) (omega arith)

  -- Multibase::decode gives back the bytes that Multibase::encode was given, in each of the eight
  -- bases; `i` is the base's place in AllBases, and every element of `bytes` is below 256.
  pub decode-encode :
      (i : ℕ) {base : BitwiseBase}
      → get_elem? all_bases i ≡ some base
      → decode (encode base bytes) ≡ ok bytes
  decode-encode zero e =
      subst (λ b. decode (encode b bytes) ≡ ok bytes) (some-injective _ _ e) decode-encode-base16
  decode-encode (suc zero) e =
      subst (λ b. decode (encode b bytes) ≡ ok bytes) (some-injective _ _ e)
        decode-encode-base16upper
  decode-encode (suc (suc zero)) e =
      subst (λ b. decode (encode b bytes) ≡ ok bytes) (some-injective _ _ e) decode-encode-base32
  decode-encode (suc (suc (suc zero))) e =
      subst (λ b. decode (encode b bytes) ≡ ok bytes) (some-injective _ _ e)
        decode-encode-base32upper
  decode-encode (suc (suc (suc (suc zero)))) e =
      subst (λ b. decode (encode b bytes) ≡ ok bytes) (some-injective _ _ e) decode-encode-base64
  decode-encode (suc (suc (suc (suc (suc zero))))) e =
      subst (λ b. decode (encode b bytes) ≡ ok bytes) (some-injective _ _ e) decode-encode-base64pad
  decode-encode (suc (suc (suc (suc (suc (suc zero)))))) e =
      subst (λ b. decode (encode b bytes) ≡ ok bytes) (some-injective _ _ e) decode-encode-base64url
  decode-encode (suc (suc (suc (suc (suc (suc (suc zero))))))) e =
      subst (λ b. decode (encode b bytes) ≡ ok bytes) (some-injective _ _ e)
        decode-encode-base64urlpad
  decode-encode (suc (suc (suc (suc (suc (suc (suc (suc i)))))))) e = cc

-- ===== src/Multibase/Base16.antt =====
-- A byte is two chars of base16: memodb/lib/Multibase.cpp at bits_per_char = 4.
use Prim.Native.String.{String}
use bcdb.Prelude.{
  ℕ, zero, suc, ◌+◌, ◌/◌, ◌^◌, ◌≤◌, ◌<◌, bit_and, ◌≡◌, refl, ap, Bool, false, List, [], ◌∷◌, ◌++◌,
  length, get_or, arith, All, IsByte,
}
use bcdb.Prelude.Bits.{bit_and-mask}
use bcdb.Multibase.{
  value, BitwiseBase, Result, ok, ◌>>=◌, values, Group, read_group, push_bytes, decode_loop,
  chunk_chars, fill_chunk, encode_loop, hex_base,
}
use bcdb.Multibase.Groups.{join-digits, horner, scaled, gathered, low_byte, decode_loop-nil}

-- The value of a chunk of bytes, filled up with zeros.
abbrev packed : List ℕ → List ℕ → ℕ
packed bs zeros = scaled 8 (horner 8 0 bs) zeros

-- The bytes that are pushed from it.
bytes_one :
    (b0 : ℕ) → All IsByte (b0 ∷ []) → push_bytes 8 (packed (b0 ∷ []) ([]) / 1) 8 8 ≡ ok (b0 ∷ [], 0)
unfolding push_bytes
bytes_one b0 h = simp low_byte (ground arith)

module _ (prefix : ℕ) (name : String) (chars : List ℕ)
    (table : (d : ℕ)
      → d < 16
      → values (hex_base prefix name chars) (get_or chars d 0) ≡ value d) where
  abbrev base : BitwiseBase
  base = hex_base prefix name chars

  abbrev char_of : ℕ → ℕ
  char_of q = get_or chars (bit_and q 15) 0

  char_value : (q : ℕ) → values base (char_of q) ≡ value (bit_and q 15)
  char_value q = table (bit_and q 15) (rw (bit_and-mask 4 q) (omega arith))

  -- The chars for the digits of `n` at the given divisors.
  abbrev text : ℕ → List ℕ → List ℕ
  text n [] = []
  text n (m ∷ ms) = char_of (n / m) ∷ text n ms

  abbrev group_of : List ℕ → ℕ → Bool → ℕ → Result Group
  group_of more valid seen v =
      ok (record { str = more; value = v; num_bits = 8; valid_bits = valid; pad_seen = seen })

  read_two :
      (n : ℕ) (more : List ℕ)
      → n < 2 ^ 8
      → read_group base 8 (text n (2 ^ 4 ∷ 1 ∷ []) ++ more) 0 0 0 false
        ≡ group_of more 8 false (n / 1)
  unfolding read_group
  read_two n more h = simp char_value (
      ap (group_of more 8 false)
        (join-digits 4 n (2 ^ 8) (2 ^ 4 ∷ 1 ∷ []) (omega arith) (omega arith) (omega arith)))

  -- One round of encoding, read back by one round of decoding.
  pub round_one :
      (b0 f : ℕ) (rest more : List ℕ)
      → All IsByte (b0 ∷ [])
      → decode_loop base (suc f) (chunk_chars base (fill_chunk 4 4 (b0 ∷ rest) 0 0 0) ++ more) false
        ≡ (decode_loop base f more false >>= λ bytes. ok (b0 ∷ bytes))
  unfolding decode_loop chunk_chars fill_chunk
  round_one b0 f rest more h = rw (
    gathered 8 (b0 ∷ []) [] (omega arith) tt,
    read_two (packed (b0 ∷ []) ([])) more (omega arith),
    bytes_one b0 h,
  )

  encode_one :
      (b0 f : ℕ) (rest : List ℕ)
      → encode_loop base (suc f) (b0 ∷ rest)
        ≡ chunk_chars base (fill_chunk 4 4 (b0 ∷ rest) 0 0 0) ++ encode_loop base f rest
  unfolding encode_loop fill_chunk
  encode_one b0 f rest = refl

  length-encode_one :
      (b0 f : ℕ) (rest : List ℕ)
      → length (encode_loop base (suc f) (b0 ∷ rest)) ≡ 2 + length (encode_loop base f rest)
  unfolding encode_loop fill_chunk chunk_chars
  length-encode_one b0 f rest = omega arith

  encode_loop-nil : (f : ℕ) → encode_loop base f [] ≡ []
  unfolding encode_loop
  encode_loop-nil zero = refl
  encode_loop-nil (suc f) = refl

  -- Every chunk, and then what is left.
  pub decode_loop-encode_loop :
      (bytes : List ℕ) (f g : ℕ)
      → All IsByte bytes
      → length bytes ≤ f
      → length (encode_loop base f bytes) ≤ g
      → decode_loop base g (encode_loop base f bytes) false ≡ ok bytes
  decode_loop-encode_loop [] f g h hf hg = rw (encode_loop-nil f, decode_loop-nil)
  decode_loop-encode_loop (b0 ∷ bytes) zero g h hf hg = elim hf [ ]
  decode_loop-encode_loop (b0 ∷ bytes) (suc f) zero h hf hg =
      absurd (omega (arith, length-encode_one b0 f bytes))
  decode_loop-encode_loop (b0 ∷ rest) (suc f) (suc g) h hf hg =
      let fuel = length-encode_one b0 f rest in
      rw (
        encode_one b0 f rest,
        round_one b0 g rest (encode_loop base f rest) (omega arith),
        decode_loop-encode_loop rest f g h.1 (omega arith) (omega arith),
      )

-- ===== src/Multibase/Base64.antt =====
-- Three bytes are four chars of base64: memodb/lib/Multibase.cpp at bits_per_char = 6.
use Prim.Native.String.{String}
use bcdb.Prelude.{
  ℕ, zero, suc, ◌+◌, ◌/◌, ◌%◌, ◌^◌, ◌≤◌, ◌<◌, bit_and, ◌≡◌, refl, ap, Bool, true, false, List, [],
  ◌∷◌, ◌++◌, length, get_or, arith, All, IsByte, append-nil, none,
}
use bcdb.Prelude.Bits.{bit_and-mask}
use bcdb.Multibase.{
  value, BitwiseBase, Result, ok, ◌>>=◌, values, Group, read_group, push_bytes, decode_loop,
  chunk_chars, fill_chunk, encode_loop, base64_of,
}
use bcdb.Multibase.Groups.{
  join-digits, shifted-zeros, horner, scaled, gathered, low_byte, decode_loop-nil,
}

-- The value of a chunk of bytes, filled up with zeros.
abbrev packed : List ℕ → List ℕ → ℕ
packed bs zeros = scaled 8 (horner 8 0 bs) zeros

-- The bytes that are pushed from it.
bytes_one :
    (b0 : ℕ)
    → All IsByte (b0 ∷ [])
    → push_bytes 12 (packed (b0 ∷ []) (0 ∷ 0 ∷ []) / 1) 24 12 ≡ ok (b0 ∷ [], 4)
unfolding push_bytes
bytes_one b0 h = simp low_byte (ground arith)

bytes_two :
    (b0 b1 : ℕ)
    → All IsByte (b0 ∷ b1 ∷ [])
    → push_bytes 18 (packed (b0 ∷ b1 ∷ []) (0 ∷ []) / 1) 24 18 ≡ ok (b0 ∷ b1 ∷ [], 2)
unfolding push_bytes
bytes_two b0 b1 h = simp low_byte (ground arith)

bytes_three :
    (b0 b1 b2 : ℕ)
    → All IsByte (b0 ∷ b1 ∷ b2 ∷ [])
    → push_bytes 24 (packed (b0 ∷ b1 ∷ b2 ∷ []) ([]) / 1) 24 24 ≡ ok (b0 ∷ b1 ∷ b2 ∷ [], 0)
unfolding push_bytes
bytes_three b0 b1 b2 h = simp low_byte (ground arith)

module _ (prefix : ℕ) (name : String) (chars : List ℕ)
    (table : (d : ℕ)
      → d < 64
      → values (base64_of prefix name chars none) (get_or chars d 0) ≡ value d) where
  abbrev base : BitwiseBase
  base = base64_of prefix name chars none

  abbrev char_of : ℕ → ℕ
  char_of q = get_or chars (bit_and q 63) 0

  char_value : (q : ℕ) → values base (char_of q) ≡ value (bit_and q 63)
  char_value q = table (bit_and q 63) (rw (bit_and-mask 6 q) (omega arith))

  -- The chars for the digits of `n` at the given divisors.
  abbrev text : ℕ → List ℕ → List ℕ
  text n [] = []
  text n (m ∷ ms) = char_of (n / m) ∷ text n ms

  abbrev group_of : List ℕ → ℕ → Bool → ℕ → Result Group
  group_of more valid seen v =
      ok (record { str = more; value = v; num_bits = 24; valid_bits = valid; pad_seen = seen })

  read_four :
      (n : ℕ) (more : List ℕ)
      → n < 2 ^ 24
      → read_group base 8 (text n (2 ^ 18 ∷ 2 ^ 12 ∷ 2 ^ 6 ∷ 1 ∷ []) ++ more) 0 0 0 false
        ≡ group_of more 24 false (n / 1)
  unfolding read_group
  read_four n more h = simp char_value (
      ap (group_of more 24 false) (
        join-digits 6 n (2 ^ 24) (2 ^ 18 ∷ 2 ^ 12 ∷ 2 ^ 6 ∷ 1 ∷ []) (omega arith) (omega arith)
          (omega arith)))

  -- A text that ends early: the digits that are left out were zero.
  read_two :
      (n : ℕ)
      → n < 2 ^ 24
      → n % 2 ^ 12 ≡ 0
      → read_group base 8 (text n (2 ^ 18 ∷ 2 ^ 12 ∷ [])) 0 0 0 false ≡ group_of [] 12 true (n / 1)
  unfolding read_group
  read_two n h z = simp char_value (
      ap (group_of [] 12 true) (
        shifted-zeros 6 n (2 ^ 12) (2 ^ 6 ∷ 1 ∷ [])
          (join-digits 6 n (2 ^ 24) (2 ^ 18 ∷ 2 ^ 12 ∷ []) (omega arith) (omega arith)
            (omega arith))
          z (omega arith) (omega arith)))

  read_three :
      (n : ℕ)
      → n < 2 ^ 24
      → n % 2 ^ 6 ≡ 0
      → read_group base 8 (text n (2 ^ 18 ∷ 2 ^ 12 ∷ 2 ^ 6 ∷ [])) 0 0 0 false
        ≡ group_of [] 18 true (n / 1)
  unfolding read_group
  read_three n h z = simp char_value (
      ap (group_of [] 18 true) (
        shifted-zeros 6 n (2 ^ 6) (1 ∷ [])
          (join-digits 6 n (2 ^ 24) (2 ^ 18 ∷ 2 ^ 12 ∷ 2 ^ 6 ∷ []) (omega arith) (omega arith)
            (omega arith))
          z (omega arith) (omega arith)))

  pub round_one :
      (b0 f : ℕ)
      → All IsByte (b0 ∷ [])
      → decode_loop base (suc f) (chunk_chars base (fill_chunk 6 6 (b0 ∷ []) 0 0 0)) false
        ≡ ok (b0 ∷ [])
  unfolding decode_loop chunk_chars fill_chunk
  round_one b0 f h = rw (
    gathered 8 (b0 ∷ []) (0 ∷ 0 ∷ []) (omega arith) (omega arith),
    read_two (packed (b0 ∷ []) (0 ∷ 0 ∷ [])) (omega arith) (omega arith),
    bytes_one b0 h,
  )

  pub round_two :
      (b0 b1 f : ℕ)
      → All IsByte (b0 ∷ b1 ∷ [])
      → decode_loop base (suc f) (chunk_chars base (fill_chunk 6 6 (b0 ∷ b1 ∷ []) 0 0 0)) false
        ≡ ok (b0 ∷ b1 ∷ [])
  unfolding decode_loop chunk_chars fill_chunk
  round_two b0 b1 f h = rw (
    gathered 8 (b0 ∷ b1 ∷ []) (0 ∷ []) (omega arith) (omega arith),
    read_three (packed (b0 ∷ b1 ∷ []) (0 ∷ [])) (omega arith) (omega arith),
    bytes_two b0 b1 h,
  )

  -- One round of encoding, read back by one round of decoding.
  pub round_three :
      (b0 b1 b2 f : ℕ) (rest more : List ℕ)
      → All IsByte (b0 ∷ b1 ∷ b2 ∷ [])
      → decode_loop base
          (suc f)
          (chunk_chars base (fill_chunk 6 6 (b0 ∷ b1 ∷ b2 ∷ rest) 0 0 0) ++ more)
          false
        ≡ (decode_loop base f more false >>= λ bytes. ok (b0 ∷ b1 ∷ b2 ∷ bytes))
  unfolding decode_loop chunk_chars fill_chunk
  round_three b0 b1 b2 f rest more h = rw (
    gathered 8 (b0 ∷ b1 ∷ b2 ∷ []) [] (omega arith) tt,
    read_four (packed (b0 ∷ b1 ∷ b2 ∷ []) ([])) more (omega arith),
    bytes_three b0 b1 b2 h,
  )

  encode_three :
      (b0 b1 b2 f : ℕ) (rest : List ℕ)
      → encode_loop base (suc f) (b0 ∷ b1 ∷ b2 ∷ rest)
        ≡ chunk_chars base (fill_chunk 6 6 (b0 ∷ b1 ∷ b2 ∷ rest) 0 0 0) ++ encode_loop base f rest
  unfolding encode_loop fill_chunk
  encode_three b0 b1 b2 f rest = refl

  length-encode_three :
      (b0 b1 b2 f : ℕ) (rest : List ℕ)
      → length (encode_loop base (suc f) (b0 ∷ b1 ∷ b2 ∷ rest))
        ≡ 4 + length (encode_loop base f rest)
  unfolding encode_loop fill_chunk chunk_chars
  length-encode_three b0 b1 b2 f rest = omega arith

  encode_loop-nil : (f : ℕ) → encode_loop base f [] ≡ []
  unfolding encode_loop
  encode_loop-nil zero = refl
  encode_loop-nil (suc f) = refl

  encode_one :
      (b0 f : ℕ)
      → encode_loop base (suc f) (b0 ∷ []) ≡ chunk_chars base (fill_chunk 6 6 (b0 ∷ []) 0 0 0)
  unfolding encode_loop fill_chunk
  encode_one b0 f = rw (encode_loop-nil f) (append-nil _)

  encode_two :
      (b0 b1 f : ℕ)
      → encode_loop base (suc f) (b0 ∷ b1 ∷ [])
        ≡ chunk_chars base (fill_chunk 6 6 (b0 ∷ b1 ∷ []) 0 0 0)
  unfolding encode_loop fill_chunk
  encode_two b0 b1 f = rw (encode_loop-nil f) (append-nil _)

  encode_loop-pos : (b f : ℕ) (bytes : List ℕ) → 0 < length (encode_loop base (suc f) (b ∷ bytes))
  unfolding encode_loop fill_chunk chunk_chars
  encode_loop-pos b0 f ([]) = omega arith
  encode_loop-pos b0 f (b1 ∷ []) = omega arith
  encode_loop-pos b0 f (b1 ∷ b2 ∷ rest) = omega arith

  -- Every chunk, and then what is left.
  pub decode_loop-encode_loop :
      (bytes : List ℕ) (f g : ℕ)
      → All IsByte bytes
      → length bytes ≤ f
      → length (encode_loop base f bytes) ≤ g
      → decode_loop base g (encode_loop base f bytes) false ≡ ok bytes
  decode_loop-encode_loop [] f g h hf hg = rw (encode_loop-nil f, decode_loop-nil)
  decode_loop-encode_loop (b0 ∷ bytes) zero g h hf hg = elim hf [ ]
  decode_loop-encode_loop (b0 ∷ bytes) (suc f) zero h hf hg =
      absurd (omega (arith, encode_loop-pos b0 f bytes))
  decode_loop-encode_loop (b0 ∷ []) (suc f) (suc g) h hf hg =
      rw (encode_one b0 f) (round_one b0 g h)
  decode_loop-encode_loop (b0 ∷ b1 ∷ []) (suc f) (suc g) h hf hg =
      rw (encode_two b0 b1 f) (round_two b0 b1 g h)
  decode_loop-encode_loop (b0 ∷ b1 ∷ b2 ∷ rest) (suc f) (suc g) h hf hg =
      let fuel = length-encode_three b0 b1 b2 f rest in
      rw (
        encode_three b0 b1 b2 f rest,
        round_three b0 b1 b2 g rest (encode_loop base f rest) (omega arith),
        decode_loop-encode_loop rest f g h.1.1.1 (omega arith) (omega arith),
      )

-- ===== src/Multibase/Base32.antt =====
-- Five bytes are eight chars of base32: memodb/lib/Multibase.cpp at bits_per_char = 5.
use Prim.Native.String.{String}
use bcdb.Prelude.{
  ℕ, zero, suc, ◌+◌, ◌/◌, ◌%◌, ◌^◌, ◌≤◌, ◌<◌, bit_and, ◌≡◌, refl, ap, Bool, true, false, List, [],
  ◌∷◌, ◌++◌, length, get_or, arith, All, IsByte, append-nil,
}
use bcdb.Prelude.Bits.{bit_and-mask}
use bcdb.Multibase.{
  value, BitwiseBase, Result, ok, ◌>>=◌, values, Group, read_group, push_bytes, decode_loop,
  chunk_chars, fill_chunk, encode_loop, base32_of,
}
use bcdb.Multibase.Groups.{
  join-digits, shifted-zeros, horner, scaled, gathered, low_byte, decode_loop-nil,
}

-- The value of a chunk of bytes, filled up with zeros.
abbrev packed : List ℕ → List ℕ → ℕ
packed bs zeros = scaled 8 (horner 8 0 bs) zeros

-- The bytes that are pushed from it.
bytes_one :
    (b0 : ℕ)
    → All IsByte (b0 ∷ [])
    → push_bytes 10 (packed (b0 ∷ []) (0 ∷ 0 ∷ 0 ∷ 0 ∷ []) / 1) 40 10 ≡ ok (b0 ∷ [], 2)
unfolding push_bytes
bytes_one b0 h = simp low_byte (ground arith)

bytes_two :
    (b0 b1 : ℕ)
    → All IsByte (b0 ∷ b1 ∷ [])
    → push_bytes 20 (packed (b0 ∷ b1 ∷ []) (0 ∷ 0 ∷ 0 ∷ []) / 1) 40 20 ≡ ok (b0 ∷ b1 ∷ [], 4)
unfolding push_bytes
bytes_two b0 b1 h = simp low_byte (ground arith)

bytes_three :
    (b0 b1 b2 : ℕ)
    → All IsByte (b0 ∷ b1 ∷ b2 ∷ [])
    → push_bytes 25 (packed (b0 ∷ b1 ∷ b2 ∷ []) (0 ∷ 0 ∷ []) / 1) 40 25 ≡ ok (b0 ∷ b1 ∷ b2 ∷ [], 1)
unfolding push_bytes
bytes_three b0 b1 b2 h = simp low_byte (ground arith)

bytes_four :
    (b0 b1 b2 b3 : ℕ)
    → All IsByte (b0 ∷ b1 ∷ b2 ∷ b3 ∷ [])
    → push_bytes 35 (packed (b0 ∷ b1 ∷ b2 ∷ b3 ∷ []) (0 ∷ []) / 1) 40 35
      ≡ ok (b0 ∷ b1 ∷ b2 ∷ b3 ∷ [], 3)
unfolding push_bytes
bytes_four b0 b1 b2 b3 h = simp low_byte (ground arith)

bytes_five :
    (b0 b1 b2 b3 b4 : ℕ)
    → All IsByte (b0 ∷ b1 ∷ b2 ∷ b3 ∷ b4 ∷ [])
    → push_bytes 40 (packed (b0 ∷ b1 ∷ b2 ∷ b3 ∷ b4 ∷ []) ([]) / 1) 40 40
      ≡ ok (b0 ∷ b1 ∷ b2 ∷ b3 ∷ b4 ∷ [], 0)
unfolding push_bytes
bytes_five b0 b1 b2 b3 b4 h = simp low_byte (ground arith)

module _ (prefix : ℕ) (name : String) (chars : List ℕ)
    (table : (d : ℕ)
      → d < 32
      → values (base32_of prefix name chars) (get_or chars d 0) ≡ value d) where
  abbrev base : BitwiseBase
  base = base32_of prefix name chars

  abbrev char_of : ℕ → ℕ
  char_of q = get_or chars (bit_and q 31) 0

  char_value : (q : ℕ) → values base (char_of q) ≡ value (bit_and q 31)
  char_value q = table (bit_and q 31) (rw (bit_and-mask 5 q) (omega arith))

  -- The chars for the digits of `n` at the given divisors.
  abbrev text : ℕ → List ℕ → List ℕ
  text n [] = []
  text n (m ∷ ms) = char_of (n / m) ∷ text n ms

  abbrev group_of : List ℕ → ℕ → Bool → ℕ → Result Group
  group_of more valid seen v =
      ok (record { str = more; value = v; num_bits = 40; valid_bits = valid; pad_seen = seen })

  read_eight :
      (n : ℕ) (more : List ℕ)
      → n < 2 ^ 40
      → read_group base 8
          (text n (2 ^ 35 ∷ 2 ^ 30 ∷ 2 ^ 25 ∷ 2 ^ 20 ∷ 2 ^ 15 ∷ 2 ^ 10 ∷ 2 ^ 5 ∷ 1 ∷ []) ++ more)
          0
          0
          0
          false
        ≡ group_of more 40 false (n / 1)
  unfolding read_group
  read_eight n more h = simp char_value (
      ap (group_of more 40 false) (
        join-digits 5 n (2 ^ 40)
          (2 ^ 35 ∷ 2 ^ 30 ∷ 2 ^ 25 ∷ 2 ^ 20 ∷ 2 ^ 15 ∷ 2 ^ 10 ∷ 2 ^ 5 ∷ 1 ∷ []) (omega arith)
          (omega arith) (omega arith)))

  -- A text that ends early: the digits that are left out were zero.
  read_two :
      (n : ℕ)
      → n < 2 ^ 40
      → n % 2 ^ 30 ≡ 0
      → read_group base 8 (text n (2 ^ 35 ∷ 2 ^ 30 ∷ [])) 0 0 0 false ≡ group_of [] 10 true (n / 1)
  unfolding read_group
  read_two n h z = simp char_value (
      ap (group_of [] 10 true) (
        shifted-zeros 5 n (2 ^ 30) (2 ^ 25 ∷ 2 ^ 20 ∷ 2 ^ 15 ∷ 2 ^ 10 ∷ 2 ^ 5 ∷ 1 ∷ [])
          (join-digits 5 n (2 ^ 40) (2 ^ 35 ∷ 2 ^ 30 ∷ []) (omega arith) (omega arith)
            (omega arith))
          z (omega arith) (omega arith)))

  read_four :
      (n : ℕ)
      → n < 2 ^ 40
      → n % 2 ^ 20 ≡ 0
      → read_group base 8 (text n (2 ^ 35 ∷ 2 ^ 30 ∷ 2 ^ 25 ∷ 2 ^ 20 ∷ [])) 0 0 0 false
        ≡ group_of [] 20 true (n / 1)
  unfolding read_group
  read_four n h z = simp char_value (
      ap (group_of [] 20 true) (
        shifted-zeros 5 n (2 ^ 20) (2 ^ 15 ∷ 2 ^ 10 ∷ 2 ^ 5 ∷ 1 ∷ [])
          (join-digits 5 n (2 ^ 40) (2 ^ 35 ∷ 2 ^ 30 ∷ 2 ^ 25 ∷ 2 ^ 20 ∷ []) (omega arith)
            (omega arith) (omega arith))
          z (omega arith) (omega arith)))

  read_five :
      (n : ℕ)
      → n < 2 ^ 40
      → n % 2 ^ 15 ≡ 0
      → read_group base 8 (text n (2 ^ 35 ∷ 2 ^ 30 ∷ 2 ^ 25 ∷ 2 ^ 20 ∷ 2 ^ 15 ∷ [])) 0 0 0 false
        ≡ group_of [] 25 true (n / 1)
  unfolding read_group
  read_five n h z = simp char_value (
      ap (group_of [] 25 true) (
        shifted-zeros 5 n (2 ^ 15) (2 ^ 10 ∷ 2 ^ 5 ∷ 1 ∷ [])
          (join-digits 5 n (2 ^ 40) (2 ^ 35 ∷ 2 ^ 30 ∷ 2 ^ 25 ∷ 2 ^ 20 ∷ 2 ^ 15 ∷ []) (omega arith)
            (omega arith) (omega arith))
          z (omega arith) (omega arith)))

  read_seven :
      (n : ℕ)
      → n < 2 ^ 40
      → n % 2 ^ 5 ≡ 0
      → read_group base 8
          (text n (2 ^ 35 ∷ 2 ^ 30 ∷ 2 ^ 25 ∷ 2 ^ 20 ∷ 2 ^ 15 ∷ 2 ^ 10 ∷ 2 ^ 5 ∷ []))
          0
          0
          0
          false
        ≡ group_of [] 35 true (n / 1)
  unfolding read_group
  read_seven n h z = simp char_value (
      ap (group_of [] 35 true) (
        shifted-zeros 5 n (2 ^ 5) (1 ∷ [])
          (join-digits 5 n (2 ^ 40)
            (2 ^ 35 ∷ 2 ^ 30 ∷ 2 ^ 25 ∷ 2 ^ 20 ∷ 2 ^ 15 ∷ 2 ^ 10 ∷ 2 ^ 5 ∷ []) (omega arith)
            (omega arith) (omega arith))
          z (omega arith) (omega arith)))

  pub round_one :
      (b0 f : ℕ)
      → All IsByte (b0 ∷ [])
      → decode_loop base (suc f) (chunk_chars base (fill_chunk 5 5 (b0 ∷ []) 0 0 0)) false
        ≡ ok (b0 ∷ [])
  unfolding decode_loop chunk_chars fill_chunk
  round_one b0 f h = rw (
    gathered 8 (b0 ∷ []) (0 ∷ 0 ∷ 0 ∷ 0 ∷ []) (omega arith) (omega arith),
    read_two (packed (b0 ∷ []) (0 ∷ 0 ∷ 0 ∷ 0 ∷ [])) (omega arith) (omega arith),
    bytes_one b0 h,
  )

  pub round_two :
      (b0 b1 f : ℕ)
      → All IsByte (b0 ∷ b1 ∷ [])
      → decode_loop base (suc f) (chunk_chars base (fill_chunk 5 5 (b0 ∷ b1 ∷ []) 0 0 0)) false
        ≡ ok (b0 ∷ b1 ∷ [])
  unfolding decode_loop chunk_chars fill_chunk
  round_two b0 b1 f h = rw (
    gathered 8 (b0 ∷ b1 ∷ []) (0 ∷ 0 ∷ 0 ∷ []) (omega arith) (omega arith),
    read_four (packed (b0 ∷ b1 ∷ []) (0 ∷ 0 ∷ 0 ∷ [])) (omega arith) (omega arith),
    bytes_two b0 b1 h,
  )

  pub round_three :
      (b0 b1 b2 f : ℕ)
      → All IsByte (b0 ∷ b1 ∷ b2 ∷ [])
      → decode_loop base (suc f) (chunk_chars base (fill_chunk 5 5 (b0 ∷ b1 ∷ b2 ∷ []) 0 0 0)) false
        ≡ ok (b0 ∷ b1 ∷ b2 ∷ [])
  unfolding decode_loop chunk_chars fill_chunk
  round_three b0 b1 b2 f h = rw (
    gathered 8 (b0 ∷ b1 ∷ b2 ∷ []) (0 ∷ 0 ∷ []) (omega arith) (omega arith),
    read_five (packed (b0 ∷ b1 ∷ b2 ∷ []) (0 ∷ 0 ∷ [])) (omega arith) (omega arith),
    bytes_three b0 b1 b2 h,
  )

  pub round_four :
      (b0 b1 b2 b3 f : ℕ)
      → All IsByte (b0 ∷ b1 ∷ b2 ∷ b3 ∷ [])
      → decode_loop base
          (suc f)
          (chunk_chars base (fill_chunk 5 5 (b0 ∷ b1 ∷ b2 ∷ b3 ∷ []) 0 0 0))
          false
        ≡ ok (b0 ∷ b1 ∷ b2 ∷ b3 ∷ [])
  unfolding decode_loop chunk_chars fill_chunk
  round_four b0 b1 b2 b3 f h = rw (
    gathered 8 (b0 ∷ b1 ∷ b2 ∷ b3 ∷ []) (0 ∷ []) (omega arith) (omega arith),
    read_seven (packed (b0 ∷ b1 ∷ b2 ∷ b3 ∷ []) (0 ∷ [])) (omega arith) (omega arith),
    bytes_four b0 b1 b2 b3 h,
  )

  -- One round of encoding, read back by one round of decoding.
  pub round_five :
      (b0 b1 b2 b3 b4 f : ℕ) (rest more : List ℕ)
      → All IsByte (b0 ∷ b1 ∷ b2 ∷ b3 ∷ b4 ∷ [])
      → decode_loop base
          (suc f)
          (chunk_chars base (fill_chunk 5 5 (b0 ∷ b1 ∷ b2 ∷ b3 ∷ b4 ∷ rest) 0 0 0) ++ more)
          false
        ≡ (decode_loop base f more false >>= λ bytes. ok (b0 ∷ b1 ∷ b2 ∷ b3 ∷ b4 ∷ bytes))
  unfolding decode_loop chunk_chars fill_chunk
  round_five b0 b1 b2 b3 b4 f rest more h = rw (
    gathered 8 (b0 ∷ b1 ∷ b2 ∷ b3 ∷ b4 ∷ []) [] (omega arith) tt,
    read_eight (packed (b0 ∷ b1 ∷ b2 ∷ b3 ∷ b4 ∷ []) ([])) more (omega arith),
    bytes_five b0 b1 b2 b3 b4 h,
  )

  encode_five :
      (b0 b1 b2 b3 b4 f : ℕ) (rest : List ℕ)
      → encode_loop base (suc f) (b0 ∷ b1 ∷ b2 ∷ b3 ∷ b4 ∷ rest)
        ≡ chunk_chars base (fill_chunk 5 5 (b0 ∷ b1 ∷ b2 ∷ b3 ∷ b4 ∷ rest) 0 0 0)
          ++ encode_loop base f rest
  unfolding encode_loop fill_chunk
  encode_five b0 b1 b2 b3 b4 f rest = refl

  length-encode_five :
      (b0 b1 b2 b3 b4 f : ℕ) (rest : List ℕ)
      → length (encode_loop base (suc f) (b0 ∷ b1 ∷ b2 ∷ b3 ∷ b4 ∷ rest))
        ≡ 8 + length (encode_loop base f rest)
  unfolding encode_loop fill_chunk chunk_chars
  length-encode_five b0 b1 b2 b3 b4 f rest = omega arith

  encode_loop-nil : (f : ℕ) → encode_loop base f [] ≡ []
  unfolding encode_loop
  encode_loop-nil zero = refl
  encode_loop-nil (suc f) = refl

  encode_one :
      (b0 f : ℕ)
      → encode_loop base (suc f) (b0 ∷ []) ≡ chunk_chars base (fill_chunk 5 5 (b0 ∷ []) 0 0 0)
  unfolding encode_loop fill_chunk
  encode_one b0 f = rw (encode_loop-nil f) (append-nil _)

  encode_two :
      (b0 b1 f : ℕ)
      → encode_loop base (suc f) (b0 ∷ b1 ∷ [])
        ≡ chunk_chars base (fill_chunk 5 5 (b0 ∷ b1 ∷ []) 0 0 0)
  unfolding encode_loop fill_chunk
  encode_two b0 b1 f = rw (encode_loop-nil f) (append-nil _)

  encode_three :
      (b0 b1 b2 f : ℕ)
      → encode_loop base (suc f) (b0 ∷ b1 ∷ b2 ∷ [])
        ≡ chunk_chars base (fill_chunk 5 5 (b0 ∷ b1 ∷ b2 ∷ []) 0 0 0)
  unfolding encode_loop fill_chunk
  encode_three b0 b1 b2 f = rw (encode_loop-nil f) (append-nil _)

  encode_four :
      (b0 b1 b2 b3 f : ℕ)
      → encode_loop base (suc f) (b0 ∷ b1 ∷ b2 ∷ b3 ∷ [])
        ≡ chunk_chars base (fill_chunk 5 5 (b0 ∷ b1 ∷ b2 ∷ b3 ∷ []) 0 0 0)
  unfolding encode_loop fill_chunk
  encode_four b0 b1 b2 b3 f = rw (encode_loop-nil f) (append-nil _)

  encode_loop-pos : (b f : ℕ) (bytes : List ℕ) → 0 < length (encode_loop base (suc f) (b ∷ bytes))
  unfolding encode_loop fill_chunk chunk_chars
  encode_loop-pos b0 f ([]) = omega arith
  encode_loop-pos b0 f (b1 ∷ []) = omega arith
  encode_loop-pos b0 f (b1 ∷ b2 ∷ []) = omega arith
  encode_loop-pos b0 f (b1 ∷ b2 ∷ b3 ∷ []) = omega arith
  encode_loop-pos b0 f (b1 ∷ b2 ∷ b3 ∷ b4 ∷ rest) = omega arith

  -- Every chunk, and then what is left.
  pub decode_loop-encode_loop :
      (bytes : List ℕ) (f g : ℕ)
      → All IsByte bytes
      → length bytes ≤ f
      → length (encode_loop base f bytes) ≤ g
      → decode_loop base g (encode_loop base f bytes) false ≡ ok bytes
  decode_loop-encode_loop [] f g h hf hg = rw (encode_loop-nil f, decode_loop-nil)
  decode_loop-encode_loop (b0 ∷ bytes) zero g h hf hg = elim hf [ ]
  decode_loop-encode_loop (b0 ∷ bytes) (suc f) zero h hf hg =
      absurd (omega (arith, encode_loop-pos b0 f bytes))
  decode_loop-encode_loop (b0 ∷ []) (suc f) (suc g) h hf hg =
      rw (encode_one b0 f) (round_one b0 g h)
  decode_loop-encode_loop (b0 ∷ b1 ∷ []) (suc f) (suc g) h hf hg =
      rw (encode_two b0 b1 f) (round_two b0 b1 g h)
  decode_loop-encode_loop (b0 ∷ b1 ∷ b2 ∷ []) (suc f) (suc g) h hf hg =
      rw (encode_three b0 b1 b2 f) (round_three b0 b1 b2 g h)
  decode_loop-encode_loop (b0 ∷ b1 ∷ b2 ∷ b3 ∷ []) (suc f) (suc g) h hf hg =
      rw (encode_four b0 b1 b2 b3 f) (round_four b0 b1 b2 b3 g h)
  decode_loop-encode_loop (b0 ∷ b1 ∷ b2 ∷ b3 ∷ b4 ∷ rest) (suc f) (suc g) h hf hg =
      let fuel = length-encode_five b0 b1 b2 b3 b4 f rest in
      rw (
        encode_five b0 b1 b2 b3 b4 f rest,
        round_five b0 b1 b2 b3 b4 g rest (encode_loop base f rest) (omega arith),
        decode_loop-encode_loop rest f g h.1.1.1.1.1 (omega arith) (omega arith),
      )

-- ===== src/Multibase/Total.antt =====
-- The loops of memodb/lib/Multibase.cpp end on every text, and what they return.
use mathlib.Core.Logic.{◌≢◌}
use bcdb.Prelude.{
  ℕ, zero, suc, ◌+◌, ◌-◌, ◌*◌, ◌/◌, ◌%◌, ◌^◌, ◌≤◌, ◌≡◌, inl, inr, Bool, Bool-cases, ◌==◌, bit_and,
  true, false, Option, none, some, List, [], ◌∷◌, length, arith, leb, All, All-append, IsByte,
}
use bcdb.Prelude.Results.{
  Ends, holds, rejected, Ends->>=, Ends-ne_stuck, Ends-if, Ends-weaken, Ends-ok,
}
use bcdb.Prelude.Bits.{bit_and-mask}
use bcdb.Multibase.{
  CharValue, value, invalid_value, pad_value, BitwiseBase, ok, invalid, stuck, values, shl,
  past_end, next_char, use_char, read_group, push_bytes, decode_loop, decode_without_prefix, decode,
  all_bases, find_by_prefix,
}

past_end-Ends : (o : Option ℕ) → Ends (λ r. length r.1 ≤ 0) (past_end o)
unfolding past_end
past_end-Ends none = holds (omega arith)
past_end-Ends (some c) = rejected

next_char-Ends :
    (base : BitwiseBase) (str : List ℕ)
    → Ends (λ r. length r.1 ≤ length str - 1) (next_char base str)
unfolding next_char
next_char-Ends base [] = past_end-Ends base.pad
next_char-Ends base (c ∷ str) = holds {a = (values base c, str)} (omega arith)

use_char-Ends :
    (bits : ℕ) (c : CharValue) (v valid : ℕ) (seen : Bool)
    → Ends (λ r. r.1 ≤ valid + bits) (use_char bits c v valid seen)
unfolding use_char
use_char-Ends bits (value d) v valid true = rejected
use_char-Ends bits (value d) v valid false = holds (omega arith)
use_char-Ends bits invalid_value v valid seen = rejected
use_char-Ends bits pad_value v valid seen = elim (Bool-cases (valid == 0)) [
  | inl e ↦ rw e rejected
  | inr e ↦ rw e (holds (omega arith))
]

-- With `f` rounds to go, the next multiple of 8 bits is at most `f` chars away.
read_group-Ends :
    (base : BitwiseBase) (f : ℕ) (str : List ℕ) (v n valid : ℕ) (seen : Bool)
    → (n + suc f * base.bits_per_char) % 8 ≡ 0
    → Ends (λ g. length g.str ≤ length str - 1) (read_group base (suc f) str v n valid seen)
unfolding read_group
read_group-Ends base zero str v n valid seen h =
    let bits = base.bits_per_char in
    Ends->>= (next_char-Ends base str) λ (c, rest) shorter.
      Ends->>= (use_char-Ends bits c (shl bits v) valid seen)
        λ _ _. Ends-if ((n + bits) % 8 == 0) (λ _. holds shorter) (λ e. absurd (ground arith))
read_group-Ends base (suc f) str v n valid seen h =
    let bits = base.bits_per_char in
    Ends->>= (next_char-Ends base str) λ (c, rest) shorter.
      Ends->>= (use_char-Ends bits c (shl bits v) valid seen) λ (v', valid', seen') _.
        Ends-if ((n + bits) % 8 == 0) (λ _. holds shorter)
          λ _.
            Ends-weaken (λ g less. omega arith)
              (read_group-Ends base f rest v' (n + bits) valid' seen' (omega arith))

-- The rounds left are enough for the bits left.
push_bytes-Ends :
    (f v n valid : ℕ) → valid ≤ f * 8 → Ends (λ p. All IsByte p.0) (push_bytes f v n valid)
unfolding push_bytes
push_bytes-Ends zero v n valid h =
    Ends-if (leb 8 valid) (λ e. absurd (ground arith)) (λ _. holds tt)
push_bytes-Ends (suc f) v n valid h =
    Ends-if (leb 8 valid)
      (λ _.
        Ends->>= (push_bytes-Ends f v (n - 8) (valid - 8) (omega arith))
          λ p all. holds (byte (v / 2 ^ (n - 8)), all))
      (λ _. holds tt)
  where
    byte : (w : ℕ) → IsByte (bit_and w 0xff)
    byte w = omega (arith, bit_and-mask 8 w)

decode_loop-Ends :
    (base : BitwiseBase) (f : ℕ) (str : List ℕ) (seen : Bool)
    → length str ≤ f
    → Ends (All IsByte) (decode_loop base f str seen)
unfolding decode_loop
decode_loop-Ends base f [] seen h = holds tt
decode_loop-Ends base zero (c ∷ str) seen h = elim h [ ]
decode_loop-Ends base (suc f) (c ∷ str) seen h =
    Ends->>= (read_group-Ends base 7 (c ∷ str) 0 0 0 seen (omega arith)) λ g shorter.
      Ends->>= (push_bytes-Ends g.valid_bits g.value g.num_bits g.valid_bits (omega arith))
        λ (pushed, left) all.
          Ends-if (leb base.bits_per_char left) (λ _. rejected)
            λ _.
              Ends->>= (decode_loop-Ends base f g.str g.pad_seen (omega arith))
                λ bytes k. holds (All-append _ _ _ all k)

decode-Ends : (str : List ℕ) → Ends (All IsByte) (decode str)
unfolding decode decode_without_prefix
decode-Ends [] = rejected
decode-Ends (c ∷ str) = found (find_by_prefix c all_bases)
  where
    found :
        (o : Option BitwiseBase)
        → Ends (All IsByte) (elim o [ none ↦ invalid | some base ↦ decode_without_prefix base str ])
    found none = rejected
    found (some base) = decode_loop-Ends base (length str) str false (omega arith)

-- Multibase::decode is not `stuck` on any text: neither the loop over the groups nor those over a
-- group's chars and its bytes run out of the rounds that the model allows.
pub decode-ne_stuck : (str : List ℕ) → decode str ≢ stuck
decode-ne_stuck str = Ends-ne_stuck (decode-Ends str)

pub decode-IsByte : (str : List ℕ) {bytes : List ℕ} → decode str ≡ ok bytes → All IsByte bytes
decode-IsByte str e = Ends-ok (decode-Ends str) e

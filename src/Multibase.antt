-- ===== src/Multibase.antt =====
-- memodb/lib/Multibase.cpp and memodb/include/memodb/Multibase.h: binary data as text.
-- A byte and a char are numbers below 256, a byte vector and a string are lists of them.
-- A `BitwiseBase<bits_per_char>` object is a record; `std::nullopt` is `invalid`.
pub mod Groups
pub mod Base16
pub mod Base32
pub mod Base64
pub mod Base64Pad
pub mod RoundTrip
pub mod Total
use Prim.Native.String.{String}
use text.Mathlib.Text.{◌==◌ as str_eq}
pub use bcdb.Prelude.Results.{Result, ok, invalid, stuck, ◌>>=◌}
use bcdb.Prelude.{
  ℕ, zero, suc, ◌+◌, ◌-◌, ◌*◌, ◌/◌, ◌%◌, ◌^◌, bit_and, bit_or, Bool, true, false, not, Option, none,
  some, List, [], ◌∷◌, ◌++◌, length, get_or, ◌≡◌, refl, ltb, leb, ◌==◌, if◌then◌else◌, codes,
}

-- An entry of the table `values_`: a digit, InvalidValue or PadValue.
pub data CharValue : Type 0 where
  value : ℕ → CharValue
  invalid_value pad_value : CharValue

pub record BitwiseBase : Type 0 where
  pub prefix : ℕ
  pub name : String
  pub bits_per_char : ℕ
  pub chars : List ℕ
  pub pad : Option ℕ

-- values_[c] = v
abbrev set_value : (ℕ → CharValue) → ℕ → CharValue → ℕ → CharValue
set_value table c v d = if d == c then v else table d

fill_values : ℕ → List ℕ → (ℕ → CharValue) → ℕ → CharValue
fill_values i [] table = table
fill_values i (c ∷ cs) table = fill_values (i + 1) cs (set_value table c (value i))

-- The constructor's table: invalid, then the digits, then the padding char.
unfoldable pub values : BitwiseBase → ℕ → CharValue
unfolding fill_values
values base =
    let table = fill_values 0 base.chars (λ _. invalid_value) in
    elim (base.pad) [ none ↦ table | some c ↦ set_value table c pad_value ]

-- `Value <<= w` on a uint64_t.
unfoldable pub shl : ℕ → ℕ → ℕ
shl w v = v * 2 ^ w % 2 ^ 64

-- Past the end padding is pretended, unless the base has a padding char.
unfoldable pub past_end : Option ℕ → Result (CharValue × List ℕ)
past_end none = ok (pad_value, [])
past_end (some c) = invalid

-- The next char's value.
unfoldable pub next_char : BitwiseBase → List ℕ → Result (CharValue × List ℕ)
unfolding past_end
next_char base [] = past_end base.pad
next_char base (c ∷ str) = ok (values base c, str)

-- Value, ValidBits and PadSeen after one char; `v` has been shifted already.
unfoldable pub use_char : ℕ → CharValue → ℕ → ℕ → Bool → Result (ℕ × ℕ × Bool)
use_char bits invalid_value v valid seen = invalid
use_char bits pad_value v valid seen = if valid == 0 then invalid else ok (v, valid, true)
use_char bits (value d) v valid true = invalid
use_char bits (value d) v valid false = ok (bit_or v d, valid + bits, false)

pub record Group : Type 0 where
  pub str : List ℕ
  pub value : ℕ
  pub num_bits : ℕ
  pub valid_bits : ℕ
  pub pad_seen : Bool

-- The do-while loop over NumBits % 8.
unfoldable pub read_group : BitwiseBase → ℕ → List ℕ → ℕ → ℕ → ℕ → Bool → Result Group
unfolding next_char use_char
read_group base zero str v n valid seen = stuck
read_group base (suc f) str v n valid seen = do
  (c, rest) ← next_char base str
  (v', valid', seen') ← use_char base.bits_per_char c (shl base.bits_per_char v) valid seen
  let n' = n + base.bits_per_char
  let more = read_group base f rest v' n' valid' seen'
  if n' % 8 == 0
      then ok
          (record { str = rest; value = v'; num_bits = n'; valid_bits = valid'; pad_seen = seen' })
      else more

-- `while (ValidBits >= 8)`: the bytes pushed, and ValidBits at the end. Each round takes 8 off
-- ValidBits, so that many rounds are enough.
unfoldable pub push_bytes : ℕ → ℕ → ℕ → ℕ → Result (List ℕ × ℕ)
push_bytes zero v n valid = if leb 8 valid then stuck else ok ([], valid)
push_bytes (suc f) v n valid =
    let more = (do
      (bytes, left) ← push_bytes f v (n - 8) (valid - 8)
      ok (bit_and (v / 2 ^ (n - 8)) 0xff ∷ bytes, left)) in
    if leb 8 valid then more else ok ([], valid)

-- `while (!str.empty())`. Eight chars always end a group: 8 * bits_per_char % 8 is 0. PadSeen is
-- declared outside the loop, and so it is passed on from group to group.
unfoldable pub decode_loop : BitwiseBase → ℕ → List ℕ → Bool → Result (List ℕ)
decode_loop base f [] seen = ok []
decode_loop base zero (c ∷ str) seen = stuck
decode_loop base (suc f) (c ∷ str) seen = do
  g ← read_group base 8 (c ∷ str) 0 0 0 seen
  (pushed, left) ← push_bytes g.valid_bits g.value g.num_bits g.valid_bits
  let more = do bytes ← decode_loop base f g.str g.pad_seen; ok (pushed ++ bytes)
  if leb base.bits_per_char left then invalid else more

unfoldable pub decode_without_prefix : BitwiseBase → List ℕ → Result (List ℕ)
unfolding decode_loop read_group push_bytes
decode_without_prefix base str = decode_loop base (length str) str false

-- What the first loop of encodeWithoutPrefix has read: `bytes` is what is left.
pub record Chunk : Type 0 where
  pub bytes : List ℕ
  pub value : ℕ
  pub num_bits : ℕ
  pub valid_bits : ℕ

-- The do-while loop over NumBits % bits_per_char; bits_per_char rounds always end it.
unfoldable pub fill_chunk : ℕ → ℕ → List ℕ → ℕ → ℕ → ℕ → Chunk
fill_chunk bits zero bytes v n valid = record {
  bytes = bytes;
  value = v;
  num_bits = n;
  valid_bits = valid;
}
fill_chunk bits (suc f) [] v n valid =
    let more = fill_chunk bits f [] (shl 8 v) (n + 8) valid in
    if (n + 8) % bits == 0
    then record { bytes = []; value = shl 8 v; num_bits = n + 8; valid_bits = valid }
    else more
fill_chunk bits (suc f) (b ∷ bytes) v n valid =
    let v' = bit_or (shl 8 v) b in
    let more = fill_chunk bits f bytes v' (n + 8) (valid + 8) in
    if (n + 8) % bits == 0
    then record { bytes = bytes; value = v'; num_bits = n + 8; valid_bits = valid + 8 }
    else more

-- `while (ValidBits)`: the chars pushed, and NumBits at the end.
unfoldable pub push_chars : BitwiseBase → ℕ → ℕ → ℕ → ℕ → List ℕ × ℕ
push_chars base zero v n valid = ([], n)
push_chars base (suc f) v n valid =
    let bits = base.bits_per_char in
    let n' = n - bits in
    let (str, left) = push_chars base f v n' (valid - (if ltb bits valid then bits else valid)) in
    if valid == 0
    then ([], n)
    else (get_or base.chars (bit_and (v / 2 ^ n') (2 ^ bits - 1)) 0 ∷ str, left)

-- `while (pad_ && NumBits)`
unfoldable pub push_pads : BitwiseBase → ℕ → ℕ → List ℕ
push_pads base zero n = []
push_pads base (suc f) n =
    let more = push_pads base f (n - base.bits_per_char) in
    elim (base.pad) [ none ↦ [] | some c ↦ if n == 0 then [] else c ∷ more ]

-- The chars of one round of encodeWithoutPrefix.
unfoldable pub chunk_chars : BitwiseBase → Chunk → List ℕ
unfolding push_chars push_pads
chunk_chars base c =
    let pushed = push_chars base c.valid_bits c.value c.num_bits c.valid_bits in
    pushed.0 ++ push_pads base pushed.1 pushed.1

-- `while (!bytes.empty())`: each round takes a byte at least.
unfoldable pub encode_loop : BitwiseBase → ℕ → List ℕ → List ℕ
encode_loop base zero bytes = []
encode_loop base (suc f) [] = []
encode_loop base (suc f) (b ∷ bytes) =
    let c = fill_chunk base.bits_per_char base.bits_per_char (b ∷ bytes) 0 0 0 in
    chunk_chars base c ++ encode_loop base f c.bytes

unfoldable pub encode_without_prefix : BitwiseBase → List ℕ → List ℕ
unfolding encode_loop fill_chunk chunk_chars
encode_without_prefix base bytes = encode_loop base (length bytes) bytes

-- Hexadecimal, with the chars of the lower or the upper case.
abbrev pub hex_base : ℕ → String → List ℕ → BitwiseBase
hex_base c name chars = record {
  prefix = c;
  name = name;
  bits_per_char = 4;
  chars = chars;
  pad = none;
}

abbrev pub base16 : BitwiseBase
base16 = hex_base b'f' "base16" (codes "0123456789abcdef")

abbrev pub base16upper : BitwiseBase
base16upper = hex_base b'F' "base16upper" (codes "0123456789ABCDEF")

abbrev pub base32_of : ℕ → String → List ℕ → BitwiseBase
base32_of c name chars = record {
  prefix = c;
  name = name;
  bits_per_char = 5;
  chars = chars;
  pad = none;
}

abbrev pub base32 : BitwiseBase
base32 = base32_of b'b' "base32" (codes "abcdefghijklmnopqrstuvwxyz234567")

abbrev pub base32upper : BitwiseBase
base32upper = base32_of b'B' "base32upper" (codes "ABCDEFGHIJKLMNOPQRSTUVWXYZ234567")

abbrev pub base64_of : ℕ → String → List ℕ → Option ℕ → BitwiseBase
base64_of c name chars pad = record {
  prefix = c;
  name = name;
  bits_per_char = 6;
  chars = chars;
  pad = pad;
}

abbrev pub standard64 : List ℕ
standard64 = codes "ABCDEFGHIJKLMNOPQRSTUVWXYZabcdefghijklmnopqrstuvwxyz0123456789+/"

abbrev pub url64 : List ℕ
url64 = codes "ABCDEFGHIJKLMNOPQRSTUVWXYZabcdefghijklmnopqrstuvwxyz0123456789-_"

abbrev pub base64 : BitwiseBase
base64 = base64_of b'm' "base64" standard64 none

abbrev pub base64pad : BitwiseBase
base64pad = base64_of b'M' "base64pad" standard64 (some b'=')

abbrev pub base64url : BitwiseBase
base64url = base64_of b'u' "base64url" url64 none

abbrev pub base64urlpad : BitwiseBase
base64urlpad = base64_of b'U' "base64urlpad" url64 (some b'=')

abbrev pub all_bases : List BitwiseBase
all_bases =
    base16 ∷ base16upper ∷ base32 ∷ base32upper ∷ base64 ∷ base64pad ∷ base64url ∷ base64urlpad ∷ []

-- The first base that has the prefix.
unfoldable pub find_by_prefix : ℕ → List BitwiseBase → Option BitwiseBase
find_by_prefix c [] = none
find_by_prefix c (base ∷ bases) = if c == base.prefix then some base else find_by_prefix c bases

-- Multibase::decode
unfoldable pub decode : List ℕ → Result (List ℕ)
unfolding find_by_prefix decode_without_prefix
decode [] = invalid
decode (c ∷ str) = elim (find_by_prefix c all_bases) [
  | none ↦ invalid
  | some base ↦ decode_without_prefix base str
]

-- Multibase::encode
unfoldable pub encode : BitwiseBase → List ℕ → List ℕ
unfolding encode_without_prefix
encode base bytes = base.prefix ∷ encode_without_prefix base bytes

unfoldable pub find_name_in : String → List BitwiseBase → Option BitwiseBase
find_name_in name [] = none
find_name_in name (base ∷ bases) =
    if str_eq name base.name then some base else find_name_in name bases

-- Multibase::findByName
unfoldable pub find_by_name : String → Option BitwiseBase
unfolding find_name_in
find_by_name name = find_name_in name all_bases

-- ===== src/Cid.antt =====
-- memodb/lib/CID.cpp and memodb/include/memodb/CID.h: content identifiers.
-- A Multicodec is the bit pattern of its underlying int, since a cast can give any of them.
-- `std::nullopt` is `none`; an ArrayRef that is advanced is returned beside the result.
pub mod VarInt
pub mod Load
pub mod Text
use Prim.Native.String.{String}
use bcdb.Prelude.{
  ℕ, zero, suc, ◌+◌, ◌-◌, ◌*◌, ◌/◌, ◌%◌, ◌^◌, ◌≤◌, ◌<◌, bit_and, bit_or, ◌≡◌, refl, Bool, true,
  false, ◌&&◌, ◌||◌, Option, none, some, List, [], ◌∷◌, ◌++◌, length, take, drop, ltb, leb, ◌==◌,
  if◌then◌else◌, All, IsByte, ◌>>=?◌ as ◌>>=◌,
}
use bcdb.Multibase
use bcdb.Multibase.{BitwiseBase, base64url}

abbrev pub Multicodec : Type 0
Multicodec = ℕ

abbrev pub cidv1 : Multicodec
cidv1 = 0x01

abbrev pub raw : Multicodec
raw = 0x55

abbrev pub dag_cbor : Multicodec
dag_cbor = 0x71

abbrev pub dag_cbor_unrestricted : Multicodec
dag_cbor_unrestricted = 0x0171

abbrev pub identity : Multicodec
identity = 0x00

abbrev pub blake2b_256 : Multicodec
blake2b_256 = 0xb220

pub record Cid : Type 0 where
  pub content_type : Multicodec
  pub hash_type : Multicodec
  pub hash_size : ℕ
  pub bytes : List ℕ

unfoldable pub is_identity : Cid → Bool
is_identity c = c.hash_type == identity

-- take_back(HashSize)
unfoldable pub get_hash_bytes : Cid → List ℕ
get_hash_bytes c = drop (length c.bytes - c.hash_size) c.bytes

-- `for (; Value >= 0x80; Value >>= 7)`. A uint64_t is below 2 after nine rounds.
unfoldable pub write_var_int_loop : ℕ → ℕ → List ℕ
write_var_int_loop zero v = v % 256 ∷ []
write_var_int_loop (suc f) v =
    let more = write_var_int_loop f (v / 2 ^ 7) in
    if leb 0x80 v then bit_or (bit_and v 0x7f) 0x80 ∷ more else v % 256 ∷ []

unfoldable pub write_var_int : ℕ → List ℕ
write_var_int v = write_var_int_loop 9 v

-- The loop over Shift: the number and the bytes behind it. `size_t` and uint64_t have 64 bits.
unfoldable pub load_var_int_loop : List ℕ → ℕ → ℕ → Option (ℕ × List ℕ)
load_var_int_loop [] shift acc = none
load_var_int_loop (b ∷ bytes) shift acc =
    let acc' = bit_or acc (bit_and b 0x7f * 2 ^ shift % 2 ^ 64) in
    let more = load_var_int_loop bytes (shift + 7) acc' in
    if leb (64 - 7) shift
    then none
    else (if bit_and b 0x80 == 0
        then (if b == 0 && ltb 0 shift then none else some (acc', bytes))
        else more)

unfoldable pub load_var_int : List ℕ → Option (ℕ × List ℕ)
load_var_int bytes = load_var_int_loop bytes 0 0

-- The cast to the enum keeps 32 bits; the cast back extends the sign.
unfoldable pub to_codec : ℕ → Multicodec
to_codec v = v % 2 ^ 32

unfoldable pub from_codec : Multicodec → ℕ
from_codec c = if ltb c (2 ^ 31) then c else 2 ^ 64 - 2 ^ 32 + c

unfoldable pub load_multicodec : List ℕ → Option (Multicodec × List ℕ)
load_multicodec bytes = do
  (v, rest) ← load_var_int bytes
  if from_codec (to_codec v) == v then some (to_codec v, rest) else none

unfoldable pub skip_prefix : List ℕ → List ℕ
skip_prefix [] = []
skip_prefix (b ∷ bytes) = if b == 0 then bytes else b ∷ bytes

-- The checks between the header and the hash.
unfoldable pub is_supported : Multicodec → Multicodec → ℕ → Bool
is_supported content_type hash_type size =
    (content_type == raw || content_type == dag_cbor || content_type == dag_cbor_unrestricted)
    && (hash_type == identity || (hash_type == blake2b_256 && size == 32))

-- CID::loadFromSequence behind the prefix. A failed load of one part makes the result
-- std::nullopt, wherever the loads behind it begin.
unfoldable pub load_parts : List ℕ → Option (Cid × List ℕ)
load_parts orig = do
  (version, after_version) ← load_multicodec orig
  (content_type, after_content) ← load_multicodec after_version
  (hash_type, after_hash) ← load_multicodec after_content
  (size, hash) ← load_var_int after_hash
  let rest = drop size hash
  let result = some (
    record {
      content_type = content_type;
      hash_type = hash_type;
      hash_size = size;
      bytes = take (length orig - length rest) orig;
    },
    rest,
  )
  if version == cidv1 && leb size (length hash) && is_supported content_type hash_type size
      then result
      else none

unfoldable pub load_from_sequence : List ℕ → Option (Cid × List ℕ)
load_from_sequence input = load_parts (skip_prefix input)

unfoldable pub no_more : Cid → List ℕ → Option Cid
no_more c [] = some c
no_more c (b ∷ bytes) = none

unfoldable pub from_bytes : List ℕ → Option Cid
from_bytes bytes = do (c, rest) ← load_from_sequence bytes; no_more c rest

unfoldable pub of_result : Multibase.Result (List ℕ) → Option (List ℕ)
of_result (Multibase.ok bytes) = some bytes
of_result Multibase.invalid = none
of_result Multibase.stuck = none

unfoldable pub parse : List ℕ → Option Cid
parse text = do bytes ← of_result (Multibase.decode text); from_bytes bytes

unfoldable pub as_string : BitwiseBase → Cid → List ℕ
as_string base c = Multibase.encode base c.bytes

-- CID::asString with no argument; `option` is the value of the option cid-base.
unfoldable pub as_string_default : String → Cid → List ℕ
as_string_default option c = elim (Multibase.find_by_name option) [
  | none ↦ as_string base64url c
  | some base ↦ as_string base c
]

-- What the program uses of libsodium: 32 bytes that depend on the content alone.
pub record Blake2b : Type 0 where
  pub digest : List ℕ → List ℕ
  pub length-digest : (content : List ℕ) → length (digest content) ≡ 32
  pub digest-IsByte : (content : List ℕ) → All IsByte (digest content)

-- The bytes of a CID with the given parts.
unfoldable pub cid_of : Multicodec → Multicodec → List ℕ → Cid
cid_of content_type hash_type hash = record {
  content_type = content_type;
  hash_type = hash_type;
  hash_size = length hash;
  bytes =
      write_var_int cidv1
      ++ (write_var_int content_type
          ++ (write_var_int hash_type ++ (write_var_int (length hash) ++ hash)));
}

-- The hash type that is chosen by the size of the content.
unfoldable pub default_hash_type : List ℕ → Multicodec
default_hash_type content = if leb (length content) (32 + 2) then identity else blake2b_256

module _ (lib : Blake2b) where
  unfoldable pub hash_with : Multicodec → List ℕ → Multicodec × List ℕ
  hash_with hash_type content =
      if hash_type == identity
      then (identity, content)
      else (if hash_type == blake2b_256
          then (blake2b_256, lib.digest content)
          else (if default_hash_type content == identity
              then (identity, content)
              else (blake2b_256, lib.digest content)))

  -- CID::calculate, also for a hash type that it does not support, where assertions are off.
  unfoldable pub calculate : Multicodec → List ℕ → Option Multicodec → Cid
  calculate content_type content none =
      let (hash_type, hash) = hash_with (default_hash_type content) content in
      cid_of content_type hash_type hash
  calculate content_type content (some wanted) =
      let (hash_type, hash) = hash_with wanted content in cid_of content_type hash_type hash

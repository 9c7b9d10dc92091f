-- ===== src/Examples.antt =====
-- Runs of memodb/lib/Multibase.cpp, memodb/lib/CID.cpp and memodb/lib/URI.cpp on concrete inputs,
-- and the theorems about them at such inputs.
pub mod Nodes
pub mod Uris
pub mod Servers
pub mod Pages
use bcdb.Prelude.{
  ℕ, zero, suc, ◌<◌, ◌^◌, leb, if◌then◌else◌, ◌≡◌, ◌≢◌, refl, ◌⊎◌, inl, inr, ◌↔◌, none, some, List,
  [], ◌∷◌, ◌++◌, length, All, IsByte, replicate, arith, codes,
}
use bcdb.Multibase
use bcdb.Multibase.{ok, invalid, stuck, base32, base64pad, base64url, all_bases}
use bcdb.Multibase.RoundTrip.{decode-encode}
use bcdb.Multibase.Total.{decode-ne_stuck}
use bcdb.Cid.{
  Cid, raw, dag_cbor, identity, blake2b_256, is_supported, cid_of, write_var_int, load_var_int,
  load_var_int_loop, write_var_int_loop, load_parts, load_multicodec, skip_prefix, from_codec,
  to_codec, load_from_sequence, from_bytes, parse, as_string, as_string_default, Blake2b, calculate,
  get_hash_bytes, is_identity,
}
use bcdb.Prelude.Strings.{contains}
use bcdb.Uri.{path_allowed, percent_encode, percent_decode, hex_value}
use bcdb.Uri.Percent.{percent_decode-percent_encode}
use bcdb.Cid.VarInt.{load-write_var_int, load_var_int-canonical}
use bcdb.Cid.Load.{IsSupported, IsValid, load-cid_of, load_from_sequence-canonical, from_bytes_iff}
use bcdb.Cid.Text.{parse-as_string, parse-as_string_default, calculate-IsValid, calculate_default}

test_encode : Multibase.encode base32 (0x55 ∷ 0xaa ∷ []) ≡ codes "bkwva"
unfolding Multibase.encode Multibase.shl
test_encode = refl

test_decode : Multibase.decode (codes "mVao") ≡ ok (0x55 ∷ 0xaa ∷ [])
unfolding Multibase.decode Multibase.values Multibase.shl
test_decode = refl

-- A char behind the padding, and padding with no char before it.
test_padding :
    (Multibase.decode (codes "MAA==A") ≡ invalid) × (Multibase.decode (codes "M====") ≡ invalid)
unfolding Multibase.decode Multibase.values Multibase.shl
test_padding = (refl, refl)

-- Pad bits that are not zero are accepted.
test_pad_bits : Multibase.decode (codes "MVV==") ≡ Multibase.decode (codes "MVQ==")
unfolding Multibase.decode Multibase.values Multibase.shl
test_pad_bits = refl

decode-encode_example :
    Multibase.decode (Multibase.encode base64pad (0x55 ∷ 0xaa ∷ [])) ≡ ok (0x55 ∷ 0xaa ∷ [])
decode-encode_example = decode-encode (0x55 ∷ 0xaa ∷ []) (omega arith) 5 refl

decode-ne_stuck_example : Multibase.decode (codes "MAA==A") ≢ stuck
decode-ne_stuck_example = decode-ne_stuck (codes "MAA==A")

load-write_var_int_example :
    load_var_int (write_var_int blake2b_256 ++ 7 ∷ []) ≡ some (blake2b_256, 7 ∷ [])
load-write_var_int_example = load-write_var_int blake2b_256 (7 ∷ []) (omega arith)

var_int_loaded : load_var_int (0xa0 ∷ 0xe4 ∷ 2 ∷ 7 ∷ []) ≡ some (0xb220, 7 ∷ [])
unfolding load_var_int load_var_int_loop
var_int_loaded = refl

load_var_int-canonical_example :
    (0xb220 < 2 ^ 63) × (0xa0 ∷ 0xe4 ∷ 2 ∷ 7 ∷ [] ≡ write_var_int 0xb220 ++ 7 ∷ [])
load_var_int-canonical_example =
    load_var_int-canonical (0xa0 ∷ 0xe4 ∷ 2 ∷ 7 ∷ []) (7 ∷ []) (omega arith) var_int_loaded

-- The text "hi" as raw data in an identity CID.
abbrev hi : List ℕ
hi = 0x68 ∷ 0x69 ∷ []

abbrev pub hi_cid : Cid
hi_cid = record {
  content_type = raw;
  hash_type = identity;
  hash_size = 2;
  bytes = 1 ∷ 0x55 ∷ 0 ∷ 2 ∷ 0x68 ∷ 0x69 ∷ [];
}

hi-IsSupported : IsSupported raw identity hi
unfolding is_supported
hi-IsSupported = (refl, omega arith)

hi_cid-eq : hi_cid ≡ cid_of raw identity hi
unfolding cid_of write_var_int write_var_int_loop
hi_cid-eq = refl

pub hi_cid-IsValid : IsValid hi_cid
hi_cid-IsValid = (hi, hi_cid-eq, hi-IsSupported)

load-cid_of_example :
    let c = cid_of raw identity hi in
    (load_from_sequence (c.bytes ++ 7 ∷ []) ≡ some (c, 7 ∷ []))
    × (load_from_sequence (0 ∷ (c.bytes ++ 7 ∷ [])) ≡ some (c, 7 ∷ []))
load-cid_of_example = load-cid_of raw identity hi (7 ∷ []) hi-IsSupported

abbrev hi_input : List ℕ
hi_input = 0 ∷ 1 ∷ 0x55 ∷ 0 ∷ 2 ∷ 0x68 ∷ 0x69 ∷ 7 ∷ []

hi_loaded : load_from_sequence hi_input ≡ some (hi_cid, 7 ∷ [])
unfolding load_from_sequence load_parts load_multicodec load_var_int load_var_int_loop skip_prefix
    from_codec to_codec is_supported
hi_loaded = refl

load_from_sequence-canonical_example :
    IsValid hi_cid
    × ((hi_input ≡ hi_cid.bytes ++ 7 ∷ []) ⊎ (hi_input ≡ 0 ∷ (hi_cid.bytes ++ 7 ∷ [])))
load_from_sequence-canonical_example =
    load_from_sequence-canonical hi_input (7 ∷ []) (omega arith) hi_loaded

from_bytes_iff_example :
    (from_bytes hi_cid.bytes ≡ some hi_cid)
    ↔ (IsValid hi_cid × ((hi_cid.bytes ≡ hi_cid.bytes) ⊎ (hi_cid.bytes ≡ 0 ∷ hi_cid.bytes)))
from_bytes_iff_example = from_bytes_iff hi_cid.bytes hi_cid (omega arith)

parse-as_string_example : parse (as_string base64url hi_cid) ≡ some hi_cid
parse-as_string_example = parse-as_string 6 hi_cid refl hi_cid-IsValid (omega arith)

pub zeros-IsByte : (n : ℕ) → All IsByte (replicate n 0)
zeros-IsByte zero = tt
zeros-IsByte (suc n) = (omega arith, zeros-IsByte n)

-- A digest that does not look at the content.
abbrev pub zero_hash : Blake2b
zero_hash = record {
  digest = λ _. replicate 32 0;
  length-digest = λ _. refl;
  digest-IsByte = λ _. zeros-IsByte 32;
}

abbrev long_content : List ℕ
long_content = replicate 35 0xff

long-IsByte : (n : ℕ) → All IsByte (replicate n 0xff)
long-IsByte zero = tt
long-IsByte (suc n) = (omega arith, long-IsByte n)

calculate-IsValid_example :
    let c = calculate zero_hash dag_cbor long_content none in
    IsValid c × All IsByte c.bytes × (from_bytes c.bytes ≡ some c)
calculate-IsValid_example =
    calculate-IsValid zero_hash dag_cbor long_content none (inr (inl refl)) (long-IsByte 35)
      (omega arith)

calculate_default_example :
    let c = calculate zero_hash raw hi none in
    (is_identity c ≡ leb (length hi) 34)
    × (get_hash_bytes c ≡ (if leb (length hi) 34 then hi else zero_hash.digest hi))
calculate_default_example = calculate_default zero_hash raw hi

parse-as_string_default_example : parse (as_string_default "no such base" hi_cid) ≡ some hi_cid
parse-as_string_default_example =
    parse-as_string_default "no such base" hi_cid hi_cid-IsValid (omega arith)

-- The bytes of "a b%", a space and a percent sign escaped.
percent_decode-percent_encode_example :
    percent_decode (percent_encode path_allowed (codes "a b%")) ≡ some (codes "a b%")
percent_decode-percent_encode_example =
    percent_decode-percent_encode 1 (codes "a b%") refl (omega arith)

test_percent_encode : percent_encode path_allowed (codes "a b%") ≡ codes "a%20b%25"
unfolding percent_encode contains
test_percent_encode = refl

test_percent_decode : percent_decode (codes "%4a%4") ≡ none
unfolding percent_decode hex_value
test_percent_decode = refl

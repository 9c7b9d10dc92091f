-- ===== src/Cid/Text.antt =====
-- CID::calculate, and CIDs as text: memodb/lib/CID.cpp.
use bcdb.Prelude.{
  zero, suc, Bool-cases, [], ◌∷◌, inr, ℕ, zero, suc, ◌-◌, ◌/◌, ◌%◌, ◌<◌, ◌^◌, ◌≡◌, refl, ap, ◌∙◌,
  ◌⊎◌, inl, true, Option, none, some, List, ◌++◌, arith, All, All-append, IsByte, length, ◌==◌,
  get_elem?, leb, if◌then◌else◌, drop, drop-before, append_assoc,
}
use bcdb.Multibase.{BitwiseBase, all_bases, base64url, find_by_name, find_name_in}
use Prim.Native.String.{String}
use text.Mathlib.Text.{◌==◌ as str_eq}
use bcdb.Multibase.RoundTrip.{decode-encode}
use bcdb.Cid.{
  as_string_default, Cid, Multicodec, cidv1, raw, dag_cbor, dag_cbor_unrestricted, identity,
  blake2b_256, cid_of, is_supported, Blake2b, calculate, hash_with, default_hash_type,
  get_hash_bytes, is_identity, from_bytes, parse, as_string, of_result, write_var_int,
  write_var_int_loop,
}
use bcdb.Prelude.Bits.{bit_and-mask, set_top_bit}
use bcdb.Cid.Load.{IsSupported, IsValid, from_bytes_iff}

abbrev pub IsContentType : Multicodec → Type 0
IsContentType c = (c ≡ raw) ⊎ ((c ≡ dag_cbor) ⊎ (c ≡ dag_cbor_unrestricted))

supported-identity :
    (c : Multicodec) (size : ℕ) → IsContentType c → is_supported c identity size ≡ true
unfolding is_supported
supported-identity c size h = ground arith

supported-blake2b : (c : Multicodec) → IsContentType c → is_supported c blake2b_256 32 ≡ true
unfolding is_supported
supported-blake2b c h = ground arith

pub get_hash_bytes-cid_of :
    (c h : Multicodec) (hash : List ℕ) → get_hash_bytes (cid_of c h hash) ≡ hash
unfolding get_hash_bytes cid_of
get_hash_bytes-cid_of c h hash =
    let front =
      write_var_int cidv1
      ++ (write_var_int c ++ (write_var_int h ++ write_var_int (length hash))) in
    let whole : (cid_of c h hash).bytes ≡ front ++ hash = simp append_assoc in
    ap (λ t. drop (length t - length hash) t) whole ∙ drop-before front hash

cid_of-IsValid :
    (c h : Multicodec) (hash : List ℕ) → IsSupported c h hash → IsValid (cid_of c h hash)
unfolding cid_of
cid_of-IsValid c h hash ok = (hash, refl, ok)

write_var_int-IsByte_loop : (f v : ℕ) → All IsByte (write_var_int_loop f v)
unfolding write_var_int_loop
write_var_int-IsByte_loop zero v = omega arith
write_var_int-IsByte_loop (suc f) v =
    ground (arith, write_var_int-IsByte_loop f (v / 2 ^ 7), bit_and-mask 7 v, set_top_bit (v % 128))

write_var_int-IsByte : (v : ℕ) → All IsByte (write_var_int v)
unfolding write_var_int
write_var_int-IsByte v = write_var_int-IsByte_loop 9 v

cid_of-IsByte :
    (c h : Multicodec) (hash : List ℕ) → All IsByte hash → All IsByte (cid_of c h hash).bytes
unfolding cid_of
cid_of-IsByte c h hash k = All-append _ _ _ (write_var_int-IsByte cidv1) (
    All-append _ _ _ (write_var_int-IsByte c) (
      All-append _ _ _ (write_var_int-IsByte h)
        (All-append _ _ _ (write_var_int-IsByte (length hash)) k)))

-- A valid CID is parsed back from its text in each of the eight bases; `i` is the base's place in
-- AllBases, and the CID's bytes are below 256.
pub parse-as_string :
    (i : ℕ) {base : BitwiseBase} (c : Cid)
    → get_elem? all_bases i ≡ some base
    → IsValid c
    → All IsByte c.bytes
    → parse (as_string base c) ≡ some c
unfolding parse as_string of_result
parse-as_string i c e valid h =
    rw (decode-encode c.bytes h i e) ((from_bytes_iff c.bytes c h).1 (valid, inl refl))

found_base :
    (name : String) (bases : List BitwiseBase) {base : BitwiseBase}
    → find_name_in name bases ≡ some base
    → (i : ℕ) × (get_elem? bases i ≡ some base)
unfolding find_name_in
found_base name [] e = absurd (cc)
found_base name (b ∷ bases) e = elim (Bool-cases (str_eq name b.name)) [
  | inl h ↦ (0, rw h at e)
  | inr h ↦ let (i, there) = found_base name bases (rw h at e) in (suc i, there)
]

-- A valid CID is parsed back from its text in the default base, whatever the option cid-base says;
-- the CID's bytes are below 256.
pub parse-as_string_default :
    (option : String) (c : Cid)
    → IsValid c
    → All IsByte c.bytes
    → parse (as_string_default option c) ≡ some c
unfolding as_string_default find_by_name
parse-as_string_default option c valid h = chosen (find_name_in option all_bases) refl
  where
    chosen :
        (o : Option BitwiseBase)
        → find_name_in option all_bases ≡ o
        → parse (elim o [ none ↦ as_string base64url c | some base ↦ as_string base c ]) ≡ some c
    chosen none e = parse-as_string 6 c refl valid h
    chosen (some base) e =
        let (i, there) = found_base option all_bases e in parse-as_string i c there valid h

module _ (lib : Blake2b) (content_type : Multicodec) (content : List ℕ) where
  hash_with-IsSupported :
      IsContentType content_type
      → length content < 2 ^ 63
      → (wanted : Multicodec)
      → let h = hash_with lib wanted content in IsSupported content_type h.0 h.1
  unfolding hash_with default_hash_type
  hash_with-IsSupported ct size wanted = ground (
    arith,
    supported-identity content_type (length content) ct,
    supported-blake2b content_type ct,
    lib.length-digest content,
  )

  hash_with-IsByte :
      All IsByte content → (wanted : Multicodec) → All IsByte (hash_with lib wanted content).1
  unfolding hash_with
  hash_with-IsByte h wanted = ground (arith, h, lib.digest-IsByte content)

  loads :
      (wanted : Multicodec)
      → IsContentType content_type
      → All IsByte content
      → length content < 2 ^ 63
      → let h = hash_with lib wanted content in
        let c = cid_of content_type h.0 h.1 in
        IsValid c × All IsByte c.bytes × (from_bytes c.bytes ≡ some c)
  loads wanted ct h size =
      let (hash_type, hash) = hash_with lib wanted content in
      let valid =
        cid_of-IsValid content_type hash_type hash (hash_with-IsSupported ct size wanted) in
      let small = cid_of-IsByte content_type hash_type hash (hash_with-IsByte h wanted) in
      (valid, small, (from_bytes_iff _ _ small).1 (valid, inl refl))

  -- Whatever hash type is asked for, CID::calculate gives a valid CID made of bytes, which loads
  -- back from its bytes; the content type is one of the three supported ones, the content is made
  -- of bytes, and its length is below 2 ^ 63.
  pub calculate-IsValid :
      (wanted : Option Multicodec)
      → IsContentType content_type
      → All IsByte content
      → length content < 2 ^ 63
      → let c = calculate lib content_type content wanted in
        IsValid c × All IsByte c.bytes × (from_bytes c.bytes ≡ some c)
  unfolding calculate
  calculate-IsValid none ct h size = loads (default_hash_type content) ct h size
  calculate-IsValid (some wanted) ct h size = loads wanted ct h size

  default_parts :
      let h = hash_with lib (default_hash_type content) content in
      (h.0 ≡ (if leb (length content) 34 then identity else blake2b_256))
      × (h.1 ≡ (if leb (length content) 34 then content else lib.digest content))
  unfolding hash_with default_hash_type
  default_parts = (ground arith, ground arith)

  is_identity-cid_of :
      (c h : Multicodec) (hash : List ℕ) → is_identity (cid_of c h hash) ≡ (h == identity)
  unfolding is_identity cid_of
  is_identity-cid_of c h hash = refl

  -- By default content of up to 34 bytes is stored in the CID itself, and longer content is hashed.
  pub calculate_default :
      let c = calculate lib content_type content none in
      (is_identity c ≡ leb (length content) 34)
      × (get_hash_bytes c ≡ (if leb (length content) 34 then content else lib.digest content))
  unfolding calculate
  calculate_default =
      let (hash_type, hash) = hash_with lib (default_hash_type content) content in
      (
        is_identity-cid_of content_type hash_type hash ∙ ground (arith, default_parts),
        get_hash_bytes-cid_of content_type hash_type hash ∙ default_parts.1,
      )

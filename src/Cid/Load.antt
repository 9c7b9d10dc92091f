-- ===== src/Cid/Load.antt =====
-- CID::calculate and CID::loadFromSequence of memodb/lib/CID.cpp.
use bcdb.Prelude.{
  ℕ, ◌-◌, ◌^◌, ◌≤◌, ◌<◌, ◌≡◌, refl, sym, ap, ◌∙◌, ◌⊎◌, inl, inr, true, ◌&&◌, Option, none, some,
  List, [], ◌∷◌, ◌++◌, arith, All, All-append_right, IsByte, ◌==◌, if◌then◌else◌, leb, le→leb,
  take-before, length, length-append, take, drop, drop-append, append_assoc, append-nil, Bool-cases,
  ==_iff, ◌↔◌, >>=?-eq-some, take-append-drop, length-take,
}
use mathlib.Core.Option.{some-injective}
use bcdb.Cid.{
  Cid, Multicodec, cidv1, write_var_int, load_var_int, to_codec, from_codec, load_multicodec,
  skip_prefix, is_supported, load_parts, load_from_sequence, from_bytes, no_more, cid_of,
  write_var_int_loop,
}
use bcdb.Cid.VarInt.{load-write_var_int, load_var_int-canonical}

-- The CIDs that this version supports, by their parts.
abbrev pub IsSupported : Multicodec → Multicodec → List ℕ → Type 0
IsSupported content_type hash_type hash =
    (is_supported content_type hash_type (length hash) ≡ true) × (length hash < 2 ^ 63)

abbrev pub IsValid : Cid → Type 0
IsValid c =
    (hash : List ℕ) × (c ≡ cid_of c.content_type c.hash_type hash)
    × IsSupported c.content_type c.hash_type hash

load_multicodec-write :
    (v : ℕ) (rest : List ℕ)
    → v < 2 ^ 31
    → load_multicodec (write_var_int v ++ rest) ≡ some (v, rest)
unfolding load_multicodec to_codec from_codec
load_multicodec-write v rest h = rw (load-write_var_int v rest (omega arith)) (ground arith)

supported_codecs : (ct ht size : ℕ) → is_supported ct ht size ≡ true → (ct < 2 ^ 31) × (ht < 2 ^ 31)
unfolding is_supported
supported_codecs ct ht size h = ground arith

-- The header, loaded from the front of any input.
module _ (content_type hash_type : Multicodec) (hash rest : List ℕ)
    (ok : IsSupported content_type hash_type hash) where
  abbrev header_end : List ℕ
  header_end = write_var_int (length hash) ++ (hash ++ rest)

  abbrev input : List ℕ
  input =
      write_var_int cidv1 ++ (write_var_int content_type ++ (write_var_int hash_type ++ header_end))

  input-eq : (cid_of content_type hash_type hash).bytes ++ rest ≡ input
  unfolding cid_of
  input-eq = simp append_assoc

  skip_prefix-input : skip_prefix input ≡ input
  unfolding skip_prefix write_var_int write_var_int_loop
  skip_prefix-input = refl

  load-input : load_parts input ≡ some (cid_of content_type hash_type hash, rest)
  unfolding load_parts
  load-input =
      let codecs = supported_codecs content_type hash_type (length hash) ok.0 in
      let enough : length hash ≤ length (hash ++ rest) = omega (arith, length-append hash rest) in
      let before = take-before (cid_of content_type hash_type hash).bytes rest in
      rw
        (
          load_multicodec-write cidv1 _ (omega arith),
          load_multicodec-write content_type _ codecs.0,
          load_multicodec-write hash_type _ codecs.1,
          load-write_var_int (length hash) _ ok.1,
          drop-append hash rest,
          ok.0,
          le→leb _ _ enough,
          ← input-eq,
          before,
        )
        (unfold cid_of in refl)

-- A supported CID is loaded back from its bytes, with or without the multibase prefix 0x00, and
-- what follows it is left.
pub load-cid_of :
    (content_type hash_type : Multicodec) (hash rest : List ℕ)
    → IsSupported content_type hash_type hash
    → let c = cid_of content_type hash_type hash in
      (load_from_sequence (c.bytes ++ rest) ≡ some (c, rest))
      × (load_from_sequence (0 ∷ (c.bytes ++ rest)) ≡ some (c, rest))
unfolding load_from_sequence skip_prefix write_var_int
load-cid_of content_type hash_type hash rest ok =
    let loaded = load-input content_type hash_type hash rest ok in
    let plain = skip_prefix-input content_type hash_type hash rest ok in
    rw (input-eq content_type hash_type hash rest ok) (rw plain loaded, loaded)

-- A number that the cast to Multicodec would change is refused.
codec_kept :
    (u v : ℕ) (rest rest' : List ℕ)
    → u < 2 ^ 63
    → if◌then◌else◌ {A = Option (ℕ × List ℕ)}
        (from_codec (to_codec u) == u)
        (some (to_codec u, rest'))
        none
      ≡ some (v, rest)
    → (u ≡ v) × (rest' ≡ rest)
unfolding to_codec from_codec
codec_kept u v rest rest' h e = ground arith

load_multicodec-canonical :
    (bytes rest : List ℕ) {v : ℕ}
    → All IsByte bytes
    → load_multicodec bytes ≡ some (v, rest)
    → bytes ≡ write_var_int v ++ rest
unfolding load_multicodec
load_multicodec-canonical bytes rest {v} h e =
    let ((u, rest'), loaded, kept) = >>=?-eq-some (load_var_int bytes) _ e in
    let (small, same) = load_var_int-canonical bytes rest' h loaded in
    let (value, left) = codec_kept u v rest rest' small kept in
    same ∙ ap (λ t. write_var_int t ++ rest') value ∙ ap (λ t. write_var_int v ++ t) left

parts_kept :
    (version content_type hash_type size : ℕ) (orig hash rest : List ℕ) {c : Cid}
    → if◌then◌else◌ {A = Option (Cid × List ℕ)}
        (version == cidv1 && leb size (length hash) && is_supported content_type hash_type size)
        (some (
          record {
            content_type = content_type;
            hash_type = hash_type;
            hash_size = size;
            bytes = take (length orig - length (drop size hash)) orig;
          },
          drop size hash,
        ))
        none
      ≡ some (c, rest)
    → (version ≡ cidv1)
      × (size ≤ length hash)
      × (is_supported content_type hash_type size ≡ true)
      × (drop size hash ≡ rest)
      × (c.content_type ≡ content_type)
      × (c.hash_type ≡ hash_type)
      × (c.hash_size ≡ size)
      × (c.bytes ≡ take (length orig - length (drop size hash)) orig)
parts_kept version content_type hash_type size orig hash rest e = ground arith

cid_ext :
    (c : Cid) (hash : List ℕ)
    → c.hash_size ≡ length hash
    → c.bytes ≡ (cid_of c.content_type c.hash_type hash).bytes
    → c ≡ cid_of c.content_type c.hash_type hash
unfolding cid_of
cid_ext c hash e f = λ i. record {
  content_type = c.content_type;
  hash_type = c.hash_type;
  hash_size = e i;
  bytes = f i;
}

assemble :
    (version content_type hash_type size : ℕ) (orig s1 s2 s3 hash rest : List ℕ) {c : Cid}
    → orig ≡ write_var_int version ++ s1
    → s1 ≡ write_var_int content_type ++ s2
    → s2 ≡ write_var_int hash_type ++ s3
    → s3 ≡ write_var_int size ++ hash
    → size < 2 ^ 63
    → (version ≡ cidv1)
      × (size ≤ length hash)
      × (is_supported content_type hash_type size ≡ true)
      × (drop size hash ≡ rest)
      × (c.content_type ≡ content_type)
      × (c.hash_type ≡ hash_type)
      × (c.hash_size ≡ size)
      × (c.bytes ≡ take (length orig - length (drop size hash)) orig)
    → IsValid c × (orig ≡ c.bytes ++ rest)
assemble version content_type hash_type size orig s1 s2 s3 hash rest {c} p1 p2 p3 p4 small
      (v, enough, ok, left, ct, ht, sz, bs) =
    let body : List ℕ = take size hash in
    let count : size ≡ length body = omega (arith, length-take size hash) in
    let supported : IsSupported content_type hash_type body = rw (← count) (ok, small) in
    let parts : hash ≡ body ++ rest =
      sym (take-append-drop size hash) ∙ ap (λ t. take size hash ++ t) left in
    let e3 : s3 ≡ write_var_int (length body) ++ (body ++ rest) =
      p4 ∙ (λ i. write_var_int (count i) ++ parts i) in
    let e2 : s2 ≡ write_var_int hash_type ++ (write_var_int (length body) ++ (body ++ rest)) =
      p3 ∙ ap (λ t. write_var_int hash_type ++ t) e3 in
    let e1 = p2 ∙ ap (λ t. write_var_int content_type ++ t) e2 in
    let e0 : orig ≡ input content_type hash_type body rest supported =
      p1 ∙ (λ i. write_var_int (v i) ++ e1 i) in
    let whole = e0 ∙ sym (input-eq content_type hash_type body rest supported) in
    let bytes : c.bytes ≡ (cid_of content_type hash_type body).bytes =
      bs
      ∙ (λ i. take (length (whole i) - length (left i)) (whole i))
      ∙ take-before (cid_of content_type hash_type body).bytes rest in
    let same = bytes ∙ (λ i. (cid_of (sym ct i) (sym ht i) body).bytes) in
    (
      (body, cid_ext c body (sz ∙ count) same, rw (ct, ht) supported),
      whole ∙ ap (λ t. t ++ rest) (sym bytes),
    )

-- What loadFromSequence accepts behind the prefix, part by part.
load_parts-canonical :
    (orig rest : List ℕ) {c : Cid}
    → All IsByte orig
    → load_parts orig ≡ some (c, rest)
    → IsValid c × (orig ≡ c.bytes ++ rest)
unfolding load_parts
load_parts-canonical orig rest {c} h e =
    let ((version, s1), e1, k1) = >>=?-eq-some (load_multicodec orig) _ e in
    let ((content_type, s2), e2, k2) = >>=?-eq-some (load_multicodec s1) _ k1 in
    let ((hash_type, s3), e3, k3) = >>=?-eq-some (load_multicodec s2) _ k2 in
    let ((size, s4), e4, k4) = >>=?-eq-some (load_var_int s3) _ k3 in
    let p1 = load_multicodec-canonical orig s1 h e1 in
    let h1 : All IsByte s1 = All-append_right _ (write_var_int version) s1 (rw p1 at h) in
    let p2 = load_multicodec-canonical s1 s2 h1 e2 in
    let h2 : All IsByte s2 = All-append_right _ (write_var_int content_type) s2 (rw p2 at h1) in
    let p3 = load_multicodec-canonical s2 s3 h2 e3 in
    let h3 : All IsByte s3 = All-append_right _ (write_var_int hash_type) s3 (rw p3 at h2) in
    let p4 = load_var_int-canonical s3 s4 h3 e4 in
    assemble version content_type hash_type size orig s1 s2 s3 s4 rest p1 p2 p3 p4.1 p4.0
      (parts_kept version content_type hash_type size orig s4 rest k4)

-- Any CID that is loaded is valid, and its bytes are the whole input up to `rest`, but for the
-- multibase prefix.
pub load_from_sequence-canonical :
    (input rest : List ℕ) {c : Cid}
    → All IsByte input
    → load_from_sequence input ≡ some (c, rest)
    → IsValid c × ((input ≡ c.bytes ++ rest) ⊎ (input ≡ 0 ∷ (c.bytes ++ rest)))
unfolding load_from_sequence skip_prefix
load_from_sequence-canonical [] rest h e =
    let (valid, same) = load_parts-canonical [] rest h e in (valid, inl same)
load_from_sequence-canonical (b ∷ bytes) rest {c} h e = elim (Bool-cases (b == 0)) [
  | inl prefix ↦
      let (valid, same) = load_parts-canonical bytes rest h.1 (rw prefix at e) in
      (valid, inr (cc ((==_iff b 0).0 prefix, same)))
  | inr none_there ↦
      let (valid, same) = load_parts-canonical (b ∷ bytes) rest h (rw none_there at e) in
      (valid, inl same)
]

no_more-some : (c d : Cid) (rest : List ℕ) → no_more c rest ≡ some d → (c ≡ d) × (rest ≡ [])
unfolding no_more
no_more-some c d [] e = (some-injective _ _ e, refl)
no_more-some c d (b ∷ rest) e = absurd (cc)

-- The bytes of a valid CID are a CID that fromBytes gives back, also behind the prefix.
pub from_bytes-valid :
    (c : Cid) → IsValid c → (from_bytes c.bytes ≡ some c) × (from_bytes (0 ∷ c.bytes) ≡ some c)
unfolding from_bytes no_more
from_bytes-valid c (hash, e, ok) =
    let (plain, prefixed) = load-cid_of c.content_type c.hash_type hash [] ok in
    let plain' = rw (← e, append-nil) at plain in
    let prefixed' = rw (← e, append-nil) at prefixed in (rw plain', rw prefixed')

from_bytes_sound :
    (bytes : List ℕ) (c : Cid)
    → All IsByte bytes
    → from_bytes bytes ≡ some c
    → IsValid c × ((bytes ≡ c.bytes) ⊎ (bytes ≡ 0 ∷ c.bytes))
unfolding from_bytes
from_bytes_sound bytes c h e =
    let ((d, rest), loaded, kept) = >>=?-eq-some (load_from_sequence bytes) _ e in
    let (same, nothing) = no_more-some d c rest kept in
    let exact : load_from_sequence bytes ≡ some (c, []) =
      loaded ∙ (λ i. some (same i, nothing i)) in
    rw append-nil at (load_from_sequence-canonical bytes [] h exact)

-- fromBytes accepts exactly the bytes of the valid CIDs, with or without the prefix 0x00, and
-- gives the CID whose bytes they are; every element of `bytes` is below 256.
pub from_bytes_iff :
    (bytes : List ℕ) (c : Cid)
    → All IsByte bytes
    → (from_bytes bytes ≡ some c) ↔ (IsValid c × ((bytes ≡ c.bytes) ⊎ (bytes ≡ 0 ∷ c.bytes)))
from_bytes_iff bytes c h = (from_bytes_sound bytes c h, complete)
  where
    complete : IsValid c × ((bytes ≡ c.bytes) ⊎ (bytes ≡ 0 ∷ c.bytes)) → from_bytes bytes ≡ some c
    complete (valid, inl e) = rw e (from_bytes-valid c valid).0
    complete (valid, inr e) = rw e (from_bytes-valid c valid).1

-- ===== src/Cbor/Decode/Items.antt =====
-- The nodes with no members, loaded back from what the encoder writes: memodb/lib/Node.cpp.
use bcdb.Prelude.{
  ℕ, suc, ◌+◌, ◌-◌, ◌^◌, ◌<◌, ◌≡◌, refl, ap, ◌∙◌, Bool, true, false, List, ◌∷◌, ◌++◌, length,
  length-append, take-append_length, drop-append, append_assoc, ltb, ◌==◌, arith,
}
use bcdb.Prelude.Int.{pos, negsuc}
use bcdb.Ieee.{Double, IsDouble, encode_float}
use bcdb.Ieee.RoundTrip.{decode_float-encode_float, encode_float-bounds}
use bcdb.Cid.{Cid}
use bcdb.Cid.Load.{IsValid, from_bytes-valid}
use bcdb.Node.{Node, null, boolean, int64, uint64, float, bytes, string, link, list, map}
use bcdb.Node.Wellformed.{count_nodes, count_entries, Fits, IsText}
use bcdb.Cbor.{head}
use bcdb.Cbor.Encoding.{encode, encode_nodes, encode_entries}
use bcdb.Cbor.Decode.{
  Head, ok, ◌>>=◌, load_head, read_chunk, load_string, cid_node, simple_node, load_scalar,
  load_node,
}
use bcdb.Cbor.Decode.Heads.{minor_of, start-head, start-head_double}

abbrev pub plain : ℕ → ℕ → Head
plain major argument = record {
  major_type = major;
  minor_type = minor_of argument;
  additional = argument;
  indefinite = false;
}

pub load_head-plain :
    (major argument : ℕ) (rest : List ℕ)
    → major < 8
    → (major == 6) ≡ false
    → Fits argument
    → load_head (head major argument 0 ++ rest) ≡ ok (false, plain major argument, rest)
unfolding load_head
load_head-plain major argument rest h k fits = rw (start-head major argument rest h fits, k) refl

pub load_head-double :
    (argument : ℕ) (rest : List ℕ)
    → Fits argument
    → load_head (head 7 argument 27 ++ rest)
      ≡ ok (
        false,
        record { major_type = 7; minor_type = 27; additional = argument; indefinite = false },
        rest,
      )
unfolding load_head
load_head-double argument rest fits = rw (start-head_double argument rest fits) refl

pub load_head-tagged :
    (size : ℕ) (rest : List ℕ)
    → Fits size
    → load_head (head 6 42 0 ++ (head 2 size 0 ++ rest)) ≡ ok (true, plain 2 size, rest)
unfolding load_head
load_head-tagged size rest fits =
    rw
      (
        start-head 6 42 (head 2 size 0 ++ rest) (omega arith) (omega arith),
        start-head 2 size rest (omega arith) fits,
      )
      refl

pub load_string-plain :
    (major : ℕ) (value rest : List ℕ)
    → load_string (plain major (length value)) (value ++ rest) ≡ ok (value, rest)
unfolding load_string read_chunk
load_string-plain major value rest =
    let enough : ltb (length (value ++ rest)) (length value) ≡ false =
      ground (arith, length-append value rest) in
    rw (enough, take-append_length value rest, drop-append value rest) refl

pub length-head : (major argument force : ℕ) → 0 < length (head major argument force)
unfolding head
length-head major argument force = ground arith

pub length-encode : (n : Node) → 0 < length (encode n)
unfolding encode
length-encode null = length-head _ _ _
length-encode (boolean b) = length-head _ _ _
length-encode (int64 (pos n)) = length-head _ _ _
length-encode (int64 (negsuc n)) = length-head _ _ _
length-encode (uint64 n) = length-head _ _ _
length-encode (float d) = length-head _ _ _
length-encode (bytes b) =
    omega (arith, length-head 2 (length b) 0, length-append (head 2 (length b) 0) b)
length-encode (string s) =
    omega (arith, length-head 3 (length s) 0, length-append (head 3 (length s) 0) s)
length-encode (link c) = omega (
  arith,
  length-head 6 42 0,
  length-append (head 6 42 0) (head 2 (length c.bytes + 1) 0 ++ (0 ∷ c.bytes)),
)
length-encode (list ns) = omega (
  arith,
  length-head 4 (count_nodes ns) 0,
  length-append (head 4 (count_nodes ns) 0) (encode_nodes ns),
)
length-encode (map es) = omega (
  arith,
  length-head 5 (count_entries es) 0,
  length-append (head 5 (count_entries es) 0) (encode_entries es),
)

module _ (is_legal_utf8 : List ℕ → Bool) where
  pub load_node-string :
      (f : ℕ) (s rest : List ℕ)
      → IsText is_legal_utf8 s
      → load_node is_legal_utf8 (suc f) ((head 3 (length s) 0 ++ s) ++ rest) ≡ ok (string s, rest)
  unfolding load_node load_scalar
  load_node-string f s rest (fits, legal) =
      rw (append_assoc, load_head-plain 3 (length s) (s ++ rest) (omega arith) refl fits)
        (rw (load_string-plain 3 s rest) (rw legal refl))

  pub load_node-bytes :
      (f : ℕ) (s rest : List ℕ)
      → Fits (length s)
      → load_node is_legal_utf8 (suc f) ((head 2 (length s) 0 ++ s) ++ rest) ≡ ok (bytes s, rest)
  unfolding load_node load_scalar
  load_node-bytes f s rest fits =
      rw (append_assoc, load_head-plain 2 (length s) (s ++ rest) (omega arith) refl fits)
        (rw (load_string-plain 2 s rest) refl)

  pub load_node-number :
      (f n : ℕ) (rest : List ℕ)
      → Fits n
      → load_node is_legal_utf8 (suc f) (head 0 n 0 ++ rest) ≡ ok (uint64 n, rest)
  unfolding load_node load_scalar
  load_node-number f n rest fits = rw (load_head-plain 0 n rest (omega arith) refl fits) refl

  pub load_node-negative :
      (f n : ℕ) (rest : List ℕ)
      → n < 2 ^ 63
      → load_node is_legal_utf8 (suc f) (head 1 n 0 ++ rest) ≡ ok (int64 (negsuc n), rest)
  unfolding load_node load_scalar
  load_node-negative f n rest small =
      let fits : ltb (2 ^ 63 - 1) n ≡ false = ground arith in
      rw (load_head-plain 1 n rest (omega arith) refl (omega arith)) (rw fits refl)

  pub load_node-simple :
      (f argument : ℕ) (rest : List ℕ)
      → argument < 24
      → load_node is_legal_utf8 (suc f) (head 7 argument 0 ++ rest)
        ≡ (simple_node (plain 7 argument) >>= λ n. ok (n, rest))
  unfolding load_node load_scalar
  load_node-simple f argument rest small =
      rw (load_head-plain 7 argument rest (omega arith) refl (omega arith)) refl

  pub load_node-double :
      (f : ℕ) (d : Double) (rest : List ℕ)
      → IsDouble d
      → load_node is_legal_utf8 (suc f) (head 7 (encode_float 64 52 1023 d).0 27 ++ rest)
        ≡ ok (float d, rest)
  unfolding load_node load_scalar simple_node
  load_node-double f d rest h =
      rw (load_head-double _ rest (encode_float-bounds d h))
        (ap (λ t. ok (float t, rest)) (decode_float-encode_float d h))

  pub load_node-link :
      (f : ℕ) (c : Cid) (rest : List ℕ)
      → IsValid c
      → Fits (length c.bytes + 1)
      → load_node is_legal_utf8
          (suc f)
          ((head 6 42 0 ++ (head 2 (length c.bytes + 1) 0 ++ (0 ∷ c.bytes))) ++ rest)
        ≡ ok (link c, rest)
  unfolding load_node load_scalar cid_node
  load_node-link f c rest valid fits =
      let count : length c.bytes + 1 ≡ suc (length c.bytes) = omega arith in
      let content =
        ap (λ t. load_string (plain 2 t) (0 ∷ (c.bytes ++ rest))) count
        ∙ load_string-plain 2 (0 ∷ c.bytes) rest in
      rw
        (
          append_assoc,
          append_assoc,
          load_head-tagged (length c.bytes + 1) (0 ∷ (c.bytes ++ rest)) fits,
        )
        (rw content (rw (from_bytes-valid c valid).0 refl))

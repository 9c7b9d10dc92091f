-- ===== src/Cbor/Decode.antt =====
-- Node::loadFromCBORSequence and Node::loadFromCBOR of memodb/lib/Node.cpp. The ArrayRef `in` that
-- is advanced is returned beside the result. `is_legal_utf8` is LLVM's isLegalUTF8String.
pub mod Heads
pub mod Items
pub mod Members
pub mod RoundTrip
pub mod Total
use bcdb.Prelude.{
  ℕ, zero, suc, ◌+◌, ◌-◌, ◌*◌, ◌/◌, ◌%◌, ◌^◌, bit_and, bit_or, Bool, true, false, ◌&&◌, ◌||◌, not,
  Option, none, some, List, [], ◌∷◌, ◌++◌, length, take, drop, ltb, leb, ◌==◌, if◌then◌else◌,
}
use bcdb.Prelude.Int.{negsuc}
use bcdb.Ieee.{decode_float}
use bcdb.Cid.{from_bytes}
use bcdb.Node.{
  Node, null, boolean, int64, uint64, float, bytes, string, link, list, map, Nodes, no_nodes, node,
  Entries, no_entries,
}
use bcdb.Node.Map.{insert_or_assign}

-- The errors, by their messages.
pub data Error : Type 0 where
  unexpected_end truncated_head invalid_minor_type invalid_indefinite_string : Error
  unsupported_tag invalid_cid_kind integer_too_large missing_string_data : Error
  missing_cid_prefix invalid_cid invalid_utf8 key_not_string unsupported_simple : Error
  extra_bytes identity_with_payload unsupported_content_type : Error

-- `stuck` is no value of the program: the model ran out of fuel.
pub data Expected {ℓ} (A : Type ℓ) : Type ℓ where
  ok : A → Expected A
  failed : Error → Expected A
  stuck : Expected A

infixl 5 ◌>>=◌
abbrev pub ◌>>=◌ {ℓ κ} : {A : Type ℓ} {B : Type κ} → Expected A → (A → Expected B) → Expected B
ok a >>= f = f a
failed e >>= f = failed e
stuck >>= f = stuck

-- What `start` sets.
pub record Head : Type 0 where
  pub major_type : ℕ
  pub minor_type : ℕ
  pub additional : ℕ
  pub indefinite : Bool

-- The loop over num_bytes.
unfoldable pub read_argument : ℕ → ℕ → List ℕ → ℕ
read_argument zero acc in_ = acc
read_argument (suc n) acc [] = acc
read_argument (suc n) acc (b ∷ in_) = read_argument n (bit_or (acc * 2 ^ 8 % 2 ^ 64) b) in_

unfoldable pub start : List ℕ → Expected (Head × List ℕ)
start [] = failed unexpected_end
start (b ∷ in_) =
    let major = b / 2 ^ 5 in
    let minor = bit_and b 0x1f in
    let num_bytes = 2 ^ (minor - 24) in
    if ltb minor 24
    then ok (
      record { major_type = major; minor_type = minor; additional = minor; indefinite = false },
      in_,
    )
    else (if ltb minor 28
        then (if ltb (length in_) num_bytes
            then failed truncated_head
            else ok (
              record {
                major_type = major;
                minor_type = minor;
                additional = read_argument num_bytes 0 in_;
                indefinite = false;
              },
              drop num_bytes in_,
            ))
        else (if minor == 31 && leb 2 major && leb major 5
            then ok (
              record { major_type = major; minor_type = minor; additional = 0; indefinite = true },
              in_,
            )
            else failed invalid_minor_type))

-- What stands before the switch: whether there was a CID tag, and the head behind it.
unfoldable pub load_head : List ℕ → Expected (Bool × Head × List ℕ)
load_head in_ = do
  (h, rest) ← start in_
  let tagged = do
    (h', rest') ← start rest
    if h'.major_type == 2 then ok (true, h', rest') else failed invalid_cid_kind
  if h.major_type == 6
      then (if h.additional == 42 then tagged else failed unsupported_tag)
      else ok (false, h, rest)

-- The data of one string: `additional` bytes.
unfoldable pub read_chunk : ℕ → List ℕ → Expected (List ℕ × List ℕ)
read_chunk additional in_ =
    if ltb (length in_) additional
    then failed missing_string_data
    else ok (take additional in_, drop additional in_)

-- The strings of one of indefinite length, up to the break byte. Each takes a byte at least.
unfoldable pub read_chunks : ℕ → ℕ → List ℕ → Expected (List ℕ × List ℕ)
read_chunks zero major in_ = stuck
read_chunks (suc f) major [] = failed unexpected_end
read_chunks (suc f) major (b ∷ in_) =
    let more = (do
      (h, rest) ← start (b ∷ in_)
      let inner = do
        (chunk, rest') ← read_chunk h.additional rest
        (chunks, rest'') ← read_chunks f major rest'
        ok (chunk ++ chunks, rest'')
      if h.major_type == major && not h.indefinite
          then inner
          else failed invalid_indefinite_string) in
    if b == 0xff then ok ([], in_) else more

unfoldable pub load_string : Head → List ℕ → Expected (List ℕ × List ℕ)
unfolding read_chunks read_chunk
load_string h in_ =
    if h.indefinite
    then read_chunks (suc (length in_)) h.major_type in_
    else read_chunk h.additional in_

unfoldable pub cid_node : List ℕ → Expected Node
cid_node [] = failed missing_cid_prefix
cid_node (b ∷ rest) =
    if b == 0
    then elim (from_bytes rest) [ none ↦ failed invalid_cid | some c ↦ ok (link c) ]
    else failed missing_cid_prefix

unfoldable pub simple_node : Head → Expected Node
simple_node h =
    if h.minor_type == 20
    then ok (boolean false)
    else (if h.minor_type == 21
        then ok (boolean true)
        else (if h.minor_type == 22 || h.minor_type == 23
            then ok null
            else (if h.minor_type == 25
                then ok (float (decode_float h.additional 16 10 15))
                else (if h.minor_type == 26
                    then ok (float (decode_float h.additional 32 23 127))
                    else (if h.minor_type == 27
                        then ok (float (decode_float h.additional 64 52 1023))
                        else failed unsupported_simple)))))

-- next_item: whether there is one more, and then how many are left.
unfoldable pub next_item : Bool → ℕ → List ℕ → Option ℕ × List ℕ
next_item true additional [] = (some additional, [])
next_item true additional (b ∷ in_) = if b == 0xff then (none, in_) else (some additional, b ∷ in_)
next_item false zero in_ = (none, in_)
next_item false (suc additional) in_ = (some additional, in_)

unfoldable pub string_of : Node → Expected (List ℕ)
string_of (string s) = ok s
string_of _ = failed key_not_string

unfoldable pub all_read : Node × List ℕ → Expected Node
all_read (n, []) = ok n
all_read (n, b ∷ rest) = failed extra_bytes

module _ (is_legal_utf8 : List ℕ → Bool) where
  -- The cases of the switch that do not load nodes: all major types but 4 and 5.
  unfoldable pub load_scalar : Bool → Head → List ℕ → Expected (Node × List ℕ)
  load_scalar is_cid h in_ =
      if h.major_type == 0
      then ok (uint64 h.additional, in_)
      else (if h.major_type == 1
          then (if ltb (2 ^ 63 - 1) h.additional
              then failed integer_too_large
              else ok (int64 (negsuc h.additional), in_))
          else (if h.major_type == 2
              then (do
                (result, rest) ← load_string h in_
                n ← if is_cid then cid_node result else ok (bytes result)
                ok (n, rest))
              else (if h.major_type == 3
                  then (do
                    (result, rest) ← load_string h in_
                    if is_legal_utf8 result then ok (string result, rest) else failed invalid_utf8)
                  else (do n ← simple_node h; ok (n, in_)))))

  -- loadFromCBORSequence with the loops of its cases 4 and 5. A level of nesting and a member take
  -- fuel.
  unfoldable mutual
    pub load_node : ℕ → List ℕ → Expected (Node × List ℕ)
    load_node zero in_ = stuck
    load_node (suc f) in_ = do
      (is_cid, h, rest) ← load_head in_
      elim (h.major_type == 4) [
        | true ↦ do (ns, rest') ← load_nodes f h.indefinite h.additional rest; ok (list ns, rest')
        | false ↦ elim (h.major_type == 5) [
          | true ↦ do
            (es, rest') ← load_entries f h.indefinite h.additional no_entries rest
            ok (map es, rest')
          | false ↦ load_scalar is_cid h rest
        ]
      ]

    pub load_nodes : ℕ → Bool → ℕ → List ℕ → Expected (Nodes × List ℕ)
    load_nodes zero indefinite additional in_ = stuck
    load_nodes (suc f) indefinite additional in_ =
        let (next, rest) = next_item indefinite additional in_ in
        elim next [
          | none ↦ ok (no_nodes, rest)
          | some left ↦ do
            (n, rest') ← load_node f rest
            (ns, rest'') ← load_nodes f indefinite left rest'
            ok (node n ns, rest'')
        ]

    pub load_entries : ℕ → Bool → ℕ → Entries → List ℕ → Expected (Entries × List ℕ)
    load_entries zero indefinite additional result in_ = stuck
    load_entries (suc f) indefinite additional result in_ =
        let (next, rest) = next_item indefinite additional in_ in
        elim next [
          | none ↦ ok (result, rest)
          | some left ↦ do
            (k, rest') ← load_node f rest
            name ← string_of k
            (value, rest'') ← load_node f rest'
            load_entries f indefinite left (insert_or_assign name value result).0 rest''
        ]

  -- A level of nesting and a member take a byte each, and so two rounds for a byte are enough.
  unfoldable pub load_from_cbor_sequence : List ℕ → Expected (Node × List ℕ)
  load_from_cbor_sequence in_ = load_node (2 * length in_ + 1) in_

  -- Node::loadFromCBOR
  unfoldable pub load_from_cbor : List ℕ → Expected Node
  load_from_cbor in_ = do r ← load_from_cbor_sequence in_; all_read r

-- ===== src/Cbor/Decode/Total/Parts.antt =====
-- The parts of loadFromCBORSequence in memodb/lib/Node.cpp that load no other node: each ends.
use mathlib.Core.Path.{subst}
use bcdb.Prelude.{
  ℕ, zero, suc, ◌-◌, ◌/◌, ◌^◌, ◌≤◌, ◌<◌, ◌≡◌, ◌≢◌, refl, Bool, true, false, ◌&&◌, ◌||◌, not, Option,
  none, some, List, [], ◌∷◌, length, length-drop, bit_and, ltb, leb, ◌==◌, if◌then◌else◌, arith,
}
use bcdb.Cid.{from_bytes}
use bcdb.Node.{Node, null, boolean, int64, uint64, float, bytes, string, link, list, map}
use bcdb.Node.Wellformed.{IsOrdered}
use bcdb.Cbor.Decode.{
  Expected, Error, ok, failed, stuck, ◌>>=◌, Head, start, load_head, read_chunk, read_chunks,
  load_string, cid_node, simple_node, load_scalar, next_item, string_of,
}

-- A result that is no `stuck`, with a property of its value.
pub data Ends {ℓ κ} {A : Type ℓ} (P : A → Type κ) : Expected A → Type (ℓ ⊔ κ) where
  holds : {a : A} → P a → Ends P (ok a)
  rejected : {e : Error} → Ends P (failed e)

pub Ends->>= {ℓ κ ℓ' κ'} :
    {A : Type ℓ} {B : Type ℓ'} {P : A → Type κ} {Q : B → Type κ'} {r : Expected A}
    {f : A → Expected B}
    → Ends P r
    → ((a : A) → P a → Ends Q (f a))
    → Ends Q (r >>= f)
Ends->>= (holds {a} h) k = k a h
Ends->>= rejected k = rejected

pub Ends-ne_stuck {ℓ κ} : {A : Type ℓ} {P : A → Type κ} {r : Expected A} → Ends P r → r ≢ stuck
Ends-ne_stuck (holds h) = cc
Ends-ne_stuck rejected = cc

pub Ends-if {ℓ κ} :
    {A : Type ℓ} {P : A → Type κ} (b : Bool) {x y : Expected A}
    → (b ≡ true → Ends P x)
    → (b ≡ false → Ends P y)
    → Ends P (if b then x else y)
Ends-if true hx hy = hx refl
Ends-if false hx hy = hy refl

pub Ends-weaken {ℓ κ κ'} :
    {A : Type ℓ} {P : A → Type κ} {Q : A → Type κ'} {r : Expected A}
    → ((a : A) → P a → Q a)
    → Ends P r
    → Ends Q r
Ends-weaken k (holds h) = holds (k _ h)
Ends-weaken k rejected = rejected

pub Ends-elim {ℓ κ} :
    {A : Type ℓ} {P : A → Type κ} (b : Bool) {x y : Expected A}
    → Ends P x
    → Ends P y
    → Ends P (elim b [ true ↦ x | false ↦ y ])
Ends-elim true hx hy = hx
Ends-elim false hx hy = hy

pub Ends-ok {ℓ κ} :
    {A : Type ℓ} {P : A → Type κ} {r : Expected A} {a : A} → Ends P r → r ≡ ok a → P a
Ends-ok {P = P} (holds h) e = subst P (cc) h
Ends-ok rejected e = cc

start-Ends : (in_ : List ℕ) → Ends (λ r. length r.1 < length in_) (start in_)
unfolding start
start-Ends [] = rejected
start-Ends (b ∷ in_) =
    let minor = bit_and b 0x1f in
    Ends-if (ltb minor 24) (λ _. holds (omega arith))
      λ _.
        Ends-if (ltb minor 28)
          (λ _.
            Ends-if (ltb (length in_) (2 ^ (minor - 24))) (λ _. rejected)
              λ _. holds (omega (arith, length-drop (2 ^ (minor - 24)) in_)))
          λ _.
            Ends-if (minor == 31 && leb 2 (b / 2 ^ 5) && leb (b / 2 ^ 5) 5)
              (λ _. holds (omega arith)) λ _. rejected

pub load_head-Ends : (in_ : List ℕ) → Ends (λ r. length r.2 < length in_) (load_head in_)
unfolding load_head
load_head-Ends in_ = Ends->>= (start-Ends in_) λ (h, rest) shorter.
    Ends-if (h.major_type == 6)
      (λ _.
        Ends-if (h.additional == 42)
          (λ _. Ends->>= (start-Ends rest) λ (h', rest') less.
            Ends-if (h'.major_type == 2) (λ _. holds (omega arith)) λ _. rejected)
          λ _. rejected)
      λ _. holds shorter

read_chunk-Ends :
    (additional : ℕ) (in_ : List ℕ)
    → Ends (λ r. length r.1 ≤ length in_) (read_chunk additional in_)
unfolding read_chunk
read_chunk-Ends additional in_ =
    Ends-if (ltb (length in_) additional) (λ _. rejected)
      λ _. holds (omega (arith, length-drop additional in_))

read_chunks-Ends :
    (f major : ℕ) (in_ : List ℕ)
    → length in_ < f
    → Ends (λ r. length r.1 ≤ length in_) (read_chunks f major in_)
unfolding read_chunks
read_chunks-Ends zero major in_ h = absurd (omega arith)
read_chunks-Ends (suc f) major [] h = rejected
read_chunks-Ends (suc f) major (b ∷ in_) h =
    Ends-if (b == 0xff) (λ _. holds (omega arith))
      λ _. Ends->>= (start-Ends (b ∷ in_)) λ (head, rest) shorter.
        Ends-if (head.major_type == major && not head.indefinite)
          (λ _. Ends->>= (read_chunk-Ends head.additional rest) λ (chunk, rest') less.
            Ends->>= (read_chunks-Ends f major rest' (omega arith))
              λ (chunks, rest'') more. holds (omega arith))
          λ _. rejected

load_string-Ends :
    (h : Head) (in_ : List ℕ) → Ends (λ r. length r.1 ≤ length in_) (load_string h in_)
unfolding load_string
load_string-Ends h in_ =
    Ends-if h.indefinite (λ _. read_chunks-Ends (suc (length in_)) h.major_type in_ (omega arith))
      λ _. read_chunk-Ends h.additional in_

cid_node-Ends : (result : List ℕ) → Ends IsOrdered (cid_node result)
unfolding cid_node IsOrdered
cid_node-Ends [] = rejected
cid_node-Ends (b ∷ rest) = Ends-if (b == 0) (λ _. found (from_bytes rest)) λ _. rejected
  where
    found :
        (o : Option _)
        → Ends IsOrdered (elim o [ none ↦ failed Error.invalid_cid | some c ↦ ok (link c) ])
    found none = rejected
    found (some c) = holds tt

simple_node-Ends : (h : Head) → Ends IsOrdered (simple_node h)
unfolding simple_node IsOrdered
simple_node-Ends h =
    Ends-if (h.minor_type == 20) (λ _. holds tt)
      λ _.
        Ends-if (h.minor_type == 21) (λ _. holds tt)
          λ _.
            Ends-if (h.minor_type == 22 || h.minor_type == 23) (λ _. holds tt)
              λ _.
                Ends-if (h.minor_type == 25) (λ _. holds tt)
                  λ _.
                    Ends-if (h.minor_type == 26) (λ _. holds tt)
                      λ _. Ends-if (h.minor_type == 27) (λ _. holds tt) λ _. rejected

pub load_scalar-Ends :
    (is_legal_utf8 : List ℕ → Bool) (is_cid : Bool) (h : Head) (in_ : List ℕ)
    → Ends
        (λ (n, rest). IsOrdered n × (length rest ≤ length in_))
        (load_scalar is_legal_utf8 is_cid h in_)
unfolding load_scalar IsOrdered
load_scalar-Ends is_legal_utf8 is_cid h in_ =
    Ends-if (h.major_type == 0) (λ _. holds (tt, omega arith))
      λ _.
        Ends-if (h.major_type == 1)
          (λ _.
            Ends-if (ltb (2 ^ 63 - 1) h.additional) (λ _. rejected) λ _. holds (tt, omega arith))
          λ _.
            Ends-if (h.major_type == 2)
              (λ _. Ends->>= (load_string-Ends h in_) λ (result, rest) less.
                Ends->>= {P = IsOrdered} (Ends-if is_cid (λ _. cid_node-Ends result) λ _. holds tt)
                  λ n ordered. holds (ordered, less))
              λ _.
                Ends-if (h.major_type == 3)
                  (λ _. Ends->>= (load_string-Ends h in_) λ (result, rest) less.
                    Ends-if (is_legal_utf8 result) (λ _. holds (tt, less)) λ _. rejected)
                  λ _. Ends->>= (simple_node-Ends h) λ n ordered. holds (ordered, omega arith)

pub next_item-length :
    (indefinite : Bool) (additional : ℕ) (in_ : List ℕ)
    → length (next_item indefinite additional in_).1 ≤ length in_
unfolding next_item
next_item-length true additional [] = omega arith
next_item-length true additional (b ∷ in_) = ground arith
next_item-length false zero in_ = omega arith
next_item-length false (suc additional) in_ = omega arith

pub string_of-Ends : (n : Node) → Ends (λ (s : List ℕ). length s ≡ length s) (string_of n)
unfolding string_of
string_of-Ends null = rejected
string_of-Ends (boolean b) = rejected
string_of-Ends (int64 i) = rejected
string_of-Ends (uint64 i) = rejected
string_of-Ends (float d) = rejected
string_of-Ends (bytes b) = rejected
string_of-Ends (string s) = holds refl
string_of-Ends (link c) = rejected
string_of-Ends (list ns) = rejected
string_of-Ends (map es) = rejected

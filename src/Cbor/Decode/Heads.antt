-- ===== src/Cbor/Decode/Heads.antt =====
-- The heads that encodeHead of memodb/lib/CBOREncoder.cpp writes, read by the `start` of
-- memodb/lib/Node.cpp.
use native.Mathlib.Nat.{pow-suc, one-le-pow, div-add-mod, mul-le-mul_left, mul-le-mul_right, mod-lt}
use bcdb.Prelude.{
  ℕ, zero, suc, ◌+◌, ◌-◌, ◌*◌, ◌/◌, ◌%◌, ◌^◌, ◌≤◌, ◌<◌, bit_and, bit_or, ◌≡◌, refl, ap, ◌∙◌, sym,
  false, true, List, ◌∷◌, ◌++◌, length, length-append, drop, drop-append, ltb, if◌then◌else◌, arith,
}
use bcdb.Prelude.Bits.{bit_or-shifted, bit_and-mask, mod-of_parts}
use bcdb.Cbor.{big_endian, initial, chosen, head}
use bcdb.Cbor.Decode.{ok, start, read_argument}

-- The top digit in base 256 and what is below it.
digit_split : (v w : ℕ) → 0 < w → v / w % 256 * w + v % w ≡ v % (w * 256)
digit_split v w h =
    let d = v / w % 256 in
    let p = v / w / 256 in
    let r = v % w in
    let whole : p * (w * 256) + (d * w + r) ≡ v =
      omega (arith, div-add-mod v w, ap (λ (t : ℕ). t * w) (div-add-mod (v / w) 256)) in
    let top : d + 1 ≤ 256 = omega arith in
    let small : d * w + r < w * 256 = omega (arith, mul-le-mul_left w top, mod-lt v h) in
    sym (rw whole at (mod-of_parts p (w * 256) (d * w + r) small))

pow_bytes : (n : ℕ) → 2 ^ (8 * suc n) ≡ 2 ^ (8 * n) * 256
pow_bytes n =
    let m = 8 * n in
    ap (λ (t : ℕ). 2 ^ t) {y = suc (suc (suc (suc (suc (suc (suc (suc m)))))))} (omega arith)
    ∙ omega (
      arith,
      two m,
      two (suc (suc m)),
      two (suc (suc (suc (suc m)))),
      two (suc (suc (suc (suc (suc (suc m)))))),
    )
  where
    two : (m : ℕ) → 2 ^ suc (suc m) ≡ 2 ^ m * 4
    two m = omega (arith, pow-suc 2 m, pow-suc 2 (suc m))

-- Another digit fits where it did before.
digit_room :
    (acc d w : ℕ)
    → 0 < w
    → d < 256
    → (acc + 1) * (w * 256) ≤ 2 ^ 64
    → (acc * 256 < 2 ^ 64) × ((acc * 256 + d + 1) * w ≤ 2 ^ 64)
digit_room acc d w pos h fits =
    let more : acc * 256 + d + 1 ≤ (acc + 1) * 256 = omega arith in
    (omega (arith, mul-le-mul_left ((acc + 1) * 256) pos), omega (arith, mul-le-mul_right w more))

length-big_endian : (n v : ℕ) → length (big_endian n v) ≡ n
unfolding big_endian
length-big_endian zero v = refl
length-big_endian (suc n) v = ap suc (length-big_endian n v)

read_argument-big_endian :
    (n acc v : ℕ) (rest : List ℕ)
    → (acc + 1) * 2 ^ (8 * n) ≤ 2 ^ 64
    → read_argument n acc (big_endian n v ++ rest) ≡ acc * 2 ^ (8 * n) + v % 2 ^ (8 * n)
unfolding read_argument big_endian
read_argument-big_endian zero acc v rest h = omega arith
read_argument-big_endian (suc n) acc v rest h =
    let w = 2 ^ (8 * n) in
    let pos : 0 < w = omega (arith, one-le-pow (8 * n) 2 (omega arith)) in
    let d = v / w % 256 in
    let digit : bit_and (v / w) 0xff ≡ d = bit_and-mask 8 (v / w) in
    let (small, below) = digit_room acc d w pos (omega arith) (rw pow_bytes at h) in
    let kept : acc * 2 ^ 8 % 2 ^ 64 ≡ acc * 2 ^ 8 = omega arith in
    let joined : bit_or (acc * 2 ^ 8 % 2 ^ 64) d ≡ acc * 256 + d =
      ap (λ (t : ℕ). bit_or t d) kept ∙ bit_or-shifted 8 acc d (omega arith) in
    rw (digit, joined, read_argument-big_endian n (acc * 256 + d) v rest below)
      (omega (
        arith,
        digit_split v w pos,
        pow_bytes n,
        ap (λ (t : ℕ). v % t) (pow_bytes n),
        ap (λ (t : ℕ). acc * t) (pow_bytes n),
      ))

-- The additional bits that encodeHead chooses.
abbrev pub minor_of : ℕ → ℕ
minor_of argument =
    if ltb argument 24
    then argument
    else (if ltb argument 0x100
        then 24
        else (if ltb argument 0x10000 then 25 else (if ltb argument 0x100000000 then 26 else 27)))

initial_major :
    (major additional : ℕ) → major < 8 → additional < 32 → initial major additional / 2 ^ 5 ≡ major
unfolding initial
initial_major major additional h k = omega (arith, bit_or-shifted 5 major additional (omega arith))

initial_minor :
    (major additional : ℕ)
    → major < 8
    → additional < 32
    → bit_and (initial major additional) 0x1f ≡ additional
unfolding initial
initial_minor major additional h k = omega (
  arith,
  bit_or-shifted 5 major additional (omega arith),
  bit_and-mask 5 (initial major additional),
)

start_small :
    (major minor : ℕ) (rest : List ℕ)
    → major < 8
    → minor < 24
    → start (initial major minor ∷ rest)
      ≡ ok (
        record { major_type = major; minor_type = minor; additional = minor; indefinite = false },
        rest,
      )
unfolding start
start_small major minor rest h k =
    let small : ltb minor 24 ≡ true = ground arith in
    rw (initial_major major minor h (omega arith), initial_minor major minor h (omega arith), small)
      refl

start_long :
    (major n argument : ℕ) (rest : List ℕ)
    → major < 8
    → n < 4
    → 2 ^ (8 * 2 ^ n) ≤ 2 ^ 64
    → argument < 2 ^ (8 * 2 ^ n)
    → start (initial major (24 + n) ∷ (big_endian (2 ^ n) argument ++ rest))
      ≡ ok (
        record {
          major_type = major;
          minor_type = 24 + n;
          additional = argument;
          indefinite = false;
        },
        rest,
      )
unfolding start
start_long major n argument rest h k wide fits =
    let size = length-big_endian (2 ^ n) argument in
    let enough : ltb (length (big_endian (2 ^ n) argument ++ rest)) (2 ^ n) ≡ false =
      ground (arith, length-append (big_endian (2 ^ n) argument) rest, size) in
    let whole : argument % 2 ^ (8 * 2 ^ n) ≡ argument =
      ap (λ (t : ℕ). t % 2 ^ (8 * 2 ^ n)) (omega arith)
      ∙ mod-of_parts 0 (2 ^ (8 * 2 ^ n)) argument fits in
    let value : read_argument (2 ^ n) 0 (big_endian (2 ^ n) argument ++ rest) ≡ argument =
      read_argument-big_endian (2 ^ n) 0 argument rest (omega arith) ∙ omega (arith, whole) in
    let left : drop (2 ^ n) (big_endian (2 ^ n) argument ++ rest) ≡ rest =
      ap (λ t. drop t (big_endian (2 ^ n) argument ++ rest)) (sym size)
      ∙ drop-append (big_endian (2 ^ n) argument) rest in
    let count : 24 + n - 24 ≡ n = omega arith in
    let high : ltb (24 + n) 24 ≡ false = ground arith in
    let low : ltb (24 + n) 28 ≡ true = ground arith in
    rw
      (
        initial_major major (24 + n) h (omega arith),
        initial_minor major (24 + n) h (omega arith),
        high,
        low,
        count,
        enough,
        value,
        left,
      )
      refl

-- What encodeHead writes with no forced size is read back by `start`, and what follows it is left:
-- the major type is below 8 and the argument below 2 ^ 64.
pub start-head :
    (major argument : ℕ) (rest : List ℕ)
    → major < 8
    → argument < 2 ^ 64
    → start (head major argument 0 ++ rest)
      ≡ ok (
        record {
          major_type = major;
          minor_type = minor_of argument;
          additional = argument;
          indefinite = false;
        },
        rest,
      )
unfolding head chosen
start-head major argument rest h k = ground (
  arith,
  start_small major argument rest h,
  start_long major 0 argument rest h (omega arith) (omega arith),
  start_long major 1 argument rest h (omega arith) (omega arith),
  start_long major 2 argument rest h (omega arith) (omega arith),
  start_long major 3 argument rest h (omega arith) (omega arith),
)

-- A head with eight bytes forced, as for a double.
pub start-head_double :
    (argument : ℕ) (rest : List ℕ)
    → argument < 2 ^ 64
    → start (head 7 argument 27 ++ rest)
      ≡ ok (
        record { major_type = 7; minor_type = 27; additional = argument; indefinite = false },
        rest,
      )
unfolding head chosen
start-head_double argument rest k =
    start_long 7 3 argument rest (omega arith) (omega arith) (omega arith) k

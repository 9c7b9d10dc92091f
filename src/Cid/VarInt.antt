-- ===== src/Cid/VarInt.antt =====
-- writeVarInt and loadVarIntFromSequence of memodb/lib/CID.cpp.
use native.Mathlib.Nat.{div-add-mod, pow-le-pow_right, one-le-pow, pow-suc}
use native.Mathlib.Numerals.{towards_suc}
use bcdb.Prelude.{
  ℕ, zero, suc, ◌+◌, ◌*◌, ◌/◌, ◌%◌, ◌^◌, ◌≤◌, ◌<◌, ◌≡◌, ◌∙◌, ap, bit_or, some, inl, inr, split-le,
  List, [], ◌∷◌, ◌++◌, arith, All, IsByte,
}
use bcdb.Prelude.Bits.{bit_and-mask, bit_or-below, top_bit, set_top_bit}
use bcdb.Cid.{write_var_int_loop, write_var_int, load_var_int_loop, load_var_int}

shift_seven : (s : ℕ) → 2 ^ (s + 7) ≡ 128 * 2 ^ s
shift_seven s = simp towards_suc (omega arith)

-- One group of seven bits, joined above the bits read so far.
join_group :
    (g acc shift : ℕ)
    → acc < 2 ^ shift
    → g * 2 ^ shift < 2 ^ 63
    → bit_or acc (g * 2 ^ shift % 2 ^ 64) ≡ acc + g * 2 ^ shift
join_group g acc shift h k =
    let small : g * 2 ^ shift % 2 ^ 64 ≡ g * 2 ^ shift = omega arith in
    rw small (omega (arith, bit_or-below shift g acc h))

-- One round on a byte with the top bit clear, and on one with it set.
load_last :
    (b acc shift : ℕ) (rest : List ℕ)
    → b < 128
    → shift < 57
    → (0 < shift → 0 < b)
    → acc < 2 ^ shift
    → b * 2 ^ shift < 2 ^ 63
    → load_var_int_loop (b ∷ rest) shift acc ≡ some (acc + b * 2 ^ shift, rest)
unfolding load_var_int_loop
load_last b acc shift rest hb hs pos ha fits =
    ground (arith, bit_and-mask 7 b, top_bit b, join_group b acc shift ha fits)

load_inner :
    (g acc shift : ℕ) (rest : List ℕ)
    → g < 128
    → shift < 57
    → acc < 2 ^ shift
    → g * 2 ^ shift < 2 ^ 63
    → load_var_int_loop ((g + 128) ∷ rest) shift acc
      ≡ load_var_int_loop rest (shift + 7) (acc + g * 2 ^ shift)
unfolding load_var_int_loop
load_inner g acc shift rest hg hs ha fits =
    ground (arith, bit_and-mask 7 (g + 128), top_bit (g + 128), join_group g acc shift ha fits)

write_last : (f v : ℕ) → v < 128 → write_var_int_loop f v ≡ v ∷ []
unfolding write_var_int_loop
write_last zero v h = ground arith
write_last (suc f) v h = ground arith

write_inner :
    (f v : ℕ)
    → 128 ≤ v
    → write_var_int_loop (suc f) v ≡ (v % 128 + 128) ∷ write_var_int_loop f (v / 128)
unfolding write_var_int_loop
write_inner f v h = ground (arith, bit_and-mask 7 v, set_top_bit (v % 128))

-- The lowest group of `v` and the rest, both moved up by `s` bits.
split_at : (v s : ℕ) → v * 2 ^ s ≡ v % 128 * 2 ^ s + v / 128 * 2 ^ (s + 7)
split_at v s = omega (
  arith,
  shift_seven s,
  ap (λ (t : ℕ). t * 2 ^ s) (div-add-mod v 128),
  ap (λ (t : ℕ). v / 128 * t) (shift_seven s),
)

group_bound : (g acc p : ℕ) → g < 128 → acc < p → acc + g * p < 128 * p
group_bound g acc p h k = grind arith

load-write_loop :
    (f v acc shift : ℕ) (rest : List ℕ)
    → shift + 7 * f ≡ 63
    → (0 < shift → 0 < v)
    → acc < 2 ^ shift
    → v * 2 ^ shift < 2 ^ 63
    → load_var_int_loop (write_var_int_loop f v ++ rest) shift acc
      ≡ some (acc + v * 2 ^ shift, rest)
load-write_loop zero v acc shift rest hs pos ha fits =
    let top : v * 2 ^ shift ≡ v * 2 ^ 63 = ap (λ (t : ℕ). v * 2 ^ t) {y = 63} (omega arith) in
    absurd (omega arith)
load-write_loop (suc f) v acc shift rest hs pos ha fits = elim (split-le 128 v) [
  | inl small ↦
      rw (write_last (suc f) v small) (load_last v acc shift rest small (omega arith) pos ha fits)
  | inr large ↦
      let parts = split_at v shift in
      let low : v % 128 < 128 = omega arith in
      let bound : acc + v % 128 * 2 ^ shift < 2 ^ (shift + 7) =
        omega (arith, shift_seven shift, group_bound (v % 128) acc (2 ^ shift) low ha) in
      rw
        (
          write_inner f v large,
          load_inner (v % 128) acc shift (write_var_int_loop f (v / 128) ++ rest) low (omega arith)
              ha (omega arith),
          load-write_loop f (v / 128) (acc + v % 128 * 2 ^ shift) (shift + 7) rest (omega arith)
              (λ _. omega arith) bound (omega arith),
        )
        (ap (λ t. some (t, rest)) (omega arith))
]

-- A number below 2 ^ 63 is read back from what was written, and what follows it is left.
pub load-write_var_int :
    (v : ℕ) (rest : List ℕ) → v < 2 ^ 63 → load_var_int (write_var_int v ++ rest) ≡ some (v, rest)
unfolding load_var_int write_var_int
load-write_var_int v rest h =
    load-write_loop 9 v 0 0 rest (omega arith) (λ p. elim p [ ]) (omega arith) (omega arith)
    ∙ ap (λ t. some (t, rest)) (omega arith)

group_fits : (g shift : ℕ) → g < 128 → shift < 57 → g * 2 ^ shift < 2 ^ 63
group_fits g shift h k =
    let top : 2 ^ shift ≤ 2 ^ 56 = pow-le-pow_right {n = 2} (omega arith) {j = 56} (omega arith) in
    grind arith

load_inner-invert :
    (b acc shift : ℕ) (bytes rest : List ℕ) {v : ℕ}
    → 128 ≤ b
    → b < 256
    → acc < 2 ^ shift
    → load_var_int_loop (b ∷ bytes) shift acc ≡ some (v, rest)
    → (shift < 57)
      × (load_var_int_loop bytes (shift + 7) (acc + b % 128 * 2 ^ shift) ≡ some (v, rest))
unfolding load_var_int_loop
load_inner-invert b acc shift bytes rest large byte ha e =
    let group = λ (h : shift < 57). group_fits (b % 128) shift (omega arith) h in
    elim (split-le 57 shift) [
      | inl h ↦ (
        h,
        ground (arith, bit_and-mask 7 b, top_bit b, join_group (b % 128) acc shift ha (group h)),
      )
      | inr h ↦ absurd (ground arith)
    ]

load_last-invert :
    (b acc shift : ℕ) (bytes rest : List ℕ) {v : ℕ}
    → b < 128
    → acc < 2 ^ shift
    → load_var_int_loop (b ∷ bytes) shift acc ≡ some (v, rest)
    → (shift < 57) × (0 < shift → 0 < b) × (v ≡ acc + b * 2 ^ shift) × (bytes ≡ rest)
unfolding load_var_int_loop
load_last-invert b acc shift bytes rest small ha e = elim (split-le 57 shift) [
  | inl h ↦
      let group = join_group b acc shift ha (group_fits b shift small h) in
      let low = bit_and-mask 7 b in
      let top = top_bit b (omega arith) in
      (h, ground (arith, low, top), ground (arith, low, top, group), ground (arith, low, top))
  | inr h ↦ absurd (ground arith)
]

-- The number whose lowest group is that of `b`, with `u` above it.
write_joined :
    (b u f : ℕ) (rest : List ℕ)
    → 128 ≤ b
    → b < 256
    → 0 < u
    → write_var_int_loop (suc f) (u * 128 + b % 128) ++ rest ≡ b ∷ (write_var_int_loop f u ++ rest)
write_joined b u f rest large byte pos =
    let group : (u * 128 + b % 128) % 128 + 128 ≡ b = omega arith in
    let above : (u * 128 + b % 128) / 128 ≡ u = omega arith in
    rw (write_inner f (u * 128 + b % 128) (omega arith), group, above)

joined_value : (g u acc s : ℕ) → acc + g * 2 ^ s + u * 2 ^ (s + 7) ≡ acc + (u * 128 + g) * 2 ^ s
joined_value g u acc s = omega (arith, ap (λ (t : ℕ). u * t) (shift_seven s))

joined_bound : (g u f : ℕ) → g < 128 → u < 128 ^ f → u * 128 + g < 128 ^ suc f
joined_bound g u f h k = omega (arith, pow-suc 128 f)

-- What a successful load has read is the encoding of the number: there is only one.
load_loop-canonical :
    (bytes rest : List ℕ) (f acc shift : ℕ) {v : ℕ}
    → All IsByte bytes
    → shift + 7 * f ≡ 63
    → acc < 2 ^ shift
    → load_var_int_loop bytes shift acc ≡ some (v, rest)
    → (u : ℕ) × (v ≡ acc + u * 2 ^ shift)
      × (u < 128 ^ f)
      × (0 < shift → 0 < u)
      × (bytes ≡ write_var_int_loop f u ++ rest)
load_loop-canonical [] rest f acc shift hb hs ha e = absurd (unfold load_var_int_loop in cc)
load_loop-canonical (b ∷ bytes) rest zero acc shift hb hs ha e = elim (split-le 128 b) [
  | inl small ↦ absurd (omega (arith, load_last-invert b acc shift bytes rest small ha e))
  | inr large ↦ absurd (omega (arith, load_inner-invert b acc shift bytes rest large hb.0 ha e))
]
load_loop-canonical (b ∷ bytes) rest (suc f) acc shift hb hs ha e = elim (split-le 128 b) [
  | inl small ↦
      let (h, pos, value, same) = load_last-invert b acc shift bytes rest small ha e in
      let fits = joined_bound b 0 f small (one-le-pow f 128 (omega arith)) in
      (b, value, omega arith, pos, rw (write_last (suc f) b small, same))
  | inr large ↦
      let (h, e') = load_inner-invert b acc shift bytes rest large hb.0 ha e in
      let low : b % 128 < 128 = omega arith in
      let bound : acc + b % 128 * 2 ^ shift < 2 ^ (shift + 7) =
        omega (arith, shift_seven shift, group_bound (b % 128) acc (2 ^ shift) low ha) in
      let above =
        load_loop-canonical bytes rest f (acc + b % 128 * 2 ^ shift) (shift + 7) hb.1 (omega arith)
          bound e' in
      let u = above.0 in
      let pos = above.3 (omega arith) in
      (
        u * 128 + b % 128,
        above.1 ∙ joined_value (b % 128) u acc shift,
        joined_bound (b % 128) u f low above.2,
        λ _. omega arith,
        rw (write_joined b u f rest large hb.0 pos) (ap (λ t. b ∷ t) above.4),
      )
]

-- Only what `write_var_int` gives for the number, and a number below 2 ^ 63, is loaded.
pub load_var_int-canonical :
    (bytes rest : List ℕ) {v : ℕ}
    → All IsByte bytes
    → load_var_int bytes ≡ some (v, rest)
    → (v < 2 ^ 63) × (bytes ≡ write_var_int v ++ rest)
unfolding load_var_int write_var_int
load_var_int-canonical bytes rest h e =
    let (u, value, fits, _, same) =
      load_loop-canonical bytes rest 9 0 0 h (omega arith) (omega arith) e in
    let exact = value ∙ omega arith in rw exact (fits, same)

-- ===== src/Name/Chars.antt =====
-- The chars of a CID's text in base64url: memodb/lib/Multibase.cpp.
use bcdb.Cid.{Cid, as_string}
use bcdb.Multibase.{
  base64url, encode, encode_without_prefix, encode_loop, fill_chunk, chunk_chars, push_chars,
  push_pads,
}
use bcdb.Prelude.Bits.{all_below, all_below_sound, bit_and-mask}
use bcdb.Prelude.Strings.{contains}
use bcdb.Prelude.{
  ℕ, zero, suc, ◌-◌, ◌/◌, ◌%◌, ◌^◌, ◌<◌, ◌≡◌, refl, Bool, true, false, ◌&&◌, not, List, [], ◌∷◌,
  get_or, length, All, All-append, IsByte, ltb, ◌==◌, arith, Bool-cases, inl, inr, codes,
}

-- A char of a text that is neither of those that separate the parts of a URI.
abbrev pub is_plain : ℕ → Bool
is_plain c = ltb c 256 && not (contains (codes ":,./") c)

abbrev pub IsPlain : ℕ → Type 0
IsPlain c = is_plain c ≡ true

digit-IsPlain : (k : ℕ) → k < 64 → IsPlain (get_or base64url.chars k 0)
unfolding all_below contains
digit-IsPlain k h = all_below_sound 64 (λ k. is_plain (get_or base64url.chars k 0)) k refl h

push_chars-IsPlain : (fuel v n valid : ℕ) → All IsPlain (push_chars base64url fuel v n valid).0
unfolding push_chars
push_chars-IsPlain zero v n valid = tt
push_chars-IsPlain (suc fuel) v n valid =
    let mask = bit_and-mask 6 (v / 2 ^ (n - 6)) in
    elim (Bool-cases (valid == 0)) [
      | inl z ↦ rw z tt
      | inr z ↦ rw z (
        rw mask (digit-IsPlain (v / 2 ^ (n - 6) % 2 ^ 6) (omega arith)),
        push_chars-IsPlain fuel _ _ _,
      )
    ]

push_pads-IsPlain : (fuel n : ℕ) → All IsPlain (push_pads base64url fuel n)
unfolding push_pads
push_pads-IsPlain zero n = tt
push_pads-IsPlain (suc fuel) n = tt

encode_loop-IsPlain : (fuel : ℕ) (bytes : List ℕ) → All IsPlain (encode_loop base64url fuel bytes)
unfolding encode_loop chunk_chars
encode_loop-IsPlain zero bytes = tt
encode_loop-IsPlain (suc fuel) [] = tt
encode_loop-IsPlain (suc fuel) (b ∷ bytes) =
    let c = fill_chunk 6 6 (b ∷ bytes) 0 0 0 in
    let pushed = push_chars base64url c.valid_bits c.value c.num_bits c.valid_bits in
    All-append IsPlain _ _
      (All-append IsPlain pushed.0 _
        (push_chars-IsPlain c.valid_bits c.value c.num_bits c.valid_bits)
        (push_pads-IsPlain pushed.1 pushed.1))
      (encode_loop-IsPlain fuel c.bytes)

pub as_string-IsPlain : (cid : Cid) → All IsPlain (as_string base64url cid)
unfolding as_string encode encode_without_prefix contains
as_string-IsPlain cid = (refl, encode_loop-IsPlain (length cid.bytes) cid.bytes)

pub plain-IsByte : (str : List ℕ) → All IsPlain str → All IsByte str
plain-IsByte [] h = tt
plain-IsByte (c ∷ str) h = (ground arith, plain-IsByte str h.1)

-- No separator in a plain text.
pub plain-contains :
    (d : ℕ) (str : List ℕ)
    → contains (codes ":,./") d ≡ true
    → All IsPlain str
    → contains str d ≡ false
unfolding contains
plain-contains d [] e h = refl
plain-contains d (c ∷ str) e h = rw (plain-contains d str e h.1) (ground arith)

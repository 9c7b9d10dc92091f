-- ===== src/Http/Accept/Rounds.antt =====
-- The loops of HTTPRequest::getAcceptQuality end: memodb/lib/HTTP.cpp.
use bcdb.Prelude.{
  ℕ, zero, suc, ◌+◌, ◌-◌, ◌≤◌, ◌≢◌, ◌&&◌, not, Option, none, some, List, [], ◌∷◌, length,
  length-drop, drop, ◌==◌, if◌then◌else◌, arith, codes,
}
use bcdb.Prelude.Results.{
  Result, stuck, Ends, holds, rejected, Ends-if, Ends->>=, Ends-weaken, Ends-ne_stuck,
}
use bcdb.Prelude.Strings.{is_empty, starts_with, split_once, split_before}
use bcdb.Node.Map.{key_eq}
use bcdb.Http.{equals_insensitive, ltrim}
use bcdb.Http.Tags.{length-ltrim, length-split_once}
use bcdb.Http.Accept.{rtrim, skip_quoted, read_value, params_loop, accept_loop}
use bcdb.Http.Accept.Qualities.{
  IsLowQuality, read_quality-le, if-le, any_quality-le, if-IsLowQuality,
}

length-split_before : (cs str : List ℕ) → length (split_before cs str).1 ≤ length str
unfolding split_before
length-split_before cs [] = omega arith
length-split_before cs (d ∷ str) = ground (arith, length-split_before cs str)

-- What is left is not longer than the text.
abbrev IsShorter : ℕ → List ℕ × List ℕ → Type 0
IsShorter n (value, rest) = length rest ≤ n

skip_quoted-Ends : (str : List ℕ) → Ends (IsShorter (length str)) (skip_quoted str)
unfolding skip_quoted
skip_quoted-Ends [] = rejected
skip_quoted-Ends (c ∷ []) = Ends-if (c == 0x22) (λ _. holds (omega arith)) (λ _. rejected)
skip_quoted-Ends (c ∷ d ∷ str) =
    Ends-if (c == 0x22) (λ _. holds (omega arith))
      λ _.
        Ends-if (c == 0x5c)
          (λ _. Ends->>= (skip_quoted-Ends str) λ (quoted, rest) h. holds (omega arith))
          (λ _. Ends->>= (skip_quoted-Ends (d ∷ str)) λ (quoted, rest) h. holds (omega arith))

read_value-Ends : (str : List ℕ) → Ends (IsShorter (length str)) (read_value str)
unfolding read_value
read_value-Ends str =
    Ends-if (starts_with str (0x22 ∷ []))
      (λ _.
        Ends->>= (skip_quoted-Ends (drop 1 str))
          λ (quoted, rest) h. holds (omega (arith, length-ltrim rest, length-drop 1 str)))
      (λ _. holds (
        omega (
          arith,
          length-ltrim (split_before (codes ";,") str).1,
          length-split_before (codes ";,") str,
        )))

-- What a round leaves behind the parameter's name.
behind_name : List ℕ → List ℕ × List ℕ
behind_name remainder = split_before (codes ";,=") (ltrim (drop 1 remainder))

length-behind_name : (remainder : List ℕ) → length (behind_name remainder).1 ≤ length remainder - 1
unfolding behind_name
length-behind_name remainder = omega (
  arith,
  length-split_before (codes ";,=") (ltrim (drop 1 remainder)),
  length-ltrim (drop 1 remainder),
  length-drop 1 remainder,
)

-- A quality in the range, and no more text than there was.
abbrev IsRead : ℕ → ℕ → ℕ × List ℕ → Type 0
IsRead m n (q, rest) = (q ≤ m) × (length rest ≤ n)

IsRead-weaken :
    {m n k : ℕ} (r : Result (ℕ × List ℕ)) → n ≤ k → Ends (IsRead m n) r → Ends (IsRead m k) r
IsRead-weaken r h e = Ends-weaken (λ (q, rest) (low, short). (low, omega arith)) e

-- What a round leaves behind the media range.
behind_range : List ℕ → List ℕ
behind_range remainder = (split_before (codes ";,") (split_once b'/' (ltrim remainder)).1).1

length-behind_range : (remainder : List ℕ) → length (behind_range remainder) ≤ length remainder
unfolding behind_range
length-behind_range remainder = omega (
  arith,
  length-split_before (codes ";,") (split_once b'/' (ltrim remainder)).1,
  length-split_once b'/' (ltrim remainder),
  length-ltrim remainder,
)

module _ (m : ℕ) (wide : 9999 ≤ m) where
  params_loop-Ends :
      (fuel q : ℕ) (remainder : List ℕ)
      → length remainder ≤ fuel
      → q ≤ m
      → Ends (IsRead m (length remainder)) (params_loop (suc fuel) q remainder)
  unfolding params_loop behind_name
  params_loop-Ends zero q [] h low = unfold starts_with in holds {a = (q, [])} (low, omega arith)
  params_loop-Ends zero q (c ∷ remainder) h low = absurd (omega arith)
  params_loop-Ends (suc fuel) q remainder h low =
      let (param, after) = behind_name remainder in
      Ends-if (starts_with remainder (codes ";"))
        (λ _.
          Ends-if (starts_with after (codes "="))
            (λ _. Ends->>= (read_value-Ends (drop 1 after)) λ (value, rest) short.
              let fits : length rest ≤ fuel =
                omega (arith, length-drop 1 after, length-behind_name remainder) in
              let q_low =
                if-le m (equals_insensitive (rtrim param) (codes "q")) _ _
                  (read_quality-le m value q wide low) low in
              IsRead-weaken _ (omega (arith, length-drop 1 after, length-behind_name remainder))
                (params_loop-Ends fuel _ rest fits q_low))
            (λ _.
              IsRead-weaken _ (omega (arith, length-behind_name remainder))
                (params_loop-Ends fuel q after (omega (arith, length-behind_name remainder)) low)))
        (λ _. holds {a = (q, remainder)} (low, omega arith))

  pub accept_loop-Ends :
      (wanted_type wanted_subtype : List ℕ) (fuel : ℕ) (any_subtype_q : Option ℕ) (any_type_q : ℕ)
      (remainder : List ℕ)
      → length remainder ≤ fuel
      → IsLowQuality m any_subtype_q
      → any_type_q ≤ m
      → Ends
          (λ q. q ≤ m)
          (accept_loop (suc fuel) wanted_type wanted_subtype any_subtype_q any_type_q remainder)
  unfolding accept_loop behind_range
  accept_loop-Ends wt ws zero sq tq [] h s t = unfold ltrim in holds (any_quality-le m sq tq s t)
  accept_loop-Ends wt ws zero sq tq (c ∷ remainder) h s t = absurd (omega arith)
  accept_loop-Ends wt ws (suc fuel) sq tq remainder h s t =
      let (type_, after) = split_once b'/' (ltrim remainder) in
      let (range, params) = split_before (codes ";,") after in
      let subtype = rtrim range in
      let is_type = equals_insensitive type_ wt in
      let star = key_eq subtype (codes "*") in
      Ends-if (is_empty (ltrim remainder)) (λ _. holds (any_quality-le m sq tq s t))
        λ _.
          Ends->>= (params_loop-Ends (length params) 1000 params (omega arith) (omega arith))
            λ (q, rest) (low, short).
              let sq' = if is_type && star then some q else sq in
              let tq' = if not is_type && key_eq type_ (codes "*") && star then q else tq in
              let s' : IsLowQuality m sq' = if-IsLowQuality m (is_type && star) (some q) sq low s in
              let t' : tq' ≤ m =
                if-le m (not is_type && key_eq type_ (codes "*") && star) q tq low t in
              Ends-if (is_type && equals_insensitive subtype ws) (λ _. holds low)
                λ _.
                  Ends-if (is_empty rest) (λ _. holds (any_quality-le m sq' tq' s' t'))
                    λ _.
                      Ends-if (starts_with rest (codes ","))
                        (λ _.
                          accept_loop-Ends wt ws fuel sq' tq' (drop 1 rest)
                            (omega (arith, length-drop 1 rest, length-behind_range remainder)) s'
                            t')
                        (λ _. rejected)

-- Neither loop of getAcceptQuality is `stuck` when it has a round for each char of what remains and
-- one more, whatever the qualities so far are.
pub loops-ne_stuck :
    (fuel q : ℕ) (wanted_type wanted_subtype : List ℕ) (any_subtype_q : Option ℕ) (any_type_q : ℕ)
    (remainder params : List ℕ)
    → length remainder ≤ fuel
    → length params ≤ fuel
    → (accept_loop (suc fuel) wanted_type wanted_subtype any_subtype_q any_type_q remainder ≢ stuck)
      × (params_loop (suc fuel) q params ≢ stuck)
loops-ne_stuck fuel q wt ws none any_type_q remainder params h k = (
  Ends-ne_stuck (
      accept_loop-Ends (9999 + any_type_q) (omega arith) wt ws fuel none any_type_q remainder h tt
        (omega arith)),
  Ends-ne_stuck (params_loop-Ends (9999 + q) (omega arith) fuel q params k (omega arith)),
)
loops-ne_stuck fuel q wt ws (some p) any_type_q remainder params h k = (
  Ends-ne_stuck (
      accept_loop-Ends (9999 + any_type_q + p) (omega arith) wt ws fuel (some p) any_type_q
        remainder h (omega arith) (omega arith)),
  Ends-ne_stuck (params_loop-Ends (9999 + q) (omega arith) fuel q params k (omega arith)),
)

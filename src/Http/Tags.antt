-- ===== src/Http/Tags.antt =====
-- The entity tags of a conditional request: HTTPRequest::hasIfNoneMatch in memodb/lib/HTTP.cpp.
use bcdb.Prelude.{
  Option, none, ◌≢◌, ℕ, zero, suc, ◌≤◌, ◌≡◌, refl, ap, ◌∙◌, sym, Bool, true, false, ◌&&◌, some,
  List, [], ◌∷◌, ◌++◌, append-nil, append_assoc, length, length-append, length-drop, drop, All,
  if◌then◌else◌, arith, Bool-cases, inl, inr, codes,
}
use bcdb.Prelude.Results.{Result, ok, stuck, Ends, holds, Ends-if, Ends-ne_stuck}
use bcdb.Prelude.Strings.{contains, starts_with, split_once, split_once-found}
use bcdb.Node.Map.{key_eq}
use bcdb.Uri.Authority.{contains-append_found}
use bcdb.Http.{ltrim, skip_weak, none_match_loop, has_if_none_match}

-- A tag as it stands in a header, weak or not.
abbrev pub tag_text : Bool × List ℕ → List ℕ
tag_text (true, tag) = codes "W/" ++ (0x22 ∷ (tag ++ (0x22 ∷ [])))
tag_text (false, tag) = 0x22 ∷ (tag ++ (0x22 ∷ []))

-- The header with these tags.
unfoldable pub tags_header : List (Bool × List ℕ) → List ℕ
tags_header [] = []
tags_header (tag ∷ []) = tag_text tag
tags_header (tag ∷ next ∷ tags) = tag_text tag ++ (codes ", " ++ tags_header (next ∷ tags))

-- Whether a tag is one of them.
unfoldable pub has_tag : List ℕ → List (Bool × List ℕ) → Bool
has_tag etag [] = false
has_tag etag (tag ∷ tags) =
    let later = has_tag etag tags in if key_eq tag.1 etag then true else later

-- A tag holds no quote.
abbrev pub IsTag : Bool × List ℕ → Type 0
IsTag tag = contains tag.1 0x22 ≡ false

-- What follows a tag.
after_tag : List ℕ → ℕ → List ℕ → Result Bool
after_tag etag fuel rest =
    if starts_with (ltrim rest) (codes ",")
    then none_match_loop fuel etag (drop 1 (ltrim rest))
    else ok false

loop_tag :
    (fuel : ℕ) (etag : List ℕ) (tag : Bool × List ℕ) (rest : List ℕ)
    → IsTag tag
    → none_match_loop (suc fuel) etag (tag_text tag ++ rest)
      ≡ (if key_eq tag.1 etag then ok true else after_tag etag fuel rest)
unfolding none_match_loop ltrim starts_with after_tag
loop_tag fuel etag (weak, tag) rest h =
    let whole = append_assoc tag (0x22 ∷ []) rest in
    let closed = contains-append_found tag rest 0x22 in
    let split = split_once-found 0x22 tag rest h in text weak whole closed split
  where
    text :
        (weak : Bool)
        → ((tag ++ (0x22 ∷ [])) ++ rest ≡ tag ++ (0x22 ∷ rest))
        → contains (tag ++ (0x22 ∷ rest)) 0x22 ≡ true
        → split_once 0x22 (tag ++ (0x22 ∷ rest)) ≡ (tag, rest)
        → none_match_loop (suc fuel) etag (tag_text (weak, tag) ++ rest)
          ≡ (if key_eq tag etag then ok true else after_tag etag fuel rest)
    text true whole closed split = rw (whole, closed, split) refl
    text false whole closed split = rw (whole, closed, split) refl

loop_nil : (fuel : ℕ) (etag : List ℕ) → none_match_loop (suc fuel) etag [] ≡ ok false
unfolding none_match_loop ltrim starts_with
loop_nil fuel etag = refl

loop_space :
    (fuel : ℕ) (etag str : List ℕ)
    → none_match_loop fuel etag (0x20 ∷ str) ≡ none_match_loop fuel etag str
unfolding none_match_loop ltrim
loop_space zero etag str = refl
loop_space (suc fuel) etag str = refl

after_comma :
    (etag : List ℕ) (fuel : ℕ) (str : List ℕ)
    → after_tag etag fuel (codes ", " ++ str) ≡ none_match_loop fuel etag str
unfolding after_tag ltrim starts_with
after_comma etag fuel str = loop_space fuel etag str

tag_or :
    (b : Bool) (r : Result Bool) (c : Bool)
    → r ≡ ok c
    → (if b then ok true else r) ≡ ok (if b then true else c)
tag_or true r c h = refl
tag_or false r c h = h

loop_tags :
    (fuel : ℕ) (etag : List ℕ) (tags : List (Bool × List ℕ))
    → length tags ≤ fuel
    → All IsTag tags
    → none_match_loop (suc fuel) etag (tags_header tags) ≡ ok (has_tag etag tags)
unfolding tags_header has_tag
loop_tags fuel etag [] h k = loop_nil fuel etag
loop_tags zero etag (tag ∷ tags) h k = absurd (omega arith)
loop_tags (suc fuel) etag (tag ∷ []) h k =
    ap (none_match_loop (suc (suc fuel)) etag) (sym (append-nil (tag_text tag)))
    ∙ loop_tag (suc fuel) etag tag [] k.0
    ∙ tag_or (key_eq tag.1 etag) _ false (unfold after_tag ltrim starts_with in refl)
loop_tags (suc fuel) etag (tag ∷ next ∷ tags) h k =
    loop_tag (suc fuel) etag tag (codes ", " ++ tags_header (next ∷ tags)) k.0
    ∙ tag_or (key_eq tag.1 etag) _ (has_tag etag (next ∷ tags)) (
        after_comma etag (suc fuel) (tags_header (next ∷ tags))
        ∙ loop_tags fuel etag (next ∷ tags) (omega arith) k.1)

length-tag_text : (tag : Bool × List ℕ) → 1 ≤ length (tag_text tag)
length-tag_text (true, tag) = omega arith
length-tag_text (false, tag) = omega arith

length-tags_header : (tags : List (Bool × List ℕ)) → length tags ≤ length (tags_header tags)
unfolding tags_header
length-tags_header [] = omega arith
length-tags_header (tag ∷ []) = omega (arith, length-tag_text tag)
length-tags_header (tag ∷ next ∷ tags) = omega (
  arith,
  length-tag_text tag,
  length-append (tag_text tag) (codes ", " ++ tags_header (next ∷ tags)),
  length-tags_header (next ∷ tags),
)

-- A header with a list of tags, each weak or not and behind a comma and a space, matches exactly
-- the etags that are among them. A tag holds no quote.
pub has_if_none_match-tags_header :
    (tags : List (Bool × List ℕ)) (etag : List ℕ)
    → All IsTag tags
    → has_if_none_match (some (tags_header tags)) etag ≡ ok (has_tag etag tags)
unfolding has_if_none_match
has_if_none_match-tags_header tags etag h =
    loop_tags (length (tags_header tags)) etag tags (length-tags_header tags) h

pub length-ltrim : (str : List ℕ) → length (ltrim str) ≤ length str
unfolding ltrim
length-ltrim [] = omega arith
length-ltrim (c ∷ str) = ground (arith, length-ltrim str)

pub length-split_once : (c : ℕ) (str : List ℕ) → length (split_once c str).1 ≤ length str
unfolding split_once
length-split_once c [] = omega arith
length-split_once c (d ∷ str) = ground (arith, length-split_once c str)

length-skip_weak : (str : List ℕ) → length (skip_weak str) ≤ length str
length-skip_weak str = elim (Bool-cases (starts_with str (codes "W/"))) [
  | inl e ↦ rw e (omega (arith, length-drop 2 str))
  | inr e ↦ rw e (omega arith)
]

-- What a round leaves of the header.
next_remainder : List ℕ → List ℕ
next_remainder remainder = drop 1 (ltrim (split_once 0x22 (drop 1 (skip_weak (ltrim remainder)))).1)

length-next_remainder :
    (remainder : List ℕ) (fuel : ℕ)
    → length remainder ≤ suc fuel
    → length (next_remainder remainder) ≤ fuel
unfolding next_remainder
length-next_remainder remainder fuel h =
    let opened = skip_weak (ltrim remainder) in
    let after = (split_once 0x22 (drop 1 opened)).1 in
    omega (
      arith,
      length-ltrim remainder,
      length-skip_weak (ltrim remainder),
      length-drop 1 opened,
      length-split_once 0x22 (drop 1 opened),
      length-ltrim after,
      length-drop 1 (ltrim after),
    )

abbrev AnyBool : Bool → Type 0
AnyBool b = Unit

none_match_loop-Ends :
    (fuel : ℕ) (etag remainder : List ℕ)
    → length remainder ≤ fuel
    → Ends AnyBool (none_match_loop (suc fuel) etag remainder)
unfolding none_match_loop next_remainder
none_match_loop-Ends zero etag [] h = unfold ltrim starts_with in holds tt
none_match_loop-Ends zero etag (c ∷ remainder) h = absurd (omega arith)
none_match_loop-Ends (suc fuel) etag remainder h =
    let opened = skip_weak (ltrim remainder) in
    let (wanted, after) = split_once 0x22 (drop 1 opened) in
    Ends-if (starts_with (ltrim remainder) (codes "*")) (λ _. holds tt)
      λ _.
        Ends-if (starts_with opened (0x22 ∷ []) && contains (drop 1 opened) 0x22)
          (λ quoted.
            Ends-if (key_eq wanted etag) (λ _. holds tt)
              λ _.
                Ends-if (starts_with (ltrim after) (codes ","))
                  (λ _.
                    none_match_loop-Ends fuel etag (next_remainder remainder)
                      (length-next_remainder remainder fuel h))
                  (λ _. holds tt))
          (λ _. holds tt)

-- Whatever the header If-None-Match is, hasIfNoneMatch is not `stuck`: its loop does not run out
-- of as many rounds as the header has chars and one more.
pub has_if_none_match-ne_stuck :
    (if_none_match : Option (List ℕ)) (etag : List ℕ) → has_if_none_match if_none_match etag ≢ stuck
unfolding has_if_none_match
has_if_none_match-ne_stuck none etag = cc
has_if_none_match-ne_stuck (some header) etag =
    Ends-ne_stuck (none_match_loop-Ends (length header) etag header (omega arith))

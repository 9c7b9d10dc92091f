-- ===== src/Http/Pages.antt =====
-- Text in a page and the content type of a node: memodb/lib/Request.cpp and memodb/lib/HTTP.cpp.
use bcdb.Prelude.{
  ℕ, ◌≤◌, ◌≡◌, refl, Bool, true, false, ◌&&◌, List, [], ◌∷◌, ◌==◌, ltb, leb, arith, Bool-cases, inl,
  inr,
}
use bcdb.Prelude.Strings.{contains}
use bcdb.Node.{Node}
use bcdb.Http.{
  escape_for_html, ContentType, octet_stream, json, cbor, html, problem_json, is_bytes,
  choose_node_content_type,
}

-- An escaped text has no less-than sign and no double quote. Nothing is said of other chars,
-- such as the greater-than sign, the single quote and the ampersand.
pub escape_for_html-contains :
    (str : List ℕ)
    → (contains (escape_for_html str) b'<' ≡ false) × (contains (escape_for_html str) 0x22 ≡ false)
unfolding escape_for_html contains
escape_for_html-contains [] = (refl, refl)
escape_for_html-contains (c ∷ str) =
    let (less, quote) = escape_for_html-contains str in
    elim (Bool-cases (c == b'<')) [
      | inl e ↦ rw e (less, quote)
      | inr e ↦ elim (Bool-cases (c == 0x22)) [
        | inl f ↦ rw (e, f) (less, quote)
        | inr f ↦ rw (e, f) (ground arith, ground arith)
      ]
    ]

-- A content type that a node may be sent in: only bytes are sent as an octet stream.
abbrev pub is_possible : Node → ContentType → Bool
is_possible node octet_stream = is_bytes node
is_possible node problem_json = false
is_possible node other = true

module _ (quality : ContentType → ℕ) (node : Node) where
  octet_stream_best : Bool
  octet_stream_best =
      is_bytes node
      && ltb (quality json) (quality octet_stream)
      && leb (quality cbor) (quality octet_stream)
      && leb (quality html) (quality octet_stream)

  html_best : Bool
  html_best = ltb (quality cbor) (quality html) && ltb (quality json) (quality html)

  -- Each branch of the choice, with the tests that lead to it.
  choose_cases :
      (P : ContentType → Type 0)
      → (octet_stream_best ≡ true → P octet_stream)
      → (octet_stream_best ≡ false → html_best ≡ true → P html)
      → (octet_stream_best ≡ false
          → html_best ≡ false
          → ltb (quality json) (quality cbor) ≡ true
          → P cbor)
      → (octet_stream_best ≡ false
          → html_best ≡ false
          → ltb (quality json) (quality cbor) ≡ false
          → P json)
      → P (choose_node_content_type quality node)
  unfolding choose_node_content_type octet_stream_best html_best
  choose_cases P o h c j = elim (Bool-cases octet_stream_best) [
    | inl e ↦ rw e (o e)
    | inr e ↦ elim (Bool-cases html_best) [
      | inl f ↦ rw (e, f) (h e f)
      | inr f ↦ elim (Bool-cases (ltb (quality json) (quality cbor))) [
        | inl g ↦ rw (e, f, g) (c e f g)
        | inr g ↦ rw (e, f, g) (j e f g)
      ]
    ]
  ]

-- The chosen content type is one that the node may be sent in, and no other such type has a higher
-- quality.
pub choose_node_content_type-best :
    (quality : ContentType → ℕ) (node : Node) (type_ : ContentType)
    → is_possible node type_ ≡ true
    → (is_possible node (choose_node_content_type quality node) ≡ true)
      × (quality type_ ≤ quality (choose_node_content_type quality node))
unfolding octet_stream_best html_best
choose_node_content_type-best quality node octet_stream h =
    choose_cases quality node
      (λ t. (is_possible node t ≡ true) × (quality octet_stream ≤ quality t))
      (λ e. (ground arith, ground arith)) (λ e f. (refl, ground arith))
      (λ e f g. (refl, ground arith)) (λ e f g. (refl, ground arith))
choose_node_content_type-best quality node json h =
    choose_cases quality node (λ t. (is_possible node t ≡ true) × (quality json ≤ quality t))
      (λ e. (ground arith, ground arith)) (λ e f. (refl, ground arith))
      (λ e f g. (refl, ground arith)) (λ e f g. (refl, ground arith))
choose_node_content_type-best quality node cbor h =
    choose_cases quality node (λ t. (is_possible node t ≡ true) × (quality cbor ≤ quality t))
      (λ e. (ground arith, ground arith)) (λ e f. (refl, ground arith))
      (λ e f g. (refl, ground arith)) (λ e f g. (refl, ground arith))
choose_node_content_type-best quality node html h =
    choose_cases quality node (λ t. (is_possible node t ≡ true) × (quality html ≤ quality t))
      (λ e. (ground arith, ground arith)) (λ e f. (refl, ground arith))
      (λ e f g. (refl, ground arith)) (λ e f g. (refl, ground arith))
choose_node_content_type-best quality node problem_json h = ground arith

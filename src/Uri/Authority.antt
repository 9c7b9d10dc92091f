-- ===== src/Uri/Authority.antt =====
-- The scheme and the authority of an encoded URI, read back: memodb/lib/URI.cpp.
use bcdb.Prelude.{
  ℕ, ◌≡◌, refl, Bool, true, false, ◌&&◌, not, some, List, [], ◌∷◌, ◌++◌, append-nil, append_assoc,
  All, IsByte, ◌==◌, if◌then◌else◌, arith, Bool-cases, inl, inr, codes, leb,
}
use bcdb.Prelude.Strings.{
  contains, is_empty, starts_with, lower, split_before, split_once-found, split_once-absent,
  split_before-found, split_before-absent, contains-append_none,
}
use bcdb.Prelude.Decimal.{decimal, decimal-contains}
use bcdb.Uri.{
  Uri, split_scheme, split_authority, split_host, percent_encode, encode_scheme, encode_authority,
  host_allowed,
}
use bcdb.Uri.Encoded.{
  IsSegment, NotFirst, NotFirst-append, contains→NotFirst, percent_encode-contains,
  percent_encode-is_empty, decode_segments-join, encoded_join-contains,
}
use bcdb.Uri.Encoded

abbrev pub has_authority : Uri → Bool
has_authority uri = not (is_empty uri.host && uri.port == 0)

pub contains-append_found : (a b : List ℕ) (c : ℕ) → contains (a ++ (c ∷ b)) c ≡ true
unfolding contains
contains-append_found [] b c = ground arith
contains-append_found (d ∷ a) b c = ground (arith, contains-append_found a b c)

pub split_scheme-encode :
    (scheme rest : List ℕ)
    → lower scheme ≡ scheme
    → contains scheme b':' ≡ false
    → (is_empty scheme ≡ true → contains (encode_scheme scheme ++ rest) b':' ≡ false)
    → split_scheme (encode_scheme scheme ++ rest) ≡ (scheme, rest)
unfolding split_scheme encode_scheme
split_scheme-encode [] rest l h k = rw (k refl) refl
split_scheme-encode (c ∷ scheme) rest l h k =
    rw
      (
        l,
        append_assoc (c ∷ scheme) (b':' ∷ []) rest,
        contains-append_found (c ∷ scheme) rest b':',
        split_once-found b':' (c ∷ scheme) rest h,
        l,
      )
      refl

-- What may follow an authority.
abbrev pub stops : List ℕ → Bool
stops [] = true
stops (d ∷ str) = contains (codes "/?#") d

no_stop :
    (str : List ℕ)
    → contains str b'/' ≡ false
    → contains str b'?' ≡ false
    → contains str b'#' ≡ false
    → All (λ e. contains (codes "/?#") e ≡ false) str
unfolding contains
no_stop [] h k l = tt
no_stop (d ∷ str) h k l = (ground arith, no_stop str (ground arith) (ground arith) (ground arith))

split_before-stop :
    (str rest : List ℕ)
    → All (λ e. contains (codes "/?#") e ≡ false) str
    → stops rest ≡ true
    → split_before (codes "/?#") (str ++ rest) ≡ (str, rest)
split_before-stop str [] h k = rw (append-nil str) (split_before-absent _ str h)
split_before-stop str (d ∷ rest) h k = split_before-found _ str d rest h k

abbrev pub port_string : ℕ → List ℕ
port_string port = if port == 0 then [] else decimal port

-- The authority without its slashes.
abbrev authority : List ℕ → ℕ → List ℕ
authority host port =
    percent_encode host_allowed host ++ (if port == 0 then [] else b':' ∷ decimal port)

module _ (host : List ℕ) (port : ℕ) (bytes : All IsByte host) where
  authority-contains :
      (d : ℕ)
      → (contains host_allowed d && contains host d) ≡ false
      → contains Encoded.escape_chars d ≡ false
      → (leb b'0' d && leb d b'9') ≡ false
      → (d == b':') ≡ false
      → contains (authority host port) d ≡ false
  authority-contains d h k l e =
      contains-append_none _ _ d (percent_encode-contains host_allowed host d bytes k h)
        (elim (Bool-cases (port == 0)) [
          | inl z ↦ rw z (unfold contains in refl)
          | inr z ↦ rw z (Encoded.contains_cons b':' (decimal port) d e (decimal-contains port d l))
        ])

  split_host-authority :
      contains host b':' ≡ false
      → contains host b'[' ≡ false
      → split_host (authority host port) ≡ some (percent_encode host_allowed host, port_string port)
  unfolding split_host contains
  split_host-authority h k =
      let no_at = authority-contains b'@' refl refl refl refl in
      let colon : contains (percent_encode host_allowed host) b':' ≡ false =
        percent_encode-contains host_allowed host b':' bytes refl h in
      let bracket =
        contains→NotFirst b'[' (authority host port) (authority-contains b'[' k refl refl refl) in
      rw (no_at, bracket)
        (elim (Bool-cases (port == 0)) [
          | inl z ↦
              rw (z, append-nil (percent_encode host_allowed host), split_once-absent _ _ colon)
                refl
          | inr z ↦ rw (z, split_once-found b':' _ (decimal port) colon) refl
        ])

pub is_empty→nil {ℓ} : {A : Type ℓ} (str : List A) → is_empty str ≡ true → str ≡ []
is_empty→nil [] h = refl
is_empty→nil (c ∷ str) h = absurd (cc)

pub split_authority-encode :
    (uri : Uri) (rest : List ℕ)
    → All IsByte uri.host
    → lower uri.host ≡ uri.host
    → contains uri.host b':' ≡ false
    → contains uri.host b'[' ≡ false
    → (has_authority uri ≡ false → starts_with rest (codes "//") ≡ false)
    → (has_authority uri ≡ true → stops rest ≡ true)
    → split_authority (encode_authority uri ++ rest)
      ≡ some (percent_encode host_allowed uri.host, port_string uri.port, rest)
unfolding split_authority encode_authority starts_with contains
split_authority-encode uri rest bytes l colon bracket rootless rooted =
    elim (Bool-cases (is_empty uri.host && uri.port == 0)) [
      | inl z ↦
          rw (z, rootless (rw z refl), host_empty z, port_zero z) (unfold percent_encode in refl)
      | inr z ↦
          let parts =
            no_stop (authority uri.host uri.port)
              (authority-contains uri.host uri.port bytes b'/' refl refl refl refl)
              (authority-contains uri.host uri.port bytes b'?' refl refl refl refl)
              (authority-contains uri.host uri.port bytes b'#' refl refl refl refl) in
          rw
            (
              z,
              l,
              split_before-stop (authority uri.host uri.port) rest parts (rooted (rw z refl)),
              split_host-authority uri.host uri.port bytes colon bracket,
            )
            refl
    ]
  where
    host_empty : (is_empty uri.host && uri.port == 0) ≡ true → uri.host ≡ []
    host_empty z = is_empty→nil uri.host (ground arith)

    port_zero : (is_empty uri.host && uri.port == 0) ≡ true → uri.port ≡ 0
    port_zero z = ground arith

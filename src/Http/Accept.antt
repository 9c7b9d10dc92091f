-- ===== src/Http/Accept.antt =====
-- HTTPRequest::getAcceptQuality of memodb/lib/HTTP.cpp: the quality that the header Accept gives a
-- content type. A `return 0` inside of the loops is `invalid`.
pub mod Bounds
pub mod Rounds
pub mod Qualities
use bcdb.Node.Map.{key_eq}
use bcdb.Prelude.Decimal.{read_decimal}
use bcdb.Prelude.Results.{Result, ok, invalid, stuck, ◌>>=◌}
use bcdb.Prelude.Strings.{is_empty, starts_with, split_once, split_before}
use bcdb.Prelude.{
  ℕ, zero, suc, ◌^◌, Bool, true, false, ◌&&◌, ◌||◌, not, Option, none, some, List, [], ◌∷◌, length,
  drop, get_or, leb, ◌==◌, if◌then◌else◌, codes,
}
use bcdb.Http.{ContentType, octet_stream, json, cbor, html, problem_json, equals_insensitive, ltrim}

abbrev quote : ℕ
quote = 0x22

-- rtrim(" \t")
unfoldable pub rtrim : List ℕ → List ℕ
rtrim [] = []
rtrim (c ∷ str) =
    let rest = rtrim str in if is_empty rest && (c == 0x20 || c == 9) then [] else c ∷ rest

-- The rest of a quoted string up to its end quote, and what follows. A backslash hides a char.
unfoldable pub skip_quoted : List ℕ → Result (List ℕ × List ℕ)
skip_quoted [] = invalid
skip_quoted (c ∷ []) = if c == quote then ok (c ∷ [], []) else invalid
skip_quoted (c ∷ d ∷ str) =
    let plain = (do (quoted, rest) ← skip_quoted (d ∷ str); ok (c ∷ quoted, rest)) in
    let escaped = (do (quoted, rest) ← skip_quoted str; ok (c ∷ d ∷ quoted, rest)) in
    if c == quote then ok (c ∷ [], d ∷ str) else (if c == 0x5c then escaped else plain)

-- A parameter's value behind the equals sign.
unfoldable pub read_value : List ℕ → Result (List ℕ × List ℕ)
unfolding rtrim skip_quoted
read_value remainder =
    let (value, after) = split_before (codes ";,") remainder in
    let quoted_value = (do
      (quoted, rest) ← skip_quoted (drop 1 remainder)
      ok (rtrim (quote ∷ quoted), ltrim rest)) in
    if starts_with remainder (quote ∷ []) then quoted_value else ok (rtrim value, ltrim after)

-- A digit behind the point, where there is one.
abbrev pub decimal_place : ℕ → List ℕ → ℕ
decimal_place k value =
    if leb (suc k) (length value) && get_or value 1 0 == b'.' then get_or value k 0 else b'0'

-- `getAsInteger(10, q)` of the buffer; on an error `q` is left.
unfoldable pub read_quality : List ℕ → ℕ → ℕ
read_quality [] q = q
read_quality (c ∷ value) q =
    let buffer =
      c
      ∷ decimal_place 2 (c ∷ value)
      ∷ decimal_place 3 (c ∷ value)
      ∷ decimal_place 4 (c ∷ value)
      ∷ [] in
    elim (read_decimal (2 ^ 32) buffer) [ none ↦ q | some v ↦ v ]

-- The loop over the parameters. A round takes a semicolon at least.
unfoldable pub params_loop : ℕ → ℕ → List ℕ → Result (ℕ × List ℕ)
unfolding read_value read_quality
params_loop zero q remainder = stuck
params_loop (suc fuel) q remainder =
    let (param, after) = split_before (codes ";,=") (ltrim (drop 1 remainder)) in
    let without_value = params_loop fuel q after in
    let with_value = (do
      (value, rest) ← read_value (drop 1 after)
      params_loop fuel
          (if equals_insensitive (rtrim param) (codes "q") then read_quality value q else q)
          rest) in
    if starts_with remainder (codes ";")
    then (if starts_with after (codes "=") then with_value else without_value)
    else ok (q, remainder)

-- The quality of `type/*`, if there is one, or that of `*/*`.
abbrev pub any_quality : Option ℕ → ℕ → ℕ
any_quality none any_type_q = any_type_q
any_quality (some q) any_type_q = q

-- The loop over the media ranges. A round that is not the last takes a comma at least.
unfoldable pub accept_loop : ℕ → List ℕ → List ℕ → Option ℕ → ℕ → List ℕ → Result ℕ
unfolding params_loop rtrim
accept_loop zero wanted_type wanted_subtype any_subtype_q any_type_q remainder = stuck
accept_loop (suc fuel) wanted_type wanted_subtype any_subtype_q any_type_q remainder =
    let (type_, after) = split_once b'/' (ltrim remainder) in
    let (range, params) = split_before (codes ";,") after in
    let subtype = rtrim range in
    let is_type = equals_insensitive type_ wanted_type in
    let found = (do
      (q, rest) ← params_loop (suc (length params)) 1000 params
      let any_subtype_q' = if is_type && key_eq subtype (codes "*") then some q else any_subtype_q
      let any_type_q' =
          if not is_type && key_eq type_ (codes "*") && key_eq subtype (codes "*")
          then q
          else any_type_q
      let next =
          accept_loop fuel wanted_type wanted_subtype any_subtype_q' any_type_q' (drop 1 rest)
      if is_type && equals_insensitive subtype wanted_subtype
          then ok q
          else (if is_empty rest
              then ok (any_quality any_subtype_q' any_type_q')
              else (if starts_with rest (codes ",") then next else invalid))) in
    if is_empty (ltrim remainder) then ok (any_quality any_subtype_q any_type_q) else found

-- `return 0`
abbrev pub or_zero : Result ℕ → Result ℕ
or_zero (ok q) = ok q
or_zero invalid = ok 0
or_zero stuck = stuck

-- The type and the subtype that are looked for.
abbrev pub wanted_types : ContentType → List ℕ × List ℕ
wanted_types octet_stream = (codes "application", codes "octet-stream")
wanted_types json = (codes "application", codes "json")
wanted_types cbor = (codes "application", codes "cbor")
wanted_types html = (codes "text", codes "html")
wanted_types problem_json = (codes "application", codes "problem+json")

abbrev pub is_json : ContentType → Bool
is_json json = true
is_json problem_json = true
is_json other = false

-- HTTPRequest::getAcceptQuality, with the header Accept if there is one.
unfoldable pub get_accept_quality : Option (List ℕ) → ContentType → Result ℕ
unfolding accept_loop
get_accept_quality none content_type = ok (if is_json content_type then 1 else 0)
get_accept_quality (some accept) content_type =
    let (wanted_type, wanted_subtype) = wanted_types content_type in
    or_zero (accept_loop (suc (length accept)) wanted_type wanted_subtype none 0 accept)

-- ===== src/Http/Accept/Bounds.antt =====
-- The range of the qualities: HTTPRequest::getAcceptQuality in memodb/lib/HTTP.cpp.
use bcdb.Prelude.{ℕ, suc, ◌≤◌, ◌≡◌, refl, Option, none, some, List, length, arith}
use bcdb.Prelude.Results.{Result, ok, Ends, holds, rejected}
use bcdb.Http.{ContentType}
use bcdb.Http.Accept.{accept_loop, get_accept_quality, is_json, wanted_types, or_zero}
use bcdb.Http.Accept.Qualities.{if-le}
use bcdb.Http.Accept.Rounds.{accept_loop-Ends}

or_zero-le : (r : Result ℕ) → Ends (λ q. q ≤ 9999) r → (q : ℕ) × (or_zero r ≡ ok q) × (q ≤ 9999)
or_zero-le _ (holds {a} h) = (a, refl, h)
or_zero-le _ rejected = (0, refl, omega arith)

-- Whatever the header is, a quality is found, and it has four decimal digits at most.
pub get_accept_quality-le :
    (accept : Option (List ℕ)) (content_type : ContentType)
    → (q : ℕ) × (get_accept_quality accept content_type ≡ ok q) × (q ≤ 9999)
unfolding get_accept_quality
get_accept_quality-le none content_type =
    (_, refl, if-le 9999 (is_json content_type) 1 0 (omega arith) (omega arith))
get_accept_quality-le (some accept) content_type =
    let (wanted_type, wanted_subtype) = wanted_types content_type in
    or_zero-le (accept_loop (suc (length accept)) wanted_type wanted_subtype none 0 accept) (
      accept_loop-Ends 9999 (omega arith) wanted_type wanted_subtype (length accept) none 0 accept
        (omega arith) tt (omega arith))

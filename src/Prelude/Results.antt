-- ===== src/Prelude/Results.antt =====
-- Results of the loops of memodb/lib/Multibase.cpp and memodb/lib/HTTP.cpp, which have fuel.
use mathlib.Core.Logic.{◌≢◌}
use mathlib.Core.Path.{◌≡◌, refl, subst}
use mathlib.Core.Bool.{Bool, true, false}
use bcdb.Prelude.Tests.{if◌then◌else◌}

-- `stuck` is no value of the program: a loop of the model ran out of fuel.
pub data Result {ℓ} (A : Type ℓ) : Type ℓ where
  ok : A → Result A
  invalid stuck : Result A

infixl 5 ◌>>=◌
abbrev pub ◌>>=◌ {ℓ κ} : {A : Type ℓ} {B : Type κ} → Result A → (A → Result B) → Result B
ok a >>= f = f a
invalid >>= f = invalid
stuck >>= f = stuck

-- A result that is no `stuck`, with a property of its value.
pub data Ends {ℓ κ} {A : Type ℓ} (P : A → Type κ) : Result A → Type (ℓ ⊔ κ) where
  holds : {a : A} → P a → Ends P (ok a)
  rejected : Ends P invalid

pub Ends->>= {ℓ κ ℓ' κ'} :
    {A : Type ℓ} {B : Type ℓ'} {P : A → Type κ} {Q : B → Type κ'} {r : Result A} {f : A → Result B}
    → Ends P r
    → ((a : A) → P a → Ends Q (f a))
    → Ends Q (r >>= f)
Ends->>= (holds {a} h) k = k a h
Ends->>= rejected k = rejected

pub Ends-ne_stuck {ℓ κ} : {A : Type ℓ} {P : A → Type κ} {r : Result A} → Ends P r → r ≢ stuck
Ends-ne_stuck (holds h) = cc
Ends-ne_stuck rejected = cc

pub Ends-if {ℓ κ} :
    {A : Type ℓ} {P : A → Type κ} (b : Bool) {x y : Result A}
    → (b ≡ true → Ends P x)
    → (b ≡ false → Ends P y)
    → Ends P (if b then x else y)
Ends-if true hx hy = hx refl
Ends-if false hx hy = hy refl

pub Ends-weaken {ℓ κ κ'} :
    {A : Type ℓ} {P : A → Type κ} {Q : A → Type κ'} {r : Result A}
    → ((a : A) → P a → Q a)
    → Ends P r
    → Ends Q r
Ends-weaken k (holds h) = holds (k _ h)
Ends-weaken k rejected = rejected

pub Ends-ok {ℓ κ} : {A : Type ℓ} {P : A → Type κ} {r : Result A} {a : A} → Ends P r → r ≡ ok a → P a
Ends-ok {P = P} (holds h) e = subst P (cc) h
Ends-ok rejected e = cc

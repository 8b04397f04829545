-- ===== src/Prelude/Results.antt =====
-- What a call returns, or the error that it throws.
use mathlib.Core.Path.{◌≡◌, refl}
use mathlib.Core.Bool.{Bool, true, false}

pub data Result {ℓ κ} (E : Type ℓ) (A : Type κ) : Type (ℓ ⊔ κ) where
  ok : A → Result E A
  err : E → Result E A

-- `abbrev`, so that `ok a >>= f` computes wherever it stands.
infixl 5 ◌>>=◌ ◌>>◌
abbrev pub ◌>>=◌ {ℓ κ μ} :
    {E : Type ℓ} {A : Type κ} {B : Type μ} → Result E A → (A → Result E B) → Result E B
ok a >>= f = f a
err e >>= f = err e

abbrev pub ◌>>◌ {ℓ μ} : {E : Type ℓ} {B : Type μ} → Result E (Unit {0}) → Result E B → Result E B
m >> k = m >>= λ _. k

-- `if (!test) throw error;`
abbrev pub require {ℓ} : {E : Type ℓ} → Bool → E → Result E (Unit {0})
require true e = ok tt
require false e = err e

-- `if (test) throw error;`
abbrev pub refuse_if {ℓ} : {E : Type ℓ} → Bool → E → Result E (Unit {0})
refuse_if true e = err e
refuse_if false e = ok tt

-- Inversion of a successful bind, for proofs where the parts stay shut.
pub >>=-ok {ℓ κ μ} :
    {E : Type ℓ} {A : Type κ} {B : Type μ} (m : Result E A) (f : A → Result E B) {b : B}
    → (m >>= f) ≡ ok b
    → (a : A) × (m ≡ ok a) × (f a ≡ ok b)
>>=-ok (ok a) f h = (a, refl, h)
>>=-ok (err e) f h = cc

pub require-ok {ℓ} : {E : Type ℓ} (t : Bool) (e : E) {u : Unit {0}} → require t e ≡ ok u → t ≡ true
require-ok true e h = refl
require-ok false e h = cc

pub refuse_if-ok {ℓ} :
    {E : Type ℓ} (t : Bool) (e : E) {u : Unit {0}} → refuse_if t e ≡ ok u → t ≡ false
refuse_if-ok false e h = refl
refuse_if-ok true e h = cc

pub >>-ok {ℓ μ} :
    {E : Type ℓ} {B : Type μ} (m : Result E (Unit {0})) (k : Result E B) {b : B}
    → m >> k ≡ ok b
    → (m ≡ ok tt) × (k ≡ ok b)
>>-ok (ok u) k h = (refl, h)
>>-ok (err e) k h = cc

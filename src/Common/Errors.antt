-- ===== src/Common/Errors.antt =====
-- `Result<A, E>`: a value or an error, with `?` as the bind of a `do` block.
use mathlib.Core.Path.{◌≡◌, refl}
use mathlib.Core.Bool.{Bool, true, false}
use mathlib.Core.Option.{Option, none, some}

pub data Result {ℓ κ} (E : Type ℓ) (A : Type κ) : Type (ℓ ⊔ κ) where
  ok : A → Result E A
  err : E → Result E A

pub ok-injective {ℓ κ} :
    {E : Type ℓ} {A : Type κ} {a b : A} → ◌≡◌ {A = Result E A} (ok a) (ok b) → a ≡ b
ok-injective h = cc

module _ {ℓ κ ι} {E : Type ℓ} {A : Type κ} {B : Type ι} where
  infixl 5 ◌>>=◌
  abbrev pub ◌>>=◌ : Result E A → (A → Result E B) → Result E B
  ok a >>= f = f a
  err e >>= f = err e

module _ {ℓ κ} {E : Type ℓ} {B : Type κ} where
  infixl 5 ◌>>◌
  abbrev pub ◌>>◌ : Result E (Unit {0}) → Result E B → Result E B
  m >> k = m >>= λ _. k

-- `anyhow::ensure!`
abbrev pub ensure {ℓ} : {E : Type ℓ} → Bool → E → Result E (Unit {0})
ensure true e = ok tt
ensure false e = err e

-- `anyhow::Context::context` of an `Option`
abbrev pub context {ℓ} : {A : Type ℓ} {E : Type 0} → Option A → E → Result E A
context none e = err e
context (some a) e = ok a

-- The value of a chain that succeeds comes from its first step.
pub >>=-ok {ℓ κ} :
    {A : Type ℓ} {B : Type κ} {E : Type 0} (m : Result E A) (f : A → Result E B) {b : B}
    → ◌≡◌ {A = Result E B} (m >>= f) (ok b)
    → (a : A) × (◌≡◌ {A = Result E A} m (ok a)) × (◌≡◌ {A = Result E B} (f a) (ok b))
>>=-ok (ok a) f h = (a, refl, h)
>>=-ok (err e) f h = absurd (cc h)

pub >>-ok {ℓ} :
    {B : Type ℓ} {E : Type 0} (m : Result E (Unit {0})) (k : Result E B) {b : B}
    → ◌≡◌ {A = Result E B} (m >> k) (ok b)
    → ◌≡◌ {A = Result E (Unit {0})} m (ok tt) × ◌≡◌ {A = Result E B} k (ok b)
>>-ok (ok tt) k h = (refl, h)
>>-ok (err e) k h = absurd (cc h)

pub ensure-ok :
    {E : Type 0} (b : Bool) (e : E) → ◌≡◌ {A = Result E (Unit {0})} (ensure b e) (ok tt) → b ≡ true
ensure-ok true e h = refl
ensure-ok false e h = absurd (cc h)

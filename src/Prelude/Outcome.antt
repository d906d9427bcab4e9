-- ===== src/Prelude/Outcome.antt =====
-- What a Rust call ends with. `panic` stands for an unwind: an `unwrap` of `None` or `Err`, a failed
-- `assert!`, a slice out of range, an arithmetic overflow. `diverge` is no end of a Rust call: a loop
-- of the model ran out of fuel.
use mathlib.Core.Path.{◌≡◌, refl, ap, ◌∙◌}
use mathlib.Core.Bool.{Bool, true, false}
use mathlib.Core.Option.{Option, none, some}

pub data Outcome {ℓ} (E : Type 0) (A : Type ℓ) : Type ℓ where
  ok : A → Outcome E A
  err : E → Outcome E A
  panic : Outcome E A
  diverge : Outcome E A

infixl 5 ◌>>=◌ ◌>>◌
abbrev pub ◌>>=◌ {ℓ κ} :
    {E : Type 0} {A : Type ℓ} {B : Type κ} → Outcome E A → (A → Outcome E B) → Outcome E B
ok a >>= f = f a
err e >>= f = err e
panic >>= f = panic
diverge >>= f = diverge

abbrev pub ◌>>◌ {ℓ κ} :
    {E : Type 0} {A : Type ℓ} {B : Type κ} → Outcome E A → Outcome E B → Outcome E B
m >> k = m >>= λ _. k

-- `assert!(b)`
abbrev pub assert : {E : Type 0} → Bool → Outcome E (Unit {0})
assert true = ok tt
assert false = panic

-- `if !b { return Err(e) }`
abbrev pub ensure : {E : Type 0} → Bool → E → Outcome E (Unit {0})
ensure true e = ok tt
ensure false e = err e

-- `o.unwrap()`
abbrev pub unwrap {ℓ} : {E : Type 0} {A : Type ℓ} → Option A → Outcome E A
unwrap none = panic
unwrap (some a) = ok a

-- `r.expect(..)` of a result.
abbrev pub expect {ℓ} : {E E' : Type 0} {A : Type ℓ} → Outcome E A → Outcome E' A
expect (ok a) = ok a
expect (err e) = panic
expect panic = panic
expect diverge = diverge

pub >>=_assoc {ℓ κ μ} :
    {E : Type 0} {A : Type ℓ} {B : Type κ} {C : Type μ} (m : Outcome E A) (f : A → Outcome E B)
    (g : B → Outcome E C)
    → (m >>= f >>= g) ≡ (m >>= λ a. f a >>= g)
>>=_assoc (ok a) f g = refl
>>=_assoc (err e) f g = refl
>>=_assoc panic f g = refl
>>=_assoc diverge f g = refl

-- Two ways to go on agree if they agree on what the first call returned.
pub >>=_cong {ℓ κ} :
    {E : Type 0} {A : Type ℓ} {B : Type κ} (m : Outcome E A) (f g : A → Outcome E B)
    → ((a : A) → m ≡ ok a → f a ≡ g a)
    → (m >>= f) ≡ (m >>= g)
>>=_cong (ok a) f g h = h a refl
>>=_cong (err e) f g h = refl
>>=_cong panic f g h = refl
>>=_cong diverge f g h = refl

-- The parts of a bind that returned.
pub >>=-eq-ok {ℓ κ} :
    {E : Type 0} {A : Type ℓ} {B : Type κ} (call : Outcome E A) (next : A → Outcome E B) {res : B}
    → (call >>= next) ≡ ok res
    → (a : A) × (call ≡ ok a) × (next a ≡ ok res)
>>=-eq-ok (ok a) next e = (a, refl, e)
>>=-eq-ok (err x) next e = absurd (cc)
>>=-eq-ok panic next e = absurd (cc)
>>=-eq-ok diverge next e = absurd (cc)

-- A bind goes on with what the call returned.
pub >>=-ok {ℓ κ} :
    {E : Type 0} {A : Type ℓ} {B : Type κ} {call : Outcome E A} {a : A} {res : Outcome E B}
    (next : A → Outcome E B)
    → call ≡ ok a
    → next a ≡ res
    → (call >>= next) ≡ res
>>=-ok next e f = ap (λ c. c >>= next) e ∙ f

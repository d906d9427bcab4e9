-- ===== src/Prelude/Always.antt =====
-- What holds of the value of a call, if it returns, through its binds.
use mathlib.Core.Path.{◌≡◌, refl, subst}
use mathlib.Core.Bool.{Bool, true, false}
use grizol.Prelude.Tests.{if◌then◌else◌}
use grizol.Prelude.Outcome.{Outcome, ok, err, panic, diverge, ◌>>=◌}

-- The value of a call that returns is one of these.
abbrev pub Always : {E A : Type 0} → (A → Type 0) → Outcome E A → Type 0
Always P (ok a) = P a
Always P (err e) = Unit
Always P panic = Unit
Always P diverge = Unit

pub Always-bind :
    {E A B : Type 0} (P : A → Type 0) (Q : B → Type 0) (call : Outcome E A) (next : A → Outcome E B)
    → Always P call
    → ((a : A) → P a → Always Q (next a))
    → Always Q (call >>= next)
Always-bind P Q (ok a) next p f = f a p
Always-bind P Q (err e) next p f = tt
Always-bind P Q panic next p f = tt
Always-bind P Q diverge next p f = tt

-- Whatever the call gives.
pub Always-any :
    {E A B : Type 0} (Q : B → Type 0) (call : Outcome E A) (next : A → Outcome E B)
    → ((a : A) → Always Q (next a))
    → Always Q (call >>= next)
Always-any Q (ok a) next f = f a
Always-any Q (err e) next f = tt
Always-any Q panic next f = tt
Always-any Q diverge next f = tt

pub Always-weaken :
    {E A : Type 0} (P Q : A → Type 0) (call : Outcome E A)
    → ((a : A) → P a → Q a)
    → Always P call
    → Always Q call
Always-weaken P Q (ok a) f p = f a p
Always-weaken P Q (err e) f p = tt
Always-weaken P Q panic f p = tt
Always-weaken P Q diverge f p = tt

pub Always-if :
    {E A : Type 0} (P : A → Type 0) (b : Bool) (x y : Outcome E A)
    → (b ≡ true → Always P x)
    → Always P y
    → Always P (if b then x else y)
Always-if P true x y f p = f refl
Always-if P false x y f p = p

pub Always-ok :
    {E A : Type 0} (P : A → Type 0) (call : Outcome E A) {a : A} → Always P call → call ≡ ok a → P a
Always-ok P (ok b) {a} p e = subst P (cc) p
Always-ok P (err x) p e = absurd (cc)
Always-ok P panic p e = absurd (cc)
Always-ok P diverge p e = absurd (cc)

-- ===== src/Prelude/Fallible.antt =====
-- The do notation for fallible Go functions: an error ends the function.
use mathlib.Core.Path.{◌≡◌, refl}
use mathlib.Core.Logic.{◌≢◌}
use mathlib.Core.Bool.{Bool, true, false}
use native.Mathlib.Omega.{arith}
use grnoti.Prelude.Tests.{if◌then◌else◌}
use grnoti.Prelude.Results.{Result, ok, err}

module _ {ℓ κ} {E : Type κ} {A : Type ℓ} where
  abbrev pub pure : A → Result E A
  pure = ok

  -- What a test on err does: wrap it, or leave the value.
  abbrev pub on_err : (E → E) → Result E A → Result E A
  on_err wrap (ok a) = ok a
  on_err wrap (err e) = err (wrap e)

infixl 5 ◌>>=◌
abbrev pub ◌>>=◌ {ℓ κ μ} :
    {E : Type κ} {A : Type ℓ} {B : Type μ} → Result E A → (A → Result E B) → Result E B
ok a >>= f = f a
err e >>= f = err e

err_is_not-ok {ℓ κ} : {E : Type κ} {A : Type ℓ} (e : E) (a : A) → err e ≢ ok a
err_is_not-ok e a p = ground (arith, p)

-- What the first gives without an error, the second gives too.
abbrev pub SameOk {ℓ κ} : {E : Type κ} {A : Type ℓ} → Result E A → Result E A → Type (ℓ ⊔ κ)
SameOk {A = A} x y = (a : A) → x ≡ ok a → y ≡ ok a

pub on_err-SameOk {ℓ κ} :
    {E : Type κ} {A : Type ℓ} (v w : E → E) (x : Result E A) → SameOk (on_err v x) (on_err w x)
on_err-SameOk v w (ok b) a e = e
on_err-SameOk v w (err why) a e = absurd (err_is_not-ok (v why) a e)

pub bind-SameOk {ℓ κ μ} :
    {E : Type κ} {A : Type ℓ} {B : Type μ} (x y : Result E A) (f g : A → Result E B)
    → SameOk x y
    → ((a : A) → SameOk (f a) (g a))
    → SameOk (x >>= f) (y >>= g)
bind-SameOk (ok a) y f g same next b e = rw (same a refl) (next a b e)
bind-SameOk (err why) y f g same next b e = absurd (err_is_not-ok why b e)

pub if-SameOk {ℓ κ} :
    {E : Type κ} {A : Type ℓ} (c : Bool) (x y z : Result E A)
    → SameOk x y
    → SameOk (if c then x else z) (if c then y else z)
if-SameOk true x y z same a e = same a e
if-SameOk false x y z same a e = e

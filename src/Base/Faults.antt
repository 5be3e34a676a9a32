-- ===== src/Base/Faults.antt =====
-- Code that can fail: `none` is an exception thrown, or an access that C++ leaves undefined, such
-- as the front of an empty queue.
use mathlib.Core.Option.{Option, none, some}
use mathlib.Core.Path.{◌≡◌, refl}
use mathlib.Core.Bool.{Bool, true, false}
use nju_networking_lab.Base.Tests.{if◌then◌else◌}

infixl 5 ◌>>=◌
abbrev pub ◌>>=◌ {ℓ κ} : {A : Type ℓ} {B : Type κ} → Option A → (A → Option B) → Option B
some a >>= f = f a
none >>= f = none

-- The run returns, and what it returns satisfies `P`.
abbrev pub Returns {ℓ} : {A : Type ℓ} → (A → Type 0) → Option A → Type 0
Returns P (some a) = P a
Returns P none = ⊥

-- What the run returns, if it returns, satisfies `P`.
abbrev pub Whenever {ℓ} : {A : Type ℓ} → (A → Type 0) → Option A → Type 0
Whenever P (some a) = P a
Whenever P none = Unit

-- A run that returns, and of which it is known what it returns if it does.
pub Whenever-some {ℓ} :
    {A : Type ℓ} (P : A → Type 0) {o : Option A} {a : A} → Whenever P o → o ≡ some a → P a
Whenever-some P h e = rw (e) at h

pub Whenever-bind {ℓ κ} :
    {A : Type ℓ} {B : Type κ} (P : A → Type 0) (Q : B → Type 0) (o : Option A) (f : A → Option B)
    → Whenever P o
    → ((a : A) → P a → Whenever Q (f a))
    → Whenever Q (o >>= f)
Whenever-bind P Q none f h g = tt
Whenever-bind P Q (some a) f h g = g a h

pub Whenever-map {ℓ} :
    {A : Type ℓ} (P Q : A → Type 0) (o : Option A)
    → ((a : A) → P a → Q a)
    → Whenever P o
    → Whenever Q o
Whenever-map P Q none f h = tt
Whenever-map P Q (some a) f h = f a h

pub Whenever-if {ℓ} :
    {A : Type ℓ} (P : A → Type 0) (b : Bool) (x y : Option A)
    → (b ≡ true → Whenever P x)
    → (b ≡ false → Whenever P y)
    → Whenever P (if b then x else y)
Whenever-if P true x y f g = f refl
Whenever-if P false x y f g = g refl

-- ===== src/Prelude/Results.antt =====
-- What holds of the result of an operation that can refuse, and of the two sides of a test.
use mathlib.Core.Path.{◌≡◌, refl, subst}
use mathlib.Core.Bool.{Bool, true, false}
use mathlib.Core.Option.{Option, none, some}
use semblend_vllm_connector.Prelude.Tests.{if◌then◌else◌, ◌>>=◌}

-- Whatever an operation that can refuse returns has the property.
abbrev pub Returns {ℓ} : {A : Type 0} → (A → Type ℓ) → Option A → Type ℓ
Returns P none = Unit
Returns P (some a) = P a

pub Returns-some {ℓ} :
    {A : Type 0} (P : A → Type ℓ) (o : Option A) {a : A} → Returns P o → o ≡ some a → P a
Returns-some P none h e = cc
Returns-some P (some b) h e = subst P (cc) h

pub Keeps-if {ℓ} :
    {A : Type 0} (P : A → Type ℓ) (test : Bool) (x y : A) → P x → P y → P (if test then x else y)
Keeps-if P true x y h k = h
Keeps-if P false x y h k = k

pub Keeps-if_eq {ℓ} :
    {A : Type 0} (P : A → Type ℓ) (test : Bool) (x y : A)
    → (test ≡ true → P x)
    → (test ≡ false → P y)
    → P (if test then x else y)
Keeps-if_eq P true x y h k = h refl
Keeps-if_eq P false x y h k = k refl

pub Returns-if {ℓ} :
    {A : Type 0} (P : A → Type ℓ) (test : Bool) (x y : Option A)
    → Returns P x
    → Returns P y
    → Returns P (if test then x else y)
Returns-if P true x y h k = h
Returns-if P false x y h k = k

pub Returns-if_eq {ℓ} :
    {A : Type 0} (P : A → Type ℓ) (test : Bool) (x y : Option A)
    → (test ≡ true → Returns P x)
    → (test ≡ false → Returns P y)
    → Returns P (if test then x else y)
Returns-if_eq P true x y h k = h refl
Returns-if_eq P false x y h k = k refl

pub Returns->>= {ℓ κ} :
    {A : Type 0} (P : A → Type ℓ) (Q : A → Type κ) (o : Option A) (f : A → Option A)
    → Returns P o
    → ((a : A) → P a → Returns Q (f a))
    → Returns Q (o >>= f)
Returns->>= P Q none f h k = tt
Returns->>= P Q (some a) f h k = k a h

pub if-eq_of_false {ℓ} :
    {A : Type ℓ} (test : Bool) (x y : A) → test ≡ false → (if test then x else y) ≡ y
if-eq_of_false true x y h = cc
if-eq_of_false false x y h = refl

pub if-eq_of_true {ℓ} :
    {A : Type ℓ} (test : Bool) (x y : A) → test ≡ true → (if test then x else y) ≡ x
if-eq_of_true true x y h = refl
if-eq_of_true false x y h = cc

-- ===== src/Base/Faults.antt =====
-- What a piece of the C++ code comes to: a result, or the fault that ends the process.
use mathlib.Core.Path.{◌≡◌, refl}
use mathlib.Core.Logic.{◌⊎◌, inl, inr}
use mathlib.Core.Bool.{Bool, true, false}
use mathlib.Core.Option.{Option, none, some}

-- `overrun`: an access past the end of an allocation (undefined behaviour in C++);
-- `out_of_range`: the exception of `.at`; `failure`: a `throw` of a message.
pub data Fault : Type 0 where
  overrun out_of_range failure : Fault

pub data Exec {ℓ} (A : Type ℓ) : Type ℓ where
  ok : A → Exec A
  fault : Fault → Exec A

infixl 5 ◌>>=◌ ◌>>◌
abbrev pub ◌>>=◌ {ℓ κ} : {A : Type ℓ} {B : Type κ} → Exec A → (A → Exec B) → Exec B
ok a >>= f = f a
fault e >>= f = fault e

abbrev pub ◌>>◌ {ℓ} : {B : Type ℓ} → Exec (Unit {0}) → Exec B → Exec B
m >> k = m >>= λ _. k

abbrev pub guard : Bool → Fault → Exec (Unit {0})
guard true e = ok tt
guard false e = fault e

abbrev pub or_fault {ℓ} : {A : Type ℓ} → Option A → Fault → Exec A
or_fault none e = fault e
or_fault (some a) e = ok a

pub ok-injective {ℓ} : {A : Type ℓ} {a b : A} → ok a ≡ ok b → a ≡ b
ok-injective e = cc

pub Exec-cases {ℓ} :
    {A : Type ℓ} (m : Exec A) → ((a : A) × (m ≡ ok a)) ⊎ ((e : Fault) × (m ≡ fault e))
Exec-cases (ok a) = inl (a, refl)
Exec-cases (fault e) = inr (e, refl)

-- A composed piece of code that comes to a result did so in both parts.
module _ {ℓ κ} {A : Type ℓ} {B : Type κ} where
  pub >>=-ok :
      {b : B} (f : A → Exec B) (m : Exec A) → (m >>= f) ≡ ok b → (x : A) × (m ≡ ok x) × (f x ≡ ok b)
  >>=-ok f (ok x) done = (x, refl, done)
  >>=-ok f (fault e) done = absurd (cc)

-- ===== src/Shared/Options.antt =====
-- Bodies of the frontend that may throw, as options: what they throw is not told apart.
use mathlib.Core.Path.{◌≡◌, refl}
use mathlib.Core.Bool.{Bool, true, false}
use mathlib.Core.Option.{Option, none, some}

module _ {ℓ κ} {A : Type ℓ} {B : Type κ} where
  infixl 5 ◌>>=◌
  abbrev pub ◌>>=◌ : Option A → (A → Option B) → Option B
  none >>= next = none
  some value >>= next = next value

infixl 5 ◌>>◌
abbrev pub ◌>>◌ {κ} : {B : Type κ} → Option (Unit {0}) → Option B → Option B
check >> next = check >>= λ done. next

abbrev pub assert : Bool → Option (Unit {0})
assert true = some tt
assert false = none

-- A chain that returns had a first step that did.
pub some-of-bind {ℓ κ} :
    {A : Type ℓ} {B : Type κ} {result : B} (next : A → Option B) (first : Option A)
    → (first >>= next) ≡ some result
    → (value : A) × (next value ≡ some result) × (first ≡ some value)
some-of-bind next none e = cc
some-of-bind next (some value) e = (value, e, refl)

pub true-of-assert : (test : Bool) {done : Unit {0}} → assert test ≡ some done → test ≡ true
true-of-assert true e = refl
true-of-assert false e = cc

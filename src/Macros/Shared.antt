-- ===== src/Macros/Shared.antt =====
-- What the proofs about the macros share: Boolean conjunctions and the steps of a `Result`.
use dyn_utils.Prelude.{Bool, if◌then◌else◌, true, false, ◌&&◌, ◌≡◌, refl}
use dyn_utils.Macros.Syntax.{MacroError, Result, failure, success, ◌>>=◌}

pub and_intro : {a b : Bool} → a ≡ true → b ≡ true → (a && b) ≡ true
and_intro h k = rw (h, k) refl

pub and_left : (a b : Bool) → (a && b) ≡ true → a ≡ true
and_left true b h = refl
and_left false b h = h

pub and_right : (a b : Bool) → (a && b) ≡ true → b ≡ true
and_right true b h = h
and_right false b h = cc

pub success-injective {ℓ} : {A : Type ℓ} {a b : A} → success a ≡ success b → a ≡ b
success-injective h = cc

pub success-bind {ℓ κ} :
    {A : Type ℓ} {B : Type κ} (r : Result A) (f : A → Result B) (b : B)
    → (r >>= f) ≡ success b
    → (a : A) × (r ≡ success a) × (f a ≡ success b)
success-bind (success a) f b h = (a, refl, h)
success-bind (failure e) f b h = cc

-- A test that fails is not the way to a success.
pub if-failure {ℓ} :
    {A : Type ℓ} (b : Bool) (e : MacroError) (r : Result A) (a : A)
    → (if b then failure e else r) ≡ success a
    → r ≡ success a
if-failure true e r a h = cc
if-failure false e r a h = h

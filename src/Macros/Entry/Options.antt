-- ===== src/Macros/Entry/Options.antt =====
-- What an attribute of macros/src/lib.rs reads from its arguments, by the option that counts.
use dyn_utils.Prelude.{Option, none, some, ◌≡◌, refl, List, [], ◌∷◌}
use dyn_utils.Macros.Agrees.{or_else}
use dyn_utils.Macros.Syntax.{MacroError, Result, failure, success}

pub or_else_assoc {ℓ} :
    {A : Type ℓ} (o p q : Option A) → or_else o (or_else p q) ≡ or_else (or_else o p) q
or_else_assoc (some a) p q = refl
or_else_assoc none p q = refl

pub or_else-none {ℓ} : {A : Type ℓ} (o : Option A) → or_else o none ≡ o
or_else-none (some a) = refl
or_else-none none = refl

-- What the last option that gives a value gives.
abbrev pub last_of {ℓ} :
    {Meta : Type 0} {A : Type ℓ} → (Meta → Option A) → List (Result Meta) → Option A
last_of value [] = none
last_of value (success m ∷ ms) = or_else (last_of value ms) (value m)
last_of value (failure e ∷ ms) = last_of value ms

abbrev pub or_error {ℓ} : {A : Type ℓ} → Option MacroError → A → Result A
or_error none a = success a
or_error (some e) a = failure e

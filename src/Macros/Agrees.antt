-- ===== src/Macros/Agrees.antt =====
-- When the steps of a macro fail, by a description of what is wrong with their input.
use dyn_utils.Prelude.{
  Bool, true, false, Option, none, some, if◌then◌else◌, ◌≡◌, ◌⊎◌, inl, inr, refl, ap, ◌∙◌,
}
use dyn_utils.Macros.Syntax.{MacroError, Result, failure, success, ◌>>=◌}

abbrev pub or_else {ℓ} : {A : Type ℓ} → Option A → Option A → Option A
or_else (some a) o = some a
or_else none o = o

-- A step fails with the error that is described, or goes on if none is.
abbrev pub Agrees {ℓ} : {A : Type ℓ} → Option MacroError → Result A → Type ℓ
Agrees {A = A} none r = (a : A) × (r ≡ success a)
Agrees (some e) r = r ≡ failure e

pub Agrees-if {ℓ} :
    {A : Type ℓ} (b : Bool) (e : MacroError) (a : A)
    → Agrees (if b then none else some e) (if b then success a else failure e)
Agrees-if true e a = (a, refl)
Agrees-if false e a = refl

-- Of two steps the first that has something wrong is the one that is reported.
pub Agrees-bind {ℓ κ} :
    {A : Type ℓ} {B : Type κ} (o p : Option MacroError) (r : Result A) (f : A → Result B)
    → Agrees o r
    → ((a : A) → r ≡ success a → Agrees p (f a))
    → Agrees (or_else o p) (r >>= f)
Agrees-bind none none r f (a, ra) k = let (b, fb) = k a ra in (b, ap (λ x. x >>= f) ra ∙ fb)
Agrees-bind none (some e) r f (a, ra) k = ap (λ x. x >>= f) ra ∙ k a ra
Agrees-bind (some e) p r f h k = ap (λ x. x >>= f) h

-- What is done with the result of a step cannot fail.
pub Agrees-map {ℓ κ} :
    {A : Type ℓ} {B : Type κ} (o : Option MacroError) (r : Result A) (f : A → B)
    → Agrees o r
    → Agrees o (r >>= λ a. success (f a))
Agrees-map none r f (a, ra) = (f a, ap (λ x. x >>= λ a. success (f a)) ra)
Agrees-map (some e) r f h = ap (λ x. x >>= λ a. success (f a)) h

pub Agrees-cases {ℓ} :
    {A : Type ℓ} (o : Option MacroError) (r : Result A)
    → Agrees o r
    → ((o ≡ none) × (a : A) × (r ≡ success a)) ⊎ ((e : MacroError) × (o ≡ some e) × (r ≡ failure e))
Agrees-cases none r (a, h) = inl (refl, a, h)
Agrees-cases (some e) r h = inr (e, refl, h)

pub Agrees-unless {ℓ} :
    {A : Type ℓ} (b : Bool) (e : MacroError) (a : A)
    → Agrees (if b then some e else none) (if b then failure e else success a)
Agrees-unless true e a = refl
Agrees-unless false e a = (a, refl)

-- A test before the other steps.
pub Agrees-guard {ℓ} :
    {A : Type ℓ} (b : Bool) (e : MacroError) (o : Option MacroError) (r : Result A)
    → Agrees o r
    → Agrees (if b then some e else o) (if b then failure e else r)
Agrees-guard true e o r h = refl
Agrees-guard false e o r h = h

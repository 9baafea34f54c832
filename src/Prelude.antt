-- ===== src/Prelude.antt =====
-- The names that the other modules share: the libraries', passed on, the Boolean tests on native
-- numbers, and the list functions over the native numbers.
use Prim.Native.Nat.{compare, Ordering, ◌∣◌}
use native.Mathlib.Nat.{
  one-dvd, mul-dvd-mul_right, mod-eq-zero_of_dvd, dvd_of_mod-eq-zero, dvd_trans, one-le-pow,
  pow-suc, dvd-add,
}
pub use Prim.Native.Nat.{ℕ, zero, suc, ◌+◌, ◌-◌, ◌*◌, ◌%◌, ◌^◌, ◌≤◌, ◌<◌}
pub use Prim.Native.String.{String}
pub use mathlib.Core.Path.{◌≡◌, refl, sym, ap, ◌∙◌, subst}
pub use mathlib.Core.Logic.{◌≢◌, ◌↔◌, ◌⊎◌, inl, inr}
pub use mathlib.Core.Bool.{Bool, true, false, not, ◌&&◌, ◌||◌}
pub use mathlib.Core.Option.{Option, none, some}
pub use mathlib.Core.List.{List, [], ◌∷◌, ◌++◌, map}
pub use native.Mathlib.Omega.{arith}

-- These compute to `compare`, which `ground` and `grind` read with no lemma listed.
abbrev pub leb : ℕ → ℕ → Bool
leb a b = elim (compare a b) [ Ordering.gt ↦ false | _ ↦ true ]

infix 50 ◌==◌
abbrev pub ◌==◌ : ℕ → ℕ → Bool
a == b = elim (compare a b) [ Ordering.eq ↦ true | _ ↦ false ]

infix 1 if◌then◌else◌
abbrev pub if◌then◌else◌ {ℓ} : {A : Type ℓ} → Bool → A → A → A
if true then x else y = x
if false then x else y = y

pub Bool-cases : (b : Bool) → (b ≡ true) ⊎ (b ≡ false)
Bool-cases true = inl refl
Bool-cases false = inr refl

pub Option-cases {ℓ} : {A : Type ℓ} (o : Option A) → (o ≡ none) ⊎ ((a : A) × (o ≡ some a))
Option-cases none = inl refl
Option-cases (some a) = inr (a, refl)

pub ==-refl : (a : ℕ) → (a == a) ≡ true
==-refl a = ground arith

pub ==-false_of_ne : (a b : ℕ) → a ≢ b → (a == b) ≡ false
==-false_of_ne a b h = ground arith

pub leb_of_le : (a b : ℕ) → a ≤ b → leb a b ≡ true
leb_of_le a b h = ground arith

module _ {ℓ} {A : Type ℓ} where
  abbrev pub length : List A → ℕ
  length [] = 0
  length (x ∷ xs) = suc (length xs)

  abbrev pub replicate : ℕ → A → List A
  replicate zero a = []
  replicate (suc n) a = a ∷ replicate n a

  pub length-replicate : (n : ℕ) (a : A) → length (replicate n a) ≡ n
  length-replicate zero a = refl
  length-replicate (suc n) a = ap suc (length-replicate n a)

pub length-map {ℓ κ} :
    {A : Type ℓ} {B : Type κ} (xs : List A) (f : A → B) → length (map f xs) ≡ length xs
length-map [] f = refl
length-map (x ∷ xs) f = ap suc (length-map xs f)

-- Of two powers of two the smaller divides the greater.
two_pow-dvd : (j k : ℕ) → 2 ^ j ≤ 2 ^ k → 2 ^ j ∣ 2 ^ k
two_pow-dvd zero k h = one-dvd (2 ^ k)
two_pow-dvd (suc j) zero h = absurd (omega (arith, pow-suc 2 j, one-le-pow j 2 (omega arith)))
two_pow-dvd (suc j) (suc k) h =
    rw (pow-suc 2 j, pow-suc 2 k)
      (mul-dvd-mul_right (2 ^ j) (two_pow-dvd j k (omega (arith, pow-suc 2 j, pow-suc 2 k))) 2)

-- So an address that is a multiple of one alignment is a multiple of every smaller one.
pub aligned_down : (a j k : ℕ) → a % (2 ^ k) ≡ 0 → 2 ^ j ≤ 2 ^ k → a % (2 ^ j) ≡ 0
aligned_down a j k h le =
    mod-eq-zero_of_dvd (2 ^ j)
      (dvd_trans (2 ^ j) (two_pow-dvd j k le) (dvd_of_mod-eq-zero (2 ^ k) h))

pub aligned_add : (a b n : ℕ) → a % n ≡ 0 → b % n ≡ 0 → (a + b) % n ≡ 0
aligned_add a b n h k =
    mod-eq-zero_of_dvd n (dvd-add n (dvd_of_mod-eq-zero n h) (dvd_of_mod-eq-zero n k))

pub aligned_pow : (j k : ℕ) → 2 ^ j ≤ 2 ^ k → 2 ^ k % (2 ^ j) ≡ 0
aligned_pow j k le = mod-eq-zero_of_dvd (2 ^ j) (two_pow-dvd j k le)

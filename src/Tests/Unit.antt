-- ===== src/Tests/Unit.antt =====
-- The crate's own unit tests, as computations that end with no fault if the test passes.
mod Storages
mod Alignment
mod Objects
mod Futures
use dyn_utils.Prelude.{
  ℕ, Bool, true, false, ◌==◌, ◌&&◌, if◌then◌else◌, Option, none, some, ◌⊎◌, inl, inr, List, [], ◌∷◌,
}
use dyn_utils.Memory.{Bytes, Exec, panicked, pure, raise}

-- `assert!`
abbrev pub assert : Bool → Exec (Unit {0})
assert b = if b then pure tt else raise panicked

abbrev pub unwrap : {A : Type 0} → Option A → Exec A
unwrap none = raise panicked
unwrap (some a) = pure a

-- `unwrap` and `unwrap_err` of a `Result`.
abbrev pub unwrap_ok : {A B : Type 0} → A ⊎ B → Exec A
unwrap_ok (inl a) = pure a
unwrap_ok (inr b) = raise panicked

abbrev pub unwrap_err : {A B : Type 0} → A ⊎ B → Exec B
unwrap_err (inl a) = raise panicked
unwrap_err (inr b) = pure b

abbrev pub is_none : {A : Type 0} → Option A → Bool
is_none none = true
is_none (some a) = false

abbrev pub bytes_eq : Bytes → Bytes → Bool
bytes_eq [] [] = true
bytes_eq (a ∷ v) (b ∷ w) = a == b && bytes_eq v w
bytes_eq _ _ = false

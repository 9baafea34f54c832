-- ===== src/Macros/DynCall.antt =====
-- The code of both attributes together: a call of a method of the dyn trait on a `DynObject`. The
-- function in the vtable calls the method that `dyn_trait` has written for the stored type.
pub mod Laws
pub mod Life
pub mod Immediate
use text.Mathlib.Text.{◌==◌ as str_eq}
use dyn_utils.Prelude.{ℕ, Option, none, some, if◌then◌else◌, List, [], ◌∷◌}
use dyn_utils.Memory.{Bytes, RustType, Exec, undefined_behaviour, pure, raise, ◌>>=◌}
use dyn_utils.Storage.{Storage}
use dyn_utils.Macros.Syntax.{Exprs, Ident, ImplItemFn}
use dyn_utils.Macros.DynTrait.{DynTraitOutput}
use dyn_utils.Macros.DynTrait.Written.{impl_fns}
use dyn_utils.Macros.DynObject.{DynObjectOutput}
use dyn_utils.Macros.Dispatch.{Methods, dispatch}
use dyn_utils.Macros.Meaning.{Env, Value, eval}

unfoldable pub find_impl : Ident → List ImplItemFn → Option ImplItemFn
find_impl name [] = none
find_impl name (f ∷ fs) = if str_eq f.sig.ident name then some f else find_impl name fs

module _ {F Out : Type 0} where
  unfoldable pub run_impl : Env F Out → Option ImplItemFn → Exec (Value F Out)
  run_impl env none = raise undefined_behaviour
  run_impl env (some f) = eval env f.block

  -- A method on `&self` of the implementation for the stored type, at a value of that type: it
  -- leaves the value as it is, and replies with what is still to run. The constants and methods that
  -- its body finds are those of the value.
  abbrev pub written_methods : DynTraitOutput → (Bytes → Env F Out) → Methods (Exec (Value F Out))
  written_methods written env name args v =
      (v, run_impl (env v) (find_impl name (impl_fns written.impl_items)))

  -- A call of a method on `&self` on the object.
  unfoldable pub call_dyn :
      {S : Type 0}
      → Storage S
      → RustType
      → DynTraitOutput
      → DynObjectOutput
      → (Bytes → Env F Out)
      → Ident
      → ℕ
      → S
      → Exec (S × Value F Out)
  unfolding run_impl
  call_dyn st T written object env name self s = do
    (s, run) ← dispatch st T (written_methods written env) object name self s
    value ← run
    pure (s, value)

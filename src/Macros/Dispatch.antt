-- ===== src/Macros/Dispatch.antt =====
-- What the code that `dyn_object` writes does when it runs: a call of a trait method on a
-- `DynObject`, through the storage accessor and the vtable function that are written for it.
pub mod Laws
use text.Mathlib.Text.{◌==◌ as str_eq}
use mathlib.Core.Option.{map as option_map}
use dyn_utils.Prelude.{ℕ, Bool, true, false, ◌&&◌, Option, none, some, if◌then◌else◌, List, [], ◌∷◌}
use dyn_utils.Memory.{Bytes, RustType, Exec, undefined_behaviour, pure, raise, ◌>>=◌}
use dyn_utils.Storage.{Storage, as_pinned_mut}
use dyn_utils.Object.Call.{call_ref, call_mut}
use dyn_utils.Macros.Syntax.{Exprs, Ident, more_exprs, no_exprs}
use dyn_utils.Macros.DynObject.{DynObjectOutput}
use dyn_utils.Macros.DynObject.Vtable.{ObjectMethod, VtableMethod, accessor}

-- The methods of the stored type by name: what becomes of its bytes, and the reply.
abbrev pub Methods : Type 0 → Type 0
Methods A = Ident → Exprs → Bytes → Bytes × A

unfoldable pub find_vtable : Ident → List VtableMethod → Option VtableMethod
find_vtable name [] = none
find_vtable name (w ∷ ws) = if str_eq w.name name then some w else find_vtable name ws

unfoldable pub find_object : Ident → List ObjectMethod → Option ObjectMethod
find_object name [] = none
find_object name (o ∷ os) = if str_eq o.sig.ident name then some o else find_object name os

-- The arguments that the function in the vtable passes on: its parameters are the expressions that it
-- calls the method with, so that they are those it is given. `none` stands for a call with another
-- number of them than it has parameters.
unfoldable pub pass_args : Exprs → Exprs → Option Exprs
pass_args no_exprs no_exprs = some no_exprs
pass_args (more_exprs p ps) (more_exprs e es) = option_map (more_exprs e) (pass_args ps es)
pass_args _ _ = none

module _ {S A : Type 0} (st : Storage S) (T : RustType) where
  -- The object hands its storage over by `storage`, `storage_mut` or `storage_pinned_mut`, and the
  -- function in the vtable reaches the value by `as_ref`, `as_mut` or `as_pinned_mut`. The function
  -- is called at another type than it has if the two do not go together.
  unfoldable pub reach : Option Ident → Option Ident → (Bytes → Bytes × A) → ℕ → S → Exec (S × A)
  reach (some given) (some wanted) method self s =
      if str_eq given "storage" && str_eq wanted "as_ref"
      then (do reply ← call_ref st T (λ v. (method v).1) self s; pure (s, reply))
      else if str_eq given "storage_mut" && str_eq wanted "as_mut"
      then call_mut st T st.as_mut method self s
      else if str_eq given "storage_pinned_mut" && str_eq wanted "as_pinned_mut"
      then call_mut st T (as_pinned_mut st) method self s
      else raise undefined_behaviour
  reach _ _ method self s = raise undefined_behaviour

  -- The method that is written for the object reads the field of the vtable that it names; the
  -- function there calls the method of the stored type that it names, with the arguments that it is
  -- given. A function that has another number of parameters is called at another type than it has.
  abbrev pub call_passed :
      Methods A → VtableMethod → ObjectMethod → Option Exprs → ℕ → S → Exec (S × A)
  call_passed methods w o none self s = raise undefined_behaviour
  call_passed methods w o (some args) self s =
      reach o.self_as w.self_as (methods w.name args) self s

  unfoldable pub call_found : Methods A → Option VtableMethod → ObjectMethod → ℕ → S → Exec (S × A)
  unfolding pass_args
  call_found methods none o self s = raise undefined_behaviour
  call_found methods (some w) o self s = call_passed methods w o (pass_args w.args o.args) self s

  unfoldable pub call_method :
      Methods A → DynObjectOutput → Option ObjectMethod → ℕ → S → Exec (S × A)
  call_method methods out none self s = raise undefined_behaviour
  call_method methods out (some o) self s =
      call_found methods (find_vtable o.field out.vtable_methods) o self s

  -- A call of the trait's method `name` on the object.
  unfoldable pub dispatch : Methods A → DynObjectOutput → Ident → ℕ → S → Exec (S × A)
  unfolding find_vtable find_object pass_args reach call_found call_method
  dispatch methods out name self s =
      call_method methods out (find_object name out.impl_methods) self s

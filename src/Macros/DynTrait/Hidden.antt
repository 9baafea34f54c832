-- ===== src/Macros/DynTrait/Hidden.antt =====
-- macros/src/dyn_trait.rs: what `add_method` leaves as it is, and the signature that a method keeps.
use dyn_utils.Prelude.{Bool, true, false, Option, none, some, ◌≡◌, refl, sym, ap, List, map}
use dyn_utils.Macros.Shared.{success-bind, success-injective}
use dyn_utils.Macros.Syntax.{Ident, SynPath, TraitItemFn, success, Bounds}
use dyn_utils.Macros.Utils.{return_type}
use dyn_utils.Macros.Sync.{Casing}
use dyn_utils.Macros.DynTrait.{DynTrait, add_method}
use dyn_utils.Macros.DynTrait.Attrs.{impl_bounds}
use dyn_utils.Macros.DynTrait.Method.{
  DynMethod, argument_as_arg, desugar_async, finish_method, new_method, sync_method,
}

-- What the loop never changes: whether the trait is written again, and its path.
abbrev pub fixed : DynTrait → Bool × SynPath
fixed self = (self.include_trait, self.remote)

pub fixed-add_method :
    (casing : Casing) (self self1 : DynTrait) (m : DynMethod) (maybe_sync : Bool)
    → add_method casing self m maybe_sync ≡ success self1
    → fixed self1 ≡ fixed self
unfolding add_method
fixed-add_method casing self self1 m false eq = ap (λ s. fixed s) (sym (success-injective eq))
fixed-add_method casing self self1 m true eq =
    let (hidden, _, eq1) = success-bind (sync_method m) _ _ eq in
    ap (λ s. fixed s) (sym (success-injective eq1))

pub orig_sig-new_method :
    (casing : Casing) (crate_ : SynPath) (gs : List Ident) (method : TraitItemFn)
    → (new_method casing crate_ gs method).orig_sig ≡ method.sig
unfolding new_method
orig_sig-new_method casing c gs method =
    finished _
      (impl_bounds (
        return_type
          (desugar_async record method.sig { inputs = map argument_as_arg method.sig.inputs })))
      _
  where
    finished :
        (m : TraitItemFn) (rpit : Option Bounds) (name : Ident)
        → (finish_method c gs method.sig m rpit name).orig_sig ≡ method.sig
    finished m none name = refl
    finished m (some bs) name = refl

-- ===== src/Macros/DynTrait/Parameters.antt =====
-- macros/src/dyn_trait.rs: the storage parameter of one method.
use Prim.Native.String.{◌++◌ as str_append}
use mathlib.Core.List.{map-append, append-nil}
use dyn_utils.Prelude.{
  Bool, true, false, ◌||◌, Option, none, some, ◌≡◌, refl, sym, ap, ◌∙◌, if◌then◌else◌, List, [],
  ◌∷◌, ◌++◌, map,
}
use dyn_utils.Macros.Syntax.{
  Bounds, GenericParam, Ident, Signature, SynPath, TraitItemFn, const_param, lifetime_param,
  no_arguments, no_bounds, trait_bound, type_param,
}
use dyn_utils.Macros.Utils.{is_some, path_append, return_type}
use dyn_utils.Macros.Sync.{Casing}
use dyn_utils.Macros.DynTrait.{extend_option}
use dyn_utils.Macros.DynTrait.Attrs.{has_rpit, impl_bounds}
use dyn_utils.Macros.DynTrait.Selection.{ident-desugar_async}
use dyn_utils.Macros.DynTrait.Method.{
  argument_as_arg, desugar_async, finish_method, generic_storage, new_method, storage_name,
}

-- `#storage: #crate_::storage::Storage`
abbrev pub storage_param : SynPath → Ident → GenericParam
storage_param crate_ name =
    type_param name
      (trait_bound (path_append (path_append crate_ "storage" no_arguments) "Storage" no_arguments)
        no_bounds)
      none

abbrev pub forget_default : GenericParam → GenericParam
forget_default (lifetime_param lt bs) = lifetime_param lt bs
forget_default (type_param i bs d) = type_param i bs none
forget_default (const_param i ty d) = const_param i ty none

abbrev pub param_if : Bool → GenericParam → List GenericParam
param_if true p = p ∷ []
param_if false p = []

-- A method returns an `impl Trait` after its `async` is removed exactly if it has one before.
is_some-if :
    (b : Bool) (x y : Signature)
    → is_some (impl_bounds (return_type x)) ≡ true
    → is_some (impl_bounds (return_type (if b then x else y)))
      ≡ (b || is_some (impl_bounds (return_type y)))
is_some-if true x y h = h
is_some-if false x y h = refl

pub has_rpit-desugar_async :
    (sig : Signature) → is_some (impl_bounds (return_type (desugar_async sig))) ≡ has_rpit sig
unfolding desugar_async has_rpit return_type impl_bounds
has_rpit-desugar_async sig = is_some-if sig.is_async _ sig refl

storages-finish_method :
    (crate_ : SynPath) (gs : List Ident) (sig : Signature) (method : TraitItemFn)
    (rpit : Option Bounds) (name : Ident) (given : Option SynPath) (ps : List GenericParam)
    → map forget_default
        (extend_option ps (generic_storage (finish_method crate_ gs sig method rpit name) given))
      ≡ map forget_default ps ++ param_if (is_some rpit) (storage_param crate_ name)
unfolding generic_storage
storages-finish_method c gs sig m none name given ps = sym (append-nil _)
storages-finish_method c gs sig m (some bs) name given ps = map-append forget_default ps _

pub storages-new_method :
    (casing : Casing) (crate_ : SynPath) (gs : List Ident) (method : TraitItemFn)
    (given : Option SynPath) (ps : List GenericParam)
    → map forget_default
        (extend_option ps (generic_storage (new_method casing crate_ gs method) given))
      ≡ map forget_default ps
        ++ param_if (has_rpit method.sig) (storage_param crate_ (storage_name casing method.sig))
unfolding new_method has_rpit return_type
storages-new_method casing c gs method given ps =
    let sig : Signature = record method.sig { inputs = map argument_as_arg method.sig.inputs } in
    storages-finish_method c gs method.sig _ (impl_bounds (return_type (desugar_async sig)))
      (storage_name casing (desugar_async sig)) given ps
    ∙ ap
        (λ b.
          map forget_default ps
          ++ param_if b (storage_param c (storage_name casing (desugar_async sig))))
        (has_rpit-desugar_async sig)
    ∙ ap
        (λ i.
          map forget_default ps
          ++ param_if (has_rpit sig)
              (storage_param c (str_append "__Storage" (casing.to_pascal_case i))))
        (ident-desugar_async sig)

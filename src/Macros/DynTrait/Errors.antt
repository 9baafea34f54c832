-- ===== src/Macros/DynTrait/Errors.antt =====
-- macros/src/dyn_trait.rs: what can be wrong with a trait that `dyn_trait` is put on.
use dyn_utils.Prelude.{
  Bool, true, false, ◌&&◌, not, Option, none, some, if◌then◌else◌, List, [], ◌∷◌,
}
use dyn_utils.Macros.Agrees.{or_else}
use dyn_utils.Macros.Syntax.{
  Attribute, ItemTrait, MacroError, MetaItem, Signature, TraitAttribute, TraitItem, TraitItemFn,
  dyn_trait_attribute, fn_item, generics_with_dyn_object, list_attribute, maybe_sync_item,
  not_a_list, not_async_method, not_on_rpit, other_attribute, plain_attribute, storage_item,
  unknown_attribute, unknown_item, unreadable_item, list_tokens, macro_panicked,
}
use dyn_utils.Macros.Utils.{is_dispatchable, is_empty, is_some, return_type}
use dyn_utils.Macros.Sync.{Casing}
use dyn_utils.Macros.DynTrait.{DynTraitOpts, any_dyn_object, is_dyn_trait_path, template_name}
use dyn_utils.Macros.DynTrait.Attrs.{has_rpit, impl_bounds}
use dyn_utils.Macros.DynTrait.Attrs.Laws.{any_maybe_sync, dyn_metas}
use dyn_utils.Macros.DynTrait.Method.{rpit_output}
use dyn_utils.Macros.DynTrait.Original.{wrapped}

-- What is wrong in the items of one `dyn_trait` attribute, and in all attributes of a method, by
-- whether it returns an `impl Trait`.
abbrev pub metas_error : List MetaItem → Option MacroError
metas_error [] = none
metas_error (storage_item p ∷ items) = metas_error items
metas_error (maybe_sync_item ∷ items) = metas_error items
metas_error (unknown_item i ∷ items) = some unknown_attribute
metas_error (unreadable_item e ∷ items) = some e

abbrev pub attrs_error : Bool → List Attribute → Option MacroError
attrs_error rpit [] = none
attrs_error rpit (other_attribute s ∷ attrs) = attrs_error rpit attrs
attrs_error true (dyn_trait_attribute items ∷ attrs) =
    or_else (metas_error items) (attrs_error true attrs)
attrs_error false (dyn_trait_attribute items ∷ attrs) = some not_on_rpit

-- A `maybe_sync` method is async, or returns an `impl Future` with an output.
abbrev pub gives_future : Signature → Bool
gives_future sig =
    if sig.is_async then true else is_some (rpit_output (impl_bounds (return_type sig)))

abbrev pub maybe_sync_error : Bool → Signature → Option MacroError
maybe_sync_error true sig = if gives_future sig then none else some not_async_method
maybe_sync_error false sig = none

abbrev pub method_error : TraitItemFn → Option MacroError
method_error method =
    or_else (attrs_error (has_rpit method.sig) method.attrs)
      (maybe_sync_error (any_maybe_sync (dyn_metas method.attrs)) method.sig)

-- An item that is not taken over is not looked at.
abbrev pub item_error : TraitItem → Option MacroError
item_error (fn_item method) = if is_dispatchable method then method_error method else none
item_error _ = none

abbrev pub first_error : List TraitItem → Option MacroError
first_error [] = none
first_error (item ∷ items) = or_else (item_error item) (first_error items)

-- Every `dyn_trait` attribute on the trait has a list, which is one attribute.
abbrev pub trait_attrs_error : List TraitAttribute → Option MacroError
trait_attrs_error [] = none
trait_attrs_error (list_attribute p inner ∷ attrs) = trait_attrs_error attrs
trait_attrs_error (list_tokens p s ∷ attrs) =
    if is_dyn_trait_path p then some macro_panicked else trait_attrs_error attrs
trait_attrs_error (plain_attribute p s ∷ attrs) =
    if is_dyn_trait_path p then some not_a_list else trait_attrs_error attrs

-- The attributes of the trait, the name that the dyn trait is to have, then the items.
abbrev pub trait_error : Casing → DynTraitOpts → ItemTrait → Option MacroError
trait_error casing opts trait = or_else (trait_attrs_error trait.attrs) (
    if not (is_empty trait.generics) && any_dyn_object (wrapped trait.attrs)
    then some generics_with_dyn_object
    else if not (casing.is_ident (template_name casing trait.ident opts))
    then some macro_panicked
    else first_error trait.items)

-- ===== src/Macros/DynTrait/Attrs.antt =====
-- macros/src/dyn_trait.rs: the attributes of a method, `MethodAttrs`.
use dyn_utils.Prelude.{Bool, true, false, ◌||◌, Option, none, some, List, [], ◌∷◌}
use dyn_utils.Macros.Syntax.{
  ◌>>=◌, Attribute, Bounds, MetaItem, SynPath, Result, RustSyntax, Signature, TraitItemFn,
  dyn_trait_attribute, failure, impl_trait, maybe_sync_item, not_on_rpit, other_attribute,
  storage_item, success, unknown_attribute, unknown_item, unreadable_item,
}
use dyn_utils.Macros.Utils.{is_some, return_type}
pub mod Laws

pub record MethodAttrs : Type 0 where
  pub storage : Option SynPath
  pub maybe_sync : Bool

unfoldable pub default_attrs : MethodAttrs
default_attrs = record { storage = none; maybe_sync = false }

-- The bounds of an `impl Trait` type.
unfoldable pub impl_bounds : Option RustSyntax → Option Bounds
impl_bounds (some (impl_trait bs)) = some bs
impl_bounds _ = none

unfoldable pub has_rpit : Signature → Bool
has_rpit sig = sig.is_async || is_some (impl_bounds (return_type sig))

unfoldable pub parse_nested_meta : MethodAttrs → List MetaItem → Result MethodAttrs
parse_nested_meta attrs [] = success attrs
parse_nested_meta attrs (storage_item p ∷ items) =
    parse_nested_meta record attrs { storage = some p } items
parse_nested_meta attrs (maybe_sync_item ∷ items) =
    parse_nested_meta record attrs { maybe_sync = true } items
parse_nested_meta attrs (unknown_item i ∷ items) = failure unknown_attribute
parse_nested_meta attrs (unreadable_item e ∷ items) = failure e

-- The attributes that stay on the method come second.
unfoldable pub parse_attributes :
    Bool → MethodAttrs → List Attribute → Result (MethodAttrs × List Attribute)
parse_attributes rpit attrs [] = success (attrs, [])
parse_attributes rpit attrs (other_attribute s ∷ as1) =
    parse_attributes rpit attrs as1 >>= λ rest. success (rest.0, other_attribute s ∷ rest.1)
parse_attributes true attrs (dyn_trait_attribute items ∷ as1) =
    parse_nested_meta attrs items >>= λ attrs1. parse_attributes true attrs1 as1
parse_attributes false attrs (dyn_trait_attribute items ∷ as1) = failure not_on_rpit

-- The method loses the attributes that are read.
unfoldable pub parse_attrs : TraitItemFn → Result (MethodAttrs × TraitItemFn)
parse_attrs method = parse_attributes (has_rpit method.sig) default_attrs method.attrs >>= λ parsed.
    success (parsed.0, record method { attrs = parsed.1 })

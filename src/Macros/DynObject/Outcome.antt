-- ===== src/Macros/DynObject/Outcome.antt =====
-- macros/src/dyn_object.rs: when `dyn_object` succeeds, and the error that it reports if not.
use dyn_utils.Prelude.{Option, none, some, if◌then◌else◌, ◌≡◌, ◌⊎◌, inl, inr, refl, List, [], ◌∷◌}
use dyn_utils.Macros.Syntax.{
  ItemTrait, MacroError, SynPath, TraitItem, const_item, failure, fn_item, generic_assoc_type,
  not_dispatchable, success, type_item, unsupported_item, verbatim_item,
}
use dyn_utils.Macros.Utils.{is_dispatchable, is_empty}
use dyn_utils.Macros.Agrees.{Agrees, Agrees-bind, Agrees-cases, Agrees-if, Agrees-map, or_else}
use dyn_utils.Macros.DynObject.{
  DynObject, DynObjectOps, DynObjectOutput, dyn_object_impl, new, parse_item, parse_items,
  quote_dyn_object,
}
use dyn_utils.Macros.DynObject.Laws.{ForMethods, dyn_object_impl-ForMethods, fn_items}

-- What is wrong with an item.
abbrev pub item_error : TraitItem → Option MacroError
item_error (fn_item method) = if is_dispatchable method then none else some not_dispatchable
item_error (type_item ty) = if is_empty ty.params then none else some generic_assoc_type
item_error (const_item k) = some unsupported_item
item_error (verbatim_item s) = some unsupported_item

-- What is wrong with the first item that has something wrong.
abbrev pub first_error : List TraitItem → Option MacroError
first_error [] = none
first_error (item ∷ items) = or_else (item_error item) (first_error items)

parse_item-Agrees :
    (self : DynObject) (item : TraitItem) → Agrees (item_error item) (parse_item self item)
unfolding parse_item
parse_item-Agrees self (fn_item method) = Agrees-if (is_dispatchable method) not_dispatchable _
parse_item-Agrees self (type_item ty) = Agrees-if (is_empty ty.params) generic_assoc_type _
parse_item-Agrees self (const_item k) = refl
parse_item-Agrees self (verbatim_item s) = refl

parse_items-Agrees :
    (items : List TraitItem) (self : DynObject)
    → Agrees (first_error items) (parse_items self items)
unfolding parse_items
parse_items-Agrees [] self = (self, refl)
parse_items-Agrees (item ∷ items) self =
    Agrees-bind (item_error item) (first_error items) (parse_item self item) _
      (parse_item-Agrees self item) (λ self1 parsed. parse_items-Agrees items self1)

module _ (crate_name : SynPath) (trait : ItemTrait) (opts : DynObjectOps) where
  dyn_object_impl-Agrees : Agrees (first_error trait.items) (dyn_object_impl crate_name trait opts)
  unfolding dyn_object_impl
  dyn_object_impl-Agrees =
      Agrees-map (first_error trait.items) _ quote_dyn_object
        (parse_items-Agrees trait.items (new crate_name trait opts))

  -- `dyn_object` always ends in one of two ways. If nothing is wrong with any item it succeeds, and
  -- what it writes for the methods is complete; else it fails with what is wrong with the first
  -- item that has something wrong: a method that is not dispatchable, an associated type with
  -- parameters, or an item of another kind.
  pub dyn_object_impl_cases :
      ((first_error trait.items ≡ none)
        × (out : DynObjectOutput) × (dyn_object_impl crate_name trait opts ≡ success out)
        × ForMethods (fn_items trait.items) out)
      ⊎ ((e : MacroError) × (first_error trait.items ≡ some e)
          × (dyn_object_impl crate_name trait opts ≡ failure e))
  dyn_object_impl_cases = elim (Agrees-cases (first_error trait.items) _ dyn_object_impl-Agrees) [
    | inl (none_wrong, out, made) ↦
        inl (none_wrong, out, made, dyn_object_impl-ForMethods crate_name trait opts out made)
    | inr (e, wrong, failed) ↦ inr (e, wrong, failed)
  ]

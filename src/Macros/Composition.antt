-- ===== src/Macros/Composition.antt =====
-- The attributes together: `dyn_object` on the trait that `dyn_trait` writes, as the attribute
-- `#[dyn_trait(dyn_object)]` of a trait asks for.
use dyn_utils.Prelude.{true, none, ◌≡◌, refl, sym, subst, ◌∙◌, List, [], ◌∷◌, inl, inr}
use dyn_utils.Macros.Shared.{and_left, and_right}
use dyn_utils.Macros.Agrees.{or_else}
use dyn_utils.Macros.Syntax.{
  ItemTrait, SynPath, TraitItem, const_item, fn_item, no_bounds, success, type_item, verbatim_item,
}
use dyn_utils.Macros.Utils.{
  all, has_dyn_trait_receiver, is_dispatchable, is_empty, is_lifetime_param, is_not_generic,
}
use dyn_utils.Macros.Sync.{Casing}
use dyn_utils.Macros.DynTrait.{DynTraitOpts, DynTraitOutput, dyn_trait_impl}
use dyn_utils.Macros.DynTrait.Compatible.{callable, compatible, dyn_trait_impl-compatible}
use dyn_utils.Macros.DynTrait.Header.{dyn_trait_impl-header, is_trait_header, quote_header}
use dyn_utils.Macros.DynObject.{DynObjectOps, DynObjectOutput, dyn_object_impl}
use dyn_utils.Macros.DynObject.Laws.{ForMethods, fn_items}
use dyn_utils.Macros.DynObject.Outcome.{dyn_object_impl_cases, first_error, item_error}

compatible-item_error : (item : TraitItem) → compatible item ≡ true → item_error item ≡ none
unfolding is_dispatchable is_not_generic
compatible-item_error (type_item ty) h = rw (and_left (is_empty ty.params) _ h) refl
compatible-item_error (fn_item method) h =
    let c = and_left (callable method.sig) _ (and_right _ _ h) in
    let receiver = and_left (has_dyn_trait_receiver method.sig.receiver) _ c in
    let generics = and_left (all is_lifetime_param method.sig.generics) _ (and_right _ _ c) in
    rw (receiver, generics) refl
compatible-item_error (const_item k) h = cc
compatible-item_error (verbatim_item s) h = cc

compatible-first_error :
    (items : List TraitItem) → all compatible items ≡ true → first_error items ≡ none
compatible-first_error [] h = refl
compatible-first_error (item ∷ items) h =
    subst (λ o. or_else o (first_error items) ≡ none)
      (sym (compatible-item_error item (and_left _ _ h)))
      (compatible-first_error items (and_right _ _ h))

accepted_by_dyn_object :
    (crate_name : SynPath) (trait : ItemTrait) (opts : DynObjectOps)
    → all compatible trait.items ≡ true
    → (object : DynObjectOutput) × (dyn_object_impl crate_name trait opts ≡ success object)
      × ForMethods (fn_items trait.items) object
accepted_by_dyn_object crate_name trait opts h =
    elim (dyn_object_impl_cases crate_name trait opts) [
      | inl (_, object, eq, for_methods) ↦ (object, eq, for_methods)
      | inr (e, found, _) ↦ cc (sym (compatible-first_error trait.items h) ∙ found)
    ]

-- Let `dyn_trait` succeed on a trait that has no supertraits. What it writes then has the syntax of a
-- trait, and `dyn_object` succeeds on that trait, whatever its options, and writes a vtable entry and
-- a method for each of its methods.
pub dyn_object_impl-dyn_trait_impl :
    (casing : Casing) (crate_name crate_name1 : SynPath) (trait : ItemTrait) (opts : DynTraitOpts)
    (opts1 : DynObjectOps) (out : DynTraitOutput)
    → dyn_trait_impl casing crate_name trait opts ≡ success out
    → trait.supertraits ≡ no_bounds
    → (is_trait_header (quote_header out.dyn_trait) ≡ true)
      × (object : DynObjectOutput) × (dyn_object_impl crate_name1 out.dyn_trait opts1
          ≡ success object)
      × ForMethods (fn_items out.dyn_trait.items) object
dyn_object_impl-dyn_trait_impl casing crate_name crate_name1 trait opts opts1 out h none_above =
    let (object, eq, for_methods) =
      accepted_by_dyn_object crate_name1 out.dyn_trait opts1
        (dyn_trait_impl-compatible casing crate_name trait opts out h) in
    (
      (dyn_trait_impl-header casing crate_name trait opts out h).1 none_above,
      object,
      eq,
      for_methods,
    )

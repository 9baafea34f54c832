-- ===== src/Macros/DynTrait/Output.antt =====
-- What `dyn_trait_impl` of macros/src/dyn_trait.rs has computed when it succeeds.
use dyn_utils.Prelude.{not, ◌&&◌, ◌≡◌, ◌++◌, List}
use dyn_utils.Macros.Shared.{if-failure, success-bind, success-injective}
use dyn_utils.Macros.Syntax.{
  ItemTrait, SynPath, TraitAttribute, TraitItem, generics_with_dyn_object, macro_panicked, success,
}
use dyn_utils.Macros.Utils.{is_empty}
use dyn_utils.Macros.Sync.{Casing}
use dyn_utils.Macros.DynTrait.{
  DynTrait, DynTraitOpts, DynTraitOutput, any_dyn_object, template_name, dyn_trait_impl,
  extract_dyn_trait_attrs, new, parse_items, quote_dyn_trait,
}

pub dyn_trait_impl_output :
    (casing : Casing) (crate_name : SynPath) (trait : ItemTrait) (opts : DynTraitOpts)
    (out : DynTraitOutput)
    → dyn_trait_impl casing crate_name trait opts ≡ success out
    → (extracted : List TraitAttribute × List TraitAttribute) × (extract_dyn_trait_attrs trait.attrs
        ≡ success extracted)
      × (parsed : DynTrait × List TraitItem) × (parse_items casing
            (new casing crate_name record trait { attrs = extracted.1 } opts)
            trait.items
          ≡ success parsed)
      × (quote_dyn_trait
            record trait {
              attrs = extracted.1;
              items = parsed.1 ++ parsed.0.additional_trait_items;
            }
            extracted.0
            parsed.0
          ≡ out)
unfolding dyn_trait_impl
dyn_trait_impl_output casing crate_name trait opts out eq =
    let (extracted, read, eq1) = success-bind (extract_dyn_trait_attrs trait.attrs) _ _ eq in
    let unguarded =
      if-failure (not (is_empty trait.generics) && any_dyn_object extracted.0)
        generics_with_dyn_object _ _ eq1 in
    let named =
      if-failure (not (casing.is_ident (template_name casing trait.ident opts))) macro_panicked _ _
        unguarded in
    let (parsed, done, eq2) = success-bind _ _ _ named in
    (extracted, read, parsed, done, success-injective eq2)

-- ===== src/Tests/Written.antt =====
-- What `dyn_trait` writes for a concrete trait, beside its items.
use dyn_utils.Prelude.{some, none, ◌≡◌, if◌then◌else◌, List, [], ◌∷◌, ◌++◌, map}
use dyn_utils.Macros.Parts.{unwrap_or}
use dyn_utils.Macros.Syntax.{GenericParam, no_arguments, segment}
use dyn_utils.Macros.Utils.{has_dyn_trait_receiver, is_dispatchable, is_lifetime_param, is_none}
use dyn_utils.Macros.DynTrait.{doc_link, doc_text, type_params}
use dyn_utils.Macros.DynTrait.Written.{dyn_trait_impl-methods, impl_fns, written_dyn, written_impl}
use dyn_utils.Macros.DynObject.Laws.{fn_items}
use dyn_utils.Macros.DynTrait.Parameters.{forget_default}
use dyn_utils.Macros.DynTrait.Storages.{dyn_trait_impl-storages, storage_params}
use dyn_utils.Macros.DynTrait.Leftover.{hidden_items, kept}
use dyn_utils.Macros.DynTrait.Original.{dyn_trait_impl-original, unwrapped, wrapped}
use dyn_utils.Tests.Macros.{
  casing, crate_path, len, push, sink, trait_opts, written_trait, written_trait-success,
}

dyn_trait_impl-storages_example :
    (written_trait.dyn_trait.generics ≡ written_trait.impl_type_generics)
    × ((storages : List GenericParam) × (written_trait.dyn_trait.generics ≡ [] ++ storages)
        × (map forget_default storages
            ≡ storage_params casing (unwrap_or trait_opts.crate_ crate_path) sink.items))
dyn_trait_impl-storages_example =
    dyn_trait_impl-storages casing crate_path sink trait_opts written_trait written_trait-success

dyn_trait_impl-original_example :
    (written_trait.docs
      ≡ doc_text "Dyn-compatible implementation of"
        ∷ doc_link sink.ident (unwrap_or trait_opts.remote (segment sink.ident no_arguments))
        ∷ [])
    × (written_trait.dyn_trait.attrs ≡ wrapped sink.attrs)
    × (written_trait.opt_trait ≡ (
        if is_none trait_opts.remote
        then some (record sink {
          attrs = unwrapped sink.attrs;
          items = map kept sink.items ++ hidden_items casing sink.items;
        })
        else none))
dyn_trait_impl-original_example =
    dyn_trait_impl-original casing crate_path sink trait_opts written_trait written_trait-success

dyn_trait_impl-methods_example :
    (fn_items written_trait.dyn_trait.items
      ≡ map
          (written_dyn casing (unwrap_or trait_opts.crate_ crate_path) (type_params sink.generics))
          (push ∷ len ∷ []))
    × (impl_fns written_trait.impl_items
        ≡ map
            (written_impl casing
              (unwrap_or trait_opts.crate_ crate_path)
              (type_params sink.generics))
            (push ∷ len ∷ []))
unfolding is_dispatchable has_dyn_trait_receiver is_lifetime_param
dyn_trait_impl-methods_example =
    dyn_trait_impl-methods casing crate_path sink trait_opts written_trait written_trait-success

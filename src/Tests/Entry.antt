-- ===== src/Tests/Entry.antt =====
-- The attributes on concrete tokens.
use dyn_utils.Prelude.{none, some, false, true, ◌≡◌, ◌↔◌, ◌⊎◌, refl, List, [], ◌∷◌}
use dyn_utils.Macros.Syntax.{
  ItemTrait, MacroError, Result, failure, no_arguments, no_bounds, segment, success, trait_bound,
  expected_plus, not_dispatchable, dyn_trait_attribute, fn_item, maybe_sync_item, not_on_rpit,
}
use dyn_utils.Macros.DynTrait.{DynTraitMeta, DynTraitOutput, trait_option, crate_option}
use dyn_utils.Macros.DynTrait.Header.{dyn_trait_impl-header, is_trait_header, quote_header}
use dyn_utils.Macros.DynObject
use dyn_utils.Macros.DynObject.{
  DynObjectMeta, DynObjectOps, DynObjectOutput, dyn_object_impl, bounds_option, unknown_option,
  remote_option,
}
use dyn_utils.Macros.DynObject.Laws.{ForMethods, fn_items}
use dyn_utils.Macros.Utils.{has_dyn_trait_receiver, is_dispatchable, is_lifetime_param, return_type}
use dyn_utils.Macros.Entry.{
  crate_name, ArgTokens, default_dyn_object_ops, dyn_object, dyn_object_args, dyn_trait, parse_args,
}
use dyn_utils.Macros.Entry.TraitOptions
use dyn_utils.Macros.Entry.TraitOutcome
use dyn_utils.Macros.DynTrait.Errors.{trait_error}
use dyn_utils.Macros.DynTrait.Attrs.{has_rpit, impl_bounds}
use dyn_utils.Macros.Entry.ObjectOptions.{last_values, parse_args-bounds}
use dyn_utils.Macros.Entry.Laws.{dyn_object_cases, first_error}
use dyn_utils.Tests.Macros.{
  casing, crate_path, len, sink, trait_opts, written_trait, written_trait-success,
}

abbrev no_more : List (Result DynObjectMeta)
no_more = []

parse_args-bounds_example : (no_more ≡ []) × (false ≡ false) × (crate_path ∷ [] ≡ crate_path ∷ [])
unfolding parse_args dyn_object_args DynObject.parse_meta
parse_args-bounds_example =
    parse_args-bounds (success (remote_option crate_path) ∷ []) no_more (crate_path ∷ [])
      (record { bounds = crate_path ∷ []; crate_ = none; remote = some crate_path }) false refl

-- `bounds = ..., remote = ...`
bounds_first :
    parse_args default_dyn_object_ops
      (success (bounds_option (crate_path ∷ [])) ∷ success (remote_option crate_path) ∷ [])
      false
    ≡ failure expected_plus
unfolding parse_args dyn_object_args DynObject.parse_meta
bounds_first = refl

dyn_trait_impl-header_example :
    (is_trait_header (quote_header written_trait.dyn_trait) ≡ true) ↔ (sink.supertraits ≡ no_bounds)
dyn_trait_impl-header_example =
    dyn_trait_impl-header casing crate_path sink trait_opts written_trait written_trait-success

-- `trait Sink: Send`
header_with_supertrait :
    is_trait_header (
      quote_header
        (record sink { supertraits = trait_bound (segment "Send" no_arguments) no_bounds }))
    ≡ false
unfolding is_trait_header quote_header
header_with_supertrait = refl

data Tokens : Type 0 where
  trait_tokens : ItemTrait → Tokens
  other_tokens : Tokens
  written : DynObjectOutput → Tokens
  dyn_trait_tokens : DynTraitOutput → Tokens
  compile_error : MacroError → Tokens

abbrev read_item : Tokens → Result ItemTrait
read_item (trait_tokens trait) = success trait
read_item _ = failure not_dispatchable

-- `bounds = ...`
abbrev read_args : Tokens → ArgTokens DynObjectMeta
read_args tokens = record {
  metas = success (bounds_option (crate_path ∷ [])) ∷ [];
  trailing_comma = false;
}

dyn_object_cases_example :
    ((first_error (read_args other_tokens) sink ≡ none)
      × (out : DynObjectOutput) × (dyn_object_impl crate_name sink
            (last_values (read_args other_tokens).metas)
          ≡ success out)
      × ForMethods (fn_items sink.items) out
      × (dyn_object compile_error read_item read_args written other_tokens (trait_tokens sink)
          ≡ written out))
    ⊎ ((e : MacroError) × (first_error (read_args other_tokens) sink ≡ some e)
        × (dyn_object compile_error read_item read_args written other_tokens (trait_tokens sink)
            ≡ compile_error e))
dyn_object_cases_example =
    dyn_object_cases compile_error read_item read_args written other_tokens (trait_tokens sink) sink
      refl

-- `trait = "One", crate = ..., trait = "Two"`
abbrev read_trait_args : Tokens → ArgTokens DynTraitMeta
read_trait_args tokens = record {
  metas =
      success (trait_option "One")
      ∷ success (crate_option crate_path)
      ∷ success (trait_option "Two")
      ∷ [];
  trailing_comma = true;
}

-- `maybe_sync` on a method that returns no `impl Trait`
plain_maybe_sync :
    trait_error casing trait_opts record sink {
      items = fn_item record len { attrs = dyn_trait_attribute (maybe_sync_item ∷ []) ∷ [] } ∷ [];
    }
    ≡ some not_on_rpit
unfolding is_dispatchable has_dyn_trait_receiver has_rpit impl_bounds return_type is_lifetime_param
plain_maybe_sync = refl

-- ===== src/Macros/DynTrait/Outcome.antt =====
-- macros/src/dyn_trait.rs: when `dyn_trait` succeeds, and the error that it reports if not.
use dyn_utils.Prelude.{
  Bool, true, false, Bool-cases, ◌&&◌, not, Option, none, some, if◌then◌else◌, ◌≡◌, ◌⊎◌, inl, inr,
  refl, sym, ap, subst, List, [], ◌∷◌,
}
use dyn_utils.Macros.Agrees.{Agrees, Agrees-bind, Agrees-cases, Agrees-guard, Agrees-map}
use dyn_utils.Macros.Syntax.{
  Attribute, Ident, ItemTrait, MacroError, MetaItem, RustSyntax, Signature, SynPath, TraitAttribute,
  TraitItem, TraitItemFn, const_item, dyn_trait_attribute, failure, fn_item, list_attribute,
  maybe_sync_item, not_async_method, other_attribute, plain_attribute, storage_item, success,
  type_item, unknown_item, unreadable_item, list_tokens, verbatim_item, ◌>>=◌,
}
use dyn_utils.Macros.Utils.{is_dispatchable, is_empty, is_some, return_type}
use dyn_utils.Macros.Sync.{Casing}
use dyn_utils.Macros.DynTrait.{
  DynTrait, DynTraitOpts, DynTraitOutput, add_method, any_dyn_object, dyn_trait_impl,
  extract_dyn_trait_attrs, is_dyn_trait_path, parse_item, parse_items, parse_method, template_name,
}
use dyn_utils.Macros.DynTrait.Attrs.{
  MethodAttrs, default_attrs, has_rpit, impl_bounds, parse_attributes, parse_attrs,
  parse_nested_meta,
}
use dyn_utils.Macros.DynTrait.Attrs.Laws.{any_maybe_sync, dyn_metas, parse_attrs_lem}
use dyn_utils.Macros.DynTrait.Method.{
  DynMethod, hidden_method, new_method, rpit_output, sync_method,
}
use dyn_utils.Macros.DynTrait.Loop.{add_parsed}
use dyn_utils.Macros.DynTrait.Hidden.{orig_sig-new_method}
use dyn_utils.Macros.DynTrait.Names.{rpit-new_method, sync_method-new_method}
use dyn_utils.Macros.DynTrait.Original.{extract_dyn_trait_attrs_lem, wrapped}
use dyn_utils.Macros.DynTrait.Errors.{
  attrs_error, first_error, gives_future, item_error, maybe_sync_error, metas_error, method_error,
  trait_attrs_error, trait_error,
}

parse_nested_meta-Agrees :
    (items : List MetaItem) (attrs : MethodAttrs)
    → Agrees (metas_error items) (parse_nested_meta attrs items)
unfolding parse_nested_meta
parse_nested_meta-Agrees [] attrs = (attrs, refl)
parse_nested_meta-Agrees (storage_item p ∷ items) attrs = parse_nested_meta-Agrees items _
parse_nested_meta-Agrees (maybe_sync_item ∷ items) attrs = parse_nested_meta-Agrees items _
parse_nested_meta-Agrees (unknown_item i ∷ items) attrs = refl
parse_nested_meta-Agrees (unreadable_item e ∷ items) attrs = refl

parse_attributes-Agrees :
    (rpit : Bool) (as1 : List Attribute) (attrs : MethodAttrs)
    → Agrees (attrs_error rpit as1) (parse_attributes rpit attrs as1)
unfolding parse_attributes
parse_attributes-Agrees rpit [] attrs = ((attrs, []), refl)
parse_attributes-Agrees rpit (other_attribute s ∷ as1) attrs =
    Agrees-map (attrs_error rpit as1) _ _ (parse_attributes-Agrees rpit as1 attrs)
parse_attributes-Agrees true (dyn_trait_attribute items ∷ as1) attrs =
    Agrees-bind (metas_error items) (attrs_error true as1) _ _
      (parse_nested_meta-Agrees items attrs)
      (λ attrs1 parsed. parse_attributes-Agrees true as1 attrs1)
parse_attributes-Agrees false (dyn_trait_attribute items ∷ as1) attrs = refl

parse_attrs-Agrees :
    (method : TraitItemFn)
    → Agrees (attrs_error (has_rpit method.sig) method.attrs) (parse_attrs method)
unfolding parse_attrs
parse_attrs-Agrees method =
    Agrees-map (attrs_error (has_rpit method.sig) method.attrs) _ _
      (parse_attributes-Agrees (has_rpit method.sig) method.attrs default_attrs)

hidden_method-Agrees :
    (sig : Signature) (output : Option RustSyntax)
    → Agrees (if is_some output then none else some not_async_method) (hidden_method sig output)
hidden_method-Agrees sig none = refl
hidden_method-Agrees sig (some ty) = (_, refl)

-- A signature that is not async, by the bounds that its output is kept with.
sync_method-by_output :
    (m : DynMethod) (sig : Signature)
    → m.orig_sig ≡ sig
    → m.rpit ≡ impl_bounds (return_type sig)
    → Agrees
        (if is_some (rpit_output (impl_bounds (return_type sig)))
          then none
          else some not_async_method)
        (sync_method m)
unfolding sync_method
sync_method-by_output m sig orig same =
    rw (orig, same) (hidden_method-Agrees sig (rpit_output (impl_bounds (return_type sig))))

module _ (casing : Casing) where
  sync_method-Agrees :
      (crate_ : SynPath) (gs : List Ident) (method : TraitItemFn)
      → Agrees
          (if gives_future method.sig then none else some not_async_method)
          (sync_method (new_method casing crate_ gs method))
  sync_method-Agrees crate_ gs method =
      let with_output = is_some (rpit_output (impl_bounds (return_type method.sig))) in
      let hidden = sync_method (new_method casing crate_ gs method) in
      let gives =
        λ (b : Bool). ap (λ a. if a then true else with_output) {x = method.sig.is_async} {y = b} in
      let agrees = λ (b : Bool). Agrees (if b then none else some not_async_method) hidden in
      elim (Bool-cases method.sig.is_async) [
        | inl async ↦
            subst agrees (sym (gives true async))
              (_, sync_method-new_method casing crate_ gs method async)
        | inr plain ↦ subst agrees (sym (gives false plain)) (
            sync_method-by_output _ method.sig (orig_sig-new_method casing crate_ gs method)
              (rpit-new_method casing crate_ gs method plain))
      ]

  add_method-Agrees :
      (self : DynTrait) (crate_ : SynPath) (gs : List Ident) (method : TraitItemFn) (b : Bool)
      → Agrees
          (maybe_sync_error b method.sig)
          (add_method casing self (new_method casing crate_ gs method) b)
  unfolding add_method
  add_method-Agrees self crate_ gs method true =
      Agrees-map (maybe_sync_error true method.sig) _ _ (sync_method-Agrees crate_ gs method)
  add_method-Agrees self crate_ gs method false = (_, refl)

  parse_method-Agrees :
      (self : DynTrait) (method : TraitItemFn)
      → Agrees (method_error method) (parse_method casing self method)
  unfolding parse_method
  parse_method-Agrees self method =
      let maybe_sync = any_maybe_sync (dyn_metas method.attrs) in
      Agrees-bind (attrs_error (has_rpit method.sig) method.attrs)
        (maybe_sync_error maybe_sync method.sig) _ _ (parse_attrs-Agrees method)
        (λ parsed eq.
          let (_, synced, left, _) = parse_attrs_lem method parsed eq in
          Agrees-map (maybe_sync_error maybe_sync method.sig) (add_parsed casing self parsed)
            (λ self1. (self1, parsed.1))
            (subst (λ o. Agrees o (add_parsed casing self parsed))
              (λ i. maybe_sync_error (synced i) (left i).sig)
              (add_method-Agrees _ self.crate_ self.trait_generics parsed.1 (parsed.0).maybe_sync)))

  if_method :
      (b : Bool) (self : DynTrait) (method : TraitItemFn)
      → Agrees {A = DynTrait × TraitItem} (if b then method_error method else none) (
          if b
          then (parse_method casing self method >>= λ parsed. success (parsed.0, fn_item parsed.1))
          else success (self, fn_item method))
  if_method true self method =
      Agrees-map (method_error method) _ _ (parse_method-Agrees self method)
  if_method false self method = (_, refl)

  parse_item-Agrees :
      (self : DynTrait) (item : TraitItem) → Agrees (item_error item) (parse_item casing self item)
  unfolding parse_item
  parse_item-Agrees self (fn_item method) = if_method (is_dispatchable method) self method
  parse_item-Agrees self (type_item ty) = (_, refl)
  parse_item-Agrees self (const_item k) = (_, refl)
  parse_item-Agrees self (verbatim_item s) = (_, refl)

  parse_items-Agrees :
      (items : List TraitItem) (self : DynTrait)
      → Agrees (first_error items) (parse_items casing self items)
  unfolding parse_items
  parse_items-Agrees [] self = (_, refl)
  parse_items-Agrees (item ∷ items) self =
      Agrees-bind (item_error item) (first_error items) _ _ (parse_item-Agrees self item)
        (λ parsed eq. Agrees-map (first_error items) _ _ (parse_items-Agrees items parsed.0))

extract_dyn_trait_attrs-Agrees :
    (attrs : List TraitAttribute) → Agrees (trait_attrs_error attrs) (extract_dyn_trait_attrs attrs)
unfolding extract_dyn_trait_attrs
extract_dyn_trait_attrs-Agrees [] = (_, refl)
extract_dyn_trait_attrs-Agrees (list_attribute p inner ∷ attrs) =
    Agrees-map (trait_attrs_error attrs) _ _ (extract_dyn_trait_attrs-Agrees attrs)
extract_dyn_trait_attrs-Agrees (list_tokens p s ∷ attrs) =
    Agrees-guard (is_dyn_trait_path p) _ (trait_attrs_error attrs) _
      (Agrees-map (trait_attrs_error attrs) _ _ (extract_dyn_trait_attrs-Agrees attrs))
extract_dyn_trait_attrs-Agrees (plain_attribute p s ∷ attrs) =
    Agrees-guard (is_dyn_trait_path p) _ (trait_attrs_error attrs) _
      (Agrees-map (trait_attrs_error attrs) _ _ (extract_dyn_trait_attrs-Agrees attrs))

module _ (casing : Casing) (crate_name : SynPath) (trait : ItemTrait) (opts : DynTraitOpts) where
  dyn_trait_impl-Agrees :
      Agrees (trait_error casing opts trait) (dyn_trait_impl casing crate_name trait opts)
  unfolding dyn_trait_impl
  dyn_trait_impl-Agrees =
      Agrees-bind (trait_attrs_error trait.attrs) _ _ _ (extract_dyn_trait_attrs-Agrees trait.attrs)
        (λ extracted eq. rw (extract_dyn_trait_attrs_lem trait.attrs extracted eq).0 (
          Agrees-guard (not (is_empty trait.generics) && any_dyn_object (wrapped trait.attrs)) _ _ _
            (Agrees-guard (not (casing.is_ident (template_name casing trait.ident opts))) _
              (first_error trait.items) _
              (Agrees-map (first_error trait.items) _ _
                (parse_items-Agrees casing trait.items _)))))

  -- `dyn_trait` always ends in one of two ways: it succeeds if nothing is wrong with the trait, else
  -- it fails with what is wrong with it first.
  pub dyn_trait_impl_cases :
      ((trait_error casing opts trait ≡ none)
        × (out : DynTraitOutput) × (dyn_trait_impl casing crate_name trait opts ≡ success out))
      ⊎ ((e : MacroError) × (trait_error casing opts trait ≡ some e)
          × (dyn_trait_impl casing crate_name trait opts ≡ failure e))
  dyn_trait_impl_cases = Agrees-cases (trait_error casing opts trait) _ dyn_trait_impl-Agrees

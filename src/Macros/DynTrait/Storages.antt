-- ===== src/Macros/DynTrait/Storages.antt =====
-- macros/src/dyn_trait.rs: the storage parameters of the dyn trait.
use mathlib.Core.List.{append_assoc, append-nil}
use dyn_utils.Prelude.{Bool, true, false, ◌&&◌, ◌≡◌, refl, sym, ap, ◌∙◌, List, [], ◌∷◌, ◌++◌, map}
use dyn_utils.Macros.Parts.{unwrap_or}
use dyn_utils.Macros.Shared.{success-bind, success-injective}
use dyn_utils.Macros.Syntax.{
  GenericParam, ItemTrait, SynPath, TraitItem, TraitItemFn, const_item, fn_item, success, type_item,
  verbatim_item,
}
use dyn_utils.Macros.Utils.{is_dispatchable}
use dyn_utils.Macros.Sync.{Casing}
use dyn_utils.Macros.DynTrait.{
  DynTrait, DynTraitOpts, DynTraitOutput, add_method, dyn_trait_impl, new, quote_dyn_trait,
  parse_type,
}
use dyn_utils.Macros.DynTrait.Attrs.{MethodAttrs, has_rpit, parse_attrs}
use dyn_utils.Macros.DynTrait.Attrs.Laws.{parse_attrs_lem}
use dyn_utils.Macros.DynTrait.Loop.{dyn_trait_impl_inv, is_selected, add_parsed}
use dyn_utils.Macros.DynTrait.Output.{dyn_trait_impl_output}
use dyn_utils.Macros.DynTrait.Parameters.{
  forget_default, param_if, storage_param, storages-new_method,
}
use dyn_utils.Macros.DynTrait.Method.{DynMethod, storage_name, sync_method}

-- One parameter for each dispatchable method that is async or returns an `impl Trait`, in order.
abbrev pub storage_params : Casing → SynPath → List TraitItem → List GenericParam
storage_params casing crate_ [] = []
storage_params casing crate_ (fn_item method ∷ items) =
    param_if (is_dispatchable method && has_rpit method.sig)
      (storage_param crate_ (storage_name casing method.sig))
    ++ storage_params casing crate_ items
storage_params casing crate_ (_ ∷ items) = storage_params casing crate_ items

storage_params-append :
    (casing : Casing) (crate_ : SynPath) (xs ys : List TraitItem)
    → storage_params casing crate_ (xs ++ ys)
      ≡ storage_params casing crate_ xs ++ storage_params casing crate_ ys
storage_params-append casing c [] ys = refl
storage_params-append casing c (fn_item m ∷ xs) ys =
    ap
      (λ ps.
        param_if (is_dispatchable m && has_rpit m.sig) (storage_param c (storage_name casing m.sig))
        ++ ps)
      (storage_params-append casing c xs ys)
    ∙ sym (append_assoc _ (storage_params casing c xs) _)
storage_params-append casing c (type_item ty ∷ xs) ys = storage_params-append casing c xs ys
storage_params-append casing c (const_item k ∷ xs) ys = storage_params-append casing c xs ys
storage_params-append casing c (verbatim_item s ∷ xs) ys = storage_params-append casing c xs ys

add_method-keeps :
    (casing : Casing) (self self1 : DynTrait) (m : DynMethod) (maybe_sync : Bool)
    → add_method casing self m maybe_sync ≡ success self1
    → (self1.crate_ ≡ self.crate_) × (self1.generic_storages ≡ self.generic_storages)
unfolding add_method
add_method-keeps casing self self1 m true eq =
    let (hidden, _, eq1) = success-bind (sync_method m) _ _ eq in
    let same = sym (success-injective eq1) in
    (ap (λ s. s.crate_) same, ap (λ s. s.generic_storages) same)
add_method-keeps casing self self1 m false eq =
    let same = sym (success-injective eq) in
    (ap (λ s. s.crate_) same, ap (λ s. s.generic_storages) same)

module _ (casing : Casing) (crate_ : SynPath) where
  -- The parameters so far are those of the items that have been seen.
  Declares : List TraitItem → DynTrait → Type 0
  Declares done self =
      (self.crate_ ≡ crate_)
      × (map forget_default self.generic_storages ≡ storage_params casing crate_ done)

  Declares-snoc :
      (done : List TraitItem) (self self1 : DynTrait) (item : TraitItem)
      → Declares done self
      → self1.crate_ ≡ self.crate_
      → map forget_default self1.generic_storages
        ≡ map forget_default self.generic_storages ++ storage_params casing crate_ (item ∷ [])
      → Declares (done ++ (item ∷ [])) self1
  unfolding Declares
  Declares-snoc done self self1 item h c more = (
    c ∙ h.0,
    more
        ∙ ap (λ ps. ps ++ storage_params casing crate_ (item ∷ [])) h.1
        ∙ sym (storage_params-append casing crate_ done (item ∷ [])),
  )

  Declares-keep_method :
      (done : List TraitItem) (self self1 : DynTrait) (method : TraitItemFn)
      (parsed : MethodAttrs × TraitItemFn)
      → is_dispatchable method ≡ true
      → parse_attrs method ≡ success parsed
      → Declares done self
      → add_parsed casing self parsed ≡ success self1
      → Declares (done ++ (fn_item method ∷ [])) self1
  unfolding Declares
  Declares-keep_method done self self1 method parsed d read h added =
      let (c, storages) = add_method-keeps casing _ self1 _ _ added in
      let sig : parsed.1.sig ≡ method.sig =
        ap (λ m. m.sig) (parse_attrs_lem method parsed read).2 in
      Declares-snoc done self self1 (fn_item method) h c (
        ap (map forget_default) storages
        ∙ storages-new_method casing self.crate_ self.trait_generics parsed.1 (parsed.0).storage
            self.generic_storages
        ∙ ap
            (λ s.
              map forget_default self.generic_storages
              ++ param_if (has_rpit s) (storage_param self.crate_ (storage_name casing s)))
            sig
        ∙ rw
            (
              d,
              h.0,
              append-nil (
                  param_if (has_rpit method.sig)
                    (storage_param crate_ (storage_name casing method.sig))),
            )
            refl)

  Declares-leave :
      (done : List TraitItem) (self : DynTrait) (item : TraitItem)
      → is_selected item ≡ false
      → Declares done self
      → Declares (done ++ (item ∷ [])) self
  Declares-leave done self (fn_item method) d h =
      Declares-snoc done self self (fn_item method) h refl (rw d (sym (append-nil _)))
  Declares-leave done self (type_item ty) d h =
      Declares-snoc done self self (type_item ty) h refl (sym (append-nil _))
  Declares-leave done self (const_item k) d h =
      Declares-snoc done self self (const_item k) h refl (sym (append-nil _))
  Declares-leave done self (verbatim_item s) d h =
      Declares-snoc done self self (verbatim_item s) h refl (sym (append-nil _))

-- When `dyn_trait` succeeds, the dyn trait has the generic parameters of the trait and then one
-- storage parameter for each dispatchable method that is async or returns an `impl Trait`, in the
-- trait's order, named after the method and bounded by `Storage` of the crate; it is implemented
-- with the same parameters.
pub dyn_trait_impl-storages :
    (casing : Casing) (crate_name : SynPath) (trait : ItemTrait) (opts : DynTraitOpts)
    (out : DynTraitOutput)
    → dyn_trait_impl casing crate_name trait opts ≡ success out
    → (out.dyn_trait.generics ≡ out.impl_type_generics)
      × ((storages : List GenericParam) × (out.dyn_trait.generics ≡ trait.generics ++ storages)
          × (map forget_default storages
              ≡ storage_params casing (unwrap_or opts.crate_ crate_name) trait.items))
unfolding Declares new parse_type quote_dyn_trait
dyn_trait_impl-storages casing crate_name trait opts out eq =
    let crate_ = unwrap_or opts.crate_ crate_name in
    let (self, declared, _, _, generics) =
      dyn_trait_impl_inv casing (Declares casing crate_)
        (λ done self ty d h.
          Declares-snoc casing crate_ done self (parse_type self ty) (type_item ty) h refl
            (sym (append-nil _)))
        (Declares-keep_method casing crate_)
        (λ done self item d h. Declares-leave casing crate_ done self item d h) crate_name trait
        opts out (λ t i g. (refl, refl)) eq in
    let (extracted, _, parsed, _, same) =
      dyn_trait_impl_output casing crate_name trait opts out eq in
    let both : out.dyn_trait.generics ≡ out.impl_type_generics =
      sym (ap (λ o. o.dyn_trait.generics) same) ∙ ap (λ o. o.impl_type_generics) same in
    (both, (self.generic_storages, both ∙ generics, declared.1))

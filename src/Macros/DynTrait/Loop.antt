-- ===== src/Macros/DynTrait/Loop.antt =====
-- macros/src/dyn_trait.rs: the loop of `dyn_trait_impl` over the items, by an invariant.
use mathlib.Core.List.{append_assoc, append-nil}
use dyn_utils.Prelude.{
  Bool, true, false, if◌then◌else◌, ◌≡◌, refl, ap, sym, subst, List, [], ◌∷◌, ◌++◌,
}
use dyn_utils.Macros.Shared.{success-bind, success-injective}
use dyn_utils.Macros.Syntax.{
  ItemTrait, Result, SynPath, TraitItem, TraitItemFn, TraitItemType, const_item, fn_item, success,
  type_item, verbatim_item, ◌>>=◌,
}
use dyn_utils.Macros.Utils.{is_dispatchable, is_not_generic}
use dyn_utils.Macros.Sync.{Casing}
use dyn_utils.Macros.DynTrait.{
  DynTrait, DynTraitOpts, DynTraitOutput, add_method, dyn_trait_impl, extend_option, new,
  parse_item, parse_items, parse_method, parse_type, quote_dyn_trait,
}
use dyn_utils.Macros.DynTrait.Attrs.{MethodAttrs, parse_attrs}
use dyn_utils.Macros.DynTrait.Method.{generic_storage, new_method}
use dyn_utils.Macros.DynTrait.Output.{dyn_trait_impl_output}

-- An associated type that is not generic, or a dispatchable method.
abbrev pub is_selected : TraitItem → Bool
is_selected (type_item ty) = is_not_generic ty
is_selected (fn_item method) = is_dispatchable method
is_selected (const_item k) = false
is_selected (verbatim_item s) = false

-- What `parse_method` does with a method whose attributes are read.
abbrev pub add_parsed : Casing → DynTrait → MethodAttrs × TraitItemFn → Result DynTrait
add_parsed casing self parsed =
    let dyn_method = new_method casing self.crate_ self.trait_generics (parsed.1) in
    add_method casing
      record self {
        generic_storages =
            extend_option self.generic_storages (generic_storage dyn_method (parsed.0).storage);
      }
      dyn_method (parsed.0).maybe_sync

-- The loop keeps a property of the items that it has seen and what it has written for them, if each
-- kind of step does: a type that is taken over, a method that is, and an item that is left.
module _ {ℓ} (casing : Casing) (P : List TraitItem → DynTrait → Type ℓ)
    (keep_type : (done : List TraitItem) (self : DynTrait) (ty : TraitItemType)
      → is_not_generic ty ≡ true
      → P done self
      → P (done ++ (type_item ty ∷ [])) (parse_type self ty))
    (keep_method : (done : List TraitItem) (self self1 : DynTrait) (method : TraitItemFn)
        (parsed : MethodAttrs × TraitItemFn)
      → is_dispatchable method ≡ true
      → parse_attrs method ≡ success parsed
      → P done self
      → add_parsed casing self parsed ≡ success self1
      → P (done ++ (fn_item method ∷ [])) self1)
    (leave : (done : List TraitItem) (self : DynTrait) (item : TraitItem)
      → is_selected item ≡ false
      → P done self
      → P (done ++ (item ∷ [])) self) where
  if_method :
      (done : List TraitItem) (self : DynTrait) (method : TraitItemFn) (b : Bool)
      (out : DynTrait × TraitItem)
      → is_dispatchable method ≡ b
      → P done self
      → (if b
          then (parse_method casing self method >>= λ parsed.
              success (parsed.0, fn_item (parsed.1)))
          else success (self, fn_item method))
        ≡ success out
      → P (done ++ (fn_item method ∷ [])) out.0
  unfolding parse_method
  if_method done self method true out d h eq =
      let (found, eq1, eq2) = success-bind (parse_method casing self method) _ _ eq in
      let (parsed, eq3, eq4) = success-bind (parse_attrs method) _ _ eq1 in
      let (self1, eq5, eq6) = success-bind (add_parsed casing self parsed) _ _ eq4 in
      subst (λ o. P (done ++ (fn_item method ∷ [])) o.0) (success-injective eq2)
        (subst (λ o. P (done ++ (fn_item method ∷ [])) o.0) (success-injective eq6)
          (keep_method done self self1 method parsed d eq3 h eq5))
  if_method done self method false out d h eq =
      subst (λ o. P (done ++ (fn_item method ∷ [])) o.0) (success-injective eq)
        (leave done self (fn_item method) d h)

  if_type :
      (done : List TraitItem) (self : DynTrait) (ty : TraitItemType) (b : Bool)
      → is_not_generic ty ≡ b
      → P done self
      → P (done ++ (type_item ty ∷ [])) (if b then parse_type self ty else self)
  if_type done self ty true d h = keep_type done self ty d h
  if_type done self ty false d h = leave done self (type_item ty) d h

  step :
      (done : List TraitItem) (self : DynTrait) (item : TraitItem) (out : DynTrait × TraitItem)
      → P done self
      → parse_item casing self item ≡ success out
      → P (done ++ (item ∷ [])) out.0
  unfolding parse_item
  step done self (type_item ty) out h eq =
      subst (λ o. P (done ++ (type_item ty ∷ [])) o.0) (success-injective eq)
        (if_type done self ty (is_not_generic ty) refl h)
  step done self (fn_item method) out h eq =
      if_method done self method (is_dispatchable method) out refl h eq
  step done self (const_item k) out h eq =
      subst (λ o. P (done ++ (const_item k ∷ [])) o.0) (success-injective eq)
        (leave done self (const_item k) refl h)
  step done self (verbatim_item s) out h eq =
      subst (λ o. P (done ++ (verbatim_item s ∷ [])) o.0) (success-injective eq)
        (leave done self (verbatim_item s) refl h)

  steps :
      (done items : List TraitItem) (self : DynTrait) (out : DynTrait × List TraitItem)
      → P done self
      → parse_items casing self items ≡ success out
      → P (done ++ items) out.0
  unfolding parse_items
  steps done [] self out h eq =
      subst (λ o. P (done ++ []) o.0) (success-injective eq)
        (subst (λ d. P d self) (sym (append-nil done)) h)
  steps done (item ∷ items) self out h eq =
      let (parsed, eq1, rest) = success-bind (parse_item casing self item) _ _ eq in
      let (last, eq2, eq3) = success-bind (parse_items casing (parsed.0) items) _ _ rest in
      subst (λ o. P (done ++ (item ∷ items)) o.0) (success-injective eq3)
        (subst (λ d. P d last.0) (append_assoc done (item ∷ []) items)
          (steps (done ++ (item ∷ [])) items (parsed.0) last (step done self item parsed h eq1)
            eq2))

  -- What the loop has established is what `dyn_trait_impl` writes out.
  pub dyn_trait_impl_inv :
      (crate_name : SynPath) (trait : ItemTrait) (opts : DynTraitOpts) (out : DynTraitOutput)
      → ((t : ItemTrait)
          → t.ident ≡ trait.ident
          → t.generics ≡ trait.generics
          → P [] (new casing crate_name t opts))
      → dyn_trait_impl casing crate_name trait opts ≡ success out
      → (self : DynTrait) × P trait.items self
        × (out.dyn_trait.items ≡ self.dyn_items)
        × (out.impl_items ≡ self.impl_items)
        × (out.impl_type_generics ≡ trait.generics ++ self.generic_storages)
  unfolding quote_dyn_trait
  dyn_trait_impl_inv crate_name trait opts out start eq =
      let (extracted, _, parsed, eq2, written) =
        dyn_trait_impl_output casing crate_name trait opts out eq in
      let same = sym written in
      (
        parsed.0,
        steps [] trait.items _ parsed (start record trait { attrs = extracted.1 } refl refl) eq2,
        ap (λ o. o.dyn_trait.items) same,
        ap (λ o. o.impl_items) same,
        ap (λ o. o.impl_type_generics) same,
      )

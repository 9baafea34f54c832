-- ===== src/Macros/DynTrait/Written.antt =====
-- macros/src/dyn_trait.rs: the methods that `dyn_trait` writes, one for each method that it takes
-- over.
use mathlib.Core.List.{map-append, append-nil}
use dyn_utils.Prelude.{
  Bool, true, false, ◌≡◌, refl, sym, ap, ◌∙◌, if◌then◌else◌, List, [], ◌∷◌, ◌++◌, map,
}
use dyn_utils.Macros.Parts.{unwrap_or}
use dyn_utils.Macros.Shared.{success-bind, success-injective}
use dyn_utils.Macros.Syntax.{
  Ident, ImplItem, ImplItemFn, ItemTrait, SynPath, TraitItem, TraitItemFn, TraitItemType,
  const_item, fn_item, impl_fn_item, impl_type_item, success, type_item, verbatim_item,
}
use dyn_utils.Macros.Utils.{is_dispatchable}
use dyn_utils.Macros.Sync.{Casing}
use dyn_utils.Macros.DynTrait.{
  DynTrait, DynTraitOpts, DynTraitOutput, add_method, dyn_trait_impl, new, parse_type, type_params,
}
use dyn_utils.Macros.DynTrait.Attrs.{MethodAttrs, parse_attrs}
use dyn_utils.Macros.DynTrait.Attrs.Laws.{
  any_maybe_sync, dyn_metas, other_attributes, parse_attrs_lem,
}
use dyn_utils.Macros.DynTrait.Loop.{add_parsed, dyn_trait_impl_inv, is_selected}
use dyn_utils.Macros.DynTrait.Method.{
  DynMethod, forward_method, maybe_sync_impl, maybe_sync_method, new_method, sync_method,
}
use dyn_utils.Macros.DynObject.Laws.{fn_items}

-- The methods that are taken over.
abbrev pub selected_fns : List TraitItem → List TraitItemFn
selected_fns [] = []
selected_fns (fn_item m ∷ items) =
    if is_dispatchable m then m ∷ selected_fns items else selected_fns items
selected_fns (_ ∷ items) = selected_fns items

abbrev pub impl_fns : List ImplItem → List ImplItemFn
impl_fns [] = []
impl_fns (impl_fn_item f ∷ items) = f ∷ impl_fns items
impl_fns (impl_type_item i ty ∷ items) = impl_fns items

selected_fns-append :
    (xs ys : List TraitItem) → selected_fns (xs ++ ys) ≡ selected_fns xs ++ selected_fns ys
selected_fns-append [] ys = refl
selected_fns-append (fn_item m ∷ xs) ys =
    if_cons (is_dispatchable m) m _ _ (selected_fns-append xs ys)
  where
    if_cons :
        (b : Bool) (m : TraitItemFn) (zs ws : List TraitItemFn)
        → zs ≡ ws ++ selected_fns ys
        → (if b then m ∷ zs else zs) ≡ (if b then m ∷ ws else ws) ++ selected_fns ys
    if_cons true m zs ws h = ap (λ l. m ∷ l) h
    if_cons false m zs ws h = h
selected_fns-append (type_item ty ∷ xs) ys = selected_fns-append xs ys
selected_fns-append (const_item k ∷ xs) ys = selected_fns-append xs ys
selected_fns-append (verbatim_item s ∷ xs) ys = selected_fns-append xs ys

fn_items-append : (xs ys : List TraitItem) → fn_items (xs ++ ys) ≡ fn_items xs ++ fn_items ys
fn_items-append [] ys = refl
fn_items-append (fn_item m ∷ xs) ys = ap (λ l. m ∷ l) (fn_items-append xs ys)
fn_items-append (type_item ty ∷ xs) ys = fn_items-append xs ys
fn_items-append (const_item k ∷ xs) ys = fn_items-append xs ys
fn_items-append (verbatim_item s ∷ xs) ys = fn_items-append xs ys

impl_fns-append : (xs ys : List ImplItem) → impl_fns (xs ++ ys) ≡ impl_fns xs ++ impl_fns ys
impl_fns-append [] ys = refl
impl_fns-append (impl_fn_item f ∷ xs) ys = ap (λ l. f ∷ l) (impl_fns-append xs ys)
impl_fns-append (impl_type_item i ty ∷ xs) ys = impl_fns-append xs ys

map-snoc :
    {A : Type 0} (f : TraitItemFn → A) (xs : List A) (ms ms' : List TraitItemFn) (m : TraitItemFn)
    (x : A)
    → xs ≡ map f ms
    → x ≡ f m
    → ms ++ (m ∷ []) ≡ ms'
    → xs ++ (x ∷ []) ≡ map f ms'
map-snoc f xs ms ms' m x h e more =
    (λ i. h i ++ (e i ∷ [])) ∙ sym (map-append f ms (m ∷ [])) ∙ ap (map f) more

-- The method of the dyn trait and that of the implementation, by whether it is `maybe_sync`.
abbrev pub dyn_fn : Bool → DynMethod → TraitItemFn
dyn_fn maybe_sync m = if maybe_sync then maybe_sync_method m else m.dyn_method

abbrev pub impl_fn : Casing → Bool → DynMethod → ImplItemFn
impl_fn casing maybe_sync m = if maybe_sync then maybe_sync_impl casing m else forward_method m

module _ (casing : Casing) where
  add_method-Written :
      (self self1 : DynTrait) (m : DynMethod) (maybe_sync : Bool)
      → add_method casing self m maybe_sync ≡ success self1
      → (self1.crate_ ≡ self.crate_)
        × (self1.trait_generics ≡ self.trait_generics)
        × (fn_items self1.dyn_items ≡ fn_items self.dyn_items ++ (dyn_fn maybe_sync m ∷ []))
        × (impl_fns self1.impl_items
            ≡ impl_fns self.impl_items ++ (impl_fn casing maybe_sync m ∷ []))
  unfolding add_method
  add_method-Written self self1 m true eq =
      let (hidden, _, eq1) = success-bind (sync_method m) _ _ eq in
      let same = sym (success-injective eq1) in
      (
        ap (λ s. s.crate_) same,
        ap (λ s. s.trait_generics) same,
        ap (λ s. fn_items s.dyn_items) same ∙ fn_items-append self.dyn_items _,
        ap (λ s. impl_fns s.impl_items) same ∙ impl_fns-append self.impl_items _,
      )
  add_method-Written self self1 m false eq =
      let same = sym (success-injective eq) in
      (
        ap (λ s. s.crate_) same,
        ap (λ s. s.trait_generics) same,
        ap (λ s. fn_items s.dyn_items) same ∙ fn_items-append self.dyn_items _,
        ap (λ s. impl_fns s.impl_items) same ∙ impl_fns-append self.impl_items _,
      )

  module _ (crate_ : SynPath) (gs : List Ident) where
    -- `DynMethod::new` of a method that has lost its `dyn_trait` attributes.
    abbrev pub method_for : TraitItemFn → DynMethod
    method_for m = new_method casing crate_ gs record m { attrs = other_attributes m.attrs }

    abbrev pub written_dyn : TraitItemFn → TraitItemFn
    written_dyn m = dyn_fn (any_maybe_sync (dyn_metas m.attrs)) (method_for m)

    abbrev pub written_impl : TraitItemFn → ImplItemFn
    written_impl m = impl_fn casing (any_maybe_sync (dyn_metas m.attrs)) (method_for m)

    -- What is written so far is written for the methods that have been taken over.
    Written : List TraitItem → DynTrait → Type 0
    Written done self =
        (self.crate_ ≡ crate_)
        × (self.trait_generics ≡ gs)
        × (fn_items self.dyn_items ≡ map written_dyn (selected_fns done))
        × (impl_fns self.impl_items ≡ map written_impl (selected_fns done))

    Written-keep :
        (done : List TraitItem) (self self1 : DynTrait) (item : TraitItem)
        → Written done self
        → selected_fns (item ∷ []) ≡ []
        → self1.crate_ ≡ self.crate_
        → self1.trait_generics ≡ self.trait_generics
        → fn_items self1.dyn_items ≡ fn_items self.dyn_items
        → impl_fns self1.impl_items ≡ impl_fns self.impl_items
        → Written (done ++ (item ∷ [])) self1
    unfolding Written
    Written-keep done self self1 item (c, g, fns, impls) none_selected c1 g1 fns1 impls1 =
        let same : selected_fns done ≡ selected_fns (done ++ (item ∷ [])) =
          sym (append-nil _)
          ∙ ap (λ ms. selected_fns done ++ ms) (sym none_selected)
          ∙ sym (selected_fns-append done (item ∷ [])) in
        (
          c1 ∙ c,
          g1 ∙ g,
          fns1 ∙ fns ∙ ap (map written_dyn) same,
          impls1 ∙ impls ∙ ap (map written_impl) same,
        )

    Written-leave :
        (done : List TraitItem) (self : DynTrait) (item : TraitItem)
        → is_selected item ≡ false
        → Written done self
        → Written (done ++ (item ∷ [])) self
    Written-leave done self (fn_item m) d h =
        Written-keep done self self (fn_item m) h (rw d refl) refl refl refl refl
    Written-leave done self (type_item ty) d h =
        Written-keep done self self (type_item ty) h refl refl refl refl refl
    Written-leave done self (const_item k) d h =
        Written-keep done self self (const_item k) h refl refl refl refl refl
    Written-leave done self (verbatim_item s) d h =
        Written-keep done self self (verbatim_item s) h refl refl refl refl refl

    Written-type :
        (done : List TraitItem) (self : DynTrait) (ty : TraitItemType)
        → Written done self
        → Written (done ++ (type_item ty ∷ [])) (parse_type self ty)
    unfolding parse_type
    Written-type done self ty h =
        Written-keep done self (parse_type self ty) (type_item ty) h refl refl refl
          (fn_items-append self.dyn_items _ ∙ append-nil _)
          (impl_fns-append self.impl_items _ ∙ append-nil _)

    Written-method :
        (done : List TraitItem) (self self1 : DynTrait) (method : TraitItemFn)
        (parsed : MethodAttrs × TraitItemFn)
        → is_dispatchable method ≡ true
        → parse_attrs method ≡ success parsed
        → Written done self
        → add_parsed casing self parsed ≡ success self1
        → Written (done ++ (fn_item method ∷ [])) self1
    unfolding Written
    Written-method done self self1 method parsed d read (c, g, fns, impls) added =
        let (c1, g1, fns1, impls1) = add_method-Written _ self1 _ _ added in
        let (_, maybe_sync, left, _) = parse_attrs_lem method parsed read in
        let m : new_method casing self.crate_ self.trait_generics parsed.1 ≡ method_for method =
          (λ i. new_method casing (c i) (g i) (left i)) in
        let more : selected_fns done ++ (method ∷ [])
            ≡ selected_fns (done ++ (fn_item method ∷ [])) =
          rw (selected_fns-append done (fn_item method ∷ []), d) refl in
        (
          c1 ∙ c,
          g1 ∙ g,
          fns1 ∙ map-snoc written_dyn _ _ _ method _ fns (λ i. dyn_fn (maybe_sync i) (m i)) more,
          impls1
              ∙ map-snoc written_impl _ _ _ method _ impls
                  (λ i. impl_fn casing (maybe_sync i) (m i)) more,
        )

-- When `dyn_trait` succeeds, the dyn trait and its implementation have one method for each method
-- that is taken over, in the trait's order: the one that is written for it, by whether it is
-- `maybe_sync`.
pub dyn_trait_impl-methods :
    (casing : Casing) (crate_name : SynPath) (trait : ItemTrait) (opts : DynTraitOpts)
    (out : DynTraitOutput)
    → dyn_trait_impl casing crate_name trait opts ≡ success out
    → (fn_items out.dyn_trait.items
        ≡ map
            (written_dyn casing (unwrap_or opts.crate_ crate_name) (type_params trait.generics))
            (selected_fns trait.items))
      × (impl_fns out.impl_items
          ≡ map
              (written_impl casing (unwrap_or opts.crate_ crate_name) (type_params trait.generics))
              (selected_fns trait.items))
unfolding Written new
dyn_trait_impl-methods casing crate_name trait opts out eq =
    let crate_ = unwrap_or opts.crate_ crate_name in
    let gs = type_params trait.generics in
    let (self, (_, _, fns, impls), dyn_items, impl_items, _) =
      dyn_trait_impl_inv casing (Written casing crate_ gs)
        (λ done self ty d h. Written-type casing crate_ gs done self ty h)
        (Written-method casing crate_ gs) (Written-leave casing crate_ gs) crate_name trait opts out
        (λ t i g. (refl, ap type_params g, refl, refl)) eq in
    (ap fn_items dyn_items ∙ fns, ap impl_fns impl_items ∙ impls)

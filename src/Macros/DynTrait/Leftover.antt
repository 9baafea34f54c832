-- ===== src/Macros/DynTrait/Leftover.antt =====
-- macros/src/dyn_trait.rs: what the loop of `dyn_trait_impl` leaves in the trait itself.
use mathlib.Core.List.{append_assoc, append-nil}
use dyn_utils.Prelude.{
  Bool, true, false, ◌&&◌, ◌≡◌, refl, sym, ap, subst, ◌∙◌, if◌then◌else◌, List, [], ◌∷◌, ◌++◌, map,
}
use dyn_utils.Macros.Shared.{success-bind, success-injective}
use dyn_utils.Macros.Syntax.{
  TraitItem, TraitItemFn, TraitItemType, ◌>>=◌, const_item, fn_item, success, type_item,
  verbatim_item,
}
use dyn_utils.Macros.Utils.{is_dispatchable, is_not_generic}
use dyn_utils.Macros.Sync.{Casing}
use dyn_utils.Macros.DynTrait.{DynTrait, parse_item, parse_items, parse_method, parse_type}
use dyn_utils.Macros.DynTrait.Attrs.{parse_attrs}
use dyn_utils.Macros.DynTrait.Attrs.Laws.{
  any_maybe_sync, dyn_metas, other_attributes, parse_attrs_lem,
}
use dyn_utils.Macros.DynTrait.Loop.{add_parsed}
use dyn_utils.Macros.DynTrait.Hidden.{fixed, fixed-add_method}
use dyn_utils.Macros.DynTrait.HiddenItems.{hidden-add_method, hidden_of}

-- A dispatchable method loses its `dyn_trait` attributes, and every other item stays as it is.
abbrev pub kept : TraitItem → TraitItem
kept (fn_item m) =
    fn_item (if is_dispatchable m then record m { attrs = other_attributes m.attrs } else m)
kept item = item

-- The hidden items of the dispatchable `maybe_sync` methods, in order.
abbrev pub hidden_items : Casing → List TraitItem → List TraitItem
hidden_items casing [] = []
hidden_items casing (fn_item m ∷ items) =
    (if is_dispatchable m && any_maybe_sync (dyn_metas m.attrs)
      then hidden_of casing true m.sig
      else [])
    ++ hidden_items casing items
hidden_items casing (_ ∷ items) = hidden_items casing items

module _ (casing : Casing) where
  abbrev pub added_items : DynTrait → List TraitItem
  added_items self = self.additional_trait_items

  parse_method_lem :
      (self : DynTrait) (method : TraitItemFn) (out : DynTrait × TraitItemFn)
      → is_dispatchable method ≡ true
      → parse_method casing self method ≡ success out
      → (out.1 ≡ record method { attrs = other_attributes method.attrs })
        × (added_items out.0
            ≡ added_items self
              ++ hidden_of casing (any_maybe_sync (dyn_metas method.attrs)) method.sig)
        × (fixed out.0 ≡ fixed self)
  unfolding parse_method is_dispatchable
  parse_method_lem self method out d eq =
      let (parsed, read, eq1) = success-bind (parse_attrs method) _ _ eq in
      let (self1, added, eq2) = success-bind (add_parsed casing self parsed) _ _ eq1 in
      let same = sym (success-injective eq2) in
      let (_, maybe_sync, left, _) = parse_attrs_lem method parsed read in
      let same_sig : parsed.1.sig ≡ method.sig = ap (λ m. m.sig) left in
      (
        ap (λ o. o.1) same ∙ left,
        ap (λ o. added_items o.0) same
            ∙ hidden-add_method casing _ self1 _ _ parsed.1 _
                (subst (λ m. is_dispatchable m ≡ true) (sym left) d) added
            ∙ ap (λ sig. added_items self ++ hidden_of casing (parsed.0).maybe_sync sig) same_sig
            ∙ ap (λ b. added_items self ++ hidden_of casing b method.sig) maybe_sync,
        ap (λ o. fixed o.0) same ∙ fixed-add_method casing _ self1 _ _ added,
      )

  -- What an item leaves behind.
  Leaves : DynTrait → TraitItem → DynTrait × TraitItem → Type 0
  Leaves self item out =
      (out.1 ≡ kept item)
      × (added_items out.0 ≡ added_items self ++ hidden_items casing (item ∷ []))
      × (fixed out.0 ≡ fixed self)

  method-Leaves :
      (self : DynTrait) (method : TraitItemFn) (out : DynTrait × TraitItem) (b : Bool)
      → is_dispatchable method ≡ b
      → (if b
          then (parse_method casing self method >>= λ parsed. success (parsed.0, fn_item parsed.1))
          else success (self, fn_item method))
        ≡ success out
      → Leaves self (fn_item method) out
  unfolding Leaves
  method-Leaves self method out true d eq =
      let (parsed, eq1, eq2) = success-bind (parse_method casing self method) _ _ eq in
      let same = sym (success-injective eq2) in
      let (left, names, include) = parse_method_lem self method parsed d eq1 in
      rw d (
        ap (λ o. o.1) same ∙ ap fn_item left,
        ap (λ o. added_items o.0) same
            ∙ names
            ∙ ap (λ is. added_items self ++ is) (sym (append-nil _)),
        ap (λ o. fixed o.0) same ∙ include,
      )
  method-Leaves self method out false d eq =
      let same = sym (success-injective eq) in
      rw d (
        ap (λ o. o.1) same,
        ap (λ o. added_items o.0) same ∙ sym (append-nil _),
        ap (λ o. fixed o.0) same,
      )

  type-kept :
      (self : DynTrait) (ty : TraitItemType) (b : Bool)
      → (added_items (if b then parse_type self ty else self) ≡ added_items self)
        × (fixed (if b then parse_type self ty else self) ≡ fixed self)
  unfolding parse_type
  type-kept self ty true = (refl, refl)
  type-kept self ty false = (refl, refl)

  parse_item-Leaves :
      (self : DynTrait) (item : TraitItem) (out : DynTrait × TraitItem)
      → parse_item casing self item ≡ success out
      → Leaves self item out
  unfolding parse_item Leaves
  parse_item-Leaves self (fn_item method) out eq =
      method-Leaves self method out (is_dispatchable method) refl eq
  parse_item-Leaves self (type_item ty) out eq =
      let same = sym (success-injective eq) in
      (
        ap (λ o. o.1) same,
        ap (λ o. added_items o.0) same
            ∙ (type-kept self ty (is_not_generic ty)).0
            ∙ sym (append-nil (added_items self)),
        ap (λ o. fixed o.0) same ∙ (type-kept self ty (is_not_generic ty)).1,
      )
  parse_item-Leaves self (const_item k) out eq =
      let same = sym (success-injective eq) in
      (
        ap (λ o. o.1) same,
        ap (λ o. added_items o.0) same ∙ sym (append-nil (added_items self)),
        ap (λ o. fixed o.0) same,
      )
  parse_item-Leaves self (verbatim_item s) out eq =
      let same = sym (success-injective eq) in
      (
        ap (λ o. o.1) same,
        ap (λ o. added_items o.0) same ∙ sym (append-nil (added_items self)),
        ap (λ o. fixed o.0) same,
      )

  hidden_items-cons :
      (item : TraitItem) (items : List TraitItem)
      → hidden_items casing (item ∷ items)
        ≡ hidden_items casing (item ∷ []) ++ hidden_items casing items
  hidden_items-cons (fn_item m) items =
      ap (λ is. is ++ hidden_items casing items) (sym (append-nil _))
  hidden_items-cons (type_item ty) items = refl
  hidden_items-cons (const_item k) items = refl
  hidden_items-cons (verbatim_item s) items = refl

  pub parse_items-Leaves :
      (items : List TraitItem) (self : DynTrait) (out : DynTrait × List TraitItem)
      → parse_items casing self items ≡ success out
      → (out.1 ≡ map kept items)
        × (added_items out.0 ≡ added_items self ++ hidden_items casing items)
        × (fixed out.0 ≡ fixed self)
  unfolding parse_items Leaves
  parse_items-Leaves [] self out eq =
      let same = sym (success-injective eq) in
      (
        ap (λ o. o.1) same,
        ap (λ o. added_items o.0) same ∙ sym (append-nil (added_items self)),
        ap (λ o. fixed o.0) same,
      )
  parse_items-Leaves (item ∷ items) self out eq =
      let (parsed, eq1, rest) = success-bind (parse_item casing self item) _ _ eq in
      let (last, eq2, eq3) = success-bind (parse_items casing parsed.0 items) _ _ rest in
      let same = sym (success-injective eq3) in
      let (left, names, include) = parse_item-Leaves self item parsed eq1 in
      let (lefts, more, includes) = parse_items-Leaves items parsed.0 last eq2 in
      (
        ap (λ o. o.1) same ∙ ap (λ i. i ∷ last.1) left ∙ ap (λ is. kept item ∷ is) lefts,
        ap (λ o. added_items o.0) same
            ∙ more
            ∙ ap (λ is. is ++ hidden_items casing items) names
            ∙ append_assoc (added_items self) _ (hidden_items casing items)
            ∙ ap (λ is. added_items self ++ is) (sym (hidden_items-cons item items)),
        ap (λ o. fixed o.0) same ∙ includes ∙ include,
      )

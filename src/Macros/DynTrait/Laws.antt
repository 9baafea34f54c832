-- ===== src/Macros/DynTrait/Laws.antt =====
-- macros/src/dyn_trait.rs: the dyn trait against its implementation, item by item.
use mathlib.Core.List.{map-append}
use dyn_utils.Prelude.{Bool, true, false, ◌≡◌, ap, ◌∙◌, sym, refl, subst, List, [], ◌∷◌, ◌++◌, map}
use dyn_utils.Macros.Shared.{success-bind, success-injective}
use dyn_utils.Macros.Syntax.{
  Ident, ImplItem, ItemTrait, Signature, SynPath, TraitItem, TraitItemType, const_item, fn_item,
  impl_fn_item, impl_type_item, success, type_item, verbatim_item,
}
use dyn_utils.Macros.DynTrait.Loop.{dyn_trait_impl_inv}
use dyn_utils.Macros.Utils.{impl_method}
use dyn_utils.Macros.Sync.{Casing}
use dyn_utils.Macros.DynTrait.{
  DynTrait, DynTraitOpts, DynTraitOutput, add_method, dyn_trait_impl, new, parse_type,
}
use dyn_utils.Macros.DynTrait.Method.{
  DynMethod, forward_method, maybe_sync_impl, maybe_sync_method, sync_method,
}

-- What an implementation has to match: the name of a type, or the signature of a method.
pub data Declared : Type 0 where
  type_named : Ident → Declared
  method_with : Signature → Declared
  nothing : Declared

abbrev pub declares : TraitItem → Declared
declares (type_item ty) = type_named ty.ident
declares (fn_item method) = method_with method.sig
declares (const_item k) = nothing
declares (verbatim_item s) = nothing

abbrev pub provides : ImplItem → Declared
provides (impl_type_item i ty) = type_named i
provides (impl_fn_item method) = method_with method.sig

pub Matching : DynTrait → Type 0
Matching self = map declares self.dyn_items ≡ map provides self.impl_items

-- An item added to both sides keeps them matching.
map-snoc {ℓ κ μ} :
    {A : Type ℓ} {B : Type κ} {C : Type μ} (f : A → C) (g : B → C) (xs : List A) (ys : List B)
    (x : A) (y : B)
    → map f xs ≡ map g ys
    → f x ≡ g y
    → map f (xs ++ (x ∷ [])) ≡ map g (ys ++ (y ∷ []))
map-snoc f g xs ys x y h k = rw (map-append f xs (x ∷ []), map-append g ys (y ∷ []), h, k) refl

parse_type-Matching :
    (self : DynTrait) (ty : TraitItemType) → Matching self → Matching (parse_type self ty)
unfolding parse_type Matching
parse_type-Matching self ty h = map-snoc declares provides self.dyn_items self.impl_items _ _ h refl

add_method-Matching :
    (casing : Casing) (self self1 : DynTrait) (m : DynMethod) (maybe_sync : Bool)
    → Matching self
    → add_method casing self m maybe_sync ≡ success self1
    → Matching self1
unfolding add_method Matching maybe_sync_impl maybe_sync_method forward_method impl_method
add_method-Matching casing self self1 m true h eq =
    let (hidden, _, eq1) = success-bind (sync_method m) _ _ eq in
    subst Matching (success-injective eq1)
      (map-snoc declares provides self.dyn_items self.impl_items _ _ h refl)
add_method-Matching casing self self1 m false h eq =
    subst Matching (success-injective eq)
      (map-snoc declares provides self.dyn_items self.impl_items _ _ h refl)

-- When `dyn_trait` succeeds, the dyn trait that it writes and its implementation have the same
-- items in the same order: a type for a type of the same name, and a method for a method of the
-- same signature.
pub dyn_trait_impl-Matching :
    (casing : Casing) (crate_name : SynPath) (trait : ItemTrait) (opts : DynTraitOpts)
    (out : DynTraitOutput)
    → dyn_trait_impl casing crate_name trait opts ≡ success out
    → map declares out.dyn_trait.items ≡ map provides out.impl_items
unfolding Matching new
dyn_trait_impl-Matching casing crate_name trait opts out eq =
    let (self, matching, dyn_items, impl_items, _) =
      dyn_trait_impl_inv casing (λ done self. Matching self)
        (λ done self ty d h. parse_type-Matching self ty h)
        (λ done self self1 method parsed d a h added.
          add_method-Matching casing _ self1 _ _ h added)
        (λ done self item d h. h) crate_name trait opts out (λ t i g. refl) eq in
    ap (map declares) dyn_items ∙ matching ∙ ap (map provides) (sym impl_items)

-- ===== src/Macros/DynTrait/Selection.antt =====
-- macros/src/dyn_trait.rs: which items of a trait the dyn trait takes over.
use mathlib.Core.List.{map-append, append_assoc, append-nil}
use dyn_utils.Prelude.{
  Bool, true, false, Option, none, some, ◌≡◌, refl, sym, ap, ◌∙◌, if◌then◌else◌, List, [], ◌∷◌,
  ◌++◌, map,
}
use dyn_utils.Macros.Shared.{success-bind, success-injective}
use dyn_utils.Macros.Syntax.{
  Bounds, Ident, ItemTrait, Signature, SynPath, TraitItem, TraitItemFn, const_item, fn_item,
  success, type_item, verbatim_item,
}
use dyn_utils.Macros.DynTrait.Loop.{dyn_trait_impl_inv, is_selected}
use dyn_utils.Macros.Utils.{return_type}
use dyn_utils.Macros.Sync.{Casing}
use dyn_utils.Macros.DynTrait.{
  DynTrait, DynTraitOpts, DynTraitOutput, add_method, dyn_trait_impl, new, parse_type,
}
use dyn_utils.Macros.DynTrait.Attrs.Laws.{parse_attrs_lem}
use dyn_utils.Macros.DynTrait.Method.{
  DynMethod, argument_as_arg, desugar_async, finish_method, future_of, maybe_sync_method,
  maybe_sync_signature, new_method, output_or_unit, sync_method, update_dyn_signature,
}

abbrev pub item_name : TraitItem → Ident
item_name (type_item ty) = ty.ident
item_name (fn_item method) = method.sig.ident
item_name (const_item k) = k.ident
item_name (verbatim_item s) = s

abbrev pub name_if : Bool → Ident → List Ident
name_if true i = i ∷ []
name_if false i = []

abbrev pub selected_names : List TraitItem → List Ident
selected_names [] = []
selected_names (item ∷ items) = name_if (is_selected item) (item_name item) ++ selected_names items

-- The names of the items that are taken over, in order.
abbrev names : DynTrait → List Ident
names self = map item_name self.dyn_items

if-ident : (b : Bool) (x y : Signature) → x.ident ≡ y.ident → (if b then x else y).ident ≡ y.ident
if-ident true x y h = h
if-ident false x y h = refl

pub ident-desugar_async : (sig : Signature) → (desugar_async sig).ident ≡ sig.ident
unfolding desugar_async
ident-desugar_async sig =
    if-ident sig.is_async
      record sig { is_async = false; output = some (future_of (output_or_unit (return_type sig))) }
      sig refl

ident-finish_method :
    (crate_ : SynPath) (gs : List Ident) (sig : Signature) (method : TraitItemFn)
    (rpit : Option Bounds) (storage : Ident)
    → (finish_method crate_ gs sig method rpit storage).dyn_method.sig.ident ≡ method.sig.ident
unfolding update_dyn_signature
ident-finish_method crate_ gs sig method none storage = refl
ident-finish_method crate_ gs sig method (some bs) storage = refl

pub ident-new_method :
    (casing : Casing) (crate_ : SynPath) (gs : List Ident) (method : TraitItemFn)
    → (new_method casing crate_ gs method).dyn_method.sig.ident ≡ method.sig.ident
unfolding new_method
ident-new_method casing crate_ gs method =
    ident-finish_method _ _ _ _ _ _
    ∙ ident-desugar_async record method.sig { inputs = map argument_as_arg method.sig.inputs }

names-add_method :
    (casing : Casing) (self self1 : DynTrait) (m : DynMethod) (maybe_sync : Bool)
    → add_method casing self m maybe_sync ≡ success self1
    → names self1 ≡ names self ++ (m.dyn_method.sig.ident ∷ [])
unfolding add_method maybe_sync_method maybe_sync_signature
names-add_method casing self self1 m true eq =
    let (hidden, _, eq1) = success-bind (sync_method m) _ _ eq in
    ap names (sym (success-injective eq1)) ∙ map-append item_name self.dyn_items _
names-add_method casing self self1 m false eq =
    ap names (sym (success-injective eq)) ∙ map-append item_name self.dyn_items _

selected_names-snoc :
    (items : List TraitItem) (item : TraitItem)
    → selected_names (items ++ (item ∷ []))
      ≡ selected_names items ++ name_if (is_selected item) (item_name item)
selected_names-snoc [] item = append-nil _
selected_names-snoc (i ∷ items) item =
    ap (λ ns. name_if (is_selected i) (item_name i) ++ ns) (selected_names-snoc items item)
    ∙ sym (append_assoc _ (selected_names items) _)

-- The items that are taken over have the names of the selected ones among the items seen.
TakesOver : List TraitItem → DynTrait → Type 0
TakesOver done self = names self ≡ selected_names done

TakesOver-snoc :
    (done : List TraitItem) (self self1 : DynTrait) (item : TraitItem) (b : Bool)
    → is_selected item ≡ b
    → TakesOver done self
    → names self1 ≡ names self ++ name_if b (item_name item)
    → TakesOver (done ++ (item ∷ [])) self1
unfolding TakesOver
TakesOver-snoc done self self1 item b d h new_names =
    new_names
    ∙ ap (λ ns. ns ++ name_if b (item_name item)) h
    ∙ ap (λ c. selected_names done ++ name_if c (item_name item)) (sym d)
    ∙ sym (selected_names-snoc done item)

-- When `dyn_trait` succeeds, the items of the dyn trait have the names of the trait's associated
-- types that are not generic and of its dispatchable methods, in the trait's order, and no others.
pub dyn_trait_impl-names :
    (casing : Casing) (crate_name : SynPath) (trait : ItemTrait) (opts : DynTraitOpts)
    (out : DynTraitOutput)
    → dyn_trait_impl casing crate_name trait opts ≡ success out
    → map item_name out.dyn_trait.items ≡ selected_names trait.items
unfolding TakesOver new parse_type
dyn_trait_impl-names casing crate_name trait opts out eq =
    let (self, taken, dyn_items, _, _) =
      dyn_trait_impl_inv casing TakesOver
        (λ done self ty d h.
          TakesOver-snoc done self (parse_type self ty) (type_item ty) true d h
            (map-append item_name self.dyn_items _))
        (λ done self self1 method parsed d read h added.
          TakesOver-snoc done self self1 (fn_item method) true d h (
            names-add_method casing _ self1 _ _ added
            ∙ ap (λ i. names self ++ (i ∷ []))
                (ident-new_method casing self.crate_ self.trait_generics parsed.1
                  ∙ ap (λ m. m.sig.ident) (parse_attrs_lem method parsed read).2)))
        (λ done self item d h.
          TakesOver-snoc done self self item false d h (sym (append-nil (names self))))
        crate_name trait opts out (λ t i g. refl) eq in
    ap (map item_name) dyn_items ∙ taken

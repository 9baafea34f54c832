-- ===== src/Macros/DynObject/Laws.antt =====
-- macros/src/dyn_object.rs: the vtable's fields, their values and the methods that read them.
use mathlib.Core.List.{append_assoc, append-nil}
use dyn_utils.Prelude.{
  Bool, true, false, ◌≡◌, refl, sym, ap, subst, ◌∙◌, if◌then◌else◌, List, [], ◌∷◌, ◌++◌, map,
}
use dyn_utils.Macros.Shared.{and_intro, and_left, and_right, success-bind, success-injective}
use dyn_utils.Macros.Syntax.{
  ItemTrait, MacroError, Result, SynPath, TraitItem, TraitItemFn, const_item, failure, fn_item,
  success, type_item, verbatim_item,
}
use dyn_utils.Macros.Utils.{all, is_dispatchable}
use dyn_utils.Macros.DynObject.{
  DynObject, DynObjectOps, DynObjectOutput, dyn_object_impl, new, parse_item, parse_items,
  quote_dyn_object,
}
use dyn_utils.Macros.DynObject.Vtable.{object_method, vtable_field, vtable_method}

-- The methods among the items.
abbrev pub fn_items : List TraitItem → List TraitItemFn
fn_items [] = []
fn_items (fn_item method ∷ items) = method ∷ fn_items items
fn_items (type_item ty ∷ items) = fn_items items
fn_items (const_item k ∷ items) = fn_items items
fn_items (verbatim_item s ∷ items) = fn_items items

if-success {ℓ} :
    {A : Type ℓ} (b : Bool) (e : MacroError) (r : Result A) (a : A)
    → (if b then r else failure e) ≡ success a
    → (b ≡ true) × (r ≡ success a)
if-success true e r a h = (refl, h)
if-success false e r a h = cc

-- The methods of one item.
abbrev methods_of : TraitItem → List TraitItemFn
methods_of (fn_item method) = method ∷ []
methods_of _ = []

parse_item_lem :
    (self : DynObject) (item : TraitItem) (out : DynObject)
    → parse_item self item ≡ success out
    → (out.methods ≡ self.methods ++ methods_of item)
      × (all is_dispatchable (methods_of item) ≡ true)
unfolding parse_item
parse_item_lem self (fn_item method) out h =
    let (ok, eq) = if-success _ _ _ _ h in
    (ap (λ o. o.methods) (sym (success-injective eq)), and_intro ok refl)
parse_item_lem self (type_item ty) out h =
    let (ok, eq) = if-success _ _ _ _ h in
    (ap (λ o. o.methods) (sym (success-injective eq)) ∙ sym (append-nil _), refl)
parse_item_lem self (const_item k) out h = cc
parse_item_lem self (verbatim_item s) out h = cc

fn_items-cons :
    (item : TraitItem) (items : List TraitItem)
    → fn_items (item ∷ items) ≡ methods_of item ++ fn_items items
fn_items-cons (fn_item method) items = refl
fn_items-cons (type_item ty) items = refl
fn_items-cons (const_item k) items = refl
fn_items-cons (verbatim_item s) items = refl

all-append :
    (test : TraitItemFn → Bool) (xs ys : List TraitItemFn)
    → all test xs ≡ true
    → all test ys ≡ true
    → all test (xs ++ ys) ≡ true
all-append test [] ys h k = k
all-append test (x ∷ xs) ys h k =
    and_intro (and_left _ _ h) (all-append test xs ys (and_right _ _ h) k)

pub parse_items_lem :
    (self : DynObject) (items : List TraitItem) (out : DynObject)
    → parse_items self items ≡ success out
    → (out.methods ≡ self.methods ++ fn_items items) × (all is_dispatchable (fn_items items) ≡ true)
unfolding parse_items
parse_items_lem self [] out h =
    (ap (λ o. o.methods) (sym (success-injective h)) ∙ sym (append-nil _), refl)
parse_items_lem self (item ∷ items) out h =
    let (self1, eq1, eq2) = success-bind (parse_item self item) _ _ h in
    let (methods1, ok1) = parse_item_lem self item self1 eq1 in
    let (methods2, ok2) = parse_items_lem self1 items out eq2 in
    (
      methods2
          ∙ ap (λ ms. ms ++ fn_items items) methods1
          ∙ append_assoc self.methods (methods_of item) (fn_items items)
          ∙ ap (λ ms. self.methods ++ ms) (sym (fn_items-cons item items)),
      rw (fn_items-cons item items)
          (all-append is_dispatchable (methods_of item) (fn_items items) ok1 ok2),
    )

-- What `dyn_object` writes for the methods of a trait, in their order.
pub ForMethods : List TraitItemFn → DynObjectOutput → Type 0
ForMethods methods out =
    (all is_dispatchable methods ≡ true)
    × (out.vtable_fields ≡ map (λ m. m.sig.ident) methods)
    × (map (λ m. m.name) out.vtable_methods ≡ out.vtable_fields)
    × (map (λ m. m.field) out.impl_methods ≡ out.vtable_fields)
    × (map (λ m. m.sig) out.impl_methods ≡ map (λ m. m.sig) methods)

map-vtable_method :
    (ms : List TraitItemFn) → map (λ m. m.name) (map vtable_method ms) ≡ map vtable_field ms
unfolding vtable_method vtable_field
map-vtable_method [] = refl
map-vtable_method (m ∷ ms) = rw (map-vtable_method ms) refl

map-object_method :
    (ms : List TraitItemFn)
    → (map (λ m. m.field) (map object_method ms) ≡ map vtable_field ms)
      × (map (λ m. m.sig) (map object_method ms) ≡ map (λ m. m.sig) ms)
unfolding object_method vtable_field
map-object_method [] = (refl, refl)
map-object_method (m ∷ ms) =
    (rw ((map-object_method ms).0) refl, rw ((map-object_method ms).1) refl)

quote_dyn_object-ForMethods :
    (self : DynObject)
    → all is_dispatchable self.methods ≡ true
    → ForMethods self.methods (quote_dyn_object self)
unfolding quote_dyn_object ForMethods vtable_field
quote_dyn_object-ForMethods self ok =
    let (fields, sigs) = map-object_method self.methods in
    (ok, refl, map-vtable_method self.methods, fields, sigs)

-- The functions of the vtable and of the implementation, method by method.
pub dyn_object_impl_lists :
    (crate_name : SynPath) (trait : ItemTrait) (opts : DynObjectOps) (out : DynObjectOutput)
    → dyn_object_impl crate_name trait opts ≡ success out
    → (all is_dispatchable (fn_items trait.items) ≡ true)
      × (out.impl_methods ≡ map object_method (fn_items trait.items))
      × (out.vtable_methods ≡ map vtable_method (fn_items trait.items))
unfolding dyn_object_impl new quote_dyn_object
dyn_object_impl_lists crate_name trait opts out h =
    let (self, eq1, eq2) =
      success-bind (parse_items (new crate_name trait opts) trait.items) _ _ h in
    let (same, ok) = parse_items_lem _ trait.items self eq1 in
    let made = sym (success-injective eq2) in
    (
      ok,
      ap (λ o. o.impl_methods) made ∙ ap (map object_method) same,
      ap (λ o. o.vtable_methods) made ∙ ap (map vtable_method) same,
    )

-- When `dyn_object` succeeds, every method of the trait is dispatchable. The fields of the vtable,
-- the values that the vtable is built with and the methods that read them have the names of the
-- trait's methods, in the trait's order, and the methods of the implementation have the trait's
-- signatures.
pub dyn_object_impl-ForMethods :
    (crate_name : SynPath) (trait : ItemTrait) (opts : DynObjectOps) (out : DynObjectOutput)
    → dyn_object_impl crate_name trait opts ≡ success out
    → ForMethods (fn_items trait.items) out
unfolding dyn_object_impl new
dyn_object_impl-ForMethods crate_name trait opts out h =
    let (self, eq1, eq2) =
      success-bind (parse_items (new crate_name trait opts) trait.items) _ _ h in
    let (same, ok) = parse_items_lem _ trait.items self eq1 in
    subst (λ ms. ForMethods ms out) same
      (subst (ForMethods self.methods) (success-injective eq2)
        (quote_dyn_object-ForMethods self (rw same ok)))

-- ===== src/Macros/DynObject/Pointers.antt =====
-- macros/src/dyn_object.rs: the function pointer of a method where the vtable builds it and where
-- the object calls it.
use text.Mathlib.Text.{◌==◌ as str_eq}
use mathlib.Core.Option.{map as option_map, some-injective}
use dyn_utils.Prelude.{
  Bool, true, false, not, Option, none, some, ◌≡◌, refl, ap, subst, ◌∙◌, List, [], ◌∷◌, map,
  if◌then◌else◌,
}
use dyn_utils.Macros.Parts.{generic_lifetimes}
use dyn_utils.Macros.Visit.{visit_type}
use dyn_utils.Macros.Shared.{and_intro, and_left}
use dyn_utils.Macros.Syntax.{Argument, Ident, Lifetime, Receiver, RustSyntax, TraitItemFn}
use dyn_utils.Macros.Utils.{all, has_dyn_trait_receiver, is_dispatchable, is_some, pinned_ref}
use dyn_utils.Macros.Visit.Closed.{Check, Establishes, check-visit_type, check_type}
use dyn_utils.Macros.DynObject.Vtable.{
  FnPointer, VtableReceiver, argument_types, output_type, fn_pointer_of, new_receiver, pointer_at,
  pointer_for, receiver_for, receiver_lifetime, replace_self_with_dyn, vtable_fn_pointer,
  vtable_receiver,
}

-- No path has a segment `Self`.
unfoldable pub no_self : Check
no_self = record {
  lifetime_ok = λ lt. true;
  segment_ok = λ i. not (str_eq i "Self");
  elided_ok = true;
}

segment_ok-if :
    (i : Ident) (b : Bool)
    → str_eq i "Self" ≡ b
    → not (str_eq (if b then "__Dyn" else i) "Self") ≡ true
segment_ok-if i true h = refl
segment_ok-if i false h = rw h refl

replace_self_with_dyn-Establishes : Establishes replace_self_with_dyn no_self
unfolding replace_self_with_dyn no_self
replace_self_with_dyn-Establishes = record {
  lifetimes_hold = λ lt. refl;
  segments_hold = λ i. segment_ok-if i _ refl;
  elided_hold = λ h. refl;
}

check-argument_types :
    (args : List Argument) → all (check_type no_self) (argument_types true args) ≡ true
check-argument_types [] = refl
check-argument_types (arg ∷ args) =
    and_intro (check-visit_type replace_self_with_dyn-Establishes arg.ty)
      (check-argument_types args)

argument_types-false : (args : List Argument) → argument_types false args ≡ map (λ arg. arg.ty) args
argument_types-false [] = refl
argument_types-false (arg ∷ args) = rw (argument_types-false args) refl

some_of_is_some {ℓ} : {A : Type ℓ} (o : Option A) → is_some o ≡ true → (a : A) × (o ≡ some a)
some_of_is_some none h = cc
some_of_is_some (some a) h = (a, refl)

reference_lifetime :
    (r : Option (Option Lifetime)) (ty : RustSyntax)
    → elim r [ some lt ↦ true | none ↦ is_some (pinned_ref ty) ] ≡ true
    → (lt : Option Lifetime) × (elim r [ some lt ↦ some lt | none ↦ pinned_ref ty ] ≡ some lt)
reference_lifetime none ty h = some_of_is_some (pinned_ref ty) h
reference_lifetime (some lt) ty h = (lt, refl)

receiver_of_has_dyn_trait_receiver :
    (o : Option Receiver)
    → has_dyn_trait_receiver o ≡ true
    → (recv : Receiver) × (o ≡ some recv)
      × (lt : Option Lifetime) × (receiver_lifetime recv ≡ some lt)
unfolding has_dyn_trait_receiver receiver_lifetime
receiver_of_has_dyn_trait_receiver none h = cc
receiver_of_has_dyn_trait_receiver (some recv) h =
    let (lt, eq) = reference_lifetime recv.reference recv.ty h in (recv, refl, lt, eq)

-- What is written for a type of the method in the vtable, where `Self` is the stored type.
abbrev pub dyn_type_of : RustSyntax → RustSyntax
dyn_type_of ty = visit_type replace_self_with_dyn ty

-- The pointers `p` and `q` of the vtable and of the object take the storage in the same way and are
-- both `unsafe` or both not. `q` has the types of the trait's method, in order. `p` has those with
-- `Self` replaced, so that none is left, and the lifetimes of the method.
pub record Agree (method : TraitItemFn) (p q : FnPointer) : Type 0 where
  pub same_storage : p.storage ≡ q.storage
  pub same_unsafe : p.is_unsafe ≡ q.is_unsafe
  pub params_of_trait : q.params ≡ map (λ arg. arg.ty) method.sig.inputs
  pub output_of_trait : q.output ≡ method.sig.output
  pub no_lifetimes : q.lifetimes ≡ []
  pub params_replaced : p.params ≡ map dyn_type_of q.params
  pub output_replaced : p.output ≡ option_map dyn_type_of q.output
  pub lifetimes_of_trait : p.lifetimes ≡ generic_lifetimes method.sig.generics
  pub params_closed : all (check_type no_self) p.params ≡ true
  pub output_closed : (ty : RustSyntax) → p.output ≡ some ty → check_type no_self ty ≡ true

argument_types-true :
    (args : List Argument) → argument_types true args ≡ map dyn_type_of (argument_types false args)
argument_types-true [] = refl
argument_types-true (arg ∷ args) = rw (argument_types-true args) refl

output_type-false : (o : Option RustSyntax) → output_type false o ≡ o
output_type-false none = refl
output_type-false (some ty) = refl

output_type-true :
    (o : Option RustSyntax) → output_type true o ≡ option_map dyn_type_of (output_type false o)
output_type-true none = refl
output_type-true (some ty) = refl

check-output_type :
    (o : Option RustSyntax) (ty : RustSyntax)
    → output_type true o ≡ some ty
    → check_type no_self ty ≡ true
check-output_type none ty h = cc
check-output_type (some given) ty h =
    subst (λ t. check_type no_self t ≡ true) (some-injective _ _ h)
      (check-visit_type replace_self_with_dyn-Establishes given)

-- For a dispatchable method neither of the two calls of `vtable_fn_pointer` panics, and
-- `VtableReceiver::new` does not. The pointers that they return take the storage in the same way and
-- are both `unsafe` or both not. The object's has the parameters and the output of the trait's
-- method, in order; the vtable's has the same ones with `Self` replaced by the stored type, so that
-- no `Self` is left, and is generic over the lifetimes of the method.
pub vtable_fn_pointer-Agree :
    (method : TraitItemFn)
    → is_dispatchable method ≡ true
    → (p : FnPointer) × (q : FnPointer) × (r : VtableReceiver) × (vtable_fn_pointer method true
        ≡ some p)
      × (vtable_fn_pointer method false ≡ some q)
      × (new_receiver method ≡ some r)
      × Agree method p q
unfolding is_dispatchable vtable_fn_pointer new_receiver
vtable_fn_pointer-Agree method h =
    let (recv, h1, lt, h2) =
      receiver_of_has_dyn_trait_receiver method.sig.receiver (and_left _ _ h) in
    (
      fn_pointer_of method true recv lt,
      fn_pointer_of method false recv lt,
      vtable_receiver recv,
      ap (pointer_for method true) h1 ∙ ap (pointer_at method true recv) h2,
      ap (pointer_for method false) h1 ∙ ap (pointer_at method false recv) h2,
      ap receiver_for h1,
      record {
        same_storage = refl;
        same_unsafe = refl;
        params_of_trait = argument_types-false method.sig.inputs;
        output_of_trait = output_type-false method.sig.output;
        no_lifetimes = refl;
        params_replaced = argument_types-true method.sig.inputs;
        output_replaced = output_type-true method.sig.output;
        lifetimes_of_trait = refl;
        params_closed = check-argument_types method.sig.inputs;
        output_closed = check-output_type method.sig.output;
      },
    )

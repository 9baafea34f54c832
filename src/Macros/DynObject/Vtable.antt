-- ===== src/Macros/DynObject/Vtable.antt =====
-- macros/src/dyn_object.rs: the field of a method in the vtable, the function that fills it and the
-- method that calls it.
use text.Mathlib.Text.{◌==◌ as str_eq}
use dyn_utils.Prelude.{Bool, true, false, Option, none, some, if◌then◌else◌, List, [], ◌∷◌}
use dyn_utils.Macros.Parts.{generic_lifetimes}
use dyn_utils.Macros.Syntax.{
  Argument, Exprs, Ident, Lifetime, Receiver, RustSyntax, Signature, TraitItemFn, angle_bracketed,
  no_arguments, no_generic, path_type, prefixed, reference, segment, type_argument,
}
use dyn_utils.Macros.Visit.{Visitor, visit_type}
use dyn_utils.Macros.Utils.{fn_args, pinned_ref, skip_one}

pub data VtableReceiver : Type 0 where
  by_ref by_mut by_pinned : VtableReceiver

abbrev pub vtable_receiver : Receiver → VtableReceiver
vtable_receiver recv = elim recv.reference [
  | none ↦ by_pinned
  | some lt ↦ if recv.mutability then by_mut else by_ref
]

abbrev pub receiver_for : Option Receiver → Option VtableReceiver
receiver_for none = none
receiver_for (some recv) = some (vtable_receiver recv)

-- `VtableReceiver::new`; `none` is the panic of the source on a method without a receiver.
unfoldable pub new_receiver : TraitItemFn → Option VtableReceiver
new_receiver method = receiver_for method.sig.receiver

-- `ReplaceSelfWithDyn`: `Self` is written `__Dyn`.
abbrev pub replace_segment : Ident → Ident
replace_segment i = if str_eq i "Self" then "__Dyn" else i

unfoldable pub replace_self_with_dyn : Visitor
replace_self_with_dyn = record {
  on_lifetime = λ lt. lt;
  on_elided = none;
  on_segment = replace_segment;
}

pub record FnPointer : Type 0 where
  pub lifetimes : List Lifetime
  pub is_unsafe : Bool
  pub storage : RustSyntax
  pub params : List RustSyntax
  pub output : Option RustSyntax

abbrev storage_param : RustSyntax
storage_param = path_type (segment "__Storage" no_arguments)

-- How the storage is passed to a function of the vtable.
unfoldable pub storage_type : VtableReceiver → Option Lifetime → RustSyntax
storage_type by_ref lt = reference lt false storage_param
storage_type by_mut lt = reference lt true storage_param
storage_type by_pinned lt = path_type (
    prefixed "core" no_arguments (
      prefixed "pin" no_arguments (
        segment "Pin"
          (angle_bracketed (type_argument (reference lt true storage_param) no_generic)))))

-- The lifetime of the reference in the receiver; `none` is the panic of the source.
unfoldable pub receiver_lifetime : Receiver → Option (Option Lifetime)
receiver_lifetime recv = elim recv.reference [ some lt ↦ some lt | none ↦ pinned_ref recv.ty ]

abbrev replace_if : Bool → RustSyntax → RustSyntax
replace_if new_vtable ty = if new_vtable then visit_type replace_self_with_dyn ty else ty

abbrev pub argument_types : Bool → List Argument → List RustSyntax
argument_types new_vtable [] = []
argument_types new_vtable (arg ∷ args) =
    replace_if new_vtable arg.ty ∷ argument_types new_vtable args

abbrev pub output_type : Bool → Option RustSyntax → Option RustSyntax
output_type new_vtable none = none
output_type new_vtable (some ty) = some (replace_if new_vtable ty)

abbrev pub fn_pointer_of : TraitItemFn → Bool → Receiver → Option Lifetime → FnPointer
fn_pointer_of method new_vtable recv lt = record {
  lifetimes = if new_vtable then generic_lifetimes method.sig.generics else [];
  is_unsafe = method.sig.is_unsafe;
  storage = storage_type (vtable_receiver recv) lt;
  params = argument_types new_vtable method.sig.inputs;
  output = output_type new_vtable method.sig.output;
}

abbrev pub pointer_at : TraitItemFn → Bool → Receiver → Option (Option Lifetime) → Option FnPointer
pointer_at method new_vtable recv none = none
pointer_at method new_vtable recv (some lt) = some (fn_pointer_of method new_vtable recv lt)

abbrev pub pointer_for : TraitItemFn → Bool → Option Receiver → Option FnPointer
pointer_for method new_vtable none = none
pointer_for method new_vtable (some recv) =
    pointer_at method new_vtable recv (receiver_lifetime recv)

-- The type of the function that the vtable holds for a method: as the vtable builds it, when
-- `new_vtable` is set, and as the object calls it. `none` is a panic of the source.
unfoldable pub vtable_fn_pointer : TraitItemFn → Bool → Option FnPointer
vtable_fn_pointer method new_vtable = pointer_for method new_vtable method.sig.receiver

-- The type `unsafe fn()` stands for every field.
unfoldable pub vtable_field : TraitItemFn → Ident
vtable_field method = method.sig.ident

abbrev pub accessor : VtableReceiver → Ident
accessor by_ref = "as_ref"
accessor by_mut = "as_mut"
accessor by_pinned = "as_pinned_mut"

-- `name: transmute::<fn_ptr, unsafe fn()>(|__self, args| transmute(__Dyn::name(self, args)))`, where
-- `self` is the storage's `as_ref`, `as_mut` or `as_pinned_mut`, and each argument is transmuted.
pub record VtableMethod : Type 0 where
  pub name : Ident
  pub fn_ptr : Option FnPointer
  pub self_as : Option Ident
  pub args : Exprs

abbrev pub accessor_of : Option VtableReceiver → Option Ident
accessor_of none = none
accessor_of (some r) = some (accessor r)

unfoldable pub vtable_method : TraitItemFn → VtableMethod
vtable_method method = record {
  name = method.sig.ident;
  fn_ptr = vtable_fn_pointer method true;
  self_as = accessor_of (new_receiver method);
  args = skip_one (fn_args method.sig);
}

abbrev pub storage_accessor : VtableReceiver → Ident
storage_accessor by_ref = "storage"
storage_accessor by_mut = "storage_mut"
storage_accessor by_pinned = "storage_pinned_mut"

abbrev pub storage_accessor_of : Option VtableReceiver → Option Ident
storage_accessor_of none = none
storage_accessor_of (some r) = some (storage_accessor r)

-- `transmute::<unsafe fn(), fn_ptr>(self.vtable().name)(self.storage(), args)`, with the trait's own
-- signature.
pub record ObjectMethod : Type 0 where
  pub sig : Signature
  pub field : Ident
  pub fn_ptr : Option FnPointer
  pub self_as : Option Ident
  pub args : Exprs

-- `DynObject::impl_method`
unfoldable pub object_method : TraitItemFn → ObjectMethod
object_method method = record {
  sig = method.sig;
  field = method.sig.ident;
  fn_ptr = vtable_fn_pointer method false;
  self_as = storage_accessor_of (new_receiver method);
  args = skip_one (fn_args method.sig);
}

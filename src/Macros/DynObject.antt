-- ===== src/Macros/DynObject.antt =====
-- macros/src/dyn_object.rs: the attribute `dyn_object`, which writes the vtable of a trait and the
-- implementation of the trait for `DynObject`.
use text.Mathlib.Text.{◌==◌ as str_eq}
use Prim.Native.String.{◌++◌ as str_append}
use dyn_utils.Prelude.{
  String, Bool, true, false, ◌||◌, Option, none, some, if◌then◌else◌, List, [], ◌∷◌, ◌++◌, map,
}
use dyn_utils.Macros.Parts.{attribute_path, path_with, unwrap_or, with_generics}
use dyn_utils.Macros.Syntax.{
  Bounds, GenericArguments, GenericParam, Ident, ImplItem, ItemTrait, Predicate, Result, RustSyntax,
  SynPath, TraitAttribute, TraitItem, TraitItemFn, TraitItemType, assoc_type, const_item,
  const_param, expected_plus, failure, fn_item, generic_assoc_type, impl_type_item,
  lifetime_argument, lifetime_bound, lifetime_param, no_arguments, no_bounds, no_generic,
  not_dispatchable, path_type, segment, success, trait_bound, trait_object, type_argument,
  type_item, type_param, unknown_attribute, unsupported_item, verbatim_item, ◌>>=◌,
}
use dyn_utils.Macros.Utils.{is_dispatchable, is_empty, is_none, is_some, last_segment}
use dyn_utils.Macros.DynObject.Vtable.{
  ObjectMethod, VtableMethod, object_method, vtable_field, vtable_method,
}
pub mod Vtable
pub mod Laws
pub mod Pointers
pub mod Outcome

-- The bounds are paths joined by `+`.
pub record DynObjectOps : Type 0 where
  pub bounds : List SynPath
  pub crate_ : Option SynPath
  pub remote : Option SynPath

pub data DynObjectMeta : Type 0 where
  bounds_option : List SynPath → DynObjectMeta
  crate_option : SynPath → DynObjectMeta
  remote_option : SynPath → DynObjectMeta
  unknown_option : Ident → DynObjectMeta

-- The bounds are read up to the end of the input: it is an error if anything follows the option.
unfoldable pub parse_meta : DynObjectOps → DynObjectMeta → Bool → Result DynObjectOps
parse_meta opts (bounds_option ps) at_end =
    if at_end then success record opts { bounds = ps } else failure expected_plus
parse_meta opts (crate_option p) at_end = success record opts { crate_ = some p }
parse_meta opts (remote_option p) at_end = success record opts { remote = some p }
parse_meta opts (unknown_option i) at_end = failure unknown_attribute

pub record DynObject : Type 0 where
  pub trait : ItemTrait
  pub include_trait : Bool
  pub crate_ : SynPath
  pub remote : SynPath
  pub bounds : List SynPath
  pub types : List (Ident × TraitItemType)
  pub methods : List TraitItemFn

unfoldable pub has_dyn_object_attr : List TraitAttribute → Bool
has_dyn_object_attr [] = false
has_dyn_object_attr (attr ∷ attrs) =
    is_some (last_segment (attribute_path attr) "dyn_object") || has_dyn_object_attr attrs

unfoldable pub new : SynPath → ItemTrait → DynObjectOps → DynObject
new crate_name trait opts = record {
  trait = trait;
  include_trait = is_none opts.remote || has_dyn_object_attr trait.attrs;
  crate_ = unwrap_or opts.crate_ crate_name;
  remote = unwrap_or opts.remote (segment trait.ident no_arguments);
  bounds = opts.bounds;
  types = [];
  methods = [];
}

-- One item of the trait, as the loop of `dyn_object_impl` reads it.
unfoldable pub parse_item : DynObject → TraitItem → Result DynObject
parse_item self (fn_item method) =
    if is_dispatchable method
    then success record self { methods = self.methods ++ (method ∷ []) }
    else failure not_dispatchable
parse_item self (type_item ty) =
    if is_empty ty.params
    then success record self { types = self.types ++ ((str_append "__Type" ty.ident, ty) ∷ []) }
    else failure generic_assoc_type
parse_item self (const_item k) = failure unsupported_item
parse_item self (verbatim_item s) = failure unsupported_item

unfoldable pub parse_items : DynObject → List TraitItem → Result DynObject
parse_items self [] = success self
parse_items self (item ∷ items) = parse_item self item >>= λ self1. parse_items self1 items

abbrev param_path : Ident → RustSyntax
param_path i = path_type (segment i no_arguments)

abbrev type_arguments : List (Ident × TraitItemType) → GenericArguments
type_arguments [] = no_generic
type_arguments ((ty_arg, ty) ∷ ts) = assoc_type ty.ident (param_path ty_arg) (type_arguments ts)

abbrev generic_arguments : List GenericParam → GenericArguments → GenericArguments
generic_arguments [] rest = rest
generic_arguments (lifetime_param lt bs ∷ ps) rest =
    lifetime_argument lt (generic_arguments ps rest)
generic_arguments (type_param i bs d ∷ ps) rest =
    type_argument (param_path i) (generic_arguments ps rest)
generic_arguments (const_param i ty d ∷ ps) rest =
    type_argument (param_path i) (generic_arguments ps rest)

abbrev path_bounds : List SynPath → Bounds
path_bounds [] = no_bounds
path_bounds (p ∷ ps) = trait_bound p (path_bounds ps)

-- `remote<args, Name = __TypeName> + '__lt + bounds`
unfoldable pub dyn_trait : DynObject → Bounds
dyn_trait self =
    trait_bound
      (path_with self.remote (generic_arguments self.trait.generics (type_arguments self.types)))
      (lifetime_bound "'__lt" (path_bounds self.bounds))

abbrev without_default : GenericParam → GenericParam
without_default (lifetime_param lt bs) = lifetime_param lt bs
without_default (type_param i bs d) = type_param i bs none
without_default (const_param i ty d) = const_param i ty none

abbrev type_generic : Ident × TraitItemType → GenericParam
type_generic (ty_arg, ty) = type_param ty_arg ty.bounds none

unfoldable pub generics : DynObject → List GenericParam
generics self =
    lifetime_param "'__lt" []
    ∷ (map without_default self.trait.generics ++ map type_generic self.types)

unfoldable pub impl_type : Ident × TraitItemType → ImplItem
impl_type (ty_param, ty) = impl_type_item ty.ident (param_path ty_param)

-- What the macro writes: the types, generics and predicates of its implementations, the fields of
-- `__Vtable` after `__drop_in_place` and `__layout`, the values that `vtable` gives them, and the
-- items of the implementation.
pub record DynObjectOutput : Type 0 where
  pub opt_trait : Option ItemTrait
  pub crate_ : SynPath
  pub remote_with_args : SynPath
  pub predicates : List Predicate
  pub dyn_type : RustSyntax
  pub impl_generics : List GenericParam
  pub vtable_fields : List Ident
  pub vtable_methods : List VtableMethod
  pub impl_types : List ImplItem
  pub impl_methods : List ObjectMethod

unfoldable pub quote_dyn_object : DynObject → DynObjectOutput
quote_dyn_object self = record {
  opt_trait = if self.include_trait then some self.trait else none;
  crate_ = self.crate_;
  remote_with_args = with_generics self.remote self.trait.generics;
  predicates = self.trait.predicates;
  dyn_type = trait_object (dyn_trait self);
  impl_generics = generics self;
  vtable_fields = map vtable_field self.methods;
  vtable_methods = map vtable_method self.methods;
  impl_types = map impl_type self.types;
  impl_methods = map object_method self.methods;
}

unfoldable pub dyn_object_impl : SynPath → ItemTrait → DynObjectOps → Result DynObjectOutput
dyn_object_impl crate_name trait opts =
    parse_items (new crate_name trait opts) trait.items >>= λ self. success (quote_dyn_object self)

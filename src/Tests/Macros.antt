-- ===== src/Tests/Macros.antt =====
-- The macros on a trait with an associated type, an async method and a plain one.
use Prim.Native.String.{◌++◌ as str_append}
use dyn_utils.Prelude.{Bool, true, false, none, some, ◌≡◌, refl, [], ◌∷◌, map}
use dyn_utils.Macros.Syntax.{
  reference, Bounds, ImplItemFn, ItemTrait, SynPath, Receiver, Result, RustSyntax, Signature,
  TraitItemFn, TraitItemType, dyn_trait_attribute, failure, fn_item, ident_pattern, list_attribute,
  maybe_sync_item, no_arguments, no_bounds, path_type, plain_attribute, prefixed, segment, success,
  trait_bound, type_item, unimplemented,
}
use dyn_utils.Macros.Utils.{
  future_output, has_dyn_trait_receiver, is_dispatchable, is_lifetime_param, is_not_generic,
  last_segment, return_type,
}
use dyn_utils.Macros.Sync.{Casing, SyncItems, sync_impl}
use dyn_utils.Macros.DynTrait.{
  DynTraitOpts, DynTraitOutput, add_method, dyn_trait_impl, extract_dyn_trait_attrs, parse_method,
  parse_item as parse_trait_item, parse_items as parse_trait_items,
}
use dyn_utils.Macros.DynTrait.Attrs.{
  default_attrs, has_rpit, impl_bounds, parse_attributes, parse_attrs, parse_nested_meta,
  MethodAttrs,
}
use dyn_utils.Macros.DynTrait.Captured.{new as captured_new}
use dyn_utils.Macros.DynTrait.Method.{desugar_async, hidden_const, new_method, sync_method}
use dyn_utils.Macros.DynTrait.Selection.{dyn_trait_impl-names, item_name, selected_names}
use dyn_utils.Macros.DynTrait.Attrs.Laws.{parse_attrs_lem, last_storage, any_maybe_sync}
use dyn_utils.Macros.DynTrait.Names.{Overrides, sync_impl-Overrides}
use dyn_utils.Macros.DynTrait.Laws.{declares, dyn_trait_impl-Matching, provides}
use dyn_utils.Macros.DynObject.{
  DynObjectOps, DynObjectOutput, dyn_object_impl, parse_item as parse_object_item,
  parse_items as parse_object_items,
}
use dyn_utils.Macros.DynObject.Vtable.{FnPointer, VtableReceiver, new_receiver, vtable_fn_pointer}
use dyn_utils.Macros.DynObject.Pointers.{Agree, vtable_fn_pointer-Agree}

abbrev pub casing : Casing
casing = record {
  to_pascal_case = λ i. i;
  to_uppercase = λ i. i;
  fill_template = λ t i. str_append "Dyn" i;
  is_ident = λ t. true;
}

abbrev pub crate_path : SynPath
crate_path = prefixed "dyn_utils" no_arguments (segment "v0" no_arguments)

abbrev pub self_type : RustSyntax
self_type = path_type (segment "Self" no_arguments)

abbrev mut_self : Receiver
mut_self = record { reference = some none; mutability = true; ty = reference none true self_type }

abbrev pub ref_self : Receiver
ref_self = record { reference = some none; mutability = false; ty = reference none false self_type }

-- `async fn push(&mut self, mut x: &Self) -> u8`
abbrev pub push_sig : Signature
push_sig = record {
  is_async = true;
  is_unsafe = false;
  ident = "push";
  generics = [];
  predicates = [];
  receiver = some mut_self;
  inputs =
      record { pattern = ident_pattern false true "x"; ty = reference none false self_type } ∷ [];
  output = some (path_type (segment "u8" no_arguments));
}

-- `fn len(&self) -> usize`
abbrev len_sig : Signature
len_sig = record {
  is_async = false;
  is_unsafe = false;
  ident = "len";
  generics = [];
  predicates = [];
  receiver = some ref_self;
  inputs = [];
  output = some (path_type (segment "usize" no_arguments));
}

abbrev pub push : TraitItemFn
push = record {
  attrs = dyn_trait_attribute (maybe_sync_item ∷ []) ∷ [];
  sig = push_sig;
  default = none;
}

abbrev pub len : TraitItemFn
len = record { attrs = []; sig = len_sig; default = none }

abbrev pub item_type : TraitItemType
item_type = record { ident = "Item"; params = []; where_clause = none; bounds = no_bounds }

abbrev pub sink : ItemTrait
sink = record {
  attrs =
      list_attribute (segment "dyn_trait" no_arguments)
        (plain_attribute (segment "dyn_object" no_arguments) "")
      ∷ [];
  is_unsafe = false;
  ident = "Sink";
  generics = [];
  predicates = [];
  supertraits = no_bounds;
  items = type_item item_type ∷ fn_item push ∷ fn_item len ∷ [];
}

abbrev pub value_or {ℓ} : {A : Type ℓ} → Result A → A → A
value_or (success a) b = a
value_or (failure e) b = b

abbrev pub is_success {ℓ} : {A : Type ℓ} → Result A → Bool
is_success (success a) = true
is_success (failure e) = false

pub value_or_lem {ℓ} :
    {A : Type ℓ} (r : Result A) (b : A) → is_success r ≡ true → r ≡ success (value_or r b)
value_or_lem (success a) b h = refl
value_or_lem (failure e) b h = cc

abbrev pub trait_opts : DynTraitOpts
trait_opts = record { crate_ = none; remote = none; name_template = none }

abbrev pub no_trait_output : DynTraitOutput
no_trait_output = record {
  opt_trait = none;
  docs = [];
  dyn_trait = sink;
  impl_generics = [];
  impl_type_generics = [];
  impl_items = [];
}

abbrev pub written_trait : DynTraitOutput
written_trait = value_or (dyn_trait_impl casing crate_path sink trait_opts) no_trait_output

pub written_trait-success : dyn_trait_impl casing crate_path sink trait_opts ≡ success written_trait
unfolding dyn_trait_impl extract_dyn_trait_attrs last_segment parse_trait_items parse_trait_item
    is_not_generic is_dispatchable has_dyn_trait_receiver is_lifetime_param parse_method parse_attrs
    parse_attributes has_rpit default_attrs impl_bounds return_type parse_nested_meta new_method
    desugar_async add_method sync_method future_output
written_trait-success = value_or_lem _ no_trait_output refl

dyn_trait_impl-Matching_example :
    map declares written_trait.dyn_trait.items ≡ map provides written_trait.impl_items
dyn_trait_impl-Matching_example =
    dyn_trait_impl-Matching casing crate_path sink trait_opts written_trait written_trait-success

abbrev override_push : ImplItemFn
override_push = record { sig = push_sig; block = unimplemented }

sync_impl-Overrides_example :
    (out : SyncItems) × (hidden : TraitItemFn) × (sync_impl casing override_push ≡ success out)
    × (sync_method (new_method casing crate_path [] push) ≡ success hidden)
    × Overrides casing out hidden (hidden_const casing (new_method casing crate_path [] push))
sync_impl-Overrides_example = sync_impl-Overrides casing crate_path [] push override_push refl refl

-- `fn push(&mut self, x: &Self) -> impl Iterator`
abbrev iterator_bounds : Bounds
iterator_bounds = trait_bound (segment "Iterator" no_arguments) no_bounds

abbrev pub object_opts : DynObjectOps
object_opts = record { bounds = []; crate_ = none; remote = none }

abbrev pub no_object_output : DynObjectOutput
no_object_output = record {
  opt_trait = none;
  crate_ = crate_path;
  remote_with_args = crate_path;
  predicates = [];
  dyn_type = self_type;
  impl_generics = [];
  vtable_fields = [];
  vtable_methods = [];
  impl_types = [];
  impl_methods = [];
}

abbrev pub written_object : DynObjectOutput
written_object = value_or (dyn_object_impl crate_path sink object_opts) no_object_output

pub written_object-success : dyn_object_impl crate_path sink object_opts ≡ success written_object
unfolding dyn_object_impl parse_object_items parse_object_item is_dispatchable
    has_dyn_trait_receiver is_lifetime_param
written_object-success = value_or_lem _ no_object_output refl

push-is_dispatchable : is_dispatchable push ≡ true
unfolding is_dispatchable has_dyn_trait_receiver
push-is_dispatchable = refl

vtable_fn_pointer-Agree_example :
    (p : FnPointer) × (q : FnPointer) × (r : VtableReceiver) × (vtable_fn_pointer push true
      ≡ some p)
    × (vtable_fn_pointer push false ≡ some q)
    × (new_receiver push ≡ some r)
    × Agree push p q
vtable_fn_pointer-Agree_example = vtable_fn_pointer-Agree push push-is_dispatchable

dyn_trait_impl-names_example :
    map item_name written_trait.dyn_trait.items
    ≡ selected_names (type_item item_type ∷ fn_item push ∷ fn_item len ∷ [])
dyn_trait_impl-names_example =
    dyn_trait_impl-names casing crate_path sink trait_opts written_trait written_trait-success

-- `#[dyn_trait(maybe_sync)]` is read from `push` and removed.
abbrev read_push : MethodAttrs × TraitItemFn
read_push = (record { storage = none; maybe_sync = true }, record push { attrs = [] })

read_push-success : parse_attrs push ≡ success read_push
unfolding parse_attrs parse_attributes parse_nested_meta has_rpit default_attrs
read_push-success = refl

parse_attrs_lem_example :
    ((read_push.0).storage ≡ last_storage none (maybe_sync_item ∷ []))
    × ((read_push.0).maybe_sync ≡ any_maybe_sync (maybe_sync_item ∷ []))
    × (read_push.1 ≡ record push { attrs = [] })
    × (has_rpit push.sig ≡ false → read_push.1 ≡ push)
parse_attrs_lem_example = parse_attrs_lem push read_push read_push-success

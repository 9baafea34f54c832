-- ===== src/Macros/DynTrait.antt =====
-- macros/src/dyn_trait.rs: the attribute `dyn_trait`, which writes a dyn-compatible version of a
-- trait with its implementation.
use text.Mathlib.Text.{◌==◌ as str_eq}
use dyn_utils.Prelude.{
  String, Bool, true, false, not, ◌&&◌, ◌||◌, Option, none, some, if◌then◌else◌, List, [], ◌∷◌,
  ◌++◌,
}
use dyn_utils.Macros.Parts.{attribute_path, unwrap_or, with_generics}
use dyn_utils.Macros.Syntax.{
  GenericParam, Ident, ImplItem, ItemTrait, Result, SynPath, TraitAttribute, TraitItem, TraitItemFn,
  TraitItemType, const_item, const_param, failure, fn_item, generics_with_dyn_object, impl_fn_item,
  impl_type_item, invalid_trait_name, lifetime_param, list_attribute, list_tokens, macro_panicked,
  no_arguments, no_bounds, not_a_list, path_type, plain_attribute, qualified, segment, success,
  trait_bound, type_item, type_param, unknown_attribute, verbatim_item, ◌>>=◌,
}
use dyn_utils.Macros.Utils.{
  is_dispatchable, is_empty, is_none, is_not_generic, is_some, last_segment,
}
use dyn_utils.Macros.Sync.{Casing}
use dyn_utils.Macros.DynTrait.Attrs.{parse_attrs}
use dyn_utils.Macros.DynTrait.Method.{
  DynMethod, forward_method, generic_storage, hidden_const, maybe_sync_impl, maybe_sync_method,
  new_method, sync_method,
}
pub mod Captured
pub mod Attrs
pub mod Method
pub mod Laws
pub mod Lifetimes
pub mod Names
pub mod Selection
pub mod Loop
pub mod Receivers
pub mod Compatible
pub mod Parameters
pub mod Storages
pub mod Hidden
pub mod HiddenItems
pub mod Leftover
pub mod Original
pub mod Output
pub mod Written
pub mod Errors
pub mod Outcome
pub mod Header

pub record DynTraitOpts : Type 0 where
  pub crate_ : Option SynPath
  pub remote : Option SynPath
  pub name_template : Option String

-- The options that `dyn_trait` reads, each with its value; anything else is an error.
pub data DynTraitMeta : Type 0 where
  crate_option : SynPath → DynTraitMeta
  remote_option : SynPath → DynTraitMeta
  trait_option : String → DynTraitMeta
  -- `trait` with neither an identifier nor a literal
  invalid_trait_option : DynTraitMeta
  unknown_option : Ident → DynTraitMeta

unfoldable pub parse_meta : DynTraitOpts → DynTraitMeta → Result DynTraitOpts
parse_meta opts (crate_option p) = success record opts { crate_ = some p }
parse_meta opts (remote_option p) = success record opts { remote = some p }
parse_meta opts (trait_option name) = success record opts { name_template = some name }
parse_meta opts invalid_trait_option = failure invalid_trait_name
parse_meta opts (unknown_option i) = failure unknown_attribute

pub record DynTrait : Type 0 where
  pub include_trait : Bool
  pub dyn_trait_name : Ident
  pub crate_ : SynPath
  pub remote : SynPath
  pub trait_generics : List Ident
  pub additional_trait_items : List TraitItem
  pub dyn_items : List TraitItem
  pub impl_items : List ImplItem
  pub generic_storages : List GenericParam

abbrev pub type_params : List GenericParam → List Ident
type_params [] = []
type_params (type_param i bs d ∷ ps) = i ∷ type_params ps
type_params (lifetime_param lt bs ∷ ps) = type_params ps
type_params (const_param i ty d ∷ ps) = type_params ps

-- The name of the dyn trait: the template with the trait's name in it.
abbrev pub template_name : Casing → Ident → DynTraitOpts → String
template_name casing ident opts = casing.fill_template (unwrap_or opts.name_template "Dyn{}") ident

unfoldable pub new : Casing → SynPath → ItemTrait → DynTraitOpts → DynTrait
new casing crate_name trait opts = record {
  include_trait = is_none opts.remote;
  dyn_trait_name = template_name casing trait.ident opts;
  crate_ = unwrap_or opts.crate_ crate_name;
  remote = unwrap_or opts.remote (segment trait.ident no_arguments);
  trait_generics = type_params trait.generics;
  additional_trait_items = [];
  dyn_items = [];
  impl_items = [];
  generic_storages = [];
}

unfoldable pub parse_type : DynTrait → TraitItemType → DynTrait
parse_type self ty = record self {
  dyn_items = self.dyn_items ++ (type_item ty ∷ []);
  impl_items =
      self.impl_items
      ++ (impl_type_item ty.ident
            (qualified (path_type (segment "__Dyn" no_arguments)) self.remote ty.ident)
          ∷ []);
}

abbrev pub extend_option {ℓ} : {A : Type ℓ} → List A → Option A → List A
extend_option xs none = xs
extend_option xs (some a) = xs ++ (a ∷ [])

-- The items that one method adds, by whether `maybe_sync` is given.
unfoldable pub add_method : Casing → DynTrait → DynMethod → Bool → Result DynTrait
add_method casing self dyn_method true = sync_method dyn_method >>= λ hidden. success record self {
  additional_trait_items =
      self.additional_trait_items
      ++ (fn_item hidden ∷ const_item (hidden_const casing dyn_method) ∷ []);
  impl_items = self.impl_items ++ (impl_fn_item (maybe_sync_impl casing dyn_method) ∷ []);
  dyn_items = self.dyn_items ++ (fn_item (maybe_sync_method dyn_method) ∷ []);
}
add_method casing self dyn_method false = success record self {
  impl_items = self.impl_items ++ (impl_fn_item (forward_method dyn_method) ∷ []);
  dyn_items = self.dyn_items ++ (fn_item dyn_method.dyn_method ∷ []);
}

-- The method as `parse_method` leaves it in the trait comes second.
unfoldable pub parse_method : Casing → DynTrait → TraitItemFn → Result (DynTrait × TraitItemFn)
parse_method casing self method = parse_attrs method >>= λ parsed.
    let dyn_method = new_method casing self.crate_ self.trait_generics parsed.1 in
    add_method casing
      record self {
        generic_storages =
            extend_option self.generic_storages (generic_storage dyn_method ((parsed.0).storage));
      }
      dyn_method (parsed.0.maybe_sync)
    >>= λ self1. success (self1, parsed.1)

unfoldable pub parse_item : Casing → DynTrait → TraitItem → Result (DynTrait × TraitItem)
parse_item casing self (type_item ty) =
    success (if is_not_generic ty then parse_type self ty else self, type_item ty)
parse_item casing self (fn_item method) =
    if is_dispatchable method
    then (parse_method casing self method >>= λ parsed. success (parsed.0, fn_item parsed.1))
    else success (self, fn_item method)
parse_item casing self (const_item k) = success (self, const_item k)
parse_item casing self (verbatim_item s) = success (self, verbatim_item s)

unfoldable pub parse_items : Casing → DynTrait → List TraitItem → Result (DynTrait × List TraitItem)
parse_items casing self [] = success (self, [])
parse_items casing self (item ∷ items) = parse_item casing self item >>= λ parsed.
    parse_items casing parsed.0 items >>= λ rest. success (rest.0, parsed.1 ∷ rest.1)

abbrev pub is_dyn_trait_path : SynPath → Bool
is_dyn_trait_path (segment i no_arguments) = str_eq i "dyn_trait"
is_dyn_trait_path _ = false

-- The attributes that `#[dyn_trait(...)]` wraps, and the attributes that stay on the trait. A list
-- that is no attribute makes `parse_quote` panic.
unfoldable pub extract_dyn_trait_attrs :
    List TraitAttribute → Result (List TraitAttribute × List TraitAttribute)
extract_dyn_trait_attrs [] = success ([], [])
extract_dyn_trait_attrs (list_attribute p inner ∷ attrs) = extract_dyn_trait_attrs attrs >>= λ rest.
    success (
      if is_dyn_trait_path p
      then (inner ∷ rest.0, rest.1)
      else (rest.0, list_attribute p inner ∷ rest.1))
extract_dyn_trait_attrs (list_tokens p s ∷ attrs) =
    let rest = extract_dyn_trait_attrs attrs in
    if is_dyn_trait_path p
    then failure macro_panicked
    else (rest >>= λ rest. success (rest.0, list_tokens p s ∷ rest.1))
extract_dyn_trait_attrs (plain_attribute p s ∷ attrs) =
    let rest = extract_dyn_trait_attrs attrs in
    if is_dyn_trait_path p
    then failure not_a_list
    else (rest >>= λ rest. success (rest.0, plain_attribute p s ∷ rest.1))

abbrev pub any_dyn_object : List TraitAttribute → Bool
any_dyn_object [] = false
any_dyn_object (attr ∷ attrs) =
    is_some (last_segment (attribute_path attr) "dyn_object") || any_dyn_object attrs

-- The documentation that is written before the dyn trait's attributes: a text, and a link with the
-- trait's name to the trait's path.
pub data DocAttribute : Type 0 where
  doc_text : String → DocAttribute
  doc_link : Ident → SynPath → DocAttribute

-- What the macro writes: the trait, unless it is remote, the dyn trait with the attributes that it
-- is given, its documentation first, and its implementation for every `__Dyn`. `dyn_trait` stands for
-- the tokens that are written; Header tells when they read as that trait.
pub record DynTraitOutput : Type 0 where
  pub opt_trait : Option ItemTrait
  pub docs : List DocAttribute
  pub dyn_trait : ItemTrait
  pub impl_generics : List GenericParam
  pub impl_type_generics : List GenericParam
  pub impl_items : List ImplItem

-- The options and items are done: the quotation at the end of `dyn_trait_impl`.
unfoldable pub quote_dyn_trait : ItemTrait → List TraitAttribute → DynTrait → DynTraitOutput
quote_dyn_trait trait attrs self =
    let dyn_generics = trait.generics ++ self.generic_storages in
    record {
      opt_trait = if self.include_trait then some trait else none;
      docs = doc_text "Dyn-compatible implementation of" ∷ doc_link trait.ident self.remote ∷ [];
      dyn_trait = record trait {
        attrs = attrs;
        ident = self.dyn_trait_name;
        generics = dyn_generics;
        items = self.dyn_items;
      };
      impl_generics =
          dyn_generics
          ++ (type_param "__Dyn" (trait_bound (with_generics self.remote trait.generics) no_bounds)
                none
              ∷ []);
      impl_type_generics = dyn_generics;
      impl_items = self.impl_items;
    }

-- `DynTrait::new` makes `format_ident` panic on a name that is no identifier.
unfoldable pub dyn_trait_impl : Casing → SynPath → ItemTrait → DynTraitOpts → Result DynTraitOutput
dyn_trait_impl casing crate_name trait opts = extract_dyn_trait_attrs trait.attrs >>= λ extracted.
    if not (is_empty trait.generics) && any_dyn_object extracted.0
    then failure generics_with_dyn_object
    else if not (casing.is_ident (template_name casing trait.ident opts))
    then failure macro_panicked
    else (parse_items casing (new casing crate_name record trait { attrs = extracted.1 } opts)
          trait.items
        >>= λ parsed. success (
            quote_dyn_trait
              record trait {
                attrs = extracted.1;
                items = parsed.1 ++ parsed.0.additional_trait_items;
              }
              extracted.0 parsed.0))

-- ===== src/Macros/Entry.antt =====
-- macros/src/lib.rs: the three attributes, from tokens to tokens.
pub mod Options
pub mod TraitOptions
pub mod TraitOutcome
pub mod ObjectOptions
pub mod Laws
use dyn_utils.Prelude.{Bool, not, ◌&&◌, none, List, [], ◌∷◌}
use dyn_utils.Macros.Syntax.{
  Ident, ImplItemFn, ItemTrait, MacroError, Result, SynPath, failure, no_arguments, prefixed,
  segment, success, unknown_attribute, ◌>>=◌,
}
use dyn_utils.Macros.Utils.{is_empty}
use dyn_utils.Macros.Sync.{Casing, SyncItems, sync_impl}
use dyn_utils.Macros.DynTrait
use dyn_utils.Macros.DynTrait.{DynTraitMeta, DynTraitOpts, DynTraitOutput, dyn_trait_impl}
use dyn_utils.Macros.DynObject
use dyn_utils.Macros.DynObject.{DynObjectMeta, DynObjectOps, DynObjectOutput, dyn_object_impl}

-- `::dyn_utils`: the path from the root is one whose first segment has no name.
unfoldable pub crate_name : SynPath
crate_name = prefixed "" no_arguments (segment "dyn_utils" no_arguments)

-- The trait `MacroArgs`. An option comes with whether it stands at the end of the input.
pub record MacroArgs (Args Meta : Type 0) : Type 0 where
  pub default : Args
  pub parse_meta : Args → Meta → Bool → Result Args

-- Any option of `sync`.
pub record NoMeta : Type 0 where
  pub path : Ident

instance abbrev pub unit_args : MacroArgs (Unit {0}) NoMeta
unit_args = record { default = tt; parse_meta = λ self meta at_end. failure unknown_attribute }

abbrev pub default_dyn_trait_opts : DynTraitOpts
default_dyn_trait_opts = record { crate_ = none; remote = none; name_template = none }

instance unfoldable pub dyn_trait_args : MacroArgs DynTraitOpts DynTraitMeta
dyn_trait_args = record {
  default = default_dyn_trait_opts;
  parse_meta = λ self meta at_end. DynTrait.parse_meta self meta;
}

abbrev pub default_dyn_object_ops : DynObjectOps
default_dyn_object_ops = record { bounds = []; crate_ = none; remote = none }

instance unfoldable pub dyn_object_args : MacroArgs DynObjectOps DynObjectMeta
dyn_object_args = record { default = default_dyn_object_ops; parse_meta = DynObject.parse_meta }

-- The arguments of an attribute as `syn::meta::parser` reads them: the options between the commas,
-- up to one that it cannot read, and whether a comma stands last.
pub record ArgTokens (Meta : Type 0) : Type 0 where
  pub metas : List (Result Meta)
  pub trailing_comma : Bool

module _ {Args Meta : Type 0} ⦃margs : MacroArgs Args Meta⦄ where
  unfoldable pub parse_args : Args → List (Result Meta) → Bool → Result Args
  parse_args args [] trailing_comma = success args
  parse_args args (meta ∷ metas) trailing_comma = meta >>= λ m.
      margs.parse_meta args m (is_empty metas && not trailing_comma) >>= λ args1.
      parse_args args1 metas trailing_comma

abbrev pub unwrap_or_else {ℓ} : {A : Type ℓ} → Result A → (MacroError → A) → A
unwrap_or_else (success a) on_error = a
unwrap_or_else (failure err) on_error = on_error err

-- The tokens of the item and of the arguments are read by `syn`, the output and an error are written
-- by `quote` and `to_compile_error`.
module _ {Tokens Item Args Meta Output : Type 0} ⦃margs : MacroArgs Args Meta⦄
    (read_item : Tokens → Result Item) (read_args : Tokens → ArgTokens Meta)
    (quote : Output → Tokens) (to_compile_error : MacroError → Tokens) where
  unfoldable pub macro_impl : (Item → Args → Result Output) → Tokens → Tokens → Tokens
  macro_impl impl_fn item args = elim (read_item item) [
    | failure err ↦ to_compile_error err
    | success parsed_item ↦
        elim (parse_args margs.default (read_args args).metas (read_args args).trailing_comma) [
          | failure err ↦ to_compile_error err
          | success parsed_args ↦
              unwrap_or_else (impl_fn parsed_item parsed_args >>= λ output. success (quote output))
                to_compile_error
        ]
  ]

module _ {Tokens : Type 0} (to_compile_error : MacroError → Tokens) where
  unfoldable pub dyn_trait :
      Casing
      → (Tokens → Result ItemTrait)
      → (Tokens → ArgTokens DynTraitMeta)
      → (DynTraitOutput → Tokens)
      → Tokens
      → Tokens
      → Tokens
  unfolding macro_impl
  dyn_trait casing read_item read_args quote args item =
      macro_impl read_item read_args quote to_compile_error (dyn_trait_impl casing crate_name) item
        args

  unfoldable pub sync :
      Casing
      → (Tokens → Result ImplItemFn)
      → (Tokens → ArgTokens NoMeta)
      → (SyncItems → Tokens)
      → Tokens
      → Tokens
      → Tokens
  unfolding macro_impl
  sync casing read_item read_args quote args item =
      macro_impl {Args = Unit {0}} read_item read_args quote to_compile_error
        (λ method opts. sync_impl casing method) item args

  unfoldable pub dyn_object :
      (Tokens → Result ItemTrait)
      → (Tokens → ArgTokens DynObjectMeta)
      → (DynObjectOutput → Tokens)
      → Tokens
      → Tokens
      → Tokens
  unfolding macro_impl
  dyn_object read_item read_args quote args item =
      macro_impl read_item read_args quote to_compile_error (dyn_object_impl crate_name) item args

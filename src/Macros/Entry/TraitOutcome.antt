-- ===== src/Macros/Entry/TraitOutcome.antt =====
-- macros/src/lib.rs: what `dyn_trait` makes of its tokens.
use dyn_utils.Prelude.{Option}
use dyn_utils.Macros.Agrees.{or_else}
use dyn_utils.Macros.Syntax.{ItemTrait, MacroError}
use dyn_utils.Macros.Sync.{Casing}
use dyn_utils.Macros.DynTrait.{DynTraitMeta}
use dyn_utils.Macros.DynTrait.Errors.{trait_error}
use dyn_utils.Macros.Entry.{ArgTokens}
use dyn_utils.Macros.Entry.TraitOptions
use dyn_utils.Macros.Entry.TraitOptions.{last_values}

-- What is wrong with the first of the options and then of the trait.
abbrev pub first_error : Casing → ArgTokens DynTraitMeta → ItemTrait → Option MacroError
first_error casing tokens trait =
    or_else (TraitOptions.first_error tokens.metas)
      (trait_error casing (last_values tokens.metas) trait)

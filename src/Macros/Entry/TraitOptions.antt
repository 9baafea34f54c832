-- ===== src/Macros/Entry/TraitOptions.antt =====
-- macros/src/lib.rs and macros/src/dyn_trait.rs: the options of `dyn_trait`.
use dyn_utils.Prelude.{Bool, String, Option, none, some, ◌≡◌, refl, ap, ◌∙◌, List, [], ◌∷◌}
use dyn_utils.Macros.Syntax.{
  MacroError, Result, SynPath, failure, invalid_trait_name, success, unknown_attribute,
}
use dyn_utils.Macros.DynTrait
use dyn_utils.Macros.DynTrait.{
  DynTraitMeta, DynTraitOpts, crate_option, invalid_trait_option, remote_option, trait_option,
  unknown_option,
}
use dyn_utils.Macros.Entry.{default_dyn_trait_opts, dyn_trait_args, parse_args}
use dyn_utils.Macros.Agrees.{or_else}
use dyn_utils.Macros.Entry.Options.{last_of, or_else-none, or_else_assoc, or_error}

abbrev pub crate_value : DynTraitMeta → Option SynPath
crate_value (crate_option p) = some p
crate_value _ = none

abbrev pub remote_value : DynTraitMeta → Option SynPath
remote_value (remote_option p) = some p
remote_value _ = none

abbrev pub trait_value : DynTraitMeta → Option String
trait_value (trait_option name) = some name
trait_value _ = none

abbrev pub option_error : DynTraitMeta → Option MacroError
option_error invalid_trait_option = some invalid_trait_name
option_error (unknown_option i) = some unknown_attribute
option_error _ = none

-- What is wrong with the first option that has something wrong.
abbrev pub first_error : List (Result DynTraitMeta) → Option MacroError
first_error [] = none
first_error (failure e ∷ ms) = some e
first_error (success m ∷ ms) = or_else (option_error m) (first_error ms)

abbrev with_values : DynTraitOpts → List (Result DynTraitMeta) → DynTraitOpts
with_values opts ms = record {
  crate_ = or_else (last_of crate_value ms) opts.crate_;
  remote = or_else (last_of remote_value ms) opts.remote;
  name_template = or_else (last_of trait_value ms) opts.name_template;
}

with_values-step :
    (opts opts1 : DynTraitOpts) (m : DynTraitMeta) (ms : List (Result DynTraitMeta))
    → opts1.crate_ ≡ or_else (crate_value m) opts.crate_
    → opts1.remote ≡ or_else (remote_value m) opts.remote
    → opts1.name_template ≡ or_else (trait_value m) opts.name_template
    → with_values opts1 ms ≡ with_values opts (success m ∷ ms)
with_values-step opts opts1 m ms c r n =
    rw
      (
        c,
        r,
        n,
        or_else_assoc (last_of crate_value ms) (crate_value m) opts.crate_,
        or_else_assoc (last_of remote_value ms) (remote_value m) opts.remote,
        or_else_assoc (last_of trait_value ms) (trait_value m) opts.name_template,
      )
      refl

parse_args-from :
    (ms : List (Result DynTraitMeta)) (opts : DynTraitOpts) (trailing_comma : Bool)
    → parse_args opts ms trailing_comma ≡ or_error (first_error ms) (with_values opts ms)
unfolding parse_args dyn_trait_args DynTrait.parse_meta
parse_args-from [] opts t = refl
parse_args-from (failure e ∷ ms) opts t = refl
parse_args-from (success invalid_trait_option ∷ ms) opts t = refl
parse_args-from (success (unknown_option i) ∷ ms) opts t = refl
parse_args-from (success (crate_option p) ∷ ms) opts t =
    parse_args-from ms _ t
    ∙ ap (or_error (first_error ms)) (with_values-step opts _ (crate_option p) ms refl refl refl)
parse_args-from (success (remote_option p) ∷ ms) opts t =
    parse_args-from ms _ t
    ∙ ap (or_error (first_error ms)) (with_values-step opts _ (remote_option p) ms refl refl refl)
parse_args-from (success (trait_option s) ∷ ms) opts t =
    parse_args-from ms _ t
    ∙ ap (or_error (first_error ms)) (with_values-step opts _ (trait_option s) ms refl refl refl)

-- Of each option the last that is given.
abbrev pub last_values : List (Result DynTraitMeta) → DynTraitOpts
last_values ms = record {
  crate_ = last_of crate_value ms;
  remote = last_of remote_value ms;
  name_template = last_of trait_value ms;
}

-- `dyn_trait` reads its options or fails with what is wrong with the first that has something wrong:
-- the name of a trait that is neither an identifier nor a literal, an option that is not known, or
-- one that cannot be read. Of each option that is given several times the last counts.
pub parse_args-DynTraitOpts :
    (ms : List (Result DynTraitMeta)) (trailing_comma : Bool)
    → parse_args default_dyn_trait_opts ms trailing_comma
      ≡ or_error (first_error ms) (last_values ms)
parse_args-DynTraitOpts ms t =
    rw
      (
        parse_args-from ms default_dyn_trait_opts t,
        or_else-none (last_of crate_value ms),
        or_else-none (last_of remote_value ms),
        or_else-none (last_of trait_value ms),
      )
      refl

-- ===== src/Macros/Entry/ObjectOptions.antt =====
-- macros/src/lib.rs and macros/src/dyn_object.rs: the options of `dyn_object`.
use dyn_utils.Prelude.{
  Bool, true, false, not, ◌&&◌, if◌then◌else◌, Option, none, some, ◌≡◌, refl, sym, ap, ◌∙◌, List,
  [], ◌∷◌, ◌++◌,
}
use dyn_utils.Macros.Syntax.{
  MacroError, Result, SynPath, expected_plus, failure, success, unknown_attribute,
}
use dyn_utils.Macros.Parts.{unwrap_or}
use dyn_utils.Macros.Shared.{success-bind, success-injective}
use dyn_utils.Macros.Utils.{is_empty}
use dyn_utils.Macros.DynObject
use dyn_utils.Macros.DynObject.{
  DynObjectMeta, DynObjectOps, bounds_option, crate_option, remote_option, unknown_option,
}
use dyn_utils.Macros.Entry.{default_dyn_object_ops, dyn_object_args, parse_args}
use dyn_utils.Macros.Agrees.{or_else}
use dyn_utils.Macros.Entry.Options.{last_of, or_else-none, or_else_assoc, or_error}

abbrev pub crate_value : DynObjectMeta → Option SynPath
crate_value (crate_option p) = some p
crate_value _ = none

abbrev pub remote_value : DynObjectMeta → Option SynPath
remote_value (remote_option p) = some p
remote_value _ = none

abbrev pub bounds_value : DynObjectMeta → Option (List SynPath)
bounds_value (bounds_option ps) = some ps
bounds_value _ = none

abbrev pub option_error : DynObjectMeta → Bool → Option MacroError
option_error (bounds_option ps) at_end = if at_end then none else some expected_plus
option_error (unknown_option i) at_end = some unknown_attribute
option_error _ at_end = none

-- What is wrong with the first option that has something wrong.
abbrev pub first_error : List (Result DynObjectMeta) → Bool → Option MacroError
first_error [] trailing_comma = none
first_error (failure e ∷ ms) trailing_comma = some e
first_error (success m ∷ ms) trailing_comma =
    or_else (option_error m (is_empty ms && not trailing_comma)) (first_error ms trailing_comma)

abbrev with_values : DynObjectOps → List (Result DynObjectMeta) → DynObjectOps
with_values opts ms = record {
  bounds = unwrap_or (last_of bounds_value ms) opts.bounds;
  crate_ = or_else (last_of crate_value ms) opts.crate_;
  remote = or_else (last_of remote_value ms) opts.remote;
}

unwrap_or-or_else {ℓ} :
    {A : Type ℓ} (o p : Option A) (a : A) → unwrap_or o (unwrap_or p a) ≡ unwrap_or (or_else o p) a
unwrap_or-or_else (some b) p a = refl
unwrap_or-or_else none p a = refl

with_values-step :
    (opts opts1 : DynObjectOps) (m : DynObjectMeta) (ms : List (Result DynObjectMeta))
    → opts1.bounds ≡ unwrap_or (bounds_value m) opts.bounds
    → opts1.crate_ ≡ or_else (crate_value m) opts.crate_
    → opts1.remote ≡ or_else (remote_value m) opts.remote
    → with_values opts1 ms ≡ with_values opts (success m ∷ ms)
with_values-step opts opts1 m ms b c r =
    rw
      (
        b,
        c,
        r,
        unwrap_or-or_else (last_of bounds_value ms) (bounds_value m) opts.bounds,
        or_else_assoc (last_of crate_value ms) (crate_value m) opts.crate_,
        or_else_assoc (last_of remote_value ms) (remote_value m) opts.remote,
      )
      refl

parse_args-from :
    (ms : List (Result DynObjectMeta)) (opts : DynObjectOps) (trailing_comma : Bool)
    → parse_args opts ms trailing_comma
      ≡ or_error (first_error ms trailing_comma) (with_values opts ms)
unfolding parse_args dyn_object_args DynObject.parse_meta
parse_args-from [] opts t = refl
parse_args-from (failure e ∷ ms) opts t = refl
parse_args-from (success (unknown_option i) ∷ ms) opts t = refl
parse_args-from (success (crate_option p) ∷ ms) opts t =
    parse_args-from ms _ t
    ∙ ap (or_error (first_error ms t)) (with_values-step opts _ (crate_option p) ms refl refl refl)
parse_args-from (success (remote_option p) ∷ ms) opts t =
    parse_args-from ms _ t
    ∙ ap (or_error (first_error ms t)) (with_values-step opts _ (remote_option p) ms refl refl refl)
parse_args-from (success (bounds_option ps) ∷ m ∷ ms) opts t = refl
parse_args-from (success (bounds_option ps) ∷ []) opts true = refl
parse_args-from (success (bounds_option ps) ∷ []) opts false = refl

-- Of each option the last value.
abbrev pub last_values : List (Result DynObjectMeta) → DynObjectOps
last_values ms = record {
  bounds = unwrap_or (last_of bounds_value ms) [];
  crate_ = last_of crate_value ms;
  remote = last_of remote_value ms;
}

-- `dyn_object` reads its options or fails with what is wrong with the first that has something
-- wrong: bounds with anything after them, be it a comma only, an option that is not known, or one
-- that cannot be read. Of the other options that are given several times the last counts.
pub parse_args-DynObjectOps :
    (ms : List (Result DynObjectMeta)) (trailing_comma : Bool)
    → parse_args default_dyn_object_ops ms trailing_comma
      ≡ or_error (first_error ms trailing_comma) (last_values ms)
parse_args-DynObjectOps ms t =
    rw
      (
        parse_args-from ms default_dyn_object_ops t,
        or_else-none (last_of crate_value ms),
        or_else-none (last_of remote_value ms),
      )
      refl

bounds_at_end :
    (after : List (Result DynObjectMeta)) (ps : List SynPath) (opts args : DynObjectOps)
    (trailing_comma : Bool)
    → parse_args opts (success (bounds_option ps) ∷ after) trailing_comma ≡ success args
    → (after ≡ []) × (trailing_comma ≡ false) × (args.bounds ≡ ps)
unfolding parse_args dyn_object_args DynObject.parse_meta
bounds_at_end (m ∷ after) ps opts args t h = cc
bounds_at_end [] ps opts args true h = cc
bounds_at_end [] ps opts args false h = (refl, refl, ap (λ a. a.bounds) (sym (success-injective h)))

bounds_from :
    (before after : List (Result DynObjectMeta)) (ps : List SynPath) (opts args : DynObjectOps)
    (trailing_comma : Bool)
    → parse_args opts (before ++ (success (bounds_option ps) ∷ after)) trailing_comma ≡ success args
    → (after ≡ []) × (trailing_comma ≡ false) × (args.bounds ≡ ps)
unfolding parse_args
bounds_from [] after ps opts args t h = bounds_at_end after ps opts args t h
bounds_from (failure e ∷ before) after ps opts args t h = cc
bounds_from (success m ∷ before) after ps opts args t h =
    let rest = before ++ (success (bounds_option ps) ∷ after) in
    let (opts1, _, h1) =
      success-bind (dyn_object_args.parse_meta opts m (is_empty rest && not t))
        (λ opts1. parse_args opts1 rest t) args h in
    bounds_from before after ps opts1 args t h1

-- If `dyn_object` accepts arguments with `bounds`, then these bounds stand last, with no comma after
-- them, and are the ones that it uses.
pub parse_args-bounds :
    (before after : List (Result DynObjectMeta)) (ps : List SynPath) (args : DynObjectOps)
    (trailing_comma : Bool)
    → parse_args default_dyn_object_ops
        (before ++ (success (bounds_option ps) ∷ after))
        trailing_comma
      ≡ success args
    → (after ≡ []) × (trailing_comma ≡ false) × (args.bounds ≡ ps)
parse_args-bounds before after ps args t h =
    bounds_from before after ps default_dyn_object_ops args t h

-- ===== src/Macros/DynTrait/Lifetimes.antt =====
-- macros/src/dyn_trait.rs: the lifetimes of the signature that `update_dyn_signature` writes.
use text.Mathlib.Text.{◌==◌ as str_eq}
use mathlib.Core.Option.{map as option_map}
use dyn_utils.Prelude.{
  Bool, true, false, not, ◌&&◌, ◌||◌, Option, none, some, ◌≡◌, List, [], ◌∷◌, ◌++◌, map,
}
use dyn_utils.Macros.Syntax.{
  Bounds, GenericParam, Ident, Lifetime, Receiver, RustSyntax, Signature, const_param,
  lifetime_param, type_param,
}
use dyn_utils.Macros.Utils.{all}
use dyn_utils.Macros.Visit.Closed.{Check, check_bounds, check_type, lifetime_passes}
use dyn_utils.Macros.DynTrait.Captured.{CapturedLifetimes, contains}
use dyn_utils.Macros.DynTrait.Method.{outlives_dyn}

-- No reference is without a lifetime, and `'_` is left only if it is not captured.
unfoldable pub captured_check : CapturedLifetimes → Check
captured_check self = record {
  lifetime_ok = λ lt. not (str_eq lt "'_" && contains self.captured lt);
  segment_ok = λ i. true;
  elided_ok = false;
}

abbrev reference_passes : Check → Option (Option Lifetime) → Bool
reference_passes c none = true
reference_passes c (some lt) = lifetime_passes c lt

-- The lifetime of the receiver's reference and its type.
abbrev pub receiver_passes : Check → Receiver → Bool
receiver_passes c recv = reference_passes c recv.reference && check_type c recv.ty

abbrev default_passes : Check → Option RustSyntax → Bool
default_passes c none = true
default_passes c (some ty) = check_type c ty

-- A lifetime that is captured outlives `'__dyn`; the bounds, default or type of another parameter
-- have no lifetime left that is to be named.
abbrev pub generic_passes : CapturedLifetimes → GenericParam → Bool
generic_passes self (lifetime_param lt bs) = not (contains self.captured lt) || contains bs "'__dyn"
generic_passes self (type_param i bs d) =
    check_bounds (captured_check self) bs && default_passes (captured_check self) d
generic_passes self (const_param i ty d) = check_type (captured_check self) ty

-- What `written` names of the lifetimes that `captured` has, for a signature `sig` of a trait with
-- the type parameters `trait_generics`, where `bs` are the bounds of the returned trait object.
pub record NamesCaptured (captured : CapturedLifetimes) (trait_generics : List Ident)
    (sig written : Signature) (bs : Bounds) : Type 0 where
  pub receiver :
      (recv : Receiver)
      → written.receiver ≡ some recv
      → receiver_passes (captured_check captured) recv ≡ true
  pub inputs : all (λ arg. check_type (captured_check captured) arg.ty) written.inputs ≡ true
  pub bounds : check_bounds (captured_check captured) bs ≡ true
  pub generics : List GenericParam
  pub dyn_lifetime : written.generics ≡ lifetime_param "'__dyn" [] ∷ generics
  pub outlive : all (generic_passes captured) generics ≡ true
  pub predicates :
      written.predicates
      ≡ sig.predicates ++ (map outlives_dyn trait_generics ++ (outlives_dyn "Self" ∷ []))

-- ===== src/Macros/DynTrait/Captured.antt =====
-- macros/src/dyn_trait.rs: `CapturedLifetimes`, which names the lifetimes that a returned
-- `impl Trait` captures.
use text.Mathlib.Text.{◌==◌ as str_eq}
use dyn_utils.Prelude.{
  Bool, false, ◌&&◌, ◌||◌, Option, none, some, if◌then◌else◌, List, [], ◌∷◌, ◌++◌,
}
use dyn_utils.Macros.Parts.{generic_lifetimes}
use dyn_utils.Macros.Syntax.{
  Argument, Bounds, Captures, GenericParam, Lifetime, Receiver, RustSyntax, capture_ident,
  capture_lifetime, const_param, lifetime_bound, lifetime_param, no_bounds, no_captures,
  precise_capture, trait_bound, type_param,
}
use dyn_utils.Macros.Visit.{Visitor, visit_bounds, visit_type}

-- The set is read by membership only.
pub record CapturedLifetimes : Type 0 where
  pub dyn_lt : Lifetime
  pub default_lt : Lifetime
  pub captured : List Lifetime

abbrev pub contains : List Lifetime → Lifetime → Bool
contains [] lt = false
contains (x ∷ xs) lt = str_eq x lt || contains xs lt

abbrev find_precise_capture : Bounds → Option Captures
find_precise_capture no_bounds = none
find_precise_capture (trait_bound p bs) = find_precise_capture bs
find_precise_capture (lifetime_bound lt bs) = find_precise_capture bs
find_precise_capture (precise_capture cs bs) = some cs

abbrev captured_lifetimes : Captures → List Lifetime
captured_lifetimes no_captures = []
captured_lifetimes (capture_lifetime lt cs) = lt ∷ captured_lifetimes cs
captured_lifetimes (capture_ident i cs) = captured_lifetimes cs

-- With `use<...>` what it names is captured, else every lifetime of the method and `'_`.
unfoldable pub new : Bounds → List GenericParam → CapturedLifetimes
new ret generics = record {
  dyn_lt = "'__dyn";
  default_lt = "'_";
  captured = elim (find_precise_capture ret) [
    | some cs ↦ captured_lifetimes cs
    | none ↦ generic_lifetimes generics ++ ("'_" ∷ [])
  ];
}

unfoldable pub visit_lifetime : CapturedLifetimes → Lifetime → Lifetime
visit_lifetime self i =
    if str_eq i self.default_lt && contains self.captured i then self.dyn_lt else i

-- A reference without a lifetime is written with the default one, then visited.
unfoldable pub captured_visitor : CapturedLifetimes → Visitor
captured_visitor self = record {
  on_lifetime = visit_lifetime self;
  on_elided = some self.default_lt;
  on_segment = λ i. i;
}

unfoldable pub visit_lifetime_param : CapturedLifetimes → Lifetime → List Lifetime → GenericParam
visit_lifetime_param self lt bs =
    lifetime_param lt (if contains self.captured lt then bs ++ (self.dyn_lt ∷ []) else bs)

abbrev pub visit_default : CapturedLifetimes → Option RustSyntax → Option RustSyntax
visit_default self none = none
visit_default self (some ty) = some (visit_type (captured_visitor self) ty)

unfoldable pub visit_generic_param : CapturedLifetimes → GenericParam → GenericParam
visit_generic_param self (lifetime_param lt bs) = visit_lifetime_param self lt bs
visit_generic_param self (type_param i bs d) =
    type_param i (visit_bounds (captured_visitor self) bs) (visit_default self d)
visit_generic_param self (const_param i ty d) =
    const_param i (visit_type (captured_visitor self) ty) d

abbrev pub receiver_lifetime :
    CapturedLifetimes → Option (Option Lifetime) → Option (Option Lifetime)
receiver_lifetime self none = none
receiver_lifetime self (some none) = some (some (visit_lifetime self self.default_lt))
receiver_lifetime self (some (some lt)) = some (some (visit_lifetime self lt))

unfoldable pub visit_receiver : CapturedLifetimes → Receiver → Receiver
visit_receiver self recv = record recv {
  reference = receiver_lifetime self recv.reference;
  ty = visit_type (captured_visitor self) recv.ty;
}

unfoldable pub visit_argument : CapturedLifetimes → Argument → Argument
visit_argument self arg = record arg { ty = visit_type (captured_visitor self) arg.ty }

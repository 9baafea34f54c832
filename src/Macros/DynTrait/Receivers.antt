-- ===== src/Macros/DynTrait/Receivers.antt =====
-- macros/src/dyn_trait.rs: what the visits of a method's receiver, generics and patterns keep.
use text.Mathlib.Text.{◌==◌ as str_eq}
use mathlib.Core.Option.{map as option_map}
use dyn_utils.Prelude.{
  Bool, true, false, not, ◌&&◌, Option, none, some, if◌then◌else◌, ◌≡◌, refl, List, [], ◌∷◌, map,
  Bool-cases, inl, inr,
}
use dyn_utils.Macros.Shared.{and_intro, and_left, and_right}
use dyn_utils.Macros.Syntax.{
  Argument, Arguments, GenericParam, Ident, Lifetime, Pattern, Patterns, Receiver, RustSyntax,
  SynPath, angle_bracketed, assoc_type, bound_pattern, compound_pattern, const_param, ident_pattern,
  lifetime_argument, lifetime_param, more_patterns, no_arguments, no_generic, no_patterns,
  other_argument, parenthesized, path_type, prefixed, reference, second_list, segment,
  type_argument, type_param,
}
use dyn_utils.Macros.Visit.{visit_arguments, visit_path, visit_type}
use dyn_utils.Macros.Utils.{
  all, first_self_reference, has_dyn_trait_receiver, is_lifetime_param, is_self_type, is_some,
  last_segment, last_self_reference, pattern_as_arg, patterns_as_arg, pinned_ref, self_reference,
}
use dyn_utils.Macros.DynTrait.Captured.{
  CapturedLifetimes, captured_visitor, receiver_lifetime, visit_argument, visit_generic_param,
  visit_lifetime_param, visit_receiver,
}
use dyn_utils.Macros.DynTrait.Method.{argument_as_arg}

-- No identifier of the pattern is `ref`, `mut` or bound by `@`.
mutual
  pub is_plain : Pattern → Bool
  is_plain (ident_pattern by_ref mutability i) = not by_ref && not mutability
  is_plain (bound_pattern by_ref mutability i subpat) = false
  is_plain (compound_pattern s ps) = all_plain ps

  pub all_plain : Patterns → Bool
  all_plain no_patterns = true
  all_plain (more_patterns p ps) = is_plain p && all_plain ps

mutual
  unfolding is_plain pattern_as_arg

  pub pattern_as_arg-is_plain : (p : Pattern) → is_plain (pattern_as_arg p) ≡ true
  pattern_as_arg-is_plain (ident_pattern by_ref mutability i) = refl
  pattern_as_arg-is_plain (bound_pattern by_ref mutability i subpat) = refl
  pattern_as_arg-is_plain (compound_pattern s ps) = patterns_as_arg-all_plain ps

  pub patterns_as_arg-all_plain : (ps : Patterns) → all_plain (patterns_as_arg ps) ≡ true
  patterns_as_arg-all_plain no_patterns = refl
  patterns_as_arg-all_plain (more_patterns p ps) =
      and_intro (pattern_as_arg-is_plain p) (patterns_as_arg-all_plain ps)

module _ (c : CapturedLifetimes) where
  is_self_type-visit_type :
      (ty : RustSyntax)
      → is_self_type ty ≡ true
      → is_self_type (visit_type (captured_visitor c) ty) ≡ true
  unfolding is_self_type visit_type captured_visitor
  is_self_type-visit_type (path_type (segment i no_arguments)) h = h
  is_self_type-visit_type _ h = cc

  is_some-if :
      (b : Bool) (lt lt' : Option Lifetime)
      → is_some (if b then some lt else none) ≡ true
      → is_some (if b then some lt' else none) ≡ true
  is_some-if true lt lt' h = refl
  is_some-if false lt lt' h = cc

  self_reference-visit_type :
      (ty : RustSyntax)
      → is_some (self_reference ty) ≡ true
      → is_some (self_reference (visit_type (captured_visitor c) ty)) ≡ true
  unfolding visit_type
  self_reference-visit_type (reference lt mutability ty) h = elim (Bool-cases (is_self_type ty)) [
    | inl yes' ↦ rw (is_self_type-visit_type ty yes') refl
    | inr no' ↦ cc (rw no' at h)
  ]
  self_reference-visit_type _ h = cc

  first_self_reference-visit_arguments :
      (args : Arguments)
      → is_some (first_self_reference args) ≡ true
      → is_some (first_self_reference (visit_arguments (captured_visitor c) args)) ≡ true
  unfolding visit_type
  first_self_reference-visit_arguments (angle_bracketed (type_argument ty gs)) h =
      self_reference-visit_type ty h
  first_self_reference-visit_arguments (angle_bracketed no_generic) h = cc
  first_self_reference-visit_arguments (angle_bracketed (lifetime_argument lt gs)) h = cc
  first_self_reference-visit_arguments (angle_bracketed (assoc_type i ty gs)) h = cc
  first_self_reference-visit_arguments (angle_bracketed (other_argument s gs)) h = cc
  first_self_reference-visit_arguments no_arguments h = cc
  first_self_reference-visit_arguments (parenthesized ts ty) h = cc
  first_self_reference-visit_arguments (second_list args gs) h = cc

  option_map-if :
      (b : Bool) (args : Arguments)
      → (if b then some (visit_arguments (captured_visitor c) args) else none)
        ≡ option_map (visit_arguments (captured_visitor c)) (if b then some args else none)
  option_map-if true args = refl
  option_map-if false args = refl

  last_segment-visit_path :
      (p : SynPath) (name : Ident)
      → last_segment (visit_path (captured_visitor c) p) name
        ≡ option_map (visit_arguments (captured_visitor c)) (last_segment p name)
  unfolding last_segment visit_type captured_visitor
  last_segment-visit_path (segment i args) name = option_map-if (str_eq i name) args
  last_segment-visit_path (prefixed i args p) name = last_segment-visit_path p name

  last_self_reference-visit_arguments :
      (o : Option Arguments)
      → is_some (last_self_reference o) ≡ true
      → is_some (last_self_reference (option_map (visit_arguments (captured_visitor c)) o)) ≡ true
  last_self_reference-visit_arguments none h = cc
  last_self_reference-visit_arguments (some args) h = first_self_reference-visit_arguments args h

  pinned_ref-visit_type :
      (ty : RustSyntax)
      → is_some (pinned_ref ty) ≡ true
      → is_some (pinned_ref (visit_type (captured_visitor c) ty)) ≡ true
  unfolding pinned_ref visit_type
  pinned_ref-visit_type (path_type p) h =
      rw (last_segment-visit_path p "Pin") (last_self_reference-visit_arguments _ h)
  pinned_ref-visit_type _ h = cc

  -- A receiver that can be dispatched on stays one.
  reference-visit_receiver :
      (r : Option (Option Lifetime)) (ty : RustSyntax)
      → elim r [ some lt ↦ true | none ↦ is_some (pinned_ref ty) ] ≡ true
      → elim (receiver_lifetime c r) [
        | some lt ↦ true
        | none ↦ is_some (pinned_ref (visit_type (captured_visitor c) ty))
      ]
        ≡ true
  reference-visit_receiver none ty h = pinned_ref-visit_type ty h
  reference-visit_receiver (some none) ty h = refl
  reference-visit_receiver (some (some lt)) ty h = refl

  pub has_dyn_trait_receiver-visit_receiver :
      (o : Option Receiver)
      → has_dyn_trait_receiver o ≡ true
      → has_dyn_trait_receiver (option_map (visit_receiver c) o) ≡ true
  unfolding has_dyn_trait_receiver visit_receiver
  has_dyn_trait_receiver-visit_receiver none h = cc
  has_dyn_trait_receiver-visit_receiver (some recv) h =
      reference-visit_receiver recv.reference recv.ty h

  pub is_lifetime_param-visit_generic_param :
      (ps : List GenericParam)
      → all is_lifetime_param ps ≡ true
      → all is_lifetime_param (map (visit_generic_param c) ps) ≡ true
  unfolding is_lifetime_param visit_generic_param visit_lifetime_param
  is_lifetime_param-visit_generic_param [] h = refl
  is_lifetime_param-visit_generic_param (lifetime_param lt bs ∷ ps) h =
      is_lifetime_param-visit_generic_param ps h
  is_lifetime_param-visit_generic_param (type_param i bs d ∷ ps) h = cc
  is_lifetime_param-visit_generic_param (const_param i ty d ∷ ps) h = cc

  pub is_plain-visit_argument :
      (args : List Argument)
      → all (λ arg. is_plain arg.pattern) args ≡ true
      → all (λ arg. is_plain arg.pattern) (map (visit_argument c) args) ≡ true
  unfolding visit_argument
  is_plain-visit_argument [] h = refl
  is_plain-visit_argument (arg ∷ args) h =
      and_intro (and_left _ _ h) (is_plain-visit_argument args (and_right _ _ h))

pub argument_as_arg-is_plain :
    (args : List Argument) → all (λ arg. is_plain arg.pattern) (map argument_as_arg args) ≡ true
argument_as_arg-is_plain [] = refl
argument_as_arg-is_plain (arg ∷ args) =
    and_intro (pattern_as_arg-is_plain arg.pattern) (argument_as_arg-is_plain args)

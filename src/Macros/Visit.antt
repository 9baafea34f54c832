-- ===== src/Macros/Visit.antt =====
-- The walk of `syn::visit_mut` over types, with what a visitor may do at a lifetime, at a reference
-- without a lifetime, and at the name of a path segment.
use dyn_utils.Prelude.{String, Bool, Option, none, some, List, [], ◌∷◌}
use dyn_utils.Macros.Syntax.{
  Ident, Lifetime, RustSyntax, path_type, reference, impl_trait, trait_object, tuple_type,
  compound_type, second_list, verbatim, qualified, Types, no_types, more_types, SynPath, segment,
  prefixed, Arguments, no_arguments, angle_bracketed, parenthesized, GenericArguments, no_generic,
  lifetime_argument, type_argument, assoc_type, other_argument, Bounds, no_bounds, trait_bound,
  lifetime_bound, precise_capture, Captures, no_captures, capture_lifetime, capture_ident,
}
pub mod Closed

pub record Visitor : Type 0 where
  pub on_lifetime : Lifetime → Lifetime
  pub on_elided : Option Lifetime
  pub on_segment : Ident → Ident

-- The lifetime of a reference: an elided one may be written out first, and is then visited.
abbrev pub visit_reference_lifetime : Visitor → Option Lifetime → Option Lifetime
visit_reference_lifetime vis (some lt) = some (vis.on_lifetime lt)
visit_reference_lifetime vis none = elim vis.on_elided [
  | none ↦ none
  | some lt ↦ some (vis.on_lifetime lt)
]

unfoldable mutual
  pub visit_type : Visitor → RustSyntax → RustSyntax
  visit_type vis (path_type p) = path_type (visit_path vis p)
  visit_type vis (reference lt mutability ty) =
      reference (visit_reference_lifetime vis lt) mutability (visit_type vis ty)
  visit_type vis (impl_trait bs) = impl_trait (visit_bounds vis bs)
  visit_type vis (trait_object bs) = trait_object (visit_bounds vis bs)
  visit_type vis (tuple_type ts) = tuple_type (visit_types vis ts)
  visit_type vis (compound_type s ts) = compound_type s (visit_types vis ts)
  visit_type vis (verbatim s) = verbatim s
  visit_type vis (qualified ty p i) =
      qualified (visit_type vis ty) (visit_path vis p) (vis.on_segment i)

  pub visit_types : Visitor → Types → Types
  visit_types vis no_types = no_types
  visit_types vis (more_types ty ts) = more_types (visit_type vis ty) (visit_types vis ts)

  pub visit_path : Visitor → SynPath → SynPath
  visit_path vis (segment i args) = segment (vis.on_segment i) (visit_arguments vis args)
  visit_path vis (prefixed i args p) =
      prefixed (vis.on_segment i) (visit_arguments vis args) (visit_path vis p)

  pub visit_arguments : Visitor → Arguments → Arguments
  visit_arguments vis no_arguments = no_arguments
  visit_arguments vis (angle_bracketed gs) = angle_bracketed (visit_generic_arguments vis gs)
  visit_arguments vis (parenthesized ts ty) = parenthesized (visit_types vis ts) (visit_type vis ty)
  visit_arguments vis (second_list args gs) =
      second_list (visit_arguments vis args) (visit_generic_arguments vis gs)

  pub visit_generic_arguments : Visitor → GenericArguments → GenericArguments
  visit_generic_arguments vis no_generic = no_generic
  visit_generic_arguments vis (lifetime_argument lt gs) =
      lifetime_argument (vis.on_lifetime lt) (visit_generic_arguments vis gs)
  visit_generic_arguments vis (type_argument ty gs) =
      type_argument (visit_type vis ty) (visit_generic_arguments vis gs)
  visit_generic_arguments vis (assoc_type i ty gs) =
      assoc_type i (visit_type vis ty) (visit_generic_arguments vis gs)
  visit_generic_arguments vis (other_argument s gs) =
      other_argument s (visit_generic_arguments vis gs)

  pub visit_bounds : Visitor → Bounds → Bounds
  visit_bounds vis no_bounds = no_bounds
  visit_bounds vis (trait_bound p bs) = trait_bound (visit_path vis p) (visit_bounds vis bs)
  visit_bounds vis (lifetime_bound lt bs) =
      lifetime_bound (vis.on_lifetime lt) (visit_bounds vis bs)
  visit_bounds vis (precise_capture cs bs) =
      precise_capture (visit_captures vis cs) (visit_bounds vis bs)

  pub visit_captures : Visitor → Captures → Captures
  visit_captures vis no_captures = no_captures
  visit_captures vis (capture_lifetime lt cs) =
      capture_lifetime (vis.on_lifetime lt) (visit_captures vis cs)
  visit_captures vis (capture_ident i cs) = capture_ident i (visit_captures vis cs)

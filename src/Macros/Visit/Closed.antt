-- ===== src/Macros/Visit/Closed.antt =====
-- What the walk of `syn::visit_mut` leaves behind: every lifetime, every elided one included, and
-- the name of every path segment has passed through the visitor.
use dyn_utils.Prelude.{Bool, true, ◌&&◌, Option, none, some, ◌≡◌, refl}
use dyn_utils.Macros.Shared.{and_intro}
use dyn_utils.Macros.Syntax.{
  Arguments, Bounds, Captures, GenericArguments, Ident, Lifetime, SynPath, RustSyntax, Types,
  angle_bracketed, assoc_type, capture_ident, capture_lifetime, impl_trait, lifetime_argument,
  lifetime_bound, more_types, no_arguments, no_bounds, no_captures, no_generic, no_types,
  other_argument, parenthesized, path_type, precise_capture, prefixed, qualified, reference,
  segment, trait_bound, trait_object, tuple_type, type_argument, compound_type, second_list,
  verbatim,
}
use dyn_utils.Macros.Visit.{
  Visitor, visit_arguments, visit_bounds, visit_captures, visit_generic_arguments, visit_path,
  visit_reference_lifetime, visit_type, visit_types,
}

-- A test of the lifetimes, of the segments' names, and whether a reference may have no lifetime.
pub record Check : Type 0 where
  pub lifetime_ok : Lifetime → Bool
  pub segment_ok : Ident → Bool
  pub elided_ok : Bool

abbrev pub lifetime_passes : Check → Option Lifetime → Bool
lifetime_passes c none = c.elided_ok
lifetime_passes c (some lt) = c.lifetime_ok lt

unfoldable mutual
  pub check_type : Check → RustSyntax → Bool
  check_type c (path_type p) = check_path c p
  check_type c (reference lt mutability ty) = lifetime_passes c lt && check_type c ty
  check_type c (impl_trait bs) = check_bounds c bs
  check_type c (trait_object bs) = check_bounds c bs
  check_type c (tuple_type ts) = check_types c ts
  check_type c (compound_type s ts) = check_types c ts
  check_type c (verbatim s) = true
  check_type c (qualified ty p i) = check_type c ty && (check_path c p && c.segment_ok i)

  pub check_types : Check → Types → Bool
  check_types c no_types = true
  check_types c (more_types ty ts) = check_type c ty && check_types c ts

  pub check_path : Check → SynPath → Bool
  check_path c (segment i args) = c.segment_ok i && check_arguments c args
  check_path c (prefixed i args p) = c.segment_ok i && (check_arguments c args && check_path c p)

  pub check_arguments : Check → Arguments → Bool
  check_arguments c no_arguments = true
  check_arguments c (angle_bracketed gs) = check_generic_arguments c gs
  check_arguments c (parenthesized ts ty) = check_types c ts && check_type c ty
  check_arguments c (second_list args gs) = check_arguments c args && check_generic_arguments c gs

  pub check_generic_arguments : Check → GenericArguments → Bool
  check_generic_arguments c no_generic = true
  check_generic_arguments c (lifetime_argument lt gs) =
      c.lifetime_ok lt && check_generic_arguments c gs
  check_generic_arguments c (type_argument ty gs) = check_type c ty && check_generic_arguments c gs
  check_generic_arguments c (assoc_type i ty gs) = check_type c ty && check_generic_arguments c gs
  check_generic_arguments c (other_argument s gs) = check_generic_arguments c gs

  pub check_bounds : Check → Bounds → Bool
  check_bounds c no_bounds = true
  check_bounds c (trait_bound p bs) = check_path c p && check_bounds c bs
  check_bounds c (lifetime_bound lt bs) = c.lifetime_ok lt && check_bounds c bs
  check_bounds c (precise_capture cs bs) = check_captures c cs && check_bounds c bs

  pub check_captures : Check → Captures → Bool
  check_captures c no_captures = true
  check_captures c (capture_lifetime lt cs) = c.lifetime_ok lt && check_captures c cs
  check_captures c (capture_ident i cs) = check_captures c cs

-- The visitor writes only what the test accepts.
pub record Establishes (vis : Visitor) (c : Check) : Type 0 where
  pub lifetimes_hold : (lt : Lifetime) → c.lifetime_ok (vis.on_lifetime lt) ≡ true
  pub segments_hold : (i : Ident) → c.segment_ok (vis.on_segment i) ≡ true
  pub elided_hold : vis.on_elided ≡ none → c.elided_ok ≡ true

module _ {vis : Visitor} {c : Check} (e : Establishes vis c) where
  passes-elided :
      (o : Option Lifetime)
      → vis.on_elided ≡ o
      → lifetime_passes c (elim o [ none ↦ none | some lt ↦ some (vis.on_lifetime lt) ]) ≡ true
  passes-elided none h = e.elided_hold h
  passes-elided (some lt) h = e.lifetimes_hold lt

  passes-visit_reference_lifetime :
      (lt : Option Lifetime) → lifetime_passes c (visit_reference_lifetime vis lt) ≡ true
  passes-visit_reference_lifetime (some lt) = e.lifetimes_hold lt
  passes-visit_reference_lifetime none = passes-elided vis.on_elided refl

  mutual
    unfolding check_type visit_type

    pub check-visit_type : (ty : RustSyntax) → check_type c (visit_type vis ty) ≡ true
    check-visit_type (path_type p) = check-visit_path p
    check-visit_type (reference lt mutability ty) =
        and_intro (passes-visit_reference_lifetime lt) (check-visit_type ty)
    check-visit_type (impl_trait bs) = check-visit_bounds bs
    check-visit_type (trait_object bs) = check-visit_bounds bs
    check-visit_type (tuple_type ts) = check-visit_types ts
    check-visit_type (compound_type s ts) = check-visit_types ts
    check-visit_type (verbatim s) = refl
    check-visit_type (qualified ty p i) =
        and_intro (check-visit_type ty) (and_intro (check-visit_path p) (e.segments_hold i))

    pub check-visit_types : (ts : Types) → check_types c (visit_types vis ts) ≡ true
    check-visit_types no_types = refl
    check-visit_types (more_types ty ts) = and_intro (check-visit_type ty) (check-visit_types ts)

    pub check-visit_path : (p : SynPath) → check_path c (visit_path vis p) ≡ true
    check-visit_path (segment i args) = and_intro (e.segments_hold i) (check-visit_arguments args)
    check-visit_path (prefixed i args p) =
        and_intro (e.segments_hold i) (and_intro (check-visit_arguments args) (check-visit_path p))

    pub check-visit_arguments :
        (as1 : Arguments) → check_arguments c (visit_arguments vis as1) ≡ true
    check-visit_arguments no_arguments = refl
    check-visit_arguments (angle_bracketed gs) = check-visit_generic_arguments gs
    check-visit_arguments (parenthesized ts ty) =
        and_intro (check-visit_types ts) (check-visit_type ty)
    check-visit_arguments (second_list args gs) =
        and_intro (check-visit_arguments args) (check-visit_generic_arguments gs)

    pub check-visit_generic_arguments :
        (gs : GenericArguments) → check_generic_arguments c (visit_generic_arguments vis gs) ≡ true
    check-visit_generic_arguments no_generic = refl
    check-visit_generic_arguments (lifetime_argument lt gs) =
        and_intro (e.lifetimes_hold lt) (check-visit_generic_arguments gs)
    check-visit_generic_arguments (type_argument ty gs) =
        and_intro (check-visit_type ty) (check-visit_generic_arguments gs)
    check-visit_generic_arguments (assoc_type i ty gs) =
        and_intro (check-visit_type ty) (check-visit_generic_arguments gs)
    check-visit_generic_arguments (other_argument s gs) = check-visit_generic_arguments gs

    pub check-visit_bounds : (bs : Bounds) → check_bounds c (visit_bounds vis bs) ≡ true
    check-visit_bounds no_bounds = refl
    check-visit_bounds (trait_bound p bs) = and_intro (check-visit_path p) (check-visit_bounds bs)
    check-visit_bounds (lifetime_bound lt bs) =
        and_intro (e.lifetimes_hold lt) (check-visit_bounds bs)
    check-visit_bounds (precise_capture cs bs) =
        and_intro (check-visit_captures cs) (check-visit_bounds bs)

    pub check-visit_captures : (cs : Captures) → check_captures c (visit_captures vis cs) ≡ true
    check-visit_captures no_captures = refl
    check-visit_captures (capture_lifetime lt cs) =
        and_intro (e.lifetimes_hold lt) (check-visit_captures cs)
    check-visit_captures (capture_ident i cs) = check-visit_captures cs

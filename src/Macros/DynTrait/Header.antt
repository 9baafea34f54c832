-- ===== src/Macros/DynTrait/Header.antt =====
-- The tokens before the body of the dyn trait, as macros/src/dyn_trait.rs quotes them, and the
-- grammar of a trait item that they are read by.
use dyn_utils.Prelude.{Bool, true, false, not, ◌≡◌, refl, ap, sym, ◌↔◌, List, [], ◌∷◌, ◌++◌}
use dyn_utils.Macros.Syntax.{
  Bounds, GenericParam, Ident, ItemTrait, Predicate, SynPath, lifetime_bound, no_bounds,
  precise_capture, success, trait_bound,
}
use dyn_utils.Macros.Utils.{is_empty}
use dyn_utils.Macros.Sync.{Casing}
use dyn_utils.Macros.DynTrait.{DynTraitOpts, DynTraitOutput, dyn_trait_impl, quote_dyn_trait}
use dyn_utils.Macros.DynTrait.Output.{dyn_trait_impl_output}

-- Tokens, those of one syntax tree together.
pub data HeaderToken : Type 0 where
  unsafe_token trait_token colon_token body_token : HeaderToken
  name_token : Ident → HeaderToken
  generics_token : List GenericParam → HeaderToken
  bounds_token : Bounds → HeaderToken
  where_token : List Predicate → HeaderToken

abbrev pub only_if {ℓ} : {A : Type ℓ} → Bool → A → List A
only_if true a = a ∷ []
only_if false a = []

abbrev pub is_no_bounds : Bounds → Bool
is_no_bounds no_bounds = true
is_no_bounds _ = false

-- Syntax without a token is quoted as nothing.
unfoldable pub quote_header : ItemTrait → List HeaderToken
quote_header trait =
    only_if (trait.is_unsafe) unsafe_token
    ++ (trait_token
        ∷ name_token trait.ident
        ∷ (only_if (not (is_empty trait.generics)) (generics_token trait.generics)
            ++ (only_if (not (is_no_bounds trait.supertraits)) (bounds_token trait.supertraits)
                ++ (only_if (not (is_empty trait.predicates)) (where_token trait.predicates)
                    ++ (body_token ∷ [])))))

-- The grammar of a trait item:
-- `unsafe? trait Name Generics? (: Bounds)? Where? { ... }`, read from its end.
abbrev is_body : List HeaderToken → Bool
is_body (body_token ∷ []) = true
is_body _ = false

abbrev is_where : List HeaderToken → Bool
is_where (where_token ps ∷ ts) = is_body ts
is_where ts = is_body ts

abbrev is_supertraits : List HeaderToken → Bool
is_supertraits (colon_token ∷ bounds_token bs ∷ ts) = is_where ts
is_supertraits (colon_token ∷ ts) = is_where ts
is_supertraits ts = is_where ts

abbrev is_generics : List HeaderToken → Bool
is_generics (generics_token ps ∷ ts) = is_supertraits ts
is_generics ts = is_supertraits ts

abbrev is_trait : List HeaderToken → Bool
is_trait (trait_token ∷ name_token i ∷ ts) = is_generics ts
is_trait _ = false

unfoldable pub is_trait_header : List HeaderToken → Bool
is_trait_header (unsafe_token ∷ ts) = is_trait ts
is_trait_header ts = is_trait ts

abbrev quote_end : Bounds → List Predicate → List HeaderToken
quote_end bs ps =
    only_if (not (is_no_bounds bs)) (bounds_token bs)
    ++ (only_if (not (is_empty ps)) (where_token ps) ++ (body_token ∷ []))

supertraits-quote_end :
    (bs : Bounds) (ps : List Predicate) → is_supertraits (quote_end bs ps) ≡ is_no_bounds bs
supertraits-quote_end no_bounds [] = refl
supertraits-quote_end no_bounds (p ∷ ps) = refl
supertraits-quote_end (trait_bound p bs) ps = refl
supertraits-quote_end (lifetime_bound lt bs) ps = refl
supertraits-quote_end (precise_capture cs bs) ps = refl

generics-quote_end :
    (gs : List GenericParam) (bs : Bounds) (ps : List Predicate)
    → is_generics (only_if (not (is_empty gs)) (generics_token gs) ++ quote_end bs ps)
      ≡ is_no_bounds bs
generics-quote_end (g ∷ gs) bs ps = supertraits-quote_end bs ps
generics-quote_end [] no_bounds [] = refl
generics-quote_end [] no_bounds (p ∷ ps) = refl
generics-quote_end [] (trait_bound p bs) ps = refl
generics-quote_end [] (lifetime_bound lt bs) ps = refl
generics-quote_end [] (precise_capture cs bs) ps = refl

header-quote_header :
    (trait : ItemTrait) → is_trait_header (quote_header trait) ≡ is_no_bounds trait.supertraits
unfolding is_trait_header quote_header
header-quote_header trait =
    elim trait.is_unsafe
      as (λ u.
        is_trait_header (
          only_if u unsafe_token
          ++ (trait_token
              ∷ name_token trait.ident
              ∷ (only_if (not (is_empty trait.generics)) (generics_token trait.generics)
                  ++ quote_end trait.supertraits trait.predicates)))
        ≡ is_no_bounds trait.supertraits) [
          | true ↦ generics-quote_end trait.generics trait.supertraits trait.predicates
          | false ↦ generics-quote_end trait.generics trait.supertraits trait.predicates
        ]

no_bounds_iff : (bs : Bounds) → (is_no_bounds bs ≡ true) ↔ (bs ≡ no_bounds)
no_bounds_iff no_bounds = (λ h. refl, λ h. refl)
no_bounds_iff (trait_bound p bs) = (λ h. cc, λ h. cc)
no_bounds_iff (lifetime_bound lt bs) = (λ h. cc, λ h. cc)
no_bounds_iff (precise_capture cs bs) = (λ h. cc, λ h. cc)

supertraits-dyn_trait_impl :
    (casing : Casing) (crate_name : SynPath) (trait : ItemTrait) (opts : DynTraitOpts)
    (out : DynTraitOutput)
    → dyn_trait_impl casing crate_name trait opts ≡ success out
    → out.dyn_trait.supertraits ≡ trait.supertraits
unfolding quote_dyn_trait
supertraits-dyn_trait_impl casing crate_name trait opts out h =
    let (extracted, _, parsed, _, same) =
      dyn_trait_impl_output casing crate_name trait opts out h in
    ap (λ o. o.dyn_trait.supertraits) (sym same)

-- The trait that `dyn_trait` writes has the syntax of a trait if and only if the trait that it is
-- given has no supertraits: their bounds are written after the generics with no colon.
pub dyn_trait_impl-header :
    (casing : Casing) (crate_name : SynPath) (trait : ItemTrait) (opts : DynTraitOpts)
    (out : DynTraitOutput)
    → dyn_trait_impl casing crate_name trait opts ≡ success out
    → (is_trait_header (quote_header out.dyn_trait) ≡ true) ↔ (trait.supertraits ≡ no_bounds)
dyn_trait_impl-header casing crate_name trait opts out h =
    rw
      (
        header-quote_header out.dyn_trait,
        supertraits-dyn_trait_impl casing crate_name trait opts out h,
      )
      (no_bounds_iff trait.supertraits)

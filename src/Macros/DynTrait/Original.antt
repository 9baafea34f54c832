-- ===== src/Macros/DynTrait/Original.antt =====
-- macros/src/dyn_trait.rs: what becomes of the trait itself, and of the attributes on it.
use dyn_utils.Prelude.{
  Bool, true, false, ◌≡◌, some, none, refl, sym, ap, ◌∙◌, if◌then◌else◌, List, [], ◌∷◌, ◌++◌, map,
}
use dyn_utils.Macros.Shared.{if-failure, success-bind, success-injective}
use dyn_utils.Macros.Syntax.{
  ItemTrait, SynPath, TraitAttribute, list_attribute, list_tokens, no_arguments, plain_attribute,
  segment, success,
}
use dyn_utils.Macros.Parts.{unwrap_or}
use dyn_utils.Macros.Utils.{is_none}
use dyn_utils.Macros.Sync.{Casing}
use dyn_utils.Macros.DynTrait.{
  DynTraitOpts, DynTraitOutput, DynTrait, doc_link, doc_text, dyn_trait_impl,
  extract_dyn_trait_attrs, is_dyn_trait_path, new, quote_dyn_trait,
}
use dyn_utils.Macros.DynTrait.Leftover.{hidden_items, kept, parse_items-Leaves}
use dyn_utils.Macros.DynTrait.Output.{dyn_trait_impl_output}

-- The attributes inside `#[dyn_trait(...)]`, and the other attributes.
abbrev pub wrapped : List TraitAttribute → List TraitAttribute
wrapped [] = []
wrapped (list_attribute p inner ∷ attrs) =
    if is_dyn_trait_path p then inner ∷ wrapped attrs else wrapped attrs
wrapped (list_tokens p s ∷ attrs) = wrapped attrs
wrapped (plain_attribute p s ∷ attrs) = wrapped attrs

abbrev pub unwrapped : List TraitAttribute → List TraitAttribute
unwrapped [] = []
unwrapped (list_attribute p inner ∷ attrs) =
    if is_dyn_trait_path p then unwrapped attrs else list_attribute p inner ∷ unwrapped attrs
unwrapped (list_tokens p s ∷ attrs) = list_tokens p s ∷ unwrapped attrs
unwrapped (plain_attribute p s ∷ attrs) = plain_attribute p s ∷ unwrapped attrs

pub extract_dyn_trait_attrs_lem :
    (attrs : List TraitAttribute) (out : List TraitAttribute × List TraitAttribute)
    → extract_dyn_trait_attrs attrs ≡ success out
    → (out.0 ≡ wrapped attrs) × (out.1 ≡ unwrapped attrs)
unfolding extract_dyn_trait_attrs
extract_dyn_trait_attrs_lem [] out h =
    let same = sym (success-injective h) in (ap (λ o. o.0) same, ap (λ o. o.1) same)
extract_dyn_trait_attrs_lem (list_attribute p inner ∷ attrs) out h =
    let (rest, eq, h1) = success-bind (extract_dyn_trait_attrs attrs) _ _ h in
    let ih = extract_dyn_trait_attrs_lem attrs rest eq in
    split p inner rest out (is_dyn_trait_path p) ih h1
  where
    split :
        (p : SynPath) (inner : TraitAttribute)
        (rest out : List TraitAttribute × List TraitAttribute) (b : Bool)
        → (rest.0 ≡ wrapped attrs) × (rest.1 ≡ unwrapped attrs)
        → success
            (if b then (inner ∷ rest.0, rest.1) else (rest.0, list_attribute p inner ∷ rest.1))
          ≡ success out
        → (out.0 ≡ (if b then inner ∷ wrapped attrs else wrapped attrs))
          × (out.1 ≡ (if b then unwrapped attrs else list_attribute p inner ∷ unwrapped attrs))
    split p inner rest out true (w, u) h =
        let same = sym (success-injective h) in
        (ap (λ o. o.0) same ∙ ap (λ as1. inner ∷ as1) w, ap (λ o. o.1) same ∙ u)
    split p inner rest out false (w, u) h =
        let same = sym (success-injective h) in
        (ap (λ o. o.0) same ∙ w, ap (λ o. o.1) same ∙ ap (λ as1. list_attribute p inner ∷ as1) u)
extract_dyn_trait_attrs_lem (list_tokens p s ∷ attrs) out h =
    let (rest, eq, h1) = success-bind (extract_dyn_trait_attrs attrs) _ _ (if-failure _ _ _ _ h) in
    let ih = extract_dyn_trait_attrs_lem attrs rest eq in
    let same = sym (success-injective h1) in
    (ap (λ o. o.0) same ∙ ih.0, ap (λ o. o.1) same ∙ ap (λ as1. list_tokens p s ∷ as1) ih.1)
extract_dyn_trait_attrs_lem (plain_attribute p s ∷ attrs) out h =
    let (rest, eq, h1) = success-bind (extract_dyn_trait_attrs attrs) _ _ (if-failure _ _ _ _ h) in
    let ih = extract_dyn_trait_attrs_lem attrs rest eq in
    let same = sym (success-injective h1) in
    (ap (λ o. o.0) same ∙ ih.0, ap (λ o. o.1) same ∙ ap (λ as1. plain_attribute p s ∷ as1) ih.1)

-- When `dyn_trait` succeeds, the dyn trait is documented by a text and a link to the path of the trait,
-- which is that of `remote` or else the trait's name, and its attributes after that are those that
-- are wrapped in `dyn_trait` on the trait, in order. A trait that is remote is not written again. Any
-- other keeps its other attributes and all its items in order, its dispatchable methods less their
-- `dyn_trait` attributes. After them come, for each dispatchable `maybe_sync` method, the hidden
-- method, with the method's arguments, the output that is awaited and a body that discards the
-- arguments and panics, and the hidden constant, which is false.
pub dyn_trait_impl-original :
    (casing : Casing) (crate_name : SynPath) (trait : ItemTrait) (opts : DynTraitOpts)
    (out : DynTraitOutput)
    → dyn_trait_impl casing crate_name trait opts ≡ success out
    → (out.docs
        ≡ doc_text "Dyn-compatible implementation of"
          ∷ doc_link trait.ident (unwrap_or opts.remote (segment trait.ident no_arguments))
          ∷ [])
      × (out.dyn_trait.attrs ≡ wrapped trait.attrs)
      × (out.opt_trait ≡ (
          if is_none opts.remote
          then some (record trait {
            attrs = unwrapped trait.attrs;
            items = map kept trait.items ++ hidden_items casing trait.items;
          })
          else none))
unfolding quote_dyn_trait new
dyn_trait_impl-original casing crate_name trait opts out eq =
    let (extracted, eq1, parsed, eq2, same) =
      dyn_trait_impl_output casing crate_name trait opts out eq in
    let (inner, others) = extract_dyn_trait_attrs_lem trait.attrs extracted eq1 in
    let start : DynTrait = new casing crate_name record trait { attrs = extracted.1 } opts in
    let (left, added, same_fixed) = parse_items-Leaves casing trait.items start parsed eq2 in
    let remote : parsed.0.remote ≡ start.remote = ap (λ f. f.1) same_fixed in
    let include : parsed.0.include_trait ≡ start.include_trait = ap (λ f. f.0) same_fixed in
    (
      ap (λ o. o.docs) (sym same)
          ∙ ap (λ p. doc_text "Dyn-compatible implementation of" ∷ doc_link trait.ident p ∷ [])
              remote,
      ap (λ o. o.dyn_trait.attrs) (sym same) ∙ inner,
      ap (λ o. o.opt_trait) (sym same) ∙ rw (include, others, left, added) refl,
    )

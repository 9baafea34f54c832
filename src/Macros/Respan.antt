-- ===== src/Macros/Respan.antt =====
-- macros/src/utils.rs: `respan`, on token trees with the source positions that errors are reported
-- at.
use mathlib.Core.List.{map-append}
use dyn_utils.Prelude.{String, ◌≡◌, refl, sym, ap, ◌∙◌, List, [], ◌∷◌, ◌++◌, map}

module _ (Span : Type 0) where
  mutual
    pub data TokenTree : Type 0 where
      -- a delimiter with what it encloses, and its position
      group : String → TokenTrees → Span → TokenTree
      token : String → Span → TokenTree

    pub data TokenTrees : Type 0 where
      no_trees : TokenTrees
      more_trees : TokenTree → TokenTrees → TokenTrees

module _ {Span : Type 0} where
  unfoldable mutual
    -- `Group::new` gives the group anew, and `set_span` its position.
    pub respan_tree : TokenTree Span → Span → TokenTree Span
    respan_tree (group delimiter stream s) span = group delimiter (respan stream span) span
    respan_tree (token text s) span = token text span

    pub respan : TokenTrees Span → Span → TokenTrees Span
    respan no_trees span = no_trees
    respan (more_trees t ts) span = more_trees (respan_tree t span) (respan ts span)

  -- The tokens with no positions.
  abbrev mutual
    pub tree_tokens : TokenTree Span → TokenTree (Unit {0})
    tree_tokens (group delimiter stream s) = group delimiter (tokens stream) tt
    tree_tokens (token text s) = token text tt

    pub tokens : TokenTrees Span → TokenTrees (Unit {0})
    tokens no_trees = no_trees
    tokens (more_trees t ts) = more_trees (tree_tokens t) (tokens ts)

  abbrev mutual
    pub tree_spans : TokenTree Span → List Span
    tree_spans (group delimiter stream s) = s ∷ spans stream
    tree_spans (token text s) = s ∷ []

    pub spans : TokenTrees Span → List Span
    spans no_trees = []
    spans (more_trees t ts) = tree_spans t ++ spans ts

  mutual
    unfolding respan

    respan_tree_lem :
        (t : TokenTree Span) (span : Span)
        → (tree_tokens (respan_tree t span) ≡ tree_tokens t)
          × (tree_spans (respan_tree t span) ≡ map (λ _. span) (tree_spans t))
    respan_tree_lem (group delimiter stream s) span =
        let (same, all) = respan_lem stream span in
        (ap (λ ts. group delimiter ts tt) same, ap (λ ss. span ∷ ss) all)
    respan_tree_lem (token text s) span = (refl, refl)

    -- `respan` changes no token, and gives each token and each group the position.
    pub respan_lem :
        (ts : TokenTrees Span) (span : Span)
        → (tokens (respan ts span) ≡ tokens ts)
          × (spans (respan ts span) ≡ map (λ _. span) (spans ts))
    respan_lem no_trees span = (refl, refl)
    respan_lem (more_trees t ts) span =
        let (same, all) = respan_tree_lem t span in
        let (sames, alls) = respan_lem ts span in
        (
          rw (same, sames) refl,
          ap (λ ss. ss ++ spans (respan ts span)) all
              ∙ ap (λ ss. map (λ _. span) (tree_spans t) ++ ss) alls
              ∙ sym (map-append (λ _. span) (tree_spans t) (spans ts)),
        )
